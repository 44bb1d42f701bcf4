-- ===== src/Sftp/Client/Runtime.antt =====
-- crates/russh-extra/src/sftp/client.rs: the state that the client's tasks share, and the steps of
-- the tasks on it. A step is what a task does between two waits; setting the abort reason and taking
-- the waiting requests, which lock in turn in the source, is one step here.
use russh_extra.Base.{
  ℕ, ◌+◌, ◌%◌, ◌^◌, ◌++◌, Bytes, Text, List, [], ◌∷◌, map, Option, none, some, unwrap_or,
  if◌then◌else◌,
}
use russh_extra.Base.Text.{text, decimal}
use russh_extra.Base.Assoc.{insert, remove, contains_key}
use russh_extra.Core.Error.{Error, Result, err, SftpErrorKind, sftp_error}
use russh_extra.Sftp.Framing.{Split, complete, bad_length, out_of_fuel, split_packets}
use russh_extra.Sftp.Client.Responses.{SftpResponse, Delivery, decode_response}

-- `pending` holds the id of each request whose sender is in the map; `delivered` is what the senders
-- were given, oldest first.
pub record ClientState : Type 0 where
  pub pending : List (ℕ × Unit {0})
  pub next_id : ℕ
  pub abort_reason : Option Text
  pub delivered : List Delivery

-- `connect` starts the tasks with this state.
unfoldable pub connected : ClientState
connected = record { pending = []; next_id = 10; abort_reason = none; delivered = [] }

-- `fetch_add(1)` on an `AtomicU32` wraps.
unfoldable pub next_request_id : ClientState → ℕ × ClientState
next_request_id st = (st.next_id, record st { next_id = (st.next_id + 1) % 2 ^ 32 })

-- The start of `send_and_await`: `pending.insert(id, tx)`.
unfoldable pub begin_request : ℕ → ClientState → ClientState
begin_request id st = record st { pending = insert id tt st.pending }

-- `if let Some(tx) = pending.remove(&id) { tx.send(result) }`
unfoldable pub deliver : Delivery → ClientState → ClientState
deliver (id, result) st =
    if contains_key st.pending id
    then record st { pending = remove id st.pending; delivered = st.delivered ++ (id, result) ∷ [] }
    else st

unfoldable pub dispatch_response : Bytes → ClientState → ClientState
dispatch_response [] st = st
dispatch_response (packet_type ∷ payload) st = deliver (decode_response packet_type payload) st

unfoldable pub dispatch_all : List Bytes → ClientState → ClientState
dispatch_all [] st = st
dispatch_all (p ∷ ps) st = dispatch_all ps (dispatch_response p st)

abbrev pub failed_with : Error → ℕ × Unit {0} → Delivery
failed_with e (id, _) = (id, err e)

-- `for (_, tx) in map.drain() { tx.send(Err(…)) }`, behind setting the abort reason.
unfoldable pub fail_all : SftpErrorKind → Text → ClientState → ClientState
fail_all kind reason st = record st {
  abort_reason = some reason;
  pending = [];
  delivered = st.delivered ++ map (failed_with (sftp_error kind reason)) st.pending;
}

-- What `read_half.wait()` returns.
pub data ChannelMsg : Type 0 where
  incoming : Bytes → ChannelMsg
  closed : ChannelMsg
  other : ChannelMsg

-- The read task between two messages: its buffer while it runs, none when it has returned.
abbrev pub ReadTask : Type 0
ReadTask = Option Bytes

invalid_length : ℕ → Text
invalid_length len = text "SFTP protocol error: invalid packet length " ++ decimal len

unfoldable pub after_split : Split → ClientState → ReadTask × ClientState
unfolding invalid_length
after_split (complete ps rest) st = (some rest, dispatch_all ps st)
after_split (bad_length ps len) st =
    (none, fail_all SftpErrorKind.protocol (invalid_length len) (dispatch_all ps st))
after_split out_of_fuel st = (none, st)

-- One round of `read_task`.
unfoldable pub read_task : ChannelMsg → ReadTask × ClientState → ReadTask × ClientState
unfolding after_split
read_task msg (none, st) = (none, st)
read_task (incoming bytes) (some buf, st) = after_split (split_packets (buf ++ bytes)) st
read_task closed (some buf, st) = (none, st)
read_task other (some buf, st) = (some buf, st)

-- The end of `write_task`: a failed write, or every sender of the queue gone.
unfoldable pub write_task_ends : Option Text → ClientState → ClientState
write_task_ends write_error st =
    fail_all SftpErrorKind.channel_io (unwrap_or write_error (text "SFTP channel closed")) st

-- The end of `send_and_await` when the sender was dropped: the abort reason is taken.
unfoldable pub cancelled_request : ClientState → Result SftpResponse × ClientState
unfolding sftp_error
cancelled_request st = (
  err (
      sftp_error SftpErrorKind.channel_io
        (unwrap_or st.abort_reason (text "SFTP request cancelled"))),
  record st { abort_reason = none },
)
