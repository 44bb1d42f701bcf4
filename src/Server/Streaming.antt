-- ===== src/Server/Streaming.antt =====
-- crates/russh-extra/src/server.rs: the task that `run_streaming_exec` starts, and the handler that
-- writes to it. A schedule says how the two take turns; the replies are what is sent on the channel,
-- whose errors the task ignores.
use russh_extra.Base.{ℕ, ◌+◌, Bytes, Bool, true, false, List, [], ◌∷◌, ◌++◌, if◌then◌else◌}
use russh_extra.Base.Text.{text}
use russh_extra.Base.Assoc.{remove}
use russh_extra.Core.Error.{
  Error, Result, ok, err, ChannelErrorKind, category_error_with_source, CommandExit, status, signal,
  missing,
}
use russh_extra.Server.Runtime.{
  ServerSession, Reply, send_data, extended_data, exit_status_request, exit_signal_request, eof,
  close,
}

pub data StreamingExecCmd : Type 0 where
  stdout : Bytes → StreamingExecCmd
  stderr : Bytes → StreamingExecCmd
  exited : CommandExit → StreamingExecCmd

-- How the handler's task ended.
pub data HandlerEnd : Type 0 where
  returned : HandlerEnd
  returned_error : Error → HandlerEnd
  panicked : HandlerEnd

unfoldable pub exit_replies : ℕ → CommandExit → List Reply
exit_replies channel (status n) = exit_status_request channel n ∷ []
exit_replies channel (signal name core_dumped) = exit_signal_request channel name core_dumped ∷ []
exit_replies channel missing = []

-- The loop over the commands, up to the end of the queue or an exit; with whether an exit was seen.
unfoldable pub pump : ℕ → List StreamingExecCmd → List Reply × Bool
pump channel [] = ([], false)
pump channel (stdout bytes ∷ cmds) =
    let (replies, exit_sent) = pump channel cmds in (send_data channel bytes ∷ replies, exit_sent)
pump channel (stderr bytes ∷ cmds) =
    let (replies, exit_sent) = pump channel cmds in
    (extended_data channel 1 bytes ∷ replies, exit_sent)
pump channel (exited exit ∷ cmds) = (exit_replies channel exit, true)

unfoldable pub exit_code : HandlerEnd → ℕ
exit_code returned = 0
exit_code (returned_error e) = 1
exit_code panicked = 1

-- Behind the loop, when the handler has ended.
unfoldable pub last_replies : ℕ → Bool → HandlerEnd → List Reply
unfolding exit_code
last_replies channel exit_sent end =
    if exit_sent
    then eof channel ∷ close channel ∷ []
    else exit_status_request channel (exit_code end) ∷ eof channel ∷ close channel ∷ []

-- All that the task sends, for the commands that it reads.
unfoldable pub task : ℕ → List StreamingExecCmd → HandlerEnd → List Reply
task channel cmds end =
    let (replies, exit_sent) = pump channel cmds in replies ++ last_replies channel exit_sent end

-- `stdin_txs.remove(&channel)`, at its end.
unfoldable pub end_task : {S F : Type 0} → ℕ → ServerSession S F → ServerSession S F
end_task channel st = record st { stdin_txs = remove channel st.stdin_txs }

-- The queue between the handler and the task. It is closed when the task has seen an exit.
pub record Pipe : Type 0 where
  pub queue : List StreamingExecCmd
  pub exit_sent : Bool
  pub replies : List Reply

abbrev pub new_pipe : Pipe
new_pipe = record { queue = []; exit_sent = false; replies = [] }

-- `StreamingExecContext::stdout` and the other writers.
unfoldable pub write : StreamingExecCmd → Pipe → Result (Unit {0}) × Pipe
unfolding category_error_with_source
write cmd p =
    if p.exit_sent
    then (
      err (
          Error.channel (
            category_error_with_source ChannelErrorKind.close (text "exec channel closed")
              (record { shown = text "channel closed" }))),
      p,
    )
    else (ok tt, record p { queue = p.queue ++ cmd ∷ [] })

-- One round of the loop.
unfoldable pub poll : ℕ → Pipe → Pipe
poll channel p = if p.exit_sent then p else elim p.queue [
  | [] ↦ p
  | stdout bytes ∷ cmds ↦ record p {
    queue = cmds;
    replies = p.replies ++ send_data channel bytes ∷ [];
  }
  | stderr bytes ∷ cmds ↦ record p {
    queue = cmds;
    replies = p.replies ++ extended_data channel 1 bytes ∷ [];
  }
  | exited exit ∷ cmds ↦ record p {
    queue = cmds;
    exit_sent = true;
    replies = p.replies ++ exit_replies channel exit;
  }
]

pub data Turn : Type 0 where
  writes : StreamingExecCmd → Turn
  polls : Turn

unfoldable pub take_turns : ℕ → List Turn → Pipe → Pipe
take_turns channel [] p = p
take_turns channel (writes cmd ∷ turns) p = take_turns channel turns (write cmd p).1
take_turns channel (polls ∷ turns) p = take_turns channel turns (poll channel p)

-- The handler has ended: what is left in the queue is read.
unfoldable pub finish : ℕ → HandlerEnd → Pipe → List Reply
finish channel end p =
    if p.exit_sent
    then p.replies ++ last_replies channel true end
    else p.replies ++ task channel p.queue end

-- What the handler wrote, in its order.
abbrev pub written : List Turn → List StreamingExecCmd
written [] = []
written (writes cmd ∷ turns) = cmd ∷ written turns
written (polls ∷ turns) = written turns

abbrev pub is_exit : Reply → Bool
is_exit (Reply.channel_success channel) = false
is_exit (Reply.channel_failure channel) = false
is_exit (send_data channel bytes) = false
is_exit (extended_data channel code bytes) = false
is_exit (exit_status_request channel n) = true
is_exit (exit_signal_request channel name core_dumped) = true
is_exit (eof channel) = false
is_exit (close channel) = false

-- The number of exits among the replies.
unfoldable pub exits : List Reply → ℕ
exits [] = 0
exits (r ∷ replies) = let rest = exits replies in if is_exit r then rest + 1 else rest

-- Whether the handler gives `CommandExit::Missing` as its exit.
unfoldable pub gives_missing : List StreamingExecCmd → Bool
gives_missing [] = false
gives_missing (stdout bytes ∷ cmds) = gives_missing cmds
gives_missing (stderr bytes ∷ cmds) = gives_missing cmds
gives_missing (exited (status n) ∷ cmds) = false
gives_missing (exited (signal name core_dumped) ∷ cmds) = false
gives_missing (exited missing ∷ cmds) = true
