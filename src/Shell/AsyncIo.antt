-- ===== src/Shell/AsyncIo.antt =====
-- crates/russh-extra/src/shell.rs: `ShellAsyncIo` and its task `run_channel_bridge`. The two queues
-- between them are lists. What the task asks of the channel is kept in order; it drops the results.
use russh_extra.Base.{
  ℕ, ◌+◌, Bytes, Text, Bool, true, false, List, [], ◌∷◌, ◌++◌, length, take, drop, min, ltb, ◌||◌,
  if◌then◌else◌,
}
use russh_extra.Client.Command.{
  ChannelMsg, success, failure, data_msg, extended_data, exit_status, exit_signal, eof_msg,
  close_msg, other_msg,
}
use russh_extra.Core.Error.{CommandExit, status, signal, missing}
use russh_extra.Shell.Handle.{ShellHandle}

pub data ShellCmd : Type 0 where
  write : Bytes → ShellCmd
  eof : ShellCmd
  resize : ℕ → ℕ → ShellCmd
  send_signal : Text → ShellCmd

-- Its ends of the queues are with the task's.
pub record ShellAsyncIo : Type 0 where
  pub read_buf : Bytes
  pub read_pos : ℕ
  pub eof_sent : Bool

pub record Bridge : Type 0 where
  pub messages : List ChannelMsg
  pub asked : List ShellCmd
  pub read_queue : List Bytes
  pub commands : List ShellCmd
  pub exit : CommandExit
  pub cmd_closed : Bool
  pub ended : Bool
  pub dropped : Bool
  pub io : ShellAsyncIo

-- `into_async_io`: of the handle the channel is kept alone.
unfoldable pub into_async_io : ShellHandle → List ChannelMsg → Bridge
into_async_io h messages = record {
  messages = messages;
  asked = [];
  read_queue = [];
  commands = [];
  exit = missing;
  cmd_closed = false;
  ended = false;
  dropped = false;
  io = record { read_buf = []; read_pos = 0; eof_sent = false };
}

pub data Poll (A : Type 0) : Type 0 where
  pending : Poll A
  ready : A → Poll A

-- What a received piece leaves in the buffer.
unfoldable pub keep_rest : Bytes → ℕ → ShellAsyncIo → ShellAsyncIo
keep_rest bytes n io =
    if ltb n (length bytes) then record io { read_buf = bytes; read_pos = n } else io

unfoldable pub poll_recv : ℕ → List Bytes → Bridge → Poll Bytes × Bridge
poll_recv size [] b = if b.ended then (ready [], b) else (pending, b)
poll_recv size (bytes ∷ queue) b =
    let n = min (length bytes) size in
    (ready (take n bytes), record b { read_queue = queue; io = keep_rest bytes n b.io })

-- `poll_read` with room for `size` bytes.
unfoldable pub poll_read : ℕ → Bridge → Poll Bytes × Bridge
poll_read size b =
    let remaining = drop b.io.read_pos b.io.read_buf in
    let n = min (length remaining) size in
    if ltb b.io.read_pos (length b.io.read_buf)
    then (ready (take n remaining), record b { io = record b.io { read_pos = b.io.read_pos + n } })
    else poll_recv size b.read_queue b

-- `cmd_tx.send`, and whether the task was there to take it.
unfoldable pub send : ShellCmd → Bridge → Bool × Bridge
send command b =
    if b.ended then (false, b) else (true, record b { commands = b.commands ++ command ∷ [] })

-- The result of `poll_write`: the bytes taken, or a broken pipe.
pub data Written : Type 0 where
  taken : ℕ → Written
  broken_pipe : Written

unfoldable pub poll_write : Bytes → Bridge → Written × Bridge
poll_write [] b = (taken 0, b)
poll_write (c ∷ cs) b =
    let (sent, b') = send (write (c ∷ cs)) b in
    if sent then (taken (length (c ∷ cs)), b') else (broken_pipe, b')

unfoldable pub poll_shutdown : Bridge → Bridge
poll_shutdown b =
    let b' = (send eof b).1 in
    if b.io.eof_sent then b else record b' { io = record b'.io { eof_sent = true } }

-- `let _ = read_tx.send(…)`
unfoldable pub forward : Bytes → Bridge → Bridge
forward bytes b = if b.dropped then b else record b { read_queue = b.read_queue ++ bytes ∷ [] }

-- A message in the task's loop; only data ends it when nobody reads.
unfoldable pub on_message : ChannelMsg → Bridge → Bridge
on_message (data_msg bytes) b =
    let b' = forward bytes b in
    if b.cmd_closed then b' else if b.dropped then record b { ended = true } else b'
on_message (extended_data code bytes) b = forward bytes b
on_message (exit_status n) b = record b { exit = status n }
on_message (exit_signal name core_dumped) b = record b { exit = signal name core_dumped }
on_message close_msg b = record b { ended = true }
on_message success b = b
on_message failure b = b
on_message eof_msg b = b
on_message other_msg b = b

unfoldable pub next_message : List ChannelMsg → Bridge → Bridge
next_message [] b = record b { ended = true }
next_message (message ∷ messages) b = on_message message (record b { messages = messages })

-- The arm of `channel.wait()`.
unfoldable pub receive : Bridge → Bridge
receive b = if b.ended then b else next_message b.messages b

unfoldable pub next_command : List ShellCmd → Bridge → Bridge
next_command [] b = if b.dropped then record b { cmd_closed = true } else b
next_command (command ∷ commands) b = record b {
  commands = commands;
  asked = b.asked ++ command ∷ [];
}

-- The arm of `cmd_rx.recv()`, which is not polled behind the last command.
unfoldable pub serve : Bridge → Bridge
serve b = if b.ended || b.cmd_closed then b else next_command b.commands b

-- Who moves next: the task, by an arm of its `select!`, or the owner of the `ShellAsyncIo`.
pub data Move : Type 0 where
  receives serves shuts_down drops : Move
  reads : ℕ → Move
  writes : Bytes → Move
  resizes : ℕ → ℕ → Move
  signals : Text → Move

abbrev pub got : Poll Bytes → Bytes
got pending = []
got (ready bytes) = bytes

abbrev pub accepted : Bytes → Written → Bytes
accepted bytes (taken n) = take n bytes
accepted bytes broken_pipe = []

-- Its owner moves no more once it is dropped.
unfoldable pub owned : Bridge → Bytes × Bytes × Bridge → Bytes × Bytes × Bridge
owned b moved = if b.dropped then ([], [], b) else moved

-- The bytes that a move gives to the owner, those that it takes, and the new state.
unfoldable pub move : Move → Bridge → Bytes × Bytes × Bridge
move receives b = ([], [], receive b)
move serves b = ([], [], serve b)
move drops b = ([], [], record b { dropped = true })
move shuts_down b = owned b ([], [], poll_shutdown b)
move (reads size) b = let (result, b') = poll_read size b in owned b (got result, [], b')
move (writes bytes) b =
    let (result, b') = poll_write bytes b in owned b ([], accepted bytes result, b')
move (resizes cols rows) b = owned b ([], [], (send (resize cols rows) b).1)
move (signals name) b = owned b ([], [], (send (send_signal name) b).1)

unfoldable pub run : List Move → Bridge → Bytes × Bytes × Bridge
run [] b = ([], [], b)
run (m ∷ ms) b =
    let (bytes, input, b') = move m b in
    let (more, more_input, b'') = run ms b' in (bytes ++ more, input ++ more_input, b'')
