-- ===== src/Shell/Handle.antt =====
-- crates/russh-extra/src/shell.rs: `ShellHandle`. The channel is given by the messages that `wait`
-- still gives, up to where it has no more.
use russh_extra.Base.{
  ℕ, Bytes, Bool, true, false, Option, none, some, List, [], ◌∷◌, ◌++◌, length, take, drop, min,
  ltb, if◌then◌else◌,
}
use russh_extra.Client.Command.{
  ChannelMsg, success, failure, data_msg, extended_data, exit_status, exit_signal, eof_msg,
  close_msg, other_msg,
}
use russh_extra.Core.Error.{CommandExit, status, signal, missing}

pub record ShellHandle : Type 0 where
  pub stdout_buf : Bytes
  pub stderr_buf : Bytes
  pub exit : CommandExit
  pub closed : Bool

-- The handle that `open` gives.
abbrev pub new_handle : ShellHandle
new_handle = record { stdout_buf = []; stderr_buf = []; exit = missing; closed = false }

-- The bytes that a read puts in the buffer, the handle, and the messages that are left.
abbrev pub Reading : Type 0
Reading = Bytes × ShellHandle × List ChannelMsg

-- A new message's bytes: what fits is read, and the rest is kept.
unfoldable pub read_stdout : ℕ → Bytes → ShellHandle → List ChannelMsg → Reading
read_stdout size bytes h messages =
    let n = min (length bytes) size in
    if ltb n (length bytes)
    then (take n bytes, record h { stdout_buf = h.stdout_buf ++ drop n bytes }, messages)
    else (take n bytes, h, messages)

unfoldable pub read_stderr : ℕ → Bytes → ShellHandle → List ChannelMsg → Reading
read_stderr size bytes h messages =
    let n = min (length bytes) size in
    if ltb n (length bytes)
    then (take n bytes, record h { stderr_buf = h.stderr_buf ++ drop n bytes }, messages)
    else (take n bytes, h, messages)

-- The loop of `read` over the messages.
unfoldable pub read_loop : ℕ → ShellHandle → List ChannelMsg → Reading
read_loop size h [] = ([], record h { closed = true }, [])
read_loop size h (data_msg bytes ∷ messages) = read_stdout size bytes h messages
read_loop size h (extended_data code bytes ∷ messages) = read_stderr size bytes h messages
read_loop size h (exit_status n ∷ messages) = read_loop size (record h { exit = status n }) messages
read_loop size h (exit_signal name core_dumped ∷ messages) =
    read_loop size (record h { exit = signal name core_dumped }) messages
read_loop size h (close_msg ∷ messages) = ([], record h { closed = true }, messages)
read_loop size h (success ∷ messages) = read_loop size h messages
read_loop size h (failure ∷ messages) = read_loop size h messages
read_loop size h (eof_msg ∷ messages) = read_loop size h messages
read_loop size h (other_msg ∷ messages) = read_loop size h messages

-- Behind the two buffers.
unfoldable pub read_channel : ℕ → ShellHandle → List ChannelMsg → Reading
read_channel size h messages = if h.closed then ([], h, messages) else read_loop size h messages

unfoldable pub read_stderr_buf : ℕ → ShellHandle → List ChannelMsg → Reading
read_stderr_buf size h messages =
    let n = min (length h.stderr_buf) size in
    if ltb 0 (length h.stderr_buf)
    then (take n h.stderr_buf, record h { stderr_buf = drop n h.stderr_buf }, messages)
    else read_channel size h messages

unfoldable pub read_stdout_buf : ℕ → ShellHandle → List ChannelMsg → Reading
read_stdout_buf size h messages =
    let n = min (length h.stdout_buf) size in
    if ltb 0 (length h.stdout_buf)
    then (take n h.stdout_buf, record h { stdout_buf = drop n h.stdout_buf }, messages)
    else read_stderr_buf size h messages

-- `ShellHandle::read` into a buffer of `size` bytes; it has no error.
unfoldable pub read : ℕ → ShellHandle → List ChannelMsg → Reading
read size h messages = if ltb 0 size then read_stdout_buf size h messages else ([], h, messages)

-- `ShellHandle::exit`
unfoldable pub exit_of : ShellHandle → Option CommandExit
exit_of h = elim h.exit [ missing ↦ none | other ↦ some other ]

-- One read after the other.
unfoldable pub reads : List ℕ → ShellHandle → List ChannelMsg → Reading
reads [] h messages = ([], h, messages)
reads (size ∷ sizes) h messages =
    let (bytes, h', messages') = read size h messages in
    let (more, h'', messages'') = reads sizes h' messages' in (bytes ++ more, h'', messages'')
