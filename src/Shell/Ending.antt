-- ===== src/Shell/Ending.antt =====
-- crates/russh-extra/src/shell.rs: a read of no byte means the end of the channel, unless a message
-- has no byte.
use russh_extra.Base.{
  ℕ, zero, suc, ◌<◌, Bytes, Bool, true, false, List, [], ◌∷◌, ◌≡◌, ◌≢◌, refl, arith, length, take,
  min, ltb, ◌&&◌, ◌⊎◌, inl, inr, lt→ltb, Bool-cases,
}
use russh_extra.Client.Command.{
  ChannelMsg, success, failure, data_msg, extended_data, exit_status, exit_signal, eof_msg,
  close_msg, other_msg,
}
use russh_extra.Core.Error.{CommandExit, status, signal}
use russh_extra.Shell.Handle.{
  ShellHandle, new_handle, Reading, read_stdout, read_stderr, read_loop, read_channel,
  read_stderr_buf, read_stdout_buf, read,
}
use russh_extra.Shell.Reading.{of_fields, left}

abbrev has_bytes : Bytes → Bool
has_bytes [] = false
has_bytes (b ∷ bs) = true

-- No message of data is empty.
unfoldable pub all_full : List ChannelMsg → Bool
all_full [] = true
all_full (data_msg bytes ∷ messages) = has_bytes bytes && all_full messages
all_full (extended_data code bytes ∷ messages) = has_bytes bytes && all_full messages
all_full (exit_status n ∷ messages) = all_full messages
all_full (exit_signal name core_dumped ∷ messages) = all_full messages
all_full (close_msg ∷ messages) = all_full messages
all_full (success ∷ messages) = all_full messages
all_full (failure ∷ messages) = all_full messages
all_full (eof_msg ∷ messages) = all_full messages
all_full (other_msg ∷ messages) = all_full messages

-- Some byte is read, or the channel is closed and nothing is left.
abbrev pub EndsOrReads : Reading → Type 0
EndsOrReads r = (r.0 ≢ []) ⊎ ((r.1.closed ≡ true) × (left r.1 r.2 ≡ []))

some_taken : (n b : ℕ) (bs : Bytes) → 0 < n → take n (b ∷ bs) ≢ []
some_taken zero b bs p = absurd (omega arith)
some_taken (suc n) b bs p = λ h. cc h

module _ (size : ℕ) (room : 0 < size) where
  room_taken : (b : ℕ) (bs : Bytes) → take (min (length (b ∷ bs)) size) (b ∷ bs) ≢ []
  room_taken b bs = some_taken (min (length (b ∷ bs)) size) b bs (omega arith)

  stdout-EndsOrReads :
      (bytes : Bytes) (h : ShellHandle) (messages : List ChannelMsg)
      → has_bytes bytes ≡ true
      → EndsOrReads (read_stdout size bytes h messages)
  unfolding read_stdout
  stdout-EndsOrReads [] h messages f = absurd (ground arith)
  stdout-EndsOrReads (b ∷ bs) h messages f =
      elim (Bool-cases (ltb (min (length (b ∷ bs)) size) (length (b ∷ bs)))) [
        | inl more ↦ rw more (inl (room_taken b bs))
        | inr whole ↦ rw whole (inl (room_taken b bs))
      ]

  stderr-EndsOrReads :
      (bytes : Bytes) (h : ShellHandle) (messages : List ChannelMsg)
      → has_bytes bytes ≡ true
      → EndsOrReads (read_stderr size bytes h messages)
  unfolding read_stderr
  stderr-EndsOrReads [] h messages f = absurd (ground arith)
  stderr-EndsOrReads (b ∷ bs) h messages f =
      elim (Bool-cases (ltb (min (length (b ∷ bs)) size) (length (b ∷ bs)))) [
        | inl more ↦ rw more (inl (room_taken b bs))
        | inr whole ↦ rw whole (inl (room_taken b bs))
      ]

  read_loop-EndsOrReads :
      (exit : CommandExit) (messages : List ChannelMsg)
      → all_full messages ≡ true
      → EndsOrReads (read_loop size (record new_handle { exit = exit }) messages)
  unfolding read_loop all_full
  read_loop-EndsOrReads exit [] f = inr (refl, refl)
  read_loop-EndsOrReads exit (data_msg bytes ∷ messages) f =
      stdout-EndsOrReads bytes (record new_handle { exit = exit }) messages (ground arith)
  read_loop-EndsOrReads exit (extended_data code bytes ∷ messages) f =
      stderr-EndsOrReads bytes (record new_handle { exit = exit }) messages (ground arith)
  read_loop-EndsOrReads exit (exit_status n ∷ messages) f =
      read_loop-EndsOrReads (status n) messages f
  read_loop-EndsOrReads exit (exit_signal name core_dumped ∷ messages) f =
      read_loop-EndsOrReads (signal name core_dumped) messages f
  read_loop-EndsOrReads exit (close_msg ∷ messages) f = inr (refl, refl)
  read_loop-EndsOrReads exit (success ∷ messages) f = read_loop-EndsOrReads exit messages f
  read_loop-EndsOrReads exit (failure ∷ messages) f = read_loop-EndsOrReads exit messages f
  read_loop-EndsOrReads exit (eof_msg ∷ messages) f = read_loop-EndsOrReads exit messages f
  read_loop-EndsOrReads exit (other_msg ∷ messages) f = read_loop-EndsOrReads exit messages f

  read_stderr_buf-EndsOrReads :
      (held : Bytes) (exit : CommandExit) (closed : Bool) (messages : List ChannelMsg)
      → all_full messages ≡ true
      → EndsOrReads (read_stderr_buf size (of_fields [] held exit closed) messages)
  unfolding read_stderr_buf read_channel
  read_stderr_buf-EndsOrReads [] exit false messages f = read_loop-EndsOrReads exit messages f
  read_stderr_buf-EndsOrReads [] exit true messages f = inr (refl, refl)
  read_stderr_buf-EndsOrReads (b ∷ bs) exit closed messages f =
      rw (lt→ltb 0 (length (b ∷ bs)) (omega arith)) (inl (room_taken b bs))

  read_stdout_buf-EndsOrReads :
      (held other : Bytes) (exit : CommandExit) (closed : Bool) (messages : List ChannelMsg)
      → all_full messages ≡ true
      → EndsOrReads (read_stdout_buf size (of_fields held other exit closed) messages)
  unfolding read_stdout_buf
  read_stdout_buf-EndsOrReads [] other exit closed messages f =
      read_stderr_buf-EndsOrReads other exit closed messages f
  read_stdout_buf-EndsOrReads (b ∷ bs) other exit closed messages f =
      rw (lt→ltb 0 (length (b ∷ bs)) (omega arith)) (inl (room_taken b bs))

-- When no data message is empty, a read into a buffer with room gives some byte, or the channel
-- is closed and nothing is left to read.
pub read-EndsOrReads :
    (size : ℕ) (h : ShellHandle) (messages : List ChannelMsg)
    → 0 < size
    → all_full messages ≡ true
    → EndsOrReads (read size h messages)
unfolding read
read-EndsOrReads size h messages room f =
    rw (lt→ltb 0 size room)
      (read_stdout_buf-EndsOrReads size room h.stdout_buf h.stderr_buf h.exit h.closed messages f)
