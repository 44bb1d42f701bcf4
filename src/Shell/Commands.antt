-- ===== src/Shell/Commands.antt =====
-- crates/russh-extra/src/shell.rs: what is written to `ShellAsyncIo` reaches the channel.
use russh_extra.Base.{
  ℕ, Bytes, List, [], ◌∷◌, ◌++◌, ◌≡◌, refl, sym, ap, ◌∙◌, arith, length, take, if◌then◌else◌,
  append_assoc, append-nil,
}
use russh_extra.Client.Command.{
  ChannelMsg, success, failure, data_msg, extended_data, exit_status, exit_signal, eof_msg,
  close_msg, other_msg,
}
use russh_extra.Shell.AsyncIo.{
  ShellCmd, write, eof, resize, send_signal, Bridge, into_async_io, poll_recv, poll_read, send,
  poll_write, poll_shutdown, forward, on_message, next_message, receive, next_command, serve, Move,
  receives, serves, shuts_down, drops, reads, writes, resizes, signals, got, accepted, owned, move,
  run,
}
use russh_extra.Shell.Handle.{ShellHandle}

-- The bytes that commands write.
unfoldable pub written : List ShellCmd → Bytes
written [] = []
written (write bytes ∷ cs) = bytes ++ written cs
written (eof ∷ cs) = written cs
written (resize cols rows ∷ cs) = written cs
written (send_signal name ∷ cs) = written cs

written-append : (cs ds : List ShellCmd) → written (cs ++ ds) ≡ written cs ++ written ds
unfolding written
written-append [] ds = refl
written-append (write bytes ∷ cs) ds =
    rw (written-append cs ds) (sym (append_assoc bytes (written cs) (written ds)))
written-append (eof ∷ cs) ds = written-append cs ds
written-append (resize cols rows ∷ cs) ds = written-append cs ds
written-append (send_signal name ∷ cs) ds = written-append cs ds

-- What the channel was given and what the task will give it.
abbrev pub input_of : Bridge → Bytes
input_of b = written (b.asked ++ b.commands)

send-input_of :
    (command : ShellCmd) (b : Bridge)
    → input_of (send command b).1
      ≡ (if (send command b).0 then input_of b ++ written (command ∷ []) else input_of b)
unfolding send
send-input_of command b = ground (
  arith,
  ap written (append_assoc b.asked b.commands (command ∷ [])),
  written-append (b.asked ++ b.commands) (command ∷ []),
)

silent-input_of :
    (command : ShellCmd) (b : Bridge)
    → written (command ∷ []) ≡ []
    → input_of (send command b).1 ≡ input_of b
silent-input_of command b silent = ground (arith, send-input_of command b, append-nil (input_of b))

receive-input_of :
    (messages : List ChannelMsg) (b : Bridge) → input_of (next_message messages b) ≡ input_of b
unfolding next_message on_message forward
receive-input_of [] b = refl
receive-input_of (data_msg bytes ∷ messages) b = ground arith
receive-input_of (extended_data code bytes ∷ messages) b = ground arith
receive-input_of (exit_status n ∷ messages) b = refl
receive-input_of (exit_signal name core_dumped ∷ messages) b = refl
receive-input_of (close_msg ∷ messages) b = refl
receive-input_of (success ∷ messages) b = refl
receive-input_of (failure ∷ messages) b = refl
receive-input_of (eof_msg ∷ messages) b = refl
receive-input_of (other_msg ∷ messages) b = refl

next_command-input_of :
    (commands : List ShellCmd) (b : Bridge)
    → b.commands ≡ commands
    → input_of (next_command commands b) ≡ input_of b
unfolding next_command
next_command-input_of [] b e = ground arith
next_command-input_of (c ∷ cs) b e = ground (arith, append_assoc b.asked (c ∷ []) cs)

poll_read-input_of :
    (size : ℕ) (queue : List Bytes) (b : Bridge) → input_of (poll_recv size queue b).1 ≡ input_of b
unfolding poll_recv
poll_read-input_of size [] b = ground arith
poll_read-input_of size (bytes ∷ queue) b = refl

all_taken : (bytes : Bytes) → take (length bytes) bytes ≡ bytes
all_taken [] = refl
all_taken (b ∷ bs) = ap (λ x. b ∷ x) (all_taken bs)

poll_write-input_of :
    (bytes : Bytes) (b : Bridge)
    → let (result, b') = poll_write bytes b in input_of b' ≡ input_of b ++ accepted bytes result
unfolding poll_write written
poll_write-input_of [] b = sym (append-nil (input_of b))
poll_write-input_of (c ∷ cs) b = ground (
  arith,
  send-input_of (write (c ∷ cs)) b,
  all_taken (c ∷ cs),
  append-nil (c ∷ cs),
  append-nil (input_of b),
)

owned-input_of :
    (b b' : Bridge) (bytes input : Bytes)
    → input_of b' ≡ input_of b ++ input
    → input_of (owned b (bytes, input, b')).2 ≡ input_of b ++ (owned b (bytes, input, b')).1
unfolding owned
owned-input_of b b' bytes input h = ground (arith, append-nil (input_of b))

same_input : (b b' : Bridge) → input_of b' ≡ input_of b → input_of b' ≡ input_of b ++ []
same_input b b' h = h ∙ sym (append-nil (input_of b))

move-input_of : (m : Move) (b : Bridge) → input_of (move m b).2 ≡ input_of b ++ (move m b).1
unfolding move receive serve poll_shutdown poll_read written
move-input_of receives b = ground (arith, receive-input_of b.messages b, append-nil (input_of b))
move-input_of serves b =
    ground (arith, next_command-input_of b.commands b refl, append-nil (input_of b))
move-input_of drops b = sym (append-nil (input_of b))
move-input_of shuts_down b =
    owned-input_of b _ [] []
      (same_input b (poll_shutdown b) (ground (arith, silent-input_of eof b refl)))
move-input_of (reads size) b =
    owned-input_of b _ (got (poll_read size b).0) []
      (same_input b (poll_read size b).1 (ground (arith, poll_read-input_of size b.read_queue b)))
move-input_of (writes bytes) b =
    owned-input_of b _ [] (accepted bytes (poll_write bytes b).0) (poll_write-input_of bytes b)
move-input_of (resizes cols rows) b =
    owned-input_of b _ [] []
      (same_input b (send (resize cols rows) b).1 (silent-input_of (resize cols rows) b refl))
move-input_of (signals name) b =
    owned-input_of b _ [] []
      (same_input b (send (send_signal name) b).1 (silent-input_of (send_signal name) b refl))

run-input_of : (ms : List Move) (b : Bridge) → input_of (run ms b).2 ≡ input_of b ++ (run ms b).1
unfolding run
run-input_of [] b = sym (append-nil (input_of b))
run-input_of (m ∷ ms) b =
    let b' = (move m b).2 in
    run-input_of ms b'
    ∙ ap (λ x. x ++ (run ms b').1) (move-input_of m b)
    ∙ append_assoc (input_of b) (move m b).1 (run ms b').1

-- However the task of a `ShellAsyncIo` and its owner take turns, also when the owner lets go:
-- the bytes that the task has written to the channel, then those of the commands that still
-- wait, are together the bytes that `poll_write` took, in their order.
pub run-written :
    (h : ShellHandle) (messages : List ChannelMsg) (ms : List Move)
    → let (bytes, input, b) = run ms (into_async_io h messages) in
      written b.asked ++ written b.commands ≡ input
unfolding into_async_io written
run-written h messages ms =
    sym (
      written-append (run ms (into_async_io h messages)).2.asked
        (run ms (into_async_io h messages)).2.commands)
    ∙ run-input_of ms (into_async_io h messages)
