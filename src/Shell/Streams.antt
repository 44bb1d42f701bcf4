-- ===== src/Shell/Streams.antt =====
-- crates/russh-extra/src/shell.rs: what goes through `ShellAsyncIo` in both directions.
use russh_extra.Base.{
  ℕ, zero, suc, ◌+◌, Bytes, Bool, true, false, List, [], ◌∷◌, ◌++◌, ◌≡◌, ◌≢◌, refl, drop-add, sym,
  ap, ◌∙◌, arith, length, take, drop, min, ltb, Bool-cases, inl, inr, append_assoc, append-nil,
}
use russh_extra.Client.Command.{
  ChannelMsg, success, failure, data_msg, extended_data, exit_status, exit_signal, eof_msg,
  close_msg, other_msg,
}
use russh_extra.Shell.AsyncIo.{
  ShellCmd, write, resize, send_signal, drops, owned, ShellAsyncIo, Bridge, into_async_io,
  keep_rest, poll_recv, poll_read, send, poll_write, poll_shutdown, forward, on_message,
  next_message, receive, next_command, serve, Move, receives, serves, shuts_down, reads, writes,
  resizes, signals, got, move, run,
}
use russh_extra.Shell.Handle.{ShellHandle}
use russh_extra.Shell.Reading.{payload, split_front, whole_take}

unfoldable pub concat : List Bytes → Bytes
concat [] = []
concat (bytes ∷ queue) = bytes ++ concat queue

concat-append :
    (queue : List Bytes) (bytes : Bytes) → concat (queue ++ bytes ∷ []) ≡ concat queue ++ bytes
unfolding concat
concat-append [] bytes = append-nil bytes
concat-append (q ∷ qs) bytes = rw (concat-append qs bytes) (sym (append_assoc q (concat qs) bytes))

-- What the owner can still read: the buffer, the queue, and what the task will receive.
abbrev pub unread : ShellAsyncIo → Bytes
unread io = drop io.read_pos io.read_buf

abbrev pub rest_of : Bool → List ChannelMsg → Bytes
rest_of true messages = []
rest_of false messages = payload messages

abbrev pub ahead : Bridge → Bytes
ahead b = unread b.io ++ (concat b.read_queue ++ rest_of b.ended b.messages)

-- A piece in the middle moves from what will be received to the queue.
queued :
    (front : Bytes) (queue : List Bytes) (bytes rest : Bytes)
    → front ++ (concat (queue ++ bytes ∷ []) ++ rest) ≡ front ++ (concat queue ++ (bytes ++ rest))
queued front queue bytes rest =
    ap (λ x. front ++ x)
      (ap (λ x. x ++ rest) (concat-append queue bytes) ∙ append_assoc (concat queue) bytes rest)

-- The moves of the task, while it is not ended and its owner is there: nothing is lost.
next_message-ahead :
    (messages : List ChannelMsg) (b : Bridge)
    → b.dropped ≡ false
    → b.ended ≡ false
    → ahead (next_message messages b) ≡ unread b.io ++ (concat b.read_queue ++ payload messages)
unfolding next_message on_message forward payload
next_message-ahead [] b d e = refl
next_message-ahead (data_msg bytes ∷ messages) b d e =
    ground (arith, queued (unread b.io) b.read_queue bytes (payload messages))
next_message-ahead (extended_data code bytes ∷ messages) b d e =
    ground (arith, queued (unread b.io) b.read_queue bytes (payload messages))
next_message-ahead (exit_status n ∷ messages) b d e = rw e refl
next_message-ahead (exit_signal name core_dumped ∷ messages) b d e = rw e refl
next_message-ahead (close_msg ∷ messages) b d e = refl
next_message-ahead (success ∷ messages) b d e = rw e refl
next_message-ahead (failure ∷ messages) b d e = rw e refl
next_message-ahead (eof_msg ∷ messages) b d e = rw e refl
next_message-ahead (other_msg ∷ messages) b d e = rw e refl

receive-ahead : (b : Bridge) → b.dropped ≡ false → ahead (receive b) ≡ ahead b
unfolding receive
receive-ahead b d = ground (arith, next_message-ahead b.messages b)

next_command-ahead :
    (commands : List ShellCmd) (b : Bridge) → ahead (next_command commands b) ≡ ahead b
unfolding next_command
next_command-ahead [] b = ground arith
next_command-ahead (c ∷ cs) b = refl

serve-ahead : (b : Bridge) → ahead (serve b) ≡ ahead b
unfolding serve
serve-ahead b = ground (arith, next_command-ahead b.commands b)

send-ahead : (command : ShellCmd) (b : Bridge) → ahead (send command b).1 ≡ ahead b
unfolding send
send-ahead command b = ground arith

poll_shutdown-ahead : (b : Bridge) → ahead (poll_shutdown b) ≡ ahead b
unfolding poll_shutdown send
poll_shutdown-ahead b = ground arith

none_left : (n : ℕ) (bytes : Bytes) → ltb n (length bytes) ≡ false → drop n bytes ≡ []
none_left zero [] h = refl
none_left zero (b ∷ bs) h = absurd (ground arith)
none_left (suc n) [] h = refl
none_left (suc n) (b ∷ bs) h = none_left n bs (ground arith)

-- A piece from the queue, where the buffer is used up.
keep_rest-unread :
    (bytes rest : Bytes) (n : ℕ) (io : ShellAsyncIo)
    → unread io ≡ []
    → take n bytes ++ (unread (keep_rest bytes n io) ++ rest) ≡ bytes ++ rest
unfolding keep_rest
keep_rest-unread bytes rest n io empty = elim (Bool-cases (ltb n (length bytes))) [
  | inl more ↦ rw more (sym (split_front n bytes rest))
  | inr whole ↦ rw (whole, empty, whole_take n bytes whole) refl
]

poll_recv-ahead :
    (size : ℕ) (queue : List Bytes) (b : Bridge)
    → b.read_queue ≡ queue
    → unread b.io ≡ []
    → let (result, b') = poll_recv size queue b in got result ++ ahead b' ≡ ahead b
unfolding poll_recv concat
poll_recv-ahead size [] b q empty = ground arith
poll_recv-ahead size (bytes ∷ queue) b q empty =
    let rest = rest_of b.ended b.messages in
    keep_rest-unread bytes (concat queue ++ rest) (min (length bytes) size) b.io empty
    ∙ sym (
        ap (λ x. x ++ (concat b.read_queue ++ rest)) empty
        ∙ ap (λ x. concat x ++ rest) q
        ∙ append_assoc bytes (concat queue) rest)

buffered :
    (pos n : ℕ) (buf rest : Bytes)
    → take n (drop pos buf) ++ (drop (pos + n) buf ++ rest) ≡ drop pos buf ++ rest
buffered pos n buf rest = rw (drop-add pos n buf) (sym (split_front n (drop pos buf) rest))

poll_read-ahead :
    (size : ℕ) (b : Bridge)
    → let (result, b') = poll_read size b in got result ++ ahead b' ≡ ahead b
unfolding poll_read
poll_read-ahead size b = ground (
  arith,
  buffered b.io.read_pos (min (length (drop b.io.read_pos b.io.read_buf)) size) b.io.read_buf
      (concat b.read_queue ++ rest_of b.ended b.messages),
  poll_recv-ahead size b.read_queue b refl,
  none_left b.io.read_pos b.io.read_buf,
)

poll_write-ahead : (bytes : Bytes) (b : Bridge) → ahead (poll_write bytes b).1 ≡ ahead b
unfolding poll_write
poll_write-ahead [] b = refl
poll_write-ahead (c ∷ cs) b = ground (arith, send-ahead (write (c ∷ cs)) b)

-- Whether the owner lets go in the end.
unfoldable pub keeps_owner : List Move → Bool
keeps_owner [] = true
keeps_owner (drops ∷ ms) = false
keeps_owner (m ∷ ms) = keeps_owner ms

-- One move of any kind but the last of the owner.
module _ (b : Bridge) (d : b.dropped ≡ false) where
  owned-ahead :
      (bytes input : Bytes) (b' : Bridge)
      → bytes ++ ahead b' ≡ ahead b
      → let (got', input', b'') = owned b (bytes, input, b') in got' ++ ahead b'' ≡ ahead b
  unfolding owned
  owned-ahead bytes input b' h = rw d h

  move-ahead :
      (m : Move) → m ≢ drops → let (bytes, input, b') = move m b in bytes ++ ahead b' ≡ ahead b
  unfolding move
  move-ahead receives ne = receive-ahead b d
  move-ahead serves ne = serve-ahead b
  move-ahead drops ne = absurd (ne refl)
  move-ahead shuts_down ne = owned-ahead [] [] (poll_shutdown b) (poll_shutdown-ahead b)
  move-ahead (reads size) ne =
      owned-ahead (got (poll_read size b).0) [] (poll_read size b).1 (poll_read-ahead size b)
  move-ahead (writes bytes) ne = owned-ahead [] _ (poll_write bytes b).1 (poll_write-ahead bytes b)
  move-ahead (resizes cols rows) ne =
      owned-ahead [] [] (send (resize cols rows) b).1 (send-ahead (resize cols rows) b)
  move-ahead (signals name) ne =
      owned-ahead [] [] (send (send_signal name) b).1 (send-ahead (send_signal name) b)

-- No other move lets go.
on_message-dropped : (m : ChannelMsg) (b : Bridge) → (on_message m b).dropped ≡ b.dropped
unfolding on_message forward
on_message-dropped success b = refl
on_message-dropped m b = ground arith

next_message-dropped :
    (messages : List ChannelMsg) (b : Bridge) → (next_message messages b).dropped ≡ b.dropped
unfolding next_message
next_message-dropped [] b = refl
next_message-dropped (m ∷ messages) b = on_message-dropped m (record b { messages = messages })

next_command-dropped :
    (commands : List ShellCmd) (b : Bridge) → (next_command commands b).dropped ≡ b.dropped
unfolding next_command
next_command-dropped [] b = ground arith
next_command-dropped (c ∷ cs) b = refl

poll_recv-dropped :
    (size : ℕ) (queue : List Bytes) (b : Bridge) → (poll_recv size queue b).1.dropped ≡ b.dropped
unfolding poll_recv
poll_recv-dropped size [] b = ground arith
poll_recv-dropped size (bytes ∷ queue) b = refl

poll_write-dropped : (bytes : Bytes) (b : Bridge) → (poll_write bytes b).1.dropped ≡ b.dropped
unfolding poll_write send
poll_write-dropped [] b = refl
poll_write-dropped (c ∷ cs) b = ground arith

move-dropped : (m : Move) (b : Bridge) → m ≢ drops → (move m b).2.dropped ≡ b.dropped
unfolding move owned receive serve poll_shutdown send poll_read
move-dropped receives b ne = ground (arith, next_message-dropped b.messages b)
move-dropped serves b ne = ground (arith, next_command-dropped b.commands b)
move-dropped drops b ne = absurd (ne refl)
move-dropped shuts_down b ne = ground arith
move-dropped (reads size) b ne = ground (arith, poll_recv-dropped size b.read_queue b)
move-dropped (writes bytes) b ne = ground (arith, poll_write-dropped bytes b)
move-dropped (resizes cols rows) b ne = ground arith
move-dropped (signals name) b ne = ground arith

first-keeps_owner :
    (m : Move) (ms : List Move)
    → keeps_owner (m ∷ ms) ≡ true
    → (m ≢ drops) × (keeps_owner ms ≡ true)
unfolding keeps_owner
first-keeps_owner receives ms h = (λ e. cc e, h)
first-keeps_owner serves ms h = (λ e. cc e, h)
first-keeps_owner shuts_down ms h = (λ e. cc e, h)
first-keeps_owner drops ms h = cc
first-keeps_owner (reads size) ms h = (λ e. cc e, h)
first-keeps_owner (writes bytes) ms h = (λ e. cc e, h)
first-keeps_owner (resizes cols rows) ms h = (λ e. cc e, h)
first-keeps_owner (signals name) ms h = (λ e. cc e, h)

run-ahead :
    (ms : List Move) (b : Bridge)
    → keeps_owner ms ≡ true
    → b.dropped ≡ false
    → (run ms b).0 ++ ahead (run ms b).2 ≡ ahead b
unfolding run
run-ahead [] b k d = refl
run-ahead (m ∷ ms) b k d =
    let (ne, k') = first-keeps_owner m ms k in
    let b' = (move m b).2 in
    append_assoc (move m b).0 (run ms b').0 (ahead (run ms b').2)
    ∙ ap (λ x. (move m b).0 ++ x) (run-ahead ms b' k' (move-dropped m b ne ∙ d))
    ∙ move-ahead b d m ne

-- However the task of a `ShellAsyncIo` and its owner take turns, as long as the owner does not
-- let go: the bytes that were read, then those still in the buffer, in the queue and in the
-- messages to come, are together the bytes of the channel's messages up to the close, in their
-- order.
pub run-into_async_io :
    (h : ShellHandle) (messages : List ChannelMsg) (ms : List Move)
    → keeps_owner ms ≡ true
    → let (bytes, input, b) = run ms (into_async_io h messages) in
      bytes ++ ahead b ≡ payload messages
unfolding into_async_io concat
run-into_async_io h messages ms k = run-ahead ms (into_async_io h messages) k refl
