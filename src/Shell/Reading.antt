-- ===== src/Shell/Reading.antt =====
-- crates/russh-extra/src/shell.rs: the bytes that `read` gives are those of the channel, in order.
use russh_extra.Base.{
  ℕ, zero, suc, lt→ltb, Bytes, Bool, true, false, List, [], ◌∷◌, ◌++◌, ◌≡◌, refl, sym, ap, ◌∙◌,
  arith, length, take, drop, min, ltb, if◌then◌else◌, ◌⊎◌, inl, inr, append_assoc, take-append-drop,
  Bool-cases,
}
use russh_extra.Client.Command.{
  ChannelMsg, success, failure, data_msg, extended_data, exit_status, exit_signal, eof_msg,
  close_msg, other_msg,
}
use russh_extra.Core.Error.{CommandExit, status, signal}
use russh_extra.Shell.Handle.{
  ShellHandle, new_handle, Reading, read_stdout, read_stderr, read_loop, read_channel,
  read_stderr_buf, read_stdout_buf, read, reads,
}

-- The bytes of the messages up to the close, of both streams in the order of arrival.
unfoldable pub payload : List ChannelMsg → Bytes
payload [] = []
payload (data_msg bytes ∷ messages) = bytes ++ payload messages
payload (extended_data code bytes ∷ messages) = bytes ++ payload messages
payload (close_msg ∷ messages) = []
payload (exit_status n ∷ messages) = payload messages
payload (exit_signal name core_dumped ∷ messages) = payload messages
payload (success ∷ messages) = payload messages
payload (failure ∷ messages) = payload messages
payload (eof_msg ∷ messages) = payload messages
payload (other_msg ∷ messages) = payload messages

-- What the handle will still give.
abbrev pub left : ShellHandle → List ChannelMsg → Bytes
left h messages = h.stdout_buf ++ (h.stderr_buf ++ (if h.closed then [] else payload messages))

-- A handle holds bytes of one stream at most, and a reading gives what is in front.
abbrev pub HoldsOne : ShellHandle → Type 0
HoldsOne h = (h.stdout_buf ≡ []) ⊎ (h.stderr_buf ≡ [])

record Gives (before : Bytes) (r : Reading) : Type 0 where
  in_front : before ≡ r.0 ++ left r.1 r.2
  holds_one : HoldsOne r.1

pub whole_take : (n : ℕ) (bytes : Bytes) → ltb n (length bytes) ≡ false → take n bytes ≡ bytes
whole_take zero [] h = refl
whole_take zero (b ∷ bs) h = absurd (ground arith)
whole_take (suc n) [] h = refl
whole_take (suc n) (b ∷ bs) h = ap (λ x. b ∷ x) (whole_take n bs (ground arith))

pub split_front :
    (n : ℕ) (bytes rest : Bytes) → bytes ++ rest ≡ take n bytes ++ (drop n bytes ++ rest)
split_front n bytes rest =
    ap (λ x. x ++ rest) (sym (take-append-drop n bytes))
    ∙ append_assoc (take n bytes) (drop n bytes) rest

module _ (size : ℕ) (exit : CommandExit) (messages : List ChannelMsg) where
  module _ (bytes : Bytes) where
    read_stdout-Gives :
        Gives
          (bytes ++ payload messages)
          (read_stdout size bytes (record new_handle { exit = exit }) messages)
    unfolding read_stdout
    read_stdout-Gives =
        let n = min (length bytes) size in
        elim (Bool-cases (ltb n (length bytes))) [
          | inl more ↦
              rw more
                (record { in_front = split_front n bytes (payload messages); holds_one = inr refl })
          | inr whole ↦ rw whole (record {
            in_front = ap (λ x. x ++ payload messages) (sym (whole_take n bytes whole));
            holds_one = inr refl;
          })
        ]

    read_stderr-Gives :
        Gives
          (bytes ++ payload messages)
          (read_stderr size bytes (record new_handle { exit = exit }) messages)
    unfolding read_stderr
    read_stderr-Gives =
        let n = min (length bytes) size in
        elim (Bool-cases (ltb n (length bytes))) [
          | inl more ↦
              rw more
                (record { in_front = split_front n bytes (payload messages); holds_one = inl refl })
          | inr whole ↦ rw whole (record {
            in_front = ap (λ x. x ++ payload messages) (sym (whole_take n bytes whole));
            holds_one = inr refl;
          })
        ]

read_loop-Gives :
    (size : ℕ) (exit : CommandExit) (messages : List ChannelMsg)
    → Gives (payload messages) (read_loop size (record new_handle { exit = exit }) messages)
unfolding read_loop payload
read_loop-Gives size exit [] = record { in_front = refl; holds_one = inl refl }
read_loop-Gives size exit (data_msg bytes ∷ messages) = read_stdout-Gives size exit messages bytes
read_loop-Gives size exit (extended_data code bytes ∷ messages) =
    read_stderr-Gives size exit messages bytes
read_loop-Gives size exit (exit_status n ∷ messages) = read_loop-Gives size (status n) messages
read_loop-Gives size exit (exit_signal name core_dumped ∷ messages) =
    read_loop-Gives size (signal name core_dumped) messages
read_loop-Gives size exit (close_msg ∷ messages) = record { in_front = refl; holds_one = inl refl }
read_loop-Gives size exit (success ∷ messages) = read_loop-Gives size exit messages
read_loop-Gives size exit (failure ∷ messages) = read_loop-Gives size exit messages
read_loop-Gives size exit (eof_msg ∷ messages) = read_loop-Gives size exit messages
read_loop-Gives size exit (other_msg ∷ messages) = read_loop-Gives size exit messages

abbrev pub of_fields : Bytes → Bytes → CommandExit → Bool → ShellHandle
of_fields stdout_buf stderr_buf exit closed = record {
  stdout_buf = stdout_buf;
  stderr_buf = stderr_buf;
  exit = exit;
  closed = closed;
}

read_channel-Gives :
    (size : ℕ) (exit : CommandExit) (closed : Bool) (messages : List ChannelMsg)
    → Gives
        (left (of_fields [] [] exit closed) messages)
        (read_channel size (of_fields [] [] exit closed) messages)
unfolding read_channel
read_channel-Gives size exit false messages = read_loop-Gives size exit messages
read_channel-Gives size exit true messages = record { in_front = refl; holds_one = inl refl }

read_stderr_buf-Gives :
    (size : ℕ) (held : Bytes) (exit : CommandExit) (closed : Bool) (messages : List ChannelMsg)
    → Gives
        (left (of_fields [] held exit closed) messages)
        (read_stderr_buf size (of_fields [] held exit closed) messages)
unfolding read_stderr_buf
read_stderr_buf-Gives size [] exit closed messages = read_channel-Gives size exit closed messages
read_stderr_buf-Gives size (b ∷ bs) exit closed messages =
    rw (lt→ltb 0 (length (b ∷ bs)) (omega arith)) (record {
      in_front = split_front (min (length (b ∷ bs)) size) (b ∷ bs) _;
      holds_one = inl refl;
    })

read_stdout_buf-Gives :
    (size : ℕ) (held other : Bytes) (exit : CommandExit) (closed : Bool)
    (messages : List ChannelMsg)
    → HoldsOne (of_fields held other exit closed)
    → Gives
        (left (of_fields held other exit closed) messages)
        (read_stdout_buf size (of_fields held other exit closed) messages)
unfolding read_stdout_buf
read_stdout_buf-Gives size [] other exit closed messages h =
    read_stderr_buf-Gives size other exit closed messages
read_stdout_buf-Gives size (b ∷ bs) other exit closed messages h =
    rw (lt→ltb 0 (length (b ∷ bs)) (omega arith)) (record {
      in_front = split_front (min (length (b ∷ bs)) size) (b ∷ bs) _;
      holds_one = inr (ground arith);
    })

read-Gives :
    (size : ℕ) (h : ShellHandle) (messages : List ChannelMsg)
    → HoldsOne h
    → Gives (left h messages) (read size h messages)
unfolding read
read-Gives size h messages one = elim (Bool-cases (ltb 0 size)) [
  | inl some_room ↦
      rw some_room
        (read_stdout_buf-Gives size h.stdout_buf h.stderr_buf h.exit h.closed messages one)
  | inr none ↦ rw none (record { in_front = refl; holds_one = one })
]

reads-Gives :
    (sizes : List ℕ) (h : ShellHandle) (messages : List ChannelMsg)
    → HoldsOne h
    → Gives (left h messages) (reads sizes h messages)
unfolding reads
reads-Gives [] h messages one = record { in_front = refl; holds_one = one }
reads-Gives (size ∷ sizes) h messages one =
    let (bytes, h', messages') = read size h messages in
    let first = read-Gives size h messages one in
    let later = reads-Gives sizes h' messages' first.holds_one in
    record {
      in_front =
          first.in_front
          ∙ ap (λ x. bytes ++ x) later.in_front
          ∙ sym (append_assoc bytes (reads sizes h' messages').0 _);
      holds_one = later.holds_one;
    }

-- After reads of any sizes from a fresh shell handle, the bytes that were read, then those that
-- the handle holds, then those of the messages to come unless it is closed, are together the
-- bytes of the channel's messages up to the close, in their order, and the handle holds bytes of
-- one stream at most.
pub reads-payload :
    (sizes : List ℕ) (messages : List ChannelMsg)
    → let (bytes, h, messages') = reads sizes new_handle messages in
      (bytes ++ left h messages' ≡ payload messages) × HoldsOne h
reads-payload sizes messages =
    let g = reads-Gives sizes new_handle messages (inl refl) in (sym g.in_front, g.holds_one)
