-- ===== src/Server/Traffic.antt =====
-- crates/russh-extra/src/server.rs: data messages on the channels of a session where SFTP was started,
-- and what each channel gets of them.
use russh_extra.Base.{
  ℕ, ◌≡◌, ◌≢◌, refl, sym, ap, ◌∙◌, ◌++◌, Bytes, Text, some, is_some, not, true, false, List, [],
  ◌∷◌, arith, inl, inr, Bool-cases, if◌then◌else◌, append_assoc, append-nil,
}
use mathlib.Core.Path.{subst}
use russh_extra.Base.Word.{AllBytes}
use russh_extra.Base.Assoc.{insert, remove, contains_key}
use russh_extra.Core.Error.{Error, Result, ok, err}
use russh_extra.Sftp.Handler.{SftpServerHandler}
use russh_extra.Sftp.Server.Runtime.{
  SftpServerRuntime, Surroundings, new_runtime, register_channel, is_sftp_channel,
}
use russh_extra.Sftp.Server.Dispatch.{handle_data}
use russh_extra.Sftp.Server.Feeding.{
  on_channel, on_channel-append, AllData, feed, fresh_runtime, Serves, Serves-here, fresh-Serves,
  handle_data-Serves, feed-past,
}
use russh_extra.Server.Runtime.{ServerSession, RusshSession, send_data, or_fail}
use russh_extra.Server.Channels.{serving, channel_data, send_stdin, sftp_data, sftp_surroundings}
use russh_extra.Server.Requests.{start_sftp}

or_fail-state : (R : Type 0) {W A : Type 0} (r : Result A) (w : W) → (or_fail {R = R} r w).1 ≡ w
unfolding or_fail
or_fail-state R (ok a) w = refl
or_fail-state R (err e) w = refl

module _ {S F R T : Type 0} (session : RusshSession R T) (display : Error → Text) where
  -- `data` for one message after another, whatever the calls return.
  pub run_data : List (ℕ × Bytes) → ServerSession S F × T → ServerSession S F × T
  run_data [] w = w
  run_data ((c, bytes) ∷ msgs) w = run_data msgs (channel_data session display c bytes w).1

-- A session that serves SFTP with a runtime, and shares its state.
abbrev attached :
    {S F : Type 0}
    → SftpServerHandler S
    → SftpServerRuntime S
    → ServerSession S F
    → ServerSession S F
attached handler sftp st = record st { sftp = some (handler, sftp); app = sftp.handler_state }

send_stdin-attached :
    {S F : Type 0} (handler : SftpServerHandler S) (sftp : SftpServerRuntime S) (c : ℕ)
    (bytes : Bytes) (st : ServerSession S F)
    → send_stdin c bytes (attached handler sftp st) ≡ attached handler sftp (send_stdin c bytes st)
unfolding send_stdin
send_stdin-attached handler sftp c bytes st = elim (Bool-cases (contains_key st.stdin_txs c)) [
  | inl kept ↦ rw kept
  | inr gone ↦ rw gone
]

send_stdin-txs :
    {S F : Type 0} (c : ℕ) (bytes : Bytes) (st : ServerSession S F)
    → (send_stdin c bytes st).stdin_txs ≡ st.stdin_txs
unfolding send_stdin
send_stdin-txs c bytes st = elim (Bool-cases (contains_key st.stdin_txs c)) [
  | inl kept ↦ rw kept
  | inr gone ↦ rw gone
]

-- A runtime that writes to the session as data of the channel.
abbrev pub onto_session :
    {S R T : Type 0} → RusshSession R T → (Error → Text) → SftpServerHandler S → Surroundings S T
onto_session session display handler = record {
  handler = handler;
  display = display;
  session_data =
      λ channel bytes t. let (e, t') = session (send_data channel bytes) t in (not (is_some e), t');
}

-- What a channel with or without a streaming handler gets of some messages.
abbrev pub heard : {S F : Type 0} → ServerSession S F → ℕ → List (ℕ × Bytes) → List Bytes
heard st c msgs = if contains_key st.stdin_txs c then on_channel c msgs else []

send_stdin-on_channel :
    {S F : Type 0} (c other : ℕ) (bytes : Bytes) (msgs : List (ℕ × Bytes)) (st : ServerSession S F)
    → on_channel other (send_stdin c bytes st).stdin ++ heard (send_stdin c bytes st) other msgs
      ≡ on_channel other st.stdin ++ heard st other ((c, bytes) ∷ msgs)
unfolding send_stdin
send_stdin-on_channel c other bytes msgs st = elim (Bool-cases (contains_key st.stdin_txs c)) [
  | inl kept ↦ rw kept (
      ground (
        arith,
        on_channel-append other st.stdin ((c, bytes) ∷ []),
        append_assoc (on_channel other st.stdin) (bytes ∷ []) (on_channel other msgs),
        append-nil (on_channel other st.stdin),
      ))
  | inr gone ↦ rw gone (ground arith)
]

module _ {S F R T : Type 0} (session : RusshSession R T) (display : Error → Text)
    (handler : SftpServerHandler S) (st : ServerSession S F) (sftp : SftpServerRuntime S)
    (t : T) where
  channel_data-served :
      (channel : ℕ) (bytes : Bytes)
      → contains_key sftp.channels channel ≡ true
      → (channel_data session display channel bytes (attached handler sftp st, t)).1 ≡ (
          let (sftp', t') =
            (handle_data (sftp_surroundings session display handler) channel bytes (sftp, t)).1 in
          (attached handler sftp' st, t'))
  unfolding channel_data serving is_sftp_channel sftp_data
  channel_data-served channel bytes h = rw (h, channel_data, serving) (or_fail-state R _ _)

  channel_data-other :
      (channel : ℕ) (bytes : Bytes)
      → contains_key sftp.channels channel ≡ false
      → (channel_data session display channel bytes (attached handler sftp st, t)).1
        ≡ (attached handler sftp (send_stdin channel bytes st), t)
  unfolding channel_data serving is_sftp_channel
  channel_data-other channel bytes h =
      rw (h, channel_data, serving)
        (ap (λ s. (s, t)) (send_stdin-attached handler sftp channel bytes st))

module _ {S F R T : Type 0} (session : RusshSession R T) (display : Error → Text)
    (handler : SftpServerHandler S) (channel other : ℕ) (apart : other ≢ channel) where
  -- What a session comes to, beside the SFTP runtime and the standard input of another channel.
  record Delivered (msgs : List (ℕ × Bytes)) (st : ServerSession S F) (sftp : SftpServerRuntime S)
      (t : T) (w : ServerSession S F × T) : Type 0 where
    runtime :
        w.0.sftp
        ≡ some (
          handler,
          (feed
              (sftp_surroundings session display handler)
              channel
              (on_channel channel msgs)
              (sftp, t)).0,
        )
    app :
        w.0.app
        ≡ (feed
            (sftp_surroundings session display handler)
            channel
            (on_channel channel msgs)
            (sftp, t)).0.handler_state
    written :
        w.1
        ≡ (feed
            (sftp_surroundings session display handler)
            channel
            (on_channel channel msgs)
            (sftp, t)).1
    stdin : on_channel other w.0.stdin ≡ on_channel other st.stdin ++ heard st other msgs

  module _ (msgs : List (ℕ × Bytes))
      (later : (st : ServerSession S F) (sftp : SftpServerRuntime S) (t : T)
        → Serves channel sftp
        → Delivered msgs st sftp t (run_data session display msgs (attached handler sftp st, t)))
      (bytes : Bytes) (st : ServerSession S F) (sftp : SftpServerRuntime S) (t : T)
      (v : Serves channel sftp) where
    served :
        contains_key sftp.channels channel ≡ true
        → AllBytes bytes
        → Delivered
            ((channel, bytes) ∷ msgs)
            st
            sftp
            t
            (run_data session display ((channel, bytes) ∷ msgs) (attached handler sftp st, t))
    unfolding run_data
    served o h =
        let next =
          (handle_data (sftp_surroundings session display handler) channel bytes (sftp, t)).1 in
        let d = later st next.0 next.1 (
          handle_data-Serves (sftp_surroundings session display handler) channel bytes sftp t v
            h) in
        rw (channel_data-served session display handler st sftp t channel bytes o) (record {
          runtime = ground (arith, d.runtime);
          app = ground (arith, d.app);
          written = ground (arith, d.written);
          stdin = ground (arith, d.stdin);
        })

    -- The message reaches no SFTP runtime.
    past :
        (c : ℕ)
        → contains_key sftp.channels c ≡ false
        → Delivered
            ((c, bytes) ∷ msgs)
            st
            sftp
            t
            (run_data session display ((c, bytes) ∷ msgs) (attached handler sftp st, t))
    unfolding run_data
    past c o =
        let d = later (send_stdin c bytes st) sftp t v in
        let fed =
          sym (
            feed-past (sftp_surroundings session display handler) channel bytes sftp t v c msgs
              o) in
        rw (channel_data-other session display handler st sftp t c bytes o) (record {
          runtime = d.runtime ∙ ap (λ w. some (handler, w.0)) fed;
          app = d.app ∙ ap (λ w. w.0.handler_state) fed;
          written = d.written ∙ ap (λ w. w.1) fed;
          stdin = d.stdin ∙ send_stdin-on_channel c other bytes msgs st;
        })

  run_data-Delivered :
      (msgs : List (ℕ × Bytes)) (st : ServerSession S F) (sftp : SftpServerRuntime S) (t : T)
      → Serves channel sftp
      → AllData msgs
      → Delivered msgs st sftp t (run_data session display msgs (attached handler sftp st, t))
  unfolding run_data
  run_data-Delivered [] st sftp t v h = record {
    runtime = refl;
    app = refl;
    written = refl;
    stdin = ground (arith, append-nil (on_channel other st.stdin));
  }
  run_data-Delivered ((c, bytes) ∷ msgs) st sftp t v (hb, h) =
      let later : (st : ServerSession S F) (sftp : SftpServerRuntime S) (t : T)
          → Serves channel sftp
          → Delivered msgs st sftp t (run_data session display msgs (attached handler sftp st, t)) =
        λ st sftp t v. run_data-Delivered msgs st sftp t v h in
      elim (Bool-cases (contains_key sftp.channels c)) [
        | inl on ↦
            let here : c ≡ channel = Serves-here v c on in
            subst
              (λ d.
                Delivered ((d, bytes) ∷ msgs) st sftp t
                  (run_data session display ((d, bytes) ∷ msgs) (attached handler sftp st, t)))
              (sym here) (served msgs later bytes st sftp t v (rw here at on) hb)
        | inr off ↦ past msgs later bytes st sftp t v c off
      ]

  -- After the SFTP subsystem is started on a channel, and then any data messages of bytes arrive
  -- on any channels, whatever the calls return: the session's SFTP runtime, the state of the
  -- callbacks and what was written are those of a fresh runtime that was given exactly the
  -- messages of its channel in their order, and the streaming handler of any other channel has
  -- got exactly that channel's messages, in their order behind what it had, if it reads, and
  -- otherwise nothing.
  pub run_data-start_sftp :
      (msgs : List (ℕ × Bytes)) (st : ServerSession S F) (t : T)
      → AllData msgs
      → let (st', t') = run_data session display msgs (start_sftp handler channel st, t) in
        let (sftp, written) =
          feed
            (onto_session session display handler)
            channel
            (on_channel channel msgs)
            (fresh_runtime st.app channel, t) in
        (st'.sftp ≡ some (handler, sftp))
        × (st'.app ≡ sftp.handler_state)
        × (t' ≡ written)
        × (on_channel other st'.stdin
            ≡ on_channel other st.stdin
              ++ (if contains_key st.stdin_txs other then on_channel other msgs else []))
  unfolding start_sftp register_channel new_runtime insert remove
  run_data-start_sftp msgs st t h =
      let fresh = register_channel channel (new_runtime st.app) in
      let d = run_data-Delivered msgs st fresh t (fresh-Serves st.app channel) h in
      (d.runtime, d.app, d.written, d.stdin)
