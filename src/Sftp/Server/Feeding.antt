-- ===== src/Sftp/Server/Feeding.antt =====
-- crates/russh-extra/src/sftp/server.rs: the data of one channel, given to a runtime that serves it.
use russh_extra.Base.{
  ℕ, ◌≡◌, ◌≢◌, refl, ap, ◌∙◌, ◌++◌, ◌==◌, Bytes, true, false, List, [], ◌∷◌, arith, inl, inr,
  Bool-cases, Option-cases, if◌then◌else◌, ==_iff,
}
use russh_extra.Base.Word.{AllBytes}
use russh_extra.Base.Assoc.{lookup, insert, remove, contains_key, lookup-remove}
use russh_extra.Sftp.Framing.{Split, complete, bad_length, out_of_fuel, split_packets}
use russh_extra.Sftp.Server.Runtime.{
  SftpServerRuntime, Surroundings, new_runtime, register_channel, handle_channel_close,
}
use russh_extra.Sftp.Server.Dispatch.{
  dispatch_packet, write_response, serve_packets, after_split, handle_data,
}
use russh_extra.Sftp.Server.Local.{dispatch_packet-IsLocal}
use russh_extra.Sftp.Server.Invariant.{
  IsValid, new_runtime-IsValid, register_channel-IsValid, handle_data-IsValid,
}

-- The messages of one channel, in their order.
abbrev pub on_channel : ℕ → List (ℕ × Bytes) → List Bytes
on_channel c [] = []
on_channel c ((d, bytes) ∷ msgs) = if d == c then bytes ∷ on_channel c msgs else on_channel c msgs

abbrev pub AllData : List (ℕ × Bytes) → Type 0
AllData [] = Unit {0}
AllData ((c, bytes) ∷ msgs) = AllBytes bytes × AllData msgs

pub on_channel-append :
    (c : ℕ) (xs ys : List (ℕ × Bytes))
    → on_channel c (xs ++ ys) ≡ on_channel c xs ++ on_channel c ys
on_channel-append c [] ys = refl
on_channel-append c ((d, bytes) ∷ xs) ys = ground (arith, on_channel-append c xs ys)

module _ {S T : Type 0} (env : Surroundings S T) where
  -- An SFTP runtime that is given some bytes of a channel after others.
  abbrev pub feed : ℕ → List Bytes → SftpServerRuntime S × T → SftpServerRuntime S × T
  feed channel [] w = w
  feed channel (bytes ∷ more) w = feed channel more (handle_data env channel bytes w).1

  serve_packets-channels :
      (channel : ℕ) (ps : List Bytes) (rt : SftpServerRuntime S) (t : T)
      → (serve_packets env channel ps (rt, t)).1.0.channels ≡ rt.channels
  unfolding serve_packets
  serve_packets-channels channel [] rt t = refl
  serve_packets-channels channel (p ∷ ps) rt t =
      let served = dispatch_packet env p rt in
      let written = write_response env channel served.0 t in
      let here : served.1.channels ≡ rt.channels =
        ap (λ d. d.1.channels) ((dispatch_packet-IsLocal env p).free rt rt.buffers rt.channels) in
      elim (Bool-cases written.0) [
        | inl going ↦ rw going (serve_packets-channels channel ps served.1 written.1 ∙ here)
        | inr refused ↦ rw refused here
      ]

  -- No data registers a channel.
  handle_data-unregistered :
      (channel c : ℕ) (bytes : Bytes) (rt : SftpServerRuntime S) (t : T)
      → contains_key rt.channels c ≡ false
      → contains_key (handle_data env channel bytes (rt, t)).1.0.channels c ≡ false
  unfolding handle_data
  handle_data-unregistered channel c bytes rt t h =
      elim (Option-cases (lookup channel rt.buffers)) [
        | inl missing ↦ rw (missing, handle_data) h
        | inr (buf, e) ↦ rw (e, handle_data) (split (split_packets (buf ++ bytes)))
      ]
    where
      split : (s : Split) → contains_key (after_split env channel s (rt, t)).1.0.channels c ≡ false
      split (complete ps rest) =
          unfold after_split in
          ap (λ m. contains_key m c)
            (serve_packets-channels channel ps
              (record rt { buffers = insert channel rest rt.buffers }) t)
          ∙ h
      split (bad_length ps len) =
          unfold after_split handle_channel_close in
          ground (arith, lookup-remove channel c rt.channels)
      split out_of_fuel = unfold after_split in h

-- The runtime that a subsystem request starts.
abbrev pub fresh_runtime : {S : Type 0} → S → ℕ → SftpServerRuntime S
fresh_runtime app channel = record {
  handler_state = app;
  buffers = (channel, []) ∷ [];
  channels = (channel, tt) ∷ [];
  negotiated = false;
  version = 3;
}

-- An SFTP runtime that serves one channel at most.
pub record Serves {S : Type 0} (channel : ℕ) (sftp : SftpServerRuntime S) : Type 0 where
  pub valid : IsValid sftp
  pub only : (c : ℕ) → c ≢ channel → contains_key sftp.channels c ≡ false

pub Serves-here :
    {S : Type 0} {channel : ℕ} {sftp : SftpServerRuntime S}
    → Serves channel sftp
    → (c : ℕ) → contains_key sftp.channels c ≡ true
    → c ≡ channel
Serves-here {channel} v c on = elim (Bool-cases (c == channel)) [
  | inl same ↦ (==_iff c channel).0 same
  | inr apart ↦ absurd (ground (arith, v.only c, ==_iff c channel))
]

pub fresh-Serves :
    {S : Type 0} (app : S) (channel : ℕ)
    → Serves channel (register_channel channel (new_runtime app))
unfolding register_channel new_runtime insert remove lookup
fresh-Serves app channel = record {
  valid = register_channel-IsValid (new_runtime-IsValid app) channel;
  only = λ c d. ground arith;
}

module _ {S T : Type 0} (env : Surroundings S T) (channel : ℕ) (bytes : Bytes)
    (sftp : SftpServerRuntime S) (t : T) (v : Serves channel sftp) where
  pub handle_data-Serves :
      AllBytes bytes → Serves channel (handle_data env channel bytes (sftp, t)).1.0
  handle_data-Serves h = record {
    valid = handle_data-IsValid env channel bytes sftp t v.valid h;
    only = λ c d. handle_data-unregistered env channel c bytes sftp t (v.only c d);
  }

  -- A channel that was closed gets nothing.
  handle_data-closed :
      contains_key sftp.channels channel ≡ false
      → (handle_data env channel bytes (sftp, t)).1 ≡ (sftp, t)
  unfolding handle_data
  handle_data-closed h = elim (Option-cases (lookup channel sftp.buffers)) [
    | inl missing ↦ rw (missing, handle_data)
    | inr (buf, e) ↦ absurd (ground (arith, v.valid.paired channel))
  ]

  pub feed-past :
      (c : ℕ) (msgs : List (ℕ × Bytes))
      → contains_key sftp.channels c ≡ false
      → feed env channel (on_channel channel ((c, bytes) ∷ msgs)) (sftp, t)
        ≡ feed env channel (on_channel channel msgs) (sftp, t)
  feed-past c msgs off = elim (Bool-cases (c == channel)) [
    | inl same ↦ rw same (
        ap (feed env channel (on_channel channel msgs))
          (handle_data-closed (ground (arith, ==_iff c channel))))
    | inr apart ↦ rw apart
  ]
