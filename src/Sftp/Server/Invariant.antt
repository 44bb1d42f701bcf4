-- ===== src/Sftp/Server/Invariant.antt =====
-- The invariant of the server runtime, crates/russh-extra/src/sftp/server.rs.
use russh_extra.Base.{
  ℕ, ◌+◌, ◌≤◌, ◌<◌, ◌≡◌, refl, sym, ap, ◌∙◌, ◌++◌, Bytes, List, [], ◌∷◌, Option, some, none, length,
  arith, inl, inr, Bool-cases, ◌==◌, is_some, Option-cases, ==_iff,
}
use russh_extra.Base.Word.{AllBytes, AllBytes-append, AllBytes-back}
use russh_extra.Base.Assoc.{lookup, insert, contains_key, lookup-insert, lookup-remove}
use russh_extra.Sftp.Wire.{max_sftp_packet_size}
use russh_extra.Sftp.Framing.{Split, complete, bad_length, out_of_fuel, split_packets}
use russh_extra.Sftp.Framing.Stream.{stream_wire}
use russh_extra.Sftp.Framing.Accounts.{Accounts, split_packets-Accounts}
use russh_extra.Sftp.Server.Runtime.{
  SftpServerRuntime, Surroundings, new_runtime, register_channel, handle_channel_close,
}
use russh_extra.Sftp.Server.Dispatch.{
  dispatch_packet, write_response, serve_packets, after_split, handle_data,
}
use russh_extra.Sftp.Server.Local.{dispatch_packet-IsLocal}
use mathlib.Core.Path.{subst}

-- A buffer between two calls: bytes, and fewer than one packet of the largest size takes.
abbrev pub IsWaiting : Option Bytes → Type 0
IsWaiting none = Unit {0}
IsWaiting (some buf) = AllBytes buf × (length buf < 4 + max_sftp_packet_size)

pub record IsValid {S : Type 0} (rt : SftpServerRuntime S) : Type 0 where
  pub version : 3 ≤ rt.version
  pub paired : (c : ℕ) → contains_key rt.buffers c ≡ contains_key rt.channels c
  pub waiting : (c : ℕ) → IsWaiting (lookup c rt.buffers)

pub new_runtime-IsValid : {S : Type 0} (s : S) → IsValid (new_runtime s)
unfolding new_runtime lookup
new_runtime-IsValid s = record { version = omega arith; paired = λ c. refl; waiting = λ c. tt }

module _ {S : Type 0} {rt : SftpServerRuntime S} (v : IsValid rt) (channel : ℕ) where
  insert-waiting :
      (buf : Bytes)
      → IsWaiting (some buf)
      → (c : ℕ) → IsWaiting (lookup c (insert channel buf rt.buffers))
  insert-waiting buf h c = rw lookup-insert (elim (Bool-cases (channel == c)) [
    | inl same ↦ rw same h
    | inr other ↦ rw other (v.waiting c)
  ])

  -- `register_channel` with any channel keeps the invariant of the server runtime.
  pub register_channel-IsValid : IsValid (register_channel channel rt)
  unfolding register_channel
  register_channel-IsValid = record {
    version = v.version;
    paired = λ c.
        rw (lookup-insert channel c [] rt.buffers, lookup-insert channel c tt rt.channels)
          (elim (Bool-cases (channel == c)) [
            | inl same ↦ rw same
            | inr other ↦ rw other (v.paired c)
          ]);
    waiting = insert-waiting [] (tt, omega arith);
  }

  -- `handle_channel_close` with any channel keeps the invariant of the server runtime.
  pub handle_channel_close-IsValid : IsValid (handle_channel_close channel rt)
  unfolding handle_channel_close
  handle_channel_close-IsValid = record {
    version = v.version;
    paired = λ c.
        rw (lookup-remove channel c rt.buffers, lookup-remove channel c rt.channels)
          (elim (Bool-cases (channel == c)) [
            | inl same ↦ rw same
            | inr other ↦ rw other (v.paired c)
          ]);
    waiting = λ c. rw lookup-remove (elim (Bool-cases (channel == c)) [
      | inl same ↦ rw same tt
      | inr other ↦ rw other (v.waiting c)
    ]);
  }

  -- A buffer put in place of the one that was there.
  rebuffered-IsValid :
      (old buf : Bytes)
      → lookup channel rt.buffers ≡ some old
      → IsWaiting (some buf)
      → IsValid (record rt { buffers = insert channel buf rt.buffers })
  rebuffered-IsValid old buf e h = record {
    version = v.version;
    paired = λ c. rw (lookup-insert channel c buf rt.buffers) (elim (Bool-cases (channel == c)) [
      | inl same ↦
          rw same (rw (← (==_iff channel c).0 same) (ap is_some (sym e) ∙ v.paired channel))
      | inr other ↦ rw other (v.paired c)
    ]);
    waiting = insert-waiting buf h;
  }

module _ {S T : Type 0} (env : Surroundings S T) where
  pub dispatch_packet-IsValid :
      (packet : Bytes) (rt : SftpServerRuntime S)
      → IsValid rt
      → IsValid (dispatch_packet env packet rt).1
  dispatch_packet-IsValid packet rt v =
      let here = dispatch_packet-IsLocal env packet in
      subst IsValid (sym (ap (λ d. d.1) (here.free rt rt.buffers rt.channels)))
        (record { version = here.version rt v.version; paired = v.paired; waiting = v.waiting })

  serve_packets-IsValid :
      (channel : ℕ) (packets : List Bytes) (rt : SftpServerRuntime S) (session : T)
      → IsValid rt
      → IsValid (serve_packets env channel packets (rt, session)).1.0
  unfolding serve_packets
  serve_packets-IsValid channel [] rt session v = v
  serve_packets-IsValid channel (p ∷ ps) rt session v =
      let served = dispatch_packet env p rt in
      let v' = dispatch_packet-IsValid p rt v in
      let written = write_response env channel served.0 session in
      elim (Bool-cases written.0) [
        | inl going ↦ rw going (serve_packets-IsValid channel ps served.1 written.1 v')
        | inr refused ↦ rw refused v'
      ]

  -- `handle_data` with any channel and bytes keeps the invariant of the server runtime, whatever
  -- the handler and the session do; the invariant says that the version is at least 3, a channel
  -- has a buffer exactly if it is registered, and every buffer holds bytes and is shorter than
  -- the largest packet with its length.
  pub handle_data-IsValid :
      (channel : ℕ) (bytes : Bytes) (rt : SftpServerRuntime S) (session : T)
      → IsValid rt
      → AllBytes bytes
      → IsValid (handle_data env channel bytes (rt, session)).1.0
  unfolding handle_data
  handle_data-IsValid channel bytes rt session v hb =
      elim (Option-cases (lookup channel rt.buffers)) [
        | inl missing ↦ rw (missing, handle_data) v
        | inr (buf, e) ↦
            let old : IsWaiting (some buf) = rw e at (v.waiting channel) in
            let joined : AllBytes (buf ++ bytes) = AllBytes-append buf bytes old.0 hb in
            rw (e, handle_data)
              (split buf e (split_packets (buf ++ bytes)) joined
                (split_packets-Accounts (buf ++ bytes) joined))
      ]
    where
      split :
          (buf : Bytes)
          → lookup channel rt.buffers ≡ some buf
          → (s : Split) → AllBytes (buf ++ bytes)
          → Accounts (buf ++ bytes) s
          → IsValid (after_split env channel s (rt, session)).1.0
      split buf e (complete ps rest) joined (whole, _, partial) =
          let kept : AllBytes rest =
            AllBytes-back (stream_wire ps) rest (subst AllBytes whole joined) in
          unfold after_split in
          serve_packets-IsValid channel ps (record rt { buffers = insert channel rest rt.buffers })
            session (rebuffered-IsValid v channel buf rest e (kept, partial.short))
      split buf e (bad_length ps len) joined a =
          unfold after_split in handle_channel_close-IsValid v channel
      split buf e out_of_fuel joined a = absurd a
