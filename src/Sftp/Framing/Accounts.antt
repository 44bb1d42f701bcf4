-- ===== src/Sftp/Framing/Accounts.antt =====
-- The reassembly loop on any bytes, whole packets or not.
use russh_extra.Base.{
  ℕ, ◌+◌, ◌≤◌, ◌<◌, zero, suc, ◌≡◌, refl, sym, ap, ◌∙◌, inl, inr, ◌++◌, Bytes, List, [], ◌∷◌,
  length, length-drop, length-take, take, drop, take-append-drop, append_assoc, true, false,
  Bool-cases, arith, drop-add,
}
use russh_extra.Base.Word.{u32_bytes, from_be_bytes, AllBytes, u32_bytes-from_be_bytes}
use russh_extra.Sftp.Wire.{max_sftp_packet_size}
use russh_extra.Sftp.Framing.{
  Split, complete, bad_length, out_of_fuel, is_bad_length, split_loop, split_packets,
}
use mathlib.Core.Path.{ap₂, subst}
use native.Mathlib.Decide.{dec_lt}
use russh_extra.Sftp.Framing.Stream.{
  packet_wire, stream_wire, IsPacket, AllPackets, after, split_packets_step, split_packets-stream,
}

AllBytes-drop : (n : ℕ) (bs : Bytes) → AllBytes bs → AllBytes (drop n bs)
AllBytes-drop zero bs h = h
AllBytes-drop (suc n) [] h = h
AllBytes-drop (suc n) (b ∷ bs) h = AllBytes-drop n bs h.1

-- What is left when the loop stops for more input.
pub record IsPartial (rest : Bytes) : Type 0 where
  pub kept : split_packets rest ≡ complete [] rest
  pub short : length rest < 4 + max_sftp_packet_size

-- The parts of a result: the bytes are the packets on the wire, then a partial packet.
abbrev pub Accounts : Bytes → Split → Type 0
Accounts buf (complete ps rest) = (buf ≡ stream_wire ps ++ rest) × AllPackets ps × IsPartial rest
Accounts buf (bad_length ps len) =
    (rest : Bytes) × (buf ≡ stream_wire ps ++ rest)
    × AllPackets ps
    × (4 ≤ length rest)
    × (from_be_bytes (take 4 rest) ≡ len)
    × (is_bad_length len ≡ true)
Accounts buf out_of_fuel = ⊥

Accounts-after :
    (p : Bytes) (buf : Bytes) (s : Split)
    → IsPacket p
    → Accounts buf s
    → Accounts (packet_wire p ++ buf) (after (p ∷ []) s)
Accounts-after p buf (complete ps rest) h (e, hs, partial) =
    (rw e (sym (append_assoc (packet_wire p) (stream_wire ps) rest)), (h, hs), partial)
Accounts-after p buf (bad_length ps len) h (rest, e, hs, size, field, bad) = (
  rest,
  rw e (sym (append_assoc (packet_wire p) (stream_wire ps) rest)),
  (h, hs),
  size,
  field,
  bad,
)
Accounts-after p buf out_of_fuel h a = a

-- The first four bytes are the length that they stand for.
take_four :
    (buf : Bytes)
    → AllBytes buf
    → 4 ≤ length buf
    → take 4 buf ≡ u32_bytes (from_be_bytes (take 4 buf))
take_four [] h k = absurd (omega arith)
take_four (a ∷ []) h k = absurd (omega arith)
take_four (a ∷ b ∷ []) h k = absurd (omega arith)
take_four (a ∷ b ∷ c ∷ []) h k = absurd (omega arith)
take_four (a ∷ b ∷ c ∷ d ∷ r) (ha, (hb, (hc, (hd, _)))) k =
    sym (u32_bytes-from_be_bytes a b c d ha hb hc hd)

module _ (buf : Bytes) where
  abbrev pub field : ℕ
  field = from_be_bytes (take 4 buf)

  short_IsPartial : length buf < 4 → IsPartial buf
  unfolding split_packets split_loop
  short_IsPartial h = record { kept = ground arith; short = omega arith }

  waiting_IsPartial : is_bad_length field ≡ false → length buf < 4 + field → IsPartial buf
  unfolding split_packets split_loop
  waiting_IsPartial good h = record { kept = ground arith; short = ground arith }

  pub bad_length_stops :
      4 ≤ length buf → is_bad_length field ≡ true → split_packets buf ≡ bad_length [] field
  unfolding split_packets split_loop
  bad_length_stops h bad = ground arith

  -- A whole packet at the front is its wire form.
  front_packet :
      AllBytes buf
      → 4 + field ≤ length buf
      → (buf ≡ packet_wire (take field (drop 4 buf)) ++ drop (4 + field) buf)
        × (length (take field (drop 4 buf)) ≡ field)
  front_packet bytes size =
      let len : length (take field (drop 4 buf)) ≡ field =
        omega (arith, length-take field (drop 4 buf), length-drop 4 buf) in
      (
        sym (take-append-drop 4 buf)
            ∙ ap₂ (λ x y. x ++ y) (take_four buf bytes (omega arith))
                (sym (take-append-drop field (drop 4 buf)))
            ∙ rw (len, drop-add 4 field buf) (sym (append_assoc (u32_bytes field) _ _)),
        len,
      )

split_packets-Accounts_below :
    (k : ℕ) (buf : Bytes) → length buf < k → AllBytes buf → Accounts buf (split_packets buf)
split_packets-Accounts_below zero buf h bytes = absurd (omega arith)
split_packets-Accounts_below (suc k) buf h bytes = elim (dec_lt (length buf) 4) [
  | yes few ↦ stop (short_IsPartial buf few)
  | no enough ↦ elim (Bool-cases (is_bad_length (field buf))) [
    | inl bad ↦ rw (bad_length_stops buf (omega arith) bad) (buf, refl, tt, omega arith, refl, bad)
    | inr good ↦ elim (dec_lt (length buf) (4 + field buf)) [
      | yes few ↦ stop (waiting_IsPartial buf good few)
      | no whole ↦ go_on good (omega arith) (
          split_packets-Accounts_below k (drop (4 + field buf) buf)
            (omega (arith, length-drop (4 + field buf) buf))
            (AllBytes-drop (4 + field buf) buf bytes))
    ]
  ]
]
  where
    stop : IsPartial buf → Accounts buf (split_packets buf)
    stop partial = rw partial.kept (refl, tt, partial)

    go_on :
        is_bad_length (field buf) ≡ false
        → 4 + field buf ≤ length buf
        → Accounts (drop (4 + field buf) buf) (split_packets (drop (4 + field buf) buf))
        → Accounts buf (split_packets buf)
    go_on good size rest =
        let (whole, len) = front_packet buf bytes size in
        let lo : 1 ≤ field buf = ground arith in
        let hi : field buf ≤ max_sftp_packet_size = ground arith in
        rw (split_packets_step buf (field buf) refl lo hi size) (
          subst
            (λ b. Accounts b (
              after (take (field buf) (drop 4 buf) ∷ [])
                (split_packets (drop (4 + field buf) buf))))
            (sym whole) (Accounts-after _ _ _ (omega arith, omega arith) rest))

-- On any byte string the reassembly loop ends. Either its packets, each of 1 to 262144 bytes and
-- behind its length, and the rest make up the bytes, and the rest holds no whole packet and is
-- shorter than the largest packet with its length; or the packets make up the bytes up to a
-- length field that is 0 or above the limit, which is the one reported.
pub split_packets-Accounts : (buf : Bytes) → AllBytes buf → Accounts buf (split_packets buf)
split_packets-Accounts buf bytes =
    split_packets-Accounts_below (suc (length buf)) buf (omega arith) bytes

-- When the loop on some bytes ends without a bad length, the loop on these bytes and more finds
-- the same packets first, and then what the loop finds on the rest and the further bytes.
pub split_packets-append :
    (buf more : Bytes) (ps : List Bytes) (rest : Bytes)
    → AllBytes buf
    → split_packets buf ≡ complete ps rest
    → split_packets (buf ++ more) ≡ after ps (split_packets (rest ++ more))
split_packets-append buf more ps rest bytes e =
    let (whole, hs, _) : (buf ≡ stream_wire ps ++ rest) × AllPackets ps × IsPartial rest =
      rw e at (split_packets-Accounts buf bytes) in
    ap (λ b. split_packets (b ++ more)) whole
    ∙ ap split_packets (append_assoc (stream_wire ps) rest more)
    ∙ split_packets-stream ps (rest ++ more) hs
