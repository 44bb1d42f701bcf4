-- ===== src/Sftp/Framing/Stream.antt =====
-- The reassembly loop on a stream of whole packets.
use russh_extra.Base.{
  ℕ, ◌+◌, ◌≤◌, ◌<◌, zero, suc, ◌≡◌, refl, ap, ◌∙◌, ◌≢◌, ◌++◌, Bytes, List, [], ◌∷◌, length,
  length-append, length-drop, take, drop, drop-length-append, take-length-append, append_assoc,
  append-nil, arith, drop-add,
}
use russh_extra.Base.Word.{u32_bytes, from_be_bytes, from_be_bytes-u32_bytes}
use russh_extra.Sftp.Wire.{max_sftp_packet_size}
use russh_extra.Sftp.Framing.{Split, complete, bad_length, out_of_fuel, split_loop, split_packets}
use mathlib.Core.Path.{ap₂}

-- A packet as it stands in the stream, behind its length.
abbrev pub packet_wire : Bytes → Bytes
packet_wire p = u32_bytes (length p) ++ p

abbrev pub stream_wire : List Bytes → Bytes
stream_wire [] = []
stream_wire (p ∷ ps) = packet_wire p ++ stream_wire ps

-- A packet that a peer may send.
abbrev pub IsPacket : Bytes → Type 0
IsPacket p = (1 ≤ length p) × (length p ≤ max_sftp_packet_size)

abbrev pub AllPackets : List Bytes → Type 0
AllPackets [] = Unit {0}
AllPackets (p ∷ ps) = IsPacket p × AllPackets ps

-- The packets that stood before, put in front.
abbrev pub after : List Bytes → Split → Split
after ps (complete qs rest) = complete (ps ++ qs) rest
after ps (bad_length qs len) = bad_length (ps ++ qs) len
after ps out_of_fuel = out_of_fuel

after-after : (ps qs : List Bytes) (s : Split) → after ps (after qs s) ≡ after (ps ++ qs) s
after-after ps qs (complete rs rest) = rw append_assoc
after-after ps qs (bad_length rs len) = rw append_assoc
after-after ps qs out_of_fuel = refl

after-nil : (s : Split) → s ≡ after [] s
after-nil (complete ps rest) = refl
after-nil (bad_length ps len) = refl
after-nil out_of_fuel = refl

-- The accumulator only stands in front.
split_loop-after :
    (fuel : ℕ) (ps : List Bytes) (buf : Bytes)
    → split_loop fuel ps buf ≡ after ps (split_loop fuel [] buf)
unfolding split_loop
split_loop-after zero ps buf = refl
split_loop-after (suc fuel) ps buf =
    let len = from_be_bytes (take 4 buf) in
    let packet = take len (drop 4 buf) in
    ground (
      arith,
      append-nil ps,
      split_loop-after fuel (ps ++ packet ∷ []) (drop (4 + len) buf),
      split_loop-after fuel (packet ∷ []) (drop (4 + len) buf),
      after-after ps (packet ∷ []) (split_loop fuel [] (drop (4 + len) buf)),
    )

-- More fuel than the buffer is long changes nothing.
split_loop-fuel :
    (f g : ℕ) (ps : List Bytes) (buf : Bytes)
    → length buf < f
    → length buf < g
    → split_loop f ps buf ≡ split_loop g ps buf
unfolding split_loop
split_loop-fuel zero g ps buf h k = absurd (omega arith)
split_loop-fuel (suc f) zero ps buf h k = absurd (omega arith)
split_loop-fuel (suc f) (suc g) ps buf h k =
    let len = from_be_bytes (take 4 buf) in
    ground (
      arith,
      length-drop (4 + len) buf,
      split_loop-fuel f g (ps ++ take len (drop 4 buf) ∷ []) (drop (4 + len) buf),
    )

-- With more fuel than the buffer has bytes, the reassembly loop does not run out of fuel.
pub split_loop-ne-out_of_fuel :
    (f : ℕ) (ps : List Bytes) (buf : Bytes) → length buf < f → split_loop f ps buf ≢ out_of_fuel
unfolding split_loop
split_loop-ne-out_of_fuel zero ps buf h = absurd (omega arith)
split_loop-ne-out_of_fuel (suc f) ps buf h =
    let len = from_be_bytes (take 4 buf) in
    ground (
      arith,
      length-drop (4 + len) buf,
      split_loop-ne-out_of_fuel f (ps ++ take len (drop 4 buf) ∷ []) (drop (4 + len) buf),
    )

-- A round of the loop at a whole packet of length `len`.
pub split_packets_step :
    (buf : Bytes) (len : ℕ)
    → from_be_bytes (take 4 buf) ≡ len
    → 1 ≤ len
    → len ≤ max_sftp_packet_size
    → 4 + len ≤ length buf
    → split_packets buf ≡ after (take len (drop 4 buf) ∷ []) (split_packets (drop (4 + len) buf))
unfolding split_packets split_loop
split_packets_step buf len e lo hi size =
    let packet = take len (drop 4 buf) in
    let rest = drop (4 + len) buf in
    ground (
      arith,
      length-drop (4 + len) buf,
      split_loop-after (length buf) (packet ∷ []) rest,
      split_loop-fuel (length buf) (suc (length rest)) [] rest,
    )

-- One whole packet at the front is cut off.
split_packets-packet :
    (p rest : Bytes)
    → IsPacket p
    → split_packets (packet_wire p ++ rest) ≡ after (p ∷ []) (split_packets rest)
split_packets-packet p rest (lo, hi) =
    let buf = packet_wire p ++ rest in
    let front : take 4 buf ≡ u32_bytes (length p) = unfold u32_bytes in refl in
    let back : drop 4 buf ≡ p ++ rest = unfold u32_bytes in refl in
    let len : from_be_bytes (take 4 buf) ≡ length p =
      rw front (from_be_bytes-u32_bytes (length p) (omega arith)) in
    let cut : drop (4 + length p) buf ≡ rest =
      drop-add 4 (length p) buf ∙ rw back (drop-length-append p rest) in
    let size : length buf ≡ 4 + (length p + length rest) =
      unfold u32_bytes in omega (arith, length-append p rest) in
    let taken : take (length p) (drop 4 buf) ≡ p = rw back (take-length-append p rest) in
    split_packets_step buf (length p) len lo hi (omega arith)
    ∙ ap₂ (λ q r. after (q ∷ []) (split_packets r)) taken cut

-- On packets of 1 to 262144 bytes, each behind its length, followed by any bytes, the loop finds
-- these packets in their order and then what it finds on the bytes behind them.
pub split_packets-stream :
    (ps : List Bytes) (rest : Bytes)
    → AllPackets ps
    → split_packets (stream_wire ps ++ rest) ≡ after ps (split_packets rest)
split_packets-stream [] rest h = after-nil (split_packets rest)
split_packets-stream (p ∷ ps) rest (hp, hps) =
    ap split_packets (append_assoc (packet_wire p) (stream_wire ps) rest)
    ∙ split_packets-packet p (stream_wire ps ++ rest) hp
    ∙ ap (after (p ∷ [])) (split_packets-stream ps rest hps)
    ∙ after-after (p ∷ []) ps (split_packets rest)
