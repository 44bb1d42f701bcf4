-- ===== src/Sftp/Wire/Reads.antt =====
-- What a `pop_*` step reads: the bytes that it takes off the front, whatever stands around them.
use russh_extra.Base.{
  ℕ, ◌+◌, ◌≤◌, ◌≡◌, sym, ◌∙◌, [], ◌++◌, Bytes, Text, length, length-append, take, drop,
  drop-length-append, take-length-append, append_assoc, append-nil, arith, le→ltb, refl,
}
use mathlib.Core.Path.{subst}
use russh_extra.Base.Word.{
  IsU32, IsU64, u32_bytes, u64_bytes, from_be_bytes-u32_bytes, from_be_bytes-u64_bytes, as_u32,
}
use russh_extra.Base.Text.{IsText}
use russh_extra.Core.Error.{ok}
use russh_extra.Sftp.Wire.{
  Pop, ◌>>=◌, ret, max_sftp_packet_size, check_bounds, pop_slice, pop_u32, pop_u64, pop_bytes,
  pop_string, from_start, push_u32, push_u64, push_bytes, push_string,
}

-- In `front ++ bs ++ rest`, with the cursor behind `front`, the step returns `a` and stands behind `bs`.
pub record Reads {A : Type 0} (m : Pop A) (bs : Bytes) (a : A) : Type 0 where
  pub run :
      (front rest : Bytes) → m (front ++ (bs ++ rest)) (length front) ≡ ok (a, length (front ++ bs))

pub ret-Reads : {A : Type 0} (a : A) → Reads (ret a) [] a
ret-Reads a = record { run = λ front rest. rw append-nil }

-- A chain goes on from what its first step returned.
pub >>=-eq :
    {A B : Type 0} (m : Pop A) (k : A → Pop B) {slice : Bytes} {pos pos' : ℕ} {a : A}
    → m slice pos ≡ ok (a, pos')
    → (m >>= k) slice pos ≡ k a slice pos'
>>=-eq m k e = rw (e, ◌>>=◌)

pub >>=-Reads :
    {A B : Type 0} {m : Pop A} (k : A → Pop B) {bs cs : Bytes} {a : A} {b : B}
    → Reads m bs a
    → Reads (k a) cs b
    → Reads (m >>= k) (bs ++ cs) b
>>=-Reads {m} k {bs} {cs} {a} {b} h g = record {
  run = λ front rest.
      let joined = front ++ bs in
      let whole : joined ++ (cs ++ rest) ≡ front ++ ((bs ++ cs) ++ rest) = simp append_assoc in
      let first : m (joined ++ (cs ++ rest)) (length front) ≡ ok (a, length joined) =
        rw append_assoc (h.run front (cs ++ rest)) in
      subst (λ w. (m >>= k) w (length front) ≡ ok (b, length (front ++ (bs ++ cs)))) whole
        (>>=-eq m k first ∙ rw (g.run joined rest, append_assoc));
}

check_bounds_ok :
    (slice : Bytes) (pos n : ℕ) → pos + n ≤ length slice → check_bounds slice pos n ≡ ok tt
unfolding check_bounds
check_bounds_ok slice pos n h = rw (le→ltb _ _ h)

pop_slice_ok :
    (n : ℕ) (slice : Bytes) (pos : ℕ)
    → pos + n ≤ length slice
    → pop_slice n slice pos ≡ ok (take n (drop pos slice), pos + n)
unfolding pop_slice
pop_slice_ok n slice pos h = rw (check_bounds_ok slice pos n h, pop_slice)

pop_slice-Reads : (bs : Bytes) → Reads (pop_slice (length bs)) bs bs
pop_slice-Reads bs = record {
  run = λ front rest.
      pop_slice_ok (length bs) (front ++ (bs ++ rest)) (length front)
        (omega (arith, length-append front (bs ++ rest), length-append bs rest))
      ∙ rw (
        drop-length-append front (bs ++ rest),
        take-length-append bs rest,
        length-append front bs,
      );
}

pub pop_u32-Reads : (v : ℕ) → IsU32 v → Reads pop_u32 (u32_bytes v) v
unfolding pop_u32 u32_bytes
pop_u32-Reads v h =
    >>=-Reads _ (pop_slice-Reads (u32_bytes v))
      (subst (λ x. Reads (ret x) [] v) (sym (from_be_bytes-u32_bytes v h)) (ret-Reads v))

pub pop_u64-Reads : (v : ℕ) → IsU64 v → Reads pop_u64 (u64_bytes v) v
unfolding pop_u64 u64_bytes
pop_u64-Reads v h =
    >>=-Reads _ (pop_slice-Reads (u64_bytes v))
      (subst (λ x. Reads (ret x) [] v) (sym (from_be_bytes-u64_bytes v h)) (ret-Reads v))

-- The bytes that `push_bytes` appends.
abbrev pub bytes_wire : Bytes → Bytes
bytes_wire bs = u32_bytes (as_u32 (length bs)) ++ bs

pub pop_bytes-Reads :
    (bs : Bytes) → length bs ≤ max_sftp_packet_size → Reads pop_bytes (bytes_wire bs) bs
unfolding pop_bytes
pop_bytes-Reads bs h =
    let same : as_u32 (length bs) ≡ length bs = omega arith in
    >>=-Reads _ (pop_u32-Reads (as_u32 (length bs)) (omega arith))
      (rw (same, le→ltb _ _ h) (pop_slice-Reads bs))

-- A string that can be read back: well-formed UTF-8 that is not too long.
pub record IsSendable (s : Text) : Type 0 where
  pub well_formed : IsText s
  pub fits : length s ≤ max_sftp_packet_size

pub pop_string-Reads : (s : Text) → IsSendable s → Reads pop_string (bytes_wire s) s
unfolding pop_string
pop_string-Reads s h =
    rw (← append-nil (bytes_wire s))
      (>>=-Reads _ (pop_bytes-Reads s h.fits) (rw h.well_formed (ret-Reads s)))

pub from_start-eq :
    {A : Type 0} (m : Pop A) {payload : Bytes} {a : A} {pos : ℕ}
    → m payload 0 ≡ ok (a, pos)
    → from_start m payload ≡ ok a
unfolding from_start
from_start-eq m e = rw (e, from_start)

-- A decoder returns what stands at the front of the payload.
pub from_start-Reads :
    {A : Type 0} (m : Pop A) {bs : Bytes} {a : A} (rest : Bytes)
    → Reads m bs a
    → from_start m (bs ++ rest) ≡ ok a
from_start-Reads m rest h = from_start-eq m (h.run [] rest)

pub from_start-Reads_whole :
    {A : Type 0} (m : Pop A) {bs : Bytes} {a : A} → Reads m bs a → from_start m bs ≡ ok a
from_start-Reads_whole m {bs} {a} h =
    subst (λ w. from_start m w ≡ ok a) (append-nil bs) (from_start-Reads m [] h)

-- What the pushes append.
pub push_u32_lem : (buf : Bytes) (v : ℕ) → push_u32 buf v ≡ buf ++ u32_bytes v
unfolding push_u32
push_u32_lem buf v = refl

pub push_u64_lem : (buf : Bytes) (v : ℕ) → push_u64 buf v ≡ buf ++ u64_bytes v
unfolding push_u64
push_u64_lem buf v = refl

pub push_bytes_lem : (buf bs : Bytes) → push_bytes buf bs ≡ buf ++ bytes_wire bs
unfolding push_bytes push_u32
push_bytes_lem buf bs = append_assoc buf (u32_bytes (as_u32 (length bs))) bs

pub push_string_lem : (buf : Bytes) (s : Text) → push_string buf s ≡ buf ++ bytes_wire s
unfolding push_string
push_string_lem buf s = push_bytes_lem buf s

-- The writes of a request or response, brought into one chain of its fields.
pub ruleset pushes =
    (push_u32_lem, push_u64_lem, push_bytes_lem, push_string_lem, append_assoc, append-nil)
