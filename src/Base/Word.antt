-- ===== src/Base/Word.antt =====
-- Machine words: `to_be_bytes` and `from_be_bytes` of u32 and u64, and the casts that wrap.
use Prim.Native.Nat.{ℕ, ◌+◌, ◌*◌, ◌/◌, ◌%◌, ◌^◌, ◌<◌}
use mathlib.Core.Path.{◌≡◌}
use mathlib.Core.List.{List, [], ◌∷◌, ◌++◌}
use native.Mathlib.Omega.{arith}

-- `x as u32`
abbrev pub as_u32 : ℕ → ℕ
as_u32 x = x % 2 ^ 32

abbrev pub IsU32 : ℕ → Type 0
IsU32 x = x < 2 ^ 32

abbrev pub IsU64 : ℕ → Type 0
IsU64 x = x < 2 ^ 64

-- `u32::to_be_bytes`
unfoldable pub u32_bytes : ℕ → List ℕ
u32_bytes v = (v / 2 ^ 24 % 256) ∷ (v / 2 ^ 16 % 256) ∷ (v / 2 ^ 8 % 256) ∷ (v % 256) ∷ []

-- `u64::to_be_bytes`
unfoldable pub u64_bytes : ℕ → List ℕ
u64_bytes v =
    (v / 2 ^ 56 % 256)
    ∷ (v / 2 ^ 48 % 256)
    ∷ (v / 2 ^ 40 % 256)
    ∷ (v / 2 ^ 32 % 256)
    ∷ (v / 2 ^ 24 % 256)
    ∷ (v / 2 ^ 16 % 256)
    ∷ (v / 2 ^ 8 % 256)
    ∷ (v % 256)
    ∷ []

-- `from_be_bytes` of a slice, from the most significant byte on.
be_from : ℕ → List ℕ → ℕ
be_from acc [] = acc
be_from acc (b ∷ bs) = be_from (acc * 256 + b) bs

unfoldable pub from_be_bytes : List ℕ → ℕ
unfolding be_from
from_be_bytes bs = be_from 0 bs

pub from_be_bytes-u32_bytes : (v : ℕ) → IsU32 v → from_be_bytes (u32_bytes v) ≡ v
unfolding from_be_bytes u32_bytes
from_be_bytes-u32_bytes v h = omega arith

pub from_be_bytes-u64_bytes : (v : ℕ) → IsU64 v → from_be_bytes (u64_bytes v) ≡ v
unfolding from_be_bytes u64_bytes
from_be_bytes-u64_bytes v h = omega arith

abbrev pub IsByte : ℕ → Type 0
IsByte b = b < 256

abbrev pub AllBytes : List ℕ → Type 0
AllBytes [] = Unit {0}
AllBytes (b ∷ bs) = IsByte b × AllBytes bs

pub u32_bytes-from_be_bytes :
    (a b c d : ℕ)
    → IsByte a
    → IsByte b
    → IsByte c
    → IsByte d
    → u32_bytes (from_be_bytes (a ∷ b ∷ c ∷ d ∷ [])) ≡ a ∷ b ∷ c ∷ d ∷ []
unfolding from_be_bytes u32_bytes
u32_bytes-from_be_bytes a b c d ha hb hc hd =
    let n = ((a * 256 + b) * 256 + c) * 256 + d in
    let e1 : n / 2 ^ 24 % 256 ≡ a = omega arith in
    let e2 : n / 2 ^ 16 % 256 ≡ b = omega arith in
    let e3 : n / 2 ^ 8 % 256 ≡ c = omega arith in
    let e4 : n % 256 ≡ d = omega arith in ground (arith, e1, e2, e3, e4)

pub AllBytes-append : (bs cs : List ℕ) → AllBytes bs → AllBytes cs → AllBytes (bs ++ cs)
AllBytes-append [] cs h k = k
AllBytes-append (b ∷ bs) cs (hb, h) k = (hb, AllBytes-append bs cs h k)

pub AllBytes-back : (bs cs : List ℕ) → AllBytes (bs ++ cs) → AllBytes cs
AllBytes-back [] cs h = h
AllBytes-back (b ∷ bs) cs (hb, h) = AllBytes-back bs cs h
