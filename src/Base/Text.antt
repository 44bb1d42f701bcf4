-- ===== src/Base/Text.antt =====
-- Strings as UTF-8 bytes: literals, decimal numbers of `format!`, and the test of `from_utf8`.
use Prim.Native.Nat.{ℕ, zero, suc, ◌+◌, ◌/◌, ◌%◌}
use Prim.Native.Char.{code}
use Prim.Native.String.{String}
use mathlib.Core.Path.{◌≡◌, refl}
use mathlib.Core.Bool.{Bool, true, false, ◌&&◌, ◌||◌}
use mathlib.Core.Option.{Option, none, some}
use mathlib.Core.List.{List, [], ◌∷◌}
use native.Mathlib.Omega.{arith}
use russh_extra.Base.Tests.{ltb, leb, ◌==◌, if◌then◌else◌}

-- The bytes of an ASCII literal.
unfoldable pub text : String → List ℕ
text String.[] = []
text (String.◌∷◌ c s) = code c ∷ text s

unfoldable pub decimal_from : ℕ → ℕ → List ℕ → List ℕ
decimal_from zero n out = out
decimal_from (suc fuel) n out =
    let out' = (b'0' + n % 10) ∷ out in
    let rest = decimal_from fuel (n / 10) out' in if ltb n 10 then out' else rest

-- `{}` of an unsigned number: a number has fewer digits than its value plus one.
unfoldable pub decimal : ℕ → List ℕ
unfolding decimal_from
decimal n = decimal_from (suc n) n []

-- The states of the well-formedness table of UTF-8 (Unicode, Table 3-7).
pub data Utf8State : Type 0 where
  boundary tail1 tail2 tail3 after_e0 after_ed after_f0 after_f4 : Utf8State

between : ℕ → ℕ → ℕ → Bool
between lo b hi = leb lo b && leb b hi

abbrev utf8_when : Bool → Utf8State → Option Utf8State
utf8_when true s = some s
utf8_when false s = none

utf8_lead : ℕ → Option Utf8State
unfolding between
utf8_lead b =
    if leb b 0x7f
    then some boundary
    else if between 0xc2 b 0xdf
    then some tail1
    else if b == 0xe0
    then some after_e0
    else if between 0xe1 b 0xec || between 0xee b 0xef
    then some tail2
    else if b == 0xed
    then some after_ed
    else if b == 0xf0
    then some after_f0
    else if between 0xf1 b 0xf3
    then some tail3
    else if b == 0xf4
    then some after_f4
    else none

utf8_step : Utf8State → ℕ → Option Utf8State
unfolding utf8_lead between
utf8_step boundary b = utf8_lead b
utf8_step tail1 b = utf8_when (between 0x80 b 0xbf) boundary
utf8_step tail2 b = utf8_when (between 0x80 b 0xbf) tail1
utf8_step tail3 b = utf8_when (between 0x80 b 0xbf) tail2
utf8_step after_e0 b = utf8_when (between 0xa0 b 0xbf) tail1
utf8_step after_ed b = utf8_when (between 0x80 b 0x9f) tail1
utf8_step after_f0 b = utf8_when (between 0x90 b 0xbf) tail2
utf8_step after_f4 b = utf8_when (between 0x80 b 0x8f) tail2

utf8_from : Utf8State → List ℕ → Bool
unfolding utf8_step
utf8_from boundary [] = true
utf8_from _ [] = false
utf8_from s (b ∷ bs) = elim (utf8_step s b) [ none ↦ false | some s' ↦ utf8_from s' bs ]

-- Whether `String::from_utf8` accepts the bytes.
unfoldable pub is_utf8 : List ℕ → Bool
unfolding utf8_from
is_utf8 bs = utf8_from boundary bs

-- What the type `String` guarantees of its bytes.
abbrev pub IsText : List ℕ → Type 0
IsText s = is_utf8 s ≡ true

text_test : text "en" ≡ 101 ∷ 110 ∷ []
unfolding text
text_test = refl

decimal_test : decimal 262145 ≡ text "262145"
unfolding decimal text
decimal_test = refl

is_utf8_test : is_utf8 (0xe2 ∷ 0x82 ∷ 0xac ∷ text "x") ≡ true
unfolding is_utf8 text
is_utf8_test = refl

is_utf8_surrogate : is_utf8 (0xed ∷ 0xa0 ∷ 0x80 ∷ []) ≡ false
unfolding is_utf8
is_utf8_surrogate = refl

-- `value.strip_prefix(prefix)`
unfoldable pub strip_prefix : List ℕ → List ℕ → Option (List ℕ)
strip_prefix [] value = some value
strip_prefix (p ∷ prefix) [] = none
strip_prefix (p ∷ prefix) (c ∷ value) =
    let rest = strip_prefix prefix value in if c == p then rest else none

-- `==` on byte strings.
unfoldable pub bytes_eq : List ℕ → List ℕ → Bool
bytes_eq [] [] = true
bytes_eq [] (b ∷ bs) = false
bytes_eq (a ∷ cs) [] = false
bytes_eq (a ∷ cs) (b ∷ bs) = a == b && bytes_eq cs bs

pub bytes_eq_sound : (cs bs : List ℕ) → bytes_eq cs bs ≡ true → cs ≡ bs
unfolding bytes_eq
bytes_eq_sound [] [] h = refl
bytes_eq_sound [] (b ∷ bs) h = cc
bytes_eq_sound (a ∷ cs) [] h = cc
bytes_eq_sound (a ∷ cs) (b ∷ bs) h = ground (arith, bytes_eq_sound cs bs)

pub bytes_eq_refl : (bs : List ℕ) → bytes_eq bs bs ≡ true
unfolding bytes_eq
bytes_eq_refl [] = refl
bytes_eq_refl (b ∷ bs) = ground (arith, bytes_eq_refl bs)

unfoldable pub is_ascii : List ℕ → Bool
is_ascii [] = true
is_ascii (b ∷ bs) = leb b 0x7f && is_ascii bs

pub ascii-is_utf8 : (bs : List ℕ) → is_ascii bs ≡ true → is_utf8 bs ≡ true
unfolding is_utf8 is_ascii utf8_from utf8_step utf8_lead
ascii-is_utf8 [] h = refl
ascii-is_utf8 (b ∷ bs) h = ground (arith, ascii-is_utf8 bs)
