-- ===== src/KnownHosts/Words.antt =====
-- crates/russh-extra/src/known_hosts.rs: the operations on strings by which a file is cut into
-- lines and words: `lines`, `trim`, `split_whitespace` and `join`.
use russh_extra.Base.{
  ℕ, zero, suc, ◌==◌, leb, Bytes, Bool, true, false, ◌&&◌, ◌||◌, if◌then◌else◌, List, [], ◌∷◌, ◌++◌,
  ◌≡◌, refl,
}
use russh_extra.Base.Text.{text}

-- `is_empty` and `starts_with` of one byte.
abbrev pub is_empty : Bytes → Bool
is_empty [] = true
is_empty (c ∷ cs) = false

abbrev pub begins : ℕ → Bytes → Bool
begins b [] = false
begins b (c ∷ cs) = c == b

-- The white space of Unicode (`char::is_whitespace`) in UTF-8: of one byte, of two and of three.
unfoldable pub white_one : ℕ → Bool
white_one c = c == 32 || leb 9 c && leb c 13

unfoldable pub white_two : ℕ → Bytes → Bool
white_two c [] = false
white_two c (d ∷ ds) = c == 0xc2 && (d == 0x85 || d == 0xa0)

unfoldable pub white_three : ℕ → Bytes → Bool
white_three c [] = false
white_three c (d ∷ []) = false
white_three c (d ∷ e ∷ es) =
    c == 0xe1 && (d == 0x9a && e == 0x80)
    || (c == 0xe2
          && (d == 0x80 && (leb 0x80 e && leb e 0x8a || (e == 0xa8 || (e == 0xa9 || e == 0xaf)))
              || d == 0x81 && e == 0x9f)
        || c == 0xe3 && (d == 0x80 && e == 0x80))

-- How many bytes at the front make a character of white space.
unfoldable pub white_len : Bytes → ℕ
unfolding white_one white_two white_three
white_len [] = 0
white_len (c ∷ cs) =
    if white_one c then 1 else if white_two c cs then 2 else if white_three c cs then 3 else 0

-- `trim_start`; the number counts the bytes that are left of a character being skipped.
unfoldable pub trim_start : ℕ → Bytes → Bytes
trim_start pending [] = []
trim_start zero (c ∷ cs) = elim (white_len (c ∷ cs)) [ zero ↦ c ∷ cs | suc k ↦ trim_start k cs ]
trim_start (suc k) (c ∷ cs) = trim_start k cs

unfoldable pub trim_end : Bytes → Bytes
trim_end [] = []
trim_end (c ∷ cs) =
    let rest = trim_end cs in if is_empty (trim_start 0 (c ∷ cs)) then [] else c ∷ rest

-- `trim`
unfoldable pub trim : Bytes → Bytes
unfolding trim_start trim_end
trim line = trim_end (trim_start 0 line)

-- A byte in front of the first piece.
abbrev pub onto_first : ℕ → List Bytes → List Bytes
onto_first c [] = (c ∷ []) ∷ []
onto_first c (w ∷ ws) = (c ∷ w) ∷ ws

-- `split(char::is_whitespace)`
unfoldable pub split_white : ℕ → Bytes → List Bytes
split_white pending [] = [] ∷ []
split_white zero (c ∷ cs) = elim (white_len (c ∷ cs)) [
  | zero ↦ onto_first c (split_white zero cs)
  | suc k ↦ [] ∷ split_white k cs
]
split_white (suc k) (c ∷ cs) = split_white k cs

unfoldable pub non_empty : List Bytes → List Bytes
non_empty [] = []
non_empty ([] ∷ ws) = non_empty ws
non_empty ((c ∷ w) ∷ ws) = (c ∷ w) ∷ non_empty ws

-- `split_whitespace`
unfoldable pub split_whitespace : Bytes → List Bytes
unfolding split_white non_empty
split_whitespace line = non_empty (split_white 0 line)

-- `join(" ")`
unfoldable pub join : List Bytes → Bytes
join [] = []
join (w ∷ []) = w
join (w ∷ v ∷ ws) = w ++ 32 ∷ join (v ∷ ws)

-- `lines`: a line ends at a line feed, and a carriage return in front of it goes too.
unfoldable pub lines : Bytes → List Bytes
lines [] = []
lines (c ∷ cs) =
    let rest = lines cs in
    if c == 10 then [] ∷ rest else if c == 13 && begins 10 cs then rest else onto_first c rest

trim_test : trim (text " a b" ++ 0xc2 ∷ 0xa0 ∷ []) ≡ text "a b"
unfolding trim text white_len
trim_test = refl

split_whitespace_test :
    split_whitespace (text " ab " ++ 0xe2 ∷ 0x80 ∷ 0x83 ∷ text "c") ≡ text "ab" ∷ text "c" ∷ []
unfolding split_whitespace text white_len
split_whitespace_test = refl

lines_test : lines (text "a" ++ 13 ∷ 10 ∷ 10 ∷ text "b") ≡ text "a" ∷ [] ∷ text "b" ∷ []
unfolding lines text
lines_test = refl
