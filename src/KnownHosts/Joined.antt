-- ===== src/KnownHosts/Joined.antt =====
-- crates/russh-extra/src/known_hosts.rs: how words that are joined by spaces are cut again.
use russh_extra.Base.{
  ℕ, ◌==◌, ◌<◌, Bytes, Bool, true, false, not, ◌&&◌, List, [], ◌∷◌, ◌++◌, ◌≡◌, refl, ap, ◌∙◌, arith,
}
use russh_extra.KnownHosts.Words.{
  is_empty, white_one, white_two, white_three, white_len, trim_start, trim_end, trim, onto_first,
  split_white, non_empty, split_whitespace, join, lines,
}

-- No character of white space begins anywhere.
unfoldable pub is_solid : Bytes → Bool
is_solid [] = true
is_solid (c ∷ cs) = white_len (c ∷ cs) == 0 && is_solid cs

pub record IsWord (w : Bytes) : Type 0 where
  pub solid : is_solid w ≡ true
  pub some_byte : is_empty w ≡ false

pub data AllWords : List Bytes → Type 0 where
  nil : AllWords []
  cons : {w : Bytes} {ws : List Bytes} → IsWord w → AllWords ws → AllWords (w ∷ ws)

-- A byte of ASCII does not continue a character.
pub white_len-append :
    (c : ℕ) (cs : Bytes) (s : ℕ) (rest : Bytes)
    → s < 128
    → white_len ((c ∷ cs) ++ s ∷ rest) ≡ white_len (c ∷ cs)
unfolding white_len white_two white_three
white_len-append c [] s rest h = ground arith
white_len-append c (d ∷ []) s rest h = ground arith
white_len-append c (d ∷ e ∷ es) s rest h = refl

pub first-is_solid : (c : ℕ) (cs : Bytes) → is_solid (c ∷ cs) ≡ true → white_len (c ∷ cs) ≡ 0
unfolding is_solid
first-is_solid c cs h = ground arith

rest-is_solid : (c : ℕ) (cs : Bytes) → is_solid (c ∷ cs) ≡ true → is_solid cs ≡ true
unfolding is_solid
rest-is_solid c cs h = ground arith

split_white-letter :
    (c : ℕ) (cs : Bytes)
    → white_len (c ∷ cs) ≡ 0
    → split_white 0 (c ∷ cs) ≡ onto_first c (split_white 0 cs)
unfolding split_white
split_white-letter c cs h = rw (h, split_white) refl

trim_start-letter : (c : ℕ) (cs : Bytes) → white_len (c ∷ cs) ≡ 0 → trim_start 0 (c ∷ cs) ≡ c ∷ cs
unfolding trim_start
trim_start-letter c cs h = rw (h, trim_start) refl

module _ (s : ℕ) (rest : Bytes) (ascii : s < 128) where
  front : (c : ℕ) (cs : Bytes) → is_solid (c ∷ cs) ≡ true → white_len (c ∷ (cs ++ s ∷ rest)) ≡ 0
  front c cs h = white_len-append c cs s rest ascii ∙ first-is_solid c cs h

split_white-space : (rest : Bytes) → split_white 0 (32 ∷ rest) ≡ [] ∷ split_white 0 rest
unfolding split_white white_len white_one
split_white-space rest = refl

split_white-append :
    (w rest : Bytes) → is_solid w ≡ true → split_white 0 (w ++ 32 ∷ rest) ≡ w ∷ split_white 0 rest
split_white-append [] rest h = split_white-space rest
split_white-append (c ∷ cs) rest h =
    split_white-letter c (cs ++ 32 ∷ rest) (front 32 rest (omega arith) c cs h)
    ∙ ap (onto_first c) (split_white-append cs rest (rest-is_solid c cs h))

split_white-solid : (w : Bytes) → is_solid w ≡ true → split_white 0 w ≡ w ∷ []
split_white-solid [] h = unfold split_white in refl
split_white-solid (c ∷ cs) h =
    split_white-letter c cs (first-is_solid c cs h)
    ∙ ap (onto_first c) (split_white-solid cs (rest-is_solid c cs h))

non_empty-cons : (w : Bytes) (ws : List Bytes) → IsWord w → non_empty (w ∷ ws) ≡ w ∷ non_empty ws
unfolding non_empty
non_empty-cons [] ws h = ground (arith, h.some_byte)
non_empty-cons (c ∷ cs) ws h = refl

-- Words that are joined by spaces are what `split_whitespace` finds.
pub split_whitespace-join : {ws : List Bytes} → AllWords ws → split_whitespace (join ws) ≡ ws
unfolding split_whitespace join
split_whitespace-join nil = unfold split_white non_empty in refl
split_whitespace-join (cons {w} h nil) =
    ap non_empty (split_white-solid w h.solid) ∙ non_empty-cons w [] h ∙ unfold non_empty in refl
split_whitespace-join (cons {w} h (cons {w = v} {ws} k t)) =
    ap non_empty (split_white-append w (join (v ∷ ws)) h.solid)
    ∙ non_empty-cons w (split_white 0 (join (v ∷ ws))) h
    ∙ ap (λ x. w ∷ x) (split_whitespace-join (cons k t))

-- A word, alone or in front of a space, does not begin with white space.
trim_start-solid : (w : Bytes) → IsWord w → trim_start 0 w ≡ w
trim_start-solid [] h = ground (arith, h.some_byte)
trim_start-solid (c ∷ cs) h = trim_start-letter c cs (first-is_solid c cs h.solid)

trim_start-append : (w rest : Bytes) → IsWord w → trim_start 0 (w ++ 32 ∷ rest) ≡ w ++ 32 ∷ rest
trim_start-append [] rest h = ground (arith, h.some_byte)
trim_start-append (c ∷ cs) rest h =
    trim_start-letter c (cs ++ 32 ∷ rest) (front 32 rest (omega arith) c cs h.solid)

trim_start-join :
    (w : Bytes) (ws : List Bytes) → IsWord w → trim_start 0 (join (w ∷ ws)) ≡ join (w ∷ ws)
unfolding join
trim_start-join w [] h = trim_start-solid w h
trim_start-join w (v ∷ ws) h = trim_start-append w (join (v ∷ ws)) h

join-is_empty : (w : Bytes) (ws : List Bytes) → IsWord w → is_empty (join (w ∷ ws)) ≡ false
unfolding join
join-is_empty w [] h = h.some_byte
join-is_empty [] (v ∷ ws) h = ground (arith, h.some_byte)
join-is_empty (c ∷ cs) (v ∷ ws) h = refl

-- A byte in front of text that is not white space stays.
trim_end-letter :
    (c : ℕ) (cs : Bytes) → white_len (c ∷ cs) ≡ 0 → trim_end (c ∷ cs) ≡ c ∷ trim_end cs
unfolding trim_end
trim_end-letter c cs h = rw (trim_start-letter c cs h) refl

trim_end-solid : (w : Bytes) → is_solid w ≡ true → trim_end w ≡ w
trim_end-solid [] h = unfold trim_end in refl
trim_end-solid (c ∷ cs) h =
    trim_end-letter c cs (first-is_solid c cs h)
    ∙ ap (λ x. c ∷ x) (trim_end-solid cs (rest-is_solid c cs h))

trim_end-space :
    (rest : Bytes)
    → trim_start 0 rest ≡ rest
    → is_empty rest ≡ false
    → trim_end (32 ∷ rest) ≡ 32 ∷ trim_end rest
unfolding trim_end trim_start white_len white_one
trim_end-space rest shown some_byte = rw (shown, some_byte) refl

trim_end-append :
    (w rest : Bytes)
    → is_solid w ≡ true
    → trim_start 0 rest ≡ rest
    → is_empty rest ≡ false
    → trim_end (w ++ 32 ∷ rest) ≡ w ++ 32 ∷ trim_end rest
trim_end-append [] rest h shown some_byte = trim_end-space rest shown some_byte
trim_end-append (c ∷ cs) rest h shown some_byte =
    trim_end-letter c (cs ++ 32 ∷ rest) (front 32 rest (omega arith) c cs h)
    ∙ ap (λ x. c ∷ x) (trim_end-append cs rest (rest-is_solid c cs h) shown some_byte)

trim_end-join : {ws : List Bytes} → AllWords ws → trim_end (join ws) ≡ join ws
unfolding join
trim_end-join nil = unfold trim_end in refl
trim_end-join (cons {w} h nil) = trim_end-solid w h.solid
trim_end-join (cons {w} h (cons {w = v} {ws} k t)) =
    trim_end-append w (join (v ∷ ws)) h.solid (trim_start-join v ws k) (join-is_empty v ws k)
    ∙ ap (λ x. w ++ 32 ∷ x) (trim_end-join (cons k t))

-- `trim` takes nothing from words that are joined by spaces.
pub trim-join : {ws : List Bytes} → AllWords ws → trim (join ws) ≡ join ws
unfolding trim
trim-join nil = unfold trim_end trim_start join in refl
trim-join (cons {w} {ws} h t) = ap trim_end (trim_start-join w ws h) ∙ trim_end-join (cons h t)

-- No byte ends a line.
is_one_line : Bytes → Bool
is_one_line [] = true
is_one_line (c ∷ cs) = not (c == 10) && (not (c == 13) && is_one_line cs)

lines-one_line : (s rest : Bytes) → is_one_line s ≡ true → lines (s ++ 10 ∷ rest) ≡ s ∷ lines rest
unfolding lines is_one_line
lines-one_line [] rest h = refl
lines-one_line (c ∷ cs) rest h = ground (arith, lines-one_line cs rest)

append-is_one_line :
    (s t : Bytes) → is_one_line s ≡ true → is_one_line t ≡ true → is_one_line (s ++ t) ≡ true
unfolding is_one_line
append-is_one_line [] t h k = k
append-is_one_line (c ∷ cs) t h k = ground (arith, append-is_one_line cs t)

solid-is_one_line : (w : Bytes) → is_solid w ≡ true → is_one_line w ≡ true
unfolding is_one_line is_solid white_len white_one
solid-is_one_line [] h = refl
solid-is_one_line (c ∷ cs) h = ground (arith, solid-is_one_line cs)

space-is_one_line : (s : Bytes) → is_one_line s ≡ true → is_one_line (32 ∷ s) ≡ true
unfolding is_one_line
space-is_one_line s h = h

join-is_one_line : {ws : List Bytes} → AllWords ws → is_one_line (join ws) ≡ true
unfolding join
join-is_one_line nil = unfold is_one_line in refl
join-is_one_line (cons {w} h nil) = solid-is_one_line w h.solid
join-is_one_line (cons {w} h (cons {w = v} {ws} k t)) =
    append-is_one_line w (32 ∷ join (v ∷ ws)) (solid-is_one_line w h.solid)
      (space-is_one_line (join (v ∷ ws)) (join-is_one_line (cons k t)))

-- A line of words is the first line of what it begins.
pub lines-join :
    {ws : List Bytes} (rest : Bytes)
    → AllWords ws
    → lines (join ws ++ 10 ∷ rest) ≡ join ws ∷ lines rest
lines-join {ws} rest h = lines-one_line (join ws) rest (join-is_one_line h)
