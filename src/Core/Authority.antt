-- ===== src/Core/Authority.antt =====
-- crates/russh-extra-core/src/session.rs: an endpoint that is shown and read again.
use russh_extra.Base.{
  ℕ, zero, suc, ◌+◌, ◌*◌, ◌/◌, ◌%◌, ◌==◌, ◌<◌, ◌≡◌, refl, ap, ◌∙◌, Bytes, Text, Bool, true, false,
  none, some, [], ◌∷◌, ◌++◌, arith,
}
use russh_extra.Base.Text.{decimal, decimal_from}
use russh_extra.Core.Error.{ok}
use russh_extra.Core.Endpoint.{
  Endpoint, colon, open_bracket, close_bracket, count_byte, split_once, rsplit_once, digits_u16,
  parse_u16, parse_port, with_port, from_suffix, from_bracketed, from_split, parse, authority,
}

-- A digit in front of the rest.
digit-digits_u16 :
    (d : ℕ) (n : ℕ) (cs : Bytes)
    → d < 10
    → n * 10 + d < 65536
    → digits_u16 n ((48 + d) ∷ cs) ≡ digits_u16 (n * 10 + d) cs
unfolding digits_u16
digit-digits_u16 d n cs hd hn = ground arith

digits_u16-decimal_from :
    (fuel n : ℕ) (out : Bytes)
    → n < fuel
    → n < 65536
    → digits_u16 0 (decimal_from fuel n out) ≡ digits_u16 n out
unfolding decimal_from
digits_u16-decimal_from zero n out h b = ground arith
digits_u16-decimal_from (suc fuel) n out h b = ground (
  arith,
  digits_u16-decimal_from fuel (n / 10) ((48 + n % 10) ∷ out),
  digit-digits_u16 (n % 10) (n / 10) out,
  digit-digits_u16 (n % 10) 0 out,
)

abbrev pub is_cons : Bytes → Bool
is_cons [] = false
is_cons (c ∷ cs) = true

decimal_from-is_cons :
    (fuel n : ℕ) (c : ℕ) (out : Bytes) → is_cons (decimal_from fuel n (c ∷ out)) ≡ true
unfolding decimal_from
decimal_from-is_cons zero n c out = refl
decimal_from-is_cons (suc fuel) n c out =
    ground (arith, decimal_from-is_cons fuel (n / 10) (48 + n % 10) (c ∷ out))

pub decimal-is_cons : (n : ℕ) → is_cons (decimal n) ≡ true
unfolding decimal decimal_from
decimal-is_cons n = ground (arith, decimal_from-is_cons n (n / 10) (48 + n % 10) [])

count_byte-decimal_from :
    (fuel n : ℕ) (out : Bytes) → count_byte colon (decimal_from fuel n out) ≡ count_byte colon out
unfolding decimal_from count_byte
count_byte-decimal_from zero n out = refl
count_byte-decimal_from (suc fuel) n out =
    ground (arith, count_byte-decimal_from fuel (n / 10) ((48 + n % 10) ∷ out))

count_byte-decimal : (n : ℕ) → count_byte colon (decimal n) ≡ 0
unfolding decimal count_byte
count_byte-decimal n = count_byte-decimal_from (suc n) n []

-- Digits alone have no sign.
parse_port-digits :
    (bs : Bytes) (n : ℕ) → digits_u16 0 bs ≡ some n → is_cons bs ≡ true → parse_port bs ≡ ok n
unfolding parse_port parse_u16 digits_u16
parse_port-digits [] n h k = ground arith
parse_port-digits (c ∷ cs) n h k = ground arith

parse_u16-digits :
    (bs : Bytes) (n : ℕ) → digits_u16 0 bs ≡ some n → is_cons bs ≡ true → parse_u16 bs ≡ some n
unfolding parse_u16 digits_u16
parse_u16-digits [] n h k = ground arith
parse_u16-digits (c ∷ cs) n h k = ground arith

-- A port that is shown in decimal is read back.
pub parse_u16-decimal : (n : ℕ) → n < 65536 → parse_u16 (decimal n) ≡ some n
unfolding decimal digits_u16
parse_u16-decimal n h =
    parse_u16-digits (decimal n) n (digits_u16-decimal_from (suc n) n [] (omega arith) h)
      (decimal-is_cons n)

parse_port-decimal : (n : ℕ) → n < 65536 → parse_port (decimal n) ≡ ok n
unfolding decimal digits_u16
parse_port-decimal n h =
    parse_port-digits (decimal n) n (digits_u16-decimal_from (suc n) n [] (omega arith) h)
      (decimal-is_cons n)

split_once-absent :
    (b : ℕ) (cs ds : Bytes) → count_byte b cs ≡ 0 → split_once b (cs ++ b ∷ ds) ≡ some (cs, ds)
unfolding split_once count_byte
split_once-absent b [] ds h = ground arith
split_once-absent b (c ∷ cs) ds h = ground (arith, split_once-absent b cs ds)

rsplit_once-none : (b : ℕ) (cs : Bytes) → count_byte b cs ≡ 0 → rsplit_once b cs ≡ none
unfolding rsplit_once count_byte
rsplit_once-none b [] h = refl
rsplit_once-none b (c ∷ cs) h = ground (arith, rsplit_once-none b cs)

rsplit_once-last :
    (b : ℕ) (cs ds : Bytes) → count_byte b ds ≡ 0 → rsplit_once b (cs ++ b ∷ ds) ≡ some (cs, ds)
unfolding rsplit_once
rsplit_once-last b [] ds h = ground (arith, rsplit_once-none b ds)
rsplit_once-last b (c ∷ cs) ds h = ground (arith, rsplit_once-last b cs ds)

count_byte-append :
    (b : ℕ) (cs ds : Bytes) → count_byte b (cs ++ ds) ≡ count_byte b cs + count_byte b ds
unfolding count_byte
count_byte-append b [] ds = ground arith
count_byte-append b (c ∷ cs) ds = ground (arith, count_byte-append b cs ds)

-- A host that can be shown: in brackets it ends at the first `]`, and outside of them it does not
-- begin with `[`.
pub record IsHost (host : Text) : Type 0 where
  pub bracketed : count_byte close_bracket host ≡ 0
  pub plain : count_byte open_bracket host ≡ 0
  pub some_byte : is_cons host ≡ true

with_port-decimal :
    (host : Text) (n : ℕ)
    → n < 65536
    → with_port host (decimal n) ≡ ok (record { host = host; port = n })
unfolding with_port
with_port-decimal host n h = ground (arith, parse_port-decimal n)

one_colon :
    (host : Text) (n : ℕ)
    → count_byte colon host ≡ 0
    → count_byte colon (host ++ colon ∷ decimal n) ≡ 1
unfolding count_byte
one_colon host n h =
    count_byte-append colon host (colon ∷ decimal n) ∙ omega (arith, h, count_byte-decimal n)

first-absent :
    (c : ℕ) (cs : Bytes) → count_byte open_bracket (c ∷ cs) ≡ 0 → (c == open_bracket) ≡ false
unfolding count_byte
first-absent c cs h = ground arith

-- What is neither bracketed nor without its one colon.
head-parse :
    (c : ℕ) (cs : Bytes)
    → (c == open_bracket) ≡ false
    → count_byte colon (c ∷ cs) ≡ 1
    → parse (c ∷ cs) ≡ from_split (rsplit_once colon (c ∷ cs))
unfolding parse
head-parse c cs h k = ground arith

plain-parse :
    (host : Text) (n : ℕ)
    → n < 65536
    → IsHost host
    → count_byte colon host ≡ 0
    → parse (host ++ colon ∷ decimal n) ≡ ok (record { host = host; port = n })
unfolding parse from_split
plain-parse [] n b h k = ground (arith, h.some_byte)
plain-parse (c ∷ cs) n b h k =
    head-parse c (cs ++ colon ∷ decimal n) (first-absent c cs h.plain) (one_colon (c ∷ cs) n k)
    ∙ ap from_split (rsplit_once-last colon (c ∷ cs) (decimal n) (count_byte-decimal n))
    ∙ with_port-decimal (c ∷ cs) n b

bracketed-parse :
    (host : Text) (n : ℕ)
    → n < 65536
    → IsHost host
    → parse (open_bracket ∷ (host ++ close_bracket ∷ colon ∷ decimal n))
      ≡ ok (record { host = host; port = n })
unfolding parse from_bracketed from_suffix
bracketed-parse [] n b h = ground (arith, h.some_byte)
bracketed-parse (c ∷ cs) n b h =
    ap from_bracketed (split_once-absent close_bracket (c ∷ cs) (colon ∷ decimal n) h.bracketed)
    ∙ with_port-decimal (c ∷ cs) n b

-- An endpoint whose port is below 65536 and whose host is not empty and has no bracket is read
-- back by the parser from what `authority` writes.
pub parse-authority : (e : Endpoint) → e.port < 65536 → IsHost e.host → parse (authority e) ≡ ok e
unfolding authority
parse-authority e b h =
    ground (arith, plain-parse e.host e.port b h, bracketed-parse e.host e.port b h)
