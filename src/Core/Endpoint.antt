-- ===== src/Core/Endpoint.antt =====
-- crates/russh-extra-core/src/session.rs: endpoints, and how they are read and shown.
use russh_extra.Base.{
  ℕ, ◌+◌, ◌-◌, ◌*◌, ◌==◌, Bytes, Text, Option, none, some, [], ◌∷◌, ◌++◌, ltb, leb, ◌&&◌,
  if◌then◌else◌,
}
use russh_extra.Base.Text.{text, decimal}
use russh_extra.Core.Error.{Error, Result, ok, err}

pub record Endpoint : Type 0 where
  pub host : Text
  pub port : ℕ

abbrev pub default_ssh_port : ℕ
default_ssh_port = 22

-- `Endpoint::ssh`
unfoldable pub ssh : Text → Endpoint
ssh host = record { host = host; port = default_ssh_port }

abbrev pub colon : ℕ
colon = 58

abbrev pub open_bracket : ℕ
open_bracket = 91

abbrev pub close_bracket : ℕ
close_bracket = 93

-- `value.bytes().filter(|byte| *byte == b)…count()`, and `contains`.
unfoldable pub count_byte : ℕ → Bytes → ℕ
count_byte b [] = 0
count_byte b (c ∷ cs) = let rest = count_byte b cs in if c == b then rest + 1 else rest

-- `split_once`
unfoldable pub split_once : ℕ → Bytes → Option (Bytes × Bytes)
split_once b [] = none
split_once b (c ∷ cs) =
    let rest = split_once b cs in
    if c == b
    then some ([], cs)
    else elim rest [ none ↦ none | some (before, after) ↦ some (c ∷ before, after) ]

-- `rsplit_once`
unfoldable pub rsplit_once : ℕ → Bytes → Option (Bytes × Bytes)
rsplit_once b [] = none
rsplit_once b (c ∷ cs) = elim (rsplit_once b cs) [
  | some (before, after) ↦ some (c ∷ before, after)
  | none ↦ if c == b then some ([], cs) else none
]

-- The digits of `str::parse::<u16>`, behind the number read so far.
unfoldable pub digits_u16 : ℕ → Bytes → Option ℕ
digits_u16 n [] = some n
digits_u16 n (c ∷ cs) =
    let rest = digits_u16 (n * 10 + (c - 48)) cs in
    if leb 48 c && (leb c 57 && ltb (n * 10 + (c - 48)) 65536) then rest else none

unfoldable pub unsigned_u16 : Bytes → Option ℕ
unsigned_u16 [] = none
unsigned_u16 (c ∷ cs) = digits_u16 0 (c ∷ cs)

-- `str::parse::<u16>`, which takes a sign `+`.
unfoldable pub parse_u16 : Bytes → Option ℕ
parse_u16 [] = none
parse_u16 (c ∷ cs) = if c == 43 then unsigned_u16 cs else digits_u16 0 (c ∷ cs)

unfoldable pub parse_port : Text → Result ℕ
parse_port [] = err (Error.invalid_config (text "endpoint port cannot be empty"))
parse_port (c ∷ cs) = elim (parse_u16 (c ∷ cs)) [
  | none ↦ err (Error.invalid_config (text "endpoint port must be a valid u16"))
  | some n ↦ ok n
]

abbrev pub empty_host : Error
empty_host = Error.invalid_config (text "endpoint host cannot be empty")

-- `Ok(Self::new(host, parse_port(port)?))`
unfoldable pub with_port : Text → Text → Result Endpoint
with_port host port = elim (parse_port port) [
  | ok n ↦ ok (record { host = host; port = n })
  | err e ↦ err e
]

-- Behind the brackets of `[host]`.
unfoldable pub from_suffix : Text → Text → Result Endpoint
from_suffix host [] = ok (ssh host)
from_suffix host (c ∷ cs) =
    if c == colon
    then with_port host cs
    else err
        (Error.invalid_config (text "bracketed IPv6 endpoint must be '[host]' or '[host]:port'"))

unfoldable pub from_bracketed : Option (Bytes × Bytes) → Result Endpoint
from_bracketed none =
    err (Error.invalid_config (text "bracketed IPv6 endpoint must close with ']'"))
from_bracketed (some ([], suffix)) = err empty_host
from_bracketed (some (c ∷ host, suffix)) = from_suffix (c ∷ host) suffix

unfoldable pub from_split : Option (Bytes × Bytes) → Result Endpoint
from_split none = err (Error.invalid_config (text "endpoint port separator missing"))
from_split (some ([], port)) = err empty_host
from_split (some (c ∷ host, port)) = with_port (c ∷ host) port

-- `Endpoint::from_str`
unfoldable pub parse : Text → Result Endpoint
parse [] = err empty_host
parse (c ∷ cs) =
    if c == open_bracket
    then from_bracketed (split_once close_bracket cs)
    else if count_byte colon (c ∷ cs) == 1
    then from_split (rsplit_once colon (c ∷ cs))
    else ok (ssh (c ∷ cs))

-- `Endpoint::authority`, which `Display` writes.
unfoldable pub authority : Endpoint → Text
authority e =
    if ltb 0 (count_byte colon e.host)
    then open_bracket ∷ (e.host ++ close_bracket ∷ colon ∷ decimal e.port)
    else e.host ++ colon ∷ decimal e.port
