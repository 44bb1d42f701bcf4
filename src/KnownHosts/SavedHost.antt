-- ===== src/KnownHosts/SavedHost.antt =====
-- crates/russh-extra/src/known_hosts.rs: the host of a saved line, read back by
-- `parse_host_pattern`.
use russh_extra.Base.{
  ℕ, zero, suc, ◌+◌, ◌/◌, ◌%◌, ◌==◌, ◌<◌, leb, Bytes, Text, none, some, Bool, true, false, not,
  ◌&&◌, if◌then◌else◌, [], ◌∷◌, ◌++◌, ◌≡◌, refl, ap, arith, map, append_assoc, Bool-cases, inl, inr,
}
use russh_extra.Base.Text.{text, strip_prefix, decimal, decimal_from}
use russh_extra.Core.Authority.{is_cons, decimal-is_cons, parse_u16-decimal}
use russh_extra.Core.Endpoint.{colon, open_bracket, close_bracket, count_byte}
use russh_extra.KnownHosts.Entry.{KnownHostsEntry}
use russh_extra.KnownHosts.Files.{host_part}
use russh_extra.KnownHosts.Joined.{is_solid, IsWord, white_len-append}
use russh_extra.KnownHosts.Parse.{
  strip_suffix, rsplit_close, split_commas, with_port, parse_opened, parse_bracketed, at_any_port,
  parse_host_pattern,
}
use russh_extra.KnownHosts.Words.{begins, white_len, white_one, white_two, white_three}

-- Visible bytes of ASCII alone.
unfoldable pub is_graphic : Bytes → Bool
is_graphic [] = true
is_graphic (c ∷ cs) = leb 33 c && (leb c 126 && is_graphic cs)

white_len-graphic :
    (c : ℕ) (cs : Bytes) → leb 33 c ≡ true → leb c 126 ≡ true → white_len (c ∷ cs) ≡ 0
unfolding white_len white_one white_two white_three
white_len-graphic c [] h k = ground arith
white_len-graphic c (d ∷ []) h k = ground arith
white_len-graphic c (d ∷ e ∷ es) h k = ground arith

pub graphic-is_solid : (s : Bytes) → is_graphic s ≡ true → is_solid s ≡ true
unfolding is_graphic is_solid
graphic-is_solid [] h = refl
graphic-is_solid (c ∷ cs) h = ground (arith, white_len-graphic c cs, graphic-is_solid cs)

graphic-solid :
    (c : ℕ) (cs : Bytes)
    → leb 33 c ≡ true
    → leb c 126 ≡ true
    → is_solid cs ≡ true
    → is_solid (c ∷ cs) ≡ true
unfolding is_solid
graphic-solid c cs h k l = ground (arith, white_len-graphic c cs)

-- A solid text, and behind it one that begins with ASCII.
append-is_solid :
    (w : Bytes) (s : ℕ) (rest : Bytes)
    → s < 128
    → is_solid w ≡ true
    → is_solid (s ∷ rest) ≡ true
    → is_solid (w ++ s ∷ rest) ≡ true
unfolding is_solid
append-is_solid [] s rest h k l = l
append-is_solid (c ∷ cs) s rest h k l =
    ground (arith, white_len-append c cs s rest, append-is_solid cs s rest)

decimal_from-is_graphic :
    (fuel n : ℕ) (out : Bytes) → is_graphic out ≡ true → is_graphic (decimal_from fuel n out) ≡ true
unfolding decimal_from is_graphic
decimal_from-is_graphic zero n out h = h
decimal_from-is_graphic (suc fuel) n out h =
    ground (arith, decimal_from-is_graphic fuel (n / 10) ((48 + n % 10) ∷ out))

decimal-is_graphic : (n : ℕ) → is_graphic (decimal n) ≡ true
unfolding decimal is_graphic
decimal-is_graphic n = decimal_from-is_graphic (suc n) n [] refl

front_graphic : (s : Bytes) → is_graphic s ≡ true → is_graphic (close_bracket ∷ colon ∷ s) ≡ true
unfolding is_graphic
front_graphic s h = h

count_byte-decimal_from :
    (fuel n : ℕ) (out : Bytes)
    → count_byte close_bracket (decimal_from fuel n out) ≡ count_byte close_bracket out
unfolding decimal_from count_byte
count_byte-decimal_from zero n out = refl
count_byte-decimal_from (suc fuel) n out =
    ground (arith, count_byte-decimal_from fuel (n / 10) ((48 + n % 10) ∷ out))

count_byte-decimal : (n : ℕ) → count_byte close_bracket (decimal n) ≡ 0
unfolding decimal count_byte
count_byte-decimal n = count_byte-decimal_from (suc n) n []

strip_suffix-absent : (b : ℕ) (cs : Bytes) → count_byte b cs ≡ 0 → strip_suffix b cs ≡ none
unfolding strip_suffix count_byte
strip_suffix-absent b [] h = refl
strip_suffix-absent b (c ∷ []) h = ground arith
strip_suffix-absent b (c ∷ d ∷ cs) h = ground (arith, strip_suffix-absent b (d ∷ cs))

-- The suffix is looked for in the last part alone.
strip_suffix-append :
    (b : ℕ) (ds cs : Bytes)
    → is_cons cs ≡ true
    → strip_suffix b cs ≡ none
    → strip_suffix b (ds ++ cs) ≡ none
unfolding strip_suffix
strip_suffix-append b [] cs h k = k
strip_suffix-append b (d ∷ []) [] h k = ground arith
strip_suffix-append b (d ∷ []) (c ∷ cs) h k = ground arith
strip_suffix-append b (d ∷ e ∷ ds) cs h k = ground (arith, strip_suffix-append b (e ∷ ds) cs)

rsplit_close-absent : (cs : Bytes) → count_byte close_bracket cs ≡ 0 → rsplit_close cs ≡ none
unfolding rsplit_close count_byte
rsplit_close-absent [] h = refl
rsplit_close-absent (c ∷ cs) h = ground (arith, rsplit_close-absent cs)

rsplit_close-last :
    (host port : Bytes)
    → count_byte close_bracket port ≡ 0
    → rsplit_close (host ++ close_bracket ∷ colon ∷ port) ≡ some (host, port)
unfolding rsplit_close
rsplit_close-last [] port h = ground (arith, rsplit_close-absent port)
rsplit_close-last (c ∷ host) port h = ground (arith, rsplit_close-last host port)

split_commas-absent : (host : Bytes) → count_byte b',' host ≡ 0 → split_commas host ≡ host ∷ []
unfolding split_commas count_byte
split_commas-absent [] h = refl
split_commas-absent (c ∷ cs) h = ground (arith, split_commas-absent cs)

pub strip_prefix-first :
    (p : ℕ) (prefix line : Bytes) → begins p line ≡ false → strip_prefix (p ∷ prefix) line ≡ none
unfolding strip_prefix
strip_prefix-first p prefix [] h = refl
strip_prefix-first p prefix (c ∷ cs) h = ground arith

-- A host that a line can name: one word with no comma and no `]`, which does not begin like a
-- comment, a hashed host, a marker or a bracket.
pub record IsHost (host : Text) : Type 0 where
  pub word : IsWord host
  pub no_comma : count_byte b',' host ≡ 0
  pub no_close : count_byte close_bracket host ≡ 0
  pub no_hash : begins b'#' host ≡ false
  pub no_bar : begins b'|' host ≡ false
  pub no_marker : begins b'@' host ≡ false
  pub no_open : begins open_bracket host ≡ false

-- The port that a saved line is read back with.
unfoldable pub saved_port : ℕ → ℕ
saved_port port = if port == 22 then 0 else port

module _ (host : Text) (h : IsHost host) where
  plain-parse_host_pattern : parse_host_pattern host ≡ (host, 0) ∷ []
  unfolding parse_host_pattern text at_any_port strip_prefix
  plain-parse_host_pattern =
      rw (strip_prefix-first open_bracket [] host h.no_open)
        (ap (map at_any_port) (split_commas-absent host h.no_comma))

  module _ (port : ℕ) (b : port < 65536) where
    opened-parse : parse_opened (host ++ close_bracket ∷ colon ∷ decimal port) ≡ (host, port) ∷ []
    unfolding parse_opened with_port
    opened-parse =
        rw
          (
            rsplit_close-last host (decimal port) (count_byte-decimal port),
            strip_suffix-absent close_bracket host h.no_close,
            parse_opened,
          )
          (rw (parse_u16-decimal port b, with_port) refl)

    ends-strip_suffix :
        strip_suffix close_bracket (host ++ close_bracket ∷ colon ∷ decimal port) ≡ none
    ends-strip_suffix = rw (← append_assoc host (close_bracket ∷ colon ∷ []) (decimal port)) (
        strip_suffix-append close_bracket (host ++ close_bracket ∷ colon ∷ []) (decimal port)
          (decimal-is_cons port)
          (strip_suffix-absent close_bracket (decimal port) (count_byte-decimal port)))

    bracketed-parse_host_pattern :
        parse_host_pattern (open_bracket ∷ (host ++ close_bracket ∷ colon ∷ decimal port))
        ≡ (host, port) ∷ []
    unfolding parse_host_pattern parse_bracketed text strip_prefix
    bracketed-parse_host_pattern = rw (ends-strip_suffix, parse_bracketed) opened-parse

    bracketed-IsWord : IsWord (open_bracket ∷ (host ++ close_bracket ∷ colon ∷ decimal port))
    bracketed-IsWord = record {
      solid = graphic-solid open_bracket _ refl refl (
          append-is_solid host close_bracket (colon ∷ decimal port) (omega arith) h.word.solid (
            graphic-is_solid (close_bracket ∷ colon ∷ decimal port)
              (front_graphic (decimal port) (decimal-is_graphic port))));
      some_byte = refl;
    }

-- The host of a saved line is read back as the one host of the entry, with its port, or with 0 for
-- the port 22.
pub parse_host_pattern-host_part :
    (e : KnownHostsEntry)
    → IsHost e.hostname
    → e.port < 65536
    → parse_host_pattern (host_part e) ≡ (e.hostname, saved_port e.port) ∷ []
unfolding host_part saved_port
parse_host_pattern-host_part e h b = ground (
  arith,
  plain-parse_host_pattern e.hostname h,
  bracketed-parse_host_pattern e.hostname h e.port b,
)

pub host_part-IsWord :
    (e : KnownHostsEntry) → IsHost e.hostname → e.port < 65536 → IsWord (host_part e)
unfolding host_part
host_part-IsWord e h b = elim (Bool-cases (not (e.port == 0) && not (e.port == 22))) [
  | inl ported ↦ rw ported (bracketed-IsWord e.hostname h e.port b)
  | inr plain ↦ rw plain h.word
]

pub begins-host_part :
    (e : KnownHostsEntry) (c : ℕ)
    → begins c e.hostname ≡ false
    → (c == open_bracket) ≡ false
    → begins c (host_part e) ≡ false
unfolding host_part
begins-host_part e c h k = ground arith
