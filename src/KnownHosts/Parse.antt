-- ===== src/KnownHosts/Parse.antt =====
-- crates/russh-extra/src/known_hosts.rs: the parsers of a host pattern, of a line and of a file.
-- `decode` is the base64 decoder of the `base64` crate.
use russh_extra.Base.{
  ℕ, ◌+◌, ◌==◌, Bytes, Text, Option, none, some, unwrap_or, Bool, true, false, ◌&&◌, ◌||◌,
  if◌then◌else◌, List, [], ◌∷◌, ◌++◌, map, drop, is_some,
}
use russh_extra.Base.Text.{text, strip_prefix}
use russh_extra.Core.Endpoint.{colon, close_bracket, rsplit_once, parse_u16}
use russh_extra.KnownHosts.Entry.{KnownHostsEntry, KnownHostsParseWarning}
use russh_extra.KnownHosts.Words.{is_empty, begins, onto_first, trim, split_whitespace, join, lines}

unfoldable pub parse_revoked_marker : Text → Bool × Text
parse_revoked_marker line = elim (strip_prefix (text "@revoked ") line) [
  | some rest ↦ (true, rest)
  | none ↦ (false, line)
]

unfoldable pub parse_cert_authority_marker : Text → Bool × Text
parse_cert_authority_marker line = elim (strip_prefix (text "@cert-authority ") line) [
  | some rest ↦ (true, rest)
  | none ↦ (false, line)
]

-- `strip_suffix` of one byte.
unfoldable pub strip_suffix : ℕ → Bytes → Option Bytes
strip_suffix b [] = none
strip_suffix b (c ∷ []) = if c == b then some [] else none
strip_suffix b (c ∷ d ∷ cs) = elim (strip_suffix b (d ∷ cs)) [
  | none ↦ none
  | some rest ↦ some (c ∷ rest)
]

-- `rsplit_once("]:")`
unfoldable pub rsplit_close : Bytes → Option (Bytes × Bytes)
rsplit_close [] = none
rsplit_close (c ∷ cs) = elim (rsplit_close cs) [
  | some (before, after) ↦ some (c ∷ before, after)
  | none ↦ if c == close_bracket && begins colon cs then some ([], drop 1 cs) else none
]

-- `split(',')`
unfoldable pub split_commas : Bytes → List Bytes
split_commas [] = [] ∷ []
split_commas (c ∷ cs) =
    let rest = split_commas cs in if c == b',' then [] ∷ rest else onto_first c rest

-- A host with the port that the text gives, or `otherwise` where it gives none.
unfoldable pub with_port : Text → Text → Text → List (Text × ℕ)
with_port host port_str otherwise = elim (parse_u16 port_str) [
  | some port ↦ (host, port) ∷ []
  | none ↦ (otherwise, 0) ∷ []
]

-- `[before_close]`
unfoldable pub parse_closed : Text → List (Text × ℕ)
parse_closed before_close = elim (rsplit_once colon before_close) [
  | none ↦ (before_close, 0) ∷ []
  | some (host, port_str) ↦ with_port host port_str before_close
]

-- `[host]:port` without its first bracket.
unfoldable pub parse_opened : Text → List (Text × ℕ)
parse_opened inner = elim (rsplit_close inner) [
  | none ↦ (inner, 0) ∷ []
  | some (host, port_str) ↦
      with_port (unwrap_or (strip_suffix close_bracket host) host) port_str inner
]

unfoldable pub parse_bracketed : Text → List (Text × ℕ)
parse_bracketed inner = elim (strip_suffix close_bracket inner) [
  | some before_close ↦ parse_closed before_close
  | none ↦ parse_opened inner
]

unfoldable pub at_any_port : Text → Text × ℕ
at_any_port host = (host, 0)

unfoldable pub parse_host_pattern : Text → List (Text × ℕ)
parse_host_pattern pattern = elim (strip_prefix (text "[") pattern) [
  | some inner ↦ parse_bracketed inner
  | none ↦ map at_any_port (split_commas pattern)
]

-- What stands behind the first three words.
unfoldable pub comment_of : List Bytes → Option Text
comment_of [] = none
comment_of (w ∷ ws) = some (join (w ∷ ws))

unfoldable pub entry_for : Bool → Text → Bytes → Option Text → Text × ℕ → KnownHostsEntry
entry_for revoked algorithm key_blob comment (hostname, port) = record {
  hostname = hostname;
  port = port;
  algorithm = algorithm;
  key_blob = key_blob;
  comment = comment;
  revoked = revoked;
}

unfoldable pub is_comment_or_blank : Text → Bool
is_comment_or_blank trimmed = is_empty trimmed || begins b'#' trimmed

abbrev pub hashed_reason : Text
hashed_reason = text "hashed hostname entries are not yet supported"

abbrev pub cert_authority_reason : Text
cert_authority_reason = text "cert-authority entries are not yet supported"

abbrev pub failed_reason : Text
failed_reason = text "failed to parse known-hosts line"

module _ (decode : Text → Option Bytes) where
  -- `base64_decode_key`: the decoder read to its end.
  unfoldable pub base64_decode_key : Text → Option Bytes
  base64_decode_key encoded = decode encoded

  unfoldable pub parse_words : Bool → List Bytes → List KnownHostsEntry
  parse_words revoked [] = []
  parse_words revoked (pattern ∷ []) = []
  parse_words revoked (pattern ∷ algorithm ∷ []) = []
  parse_words revoked (pattern ∷ algorithm ∷ encoded ∷ rest) = elim (base64_decode_key encoded) [
    | none ↦ []
    | some key_blob ↦
        map (entry_for revoked algorithm key_blob (comment_of rest)) (parse_host_pattern pattern)
  ]

  -- `KnownHostsEntry::parse`
  unfoldable pub parse_entry : Text → List KnownHostsEntry
  parse_entry line =
      let trimmed = trim line in
      let (revoked, rest) = parse_revoked_marker trimmed in
      let (cert_authority, rest') = parse_cert_authority_marker rest in
      if is_comment_or_blank trimmed then [] else parse_words revoked (split_whitespace rest')

  -- The warning that a line gives, if it gives one.
  unfoldable pub warning_of : Text → List KnownHostsEntry → Option Text
  warning_of trimmed parsed =
      if begins b'|' trimmed
      then some hashed_reason
      else if is_some (strip_prefix (text "@cert-authority ") trimmed)
      then some cert_authority_reason
      else elim parsed [ [] ↦ some failed_reason | e ∷ es ↦ none ]

  unfoldable pub warning_at : ℕ → Text → Text → KnownHostsParseWarning
  warning_at index content reason = record { line = index + 1; content = content; reason = reason }

  -- The loop of `parse_known_hosts_content`, with the index of the next line and what is collected.
  unfoldable pub content_loop :
      ℕ
      → List KnownHostsEntry
      → List KnownHostsParseWarning
      → List Text
      → List KnownHostsEntry × List KnownHostsParseWarning
  content_loop index entries warnings [] = (entries, warnings)
  content_loop index entries warnings (line ∷ rest) =
      let trimmed = trim line in
      let parsed = parse_entry trimmed in
      if is_comment_or_blank trimmed
      then content_loop (index + 1) entries warnings rest
      else elim (warning_of trimmed parsed) [
        | some reason ↦
            content_loop (index + 1) entries (warnings ++ warning_at index trimmed reason ∷ []) rest
        | none ↦ content_loop (index + 1) (entries ++ parsed) warnings rest
      ]

  unfoldable pub parse_known_hosts_content :
      Text → List KnownHostsEntry × List KnownHostsParseWarning
  parse_known_hosts_content content = content_loop 0 [] [] (lines content)
