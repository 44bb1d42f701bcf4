-- ===== src/KnownHosts/Store.antt =====
-- crates/russh-extra/src/known_hosts.rs: `KnownHosts`. The lock is held for a whole operation, so an
-- operation is a function on the locked state.
use russh_extra.Base.{
  ℕ, Bytes, Text, Option, none, some, Bool, true, false, not, ◌&&◌, ◌||◌, ◌==◌, if◌then◌else◌, List,
  [], ◌∷◌, ◌++◌, length,
}
use russh_extra.Base.Text.{text, bytes_eq}
use russh_extra.Core.Error.{Error, Result, ok, err, HostKeyErrorKind, category_error}
use russh_extra.KnownHosts.Entry.{
  KnownHostsEntry, KnownHostStatus, key_match, not_found, changed, revoked, KnownHostsParseWarning,
  host_matches,
}

pub record KnownHostsInner : Type 0 where
  pub entries : List KnownHostsEntry
  pub warnings : List KnownHostsParseWarning
  pub source_paths : List Text
  pub hash_hostnames : Bool

unfoldable pub new_store : KnownHostsInner
new_store = record { entries = []; warnings = []; source_paths = []; hash_hostnames = false }

unfoldable pub merge : KnownHostsInner → KnownHostsInner → KnownHostsInner
merge inner other = record inner {
  entries = inner.entries ++ other.entries;
  warnings = inner.warnings ++ other.warnings;
  source_paths = inner.source_paths ++ other.source_paths;
}

unfoldable pub entry_count : KnownHostsInner → ℕ
entry_count inner = length inner.entries

unfoldable pub set_hash_hostnames : Bool → KnownHostsInner → KnownHostsInner
set_hash_hostnames hash inner = record inner { hash_hostnames = hash }

-- The end of `check`, behind the loop.
unfoldable pub conclude : Bool → Bool → KnownHostStatus
conclude saw_candidate_match saw_key_mismatch =
    if saw_candidate_match then key_match else if saw_key_mismatch then changed else not_found

-- The loop of `check`, with its two flags.
unfoldable pub check_loop : Text → ℕ → Bytes → Bool → Bool → List KnownHostsEntry → KnownHostStatus
check_loop host port key_bytes saw_candidate_match saw_key_mismatch [] =
    conclude saw_candidate_match saw_key_mismatch
check_loop host port key_bytes saw_candidate_match saw_key_mismatch (entry ∷ entries) =
    if not (host_matches entry.hostname host)
    then check_loop host port key_bytes saw_candidate_match saw_key_mismatch entries
    else if not (entry.port == 0) && not (entry.port == port)
    then check_loop host port key_bytes saw_candidate_match saw_key_mismatch entries
    else if entry.revoked
    then revoked
    else if bytes_eq entry.key_blob key_bytes
    then check_loop host port key_bytes true saw_key_mismatch entries
    else check_loop host port key_bytes saw_candidate_match true entries

-- `entries.retain(|entry| …)` of `add_entry`
unfoldable pub retained : Text → ℕ → List KnownHostsEntry → List KnownHostsEntry
retained host port [] = []
retained host port (entry ∷ entries) =
    let rest = retained host port entries in
    if not (
      host_matches entry.hostname host
      && (entry.port == port || entry.port == 0 || port == 0 || port == 22))
    then entry ∷ rest
    else rest

abbrev pub new_entry : Text → ℕ → Text → Bytes → KnownHostsEntry
new_entry host port algorithm key_blob = record {
  hostname = host;
  port = port;
  algorithm = algorithm;
  key_blob = key_blob;
  comment = none;
  revoked = false;
}

-- `public_key_to_bytes` serialises a key with a library, and may fail.
module _ {K : Type 0} (public_key_to_bytes : K → Option Bytes) where
  unfoldable pub check : Text → ℕ → K → KnownHostsInner → KnownHostStatus
  check host port public_key inner = elim (public_key_to_bytes public_key) [
    | none ↦ not_found
    | some key_bytes ↦ check_loop host port key_bytes false false inner.entries
  ]

  unfoldable pub add_entry :
      Text → ℕ → K → Text → KnownHostsInner → Result (Unit {0}) × KnownHostsInner
  unfolding category_error
  add_entry host port public_key algorithm inner = elim (public_key_to_bytes public_key) [
    | none ↦ (
      err (
          Error.host_key (
            category_error HostKeyErrorKind.unsupported
              (text "failed to serialize public key for known-hosts entry"))),
      inner,
    )
    | some key_blob ↦ (
      ok tt,
      record inner {
        entries = retained host port inner.entries ++ new_entry host port algorithm key_blob ∷ [];
      },
    )
  ]
