-- ===== src/KnownHosts/Tests.antt =====
-- The store of host keys at concrete entries.
use russh_extra.Base.{Bytes, Option, none, some, true, false, [], ◌∷◌, ◌≡◌, refl, if◌then◌else◌}
use russh_extra.Base.Text.{text, bytes_eq}
use russh_extra.Core.Error.{ok}
use russh_extra.KnownHosts.Entry.{
  KnownHostsEntry, key_match, not_found, changed, revoked, host_matches, to_ascii_lowercase,
}
use russh_extra.KnownHosts.Store.{
  KnownHostsInner, new_store, check, check_loop, conclude, add_entry, retained, new_entry,
}
use russh_extra.KnownHosts.Strongest.{IsStrongest, check-IsStrongest}
use russh_extra.KnownHosts.Updates.{check-add_entry}

-- A key that is its own serialised form; the empty one does not serialise.
abbrev pub serialised : Bytes → Option Bytes
serialised [] = none
serialised (b ∷ bs) = some (b ∷ bs)

abbrev pub old_key : Bytes
old_key = 1 ∷ 2 ∷ []

abbrev pub fresh_key : Bytes
fresh_key = 3 ∷ 4 ∷ []

abbrev pub default_port : KnownHostsEntry
default_port = new_entry (text "h.org") 0 (text "ssh-ed25519") old_key

abbrev pub bad_key : KnownHostsEntry
bad_key = record default_port { key_blob = fresh_key; revoked = true }

abbrev pub store : KnownHostsInner
store = record new_store { entries = default_port ∷ bad_key ∷ [] }

abbrev pub turned : KnownHostsInner
turned = record new_store { entries = bad_key ∷ default_port ∷ [] }

check-IsStrongest_example :
    IsStrongest
      (text "H.ORG")
      22
      old_key
      (check serialised (text "H.ORG") 22 old_key store)
      store.entries
check-IsStrongest_example =
    check-IsStrongest serialised (text "H.ORG") 22 old_key store old_key refl

check-add_entry_example :
    let (result, after) =
      add_entry serialised (text "h.org") 2222 fresh_key (text "ssh-rsa") store in
    (result ≡ ok tt)
    × (check serialised (text "h.org") 2222 fresh_key after
        ≡ (if bytes_eq fresh_key fresh_key then key_match else changed))
check-add_entry_example =
    check-add_entry serialised (text "h.org") 2222 fresh_key (text "ssh-rsa") store fresh_key
      fresh_key fresh_key refl refl

another_host : host_matches (text "h.org") (text "g.org") ≡ false
unfolding host_matches to_ascii_lowercase text bytes_eq
another_host = refl

revoked_wins : check serialised (text "h.org") 22 fresh_key store ≡ revoked
unfolding check check_loop new_store host_matches to_ascii_lowercase text bytes_eq
revoked_wins = refl

-- A key for port 2222 removes the entries for the default port, the revoked one too.
forgotten :
    check serialised
      (text "h.org")
      22
      fresh_key
      (add_entry serialised (text "h.org") 2222 old_key (text "ssh-rsa") store).1
    ≡ not_found
unfolding check check_loop add_entry retained new_store host_matches to_ascii_lowercase text
    bytes_eq conclude
forgotten = refl
