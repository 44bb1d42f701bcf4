-- ===== src/KnownHosts/Entry.antt =====
-- crates/russh-extra/src/known_hosts.rs: an entry, the outcome of a lookup, and how hosts are
-- compared.
use russh_extra.Base.{
  ℕ, ◌+◌, Bytes, Text, Option, Bool, true, ◌&&◌, leb, if◌then◌else◌, map, ◌≡◌, ap,
}
use russh_extra.Base.Text.{bytes_eq, bytes_eq_sound, bytes_eq_refl}

-- A port of 0 stands for the default port.
pub record KnownHostsEntry : Type 0 where
  pub hostname : Text
  pub port : ℕ
  pub algorithm : Text
  pub key_blob : Bytes
  pub comment : Option Text
  pub revoked : Bool

pub data KnownHostStatus : Type 0 where
  key_match not_found changed revoked : KnownHostStatus

pub record KnownHostsParseWarning : Type 0 where
  pub line : ℕ
  pub content : Text
  pub reason : Text

-- `u8::to_ascii_lowercase`
unfoldable pub to_ascii_lowercase : ℕ → ℕ
to_ascii_lowercase b = if leb 65 b && leb b 90 then b + 32 else b

-- `eq_ignore_ascii_case` of the two strings.
unfoldable pub host_matches : Text → Text → Bool
host_matches entry_host target_host =
    bytes_eq (map to_ascii_lowercase entry_host) (map to_ascii_lowercase target_host)

pub host_matches_refl : (host : Text) → host_matches host host ≡ true
unfolding host_matches
host_matches_refl host = bytes_eq_refl (map to_ascii_lowercase host)

-- Hosts that match stand for each other on the right.
pub host_matches_right :
    (a b c : Text) → host_matches a b ≡ true → host_matches a c ≡ host_matches b c
unfolding host_matches
host_matches_right a b c h =
    ap (λ x. bytes_eq x (map to_ascii_lowercase c))
      (bytes_eq_sound (map to_ascii_lowercase a) (map to_ascii_lowercase b) h)
