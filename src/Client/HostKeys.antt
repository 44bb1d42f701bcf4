-- ===== src/Client/HostKeys.antt =====
-- crates/russh-extra/src/client.rs: the check of a server's key, and the policies of
-- crates/russh-extra-core/src/config.rs.
use russh_extra.Base.{
  ℕ, Bytes, Text, Bool, true, false, Option, none, some, List, [], ◌∷◌, ◌==◌, ◌||◌, if◌then◌else◌,
}
use russh_extra.Base.Text.{strip_prefix, text, bytes_eq}
use russh_extra.Core.Endpoint.{Endpoint}
use russh_extra.Core.Error.{Error, Result, ok, err, HostKeyErrorKind, category_error}
use russh_extra.KnownHosts.Entry.{KnownHostStatus, key_match, not_found, changed, revoked}
use russh_extra.KnownHosts.Store.{KnownHostsInner, check, add_entry}

-- A fingerprint is its value: the one algorithm is SHA-256.
pub data HostKeyPolicy : Type 0 where
  strict insecure_accept_any : HostKeyPolicy
  pinned_sha256 : List Text → HostKeyPolicy

-- `u8::is_ascii_whitespace`: space, tab, line feed, form feed and carriage return.
unfoldable pub is_ascii_whitespace : ℕ → Bool
is_ascii_whitespace b = b == 32 || (b == 9 || (b == 10 || (b == 12 || b == 13)))

unfoldable pub any_whitespace : Bytes → Bool
any_whitespace [] = false
any_whitespace (b ∷ bs) = is_ascii_whitespace b || any_whitespace bs

unfoldable pub check_fingerprint : Option Bytes → Result (Unit {0})
unfolding category_error
check_fingerprint none = err (
    Error.host_key (
      category_error HostKeyErrorKind.unsupported
        (text "host-key fingerprint must start with SHA256:")))
check_fingerprint (some []) = err (
    Error.host_key
      (category_error HostKeyErrorKind.unavailable (text "host-key fingerprint must not be empty")))
check_fingerprint (some (b ∷ bs)) =
    if any_whitespace (b ∷ bs)
    then err (
        Error.host_key (
          category_error HostKeyErrorKind.rejected
            (text "host-key fingerprint must not contain whitespace")))
    else ok tt

unfoldable pub validate_sha256_fingerprint : Text → Result (Unit {0})
validate_sha256_fingerprint value = check_fingerprint (strip_prefix (text "SHA256:") value)

-- `HostKeyPolicy::pinned_sha256`
unfoldable pub pin_sha256 : Text → Result HostKeyPolicy
pin_sha256 value = elim (validate_sha256_fingerprint value) [
  | ok _ ↦ ok (pinned_sha256 (value ∷ []))
  | err e ↦ err e
]

unfoldable pub any_equal : Text → List Text → Bool
any_equal actual [] = false
any_equal actual (value ∷ values) = bytes_eq value actual || any_equal actual values

-- The kinds of public keys that the source names.
pub data KeyData : Type 0 where
  ed25519 rsa dsa sk_ed25519 other_key : KeyData

unfoldable pub public_key_algorithm : KeyData → Text
public_key_algorithm ed25519 = text "ssh-ed25519"
public_key_algorithm rsa = text "ssh-rsa"
public_key_algorithm dsa = text "ssh-dss"
public_key_algorithm sk_ed25519 = text "sk-ssh-ed25519@openssh.com"
public_key_algorithm other_key = text "ssh-unknown"

-- What the check of a server's key tells `russh`: a decision, or one of two of its errors.
pub data KeyCheck : Type 0 where
  decided : Bool → KeyCheck
  wrong_server_sig key_changed : KeyCheck

-- The fields of `ClientHandler` that the check reads; a handler has a store when one is configured.
pub record ClientHandler : Type 0 where
  pub endpoint : Endpoint
  pub host_key_policy : HostKeyPolicy
  pub known_hosts : Option KnownHostsInner
  pub known_hosts_accept_new : Bool

-- What a library knows of its public keys `K`.
pub record PublicKeys (K : Type 0) : Type 0 where
  pub to_bytes : K → Option Bytes
  pub sha256_fingerprint : K → Text
  pub key_data : K → KeyData

module _ {K : Type 0} (keys : PublicKeys K) where
  unfoldable pub host_key_policy_accepts : HostKeyPolicy → K → Bool
  host_key_policy_accepts strict key = false
  host_key_policy_accepts insecure_accept_any key = true
  host_key_policy_accepts (pinned_sha256 values) key =
      any_equal (keys.sha256_fingerprint key) values

  -- A new key is accepted also when it cannot be added.
  unfoldable pub accept_new : ClientHandler → KnownHostsInner → K → KeyCheck × ClientHandler
  accept_new handler store key =
      if handler.known_hosts_accept_new
      then (
        decided true,
        record handler {
          known_hosts =
              some
                (add_entry keys.to_bytes handler.endpoint.host handler.endpoint.port key
                  (public_key_algorithm (keys.key_data key)) store).1;
        },
      )
      else (decided false, handler)

  unfoldable pub by_status :
      KnownHostStatus → ClientHandler → KnownHostsInner → K → KeyCheck × ClientHandler
  by_status key_match handler store key = (decided true, handler)
  by_status revoked handler store key = (wrong_server_sig, handler)
  by_status changed handler store key = (key_changed, handler)
  by_status not_found handler store key = accept_new handler store key

  unfoldable pub check_server_key : ClientHandler → K → KeyCheck × ClientHandler
  check_server_key handler key = elim handler.known_hosts [
    | some store ↦
        by_status (check keys.to_bytes handler.endpoint.host handler.endpoint.port key store)
          handler store key
    | none ↦ (decided (host_key_policy_accepts handler.host_key_policy key), handler)
  ]
