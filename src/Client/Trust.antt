-- ===== src/Client/Trust.antt =====
-- crates/russh-extra/src/client.rs: trust on first use.
use russh_extra.Base.{
  ◌≡◌, refl, sym, ap, ◌∙◌, Bytes, Text, Bool, true, false, none, some, [], ◌∷◌, arith,
  if◌then◌else◌, ◌||◌,
}
use russh_extra.Base.Text.{bytes_eq}
use russh_extra.KnownHosts.Entry.{key_match, not_found, changed}
use russh_extra.KnownHosts.Store.{KnownHostsInner, check, add_entry}
use russh_extra.KnownHosts.Updates.{check-add_entry}
use russh_extra.Core.Error.{Result, ok, err}
use russh_extra.Client.HostKeys.{
  ClientHandler, PublicKeys, decided, key_changed, public_key_algorithm, accept_new, by_status,
  check_server_key, HostKeyPolicy, host_key_policy_accepts, any_equal, pinned_sha256,
  validate_sha256_fingerprint, pin_sha256,
}

module _ {K : Type 0} (keys : PublicKeys K) (handler : ClientHandler) (store : KnownHostsInner)
    (key : K) where
  -- The handler behind the first use of the key.
  unfoldable pub remembering : ClientHandler
  remembering = record handler {
    known_hosts =
        some
          (add_entry keys.to_bytes handler.endpoint.host handler.endpoint.port key
            (public_key_algorithm (keys.key_data key)) store).1;
  }

  pub check_server_key-first :
      handler.known_hosts ≡ some store
      → handler.known_hosts_accept_new ≡ true
      → check keys.to_bytes handler.endpoint.host handler.endpoint.port key store ≡ not_found
      → check_server_key keys handler key ≡ (decided true, remembering)
  unfolding check_server_key by_status accept_new remembering
  check_server_key-first hs hn hc =
      rw (hs, check_server_key) (rw (hc, by_status) (rw (hn, accept_new) refl))

  by_status-known :
      (b : Bool) (store' : KnownHostsInner) (asked : K)
      → (by_status keys (if b then key_match else changed) remembering store' asked).0
        ≡ (if b then decided true else key_changed)
  unfolding by_status
  by_status-known true store' asked = refl
  by_status-known false store' asked = refl

  -- When a server's key is not in the store, new keys are accepted and the key has bytes, the
  -- key is accepted; a later key for the same server that has bytes is then accepted if it has
  -- the same ones, and refused as changed if not.
  pub check_server_key-again :
      (asked : K) (key_blob key_bytes : Bytes)
      → handler.known_hosts ≡ some store
      → handler.known_hosts_accept_new ≡ true
      → check keys.to_bytes handler.endpoint.host handler.endpoint.port key store ≡ not_found
      → keys.to_bytes key ≡ some key_blob
      → keys.to_bytes asked ≡ some key_bytes
      → ((check_server_key keys handler key).0 ≡ decided true)
        × ((check_server_key keys (check_server_key keys handler key).1 asked).0
            ≡ (if bytes_eq key_blob key_bytes then decided true else key_changed))
  unfolding check_server_key remembering
  check_server_key-again asked key_blob key_bytes hs hn hc hk ha =
      let first = check_server_key-first hs hn hc in
      let store' =
        (add_entry keys.to_bytes handler.endpoint.host handler.endpoint.port key
          (public_key_algorithm (keys.key_data key)) store).1 in
      (
        ap (λ r. r.0) first,
        ap (λ r. (check_server_key keys r.1 asked).0) first
            ∙ ap (λ status. (by_status keys status remembering store' asked).0)
                (check-add_entry keys.to_bytes handler.endpoint.host handler.endpoint.port key _
                  store asked key_blob key_bytes hk ha).1
            ∙ by_status-known (bytes_eq key_blob key_bytes) store' asked,
      )

module _ {K : Type 0} (keys : PublicKeys K) where
  abbrev from_ok : HostKeyPolicy → Result HostKeyPolicy → HostKeyPolicy
  from_ok policy (ok p) = p
  from_ok policy (err e) = policy

  or_false : (b : Bool) → (b || false) ≡ b
  or_false true = refl
  or_false false = refl

  pinned-accepts :
      (value : Text) (policy : HostKeyPolicy) (key : K) (r : Result (Unit {0}))
      → (elim r as (λ _. Result HostKeyPolicy) [
        | ok _ ↦ ok (pinned_sha256 (value ∷ []))
        | err e ↦ err e
      ])
        ≡ ok policy
      → host_key_policy_accepts keys policy key ≡ bytes_eq value (keys.sha256_fingerprint key)
  unfolding host_key_policy_accepts any_equal
  pinned-accepts value policy key (ok _) h =
      sym (ap (λ p. host_key_policy_accepts keys p key) (ap (from_ok policy) h))
      ∙ or_false (bytes_eq value (keys.sha256_fingerprint key))
  pinned-accepts value policy key (err e) h = ground arith

  -- Without a store, and with the policy that pinning a fingerprint makes, a server's key is
  -- accepted exactly if its SHA-256 fingerprint is the pinned one.
  pub check_server_key-pinned :
      (handler : ClientHandler) (value : Text) (key : K)
      → handler.known_hosts ≡ none
      → pin_sha256 value ≡ ok handler.host_key_policy
      → (check_server_key keys handler key).0
        ≡ decided (bytes_eq value (keys.sha256_fingerprint key))
  unfolding pin_sha256 check_server_key
  check_server_key-pinned handler value key hs hp =
      rw (hs, check_server_key)
        (ap decided
          (pinned-accepts value handler.host_key_policy key (validate_sha256_fingerprint value) hp))
