-- ===== src/KnownHosts/Updates.antt =====
-- crates/russh-extra/src/known_hosts.rs: `check` after `add_entry`.
use russh_extra.Base.{
  ℕ, Bytes, Text, Option, some, false, if◌then◌else◌, List, [], ◌∷◌, ◌++◌, ◌≡◌, refl, sym, ap, ◌∙◌,
  arith, Option-cases, Bool-cases, inl, inr,
}
use russh_extra.Base.Text.{bytes_eq}
use russh_extra.Core.Error.{ok}
use russh_extra.KnownHosts.Entry.{
  KnownHostsEntry, KnownHostStatus, key_match, not_found, changed, revoked, host_matches,
  host_matches_refl, host_matches_right,
}
use russh_extra.KnownHosts.Store.{KnownHostsInner, retained, new_entry, check, add_entry}
use russh_extra.KnownHosts.Strongest.{
  stronger, status_of, strongest, strongest-append, check-none, check-some,
}

stronger-not_found : (s : KnownHostStatus) → stronger not_found s ≡ s
stronger-not_found not_found = refl
stronger-not_found changed = refl
stronger-not_found key_match = refl
stronger-not_found revoked = refl

not_found-stronger : (s : KnownHostStatus) → stronger s not_found ≡ s
not_found-stronger not_found = refl
not_found-stronger changed = refl
not_found-stronger key_match = refl
not_found-stronger revoked = refl

module _ (host : Text) (port : ℕ) (key_bytes : Bytes) where
  -- No entry that is kept is about the host and the port.
  strongest-retained :
      (es : List KnownHostsEntry)
      → strongest host port key_bytes (retained host port es) ≡ not_found
  unfolding retained
  strongest-retained [] = refl
  strongest-retained (e ∷ es) = ground (
    arith,
    strongest-retained es,
    stronger-not_found (strongest host port key_bytes (retained host port es)),
  )

  strongest-new_entry :
      (algorithm : Text) (key_blob : Bytes)
      → strongest host port key_bytes (new_entry host port algorithm key_blob ∷ [])
        ≡ (if bytes_eq key_blob key_bytes then key_match else changed)
  strongest-new_entry algorithm key_blob = rw (host_matches_refl host) (ground arith)

-- The entries about another host are kept.
strongest-retained_other :
    (host other : Text) (port port' : ℕ) (key_bytes : Bytes) (es : List KnownHostsEntry)
    → host_matches host other ≡ false
    → strongest other port' key_bytes (retained host port es) ≡ strongest other port' key_bytes es
unfolding retained
strongest-retained_other host other port port' key_bytes [] h = refl
strongest-retained_other host other port port' key_bytes (e ∷ es) h =
    elim (Bool-cases (host_matches e.hostname host)) [
      | inl same ↦
          let gone : host_matches e.hostname other ≡ false =
            host_matches_right e.hostname host other same ∙ h in
          ground (
            arith,
            gone,
            strongest-retained_other host other port port' key_bytes es h,
            stronger-not_found (strongest other port' key_bytes es),
          )
      | inr differs ↦ rw differs (
          ap (stronger (status_of other port' key_bytes e))
            (strongest-retained_other host other port port' key_bytes es h))
    ]

module _ {K : Type 0} (public_key_to_bytes : K → Option Bytes) (host : Text) (port : ℕ)
    (public_key : K) (algorithm : Text) (inner : KnownHostsInner) where
  pub add_entry-some :
      (key_blob : Bytes)
      → public_key_to_bytes public_key ≡ some key_blob
      → add_entry public_key_to_bytes host port public_key algorithm inner ≡ (
        ok tt,
        record inner {
          entries = retained host port inner.entries ++ new_entry host port algorithm key_blob ∷ [];
        },
      )
  unfolding add_entry
  add_entry-some key_blob e = rw (e, add_entry) refl

  -- When both keys serialise, `add_entry` succeeds, and `check` of the second key for the same
  -- host and port then says match if it has the bytes of the added key, and changed if not,
  -- whatever the store held before.
  pub check-add_entry :
      (asked : K) (key_blob key_bytes : Bytes)
      → public_key_to_bytes public_key ≡ some key_blob
      → public_key_to_bytes asked ≡ some key_bytes
      → let (result, after) = add_entry public_key_to_bytes host port public_key algorithm inner in
        (result ≡ ok tt)
        × (check public_key_to_bytes host port asked after
            ≡ (if bytes_eq key_blob key_bytes then key_match else changed))
  check-add_entry asked key_blob key_bytes e e' = rw (add_entry-some key_blob e) (
    refl,
    check-some public_key_to_bytes host port asked _ key_bytes e'
        ∙ strongest-append host port key_bytes (retained host port inner.entries) _
        ∙ rw
            (
              strongest-retained host port key_bytes inner.entries,
              strongest-new_entry host port key_bytes algorithm key_blob,
              stronger-not_found,
            )
            refl,
  )

  -- `add_entry` for a host changes no outcome of `check` for a host that does not match it up to
  -- ASCII case, for any port and key, whether or not the keys serialise.
  pub check-add_entry-other :
      (other : Text) (port' : ℕ) (asked : K)
      → host_matches host other ≡ false
      → check public_key_to_bytes other port' asked
          (add_entry public_key_to_bytes host port public_key algorithm inner).1
        ≡ check public_key_to_bytes other port' asked inner
  unfolding add_entry
  check-add_entry-other other port' asked h = elim (Option-cases (public_key_to_bytes public_key)) [
    | inl failed ↦ rw (failed, add_entry) refl
    | inr (key_blob, e) ↦
        rw (add_entry-some key_blob e) (elim (Option-cases (public_key_to_bytes asked)) [
          | inl failed ↦
              check-none public_key_to_bytes other port' asked _ failed
              ∙ sym (check-none public_key_to_bytes other port' asked inner failed)
          | inr (key_bytes, e') ↦
              check-some public_key_to_bytes other port' asked _ key_bytes e'
              ∙ strongest-append other port' key_bytes (retained host port inner.entries) _
              ∙ rw (h, strongest-retained_other host other port port' key_bytes inner.entries h)
                  (not_found-stronger (strongest other port' key_bytes inner.entries))
              ∙ sym (check-some public_key_to_bytes other port' asked inner key_bytes e')
        ])
  ]
