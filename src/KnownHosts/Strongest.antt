-- ===== src/KnownHosts/Strongest.antt =====
-- `check` of crates/russh-extra/src/known_hosts.rs against an abstract view of the store: what each
-- entry alone says of a key, and the strongest of these statements.
use russh_extra.Base.{
  ℕ, zero, suc, ◌≤◌, max, Bytes, Text, Option, none, some, Bool, true, false, ◌&&◌, ◌||◌, ◌==◌, leb,
  if◌then◌else◌, List, [], ◌∷◌, ◌++◌, ◌≡◌, refl, sym, ap, ◌∙◌, ◌⊎◌, inl, inr, arith, Bool-cases,
  Option-cases,
}
use mathlib.Core.List.{foldr, Memᴰ, Perm}
use mathlib.Core.List.Memᴰ
use mathlib.Core.List.Perm
use russh_extra.Base.Text.{bytes_eq}
use russh_extra.KnownHosts.Entry.{
  KnownHostsEntry, KnownHostStatus, key_match, not_found, changed, revoked, host_matches,
}
use russh_extra.KnownHosts.Store.{KnownHostsInner, conclude, check_loop, merge, check}

abbrev pub rank : KnownHostStatus → ℕ
rank not_found = 0
rank changed = 1
rank key_match = 2
rank revoked = 3

abbrev pub stronger : KnownHostStatus → KnownHostStatus → KnownHostStatus
stronger s t = if leb (rank t) (rank s) then s else t

rank-stronger : (s t : KnownHostStatus) → rank (stronger s t) ≡ max (rank s) (rank t)
rank-stronger s t = ground arith

of_rank : ℕ → KnownHostStatus
of_rank zero = not_found
of_rank (suc zero) = changed
of_rank (suc (suc zero)) = key_match
of_rank (suc (suc (suc n))) = revoked

of_rank-rank : (s : KnownHostStatus) → of_rank (rank s) ≡ s
unfolding of_rank
of_rank-rank not_found = refl
of_rank-rank changed = refl
of_rank-rank key_match = refl
of_rank-rank revoked = refl

pub rank_injective : (s t : KnownHostStatus) → rank s ≡ rank t → s ≡ t
rank_injective s t h = sym (of_rank-rank s) ∙ ap of_rank h ∙ of_rank-rank t

-- Whether an entry is about the host and the port: its own port, or the default one.
abbrev pub applies : Text → ℕ → KnownHostsEntry → Bool
applies host port e = host_matches e.hostname host && (e.port == 0 || e.port == port)

module _ (host : Text) (port : ℕ) (key_bytes : Bytes) where
  -- What an entry alone says of the key.
  abbrev pub status_of : KnownHostsEntry → KnownHostStatus
  status_of e =
      if applies host port e
      then if e.revoked
        then revoked
        else if bytes_eq e.key_blob key_bytes
        then key_match
        else changed
      else not_found

  abbrev pub strongest : List KnownHostsEntry → KnownHostStatus
  strongest [] = not_found
  strongest (e ∷ es) = stronger (status_of e) (strongest es)

  rank-check_loop :
      (m x : Bool) (es : List KnownHostsEntry)
      → rank (check_loop host port key_bytes m x es)
        ≡ max (rank (conclude m x)) (rank (strongest es))
  unfolding check_loop conclude
  rank-check_loop m x [] = omega arith
  rank-check_loop m x (e ∷ es) = ground (
    arith,
    rank-stronger (status_of e) (strongest es),
    rank-check_loop m x es,
    rank-check_loop true x es,
    rank-check_loop m true es,
  )

  pub check_loop-strongest :
      (es : List KnownHostsEntry) → check_loop host port key_bytes false false es ≡ strongest es
  unfolding conclude
  check_loop-strongest es = rank_injective _ _ (rank-check_loop false false es ∙ omega arith)

  -- `s` is said by an entry, or nothing is said, and no entry says something stronger.
  pub record IsStrongest (s : KnownHostStatus) (es : List KnownHostsEntry) : Type 0 where
    pub said : (s ≡ not_found) ⊎ ((e : KnownHostsEntry) × Memᴰ e es × (status_of e ≡ s))
    pub bounded : (e : KnownHostsEntry) → Memᴰ e es → rank (status_of e) ≤ rank s

  said_by :
      (es : List KnownHostsEntry)
      → (strongest es ≡ not_found)
        ⊎ ((e : KnownHostsEntry) × Memᴰ e es × (status_of e ≡ strongest es))
  said_by [] = inl refl
  said_by (e ∷ es) = elim (Bool-cases (leb (rank (strongest es)) (rank (status_of e)))) [
    | inl first ↦ inr (e, Memᴰ.head refl, rw first refl)
    | inr later ↦ rw later (elim (said_by es) [
      | inl none_said ↦ inl none_said
      | inr (e', there, same) ↦ inr (e', Memᴰ.tail there, same)
    ])
  ]

  bounded_by :
      (es : List KnownHostsEntry) (e : KnownHostsEntry)
      → Memᴰ e es
      → rank (status_of e) ≤ rank (strongest es)
  bounded_by [] e m = absurd (Memᴰ.not-nil m)
  bounded_by (e' ∷ es) e (Memᴰ.head same) =
      rw same (omega (arith, rank-stronger (status_of e') (strongest es)))
  bounded_by (e' ∷ es) e (Memᴰ.tail m) =
      omega (arith, rank-stronger (status_of e') (strongest es), bounded_by es e m)

  pub strongest-IsStrongest : (es : List KnownHostsEntry) → IsStrongest (strongest es) es
  strongest-IsStrongest es = record { said = said_by es; bounded = bounded_by es }

  strongest-rank-append :
      (es fs : List KnownHostsEntry)
      → rank (strongest (es ++ fs)) ≡ max (rank (strongest es)) (rank (strongest fs))
  strongest-rank-append [] fs = omega arith
  strongest-rank-append (e ∷ es) fs = omega (
    arith,
    strongest-rank-append es fs,
    rank-stronger (status_of e) (strongest es),
    rank-stronger (status_of e) (strongest (es ++ fs)),
  )

  pub strongest-append :
      (es fs : List KnownHostsEntry) → strongest (es ++ fs) ≡ stronger (strongest es) (strongest fs)
  strongest-append es fs =
      rank_injective _ _
        (strongest-rank-append es fs ∙ sym (rank-stronger (strongest es) (strongest fs)))

  rank-foldr :
      (es : List KnownHostsEntry)
      → rank (strongest es) ≡ foldr (λ e n. max (rank (status_of e)) n) 0 es
  rank-foldr [] = refl
  rank-foldr (e ∷ es) = omega (arith, rank-foldr es, rank-stronger (status_of e) (strongest es))

  pub strongest-Perm : {es fs : List KnownHostsEntry} → Perm es fs → strongest es ≡ strongest fs
  strongest-Perm {es} {fs} p = rank_injective _ _ (
      rank-foldr es
      ∙ Perm.foldr-eq (hlevel) (λ e n. max (rank (status_of e)) n) (λ a b x. omega arith) p 0
      ∙ sym (rank-foldr fs))

module _ {K : Type 0} (public_key_to_bytes : K → Option Bytes) (host : Text) (port : ℕ)
    (public_key : K) where
  pub check-none :
      (inner : KnownHostsInner)
      → public_key_to_bytes public_key ≡ none
      → check public_key_to_bytes host port public_key inner ≡ not_found
  unfolding check
  check-none inner e = rw (e, check)

  pub check-some :
      (inner : KnownHostsInner) (key_bytes : Bytes)
      → public_key_to_bytes public_key ≡ some key_bytes
      → check public_key_to_bytes host port public_key inner
        ≡ strongest host port key_bytes inner.entries
  unfolding check
  check-some inner key_bytes e =
      rw (e, check) (check_loop-strongest host port key_bytes inner.entries)

  -- For a key that serialises, `check` returns the strongest of what the single entries say of
  -- it: an entry for another host or port says nothing, a revoked one says revoked, one with the
  -- same key says match, and any other says changed; revoked is stronger than match, match than
  -- changed, and changed than not found.
  pub check-IsStrongest :
      (inner : KnownHostsInner) (key_bytes : Bytes)
      → public_key_to_bytes public_key ≡ some key_bytes
      → IsStrongest host port key_bytes
          (check public_key_to_bytes host port public_key inner)
          inner.entries
  check-IsStrongest inner key_bytes e =
      rw (check-some inner key_bytes e) (strongest-IsStrongest host port key_bytes inner.entries)

  -- Stores whose entries are permutations of each other give the same outcome of `check`, for
  -- any host, port and key.
  pub check-Perm :
      (inner other : KnownHostsInner)
      → Perm inner.entries other.entries
      → check public_key_to_bytes host port public_key inner
        ≡ check public_key_to_bytes host port public_key other
  check-Perm inner other p = elim (Option-cases (public_key_to_bytes public_key)) [
    | inl failed ↦ check-none inner failed ∙ sym (check-none other failed)
    | inr (key_bytes, e) ↦
        check-some inner key_bytes e
        ∙ strongest-Perm host port key_bytes p
        ∙ sym (check-some other key_bytes e)
  ]

  -- `check` on a merged store gives the stronger of the outcomes on the two stores, for any
  -- host, port and key.
  pub check-merge :
      (inner other : KnownHostsInner)
      → check public_key_to_bytes host port public_key (merge inner other)
        ≡ stronger
            (check public_key_to_bytes host port public_key inner)
            (check public_key_to_bytes host port public_key other)
  unfolding merge
  check-merge inner other = elim (Option-cases (public_key_to_bytes public_key)) [
    | inl failed ↦
        rw (check-none (merge inner other) failed, check-none inner failed, check-none other failed)
          refl
    | inr (key_bytes, e) ↦
        rw
          (
            check-some (merge inner other) key_bytes e,
            check-some inner key_bytes e,
            check-some other key_bytes e,
          )
          (strongest-append host port key_bytes inner.entries other.entries)
  ]
