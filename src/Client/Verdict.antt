-- ===== src/Client/Verdict.antt =====
-- crates/russh-extra/src/client.rs: the result of an authentication.
use russh_extra.Base.{
  ◌≡◌, refl, sym, ap, ◌∙◌, Text, Bool, true, false, some, List, [], ◌∷◌, ◌||◌, inl, inr, Bool-cases,
  ◌⊎◌,
}
use russh_extra.Core.Error.{
  Error, Result, ok, err, BoxError, AuthenticationErrorKind, category_error,
  category_error_with_source,
}
use russh_extra.Client.Authentication.{
  AuthResult, failure, Timed, elapsed, answered, Credential, password, identity, no_credential,
  keyboard_interactive, Decrypted, ready, undecryptable, AuthHandle, Attempt, succeeded, failed,
  stopped, attempt, attempt_cert, nothing_left, is_timeout, is_rejection, is_soft, timed_out,
  of_result, of_timed, of_soft, of_identity, of_interactive, settle, try_certs, try_credentials,
  with_user, authenticate_configured,
}
use russh_extra.Client.Outcome.{
  Outcome, accepted, refused, broken, TimedSays, timed_success, timed_refusal, timed_error,
  timed_late, GoesOn, at_timeout, at_io, at_rejection, KeySays, key_success, key_refusal,
  key_passed, key_error, InteractiveSays, interactive_success, interactive_passed,
  interactive_error, interactive_late, Says, by_password, by_none, by_key, by_dialogue, CertSays,
  locked, by_cert, Made, none_left, accepts, breaks, refuses, cert_accepts, cert_breaks,
  cert_refuses, undecided, verdict_from, verdict, has_any,
}

-- The outcome that the code's view of an attempt stands for.
abbrev view : Attempt → Outcome
view succeeded = accepted
view (failed partial_success) = refused partial_success
view (stopped e) = broken e

nothing_left_lem : (saw_partial : Bool) → nothing_left saw_partial ≡ undecided saw_partial
unfolding nothing_left category_error
nothing_left_lem true = refl
nothing_left_lem false = refl

of_timed-Says :
    (message : Text) (r : Timed AuthResult) → TimedSays message r (view (of_timed message r))
unfolding of_timed of_result timed_out category_error
of_timed-Says message elapsed = timed_late
of_timed-Says message (answered (err e)) = timed_error e
of_timed-Says message (answered (ok AuthResult.success)) = timed_success
of_timed-Says message (answered (ok (failure p))) = timed_refusal p

or_false : (b : Bool) → (b || false) ≡ b
or_false true = refl
or_false false = refl

Decrypted-cases :
    {X : Type 0} (d : Decrypted X)
    → ((key : X) × (d ≡ ready key)) ⊎ ((e : BoxError) × (d ≡ undecryptable e))
Decrypted-cases (ready key) = inl (key, refl)
Decrypted-cases (undecryptable e) = inr (e, refl)

is_rejection_sound :
    (kind : AuthenticationErrorKind)
    → is_rejection kind ≡ true
    → kind ≡ AuthenticationErrorKind.rejected
unfolding is_rejection
is_rejection_sound AuthenticationErrorKind.rejected h = refl
is_rejection_sound AuthenticationErrorKind.exhausted h = cc
is_rejection_sound AuthenticationErrorKind.partial h = cc
is_rejection_sound AuthenticationErrorKind.unsupported_method h = cc
is_rejection_sound AuthenticationErrorKind.unavailable h = cc

is_soft-GoesOn : (e : Error) → is_soft e ≡ true → GoesOn e
unfolding is_soft is_timeout
is_soft-GoesOn (Error.timeout e) h = at_timeout e
is_soft-GoesOn (Error.io e) h = at_io e h
is_soft-GoesOn (Error.authentication e) h = at_rejection e (is_rejection_sound e.kind h)
is_soft-GoesOn _ h = cc

GoesOn-is_soft : (e : Error) → GoesOn e → is_soft e ≡ true
unfolding is_soft is_timeout is_rejection
GoesOn-is_soft _ (at_timeout e) = refl
GoesOn-is_soft _ (at_io e h) = h
GoesOn-is_soft _ (at_rejection e h) = rw h refl

of_identity-Says : (r : Result AuthResult) → KeySays r (view (of_identity r))
unfolding of_identity of_result of_soft
of_identity-Says (ok AuthResult.success) = key_success
of_identity-Says (ok (failure p)) = key_refusal p
of_identity-Says (err e) = elim (Bool-cases (is_soft e)) [
  | inl soft ↦ rw soft (key_passed e (is_soft-GoesOn e soft))
  | inr hard ↦ rw hard (key_error e λ g. cc (GoesOn-is_soft e g, hard))
]

of_interactive-Says : (r : Timed (Unit {0})) → InteractiveSays r (view (of_interactive r))
unfolding of_interactive of_soft timed_out category_error
of_interactive-Says elapsed = interactive_late
of_interactive-Says (answered (ok u)) = interactive_success u
of_interactive-Says (answered (err e)) = elim (Bool-cases (is_soft e)) [
  | inl soft ↦ rw soft (interactive_passed e (is_soft-GoesOn e soft))
  | inr hard ↦ rw hard (interactive_error e λ g. cc (GoesOn-is_soft e g, hard))
]

verdict_from-refused :
    (saw p : Bool) (made : List Outcome)
    → verdict_from (saw || p) made ≡ verdict_from saw (refused p ∷ made)
verdict_from-refused true p made = refl
verdict_from-refused false p made = refl

-- The outcomes behind a result.
record Explained (Runs : List Outcome → Type 0) (saw : Bool) (r : Result (Unit {0})) : Type 0 where
  made : List Outcome
  run : Runs made
  result : r ≡ verdict_from saw made

-- One round of a loop: what the attempt says, and what the rest comes to behind a refusal.
settle-Explained :
    {T : Type 0} (Now : Outcome → T → Type 0) (Later : T → List Outcome → Type 0)
    (Runs : List Outcome → Type 0) (rest : Bool → T → Result (Unit {0}) × T) (saw : Bool)
    (p : Attempt × T)
    → ((t : T) → Now accepted t → Runs (accepted ∷ []))
    → ((t : T) (e : Error) → Now (broken e) t → Runs (broken e ∷ []))
    → ((t : T) (q : Bool) (made : List Outcome)
        → Now (refused q) t
        → Later t made
        → Runs (refused q ∷ made))
    → ((b : Bool) (t : T) → Explained (Later t) b (rest b t).0)
    → Now (view p.0) p.1
    → Explained Runs saw (settle rest saw p).0
settle-Explained Now Later Runs rest saw (succeeded, t) won ended next behind says = record {
  made = accepted ∷ [];
  run = won t says;
  result = refl;
}
settle-Explained Now Later Runs rest saw (failed q, t) won ended next behind says =
    let later = behind (saw || q) t in
    record {
      made = refused q ∷ later.made;
      run = next t q later.made says later.run;
      result = later.result ∙ verdict_from-refused saw q later.made;
    }
settle-Explained Now Later Runs rest saw (stopped e, t) won ended next behind says = record {
  made = broken e ∷ [];
  run = ended t e says;
  result = refl;
}

module _ {I H X T : Type 0} (handle : AuthHandle I H X T) (username : Text) where
  attempt-Says :
      (c : Credential I H) (t : T)
      → let (a, t') = attempt handle username c t in Says handle username c t (view a) t'
  unfolding attempt
  attempt-Says (password word) t = by_password word t _ (of_timed-Says _ _)
  attempt-Says no_credential t = by_none t _ (of_timed-Says _ _)
  attempt-Says (identity i) t = by_key i t _ (of_identity-Says _)
  attempt-Says (keyboard_interactive h) t = by_dialogue h t _ (of_interactive-Says _)

  attempt_cert-CertSays :
      (x : X) (t : T)
      → let (a, t') = attempt_cert handle username x t in CertSays handle username x t (view a) t'
  unfolding attempt_cert category_error_with_source
  attempt_cert-CertSays x t = elim (Decrypted-cases (handle.decrypt x)) [
    | inl (key, e) ↦ rw (e, attempt_cert) (by_cert x key t _ e (of_timed-Says _ _))
    | inr (source, e) ↦ rw (e, attempt_cert) (locked x t source e)
  ]

  try_certs-Explained :
      (xs : List X) (saw : Bool) (t : T)
      → Explained (Made handle username [] xs t) saw (try_certs handle username xs saw t).0
  unfolding try_certs
  try_certs-Explained [] saw t = record {
    made = [];
    run = none_left t;
    result = ap err (nothing_left_lem saw ∙ ap undecided (sym (or_false saw)));
  }
  try_certs-Explained (x ∷ xs) saw t =
      settle-Explained (CertSays handle username x t) (Made handle username [] xs)
        (Made handle username [] (x ∷ xs) t) (try_certs handle username xs) saw
        (attempt_cert handle username x t) (λ t' says. cert_accepts x xs t t' says)
        (λ t' e says. cert_breaks x xs t t' e says)
        (λ t' q made says run. cert_refuses x xs t t' q made says run) (try_certs-Explained xs)
        (attempt_cert-CertSays x t)

  try_credentials-Explained :
      (cs : List (Credential I H)) (xs : List X) (saw : Bool) (t : T)
      → Explained (Made handle username cs xs t) saw (try_credentials handle username cs xs saw t).0
  unfolding try_credentials
  try_credentials-Explained [] xs saw t = try_certs-Explained xs saw t
  try_credentials-Explained (c ∷ cs) xs saw t =
      settle-Explained (Says handle username c t) (Made handle username cs xs)
        (Made handle username (c ∷ cs) xs t) (try_credentials handle username cs xs) saw
        (attempt handle username c t) (λ t' says. accepts c cs xs t t' says)
        (λ t' e says. breaks c cs xs t t' e says)
        (λ t' q made says run. refuses c cs xs t t' q made says run)
        (try_credentials-Explained cs xs) (attempt-Says c t)

  -- With a user and at least one credential or certificate, there are attempts, with the
  -- credentials and then with the certificates in their order up to the first that is no
  -- refusal, where success accepts, a refusal keeps whether it was a partial success, an error
  -- of a key or a dialogue that is a timeout or a rejection counts as a refusal without partial
  -- success, and every other error, a key that cannot be decrypted and an answer that is late
  -- end them; and the result is success or the error that ended them, and otherwise the error
  -- for a partial success if any refusal was one, or the error that all were rejected.
  pub authenticate_configured-verdict :
      (cs : List (Credential I H)) (xs : List X) (t : T)
      → has_any cs xs ≡ true
      → (made : List Outcome) × Made handle username cs xs t made
        × ((authenticate_configured handle (some username) cs xs t).0 ≡ verdict made)
  unfolding authenticate_configured with_user
  authenticate_configured-verdict [] [] t h = absurd (cc h)
  authenticate_configured-verdict [] (x ∷ xs) t h =
      let e = try_credentials-Explained [] (x ∷ xs) false t in (e.made, e.run, e.result)
  authenticate_configured-verdict (c ∷ cs) xs t h =
      let e = try_credentials-Explained (c ∷ cs) xs false t in (e.made, e.run, e.result)
