-- ===== src/Client/Outcome.antt =====
-- crates/russh-extra/src/client.rs: what the attempts of an authentication come to, by what the server
-- and the certificates' keys say, written out apart from the code.
use russh_extra.Base.{◌≡◌, Text, Bool, true, false, Option, none, some, List, [], ◌∷◌, ◌||◌}
use russh_extra.Base.Text.{text}
use russh_extra.Core.Error.{
  Error, Result, ok, err, BoxError, CategoryError, IoError, AuthenticationErrorKind, Operation,
}
use russh_extra.Client.Authentication.{
  AuthResult, failure, Timed, elapsed, answered, Credential, password, identity, no_credential,
  keyboard_interactive, ready, undecryptable, AuthHandle,
}

-- What an attempt comes to.
pub data Outcome : Type 0 where
  accepted : Outcome
  refused : Bool → Outcome
  broken : Error → Outcome

abbrev pub late : Text → Error
late message =
    Error.timeout (record { kind = Operation.authentication; message = message; source = none })

-- An answer under a timeout: success, a refusal, an error, or none in time.
pub data TimedSays (message : Text) : Timed AuthResult → Outcome → Type 0 where
  timed_success : TimedSays message (answered (ok AuthResult.success)) accepted
  timed_refusal :
      (partial_success : Bool)
      → TimedSays message (answered (ok (failure partial_success))) (refused partial_success)
  timed_error : (e : Error) → TimedSays message (answered (err e)) (broken e)
  timed_late : TimedSays message elapsed (broken (late message))

-- The errors behind which the next credential is tried: a timeout, and a rejection.
pub data GoesOn : Error → Type 0 where
  at_timeout : (e : CategoryError Operation) → GoesOn (Error.timeout e)
  at_io : (e : IoError) → e.timed_out ≡ true → GoesOn (Error.io e)
  at_rejection :
      (e : CategoryError AuthenticationErrorKind)
      → e.kind ≡ AuthenticationErrorKind.rejected
      → GoesOn (Error.authentication e)

pub data KeySays : Result AuthResult → Outcome → Type 0 where
  key_success : KeySays (ok AuthResult.success) accepted
  key_refusal :
      (partial_success : Bool) → KeySays (ok (failure partial_success)) (refused partial_success)
  key_passed : (e : Error) → GoesOn e → KeySays (err e) (refused false)
  key_error : (e : Error) → ¬ GoesOn e → KeySays (err e) (broken e)

pub data InteractiveSays : Timed (Unit {0}) → Outcome → Type 0 where
  interactive_success : (u : Unit {0}) → InteractiveSays (answered (ok u)) accepted
  interactive_passed : (e : Error) → GoesOn e → InteractiveSays (answered (err e)) (refused false)
  interactive_error : (e : Error) → ¬ GoesOn e → InteractiveSays (answered (err e)) (broken e)
  interactive_late :
      InteractiveSays elapsed (broken (late (text "keyboard-interactive authentication timed out")))

module _ {I H X T : Type 0} (handle : AuthHandle I H X T) (username : Text) where
  -- An attempt with a credential in a state of the server, its outcome and the next state.
  pub data Says : Credential I H → T → Outcome → T → Type 0 where
    by_password :
        (word : Text) (t : T) (o : Outcome)
        → TimedSays
            (text "password authentication timed out")
            (handle.authenticate_password username word t).0
            o
        → Says (password word) t o (handle.authenticate_password username word t).1
    by_none :
        (t : T) (o : Outcome)
        → TimedSays (text "none authentication timed out") (handle.authenticate_none username t).0 o
        → Says no_credential t o (handle.authenticate_none username t).1
    by_key :
        (i : I) (t : T) (o : Outcome)
        → KeySays (handle.try_publickey_auth username i t).0 o
        → Says (identity i) t o (handle.try_publickey_auth username i t).1
    by_dialogue :
        (h : H) (t : T) (o : Outcome)
        → InteractiveSays (handle.run_keyboard_interactive username h t).0 o
        → Says (keyboard_interactive h) t o (handle.run_keyboard_interactive username h t).1

  pub data CertSays : X → T → Outcome → T → Type 0 where
    locked :
        (x : X) (t : T) (e : BoxError)
        → handle.decrypt x ≡ undecryptable e
        → CertSays x t
            (broken (
              Error.authentication (record {
                kind = AuthenticationErrorKind.unavailable;
                message = text "failed to decrypt certificate private key";
                source = some e;
              })))
            t
    by_cert :
        (x key : X) (t : T) (o : Outcome)
        → handle.decrypt x ≡ ready key
        → TimedSays
            (text "certificate authentication timed out")
            (handle.authenticate_openssh_cert username key t).0
            o
        → CertSays x t o (handle.authenticate_openssh_cert username key t).1

  -- The outcomes of the attempts with the credentials in their order and then with the
  -- certificates, up to the first that is no refusal.
  pub data Made : List (Credential I H) → List X → T → List Outcome → Type 0 where
    none_left : (t : T) → Made [] [] t []
    accepts :
        (c : Credential I H) (cs : List (Credential I H)) (xs : List X) (t t' : T)
        → Says c t accepted t'
        → Made (c ∷ cs) xs t (accepted ∷ [])
    breaks :
        (c : Credential I H) (cs : List (Credential I H)) (xs : List X) (t t' : T) (e : Error)
        → Says c t (broken e) t'
        → Made (c ∷ cs) xs t (broken e ∷ [])
    refuses :
        (c : Credential I H) (cs : List (Credential I H)) (xs : List X) (t t' : T) (p : Bool)
        (made : List Outcome)
        → Says c t (refused p) t'
        → Made cs xs t' made
        → Made (c ∷ cs) xs t (refused p ∷ made)
    cert_accepts :
        (x : X) (xs : List X) (t t' : T)
        → CertSays x t accepted t'
        → Made [] (x ∷ xs) t (accepted ∷ [])
    cert_breaks :
        (x : X) (xs : List X) (t t' : T) (e : Error)
        → CertSays x t (broken e) t'
        → Made [] (x ∷ xs) t (broken e ∷ [])
    cert_refuses :
        (x : X) (xs : List X) (t t' : T) (p : Bool) (made : List Outcome)
        → CertSays x t (refused p) t'
        → Made [] xs t' made
        → Made [] (x ∷ xs) t (refused p ∷ made)

-- The outcome that decides.
abbrev pub decisive : List Outcome → Option (Result (Unit {0}))
decisive [] = none
decisive (accepted ∷ made) = some (ok tt)
decisive (refused partial_success ∷ made) = decisive made
decisive (broken e ∷ made) = some (err e)

abbrev pub any_partial : List Outcome → Bool
any_partial [] = false
any_partial (accepted ∷ made) = any_partial made
any_partial (refused partial_success ∷ made) = partial_success || any_partial made
any_partial (broken e ∷ made) = any_partial made

abbrev pub undecided : Bool → Error
undecided true = Error.authentication (record {
  kind = AuthenticationErrorKind.partial;
  message = text "authentication partially succeeded but no configured credential completed it";
  source = none;
})
undecided false = Error.authentication (record {
  kind = AuthenticationErrorKind.exhausted;
  message = text "all configured credentials were rejected";
  source = none;
})

-- The result with these outcomes, when an earlier refusal was or was not a partial success.
abbrev pub verdict_from : Bool → List Outcome → Result (Unit {0})
verdict_from saw_partial made = elim (decisive made) [
  | some r ↦ r
  | none ↦ err (undecided (saw_partial || any_partial made))
]

abbrev pub verdict : List Outcome → Result (Unit {0})
verdict made = verdict_from false made

abbrev pub has_any : {A B : Type 0} → List A → List B → Bool
has_any [] [] = false
has_any [] (x ∷ xs) = true
has_any (c ∷ cs) xs = true
