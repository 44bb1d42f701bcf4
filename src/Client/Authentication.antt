-- ===== src/Client/Authentication.antt =====
-- crates/russh-extra/src/client.rs: `authenticate_configured`. What `russh` answers to an attempt, with
-- the timeout around it, is a parameter; so are the keyboard-interactive exchange and the loading of
-- an identity's key.
use russh_extra.Base.{
  Text, Bool, true, false, Option, none, some, List, [], ◌∷◌, ◌||◌, if◌then◌else◌,
}
use russh_extra.Base.Text.{text}
use russh_extra.Core.Error.{
  Error, Result, ok, err, BoxError, AuthenticationErrorKind, Operation, category_error,
  category_error_with_source,
}

-- `russh`'s `AuthResult`, with whether the success was partial.
pub data AuthResult : Type 0 where
  success : AuthResult
  failure : Bool → AuthResult

-- A call of `russh` under a timeout, whose errors are mapped.
pub data Timed (A : Type 0) : Type 0 where
  elapsed : Timed A
  answered : Result A → Timed A

-- `I` is an identity, `H` a handler of challenges and `X` a certificate with its key.
pub data Credential (I H : Type 0) : Type 0 where
  password : Text → Credential I H
  identity : I → Credential I H
  no_credential : Credential I H
  keyboard_interactive : H → Credential I H

pub data Decrypted (X : Type 0) : Type 0 where
  ready : X → Decrypted X
  undecryptable : BoxError → Decrypted X

-- The server as `russh` shows it, with state `T`.
pub record AuthHandle (I H X T : Type 0) : Type 0 where
  pub authenticate_password : Text → Text → T → Timed AuthResult × T
  pub authenticate_none : Text → T → Timed AuthResult × T
  pub try_publickey_auth : Text → I → T → Result AuthResult × T
  pub run_keyboard_interactive : Text → H → T → Timed (Unit {0}) × T
  pub decrypt : X → Decrypted X
  pub authenticate_openssh_cert : Text → X → T → Timed AuthResult × T

-- `Error::is_timeout`
unfoldable pub is_timeout : Error → Bool
is_timeout (Error.timeout e) = true
is_timeout (Error.io e) = e.timed_out
is_timeout e = false

unfoldable pub is_rejection : AuthenticationErrorKind → Bool
is_rejection AuthenticationErrorKind.rejected = true
is_rejection kind = false

-- `error.is_timeout() || matches!(error, Error::Authentication(ref e) if e.kind() == Rejected)`
unfoldable pub is_soft : Error → Bool
is_soft (Error.authentication e) = is_rejection e.kind
is_soft e = is_timeout e

-- What an attempt makes of the loop.
pub data Attempt : Type 0 where
  succeeded : Attempt
  failed : Bool → Attempt
  stopped : Error → Attempt

unfoldable pub of_result : AuthResult → Attempt
of_result success = succeeded
of_result (failure partial_success) = failed partial_success

unfoldable pub timed_out : Text → Error
unfolding category_error
timed_out message = Error.timeout (category_error Operation.authentication message)

unfoldable pub of_timed : Text → Timed AuthResult → Attempt
of_timed message elapsed = stopped (timed_out message)
of_timed message (answered (err e)) = stopped e
of_timed message (answered (ok result)) = of_result result

unfoldable pub of_soft : Error → Attempt
of_soft e = if is_soft e then failed false else stopped e

unfoldable pub of_identity : Result AuthResult → Attempt
of_identity (ok result) = of_result result
of_identity (err e) = of_soft e

unfoldable pub of_interactive : Timed (Unit {0}) → Attempt
of_interactive elapsed = stopped (timed_out (text "keyboard-interactive authentication timed out"))
of_interactive (answered (ok _)) = succeeded
of_interactive (answered (err e)) = of_soft e

-- The end, when no attempt has decided.
unfoldable pub nothing_left : Bool → Error
unfolding category_error
nothing_left saw_partial =
    if saw_partial
    then Error.authentication (
        category_error AuthenticationErrorKind.partial
          (text "authentication partially succeeded but no configured credential completed it"))
    else Error.authentication (
        category_error AuthenticationErrorKind.exhausted
          (text "all configured credentials were rejected"))

unfoldable pub no_username : Error
unfolding category_error
no_username = Error.authentication (
    category_error AuthenticationErrorKind.unavailable
      (text "username is required for client authentication"))

unfoldable pub no_credentials : Error
unfolding category_error
no_credentials = Error.authentication (
    category_error AuthenticationErrorKind.unavailable
      (text "at least one credential is required for client authentication"))

-- `if success { return Ok(()) }`, the flag of a partial success, and the errors that return.
abbrev pub settle :
    {T : Type 0} → (Bool → T → Result (Unit {0}) × T) → Bool → Attempt × T → Result (Unit {0}) × T
settle rest saw_partial (succeeded, t) = (ok tt, t)
settle rest saw_partial (failed partial_success, t) = rest (saw_partial || partial_success) t
settle rest saw_partial (stopped e, t) = (err e, t)

module _ {I H X T : Type 0} (handle : AuthHandle I H X T) (username : Text) where
  unfoldable pub attempt : Credential I H → T → Attempt × T
  attempt (password word) t =
      let (r, t') = handle.authenticate_password username word t in
      (of_timed (text "password authentication timed out") r, t')
  attempt no_credential t =
      let (r, t') = handle.authenticate_none username t in
      (of_timed (text "none authentication timed out") r, t')
  attempt (identity i) t =
      let (r, t') = handle.try_publickey_auth username i t in (of_identity r, t')
  attempt (keyboard_interactive h) t =
      let (r, t') = handle.run_keyboard_interactive username h t in (of_interactive r, t')

  unfoldable pub attempt_cert : X → T → Attempt × T
  unfolding category_error_with_source
  attempt_cert x t = elim (handle.decrypt x) [
    | undecryptable e ↦ (
      stopped (
          Error.authentication (
            category_error_with_source AuthenticationErrorKind.unavailable
              (text "failed to decrypt certificate private key") e)),
      t,
    )
    | ready key ↦
        let (r, t') = handle.authenticate_openssh_cert username key t in
        (of_timed (text "certificate authentication timed out") r, t')
  ]

  -- The loop over the certificates.
  unfoldable pub try_certs : List X → Bool → T → Result (Unit {0}) × T
  try_certs [] saw_partial t = (err (nothing_left saw_partial), t)
  try_certs (x ∷ xs) saw_partial t = settle (try_certs xs) saw_partial (attempt_cert x t)

  -- The loop over the credentials, and then the certificates.
  unfoldable pub try_credentials : List (Credential I H) → List X → Bool → T → Result (Unit {0}) × T
  try_credentials [] xs saw_partial t = try_certs xs saw_partial t
  try_credentials (c ∷ cs) xs saw_partial t =
      settle (try_credentials cs xs) saw_partial (attempt c t)

-- No credential at all is an error of its own.
unfoldable pub with_user :
    {I H X T : Type 0}
    → AuthHandle I H X T
    → Text
    → List (Credential I H)
    → List X
    → T
    → Result (Unit {0}) × T
with_user handle username [] [] t = (err no_credentials, t)
with_user handle username [] (x ∷ xs) t = try_credentials handle username [] (x ∷ xs) false t
with_user handle username (c ∷ cs) xs t = try_credentials handle username (c ∷ cs) xs false t

unfoldable pub authenticate_configured :
    {I H X T : Type 0}
    → AuthHandle I H X T
    → Option Text
    → List (Credential I H)
    → List X
    → T
    → Result (Unit {0}) × T
authenticate_configured handle none cs xs t = (err no_username, t)
authenticate_configured handle (some username) cs xs t = with_user handle username cs xs t
