-- ===== src/Server/Login.antt =====
-- The authentication methods of crates/russh-extra/src/server.rs, and the user that a session knows.
use russh_extra.Base.{
  ◌≡◌, refl, Bytes, Text, Bool, true, false, Option, none, some, List, arith, if◌then◌else◌,
}
use russh_extra.Core.Error.{Result, ok, err}
use russh_extra.Sftp.Handler.{Call}
use russh_extra.Server.Context.{KeyboardInteractiveResponse, accept, reject, further_action}
use russh_extra.Server.Runtime.{
  ServerRuntime, ServerSession, Handled, done, failed, Step, proceed, ◌>>=◌, ret, current, call,
  call_or_fail, or_fail,
}
use russh_extra.Server.Auth as Auth
use russh_extra.Server.Auth.{
  Auth, accepted, rejected, partial, decide, log_in, fire_auth_success, respond_to,
}

-- Whether the outcome of a method logs its user in.
abbrev pub logs_in : {R : Type 0} → Handled R Auth → Bool
logs_in (done accepted) = true
logs_in (done rejected) = false
logs_in (done (partial prompt)) = false
logs_in (failed e) = false

abbrev pub user_after : {R : Type 0} → Text → Handled R Auth → Option Text → Option Text
user_after user r old = if logs_in r then some user else old

module _ {R S F T : Type 0} where
  -- A method that answers `user` with `accepted` exactly when it logs `user` in.
  pub record IsLogin (user : Text) (m : Step R (ServerSession S F × T) Auth) : Type 0 where
    pub username :
        (w : ServerSession S F × T) → (m w).1.0.username ≡ user_after user (m w).0 w.0.username
    pub open_sessions : (w : ServerSession S F × T) → (m w).1.0.open_sessions ≡ w.0.open_sessions

  rejected-IsLogin : (user : Text) → IsLogin user (ret rejected)
  rejected-IsLogin user = record { username = λ w. refl; open_sessions = λ w. refl }

  partial-IsLogin : (user : Text) (prompt : _) → IsLogin user (ret (partial prompt))
  partial-IsLogin user prompt = record { username = λ w. refl; open_sessions = λ w. refl }

  or_fail-username :
      {A : Type 0} (user : Text) (r : Result A) {k : A → Step R (ServerSession S F × T) Auth}
      → ((a : A) → IsLogin user (k a))
      → (w : ServerSession S F × T)
      → (proceed (or_fail r w) k).1.0.username
        ≡ user_after user (proceed (or_fail r w) k).0 w.0.username
  unfolding or_fail
  or_fail-username user (ok a) h w = (h a).username w
  or_fail-username user (err e) h w = refl

  or_fail-open_sessions :
      {A : Type 0} (user : Text) (r : Result A) {k : A → Step R (ServerSession S F × T) Auth}
      → ((a : A) → IsLogin user (k a))
      → (w : ServerSession S F × T)
      → (proceed (or_fail r w) k).1.0.open_sessions ≡ w.0.open_sessions
  unfolding or_fail
  or_fail-open_sessions user (ok a) h w = (h a).open_sessions w
  or_fail-open_sessions user (err e) h w = refl

  -- A method that asks a callback, and then decides.
  asks-IsLogin :
      {A : Type 0} (user : Text) (c : ServerSession S F → Call S A)
      {k : A → Step R (ServerSession S F × T) Auth}
      → ((a : A) → IsLogin user (k a))
      → IsLogin user (current >>= λ st. call_or_fail (c st) >>= k)
  unfolding call
  asks-IsLogin user c h = record {
    username = λ w. or_fail-username user _ h _;
    open_sessions = λ w. or_fail-open_sessions user _ h _;
  }

  callback-IsLogin :
      {A : Type 0} (user : Text) (o : Option A) {n : Step R (ServerSession S F × T) Auth}
      {f : A → Step R (ServerSession S F × T) Auth}
      → IsLogin user n
      → ((a : A) → IsLogin user (f a))
      → IsLogin user (elim o [ none ↦ n | some a ↦ f a ])
  callback-IsLogin user none hn hf = hn
  callback-IsLogin user (some a) hn hf = hf a

module _ {S K C F : Type 0} (runtime : ServerRuntime S K C F) where
  fire_auth_success-username :
      (st : ServerSession S F) → (fire_auth_success runtime st).username ≡ st.username
  unfolding fire_auth_success
  fire_auth_success-username st = ground arith

  fire_auth_success-open_sessions :
      (st : ServerSession S F) → (fire_auth_success runtime st).open_sessions ≡ st.open_sessions
  unfolding fire_auth_success
  fire_auth_success-open_sessions st = ground arith

module _ {S K C F R T : Type 0} (runtime : ServerRuntime S K C F) where
  decide-IsLogin : (user : Text) (b : Bool) → IsLogin {R = R} {T = T} user (decide runtime user b)
  unfolding decide log_in
  decide-IsLogin user true = record {
    username = λ w. fire_auth_success-username runtime _;
    open_sessions = λ w. fire_auth_success-open_sessions runtime _;
  }
  decide-IsLogin user false = record { username = λ w. refl; open_sessions = λ w. refl }

  respond_to-IsLogin :
      (user : Text) (r : KeyboardInteractiveResponse)
      → IsLogin {R = R} {T = T} user (respond_to runtime user r)
  unfolding respond_to
  respond_to-IsLogin user accept = decide-IsLogin user true
  respond_to-IsLogin user reject = decide-IsLogin user false
  respond_to-IsLogin user (further_action prompt) = partial-IsLogin user prompt

  pub auth_none-IsLogin : (user : Text) → IsLogin {R = R} {T = T} user (Auth.auth_none runtime user)
  unfolding Auth.auth_none
  auth_none-IsLogin user = rejected-IsLogin user

  pub auth_password-IsLogin :
      (user password : Text)
      → IsLogin {R = R} {T = T} user (Auth.auth_password runtime user password)
  unfolding Auth.auth_password
  auth_password-IsLogin user password =
      callback-IsLogin user runtime.password_auth (rejected-IsLogin user)
        λ handler. asks-IsLogin user _ λ decision. decide-IsLogin user decision.accepted

  pub auth_publickey-IsLogin :
      (user : Text) (key : K) → IsLogin {R = R} {T = T} user (Auth.auth_publickey runtime user key)
  unfolding Auth.auth_publickey
  auth_publickey-IsLogin user key =
      callback-IsLogin user runtime.public_key_auth (rejected-IsLogin user)
        λ handler. asks-IsLogin user _ λ decision. decide-IsLogin user decision.accepted

  pub auth_openssh_certificate-IsLogin :
      (user : Text) (certificate : C)
      → IsLogin {R = R} {T = T} user (Auth.auth_openssh_certificate runtime user certificate)
  unfolding Auth.auth_openssh_certificate
  auth_openssh_certificate-IsLogin user certificate =
      callback-IsLogin user runtime.cert_auth (rejected-IsLogin user)
        λ handler. asks-IsLogin user _ λ decision. decide-IsLogin user decision.accepted

  pub auth_keyboard_interactive-IsLogin :
      (user submethods : Text) (responses : List Bytes)
      → IsLogin {R = R} {T = T} user
          (Auth.auth_keyboard_interactive runtime user submethods responses)
  unfolding Auth.auth_keyboard_interactive
  auth_keyboard_interactive-IsLogin user submethods responses =
      callback-IsLogin user runtime.keyboard_interactive_auth (rejected-IsLogin user)
        λ handler. asks-IsLogin user _ λ decision. respond_to-IsLogin user decision
