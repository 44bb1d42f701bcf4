-- ===== src/Server/Sessions.antt =====
-- crates/russh-extra/src/server.rs: a session from `new_client` on, and what holds of it after any
-- sequence of calls.
use russh_extra.Base.{
  ℕ, ◌≤◌, ◌≡◌, sym, ◌∙◌, Text, Bool, true, false, Option, none, some, List, [], ◌∷◌, arith,
  if◌then◌else◌,
}
use russh_extra.Core.Error.{Error}
use russh_extra.Server.Runtime.{ServerRuntime, ServerSession, RusshSession, Handled, done, failed}
use russh_extra.Server.Auth.{accepted, rejected, partial}
use russh_extra.Server.Event.{
  AuthEvent, auth_none, auth_password, auth_publickey_offered, auth_publickey,
  auth_openssh_certificate, auth_keyboard_interactive, Event, authenticate, authentication_banner,
  channel_open_session, channel_close, channel_eof, channel_data, request, forward, Outcome, auth,
  banner, granted, finished, handle, new_client,
}
use russh_extra.Server.Quiet.{Quiet}

-- The user that a call logs in when it is answered with `accepted`. The offer of a public key, which
-- comes before its signature, logs nobody in.
abbrev pub login_of : {K C : Type 0} → AuthEvent K C → Option Text
login_of (auth_none user) = some user
login_of (auth_password user _) = some user
login_of (auth_publickey_offered user _) = none
login_of (auth_publickey user _) = some user
login_of (auth_openssh_certificate user _) = some user
login_of (auth_keyboard_interactive user _ _) = some user

abbrev pub accepts : {R : Type 0} → Handled R Outcome → Bool
accepts (done (auth accepted)) = true
accepts (done (auth rejected)) = false
accepts (done (auth (partial prompt))) = false
accepts (done (banner b)) = false
accepts (done (granted b)) = false
accepts (done (finished u)) = false
accepts (failed e) = false

abbrev pub log_login : Option Text → Bool → List Text → List Text
log_login none b users = users
log_login (some user) b users = if b then user ∷ users else users

-- The users that were accepted, the last one first.
abbrev pub log : {R K C : Type 0} → Event K C → Handled R Outcome → List Text → List Text
log (authenticate e) r users = log_login (login_of e) (accepts r) users
log authentication_banner r users = users
log channel_open_session r users = users
log (channel_close channel) r users = users
log (channel_eof channel) r users = users
log (channel_data channel bytes) r users = users
log (request q) r users = users
log (forward f) r users = users

abbrev pub last_user : List Text → Option Text
last_user [] = none
last_user (user ∷ users) = some user

module _ {S K C F R T : Type 0} (runtime : ServerRuntime S K C F) (session : RusshSession R T)
    (display : Error → Text) where
  -- The states of one connection, with the users that were accepted on the way.
  pub data Reach : ServerSession S F × T → List Text → Type 0 where
    start :
        (id : ℕ) (peer : Option Text) (app : S) (t : T)
        → Reach (new_client runtime id peer app, t) []
    next :
        (w : ServerSession S F × T) (users : List Text) (e : Event K C)
        → Reach w users
        → Reach
            (handle runtime session display e w).1
            (log e (handle runtime session display e w).0 users)

module _ {S K C F : Type 0} (runtime : ServerRuntime S K C F) where
  pub record Sound (st : ServerSession S F) (users : List Text) : Type 0 where
    pub user : st.username ≡ last_user users
    pub cap : st.open_sessions ≤ runtime.config.max_sessions
    pub locked : st.username ≡ none → st.open_sessions ≡ 0

  pub Quiet-Sound :
      {st st' : ServerSession S F} {users : List Text}
      → Quiet st st'
      → Sound st users
      → Sound st' users
  Quiet-Sound q s = record {
    user = q.username ∙ s.user;
    cap = omega (arith, q.open_sessions, s.cap);
    locked = λ h. omega (arith, q.open_sessions, s.locked (sym q.username ∙ h));
  }

  pub login-Sound :
      {st st' : ServerSession S F} {users : List Text} (user : Text) (b : Bool)
      → st'.username ≡ (if b then some user else st.username)
      → st'.open_sessions ≡ st.open_sessions
      → Sound st users
      → Sound st' (if b then user ∷ users else users)
  login-Sound user true hu ho s = record {
    user = hu;
    cap = omega (arith, ho, s.cap);
    locked = λ h. ground arith;
  }
  login-Sound user false hu ho s = record {
    user = hu ∙ s.user;
    cap = omega (arith, ho, s.cap);
    locked = λ h. omega (arith, ho, s.locked (sym hu ∙ h));
  }
