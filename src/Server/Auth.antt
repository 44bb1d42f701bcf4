-- ===== src/Server/Auth.antt =====
-- crates/russh-extra/src/server.rs: the authentication methods of `HighLevelRusshHandler`.
use russh_extra.Base.{
  Bytes, Text, Bool, true, false, is_some, Option, none, some, List, [], ◌∷◌, ◌++◌, if◌then◌else◌,
}
use russh_extra.Server.Context.{
  SessionContext, AuthContext, KeyboardInteractivePrompt, KeyboardInteractiveResponse, accept,
  reject, further_action,
}
use russh_extra.Server.Runtime.{
  ServerRuntime, ServerSession, auth_success, done, Step, ◌>>=◌, ret, current, call_or_fail,
}

-- `russh`'s `Auth`, as far as it is returned.
pub data Auth : Type 0 where
  accepted : Auth
  rejected : Auth
  partial : KeyboardInteractivePrompt → Auth

unfoldable pub auth_context : {S F : Type 0} → ServerSession S F → Text → AuthContext
auth_context st username = record {
  session_id = st.session_id;
  username = username;
  peer_addr = st.peer_addr;
}

unfoldable pub session_context : {S F : Type 0} → ServerSession S F → SessionContext
session_context st = record { id = st.session_id; username = st.username }

module _ {S K C F : Type 0} (runtime : ServerRuntime S K C F) where
  unfoldable pub fire_auth_success : ServerSession S F → ServerSession S F
  unfolding session_context
  fire_auth_success st =
      if is_some runtime.on_auth_success
      then record st { spawned = st.spawned ++ auth_success (session_context st) ∷ [] }
      else st

  -- `self.username = Some(Username::from(user)); self.fire_auth_success()`
  unfoldable pub log_in : Text → ServerSession S F → ServerSession S F
  log_in user st = fire_auth_success (record st { username = some user })

module _ {S K C F R T : Type 0} (runtime : ServerRuntime S K C F) where
  unfoldable pub decide : Text → Bool → Step R (ServerSession S F × T) Auth
  decide user true w = (done accepted, (log_in runtime user w.0, w.1))
  decide user false w = (done rejected, w)

  unfoldable pub auth_none : Text → Step R (ServerSession S F × T) Auth
  auth_none user = ret rejected

  unfoldable pub auth_password : Text → Text → Step R (ServerSession S F × T) Auth
  auth_password user password = elim runtime.password_auth [
    | none ↦ ret rejected
    | some handler ↦ current >>= λ st.
        call_or_fail (handler (auth_context st user) password) >>= λ decision.
        decide user decision.accepted
  ]

  unfoldable pub auth_publickey_offered : Text → K → Step R (ServerSession S F × T) Auth
  auth_publickey_offered user public_key = ret accepted

  unfoldable pub auth_publickey : Text → K → Step R (ServerSession S F × T) Auth
  auth_publickey user public_key = elim runtime.public_key_auth [
    | none ↦ ret rejected
    | some handler ↦ current >>= λ st.
        call_or_fail (handler (auth_context st user) public_key) >>= λ decision.
        decide user decision.accepted
  ]

  unfoldable pub auth_openssh_certificate : Text → C → Step R (ServerSession S F × T) Auth
  auth_openssh_certificate user certificate = elim runtime.cert_auth [
    | none ↦ ret rejected
    | some handler ↦ current >>= λ st.
        call_or_fail (handler (auth_context st user) certificate) >>= λ decision.
        decide user decision.accepted
  ]

  unfoldable pub respond_to :
      Text → KeyboardInteractiveResponse → Step R (ServerSession S F × T) Auth
  respond_to user accept = decide user true
  respond_to user reject = decide user false
  respond_to user (further_action prompt) = ret (partial prompt)

  -- `responses` is empty when the client has sent none.
  unfoldable pub auth_keyboard_interactive :
      Text → Text → List Bytes → Step R (ServerSession S F × T) Auth
  auth_keyboard_interactive user submethods responses = elim runtime.keyboard_interactive_auth [
    | none ↦ ret rejected
    | some handler ↦ current >>= λ st.
        call_or_fail (
          handler (record {
            session = auth_context st user;
            submethods = submethods;
            responses = responses;
          }))
        >>= λ decision. respond_to user decision
  ]

  unfoldable pub authentication_banner : Step R (ServerSession S F × T) (Option Text)
  authentication_banner = elim runtime.auth_banner [
    | none ↦ ret none
    | some handler ↦ call_or_fail handler
  ]
