-- ===== src/Server/Reachable.antt =====
-- crates/russh-extra/src/server.rs: every call of a session keeps what is sound about it.
use russh_extra.Base.{
  ℕ, ◌≡◌, refl, sym, Text, Bool, true, false, Option, none, some, List, [], arith,
}
use mathlib.Core.Path.{subst}
use russh_extra.Core.Error.{Error}
use russh_extra.Server.Runtime.{
  ServerRuntime, ServerSession, RusshSession, Handled, done, failed, Step, proceed, ◌>>=◌, ret,
}
use russh_extra.Server.Auth.{Auth, accepted, rejected, partial}
use russh_extra.Server.Auth as Auth
use russh_extra.Server.Channels.{refuses_session, admit}
use russh_extra.Server.Channels as Channels
use russh_extra.Server.Event.{
  auth_none, auth_password, auth_publickey_offered, auth_publickey, auth_openssh_certificate,
  auth_keyboard_interactive, Event, authenticate, authentication_banner, channel_open_session,
  channel_close, channel_eof, channel_data, request, forward, Outcome, auth, granted, finished,
  run_auth, handle, new_client, Request, Forward, run_request, run_forward, exec_request,
  shell_request, pty_request, env_request, subsystem_request, window_change_request, agent_request,
  x11_request, tcpip_forward, cancel_tcpip_forward, streamlocal_forward, cancel_streamlocal_forward,
  channel_open_direct_tcpip, channel_open_forwarded_tcpip, channel_open_direct_streamlocal,
  channel_open_x11,
}
use russh_extra.Server.Forwarding as Forwarding
use russh_extra.Server.Quiet.{
  IsQuiet, bind-IsQuiet, ret-IsQuiet, Option-IsQuiet, call-IsQuiet, or_fail-IsQuiet,
}
use russh_extra.Server.Calm as Calm
use russh_extra.Server.CalmExec as CalmExec
use russh_extra.Server.Login as Login
use russh_extra.Server.Login.{IsLogin, logs_in, user_after}
use russh_extra.Server.Sessions.{
  accepts, log_login, log, Reach, start, next, Sound, Quiet-Sound, login-Sound,
}

-- An event's outcome is made of the method's result.
then_ret-IsQuiet :
    {R S F T A B : Type 0} {m : Step R (ServerSession S F × T) A} (f : A → B)
    → IsQuiet m
    → IsQuiet (m >>= λ a. ret (f a))
then_ret-IsQuiet f h = bind-IsQuiet h λ a. ret-IsQuiet (f a)

module _ {S K C F R T : Type 0} (runtime : ServerRuntime S K C F) (session : RusshSession R T) where
  pub run_request-IsQuiet : (r : Request) → IsQuiet (run_request runtime session r)
  unfolding run_request
  run_request-IsQuiet (exec_request channel command) =
      then_ret-IsQuiet finished (CalmExec.exec_request-IsQuiet runtime session channel command)
  run_request-IsQuiet (shell_request channel) =
      then_ret-IsQuiet finished (Calm.shell_request-IsQuiet runtime session channel)
  run_request-IsQuiet (pty_request channel params) =
      then_ret-IsQuiet finished (Calm.pty_request-IsQuiet runtime session channel params)
  run_request-IsQuiet (env_request channel variable) =
      then_ret-IsQuiet finished (Calm.env_request-IsQuiet runtime session channel variable)
  run_request-IsQuiet (subsystem_request channel name) =
      then_ret-IsQuiet finished (Calm.subsystem_request-IsQuiet runtime session channel name)
  run_request-IsQuiet (window_change_request channel change) =
      then_ret-IsQuiet finished (Calm.window_change_request-IsQuiet runtime session channel change)
  run_request-IsQuiet (agent_request channel) =
      then_ret-IsQuiet granted (Calm.agent_request-IsQuiet runtime session channel)
  run_request-IsQuiet (x11_request channel single protocol cookie screen) =
      then_ret-IsQuiet finished
        (Calm.x11_request-IsQuiet runtime session channel single protocol cookie screen)

  run_forward-IsQuiet : (f : Forward) → IsQuiet (run_forward runtime session f)
  unfolding run_forward Forwarding.tcpip_forward Forwarding.cancel_tcpip_forward
      Forwarding.streamlocal_forward Forwarding.cancel_streamlocal_forward
      Forwarding.channel_open_direct_tcpip Forwarding.channel_open_forwarded_tcpip
      Forwarding.channel_open_direct_streamlocal Forwarding.channel_open_x11
  run_forward-IsQuiet (tcpip_forward address port) = CalmExec.ask-IsQuiet _ _
  run_forward-IsQuiet (cancel_tcpip_forward address port) = CalmExec.ask-IsQuiet _ _
  run_forward-IsQuiet (streamlocal_forward path) = CalmExec.ask-IsQuiet _ _
  run_forward-IsQuiet (cancel_streamlocal_forward path) = CalmExec.ask-IsQuiet _ _
  run_forward-IsQuiet (channel_open_direct_tcpip channel host port origin origin_port) =
      CalmExec.ask_open-IsQuiet session channel _ _
  run_forward-IsQuiet (channel_open_forwarded_tcpip channel address port origin origin_port) =
      CalmExec.ask_open-IsQuiet session channel _ _
  run_forward-IsQuiet (channel_open_direct_streamlocal channel path) =
      CalmExec.ask_open-IsQuiet session channel _ _
  run_forward-IsQuiet (channel_open_x11 channel origin origin_port) =
      CalmExec.ask_open-IsQuiet session channel _ _

module _ {S K C F T : Type 0} (runtime : ServerRuntime S K C F) where
  -- Letting a channel in, or not.
  admit-Sound :
      (R : Type 0) (b : Bool) (w : ServerSession S F × T) (users : List Text)
      → refuses_session runtime w.0 ≡ b
      → Sound runtime w.0 users
      → Sound runtime ((admit {R = R} runtime b >>= λ g. ret (granted g)) w).1.0 users
  unfolding admit refuses_session
  admit-Sound R true w users hb s = s
  admit-Sound R false w users hb s = record {
    user = s.user;
    cap = ground arith;
    locked = λ h. ground arith;
  }

module _ {S K C F R T : Type 0} (runtime : ServerRuntime S K C F) where
  authentication_banner-IsQuiet : IsQuiet {R = R} {T = T} (Auth.authentication_banner runtime)
  unfolding Auth.authentication_banner
  authentication_banner-IsQuiet =
      Option-IsQuiet runtime.auth_banner (ret-IsQuiet none)
        λ handler. bind-IsQuiet (call-IsQuiet handler) λ r. or_fail-IsQuiet r

  accepts-proceed :
      (r : Handled R Auth × (ServerSession S F × T))
      → accepts (proceed r (λ a. ret (auth a))).0 ≡ logs_in r.0
  accepts-proceed (done accepted, w) = refl
  accepts-proceed (done rejected, w) = refl
  accepts-proceed (done (partial prompt), w) = refl
  accepts-proceed (failed e, w) = refl

  proceed-auth :
      (r : Handled R Auth × (ServerSession S F × T)) → (proceed r (λ a. ret (auth a))).1 ≡ r.1
  proceed-auth (done a, w) = refl
  proceed-auth (failed e, w) = refl

  logged-Sound :
      (user : Text) {m : Step R (ServerSession S F × T) Auth} (w : ServerSession S F × T)
      (users : List Text)
      → IsLogin user m
      → Sound runtime w.0 users
      → Sound runtime
          ((m >>= λ a. ret (auth a)) w).1.0
          (log_login (some user) (accepts ((m >>= λ a. ret (auth a)) w).0) users)
  logged-Sound user {m} w users h s =
      subst
        (λ v.
          Sound runtime v.0
            (log_login (some user) (accepts (proceed (m w) (λ a. ret (auth a))).0) users))
        (sym (proceed-auth (m w)))
        (subst (λ b. Sound runtime (m w).1.0 (log_login (some user) b users))
          (sym (accepts-proceed (m w)))
          (login-Sound runtime user (logs_in (m w).0) (h.username w) (h.open_sessions w) s))

module _ {S K C F R T : Type 0} (runtime : ServerRuntime S K C F) (session : RusshSession R T)
    (display : Error → Text) where
  after_event :
      (e : Event K C) (w : ServerSession S F × T) (users : List Text)
      → Sound runtime w.0 users
      → Sound runtime
          (handle runtime session display e w).1.0
          (log e (handle runtime session display e w).0 users)
  unfolding handle run_auth Channels.channel_open_session Auth.auth_publickey_offered
  after_event (authenticate (auth_none user)) w users s =
      logged-Sound runtime user w users (Login.auth_none-IsLogin runtime user) s
  after_event (authenticate (auth_password user password)) w users s =
      logged-Sound runtime user w users (Login.auth_password-IsLogin runtime user password) s
  after_event (authenticate (auth_publickey_offered user key)) w users s = s
  after_event (authenticate (auth_publickey user key)) w users s =
      logged-Sound runtime user w users (Login.auth_publickey-IsLogin runtime user key) s
  after_event (authenticate (auth_openssh_certificate user certificate)) w users s =
      logged-Sound runtime user w users
        (Login.auth_openssh_certificate-IsLogin runtime user certificate) s
  after_event (authenticate (auth_keyboard_interactive user submethods responses)) w users s =
      logged-Sound runtime user w users
        (Login.auth_keyboard_interactive-IsLogin runtime user submethods responses) s
  after_event authentication_banner w users s =
      Quiet-Sound runtime
        ((then_ret-IsQuiet Outcome.banner (authentication_banner-IsQuiet runtime)).keeps w) s
  after_event channel_open_session w users s = admit-Sound runtime R _ w users refl s
  after_event (channel_close channel) w users s =
      Quiet-Sound runtime
        ((then_ret-IsQuiet finished (CalmExec.channel_close-IsQuiet channel)).keeps w) s
  after_event (channel_eof channel) w users s =
      Quiet-Sound runtime
        ((then_ret-IsQuiet finished (CalmExec.channel_eof-IsQuiet channel)).keeps w) s
  after_event (channel_data channel bytes) w users s =
      Quiet-Sound runtime
        ((then_ret-IsQuiet finished
            (CalmExec.channel_data-IsQuiet session display channel bytes)).keeps
          w)
        s
  after_event (request r) w users s =
      Quiet-Sound runtime ((run_request-IsQuiet runtime session r).keeps w) s
  after_event (forward f) w users s =
      Quiet-Sound runtime
        ((then_ret-IsQuiet granted (run_forward-IsQuiet runtime session f)).keeps w) s

  new_client-Sound :
      (id : ℕ) (peer : Option Text) (app : S) → Sound runtime (new_client runtime id peer app) []
  unfolding new_client
  new_client-Sound id peer app = record { user = refl; cap = omega arith; locked = λ h. refl }

  -- In every state that a session reaches from `new_client` by any sequence of calls, whatever
  -- the callbacks answer and whichever calls fail, the user is the one whose authentication was
  -- accepted last, or none when there was none (the offer of a public key counts as no
  -- authentication); the counter of open sessions is at most `max_sessions`, and it is zero
  -- while no user is known.
  pub Reach-Sound :
      (w : ServerSession S F × T) (users : List Text)
      → Reach runtime session display w users
      → Sound runtime w.0 users
  Reach-Sound _ _ (start id peer app t) = new_client-Sound id peer app
  Reach-Sound _ _ (next w users e r) = after_event e w users (Reach-Sound w users r)
