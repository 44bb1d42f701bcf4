-- ===== src/Server/Calm.antt =====
-- Which methods of crates/russh-extra/src/server.rs are quiet: the requests, forwarding, the data and
-- the ends of channels.
use russh_extra.Base.{ℕ, refl, Text, Bool, true, false, arith}
use russh_extra.Core.Error.{Result, ok, err}
use russh_extra.Sftp.Handler.{SftpServerHandler}
use russh_extra.Server.Context.{EnvRequest, PtyParams, WindowChange}
use russh_extra.Server.Runtime.{ServerRuntime, ServerSession, RusshSession, channel_success}
use russh_extra.Server.Channels.{set_env}
use russh_extra.Server.Requests.{
  answer, shell_request, pty_request, keep_env, env_request, start_sftp, other_subsystem,
  subsystem_request, window_change_request, grant, agent_request, x11_request,
}
use russh_extra.Server.Quiet.{
  Quiet, IsQuiet, bind-IsQuiet, ret-IsQuiet, fail-IsQuiet, current-IsQuiet, modify-IsQuiet,
  call-IsQuiet, reply-IsQuiet, Option-IsQuiet,
}

module _ {S K C F R T : Type 0} (runtime : ServerRuntime S K C F) (session : RusshSession R T) where
  answer-IsQuiet :
      (channel : ℕ) (r : Result (Unit {0})) → IsQuiet {F = F} (answer runtime session channel r)
  unfolding answer
  answer-IsQuiet channel (ok _) = reply-IsQuiet session _
  answer-IsQuiet channel (err e) = reply-IsQuiet session _

  pub shell_request-IsQuiet : (channel : ℕ) → IsQuiet (shell_request runtime session channel)
  unfolding shell_request
  shell_request-IsQuiet channel = Option-IsQuiet _ (reply-IsQuiet session _) λ handler.
      bind-IsQuiet current-IsQuiet λ st. bind-IsQuiet (call-IsQuiet _) λ r. answer-IsQuiet channel r

  pub pty_request-IsQuiet :
      (channel : ℕ) (params : PtyParams) → IsQuiet (pty_request runtime session channel params)
  unfolding pty_request
  pty_request-IsQuiet channel params = Option-IsQuiet _ (reply-IsQuiet session _) λ handler.
      bind-IsQuiet current-IsQuiet λ st. bind-IsQuiet (call-IsQuiet _) λ r. answer-IsQuiet channel r

  set_env-Quiet :
      (channel : ℕ) (name value : Text) (st : ServerSession S F)
      → Quiet st (set_env channel name value st)
  unfolding set_env
  set_env-Quiet channel name value st = record { username = refl; open_sessions = omega arith }

  start_sftp-Quiet :
      (handler : SftpServerHandler S) (channel : ℕ) (st : ServerSession S F)
      → Quiet st (start_sftp handler channel st)
  unfolding start_sftp
  start_sftp-Quiet handler channel st = record { username = refl; open_sessions = omega arith }

  keep_env-IsQuiet :
      (channel : ℕ) (request : EnvRequest) (r : Result (Unit {0}))
      → IsQuiet (keep_env runtime session channel request r)
  unfolding keep_env
  keep_env-IsQuiet channel request (ok _) =
      bind-IsQuiet (modify-IsQuiet (set_env-Quiet channel request.name request.value))
        λ _. reply-IsQuiet session (channel_success channel)
  keep_env-IsQuiet channel request (err e) = reply-IsQuiet session _

  pub env_request-IsQuiet :
      (channel : ℕ) (request : EnvRequest) → IsQuiet (env_request runtime session channel request)
  unfolding env_request
  env_request-IsQuiet channel request =
      Option-IsQuiet _
        (bind-IsQuiet (modify-IsQuiet (set_env-Quiet channel request.name request.value))
          λ _. reply-IsQuiet session (channel_success channel))
        λ handler.
          bind-IsQuiet current-IsQuiet
            λ st. bind-IsQuiet (call-IsQuiet _) λ r. keep_env-IsQuiet channel request r

  pub other_subsystem-IsQuiet :
      (channel : ℕ) (name : Text) → IsQuiet (other_subsystem runtime session channel name)
  unfolding other_subsystem
  other_subsystem-IsQuiet channel name = Option-IsQuiet _ (reply-IsQuiet session _) λ handler.
      bind-IsQuiet current-IsQuiet λ st. bind-IsQuiet (call-IsQuiet _) λ r. answer-IsQuiet channel r

  pub subsystem_request-IsQuiet :
      (channel : ℕ) (name : Text) → IsQuiet (subsystem_request runtime session channel name)
  unfolding subsystem_request
  subsystem_request-IsQuiet channel name =
      Option-IsQuiet _ (other_subsystem-IsQuiet channel name) λ handler.
        bind-IsQuiet (modify-IsQuiet (start_sftp-Quiet handler channel))
          λ _. reply-IsQuiet session (channel_success channel)

  pub window_change_request-IsQuiet :
      (channel : ℕ) (change : WindowChange)
      → IsQuiet (window_change_request runtime session channel change)
  unfolding window_change_request
  window_change_request-IsQuiet channel change =
      Option-IsQuiet _ (reply-IsQuiet session _) λ handler.
        bind-IsQuiet current-IsQuiet
          λ st. bind-IsQuiet (call-IsQuiet _) λ r. reply-IsQuiet session _

  grant-IsQuiet :
      (channel : ℕ) (r : Result Bool) → IsQuiet {F = F} (grant runtime session channel r)
  unfolding grant
  grant-IsQuiet channel (ok true) = bind-IsQuiet (reply-IsQuiet session _) λ _. ret-IsQuiet true
  grant-IsQuiet channel (ok false) = bind-IsQuiet (reply-IsQuiet session _) λ _. ret-IsQuiet false
  grant-IsQuiet channel (err e) = bind-IsQuiet (reply-IsQuiet session _) λ _. fail-IsQuiet e

  pub agent_request-IsQuiet : (channel : ℕ) → IsQuiet (agent_request runtime session channel)
  unfolding agent_request
  agent_request-IsQuiet channel =
      Option-IsQuiet _ (bind-IsQuiet (reply-IsQuiet session _) λ _. ret-IsQuiet false) λ handler.
        bind-IsQuiet current-IsQuiet
          λ st. bind-IsQuiet (call-IsQuiet _) λ r. grant-IsQuiet channel r

  pub x11_request-IsQuiet :
      (channel : ℕ) (single : Bool) (protocol cookie : Text) (screen : ℕ)
      → IsQuiet (x11_request runtime session channel single protocol cookie screen)
  unfolding x11_request
  x11_request-IsQuiet channel single protocol cookie screen =
      Option-IsQuiet _ (reply-IsQuiet session _) λ handler. bind-IsQuiet current-IsQuiet λ st.
        Option-IsQuiet st.username (reply-IsQuiet session _) λ username.
          bind-IsQuiet (call-IsQuiet _)
            λ r. bind-IsQuiet (grant-IsQuiet channel r) λ _. ret-IsQuiet tt
