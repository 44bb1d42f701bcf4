-- ===== src/Server/Requests.antt =====
-- crates/russh-extra/src/server.rs: the requests on a channel of a session, but for exec.
use russh_extra.Base.{ℕ, Text, Bool, true, false, Option, none, some, if◌then◌else◌}
use russh_extra.Base.Text.{text, bytes_eq}
use russh_extra.Core.Error.{Result, ok, err}
use russh_extra.Sftp.Handler.{SftpServerHandler}
use russh_extra.Sftp.Server.Runtime.{new_runtime, register_channel}
use russh_extra.Server.Context.{
  ShellContext, PtyParams, EnvRequest, WindowChange, X11RequestContext,
}
use russh_extra.Server.Runtime.{
  ServerRuntime, ServerSession, RusshSession, channel_success, channel_failure, Step, ◌>>=◌, ◌>>◌,
  ret, fail, current, modify, call, reply,
}
use russh_extra.Server.Auth.{session_context}
use russh_extra.Server.Channels.{set_env}

unfoldable pub shell_context : {S F : Type 0} → ServerSession S F → ℕ → ShellContext
shell_context st channel = record { session = session_context st; channel = channel }

-- `SftpServerRuntime::new(handler)` with the channel, in place of the runtime that was there.
unfoldable pub start_sftp :
    {S F : Type 0} → SftpServerHandler S → ℕ → ServerSession S F → ServerSession S F
start_sftp handler channel st = record st {
  sftp = some (handler, register_channel channel (new_runtime st.app));
}

module _ {S K C F R T : Type 0} (runtime : ServerRuntime S K C F) (session : RusshSession R T) where
  -- `Ok(()) => channel_success, Err(_) => channel_failure`
  unfoldable pub answer : ℕ → Result (Unit {0}) → Step R (ServerSession S F × T) (Unit {0})
  answer channel (ok _) = reply session (channel_success channel)
  answer channel (err e) = reply session (channel_failure channel)

  unfoldable pub shell_request : ℕ → Step R (ServerSession S F × T) (Unit {0})
  shell_request channel = elim runtime.shell_handler [
    | none ↦ reply session (channel_failure channel)
    | some handler ↦ current >>= λ st.
        call (handler (shell_context st channel)) >>= λ result. answer channel result
  ]

  unfoldable pub pty_request : ℕ → PtyParams → Step R (ServerSession S F × T) (Unit {0})
  pty_request channel params = elim runtime.pty_handler [
    | none ↦ reply session (channel_failure channel)
    | some handler ↦ current >>= λ st.
        call (handler (record { session = session_context st; channel = channel }) params)
        >>= λ result. answer channel result
  ]

  unfoldable pub keep_env :
      ℕ → EnvRequest → Result (Unit {0}) → Step R (ServerSession S F × T) (Unit {0})
  keep_env channel request (ok _) =
      modify (set_env channel request.name request.value) >> reply session (channel_success channel)
  keep_env channel request (err e) = reply session (channel_failure channel)

  unfoldable pub env_request : ℕ → EnvRequest → Step R (ServerSession S F × T) (Unit {0})
  env_request channel request = elim runtime.env_handler [
    | none ↦
        modify (set_env channel request.name request.value)
        >> reply session (channel_success channel)
    | some handler ↦ current >>= λ st.
        call (handler (shell_context st channel) request) >>= λ result.
        keep_env channel request result
  ]

  -- Past the SFTP subsystem.
  unfoldable pub other_subsystem : ℕ → Text → Step R (ServerSession S F × T) (Unit {0})
  other_subsystem channel name = elim runtime.subsystem_handler [
    | none ↦ reply session (channel_failure channel)
    | some handler ↦ current >>= λ st.
        call (handler (record { session = session_context st; channel = channel; name = name }))
        >>= λ result. answer channel result
  ]

  -- `name == "sftp" && let Some(handler) = self.runtime.sftp_handler.clone()`
  unfoldable pub sftp_handler_for : Text → Option (SftpServerHandler S)
  sftp_handler_for name = if bytes_eq name (text "sftp") then runtime.sftp_handler else none

  unfoldable pub subsystem_request : ℕ → Text → Step R (ServerSession S F × T) (Unit {0})
  subsystem_request channel name = elim (sftp_handler_for name) [
    | some handler ↦ modify (start_sftp handler channel) >> reply session (channel_success channel)
    | none ↦ other_subsystem channel name
  ]

  unfoldable pub window_change_request :
      ℕ → WindowChange → Step R (ServerSession S F × T) (Unit {0})
  window_change_request channel change = elim runtime.window_change_handler [
    | none ↦ reply session (channel_success channel)
    | some handler ↦ current >>= λ st.
        call (handler (shell_context st channel) change) >>= λ result.
        reply session (channel_success channel)
  ]

  -- `Ok(granted)` is answered with success or failure, and an error with failure before it is returned.
  unfoldable pub grant : ℕ → Result Bool → Step R (ServerSession S F × T) Bool
  grant channel (ok true) = reply session (channel_success channel) >> ret true
  grant channel (ok false) = reply session (channel_failure channel) >> ret false
  grant channel (err e) = reply session (channel_failure channel) >> fail e

  unfoldable pub agent_request : ℕ → Step R (ServerSession S F × T) Bool
  agent_request channel = elim runtime.agent_request_handler [
    | none ↦ reply session (channel_failure channel) >> ret false
    | some handler ↦ current >>= λ st.
        call (handler (record { session_id = st.session_id; channel = channel })) >>= λ result.
        grant channel result
  ]

  unfoldable pub x11_context :
      ServerSession S F → ℕ → Text → Bool → Text → Text → ℕ → X11RequestContext
  x11_context st channel username single_connection auth_protocol auth_cookie screen_number =
      record {
        session_id = st.session_id;
        username = username;
        channel = channel;
        single_connection = single_connection;
        auth_protocol = auth_protocol;
        auth_cookie = auth_cookie;
        screen_number = screen_number;
      }

  unfoldable pub x11_request :
      ℕ → Bool → Text → Text → ℕ → Step R (ServerSession S F × T) (Unit {0})
  x11_request channel single_connection auth_protocol auth_cookie screen_number =
      elim runtime.x11_request_handler [
        | none ↦ reply session (channel_failure channel)
        | some handler ↦ current >>= λ st. elim st.username [
          | none ↦ reply session (channel_failure channel)
          | some username ↦
              call (
                handler (
                  x11_context st channel username single_connection auth_protocol auth_cookie
                    screen_number))
              >>= λ result. grant channel result >>= λ _. ret tt
        ]
      ]
