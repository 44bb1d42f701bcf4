-- ===== src/Server/Handler.antt =====
-- crates/russh-extra/src/server.rs: `ServerHandler`, an application's methods on one state, and what
-- they do when it gives none.
use russh_extra.Base.{ℕ, Text, Bool, false, Option, none, []}
use russh_extra.Base.Text.{text}
use russh_extra.Core.Error.{Error, Result, ok, err, ChannelErrorKind, category_error, CommandExit}
use russh_extra.Sftp.Handler.{Call}
use russh_extra.Server.Context.{
  SessionContext, AuthContext, AuthDecision, KeyboardInteractiveContext,
  KeyboardInteractiveResponse, ExecContext, ExecResponse, ShellContext, PtyContext, PtyParams,
  SubsystemContext, EnvRequest, WindowChange, TcpipForwardContext, StreamLocalForwardContext,
  DirectTcpipContext, ForwardedTcpipContext, DirectStreamLocalContext, X11RequestContext,
  X11ChannelContext, AgentRequestContext,
}

-- `AuthDecision::reject`
unfoldable pub rejecting : AuthDecision
rejecting = record { accepted = false }

-- `ExecResponse::reject`
unfoldable pub rejected_exec : ExecResponse
rejected_exec = record { accepted = false; stdout = []; stderr = []; exit = CommandExit.missing }

-- `Err(Error::channel_kind(ChannelErrorKind::Request, …))`
unfoldable pub unsupported_request : Text → Result (Unit {0})
unfolding category_error
unsupported_request message = err (Error.channel (category_error ChannelErrorKind.request message))

-- `K`, `C` and `F` are as in the callbacks of a server.
pub record ServerHandler (S K C F : Type 0) : Type 0 where
  pub auth_password : AuthContext → Text → Call S AuthDecision
  pub auth_publickey : AuthContext → K → Call S AuthDecision
  pub auth_keyboard_interactive : KeyboardInteractiveContext → Call S KeyboardInteractiveResponse
  pub exec : ExecContext → Call S ExecResponse
  pub streaming_exec : F
  pub shell : ShellContext → Call S (Unit {0})
  pub pty : PtyContext → PtyParams → Call S (Unit {0})
  pub subsystem : SubsystemContext → Call S (Unit {0})
  pub env : ShellContext → EnvRequest → Call S (Unit {0})
  pub window_change : ShellContext → WindowChange → Call S (Unit {0})
  pub tcpip_forward : TcpipForwardContext → Call S Bool
  pub cancel_tcpip_forward : TcpipForwardContext → Call S Bool
  pub channel_open_direct_tcpip : DirectTcpipContext → Call S Bool
  pub channel_open_forwarded_tcpip : ForwardedTcpipContext → Call S Bool
  pub streamlocal_forward : StreamLocalForwardContext → Call S Bool
  pub cancel_streamlocal_forward : StreamLocalForwardContext → Call S Bool
  pub channel_open_direct_streamlocal : DirectStreamLocalContext → Call S Bool
  pub on_connect : SessionContext → Call S (Unit {0})
  pub on_disconnect : ℕ → Call S (Unit {0})
  pub on_auth_success : SessionContext → Call S (Unit {0})
  pub auth_openssh_certificate : AuthContext → C → Call S AuthDecision
  pub x11_request : X11RequestContext → Call S Bool
  pub channel_open_x11 : X11ChannelContext → Call S Bool
  pub agent_request : AgentRequestContext → Call S Bool
  pub authentication_banner : Call S (Option Text)

-- An application that gives no method of its own. `streaming_nothing` is the streaming handler that
-- returns at once.
unfoldable pub default_handler : {S K C F : Type 0} → F → ServerHandler S K C F
default_handler streaming_nothing = record {
  auth_password = λ ctx password s. (ok rejecting, s);
  auth_publickey = λ ctx key s. (ok rejecting, s);
  auth_keyboard_interactive = λ ctx s. (ok KeyboardInteractiveResponse.reject, s);
  exec = λ ctx s. (ok rejected_exec, s);
  streaming_exec = streaming_nothing;
  shell = λ ctx s. (unsupported_request (text "shell not supported"), s);
  pty = λ ctx params s. (unsupported_request (text "PTY not supported"), s);
  subsystem = λ ctx s. (unsupported_request (text "subsystem not supported"), s);
  env = λ ctx variable s. (ok tt, s);
  window_change = λ ctx change s. (ok tt, s);
  tcpip_forward = λ ctx s. (ok false, s);
  cancel_tcpip_forward = λ ctx s. (ok false, s);
  channel_open_direct_tcpip = λ ctx s. (ok false, s);
  channel_open_forwarded_tcpip = λ ctx s. (ok false, s);
  streamlocal_forward = λ ctx s. (ok false, s);
  cancel_streamlocal_forward = λ ctx s. (ok false, s);
  channel_open_direct_streamlocal = λ ctx s. (ok false, s);
  on_connect = λ ctx s. (ok tt, s);
  on_disconnect = λ id s. (ok tt, s);
  on_auth_success = λ ctx s. (ok tt, s);
  auth_openssh_certificate = λ ctx certificate s. (ok rejecting, s);
  x11_request = λ ctx s. (ok false, s);
  channel_open_x11 = λ ctx s. (ok false, s);
  agent_request = λ ctx s. (ok false, s);
  authentication_banner = λ s. (ok none, s);
}
