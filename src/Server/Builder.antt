-- ===== src/Server/Builder.antt =====
-- crates/russh-extra/src/server.rs: `ServerBuilder`. The setters of a single callback, each of which
-- stores it, are record updates where they are used.
use russh_extra.Base.{ℕ, ◌==◌, ◌++◌, Text, Bool, Option, none, some, List, [], ◌∷◌, if◌then◌else◌}
use russh_extra.Base.Text.{text, bytes_eq}
use russh_extra.Core.Config.{ServerConfig, default_server_config}
use russh_extra.Core.Error.{Error, Result, ok, err}
use russh_extra.Sftp.Handler.{Call, SftpServerHandler}
use russh_extra.Server.Context.{
  SessionContext, AuthContext, AuthDecision, KeyboardInteractiveContext,
  KeyboardInteractiveResponse, ExecContext, ExecResponse, ShellContext, PtyContext, PtyParams,
  SubsystemContext, EnvRequest, WindowChange, TcpipForwardContext, StreamLocalForwardContext,
  DirectTcpipContext, ForwardedTcpipContext, DirectStreamLocalContext, X11RequestContext,
  X11ChannelContext, AgentRequestContext,
}
use russh_extra.Server.Handler.{ServerHandler}
use russh_extra.Server.HostKey.{ServerHostKeySource, loaded, open_ssh_file, KeyFiles, load_all}
use russh_extra.Server.Runtime.{ServerRuntime}

-- `H` is `russh`'s private keys. `shutdown_grace` is in seconds.
pub record ServerBuilder (S K C F H : Type 0) : Type 0 where
  pub config : ServerConfig
  pub host_keys : List (ServerHostKeySource H)
  pub password_auth : Option (AuthContext → Text → Call S AuthDecision)
  pub public_key_auth : Option (AuthContext → K → Call S AuthDecision)
  pub keyboard_interactive_auth :
      Option (KeyboardInteractiveContext → Call S KeyboardInteractiveResponse)
  pub exec_routes : List (Text × (ExecContext → Call S ExecResponse))
  pub fallback_exec : Option (ExecContext → Call S ExecResponse)
  pub exec_routes_streaming : List (Text × F)
  pub fallback_streaming_exec : Option F
  pub shell_handler : Option (ShellContext → Call S (Unit {0}))
  pub pty_handler : Option (PtyContext → PtyParams → Call S (Unit {0}))
  pub subsystem_handler : Option (SubsystemContext → Call S (Unit {0}))
  pub env_handler : Option (ShellContext → EnvRequest → Call S (Unit {0}))
  pub window_change_handler : Option (ShellContext → WindowChange → Call S (Unit {0}))
  pub tcpip_forward_handler : Option (TcpipForwardContext → Call S Bool)
  pub cancel_tcpip_forward_handler : Option (TcpipForwardContext → Call S Bool)
  pub direct_tcpip_handler : Option (DirectTcpipContext → Call S Bool)
  pub forwarded_tcpip_handler : Option (ForwardedTcpipContext → Call S Bool)
  pub streamlocal_forward_handler : Option (StreamLocalForwardContext → Call S Bool)
  pub cancel_streamlocal_forward_handler : Option (StreamLocalForwardContext → Call S Bool)
  pub direct_streamlocal_handler : Option (DirectStreamLocalContext → Call S Bool)
  pub on_connect : Option (SessionContext → Call S (Unit {0}))
  pub on_disconnect : Option (ℕ → Call S (Unit {0}))
  pub on_auth_success : Option (SessionContext → Call S (Unit {0}))
  pub cert_auth : Option (AuthContext → C → Call S AuthDecision)
  pub x11_request_handler : Option (X11RequestContext → Call S Bool)
  pub x11_channel_handler : Option (X11ChannelContext → Call S Bool)
  pub agent_request_handler : Option (AgentRequestContext → Call S Bool)
  pub auth_banner : Option (Call S (Option Text))
  pub shutdown_grace : ℕ
  pub sftp_handler : Option (SftpServerHandler S)

-- The host keys that `build` loaded stand beside the callbacks.
pub record Server (S K C F H : Type 0) : Type 0 where
  pub host_keys : List H
  pub shutdown_grace : ℕ
  pub runtime : ServerRuntime S K C F

-- `HashMap::insert` of a table of commands.
unfoldable pub add_route : {V : Type 0} → Text → V → List (Text × V) → List (Text × V)
add_route command v [] = (command, v) ∷ []
add_route command v ((name, old) ∷ routes) =
    let rest = add_route command v routes in
    if bytes_eq name command then (command, v) ∷ routes else (name, old) ∷ rest

module _ {S K C F H : Type 0} where
  -- `ServerBuilder::default`
  unfoldable pub builder : ServerBuilder S K C F H
  builder = record {
    config = default_server_config;
    host_keys = [];
    password_auth = none;
    public_key_auth = none;
    keyboard_interactive_auth = none;
    exec_routes = [];
    fallback_exec = none;
    exec_routes_streaming = [];
    fallback_streaming_exec = none;
    shell_handler = none;
    pty_handler = none;
    subsystem_handler = none;
    env_handler = none;
    window_change_handler = none;
    tcpip_forward_handler = none;
    cancel_tcpip_forward_handler = none;
    direct_tcpip_handler = none;
    forwarded_tcpip_handler = none;
    streamlocal_forward_handler = none;
    cancel_streamlocal_forward_handler = none;
    direct_streamlocal_handler = none;
    on_connect = none;
    on_disconnect = none;
    on_auth_success = none;
    cert_auth = none;
    x11_request_handler = none;
    x11_channel_handler = none;
    agent_request_handler = none;
    auth_banner = none;
    shutdown_grace = 30;
    sftp_handler = none;
  }

  unfoldable pub max_sessions : ℕ → ServerBuilder S K C F H → ServerBuilder S K C F H
  max_sessions n b = record b { config = record b.config { max_sessions = n } }

  unfoldable pub host_key : H → ServerBuilder S K C F H → ServerBuilder S K C F H
  host_key key b = record b { host_keys = b.host_keys ++ loaded key ∷ [] }

  unfoldable pub host_key_file : Text → ServerBuilder S K C F H → ServerBuilder S K C F H
  host_key_file path b = record b { host_keys = b.host_keys ++ open_ssh_file path ∷ [] }

  unfoldable pub exec :
      Text → (ExecContext → Call S ExecResponse) → ServerBuilder S K C F H → ServerBuilder S K C F H
  exec command handler b = record b { exec_routes = add_route command handler b.exec_routes }

  unfoldable pub streaming_exec : Text → F → ServerBuilder S K C F H → ServerBuilder S K C F H
  streaming_exec command handler b = record b {
    exec_routes_streaming = add_route command handler b.exec_routes_streaming;
  }

  unfoldable pub handler : ServerHandler S K C F → ServerBuilder S K C F H → ServerBuilder S K C F H
  handler methods b = record b {
    password_auth = some methods.auth_password;
    public_key_auth = some methods.auth_publickey;
    keyboard_interactive_auth = some methods.auth_keyboard_interactive;
    fallback_exec = some methods.exec;
    fallback_streaming_exec = some methods.streaming_exec;
    shell_handler = some methods.shell;
    pty_handler = some methods.pty;
    subsystem_handler = some methods.subsystem;
    env_handler = some methods.env;
    window_change_handler = some methods.window_change;
    tcpip_forward_handler = some methods.tcpip_forward;
    cancel_tcpip_forward_handler = some methods.cancel_tcpip_forward;
    direct_tcpip_handler = some methods.channel_open_direct_tcpip;
    forwarded_tcpip_handler = some methods.channel_open_forwarded_tcpip;
    streamlocal_forward_handler = some methods.streamlocal_forward;
    cancel_streamlocal_forward_handler = some methods.cancel_streamlocal_forward;
    direct_streamlocal_handler = some methods.channel_open_direct_streamlocal;
    on_connect = some methods.on_connect;
    on_disconnect = some methods.on_disconnect;
    on_auth_success = some methods.on_auth_success;
    cert_auth = some methods.auth_openssh_certificate;
    x11_request_handler = some methods.x11_request;
    x11_channel_handler = some methods.channel_open_x11;
    agent_request_handler = some methods.agent_request;
    auth_banner = some methods.authentication_banner;
  }

  -- The fields that `ServerBuilder::build` moves into a `ServerRuntime`.
  unfoldable pub into_runtime : ServerBuilder S K C F H → ServerRuntime S K C F
  into_runtime b = record {
    config = b.config;
    password_auth = b.password_auth;
    public_key_auth = b.public_key_auth;
    keyboard_interactive_auth = b.keyboard_interactive_auth;
    exec_routes = b.exec_routes;
    fallback_exec = b.fallback_exec;
    exec_routes_streaming = b.exec_routes_streaming;
    fallback_streaming_exec = b.fallback_streaming_exec;
    shell_handler = b.shell_handler;
    pty_handler = b.pty_handler;
    subsystem_handler = b.subsystem_handler;
    env_handler = b.env_handler;
    window_change_handler = b.window_change_handler;
    tcpip_forward_handler = b.tcpip_forward_handler;
    cancel_tcpip_forward_handler = b.cancel_tcpip_forward_handler;
    direct_tcpip_handler = b.direct_tcpip_handler;
    forwarded_tcpip_handler = b.forwarded_tcpip_handler;
    streamlocal_forward_handler = b.streamlocal_forward_handler;
    cancel_streamlocal_forward_handler = b.cancel_streamlocal_forward_handler;
    direct_streamlocal_handler = b.direct_streamlocal_handler;
    on_connect = b.on_connect;
    on_disconnect = b.on_disconnect;
    on_auth_success = b.on_auth_success;
    cert_auth = b.cert_auth;
    x11_request_handler = b.x11_request_handler;
    x11_channel_handler = b.x11_channel_handler;
    agent_request_handler = b.agent_request_handler;
    auth_banner = b.auth_banner;
    sftp_handler = b.sftp_handler;
  }

  unfoldable pub with_host_keys : ServerBuilder S K C F H → List H → Result (Server S K C F H)
  with_host_keys b [] = err (Error.invalid_config (text "server requires at least one host key"))
  with_host_keys b (key ∷ keys) = ok (record {
    host_keys = key ∷ keys;
    shutdown_grace = b.shutdown_grace;
    runtime = into_runtime b;
  })

  unfoldable pub build : KeyFiles H → ServerBuilder S K C F H → Result (Server S K C F H)
  build files b =
      if b.config.max_sessions == 0
      then err (Error.invalid_config (text "server max_sessions must be greater than zero"))
      else elim (load_all files b.host_keys) [ err e ↦ err e | ok keys ↦ with_host_keys b keys ]
