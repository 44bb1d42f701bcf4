-- ===== src/Server/Event.antt =====
-- crates/russh-extra/src/server.rs: what `russh` calls on `HighLevelRusshHandler`, as data, and the
-- method that each call runs. The text of an error, which the SFTP runtime sends, is a parameter.
use russh_extra.Base.{
  ℕ, Bytes, Text, Bool, false, is_some, Option, none, List, [], ◌∷◌, if◌then◌else◌,
}
use russh_extra.Core.Error.{Error}
use russh_extra.Server.Context.{PtyParams, EnvRequest, WindowChange}
use russh_extra.Server.Runtime.{
  ServerRuntime, ServerSession, RusshSession, connected, Step, ◌>>=◌, ret,
}
use russh_extra.Server.Auth as Auth
use russh_extra.Server.Auth.{Auth}
use russh_extra.Server.Channels as Channels
use russh_extra.Server.Requests as Requests
use russh_extra.Server.Forwarding as Forwarding
use russh_extra.Server.Exec as Exec

pub data AuthEvent (K C : Type 0) : Type 0 where
  auth_none : Text → AuthEvent K C
  auth_password : Text → Text → AuthEvent K C
  auth_publickey_offered : Text → K → AuthEvent K C
  auth_publickey : Text → K → AuthEvent K C
  auth_openssh_certificate : Text → C → AuthEvent K C
  auth_keyboard_interactive : Text → Text → List Bytes → AuthEvent K C

-- A request on an open channel, which is to be answered with success or failure.
pub data Request : Type 0 where
  exec_request : ℕ → Bytes → Request
  shell_request : ℕ → Request
  pty_request : ℕ → PtyParams → Request
  env_request : ℕ → EnvRequest → Request
  subsystem_request : ℕ → Text → Request
  window_change_request : ℕ → WindowChange → Request
  agent_request : ℕ → Request
  x11_request : ℕ → Bool → Text → Text → ℕ → Request

-- A forwarding request, or a channel that the peer opens for forwarding.
pub data Forward : Type 0 where
  tcpip_forward : Text → ℕ → Forward
  cancel_tcpip_forward : Text → ℕ → Forward
  streamlocal_forward : Text → Forward
  cancel_streamlocal_forward : Text → Forward
  channel_open_direct_tcpip : ℕ → Text → ℕ → Text → ℕ → Forward
  channel_open_forwarded_tcpip : ℕ → Text → ℕ → Text → ℕ → Forward
  channel_open_direct_streamlocal : ℕ → Text → Forward
  channel_open_x11 : ℕ → Text → ℕ → Forward

pub data Event (K C : Type 0) : Type 0 where
  authenticate : AuthEvent K C → Event K C
  authentication_banner : Event K C
  channel_open_session : Event K C
  channel_close : ℕ → Event K C
  channel_eof : ℕ → Event K C
  channel_data : ℕ → Bytes → Event K C
  request : Request → Event K C
  forward : Forward → Event K C

pub data Outcome : Type 0 where
  auth : Auth → Outcome
  banner : Option Text → Outcome
  granted : Bool → Outcome
  finished : Unit {0} → Outcome

-- The user that an authentication method is called for.
abbrev pub user_of : {K C : Type 0} → AuthEvent K C → Text
user_of (auth_none user) = user
user_of (auth_password user _) = user
user_of (auth_publickey_offered user _) = user
user_of (auth_publickey user _) = user
user_of (auth_openssh_certificate user _) = user
user_of (auth_keyboard_interactive user _ _) = user

-- The channel that a request is about.
abbrev pub channel_of : Request → ℕ
channel_of (exec_request channel _) = channel
channel_of (shell_request channel) = channel
channel_of (pty_request channel _) = channel
channel_of (env_request channel _) = channel
channel_of (subsystem_request channel _) = channel
channel_of (window_change_request channel _) = channel
channel_of (agent_request channel) = channel
channel_of (x11_request channel _ _ _ _) = channel

module _ {S K C F : Type 0} (runtime : ServerRuntime S K C F) where
  -- The handler of a new connection; `app` is the state that the callbacks share.
  unfoldable pub new_client : ℕ → Option Text → S → ServerSession S F
  new_client session_id peer_addr app = record {
    session_id = session_id;
    peer_addr = peer_addr;
    username = none;
    open_sessions = 0;
    disconnect_notified = false;
    stdin_txs = [];
    stdin = [];
    env_vars = [];
    sftp = none;
    spawned =
        if is_some runtime.on_connect
        then connected (record { id = session_id; username = none }) ∷ []
        else [];
    app = app;
  }

module _ {S K C F R T : Type 0} (runtime : ServerRuntime S K C F) where
  unfoldable pub run_auth : AuthEvent K C → Step R (ServerSession S F × T) Auth
  run_auth (auth_none user) = Auth.auth_none runtime user
  run_auth (auth_password user password) = Auth.auth_password runtime user password
  run_auth (auth_publickey_offered user key) = Auth.auth_publickey_offered runtime user key
  run_auth (auth_publickey user key) = Auth.auth_publickey runtime user key
  run_auth (auth_openssh_certificate user certificate) =
      Auth.auth_openssh_certificate runtime user certificate
  run_auth (auth_keyboard_interactive user submethods responses) =
      Auth.auth_keyboard_interactive runtime user submethods responses

module _ {S K C F R T : Type 0} (runtime : ServerRuntime S K C F) (session : RusshSession R T) where
  unfoldable pub run_request : Request → Step R (ServerSession S F × T) Outcome
  run_request (exec_request channel command) =
      Exec.exec_request runtime session channel command >>= λ u. ret (finished u)
  run_request (shell_request channel) =
      Requests.shell_request runtime session channel >>= λ u. ret (finished u)
  run_request (pty_request channel params) =
      Requests.pty_request runtime session channel params >>= λ u. ret (finished u)
  run_request (env_request channel variable) =
      Requests.env_request runtime session channel variable >>= λ u. ret (finished u)
  run_request (subsystem_request channel name) =
      Requests.subsystem_request runtime session channel name >>= λ u. ret (finished u)
  run_request (window_change_request channel change) =
      Requests.window_change_request runtime session channel change >>= λ u. ret (finished u)
  run_request (agent_request channel) =
      Requests.agent_request runtime session channel >>= λ b. ret (granted b)
  run_request (x11_request channel single protocol cookie screen) =
      Requests.x11_request runtime session channel single protocol cookie screen >>= λ u.
      ret (finished u)

  unfoldable pub run_forward : Forward → Step R (ServerSession S F × T) Bool
  run_forward (tcpip_forward address port) = Forwarding.tcpip_forward runtime address port
  run_forward (cancel_tcpip_forward address port) =
      Forwarding.cancel_tcpip_forward runtime address port
  run_forward (streamlocal_forward path) = Forwarding.streamlocal_forward runtime path
  run_forward (cancel_streamlocal_forward path) = Forwarding.cancel_streamlocal_forward runtime path
  run_forward (channel_open_direct_tcpip channel host port origin origin_port) =
      Forwarding.channel_open_direct_tcpip runtime session channel host port origin origin_port
  run_forward (channel_open_forwarded_tcpip channel address port origin origin_port) =
      Forwarding.channel_open_forwarded_tcpip runtime session channel address port origin
        origin_port
  run_forward (channel_open_direct_streamlocal channel path) =
      Forwarding.channel_open_direct_streamlocal runtime session channel path
  run_forward (channel_open_x11 channel origin origin_port) =
      Forwarding.channel_open_x11 runtime session channel origin origin_port

  module _ (display : Error → Text) where
    unfoldable pub handle : Event K C → Step R (ServerSession S F × T) Outcome
    handle (authenticate e) = run_auth runtime e >>= λ a. ret (auth a)
    handle authentication_banner = Auth.authentication_banner runtime >>= λ b. ret (banner b)
    handle channel_open_session = Channels.channel_open_session runtime >>= λ b. ret (granted b)
    handle (channel_close channel) = Channels.channel_close channel >>= λ u. ret (finished u)
    handle (channel_eof channel) = Channels.channel_eof channel >>= λ u. ret (finished u)
    handle (channel_data channel bytes) =
        Channels.channel_data session display channel bytes >>= λ u. ret (finished u)
    handle (request r) = run_request r
    handle (forward f) = run_forward f >>= λ b. ret (granted b)
