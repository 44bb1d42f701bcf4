-- ===== src/Server/Context.antt =====
-- crates/russh-extra/src/server.rs: what the callbacks of a server are given. A channel id and a
-- session id are numbers, and a socket address is the text that it displays. The handle for shutting
-- the server down, which every context holds, is left out.
use russh_extra.Base.{ℕ, Bytes, Text, Bool, Option, List}
use russh_extra.Core.Error.{CommandExit}

pub record SessionContext : Type 0 where
  pub id : ℕ
  pub username : Option Text

pub record AuthContext : Type 0 where
  pub session_id : ℕ
  pub username : Text
  pub peer_addr : Option Text

pub record AuthDecision : Type 0 where
  pub accepted : Bool

pub record KeyboardInteractivePromptItem : Type 0 where
  pub prompt : Text
  pub echo : Bool

pub record KeyboardInteractivePrompt : Type 0 where
  pub name : Text
  pub instruction : Text
  pub prompts : List KeyboardInteractivePromptItem

pub data KeyboardInteractiveResponse : Type 0 where
  accept : KeyboardInteractiveResponse
  reject : KeyboardInteractiveResponse
  further_action : KeyboardInteractivePrompt → KeyboardInteractiveResponse

pub record KeyboardInteractiveContext : Type 0 where
  pub session : AuthContext
  pub submethods : Text
  pub responses : List Bytes

-- The environment of a channel, `HashMap<String, String>`.
abbrev pub Env : Type 0
Env = List (Text × Text)

pub record ExecContext : Type 0 where
  pub session_id : ℕ
  pub username : Text
  pub peer_addr : Option Text
  pub channel_id : ℕ
  pub command : Bytes
  pub env : Env

-- The queues to and from the handler are with the task that serves them.
pub record StreamingExecContext : Type 0 where
  pub session_id : ℕ
  pub username : Text
  pub peer_addr : Option Text
  pub channel_id : ℕ
  pub command : Bytes
  pub env : Env

pub record ExecResponse : Type 0 where
  pub accepted : Bool
  pub stdout : Bytes
  pub stderr : Bytes
  pub exit : CommandExit

pub record ShellContext : Type 0 where
  pub session : SessionContext
  pub channel : ℕ

pub record PtyParams : Type 0 where
  pub term : Text
  pub col_width : ℕ
  pub row_height : ℕ
  pub pix_width : ℕ
  pub pix_height : ℕ
  pub modes : List (ℕ × ℕ)

pub record PtyContext : Type 0 where
  pub session : SessionContext
  pub channel : ℕ

pub record SubsystemContext : Type 0 where
  pub session : SessionContext
  pub channel : ℕ
  pub name : Text

pub record EnvRequest : Type 0 where
  pub name : Text
  pub value : Text

pub record WindowChange : Type 0 where
  pub col_width : ℕ
  pub row_height : ℕ
  pub pix_width : ℕ
  pub pix_height : ℕ

pub record TcpipForwardContext : Type 0 where
  pub session_id : ℕ
  pub username : Text
  pub address : Text
  pub port : ℕ

pub record StreamLocalForwardContext : Type 0 where
  pub session_id : ℕ
  pub username : Text
  pub socket_path : Text

pub record DirectTcpipContext : Type 0 where
  pub session_id : ℕ
  pub username : Text
  pub host_to_connect : Text
  pub port_to_connect : ℕ
  pub originator_address : Text
  pub originator_port : ℕ

pub record ForwardedTcpipContext : Type 0 where
  pub session_id : ℕ
  pub username : Text
  pub connected_address : Text
  pub connected_port : ℕ
  pub originator_address : Text
  pub originator_port : ℕ

pub record DirectStreamLocalContext : Type 0 where
  pub session_id : ℕ
  pub username : Text
  pub socket_path : Text

pub record X11RequestContext : Type 0 where
  pub session_id : ℕ
  pub username : Text
  pub channel : ℕ
  pub single_connection : Bool
  pub auth_protocol : Text
  pub auth_cookie : Text
  pub screen_number : ℕ

pub record X11ChannelContext : Type 0 where
  pub session_id : ℕ
  pub username : Text
  pub originator_address : Text
  pub originator_port : ℕ

pub record AgentRequestContext : Type 0 where
  pub session_id : ℕ
  pub channel : ℕ
