-- ===== src/Server/Runtime.antt =====
-- crates/russh-extra/src/server.rs: the callbacks of a server, the state of one session, and the steps
-- that its methods are made of.
use russh_extra.Base.{ℕ, Bytes, Text, Bool, Option, none, some, List}
use russh_extra.Core.Config.{ServerConfig}
use russh_extra.Core.Error.{Error, Result, ok, err}
use russh_extra.Sftp.Handler.{Call, SftpServerHandler}
use russh_extra.Sftp.Server.Runtime.{SftpServerRuntime}
use russh_extra.Server.Context.{
  SessionContext, AuthContext, AuthDecision, KeyboardInteractiveContext,
  KeyboardInteractiveResponse, Env, ExecContext, ExecResponse, StreamingExecContext, ShellContext,
  PtyContext, PtyParams, SubsystemContext, EnvRequest, WindowChange, TcpipForwardContext,
  StreamLocalForwardContext, DirectTcpipContext, ForwardedTcpipContext, DirectStreamLocalContext,
  X11RequestContext, X11ChannelContext, AgentRequestContext,
}

-- A callback with argument `C`, on an application with state `S`.
abbrev pub Callback : Type 0 → Type 0 → Type 0 → Type 0
Callback S C A = Option (C → Call S A)

-- `K` and `C` are a library's public keys and certificates; `F` is a streaming handler, which is only
-- started here.
pub record ServerRuntime (S K C F : Type 0) : Type 0 where
  pub config : ServerConfig
  pub password_auth : Option (AuthContext → Text → Call S AuthDecision)
  pub public_key_auth : Option (AuthContext → K → Call S AuthDecision)
  pub keyboard_interactive_auth : Callback S KeyboardInteractiveContext KeyboardInteractiveResponse
  pub exec_routes : List (Text × (ExecContext → Call S ExecResponse))
  pub fallback_exec : Callback S ExecContext ExecResponse
  pub exec_routes_streaming : List (Text × F)
  pub fallback_streaming_exec : Option F
  pub shell_handler : Callback S ShellContext (Unit {0})
  pub pty_handler : Option (PtyContext → PtyParams → Call S (Unit {0}))
  pub subsystem_handler : Callback S SubsystemContext (Unit {0})
  pub env_handler : Option (ShellContext → EnvRequest → Call S (Unit {0}))
  pub window_change_handler : Option (ShellContext → WindowChange → Call S (Unit {0}))
  pub tcpip_forward_handler : Callback S TcpipForwardContext Bool
  pub cancel_tcpip_forward_handler : Callback S TcpipForwardContext Bool
  pub direct_tcpip_handler : Callback S DirectTcpipContext Bool
  pub forwarded_tcpip_handler : Callback S ForwardedTcpipContext Bool
  pub streamlocal_forward_handler : Callback S StreamLocalForwardContext Bool
  pub cancel_streamlocal_forward_handler : Callback S StreamLocalForwardContext Bool
  pub direct_streamlocal_handler : Callback S DirectStreamLocalContext Bool
  pub on_connect : Callback S SessionContext (Unit {0})
  pub on_disconnect : Callback S ℕ (Unit {0})
  pub on_auth_success : Callback S SessionContext (Unit {0})
  pub cert_auth : Option (AuthContext → C → Call S AuthDecision)
  pub x11_request_handler : Callback S X11RequestContext Bool
  pub x11_channel_handler : Callback S X11ChannelContext Bool
  pub agent_request_handler : Callback S AgentRequestContext Bool
  pub auth_banner : Option (Call S (Option Text))
  pub sftp_handler : Option (SftpServerHandler S)

-- What is started with `tokio::spawn`, to run beside the session.
pub data Spawned (F : Type 0) : Type 0 where
  connected : SessionContext → Spawned F
  auth_success : SessionContext → Spawned F
  disconnected : ℕ → Spawned F
  streaming : StreamingExecContext → F → Spawned F

-- `HighLevelRusshHandler`. `app` is the state that the callbacks share. A key of `stdin_txs` is a
-- channel whose handler still reads; `stdin` is what was sent to the handlers, oldest first. An SFTP
-- runtime stands beside the handler that it holds in the source.
pub record ServerSession (S F : Type 0) : Type 0 where
  pub session_id : ℕ
  pub peer_addr : Option Text
  pub username : Option Text
  pub open_sessions : ℕ
  pub disconnect_notified : Bool
  pub stdin_txs : List (ℕ × Unit {0})
  pub stdin : List (ℕ × Bytes)
  pub env_vars : List (ℕ × Env)
  pub sftp : Option (SftpServerHandler S × SftpServerRuntime S)
  pub spawned : List (Spawned F)
  pub app : S

-- What a method asks of `russh`'s session, or of the channel that a peer wants to open.
pub data Reply : Type 0 where
  channel_success : ℕ → Reply
  channel_failure : ℕ → Reply
  send_data : ℕ → Bytes → Reply
  extended_data : ℕ → ℕ → Bytes → Reply
  exit_status_request : ℕ → ℕ → Reply
  exit_signal_request : ℕ → Text → Bool → Reply
  eof : ℕ → Reply
  close : ℕ → Reply

-- `ServerRuntimeError`, with `R` for `russh`'s error.
pub data ServerRuntimeError (R : Type 0) : Type 0 where
  russh : R → ServerRuntimeError R
  high_level : Error → ServerRuntimeError R

pub data Handled (R A : Type 0) : Type 0 where
  done : A → Handled R A
  failed : ServerRuntimeError R → Handled R A

-- `russh`'s session with state `T`: a call that fails returns the error.
abbrev pub RusshSession : Type 0 → Type 0 → Type 0
RusshSession R T = Reply → T → Option R × T

-- A method with result `A`, which changes a state `W`.
abbrev pub Step : Type 0 → Type 0 → Type 0 → Type 0
Step R W A = W → Handled R A × W

-- The rest of a method, which an error skips.
abbrev pub proceed : {R W A B : Type 0} → Handled R A × W → (A → Step R W B) → Handled R B × W
proceed (done a, w) k = k a w
proceed (failed e, w) k = (failed e, w)

infixl 5 ◌>>=◌ ◌>>◌
abbrev pub ◌>>=◌ : {R W A B : Type 0} → Step R W A → (A → Step R W B) → Step R W B
◌>>=◌ m k w = proceed (m w) k

abbrev pub ◌>>◌ : {R W B : Type 0} → Step R W (Unit {0}) → Step R W B → Step R W B
m >> k = m >>= λ _. k

abbrev pub ret : {R W A : Type 0} → A → Step R W A
ret a w = (done a, w)

abbrev pub fail : {R W A : Type 0} → Error → Step R W A
fail e w = (failed (high_level e), w)

abbrev pub current : {R S F T : Type 0} → Step R (ServerSession S F × T) (ServerSession S F)
current w = (done w.0, w)

abbrev pub modify :
    {R S F T : Type 0}
    → (ServerSession S F → ServerSession S F)
    → Step R (ServerSession S F × T) (Unit {0})
modify f w = (done tt, (f w.0, w.1))

-- `callback(ctx).await`, whose result the method looks at.
unfoldable pub call : {R S F T A : Type 0} → Call S A → Step R (ServerSession S F × T) (Result A)
call c (st, t) = (done (c st.app).0, (record st { app = (c st.app).1 }, t))

unfoldable pub or_fail : {R W A : Type 0} → Result A → Step R W A
or_fail (ok a) w = (done a, w)
or_fail (err e) w = (failed (high_level e), w)

-- `callback(ctx).await.map_err(ServerRuntimeError::HighLevel)?`
abbrev pub call_or_fail : {R S F T A : Type 0} → Call S A → Step R (ServerSession S F × T) A
call_or_fail c = call c >>= or_fail

unfoldable pub sent : {R W : Type 0} → Option R → Step R W (Unit {0})
sent none w = (done tt, w)
sent (some e) w = (failed (russh e), w)

-- `session.…(…)?`
unfoldable pub reply :
    {R S F T : Type 0} → RusshSession R T → Reply → Step R (ServerSession S F × T) (Unit {0})
unfolding sent
reply session r (st, t) = sent (session r t).0 (st, (session r t).1)

-- `let _ = channel.close().await`
unfoldable pub attempt :
    {R S F T : Type 0} → RusshSession R T → Reply → Step R (ServerSession S F × T) (Unit {0})
attempt session r (st, t) = (done tt, (st, (session r t).1))
