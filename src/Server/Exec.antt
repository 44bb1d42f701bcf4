-- ===== src/Server/Exec.antt =====
-- crates/russh-extra/src/server.rs: exec requests, buffered and streaming.
use russh_extra.Base.{ℕ, Bytes, Text, Option, none, some, List, [], ◌∷◌, ◌++◌, if◌then◌else◌}
use russh_extra.Base.Text.{text, bytes_eq, is_utf8}
use russh_extra.Base.Assoc.{insert}
use russh_extra.Core.Error.{
  Error, Result, ok, err, AuthenticationErrorKind, category_error, CommandExit, status, signal,
  missing,
}
use russh_extra.Server.Context.{ExecContext, ExecResponse, StreamingExecContext}
use russh_extra.Server.Runtime.{
  ServerRuntime, ServerSession, RusshSession, Reply, channel_success, channel_failure, send_data,
  extended_data, exit_status_request, exit_signal_request, eof, close, streaming, Step, ◌>>=◌, ◌>>◌,
  ret, fail, current, modify, call, reply,
}
use russh_extra.Server.Channels.{env_of}

-- `HashMap::get` of a table of commands.
unfoldable pub route_for : {V : Type 0} → Text → List (Text × V) → Option V
route_for command [] = none
route_for command ((name, v) ∷ routes) =
    if bytes_eq name command then some v else route_for command routes

-- `std::str::from_utf8(data).ok()`
unfoldable pub as_str : Bytes → Option Text
as_str bytes = if is_utf8 bytes then some bytes else none

-- `command.and_then(|c| routes.get(c)).or(fallback)`
unfoldable pub route_or : {V : Type 0} → Option Text → List (Text × V) → Option V → Option V
route_or none routes fallback = fallback
route_or (some command) routes fallback = elim (route_for command routes) [
  | some v ↦ some v
  | none ↦ fallback
]

unfoldable pub unauthenticated : Error
unfolding category_error
unauthenticated = Error.authentication (
    category_error AuthenticationErrorKind.unavailable
      (text "exec request received before authentication"))

module _ {S F : Type 0} (st : ServerSession S F) (channel : ℕ) (command : Bytes)
    (username : Text) where
  unfoldable pub exec_context : ExecContext
  exec_context = record {
    session_id = st.session_id;
    username = username;
    peer_addr = st.peer_addr;
    channel_id = channel;
    command = command;
    env = env_of st channel;
  }

  unfoldable pub streaming_context : StreamingExecContext
  streaming_context = record {
    session_id = st.session_id;
    username = username;
    peer_addr = st.peer_addr;
    channel_id = channel;
    command = command;
    env = env_of st channel;
  }

module _ {S F R T : Type 0} (session : RusshSession R T) where
  -- `if !bytes.is_empty() { session.…(channel, bytes)? }`
  unfoldable pub send_some : (Bytes → Reply) → Bytes → Step R (ServerSession S F × T) (Unit {0})
  send_some send [] = ret tt
  send_some send (b ∷ bs) = reply session (send (b ∷ bs))

  unfoldable pub send_exit : ℕ → CommandExit → Step R (ServerSession S F × T) (Unit {0})
  send_exit channel (status n) = reply session (exit_status_request channel n)
  send_exit channel (signal name core_dumped) =
      reply session (exit_signal_request channel name core_dumped)
  send_exit channel missing = ret tt

  unfoldable pub send_exec_response : ℕ → ExecResponse → Step R (ServerSession S F × T) (Unit {0})
  send_exec_response channel response =
      reply session (channel_success channel)
      >> send_some (send_data channel) response.stdout
      >> send_some (extended_data channel 1) response.stderr
      >> send_exit channel response.exit
      >> reply session (eof channel)
      >> reply session (close channel)

  -- The handler is started behind the answer to the request.
  unfoldable pub run_streaming_exec :
      ℕ → Bytes → Text → F → Step R (ServerSession S F × T) (Unit {0})
  run_streaming_exec channel command username handler =
      modify (λ st. record st { stdin_txs = insert channel tt st.stdin_txs })
      >> reply session (channel_success channel)
      >> modify λ st. record st {
        spawned =
            st.spawned ++ streaming (streaming_context st channel command username) handler ∷ [];
      }

  unfoldable pub respond_exec : ℕ → Result ExecResponse → Step R (ServerSession S F × T) (Unit {0})
  respond_exec channel (ok response) =
      if response.accepted
      then send_exec_response channel response
      else reply session (channel_failure channel)
  respond_exec channel (err e) = reply session (channel_failure channel) >> fail e

module _ {S K C F R T : Type 0} (runtime : ServerRuntime S K C F) (session : RusshSession R T) where
  unfoldable pub buffered_exec : ℕ → Bytes → Text → Step R (ServerSession S F × T) (Unit {0})
  buffered_exec channel command username =
      elim (route_or (as_str command) runtime.exec_routes runtime.fallback_exec) [
        | none ↦ reply session (channel_failure channel)
        | some handler ↦ current >>= λ st.
            call (handler (exec_context st channel command username)) >>= λ result.
            respond_exec session channel result
      ]

  -- The streaming routes and their fallback come first.
  unfoldable pub exec_as : ℕ → Bytes → Text → Step R (ServerSession S F × T) (Unit {0})
  exec_as channel command username =
      elim (route_or (as_str command) runtime.exec_routes_streaming
        runtime.fallback_streaming_exec) [
          | some handler ↦ run_streaming_exec session channel command username handler
          | none ↦ buffered_exec channel command username
        ]

  unfoldable pub exec_request : ℕ → Bytes → Step R (ServerSession S F × T) (Unit {0})
  exec_request channel command = current >>= λ st. elim st.username [
    | none ↦ fail unauthenticated
    | some username ↦ exec_as channel command username
  ]
