-- ===== src/Server/Channels.antt =====
-- crates/russh-extra/src/server.rs: the life of a session's channels, and the requests on a channel
-- but for exec.
use russh_extra.Base.{
  ℕ, ◌+◌, ◌-◌, Bytes, Text, Bool, true, false, Option, none, some, [], ◌∷◌, ◌++◌, ◌||◌, leb, not,
  is_some, unwrap_or, if◌then◌else◌,
}
use russh_extra.Base.Assoc.{insert, remove, lookup, contains_key}
use russh_extra.Core.Error.{Error}
use russh_extra.Sftp.Response as Response
use russh_extra.Sftp.Handler.{SftpServerHandler}
use russh_extra.Sftp.Server.Runtime.{
  SftpServerRuntime, Surroundings, is_sftp_channel, handle_channel_close,
}
use russh_extra.Sftp.Server.Dispatch.{handle_data}
use russh_extra.Server.Context.{Env}
use russh_extra.Server.Runtime.{
  ServerRuntime, ServerSession, RusshSession, send_data, done, Step, ◌>>=◌, current, modify,
  or_fail,
}

-- The environment of a channel, or the empty one: `entry(channel).or_default()`.
unfoldable pub env_of : {S F : Type 0} → ServerSession S F → ℕ → Env
env_of st channel = unwrap_or (lookup channel st.env_vars) []

unfoldable pub set_env : {S F : Type 0} → ℕ → Text → Text → ServerSession S F → ServerSession S F
set_env channel name value st = record st {
  env_vars = insert channel (Response.insert name value (env_of st channel)) st.env_vars;
}

-- `if let Some(sftp) = &mut self.sftp { sftp.handle_channel_close(channel) }`
unfoldable pub close_sftp :
    {S : Type 0}
    → ℕ
    → Option (SftpServerHandler S × SftpServerRuntime S)
    → Option (SftpServerHandler S × SftpServerRuntime S)
close_sftp channel none = none
close_sftp channel (some (handler, sftp)) = some (handler, handle_channel_close channel sftp)

unfoldable pub close_channel : {S F : Type 0} → ℕ → ServerSession S F → ServerSession S F
close_channel channel st = record st {
  open_sessions = st.open_sessions - 1;
  stdin_txs = remove channel st.stdin_txs;
  env_vars = remove channel st.env_vars;
  sftp = close_sftp channel st.sftp;
}

unfoldable pub end_stdin : {S F : Type 0} → ℕ → ServerSession S F → ServerSession S F
end_stdin channel st = record st { stdin_txs = remove channel st.stdin_txs }

-- `if let Some(tx) = self.stdin_txs.….get(&channel) { let _ = tx.send(…) }`
unfoldable pub send_stdin : {S F : Type 0} → ℕ → Bytes → ServerSession S F → ServerSession S F
send_stdin channel bytes st =
    if contains_key st.stdin_txs channel
    then record st { stdin = st.stdin ++ (channel, bytes) ∷ [] }
    else st

-- The SFTP runtime that serves the channel: `if let Some(sftp) && sftp.is_sftp_channel(channel)`.
unfoldable pub serving :
    {S F : Type 0} → ServerSession S F → ℕ → Option (SftpServerHandler S × SftpServerRuntime S)
serving st channel = elim st.sftp [
  | none ↦ none
  | some (handler, sftp) ↦ if is_sftp_channel sftp channel then some (handler, sftp) else none
]

module _ {R S F T : Type 0} where
  unfoldable pub channel_close : ℕ → Step R (ServerSession S F × T) (Unit {0})
  channel_close channel = modify (close_channel channel)

  unfoldable pub channel_eof : ℕ → Step R (ServerSession S F × T) (Unit {0})
  channel_eof channel = modify (end_stdin channel)

module _ {S K C F : Type 0} (runtime : ServerRuntime S K C F) where
  -- `self.username.is_none() || self.open_sessions >= max_sessions`
  unfoldable pub refuses_session : ServerSession S F → Bool
  refuses_session st = not (is_some st.username) || leb runtime.config.max_sessions st.open_sessions

module _ {S K C F R T : Type 0} (runtime : ServerRuntime S K C F) where
  unfoldable pub admit : Bool → Step R (ServerSession S F × T) Bool
  admit true w = (done false, w)
  admit false w = (done true, (record w.0 { open_sessions = w.0.open_sessions + 1 }, w.1))

  unfoldable pub channel_open_session : Step R (ServerSession S F × T) Bool
  channel_open_session = current >>= λ st. admit (refuses_session runtime st)

-- The SFTP runtime writes to `russh`'s session, and sees whether a write was taken.
abbrev pub sftp_surroundings :
    {R S T : Type 0} → RusshSession R T → (Error → Text) → SftpServerHandler S → Surroundings S T
sftp_surroundings session display handler = record {
  handler = handler;
  display = display;
  session_data =
      λ channel bytes t. let (e, t') = session (send_data channel bytes) t in (not (is_some e), t');
}

module _ {S F R T : Type 0} (session : RusshSession R T) (display : Error → Text) where
  -- The handler's state is the one that the callbacks share, before the call and after it.
  unfoldable pub sftp_data :
      SftpServerHandler S
      → SftpServerRuntime S
      → ℕ
      → Bytes
      → Step R (ServerSession S F × T) (Unit {0})
  sftp_data handler sftp channel bytes (st, t) =
      let (result, (sftp', t')) =
        handle_data (sftp_surroundings session display handler) channel bytes
          (record sftp { handler_state = st.app }, t) in
      or_fail result (record st { sftp = some (handler, sftp'); app = sftp'.handler_state }, t')

  unfoldable pub channel_data : ℕ → Bytes → Step R (ServerSession S F × T) (Unit {0})
  channel_data channel bytes (st, t) = elim (serving st channel) [
    | some (handler, sftp) ↦ sftp_data handler sftp channel bytes (st, t)
    | none ↦ (done tt, (send_stdin channel bytes st, t))
  ]
