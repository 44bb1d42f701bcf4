-- ===== src/Server/CalmExec.antt =====
-- Which methods of crates/russh-extra/src/server.rs are quiet: exec, data and forwarding.
use russh_extra.Base.{ℕ, refl, Bytes, Text, Bool, true, false, Option, none, some, [], ◌∷◌, arith}
use russh_extra.Core.Error.{Error, Result, ok, err, CommandExit, status, signal, missing}
use russh_extra.Sftp.Handler.{SftpServerHandler}
use russh_extra.Sftp.Server.Runtime.{SftpServerRuntime}
use russh_extra.Server.Context.{ExecResponse}
use russh_extra.Server.Runtime.{
  ServerRuntime, ServerSession, RusshSession, Reply, Callback, Handled, done, or_fail,
  channel_success, close, eof, channel_failure, send_data, extended_data,
}
use russh_extra.Server.Channels.{
  close_channel, end_stdin, send_stdin, serving, sftp_data, channel_data, channel_close,
  channel_eof,
}
use russh_extra.Server.Exec.{
  send_some, send_exit, send_exec_response, run_streaming_exec, respond_exec, buffered_exec,
  exec_as, exec_request,
}
use russh_extra.Server.Forwarding.{ask, settle, ask_open}
use russh_extra.Server.Quiet.{
  Quiet, IsQuiet, bind-IsQuiet, ret-IsQuiet, fail-IsQuiet, current-IsQuiet, modify-IsQuiet,
  call-IsQuiet, or_fail-IsQuiet, reply-IsQuiet, attempt-IsQuiet, Option-IsQuiet, if-IsQuiet,
}

module _ {S F R T : Type 0} (session : RusshSession R T) where
  send_some-IsQuiet :
      (send : Bytes → Reply) (bytes : Bytes)
      → IsQuiet {S = S} {F = F} (send_some session send bytes)
  unfolding send_some
  send_some-IsQuiet send [] = ret-IsQuiet tt
  send_some-IsQuiet send (b ∷ bs) = reply-IsQuiet session _

  send_exit-IsQuiet :
      (channel : ℕ) (exit : CommandExit) → IsQuiet {S = S} {F = F} (send_exit session channel exit)
  unfolding send_exit
  send_exit-IsQuiet channel (status n) = reply-IsQuiet session _
  send_exit-IsQuiet channel (signal name core_dumped) = reply-IsQuiet session _
  send_exit-IsQuiet channel missing = ret-IsQuiet tt

  send_exec_response-IsQuiet :
      (channel : ℕ) (response : ExecResponse)
      → IsQuiet {S = S} {F = F} (send_exec_response session channel response)
  unfolding send_exec_response
  send_exec_response-IsQuiet channel response =
      bind-IsQuiet
        (bind-IsQuiet
          (bind-IsQuiet
            (bind-IsQuiet
              (bind-IsQuiet (reply-IsQuiet session (channel_success channel))
                λ _. send_some-IsQuiet (send_data channel) response.stdout)
              λ _. send_some-IsQuiet (extended_data channel 1) response.stderr)
            λ _. send_exit-IsQuiet channel response.exit)
          λ _. reply-IsQuiet session (eof channel))
        λ _. reply-IsQuiet session (close channel)

  run_streaming_exec-IsQuiet :
      (channel : ℕ) (command : Bytes) (username : Text) (handler : F)
      → IsQuiet {S = S} (run_streaming_exec session channel command username handler)
  unfolding run_streaming_exec
  run_streaming_exec-IsQuiet channel command username handler =
      bind-IsQuiet
        (bind-IsQuiet (modify-IsQuiet λ st. record { username = refl; open_sessions = omega arith })
          λ _. reply-IsQuiet session (channel_success channel))
        λ _. modify-IsQuiet λ st. record { username = refl; open_sessions = omega arith }

  respond_exec-IsQuiet :
      (channel : ℕ) (r : Result ExecResponse)
      → IsQuiet {S = S} {F = F} (respond_exec session channel r)
  unfolding respond_exec
  respond_exec-IsQuiet channel (ok response) =
      if-IsQuiet response.accepted (send_exec_response-IsQuiet channel response)
        (reply-IsQuiet session _)
  respond_exec-IsQuiet channel (err e) =
      bind-IsQuiet (reply-IsQuiet session (channel_failure channel)) λ _. fail-IsQuiet e

module _ {S K C F R T : Type 0} (runtime : ServerRuntime S K C F) (session : RusshSession R T) where
  buffered_exec-IsQuiet :
      (channel : ℕ) (command : Bytes) (username : Text)
      → IsQuiet (buffered_exec runtime session channel command username)
  unfolding buffered_exec
  buffered_exec-IsQuiet channel command username =
      Option-IsQuiet _ (reply-IsQuiet session (channel_failure channel)) λ handler.
        bind-IsQuiet current-IsQuiet
          λ st. bind-IsQuiet (call-IsQuiet _) λ r. respond_exec-IsQuiet session channel r

  exec_as-IsQuiet :
      (channel : ℕ) (command : Bytes) (username : Text)
      → IsQuiet (exec_as runtime session channel command username)
  unfolding exec_as
  exec_as-IsQuiet channel command username =
      Option-IsQuiet _ (buffered_exec-IsQuiet channel command username)
        λ handler. run_streaming_exec-IsQuiet session channel command username handler

  pub exec_request-IsQuiet :
      (channel : ℕ) (command : Bytes) → IsQuiet (exec_request runtime session channel command)
  unfolding exec_request
  exec_request-IsQuiet channel command = bind-IsQuiet current-IsQuiet λ st.
      Option-IsQuiet st.username (fail-IsQuiet _)
        λ username. exec_as-IsQuiet channel command username

module _ {S F R T : Type 0} where
  pub channel_close-IsQuiet :
      (channel : ℕ) → IsQuiet {R = R} {S = S} {F = F} {T = T} (channel_close channel)
  unfolding channel_close close_channel
  channel_close-IsQuiet channel =
      modify-IsQuiet λ st. record { username = refl; open_sessions = omega arith }

  pub channel_eof-IsQuiet :
      (channel : ℕ) → IsQuiet {R = R} {S = S} {F = F} {T = T} (channel_eof channel)
  unfolding channel_eof end_stdin
  channel_eof-IsQuiet channel =
      modify-IsQuiet λ st. record { username = refl; open_sessions = omega arith }

module _ {S F : Type 0} where
  send_stdin-Quiet :
      (channel : ℕ) (bytes : Bytes) (st : ServerSession S F)
      → Quiet st (send_stdin channel bytes st)
  unfolding send_stdin
  send_stdin-Quiet channel bytes st = record {
    username = ground arith;
    open_sessions = ground arith;
  }

module _ {S F R T : Type 0} (session : RusshSession R T) (display : Error → Text) where
  or_fail-Quiet :
      {A : Type 0} (r : Result A) (st : ServerSession S F) (w : ServerSession S F × T)
      → Quiet st w.0
      → Quiet st (or_fail {R = R} r w).1.0
  unfolding or_fail
  or_fail-Quiet (ok a) st w q = q
  or_fail-Quiet (err e) st w q = q

  sftp_data-IsQuiet :
      (handler : SftpServerHandler S) (sftp : SftpServerRuntime S) (channel : ℕ) (bytes : Bytes)
      → IsQuiet {F = F} (sftp_data session display handler sftp channel bytes)
  unfolding sftp_data
  sftp_data-IsQuiet handler sftp channel bytes = record {
    keeps = λ w. or_fail-Quiet _ w.0 _ (record { username = refl; open_sessions = omega arith });
  }

  served-Quiet :
      (o : Option (SftpServerHandler S × SftpServerRuntime S)) (channel : ℕ) (bytes : Bytes)
      (w : ServerSession S F × T)
      → Quiet w.0
          (elim o as (λ _. Handled R (Unit {0}) × (ServerSession S F × T)) [
            | some (handler, sftp) ↦ sftp_data session display handler sftp channel bytes w
            | none ↦ (done tt, (send_stdin channel bytes w.0, w.1))
          ]).1.0
  served-Quiet none channel bytes w = send_stdin-Quiet channel bytes w.0
  served-Quiet (some (handler, sftp)) channel bytes w =
      (sftp_data-IsQuiet handler sftp channel bytes).keeps w

  pub channel_data-IsQuiet :
      (channel : ℕ) (bytes : Bytes)
      → IsQuiet {S = S} {F = F} (channel_data session display channel bytes)
  unfolding channel_data
  channel_data-IsQuiet channel bytes = record {
    keeps = λ (st, t). served-Quiet (serving st channel) channel bytes (st, t);
  }

module _ {S F R T : Type 0} where
  pub ask-IsQuiet :
      {D : Type 0} (handler : Callback S D Bool) (context : ServerSession S F → Text → D)
      → IsQuiet {R = R} {T = T} (ask handler context)
  unfolding ask
  ask-IsQuiet none context = ret-IsQuiet false
  ask-IsQuiet (some handler) context = bind-IsQuiet current-IsQuiet λ st.
      Option-IsQuiet st.username (ret-IsQuiet false)
        λ username. bind-IsQuiet (call-IsQuiet _) λ r. or_fail-IsQuiet r

module _ {S F R T : Type 0} (session : RusshSession R T) where
  settle-IsQuiet :
      (channel : ℕ) (r : Result Bool) → IsQuiet {S = S} {F = F} (settle session channel r)
  unfolding settle
  settle-IsQuiet channel (ok true) = ret-IsQuiet true
  settle-IsQuiet channel (ok false) =
      bind-IsQuiet (attempt-IsQuiet session (close channel)) λ _. ret-IsQuiet false
  settle-IsQuiet channel (err e) =
      bind-IsQuiet (attempt-IsQuiet session (close channel)) λ _. fail-IsQuiet e

  pub ask_open-IsQuiet :
      {D : Type 0} (channel : ℕ) (handler : Callback S D Bool)
      (context : ServerSession S F → Text → D)
      → IsQuiet (ask_open session channel handler context)
  unfolding ask_open
  ask_open-IsQuiet channel none context =
      bind-IsQuiet (attempt-IsQuiet session (close channel)) λ _. ret-IsQuiet false
  ask_open-IsQuiet channel (some handler) context = bind-IsQuiet current-IsQuiet λ st.
      Option-IsQuiet st.username
        (bind-IsQuiet (attempt-IsQuiet session (close channel)) λ _. ret-IsQuiet false)
        λ username. bind-IsQuiet (call-IsQuiet _) λ r. settle-IsQuiet channel r
