-- ===== src/Server/AnsweredExec.antt =====
-- crates/russh-extra/src/server.rs: the answer to an exec request, and single answers.
use russh_extra.Base.{ℕ, ◌≡◌, refl, Bytes, Text, List, [], ◌∷◌}
use russh_extra.Core.Error.{Error, Result, ok, err, CommandExit, status, signal, missing}
use russh_extra.Server.Context.{ExecResponse}
use russh_extra.Server.Runtime.{
  ServerRuntime, ServerSession, Reply, channel_success, channel_failure, send_data, extended_data,
  exit_status_request, exit_signal_request, eof, close, Step, ◌>>=◌, ◌>>◌, ret, fail, modify, reply,
}
use russh_extra.Server.Exec.{
  send_some, send_exit, send_exec_response, run_streaming_exec, respond_exec, buffered_exec,
  exec_as,
}
use russh_extra.Server.Answers.{
  recorder, noted, answers, Sends, IsAnswering, IsSilent, bind-Sends, Sends-IsAnswering,
  reply-Sends, ret-Sends, modify-Sends, then-IsAnswering, asks-IsAnswering, Option-IsAnswering,
  if-IsAnswering,
}

module _ {R S F : Type 0} where
  pub success-IsAnswering :
      (channel : ℕ)
      → IsAnswering {R = R} {S = S} {F = F} channel (reply recorder (channel_success channel))
  success-IsAnswering channel = Sends-IsAnswering (reply-Sends (channel_success channel))

  pub failure-IsAnswering :
      (channel : ℕ)
      → IsAnswering {R = R} {S = S} {F = F} channel (reply recorder (channel_failure channel))
  failure-IsAnswering channel = Sends-IsAnswering (reply-Sends (channel_failure channel))

  pub ret-IsSilent : {A : Type 0} (a : A) → IsSilent {R = R} {S = S} {F = F} (ret a)
  ret-IsSilent a = record { keeps = λ w. refl }

  pub fail-IsSilent : {A : Type 0} (e : Error) → IsSilent {R = R} {S = S} {F = F} {A = A} (fail e)
  fail-IsSilent e = record { keeps = λ w. refl }

  pub outcome-answers :
      {A B : Type 0} (channel : ℕ) {m : Step R (ServerSession S F × List Reply) A} (f : A → B)
      → IsAnswering channel m
      → (w : ServerSession S F × List Reply)
      → answers ((m >>= λ a. ret (f a)) w).1.1 ≡ channel ∷ answers w.1
  outcome-answers channel f h w = (then-IsAnswering channel h λ a. ret-IsSilent (f a)).adds w

  -- The session is changed, and the request is taken.
  pub kept-IsAnswering :
      (channel : ℕ) (f : ServerSession S F → ServerSession S F)
      → IsAnswering {R = R} channel (modify f >> reply recorder (channel_success channel))
  kept-IsAnswering channel f = Sends-IsAnswering (
      bind-Sends (λ l. l) (noted (channel_success channel)) (modify-Sends f)
        λ _. reply-Sends (channel_success channel))

  stdout-Sends :
      (channel : ℕ) (bytes : Bytes)
      → Sends {R = R} {S = S} {F = F} (λ l. l) (send_some recorder (send_data channel) bytes)
  unfolding send_some
  stdout-Sends channel [] = ret-Sends tt
  stdout-Sends channel (b ∷ bs) = reply-Sends (send_data channel (b ∷ bs))

  stderr-Sends :
      (channel : ℕ) (bytes : Bytes)
      → Sends {R = R} {S = S} {F = F} (λ l. l) (send_some recorder (extended_data channel 1) bytes)
  unfolding send_some
  stderr-Sends channel [] = ret-Sends tt
  stderr-Sends channel (b ∷ bs) = reply-Sends (extended_data channel 1 (b ∷ bs))

  send_exit-Sends :
      (channel : ℕ) (exit : CommandExit)
      → Sends {R = R} {S = S} {F = F} (λ l. l) (send_exit recorder channel exit)
  unfolding send_exit
  send_exit-Sends channel (status n) = reply-Sends (exit_status_request channel n)
  send_exit-Sends channel (signal name core_dumped) =
      reply-Sends (exit_signal_request channel name core_dumped)
  send_exit-Sends channel missing = ret-Sends tt

  send_exec_response-IsAnswering :
      (channel : ℕ) (response : ExecResponse)
      → IsAnswering {R = R} {S = S} {F = F} channel (send_exec_response recorder channel response)
  unfolding send_exec_response
  send_exec_response-IsAnswering channel response =
      let answer = λ (l : List ℕ). channel ∷ l in
      let same = λ (l : List ℕ). l in
      Sends-IsAnswering (
        bind-Sends answer same
          (bind-Sends answer same
            (bind-Sends answer same
              (bind-Sends answer same
                (bind-Sends answer same (reply-Sends (channel_success channel))
                  λ _. stdout-Sends channel response.stdout)
                λ _. stderr-Sends channel response.stderr)
              λ _. send_exit-Sends channel response.exit)
            λ _. reply-Sends (eof channel))
          λ _. reply-Sends (close channel))

  run_streaming_exec-IsAnswering :
      (channel : ℕ) (command : Bytes) (username : Text) (handler : F)
      → IsAnswering {R = R} {S = S} channel
          (run_streaming_exec recorder channel command username handler)
  unfolding run_streaming_exec
  run_streaming_exec-IsAnswering channel command username handler = Sends-IsAnswering (
      bind-Sends (λ l. channel ∷ l) (λ l. l)
        (bind-Sends (λ l. l) (λ l. channel ∷ l) (modify-Sends _)
          λ _. reply-Sends (channel_success channel))
        λ _. modify-Sends _)

  respond_exec-IsAnswering :
      (channel : ℕ) (r : Result ExecResponse)
      → IsAnswering {R = R} {S = S} {F = F} channel (respond_exec recorder channel r)
  unfolding respond_exec
  respond_exec-IsAnswering channel (ok response) =
      if-IsAnswering response.accepted (send_exec_response-IsAnswering channel response)
        (failure-IsAnswering channel)
  respond_exec-IsAnswering channel (err e) =
      then-IsAnswering channel (failure-IsAnswering channel) λ _. fail-IsSilent e

module _ {S K C F R : Type 0} (runtime : ServerRuntime S K C F) where
  buffered_exec-IsAnswering :
      (channel : ℕ) (command : Bytes) (username : Text)
      → IsAnswering {R = R} channel (buffered_exec runtime recorder channel command username)
  unfolding buffered_exec
  buffered_exec-IsAnswering channel command username =
      Option-IsAnswering channel _ (failure-IsAnswering channel)
        λ handler. asks-IsAnswering channel _ λ r. respond_exec-IsAnswering channel r

  pub exec_as-IsAnswering :
      (channel : ℕ) (command : Bytes) (username : Text)
      → IsAnswering {R = R} channel (exec_as runtime recorder channel command username)
  unfolding exec_as
  exec_as-IsAnswering channel command username =
      Option-IsAnswering channel _ (buffered_exec-IsAnswering channel command username)
        λ handler. run_streaming_exec-IsAnswering channel command username handler
