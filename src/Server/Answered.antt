-- ===== src/Server/Answered.antt =====
-- crates/russh-extra/src/server.rs: the answer to each request on a channel.
use russh_extra.Base.{
  ℕ, ◌≡◌, sym, ◌∙◌, Bytes, Text, Bool, true, false, Option, none, some, List, ◌∷◌,
}
use mathlib.Core.Path.{subst}
use russh_extra.Core.Error.{Result, ok, err}
use russh_extra.Server.Context.{EnvRequest, PtyParams, WindowChange}
use russh_extra.Server.Runtime.{ServerRuntime, ServerSession, Reply, Step, fail}
use russh_extra.Server.Requests.{
  answer, shell_request, pty_request, keep_env, env_request, other_subsystem, subsystem_request,
  window_change_request, grant, agent_request, x11_request,
}
use russh_extra.Server.Exec.{exec_as, exec_request, unauthenticated}
use russh_extra.Server.Event as Event
use russh_extra.Server.Event.{Request, run_request, channel_of, finished, granted}
use russh_extra.Server.Answers.{
  recorder, answers, IsAnswering, proceed-answers, then-IsAnswering, asks-IsAnswering,
  Option-IsAnswering, current-IsAnswering, call-IsAnswering,
}
use russh_extra.Server.AnsweredExec.{
  success-IsAnswering, failure-IsAnswering, ret-IsSilent, fail-IsSilent, outcome-answers,
  kept-IsAnswering, exec_as-IsAnswering,
}

module _ {S K C F R : Type 0} (runtime : ServerRuntime S K C F) where
  answer-IsAnswering :
      (channel : ℕ) (r : Result (Unit {0}))
      → IsAnswering {R = R} {F = F} channel (answer runtime recorder channel r)
  unfolding answer
  answer-IsAnswering channel (ok _) = success-IsAnswering channel
  answer-IsAnswering channel (err e) = failure-IsAnswering channel

  shell_request-IsAnswering :
      (channel : ℕ) → IsAnswering {R = R} channel (shell_request runtime recorder channel)
  unfolding shell_request
  shell_request-IsAnswering channel =
      Option-IsAnswering channel _ (failure-IsAnswering channel)
        λ handler. asks-IsAnswering channel _ λ r. answer-IsAnswering channel r

  pty_request-IsAnswering :
      (channel : ℕ) (params : PtyParams)
      → IsAnswering {R = R} channel (pty_request runtime recorder channel params)
  unfolding pty_request
  pty_request-IsAnswering channel params =
      Option-IsAnswering channel _ (failure-IsAnswering channel)
        λ handler. asks-IsAnswering channel _ λ r. answer-IsAnswering channel r

  keep_env-IsAnswering :
      (channel : ℕ) (variable : EnvRequest) (r : Result (Unit {0}))
      → IsAnswering {R = R} {F = F} channel (keep_env runtime recorder channel variable r)
  unfolding keep_env
  keep_env-IsAnswering channel variable (ok _) = kept-IsAnswering channel _
  keep_env-IsAnswering channel variable (err e) = failure-IsAnswering channel

  env_request-IsAnswering :
      (channel : ℕ) (variable : EnvRequest)
      → IsAnswering {R = R} channel (env_request runtime recorder channel variable)
  unfolding env_request
  env_request-IsAnswering channel variable =
      Option-IsAnswering channel _ (kept-IsAnswering channel _)
        λ handler. asks-IsAnswering channel _ λ r. keep_env-IsAnswering channel variable r

  other_subsystem-IsAnswering :
      (channel : ℕ) (name : Text)
      → IsAnswering {R = R} channel (other_subsystem runtime recorder channel name)
  unfolding other_subsystem
  other_subsystem-IsAnswering channel name =
      Option-IsAnswering channel _ (failure-IsAnswering channel)
        λ handler. asks-IsAnswering channel _ λ r. answer-IsAnswering channel r

  subsystem_request-IsAnswering :
      (channel : ℕ) (name : Text)
      → IsAnswering {R = R} channel (subsystem_request runtime recorder channel name)
  unfolding subsystem_request
  subsystem_request-IsAnswering channel name =
      Option-IsAnswering channel _ (other_subsystem-IsAnswering channel name)
        λ handler. kept-IsAnswering channel _

  window_change_request-IsAnswering :
      (channel : ℕ) (change : WindowChange)
      → IsAnswering {R = R} channel (window_change_request runtime recorder channel change)
  unfolding window_change_request
  window_change_request-IsAnswering channel change =
      Option-IsAnswering channel _ (success-IsAnswering channel)
        λ handler. asks-IsAnswering channel _ λ r. success-IsAnswering channel

  grant-IsAnswering :
      (channel : ℕ) (r : Result Bool)
      → IsAnswering {R = R} {F = F} channel (grant runtime recorder channel r)
  unfolding grant
  grant-IsAnswering channel (ok true) =
      then-IsAnswering channel (success-IsAnswering channel) λ _. ret-IsSilent true
  grant-IsAnswering channel (ok false) =
      then-IsAnswering channel (failure-IsAnswering channel) λ _. ret-IsSilent false
  grant-IsAnswering channel (err e) =
      then-IsAnswering channel (failure-IsAnswering channel) λ _. fail-IsSilent e

  agent_request-IsAnswering :
      (channel : ℕ) → IsAnswering {R = R} channel (agent_request runtime recorder channel)
  unfolding agent_request
  agent_request-IsAnswering channel =
      Option-IsAnswering channel _
        (then-IsAnswering channel (failure-IsAnswering channel) λ _. ret-IsSilent false)
        λ handler. asks-IsAnswering channel _ λ r. grant-IsAnswering channel r

  x11_request-IsAnswering :
      (channel : ℕ) (single : Bool) (protocol cookie : Text) (screen : ℕ)
      → IsAnswering {R = R} channel
          (x11_request runtime recorder channel single protocol cookie screen)
  unfolding x11_request
  x11_request-IsAnswering channel single protocol cookie screen =
      Option-IsAnswering channel _ (failure-IsAnswering channel) λ handler.
        current-IsAnswering channel λ st.
          Option-IsAnswering channel st.username (failure-IsAnswering channel) λ username.
            call-IsAnswering channel _
              λ r. then-IsAnswering channel (grant-IsAnswering channel r) λ _. ret-IsSilent tt

-- `R` is the type of the errors that a recorder does not give.
module _ {S K C F : Type 0} (R : Type 0) (runtime : ServerRuntime S K C F) where
  exec_request-answers :
      (channel : ℕ) (command : Bytes) (w : ServerSession S F × List Reply) (user : Text)
      → w.0.username ≡ some user
      → answers (exec_request runtime (recorder {R = R}) channel command w).1.1
        ≡ channel ∷ answers w.1
  unfolding exec_request
  exec_request-answers channel command w user h =
      subst
        (λ (o : Option Text).
          answers
            ((elim o as (λ _. Step R (ServerSession S F × List Reply) (Unit {0})) [
              | none ↦ fail unauthenticated
              | some username ↦ exec_as runtime recorder channel command username
            ])
              w).1.1
          ≡ channel ∷ answers w.1)
        (sym h) ((exec_as-IsAnswering runtime channel command user).adds w)

  -- On a session that takes every reply and whose user is known, each of the eight requests on a
  -- channel is answered exactly once, with success or failure and on its own channel, whatever
  -- the callbacks answer and also when the method then returns an error.
  pub run_request-answers :
      (r : Request) (w : ServerSession S F × List Reply) (user : Text)
      → w.0.username ≡ some user
      → answers (run_request runtime (recorder {R = R}) r w).1.1 ≡ channel_of r ∷ answers w.1
  unfolding run_request
  run_request-answers (Event.exec_request channel command) w user h =
      proceed-answers (λ u. ret-IsSilent (finished u))
        (exec_request runtime (recorder {R = R}) channel command w)
      ∙ exec_request-answers channel command w user h
  run_request-answers (Event.shell_request channel) w user h =
      outcome-answers channel finished (shell_request-IsAnswering runtime channel) w
  run_request-answers (Event.pty_request channel params) w user h =
      outcome-answers channel finished (pty_request-IsAnswering runtime channel params) w
  run_request-answers (Event.env_request channel variable) w user h =
      outcome-answers channel finished (env_request-IsAnswering runtime channel variable) w
  run_request-answers (Event.subsystem_request channel name) w user h =
      outcome-answers channel finished (subsystem_request-IsAnswering runtime channel name) w
  run_request-answers (Event.window_change_request channel change) w user h =
      outcome-answers channel finished (window_change_request-IsAnswering runtime channel change) w
  run_request-answers (Event.agent_request channel) w user h =
      outcome-answers channel granted (agent_request-IsAnswering runtime channel) w
  run_request-answers (Event.x11_request channel single protocol cookie screen) w user h =
      outcome-answers channel finished
        (x11_request-IsAnswering runtime channel single protocol cookie screen) w
