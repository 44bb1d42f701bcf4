-- ===== src/Server/Interleaving.antt =====
-- crates/russh-extra/src/server.rs: a streaming handler and its task, whatever their turns.
use russh_extra.Base.{
  ℕ, ◌≡◌, refl, ap, ◌∙◌, Bool, true, false, List, [], ◌∷◌, ◌++◌, append_assoc, append-nil, arith,
  if◌then◌else◌,
}
use russh_extra.Core.Error.{status, signal, missing}
use russh_extra.Server.Runtime.{Reply, send_data, extended_data}
use russh_extra.Server.Streaming.{
  StreamingExecCmd, stdout, stderr, exited, HandlerEnd, exit_replies, pump, last_replies, task,
  Pipe, new_pipe, write, poll, Turn, writes, polls, take_turns, finish, written, exits,
  gives_missing,
}

-- The end of a pipe when more is written to it.
ending : ℕ → HandlerEnd → Pipe → List StreamingExecCmd → List Reply
ending channel end p rest =
    if p.exit_sent
    then p.replies ++ last_replies channel true end
    else p.replies ++ task channel (p.queue ++ rest) end

write-ending :
    (channel : ℕ) (end : HandlerEnd) (p : Pipe) (cmd : StreamingExecCmd)
    (rest : List StreamingExecCmd)
    → ending channel end (write cmd p).1 rest ≡ ending channel end p (cmd ∷ rest)
unfolding ending write
write-ending channel end p cmd rest = ground (arith, append_assoc p.queue (cmd ∷ []) rest)

poll_fields-ending :
    (channel : ℕ) (end : HandlerEnd) (queue : List StreamingExecCmd) (exit_sent : Bool)
    (replies : List Reply) (rest : List StreamingExecCmd)
    → ending channel end
        (poll channel (record { queue = queue; exit_sent = exit_sent; replies = replies }))
        rest
      ≡ ending channel end (record { queue = queue; exit_sent = exit_sent; replies = replies }) rest
unfolding ending poll task pump
poll_fields-ending channel end queue true replies rest = refl
poll_fields-ending channel end [] false replies rest = refl
poll_fields-ending channel end (stdout bytes ∷ queue) false replies rest =
    append_assoc replies (send_data channel bytes ∷ []) (task channel (queue ++ rest) end)
poll_fields-ending channel end (stderr bytes ∷ queue) false replies rest =
    append_assoc replies (extended_data channel 1 bytes ∷ []) (task channel (queue ++ rest) end)
poll_fields-ending channel end (exited exit ∷ queue) false replies rest =
    append_assoc replies (exit_replies channel exit) (last_replies channel true end)

poll-ending :
    (channel : ℕ) (end : HandlerEnd) (p : Pipe) (rest : List StreamingExecCmd)
    → ending channel end (poll channel p) rest ≡ ending channel end p rest
poll-ending channel end p rest = poll_fields-ending channel end p.queue p.exit_sent p.replies rest

finish-ending :
    (channel : ℕ) (end : HandlerEnd) (p : Pipe) → finish channel end p ≡ ending channel end p []
unfolding finish ending
finish-ending channel end p = ground (arith, append-nil p.queue)

take_turns-ending :
    (channel : ℕ) (end : HandlerEnd) (turns : List Turn) (p : Pipe) (rest : List StreamingExecCmd)
    → ending channel end (take_turns channel turns p) rest
      ≡ ending channel end p (written turns ++ rest)
unfolding take_turns
take_turns-ending channel end [] p rest = refl
take_turns-ending channel end (writes cmd ∷ turns) p rest =
    take_turns-ending channel end turns (write cmd p).1 rest
    ∙ write-ending channel end p cmd (written turns ++ rest)
take_turns-ending channel end (polls ∷ turns) p rest =
    take_turns-ending channel end turns (poll channel p) rest
    ∙ poll-ending channel end p (written turns ++ rest)

-- Whatever turns a streaming exec handler's writes and the rounds of its task take, the task
-- sends in the end what it would send if it read all that the handler wrote at once.
pub finish-take_turns :
    (channel : ℕ) (end : HandlerEnd) (turns : List Turn)
    → finish channel end (take_turns channel turns new_pipe) ≡ task channel (written turns) end
unfolding ending task
finish-take_turns channel end turns =
    finish-ending channel end (take_turns channel turns new_pipe)
    ∙ take_turns-ending channel end turns new_pipe []
    ∙ ap (λ cmds. task channel cmds end) (append-nil (written turns))

-- The task of a streaming exec sends exactly one exit status or signal, unless the handler gives
-- a missing exit, and then it sends none.
pub exits-task :
    (channel : ℕ) (end : HandlerEnd) (cmds : List StreamingExecCmd)
    → exits (task channel cmds end) ≡ (if gives_missing cmds then 0 else 1)
unfolding exits task pump gives_missing last_replies exit_replies
exits-task channel end [] = refl
exits-task channel end (stdout bytes ∷ cmds) = exits-task channel end cmds
exits-task channel end (stderr bytes ∷ cmds) = exits-task channel end cmds
exits-task channel end (exited (status n) ∷ cmds) = refl
exits-task channel end (exited (signal name core_dumped) ∷ cmds) = refl
exits-task channel end (exited missing ∷ cmds) = refl
