-- ===== src/Client/Output.antt =====
-- crates/russh-extra/src/client.rs: the output of a remote command, from the messages of its channel.
use russh_extra.Base.{
  ℕ, ◌+◌, ◌≤◌, ◌≡◌, refl, sym, ap, ◌∙◌, Bytes, Text, Bool, true, false, Option, none, List, [], ◌∷◌,
  ◌++◌, length, append_assoc, append-nil, length-append, arith, not, ◌&&◌, ◌||◌, if◌then◌else◌,
}
use russh_extra.Base.Text.{text}
use russh_extra.Core.Error.{Error, Result, ok, err, CommandExit, status, signal, missing}
use russh_extra.Client.Command.{
  ChannelMsg, success, failure, data_msg, extended_data, exit_status, exit_signal, eof_msg,
  close_msg, other_msg, ChannelRequest, exec, RemoteCommand, CommandRun, new_run, append_limited,
  Flow, goes_on, breaks, returns, observe, ask, sent_stdin, confirm, keep_stdout, keep_stderr,
  receive, follow, wait_loop, conclude_command, run_command,
}
use russh_extra.Client.Messages.{
  has_close, confirmed, refused, stdout_of, stderr_of, has_exit, first_exit,
}

follow-goes_on :
    {T : Type 0} (rest : CommandRun → T → Result CommandRun × T) (p : Flow × T) (run : CommandRun)
    → p.0 ≡ goes_on run
    → follow rest p ≡ rest run p.1
follow-goes_on rest (goes_on r, t) run h = ap (λ f. follow rest (f, t)) h
follow-goes_on rest (breaks r, t) run h = ap (λ f. follow rest (f, t)) h
follow-goes_on rest (returns e, t) run h = ap (λ f. follow rest (f, t)) h

module _ {R T : Type 0} (channel : ChannelRequest → T → Option R × T)
    (map_command_error : R → Error)
    (takes : (r : ChannelRequest) (t : T) → (channel r t).0 ≡ none) where
  ask-taken :
      (request : ChannelRequest) (rest : T → Flow × T) (f : Flow) (t : T)
      → ((t : T) → (rest t).0 ≡ f)
      → (ask channel map_command_error request rest t).0 ≡ f
  unfolding ask
  ask-taken request rest f t h = rw (takes request t, ask) (h _)

  confirm_from :
      (command : RemoteCommand) (b : Bool) (stdin : Bytes) (run : CommandRun) (t : T)
      → (confirm channel map_command_error
          (record command { stdin = stdin })
          (record run { stdin_sent = b })
          t).0
        ≡ goes_on (record run { exec_confirmed = true; stdin_sent = true })
  unfolding confirm sent_stdin
  confirm_from command true stdin run t = refl
  confirm_from command false [] run t = ask-taken _ _ _ t λ t. refl
  confirm_from command false (x ∷ xs) run t = ask-taken _ _ _ t λ t. ask-taken _ _ _ t λ t. refl

  confirm-taken :
      (command : RemoteCommand) (run : CommandRun) (t : T)
      → (confirm channel map_command_error command run t).0
        ≡ goes_on (record run { exec_confirmed = true; stdin_sent = true })
  confirm-taken command run t = confirm_from command run.stdin_sent command.stdin run t

or_true : (b : Bool) → (b || true) ≡ true
or_true true = refl
or_true false = refl

-- Where the loop ends, of messages without a refusal that stay below the limits.
heard : List ChannelMsg → CommandRun → CommandRun
heard msgs run = record {
  stdout = run.stdout ++ stdout_of msgs;
  stderr = run.stderr ++ stderr_of msgs;
  exit = if run.exit_observed then run.exit else first_exit run.exit msgs;
  exit_observed = has_exit msgs || run.exit_observed;
  stdin_sent = confirmed msgs || run.stdin_sent;
  exec_confirmed = confirmed msgs || run.exec_confirmed;
  channel_closed = has_close msgs || run.channel_closed;
}

heard-observe :
    (observed : Bool) (msgs : List ChannelMsg) (exit : CommandExit) (run : CommandRun)
    → heard msgs (observe exit (record run { exit_observed = observed }))
      ≡ record (heard msgs run) { exit = if observed then run.exit else exit; exit_observed = true }
unfolding heard observe
heard-observe true msgs exit run =
    ap (λ b. record (heard msgs run) { exit = run.exit; exit_observed = b })
      (or_true (has_exit msgs))
heard-observe false msgs exit run =
    ap (λ b. record (heard msgs run) { exit = exit; exit_observed = b }) (or_true (has_exit msgs))

if_same : {A : Type 0} (b : Bool) (a : A) → (if b then a else a) ≡ a
if_same true a = refl
if_same false a = refl

heard_end :
    (run : CommandRun)
    → record run {
      stdout = run.stdout ++ [];
      stderr = run.stderr ++ [];
      exit = if run.exit_observed then run.exit else run.exit;
    }
      ≡ run
heard_end run =
    ap
      (λ s. record run {
        stdout = s;
        stderr = run.stderr ++ [];
        exit = if run.exit_observed then run.exit else run.exit;
      })
      (append-nil run.stdout)
    ∙ ap (λ s. record run { stderr = s; exit = if run.exit_observed then run.exit else run.exit })
        (append-nil run.stderr)
    ∙ ap (λ e. record run { exit = e }) (if_same run.exit_observed run.exit)

observe-stdout : (exit : CommandExit) (run : CommandRun) → (observe exit run).stdout ≡ run.stdout
unfolding observe
observe-stdout exit run = ground arith

observe-stderr : (exit : CommandExit) (run : CommandRun) → (observe exit run).stderr ≡ run.stderr
unfolding observe
observe-stderr exit run = ground arith

append_limited-ok :
    (buffer bytes : Bytes) (limit : ℕ) (name : Text)
    → length buffer + length bytes ≤ limit
    → append_limited buffer bytes limit name ≡ ok (buffer ++ bytes)
unfolding append_limited
append_limited-ok buffer bytes limit name h = ground arith

module _ {R T : Type 0} (channel : ChannelRequest → T → Option R × T)
    (map_command_error : R → Error) (command : RemoteCommand)
    (takes : (r : ChannelRequest) (t : T) → (channel r t).0 ≡ none) where
  -- One message, and then the rest of the loop.
  step-hears :
      (message : ChannelMsg) (msgs : List ChannelMsg) (run next : CommandRun) (t : T)
      → (receive channel map_command_error command message run t).0 ≡ goes_on next
      → ((t : T)
          → (wait_loop channel map_command_error command msgs next t).0 ≡ ok (heard msgs next))
      → heard msgs next ≡ heard (message ∷ msgs) run
      → (wait_loop channel map_command_error command (message ∷ msgs) run t).0
        ≡ ok (heard (message ∷ msgs) run)
  unfolding wait_loop
  step-hears message msgs run next t h rest same =
      ap (λ p. p.0)
        (follow-goes_on _ (receive channel map_command_error command message run t) next h)
      ∙ rest _
      ∙ ap ok same

  wait_loop-hears :
      (msgs : List ChannelMsg) (run : CommandRun) (t : T)
      → refused msgs ≡ false
      → length run.stdout + length (stdout_of msgs) ≤ command.limits.stdout
      → length run.stderr + length (stderr_of msgs) ≤ command.limits.stderr
      → (wait_loop channel map_command_error command msgs run t).0 ≡ ok (heard msgs run)
  unfolding refused stdout_of stderr_of receive keep_stdout keep_stderr heard first_exit has_exit
      confirmed has_close wait_loop
  wait_loop-hears [] run t h out errs = ap ok (sym (heard_end run))
  wait_loop-hears (success ∷ msgs) run t h out errs =
      step-hears success msgs run _ t (confirm-taken channel map_command_error takes command run t)
        (λ t. wait_loop-hears msgs _ t h out errs)
        (ap (λ b. record (heard msgs run) { stdin_sent = b; exec_confirmed = b })
          (or_true (confirmed msgs)))
  wait_loop-hears (failure ∷ msgs) run t h out errs = ground (arith, h)
  wait_loop-hears (data_msg bytes ∷ msgs) run t h out errs =
      let split = length-append bytes (stdout_of msgs) in
      let joined = length-append run.stdout bytes in
      step-hears (data_msg bytes) msgs run (record run { stdout = run.stdout ++ bytes }) t
        (ap (λ r. (keep_stdout channel map_command_error r run t).0)
          (append_limited-ok run.stdout bytes command.limits.stdout (text "stdout")
            (omega (arith, out, split))))
        (λ t. wait_loop-hears msgs _ t h (omega (arith, out, split, joined)) errs)
        (ap (λ s. record (heard msgs run) { stdout = s })
          (append_assoc run.stdout bytes (stdout_of msgs)))
  wait_loop-hears (extended_data code bytes ∷ msgs) run t h out errs =
      let split = length-append bytes (stderr_of msgs) in
      let joined = length-append run.stderr bytes in
      step-hears (extended_data code bytes) msgs run (record run { stderr = run.stderr ++ bytes }) t
        (ap (λ r. (keep_stderr channel map_command_error r run t).0)
          (append_limited-ok run.stderr bytes command.limits.stderr (text "stderr")
            (omega (arith, errs, split))))
        (λ t. wait_loop-hears msgs _ t h out (omega (arith, errs, split, joined)))
        (ap (λ s. record (heard msgs run) { stderr = s })
          (append_assoc run.stderr bytes (stderr_of msgs)))
  wait_loop-hears (exit_status n ∷ msgs) run t h out errs =
      step-hears (exit_status n) msgs run (observe (status n) run) t refl
        (λ t.
          wait_loop-hears msgs _ t h (omega (arith, out, ap length (observe-stdout (status n) run)))
            (omega (arith, errs, ap length (observe-stderr (status n) run))))
        (heard-observe run.exit_observed msgs (status n) run)
  wait_loop-hears (exit_signal name core_dumped ∷ msgs) run t h out errs =
      let exit = signal name core_dumped in
      step-hears (exit_signal name core_dumped) msgs run (observe exit run) t refl
        (λ t.
          wait_loop-hears msgs _ t h (omega (arith, out, ap length (observe-stdout exit run)))
            (omega (arith, errs, ap length (observe-stderr exit run))))
        (heard-observe run.exit_observed msgs exit run)
  wait_loop-hears (eof_msg ∷ msgs) run t h out errs =
      step-hears eof_msg msgs run run t refl (λ t. wait_loop-hears msgs _ t h out errs) refl
  wait_loop-hears (close_msg ∷ msgs) run t h out errs =
      ap (λ (r : CommandRun). ok (record r { channel_closed = true })) (sym (heard_end run))
  wait_loop-hears (other_msg ∷ msgs) run t h out errs =
      step-hears other_msg msgs run run t refl (λ t. wait_loop-hears msgs _ t h out errs) refl

  conclude-heard :
      (r : Result CommandRun × T) (run : CommandRun) (is_closed : Bool)
      → r.0 ≡ ok run
      → run.exec_confirmed ≡ true
      → (not run.channel_closed && is_closed) ≡ false
      → (conclude_command channel map_command_error command is_closed r).0
        ≡ ok (record { exit = run.exit; stdout = run.stdout; stderr = run.stderr })
  unfolding conclude_command
  conclude-heard (ok r, t) run is_closed h c d =
      ap
        (λ (r : Result CommandRun).
          (conclude_command channel map_command_error command is_closed (r, t)).0)
        h
      ∙ ground (arith, c, d)
  conclude-heard (err e, t) run is_closed h c d = ground (arith, h)

  -- On a channel that takes every request, when the messages up to the close confirm the
  -- command, refuse nothing and stay within both limits, and there is a close, a remote command
  -- succeeds with exactly the bytes of the data messages before the close as its output, those
  -- of the extended data as its error output, and the first exit that was sent, or none.
  pub run_command-heard :
      (msgs : List ChannelMsg) (is_closed : Bool) (t : T)
      → refused msgs ≡ false
      → confirmed msgs ≡ true
      → has_close msgs ≡ true
      → length (stdout_of msgs) ≤ command.limits.stdout
      → length (stderr_of msgs) ≤ command.limits.stderr
      → (run_command channel map_command_error command msgs is_closed t).0
        ≡ ok (record {
          exit = first_exit missing msgs;
          stdout = stdout_of msgs;
          stderr = stderr_of msgs;
        })
  unfolding run_command heard
  run_command-heard msgs is_closed t h c d out errs =
      rw (takes (exec command.program) t, run_command)
        (conclude-heard _ (heard msgs new_run) is_closed
          (wait_loop-hears msgs new_run (channel (exec command.program) t).1 h (omega (arith, out))
            (omega (arith, errs)))
          (ground (arith, c)) (ground (arith, d)))
