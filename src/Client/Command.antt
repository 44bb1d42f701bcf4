-- ===== src/Client/Command.antt =====
-- crates/russh-extra/src/client.rs: `Session::command`, on the channel that was opened. The messages
-- are those that the channel gives until it has no more; `is_closed` says whether the connection is
-- closed then.
use russh_extra.Base.{
  ℕ, ◌+◌, Bytes, Text, Bool, true, false, Option, none, some, List, [], ◌∷◌, ◌++◌, length, ltb, not,
  ◌&&◌, if◌then◌else◌,
}
use russh_extra.Base.Text.{text, decimal}
use russh_extra.Core.Error.{
  Error, Result, ok, err, ChannelErrorKind, Operation, category_error, CommandExit, status, signal,
  missing,
}

-- `russh`'s `ChannelMsg`, with the names of signals as text.
pub data ChannelMsg : Type 0 where
  success failure : ChannelMsg
  data_msg : Bytes → ChannelMsg
  extended_data : ℕ → Bytes → ChannelMsg
  exit_status : ℕ → ChannelMsg
  exit_signal : Text → Bool → ChannelMsg
  eof_msg close_msg other_msg : ChannelMsg

-- What is asked of the channel.
pub data ChannelRequest : Type 0 where
  exec : Text → ChannelRequest
  send : Bytes → ChannelRequest
  send_eof close : ChannelRequest

pub record CommandLimits : Type 0 where
  pub stdout : ℕ
  pub stderr : ℕ

pub record RemoteCommand : Type 0 where
  pub program : Text
  pub stdin : Bytes
  pub limits : CommandLimits

pub record CommandOutput : Type 0 where
  pub exit : CommandExit
  pub stdout : Bytes
  pub stderr : Bytes

-- The variables of the loop.
pub record CommandRun : Type 0 where
  pub stdout : Bytes
  pub stderr : Bytes
  pub exit : CommandExit
  pub exit_observed : Bool
  pub stdin_sent : Bool
  pub exec_confirmed : Bool
  pub channel_closed : Bool

abbrev pub new_run : CommandRun
new_run = record {
  stdout = [];
  stderr = [];
  exit = missing;
  exit_observed = false;
  stdin_sent = false;
  exec_confirmed = false;
  channel_closed = false;
}

-- The sum of the lengths does not saturate: the bytes are in memory.
unfoldable pub append_limited : Bytes → Bytes → ℕ → Text → Result Bytes
unfolding category_error
append_limited buffer bytes limit stream_name =
    if ltb limit (length buffer + length bytes)
    then err (
        Error.channel (
          category_error ChannelErrorKind.read (
            text "remote command "
            ++ (stream_name
                ++ (text " exceeded configured "
                    ++ (stream_name ++ (text " limit of " ++ (decimal limit ++ text " bytes"))))))))
    else ok (buffer ++ bytes)

-- What a message makes of the loop.
pub data Flow : Type 0 where
  goes_on : CommandRun → Flow
  breaks : CommandRun → Flow
  returns : Error → Flow

-- The first exit counts.
unfoldable pub observe : CommandExit → CommandRun → CommandRun
observe exit run =
    if run.exit_observed then run else record run { exit = exit; exit_observed = true }

unfoldable pub rejected : Error
unfolding category_error
rejected =
    Error.channel
      (category_error ChannelErrorKind.request (text "remote exec request was rejected"))

-- The rest of the loop, behind one message.
abbrev pub follow :
    {T : Type 0} → (CommandRun → T → Result CommandRun × T) → Flow × T → Result CommandRun × T
follow rest (goes_on run, t) = rest run t
follow rest (breaks run, t) = (ok run, t)
follow rest (returns e, t) = (err e, t)

-- A channel with state `T`, whose errors `R` are mapped by `map_command_error`.
module _ {R T : Type 0} (channel : ChannelRequest → T → Option R × T)
    (map_command_error : R → Error) where
  -- `channel.….await.map_err(map_command_error)?`
  unfoldable pub ask : ChannelRequest → (T → Flow × T) → T → Flow × T
  ask request rest t =
      let (error, t') = channel request t in
      elim error as (λ _. Flow × T) [
        | some e ↦ (returns (map_command_error e), t')
        | none ↦ rest t'
      ]

  -- `let _ = channel.close().await; return Err(error)`
  unfoldable pub give_up : Error → T → Flow × T
  give_up e t = (returns e, (channel close t).1)

  unfoldable pub sent_stdin : CommandRun → T → Flow × T
  sent_stdin run =
      ask send_eof λ t. (goes_on (record run { exec_confirmed = true; stdin_sent = true }), t)

  unfoldable pub keep_stdout : Result Bytes → CommandRun → T → Flow × T
  keep_stdout (ok stdout) run t = (goes_on (record run { stdout = stdout }), t)
  keep_stdout (err e) run t = give_up e t

  unfoldable pub keep_stderr : Result Bytes → CommandRun → T → Flow × T
  keep_stderr (ok stderr) run t = (goes_on (record run { stderr = stderr }), t)
  keep_stderr (err e) run t = give_up e t

  module _ (command : RemoteCommand) where
    unfoldable pub confirm : CommandRun → T → Flow × T
    confirm run =
        if run.stdin_sent
        then (λ t. (goes_on (record run { exec_confirmed = true }), t))
        else elim command.stdin [
          | [] ↦ sent_stdin run
          | b ∷ bs ↦ ask (send (b ∷ bs)) (sent_stdin run)
        ]

    unfoldable pub receive : ChannelMsg → CommandRun → T → Flow × T
    receive success run t = confirm run t
    receive failure run t = give_up rejected t
    receive (data_msg bytes) run t =
        keep_stdout (append_limited run.stdout bytes command.limits.stdout (text "stdout")) run t
    receive (extended_data code bytes) run t =
        keep_stderr (append_limited run.stderr bytes command.limits.stderr (text "stderr")) run t
    receive (exit_status n) run t = (goes_on (observe (status n) run), t)
    receive (exit_signal name core_dumped) run t =
        (goes_on (observe (signal name core_dumped) run), t)
    receive eof_msg run t = (goes_on run, t)
    receive close_msg run t = (breaks (record run { channel_closed = true }), t)
    receive other_msg run t = (goes_on run, t)

    unfoldable pub wait_loop : List ChannelMsg → CommandRun → T → Result CommandRun × T
    wait_loop [] run t = (ok run, t)
    wait_loop (message ∷ messages) run t = follow (wait_loop messages) (receive message run t)

    unfoldable pub conclude_command : Bool → Result CommandRun × T → Result CommandOutput × T
    unfolding category_error
    conclude_command is_closed (err e, t) = (err e, t)
    conclude_command is_closed (ok run, t) =
        if not run.channel_closed && is_closed
        then (
          err (
              Error.disconnected (
                category_error Operation.command
                  (text "server disconnected during remote command"))),
          t,
        )
        else if not run.exec_confirmed
        then (
          err (
              Error.channel (
                category_error ChannelErrorKind.protocol
                  (text "remote command channel closed before exec confirmation"))),
          t,
        )
        else (
          ok (record { exit = run.exit; stdout = run.stdout; stderr = run.stderr }),
          (channel close t).1,
        )

    -- From the exec request on.
    unfoldable pub run_command : List ChannelMsg → Bool → T → Result CommandOutput × T
    run_command messages is_closed t =
        let (error, t') = channel (exec command.program) t in
        elim error as (λ _. Result CommandOutput × T) [
          | some e ↦ (err (map_command_error e), t')
          | none ↦ conclude_command is_closed (wait_loop messages new_run t')
        ]
