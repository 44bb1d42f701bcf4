-- ===== src/Shell/Tests.antt =====
-- The shell at concrete messages and moves.
use russh_extra.Base.{ℕ, true, List, [], ◌∷◌, ◌++◌, ◌≡◌, refl, arith}
use russh_extra.Base.Text.{text}
use russh_extra.Client.Command.{ChannelMsg, data_msg, extended_data, exit_status, close_msg}
use russh_extra.Core.Error.{ok}
use russh_extra.Shell.AsyncIo.{
  into_async_io, Move, receives, serves, shuts_down, reads, writes, move, owned, run, receive,
  next_message, on_message, forward, serve, next_command, poll_read, poll_recv, keep_rest,
  poll_write, send, poll_shutdown,
}
use russh_extra.Shell.Commands.{written, run-written}
use russh_extra.Shell.Ending.{EndsOrReads, all_full, read-EndsOrReads}
use russh_extra.Shell.Handle.{
  ShellHandle, new_handle, read, read_stdout_buf, read_stderr_buf, read_channel, read_loop,
  read_stdout, read_stderr,
}
use russh_extra.Shell.Handle as Handle
use russh_extra.Shell.Open.{
  Shell, open_shell, map_shell_error, from_session, with_env, with_agent_forward,
}
use russh_extra.Shell.Reading.{payload, left, HoldsOne, reads-payload}
use russh_extra.Shell.Requests.{opens, takes, agrees, shell_requests, open_shell-asks}
use russh_extra.Shell.Streams.{keeps_owner, ahead, run-into_async_io}

-- Output, error output, an exit and the close.
abbrev heard : List ChannelMsg
heard = data_msg (1 ∷ 2 ∷ 3 ∷ []) ∷ extended_data 1 (4 ∷ []) ∷ exit_status 0 ∷ close_msg ∷ []

reads-payload_example :
    let (bytes, h, messages') = Handle.reads (2 ∷ 2 ∷ 5 ∷ []) new_handle heard in
    (bytes ++ left h messages' ≡ payload heard) × HoldsOne h
reads-payload_example = reads-payload (2 ∷ 2 ∷ 5 ∷ []) heard

read-EndsOrReads_example : EndsOrReads (read 2 new_handle heard)
unfolding all_full
read-EndsOrReads_example = read-EndsOrReads 2 new_handle heard (omega arith) refl

-- The task forwards a message, the owner reads two bytes of it and writes one, and the task sends it.
abbrev turns : List Move
turns = receives ∷ reads 2 ∷ writes (7 ∷ []) ∷ serves ∷ reads 2 ∷ shuts_down ∷ []

run-into_async_io_example :
    let (bytes, input, b) = run turns (into_async_io new_handle heard) in
    bytes ++ ahead b ≡ payload heard
unfolding keeps_owner
run-into_async_io_example = run-into_async_io new_handle heard turns refl

run-written_example :
    let (bytes, input, b) = run turns (into_async_io new_handle heard) in
    written b.asked ++ written b.commands ≡ input
run-written_example = run-written new_handle heard turns

some_turns : (run turns (into_async_io new_handle heard)).0 ≡ 1 ∷ 2 ∷ 3 ∷ []
unfolding run move owned into_async_io receive next_message on_message forward serve next_command
    poll_read poll_recv keep_rest poll_write send poll_shutdown
some_turns = refl

-- Variables and the agent, but no PTY.
abbrev plain_shell : Shell ℕ
plain_shell = with_agent_forward (with_env (text "LANG") (text "C") (from_session true))

open_shell-asks_example :
    open_shell opens takes agrees map_shell_error plain_shell []
    ≡ (ok new_handle, shell_requests plain_shell)
unfolding from_session with_env with_agent_forward
open_shell-asks_example = open_shell-asks map_shell_error plain_shell [] refl

-- An empty message is read as if it were the end.
early_end : read 4 new_handle (data_msg [] ∷ heard) ≡ ([], new_handle, heard)
unfolding read read_stdout_buf read_stderr_buf read_channel read_loop read_stdout
early_end = refl
