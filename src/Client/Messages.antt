-- ===== src/Client/Messages.antt =====
-- crates/russh-extra/src/client.rs: what the messages of a command's channel say.
use russh_extra.Base.{Bytes, Bool, true, false, List, [], ◌∷◌, ◌++◌}
use russh_extra.Core.Error.{CommandExit, status, signal}
use russh_extra.Client.Command.{
  ChannelMsg, success, failure, data_msg, extended_data, exit_status, exit_signal, close_msg,
}

-- What a peer says up to its close.
unfoldable pub has_close : List ChannelMsg → Bool
has_close [] = false
has_close (close_msg ∷ msgs) = true
has_close (_ ∷ msgs) = has_close msgs

unfoldable pub confirmed : List ChannelMsg → Bool
confirmed [] = false
confirmed (close_msg ∷ msgs) = false
confirmed (success ∷ msgs) = true
confirmed (_ ∷ msgs) = confirmed msgs

unfoldable pub refused : List ChannelMsg → Bool
refused [] = false
refused (close_msg ∷ msgs) = false
refused (failure ∷ msgs) = true
refused (_ ∷ msgs) = refused msgs

unfoldable pub stdout_of : List ChannelMsg → Bytes
stdout_of [] = []
stdout_of (close_msg ∷ msgs) = []
stdout_of (data_msg bytes ∷ msgs) = bytes ++ stdout_of msgs
stdout_of (_ ∷ msgs) = stdout_of msgs

unfoldable pub stderr_of : List ChannelMsg → Bytes
stderr_of [] = []
stderr_of (close_msg ∷ msgs) = []
stderr_of (extended_data code bytes ∷ msgs) = bytes ++ stderr_of msgs
stderr_of (_ ∷ msgs) = stderr_of msgs

unfoldable pub has_exit : List ChannelMsg → Bool
has_exit [] = false
has_exit (close_msg ∷ msgs) = false
has_exit (exit_status n ∷ msgs) = true
has_exit (exit_signal name core_dumped ∷ msgs) = true
has_exit (_ ∷ msgs) = has_exit msgs

-- The first exit, or the one given.
unfoldable pub first_exit : CommandExit → List ChannelMsg → CommandExit
first_exit exit [] = exit
first_exit exit (close_msg ∷ msgs) = exit
first_exit exit (exit_status n ∷ msgs) = status n
first_exit exit (exit_signal name core_dumped ∷ msgs) = signal name core_dumped
first_exit exit (_ ∷ msgs) = first_exit exit msgs
