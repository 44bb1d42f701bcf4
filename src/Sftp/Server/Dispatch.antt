-- ===== src/Sftp/Server/Dispatch.antt =====
-- crates/russh-extra/src/sftp/server.rs: `dispatch_packet` and `handle_data`.
use russh_extra.Base.{ℕ, ◌++◌, Bytes, List, [], ◌∷◌, true, none, some, ◌==◌, if◌then◌else◌, Bool}
use russh_extra.Base.Text.{text}
use russh_extra.Base.Assoc.{lookup, insert}
use russh_extra.Core.Error.{Result, ok, err, SftpErrorKind, sftp_error}
use russh_extra.Sftp.Status.{fx_op_unsupported}
use russh_extra.Sftp.Response.{encode_status_response}
use russh_extra.Sftp.Framing.{Split, complete, bad_length, out_of_fuel, split_packets}
use russh_extra.Sftp.PacketType.{
  fxp_init, fxp_open, fxp_close, fxp_read, fxp_write, fxp_remove, fxp_rename, fxp_mkdir, fxp_rmdir,
  fxp_opendir, fxp_readdir, fxp_stat, fxp_lstat, fxp_fstat, fxp_setstat, fxp_fsetstat, fxp_realpath,
  fxp_readlink, fxp_symlink,
}
use russh_extra.Sftp.Server.Runtime.{SftpServerRuntime, Surroundings, Served, handle_channel_close}
use russh_extra.Sftp.Server.Handlers.{
  handle_init, handle_open, handle_close, handle_read, handle_write, handle_remove, handle_rename,
  handle_mkdir, handle_rmdir, handle_opendir, handle_readdir, handle_stat, handle_lstat,
  handle_fstat, handle_setstat, handle_fsetstat, handle_realpath, handle_readlink, handle_symlink,
}

module _ {S T : Type 0} (env : Surroundings S T) where
  unsupported_response : Bytes
  unsupported_response =
      encode_status_response 0 fx_op_unsupported (text "unsupported SFTP operation")

  unfoldable pub dispatch_packet : Bytes → Served S Bytes
  unfolding unsupported_response sftp_error
  dispatch_packet [] rt = (err (sftp_error SftpErrorKind.protocol (text "empty sftp packet")), rt)
  dispatch_packet (packet_type ∷ payload) rt =
      if packet_type == fxp_init
      then handle_init env payload rt
      else if packet_type == fxp_open
      then handle_open env payload rt
      else if packet_type == fxp_close
      then handle_close env payload rt
      else if packet_type == fxp_read
      then handle_read env payload rt
      else if packet_type == fxp_write
      then handle_write env payload rt
      else if packet_type == fxp_remove
      then handle_remove env payload rt
      else if packet_type == fxp_rename
      then handle_rename env payload rt
      else if packet_type == fxp_mkdir
      then handle_mkdir env payload rt
      else if packet_type == fxp_rmdir
      then handle_rmdir env payload rt
      else if packet_type == fxp_opendir
      then handle_opendir env payload rt
      else if packet_type == fxp_readdir
      then handle_readdir env payload rt
      else if packet_type == fxp_stat
      then handle_stat env payload rt
      else if packet_type == fxp_lstat
      then handle_lstat env payload rt
      else if packet_type == fxp_fstat
      then handle_fstat env payload rt
      else if packet_type == fxp_setstat
      then handle_setstat env payload rt
      else if packet_type == fxp_fsetstat
      then handle_fsetstat env payload rt
      else if packet_type == fxp_realpath
      then handle_realpath env payload rt
      else if packet_type == fxp_readlink
      then handle_readlink env payload rt
      else if packet_type == fxp_symlink
      then handle_symlink env payload rt
      else (ok unsupported_response, rt)

  -- A request that fails is passed over; otherwise, whether the session takes the response.
  unfoldable pub write_response : ℕ → Result Bytes → T → Bool × T
  write_response channel (ok resp) session = env.session_data channel resp session
  write_response channel (err e) session = (true, session)

  -- The loop over the packets: a response that the session does not take ends the call.
  unfoldable pub serve_packets :
      ℕ → List Bytes → SftpServerRuntime S × T → Result (Unit {0}) × (SftpServerRuntime S × T)
  unfolding sftp_error
  serve_packets channel [] st = (ok tt, st)
  serve_packets channel (packet ∷ packets) (rt, session) =
      let (response, rt') = dispatch_packet packet rt in
      let (going_on, session') = write_response channel response session in
      let next = serve_packets channel packets (rt', session') in
      if going_on then next else (
        err (sftp_error SftpErrorKind.channel_io (text "failed to write sftp response")),
        (rt', session'),
      )

  -- What is done with the outcome of the reassembly. The packets before a bad length are dropped.
  unfoldable pub after_split :
      ℕ → Split → SftpServerRuntime S × T → Result (Unit {0}) × (SftpServerRuntime S × T)
  after_split channel (complete packets rest) (rt, session) =
      serve_packets channel packets
        (record rt { buffers = insert channel rest rt.buffers }, session)
  after_split channel (bad_length packets len) (rt, session) =
      (ok tt, (handle_channel_close channel rt, session))
  after_split channel out_of_fuel st = (ok tt, st)

  unfoldable pub handle_data :
      ℕ → Bytes → SftpServerRuntime S × T → Result (Unit {0}) × (SftpServerRuntime S × T)
  unfolding sftp_error
  handle_data channel bytes (rt, session) = elim (lookup channel rt.buffers) [
    | none ↦ (
      err (sftp_error SftpErrorKind.channel_io (text "sftp channel not registered")),
      (rt, session),
    )
    | some buf ↦ after_split channel (split_packets (buf ++ bytes)) (rt, session)
  ]
