-- ===== src/Sftp/Server/Handlers.antt =====
-- crates/russh-extra/src/sftp/server.rs: the handlers of the packet types. Each decodes its request,
-- calls the application's handler, and encodes the outcome; a payload that does not decode is an
-- error, and the application is not called.
use russh_extra.Base.{ℕ, ◌∷◌, [], Bytes, List, map, max, ltb, true, if◌then◌else◌}
use russh_extra.Base.Text.{text}
use russh_extra.Core.Error.{Result, ok, err}
use russh_extra.Sftp.Status.{fx_ok, fx_eof}
use russh_extra.Sftp.RequestDecoder.{
  decode_open_request, decode_close_request, decode_read_request, decode_write_request,
  decode_remove_request, decode_mkdir_request, decode_rmdir_request, decode_opendir_request,
  decode_readdir_request, decode_stat_request, decode_lstat_request, decode_fstat_request,
  decode_setstat_request, decode_fsetstat_request, decode_realpath_request, decode_rename_request,
  decode_readlink_request, decode_symlink_request,
}
use russh_extra.Sftp.Response.{
  Extensions, decode_init_request, encode_version_response, encode_status_response,
  encode_handle_response, encode_data_response, encode_name_response, encode_attrs_response,
}
use russh_extra.Sftp.Metadata.{SftpMetadata, SftpDirEntry, from_packet, to_packet, to_name_entry}
use russh_extra.Sftp.Handler.{Call}
use russh_extra.Sftp.Server.Runtime.{Surroundings, Served, sftp_error_status}

-- `let request = decode(payload)?; …`
unfoldable pub decoding : {S A B : Type 0} → Result A → (A → Served S B) → Served S B
decoding (ok a) k rt = k a rt
decoding (err e) k rt = (err e, rt)

module _ {S T : Type 0} (env : Surroundings S T) where
  -- `match … { Ok(a) => Ok(answer(a)), Err(e) => Ok(sftp_error_status(id, &e)) }`
  unfoldable pub respond : {A : Type 0} → ℕ → (A → Bytes) → Result A × S → Served S Bytes
  respond id answer (ok a, s) rt = (ok (answer a), record rt { handler_state = s })
  respond id answer (err e, s) rt =
      (ok (sftp_error_status env.display id e), record rt { handler_state = s })

  -- One call of the application's handler, and the response to its outcome.
  unfoldable pub responding : {A : Type 0} → ℕ → (A → Bytes) → Call S A → Served S Bytes
  unfolding respond
  responding id answer call rt = respond id answer (call rt.handler_state) rt

  unfoldable pub ok_status : ℕ → Unit {0} → Bytes
  ok_status id _ = encode_status_response id fx_ok (text "OK")

  unfoldable pub data_or_eof : ℕ → Bytes → Bytes
  data_or_eof id [] = encode_status_response id fx_eof (text "End of file")
  data_or_eof id (b ∷ bs) = encode_data_response id (b ∷ bs)

  unfoldable pub names : ℕ → List SftpDirEntry → Bytes
  names id entries = encode_name_response id (map to_name_entry entries)

  unfoldable pub names_or_eof : ℕ → List SftpDirEntry → Bytes
  names_or_eof id [] = encode_status_response id fx_eof (text "End of directory")
  names_or_eof id (e ∷ es) = names id (e ∷ es)

  unfoldable pub attributes : ℕ → SftpMetadata → Bytes
  attributes id m = encode_attrs_response id (to_packet m)

  unfoldable pub settle_version : Result ℕ → Served S Bytes
  settle_version (err e) rt = (err e, rt)
  settle_version (ok negotiated) rt = (
    ok (encode_version_response (max negotiated 3) []),
    record rt { version = max negotiated 3; negotiated = true },
  )

  unfoldable pub negotiate : ℕ × Extensions → Served S Bytes
  negotiate (version, extensions) rt =
      let (result, s) = env.handler.init version extensions rt.handler_state in
      if ltb version 3
      then (ok (encode_version_response 3 []), rt)
      else settle_version result (record rt { handler_state = s })

  -- A client below version 3 is answered, and nothing is negotiated.
  unfoldable pub handle_init : Bytes → Served S Bytes
  handle_init payload = decoding (decode_init_request payload) negotiate

  unfoldable pub handle_open : Bytes → Served S Bytes
  handle_open payload = decoding (decode_open_request payload) λ (id, filename, pflags, attrs).
      responding id (encode_handle_response id)
        (env.handler.open_file id filename pflags (from_packet attrs))

  unfoldable pub handle_close : Bytes → Served S Bytes
  handle_close payload =
      decoding (decode_close_request payload)
        λ (id, handle). responding id (ok_status id) (env.handler.close id handle)

  unfoldable pub handle_read : Bytes → Served S Bytes
  handle_read payload = decoding (decode_read_request payload) λ (id, handle, offset, len).
      responding id (data_or_eof id) (env.handler.read id handle offset len)

  unfoldable pub handle_write : Bytes → Served S Bytes
  handle_write payload = decoding (decode_write_request payload) λ (id, handle, offset, bytes).
      responding id (ok_status id) (env.handler.write id handle offset bytes)

  unfoldable pub handle_remove : Bytes → Served S Bytes
  handle_remove payload =
      decoding (decode_remove_request payload)
        λ (id, filename). responding id (ok_status id) (env.handler.remove id filename)

  unfoldable pub handle_rename : Bytes → Served S Bytes
  handle_rename payload =
      decoding (decode_rename_request payload) λ (id, oldpath, newpath).
        responding id (ok_status id) (env.handler.rename id oldpath newpath)

  unfoldable pub handle_mkdir : Bytes → Served S Bytes
  handle_mkdir payload = decoding (decode_mkdir_request payload) λ (id, path, attrs).
      responding id (ok_status id) (env.handler.mkdir id path (from_packet attrs))

  unfoldable pub handle_rmdir : Bytes → Served S Bytes
  handle_rmdir payload =
      decoding (decode_rmdir_request payload)
        λ (id, path). responding id (ok_status id) (env.handler.rmdir id path)

  unfoldable pub handle_opendir : Bytes → Served S Bytes
  handle_opendir payload =
      decoding (decode_opendir_request payload)
        λ (id, path). responding id (encode_handle_response id) (env.handler.opendir id path)

  unfoldable pub handle_readdir : Bytes → Served S Bytes
  handle_readdir payload =
      decoding (decode_readdir_request payload)
        λ (id, handle). responding id (names_or_eof id) (env.handler.readdir id handle)

  unfoldable pub handle_stat : Bytes → Served S Bytes
  handle_stat payload =
      decoding (decode_stat_request payload)
        λ (id, path). responding id (attributes id) (env.handler.stat id path)

  unfoldable pub handle_lstat : Bytes → Served S Bytes
  handle_lstat payload =
      decoding (decode_lstat_request payload)
        λ (id, path). responding id (attributes id) (env.handler.lstat id path)

  unfoldable pub handle_fstat : Bytes → Served S Bytes
  handle_fstat payload =
      decoding (decode_fstat_request payload)
        λ (id, handle). responding id (attributes id) (env.handler.fstat id handle)

  unfoldable pub handle_setstat : Bytes → Served S Bytes
  handle_setstat payload = decoding (decode_setstat_request payload) λ (id, path, attrs).
      responding id (ok_status id) (env.handler.setstat id path (from_packet attrs))

  unfoldable pub handle_fsetstat : Bytes → Served S Bytes
  handle_fsetstat payload = decoding (decode_fsetstat_request payload) λ (id, handle, attrs).
      responding id (ok_status id) (env.handler.fsetstat id handle (from_packet attrs))

  unfoldable pub handle_realpath : Bytes → Served S Bytes
  handle_realpath payload =
      decoding (decode_realpath_request payload)
        λ (id, path). responding id (names id) (env.handler.realpath id path)

  unfoldable pub handle_readlink : Bytes → Served S Bytes
  handle_readlink payload =
      decoding (decode_readlink_request payload)
        λ (id, path). responding id (names id) (env.handler.readlink id path)

  unfoldable pub handle_symlink : Bytes → Served S Bytes
  handle_symlink payload = decoding (decode_symlink_request payload) λ (id, linkpath, targetpath).
      responding id (ok_status id) (env.handler.symlink id linkpath targetpath)
