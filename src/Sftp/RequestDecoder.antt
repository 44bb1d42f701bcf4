-- ===== src/Sftp/RequestDecoder.antt =====
-- crates/russh-extra/src/sftp/packet.rs: the server's decoders of the client's requests. A payload
-- is a packet without its type byte; bytes behind the last field are not looked at.
use russh_extra.Base.{ℕ, Bytes, Text}
use russh_extra.Core.Error.{Result}
use russh_extra.Sftp.Wire.{◌>>=◌, ret, from_start, pop_u32, pop_u64, pop_string, pop_bytes}
use russh_extra.Sftp.Attrs.{SftpFileAttrs, pop_attrs}

unfoldable pub decode_open_request : Bytes → Result (ℕ × Text × ℕ × SftpFileAttrs)
decode_open_request = from_start (do
  id ← pop_u32
  filename ← pop_string
  pflags ← pop_u32
  attrs ← pop_attrs
  ret (id, filename, pflags, attrs))

unfoldable pub decode_close_request : Bytes → Result (ℕ × Text)
decode_close_request = from_start (do id ← pop_u32; handle ← pop_string; ret (id, handle))

unfoldable pub decode_read_request : Bytes → Result (ℕ × Text × ℕ × ℕ)
decode_read_request = from_start (do
  id ← pop_u32
  handle ← pop_string
  offset ← pop_u64
  len ← pop_u32
  ret (id, handle, offset, len))

unfoldable pub decode_write_request : Bytes → Result (ℕ × Text × ℕ × Bytes)
decode_write_request = from_start (do
  id ← pop_u32
  handle ← pop_string
  offset ← pop_u64
  bytes ← pop_bytes
  ret (id, handle, offset, bytes))

unfoldable pub decode_remove_request : Bytes → Result (ℕ × Text)
decode_remove_request = from_start (do id ← pop_u32; filename ← pop_string; ret (id, filename))

unfoldable pub decode_mkdir_request : Bytes → Result (ℕ × Text × SftpFileAttrs)
decode_mkdir_request =
    from_start (do id ← pop_u32; path ← pop_string; attrs ← pop_attrs; ret (id, path, attrs))

unfoldable pub decode_rmdir_request : Bytes → Result (ℕ × Text)
decode_rmdir_request = from_start (do id ← pop_u32; path ← pop_string; ret (id, path))

unfoldable pub decode_opendir_request : Bytes → Result (ℕ × Text)
decode_opendir_request = from_start (do id ← pop_u32; path ← pop_string; ret (id, path))

unfoldable pub decode_readdir_request : Bytes → Result (ℕ × Text)
decode_readdir_request = from_start (do id ← pop_u32; handle ← pop_string; ret (id, handle))

unfoldable pub decode_stat_request : Bytes → Result (ℕ × Text)
decode_stat_request = from_start (do id ← pop_u32; path ← pop_string; ret (id, path))

unfoldable pub decode_lstat_request : Bytes → Result (ℕ × Text)
decode_lstat_request = from_start (do id ← pop_u32; path ← pop_string; ret (id, path))

unfoldable pub decode_fstat_request : Bytes → Result (ℕ × Text)
decode_fstat_request = from_start (do id ← pop_u32; handle ← pop_string; ret (id, handle))

unfoldable pub decode_setstat_request : Bytes → Result (ℕ × Text × SftpFileAttrs)
decode_setstat_request =
    from_start (do id ← pop_u32; path ← pop_string; attrs ← pop_attrs; ret (id, path, attrs))

unfoldable pub decode_fsetstat_request : Bytes → Result (ℕ × Text × SftpFileAttrs)
decode_fsetstat_request =
    from_start (do id ← pop_u32; handle ← pop_string; attrs ← pop_attrs; ret (id, handle, attrs))

unfoldable pub decode_realpath_request : Bytes → Result (ℕ × Text)
decode_realpath_request = from_start (do id ← pop_u32; path ← pop_string; ret (id, path))

unfoldable pub decode_rename_request : Bytes → Result (ℕ × Text × Text)
decode_rename_request =
    from_start
      (do id ← pop_u32; oldpath ← pop_string; newpath ← pop_string; ret (id, oldpath, newpath))

unfoldable pub decode_readlink_request : Bytes → Result (ℕ × Text)
decode_readlink_request = from_start (do id ← pop_u32; path ← pop_string; ret (id, path))

unfoldable pub decode_symlink_request : Bytes → Result (ℕ × Text × Text)
decode_symlink_request = from_start (do
  id ← pop_u32
  linkpath ← pop_string
  targetpath ← pop_string
  ret (id, linkpath, targetpath))
