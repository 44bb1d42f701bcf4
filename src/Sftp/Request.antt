-- ===== src/Sftp/Request.antt =====
-- crates/russh-extra/src/sftp/packet.rs: the requests that the client writes. A buffer is built by nested pushes, the first field innermost.
use russh_extra.Base.{ℕ, Bytes, Text, []}
use russh_extra.Sftp.Wire.{frame, push_u32, push_u64, push_string, push_bytes}
use russh_extra.Sftp.Attrs.{SftpFileAttrs, push_attrs}
use russh_extra.Sftp.PacketType.{
  fxp_init, fxp_open, fxp_close, fxp_read, fxp_write, fxp_stat, fxp_lstat, fxp_fstat, fxp_setstat,
  fxp_opendir, fxp_readdir, fxp_remove, fxp_mkdir, fxp_rmdir, fxp_realpath, fxp_rename,
  fxp_readlink, fxp_symlink, fxp_fsetstat,
}

-- The version, and no extensions.
unfoldable pub encode_init : ℕ → Bytes
encode_init version = frame fxp_init (push_u32 (push_u32 [] version) 0)

unfoldable pub encode_open : ℕ → Text → ℕ → SftpFileAttrs → Bytes
encode_open id filename pflags attrs =
    frame fxp_open (push_attrs (push_u32 (push_string (push_u32 [] id) filename) pflags) attrs)

unfoldable pub encode_close : ℕ → Text → Bytes
encode_close id handle = frame fxp_close (push_string (push_u32 [] id) handle)

unfoldable pub encode_read : ℕ → Text → ℕ → ℕ → Bytes
encode_read id handle offset len =
    frame fxp_read (push_u32 (push_u64 (push_string (push_u32 [] id) handle) offset) len)

unfoldable pub encode_write : ℕ → Text → ℕ → Bytes → Bytes
encode_write id handle offset bytes =
    frame fxp_write (push_bytes (push_u64 (push_string (push_u32 [] id) handle) offset) bytes)

unfoldable pub encode_stat : ℕ → Text → Bytes
encode_stat id path = frame fxp_stat (push_string (push_u32 [] id) path)

unfoldable pub encode_lstat : ℕ → Text → Bytes
encode_lstat id path = frame fxp_lstat (push_string (push_u32 [] id) path)

unfoldable pub encode_fstat : ℕ → Text → Bytes
encode_fstat id handle = frame fxp_fstat (push_string (push_u32 [] id) handle)

unfoldable pub encode_setstat : ℕ → Text → SftpFileAttrs → Bytes
encode_setstat id path attrs =
    frame fxp_setstat (push_attrs (push_string (push_u32 [] id) path) attrs)

unfoldable pub encode_opendir : ℕ → Text → Bytes
encode_opendir id path = frame fxp_opendir (push_string (push_u32 [] id) path)

unfoldable pub encode_readdir : ℕ → Text → Bytes
encode_readdir id handle = frame fxp_readdir (push_string (push_u32 [] id) handle)

unfoldable pub encode_remove : ℕ → Text → Bytes
encode_remove id filename = frame fxp_remove (push_string (push_u32 [] id) filename)

unfoldable pub encode_mkdir : ℕ → Text → SftpFileAttrs → Bytes
encode_mkdir id path attrs = frame fxp_mkdir (push_attrs (push_string (push_u32 [] id) path) attrs)

unfoldable pub encode_rmdir : ℕ → Text → Bytes
encode_rmdir id path = frame fxp_rmdir (push_string (push_u32 [] id) path)

unfoldable pub encode_realpath : ℕ → Text → Bytes
encode_realpath id path = frame fxp_realpath (push_string (push_u32 [] id) path)

unfoldable pub encode_rename : ℕ → Text → Text → Bytes
encode_rename id oldpath newpath =
    frame fxp_rename (push_string (push_string (push_u32 [] id) oldpath) newpath)

unfoldable pub encode_readlink : ℕ → Text → Bytes
encode_readlink id path = frame fxp_readlink (push_string (push_u32 [] id) path)

unfoldable pub encode_symlink : ℕ → Text → Text → Bytes
encode_symlink id linkpath targetpath =
    frame fxp_symlink (push_string (push_string (push_u32 [] id) linkpath) targetpath)

unfoldable pub encode_fsetstat : ℕ → Text → SftpFileAttrs → Bytes
encode_fsetstat id handle attrs =
    frame fxp_fsetstat (push_attrs (push_string (push_u32 [] id) handle) attrs)
