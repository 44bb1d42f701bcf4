-- ===== src/Sftp/Exchange/Fields.antt =====
-- A request as data, apart from its wire form, with the condition under which it can be sent.
use russh_extra.Base.{ℕ, ◌≤◌, ◌≡◌, ◌++◌, [], Bytes, Text, length}
use russh_extra.Base.Word.{IsU32, IsU64, u32_bytes, u64_bytes}
use russh_extra.Sftp.Wire.{frame, max_sftp_packet_size}
use russh_extra.Sftp.Wire.Reads.{IsSendable, bytes_wire, pushes}
use russh_extra.Sftp.Attrs.{SftpFileAttrs}
use russh_extra.Sftp.Attrs.Reads.{attrs_wire, push_attrs_lem, IsReadable}
use russh_extra.Sftp.PacketType.{
  fxp_open, fxp_close, fxp_read, fxp_write, fxp_stat, fxp_lstat, fxp_fstat, fxp_setstat,
  fxp_opendir, fxp_readdir, fxp_remove, fxp_mkdir, fxp_rmdir, fxp_realpath, fxp_rename,
  fxp_readlink, fxp_symlink, fxp_fsetstat,
}
use russh_extra.Sftp.Request.{
  encode_open, encode_close, encode_read, encode_write, encode_stat, encode_lstat, encode_fstat,
  encode_setstat, encode_opendir, encode_readdir, encode_remove, encode_mkdir, encode_rmdir,
  encode_realpath, encode_rename, encode_readlink, encode_symlink, encode_fsetstat,
}

pub data Request : Type 0 where
  open_file : Text → ℕ → SftpFileAttrs → Request
  close : Text → Request
  read : Text → ℕ → ℕ → Request
  write : Text → ℕ → Bytes → Request
  stat : Text → Request
  lstat : Text → Request
  fstat : Text → Request
  setstat : Text → SftpFileAttrs → Request
  opendir : Text → Request
  readdir : Text → Request
  remove : Text → Request
  mkdir : Text → SftpFileAttrs → Request
  rmdir : Text → Request
  realpath : Text → Request
  rename : Text → Text → Request
  readlink : Text → Request
  symlink : Text → Text → Request
  fsetstat : Text → SftpFileAttrs → Request

-- The ranges of the argument types, and strings and data that are not too long.
abbrev pub IsSendableRequest : Request → Type 0
IsSendableRequest (open_file filename pflags attrs) =
    IsSendable filename × IsU32 pflags × IsReadable attrs
IsSendableRequest (close handle) = IsSendable handle
IsSendableRequest (read handle offset len) = IsSendable handle × IsU64 offset × IsU32 len
IsSendableRequest (write handle offset bytes) =
    IsSendable handle × IsU64 offset × (length bytes ≤ max_sftp_packet_size)
IsSendableRequest (stat path) = IsSendable path
IsSendableRequest (lstat path) = IsSendable path
IsSendableRequest (fstat handle) = IsSendable handle
IsSendableRequest (setstat path attrs) = IsSendable path × IsReadable attrs
IsSendableRequest (opendir path) = IsSendable path
IsSendableRequest (readdir handle) = IsSendable handle
IsSendableRequest (remove filename) = IsSendable filename
IsSendableRequest (mkdir path attrs) = IsSendable path × IsReadable attrs
IsSendableRequest (rmdir path) = IsSendable path
IsSendableRequest (realpath path) = IsSendable path
IsSendableRequest (rename oldpath newpath) = IsSendable oldpath × IsSendable newpath
IsSendableRequest (readlink path) = IsSendable path
IsSendableRequest (symlink linkpath targetpath) = IsSendable linkpath × IsSendable targetpath
IsSendableRequest (fsetstat handle attrs) = IsSendable handle × IsReadable attrs

abbrev pub packet_type : Request → ℕ
packet_type (open_file _ _ _) = fxp_open
packet_type (close _) = fxp_close
packet_type (read _ _ _) = fxp_read
packet_type (write _ _ _) = fxp_write
packet_type (stat _) = fxp_stat
packet_type (lstat _) = fxp_lstat
packet_type (fstat _) = fxp_fstat
packet_type (setstat _ _) = fxp_setstat
packet_type (opendir _) = fxp_opendir
packet_type (readdir _) = fxp_readdir
packet_type (remove _) = fxp_remove
packet_type (mkdir _ _) = fxp_mkdir
packet_type (rmdir _) = fxp_rmdir
packet_type (realpath _) = fxp_realpath
packet_type (rename _ _) = fxp_rename
packet_type (readlink _) = fxp_readlink
packet_type (symlink _ _) = fxp_symlink
packet_type (fsetstat _ _) = fxp_fsetstat

-- The request as the code of the client writes it.
unfoldable pub encode_request : ℕ → Request → Bytes
encode_request id (open_file filename pflags attrs) = encode_open id filename pflags attrs
encode_request id (close handle) = encode_close id handle
encode_request id (read handle offset len) = encode_read id handle offset len
encode_request id (write handle offset bytes) = encode_write id handle offset bytes
encode_request id (stat path) = encode_stat id path
encode_request id (lstat path) = encode_lstat id path
encode_request id (fstat handle) = encode_fstat id handle
encode_request id (setstat path attrs) = encode_setstat id path attrs
encode_request id (opendir path) = encode_opendir id path
encode_request id (readdir handle) = encode_readdir id handle
encode_request id (remove filename) = encode_remove id filename
encode_request id (mkdir path attrs) = encode_mkdir id path attrs
encode_request id (rmdir path) = encode_rmdir id path
encode_request id (realpath path) = encode_realpath id path
encode_request id (rename oldpath newpath) = encode_rename id oldpath newpath
encode_request id (readlink path) = encode_readlink id path
encode_request id (symlink linkpath targetpath) = encode_symlink id linkpath targetpath
encode_request id (fsetstat handle attrs) = encode_fsetstat id handle attrs

-- The fields, one behind the other.
unfoldable pub fields : ℕ → Request → Bytes
fields id (open_file filename pflags attrs) =
    u32_bytes id ++ (bytes_wire filename ++ (u32_bytes pflags ++ (attrs_wire attrs ++ [])))
fields id (close handle) = u32_bytes id ++ (bytes_wire handle ++ [])
fields id (read handle offset len) =
    u32_bytes id ++ (bytes_wire handle ++ (u64_bytes offset ++ (u32_bytes len ++ [])))
fields id (write handle offset bytes) =
    u32_bytes id ++ (bytes_wire handle ++ (u64_bytes offset ++ (bytes_wire bytes ++ [])))
fields id (stat path) = u32_bytes id ++ (bytes_wire path ++ [])
fields id (lstat path) = u32_bytes id ++ (bytes_wire path ++ [])
fields id (fstat handle) = u32_bytes id ++ (bytes_wire handle ++ [])
fields id (setstat path attrs) = u32_bytes id ++ (bytes_wire path ++ (attrs_wire attrs ++ []))
fields id (opendir path) = u32_bytes id ++ (bytes_wire path ++ [])
fields id (readdir handle) = u32_bytes id ++ (bytes_wire handle ++ [])
fields id (remove filename) = u32_bytes id ++ (bytes_wire filename ++ [])
fields id (mkdir path attrs) = u32_bytes id ++ (bytes_wire path ++ (attrs_wire attrs ++ []))
fields id (rmdir path) = u32_bytes id ++ (bytes_wire path ++ [])
fields id (realpath path) = u32_bytes id ++ (bytes_wire path ++ [])
fields id (rename oldpath newpath) =
    u32_bytes id ++ (bytes_wire oldpath ++ (bytes_wire newpath ++ []))
fields id (readlink path) = u32_bytes id ++ (bytes_wire path ++ [])
fields id (symlink linkpath targetpath) =
    u32_bytes id ++ (bytes_wire linkpath ++ (bytes_wire targetpath ++ []))
fields id (fsetstat handle attrs) = u32_bytes id ++ (bytes_wire handle ++ (attrs_wire attrs ++ []))

-- Each of the 18 request encoders writes the frame of its packet type around the id and the
-- fields of its request in their wire form, for any id and fields.
pub encode_request_lem :
    (id : ℕ) (r : Request) → encode_request id r ≡ frame (packet_type r) (fields id r)
unfolding encode_request fields encode_open encode_close encode_read encode_write encode_stat
    encode_lstat encode_fstat encode_setstat encode_opendir encode_readdir encode_remove
    encode_mkdir encode_rmdir encode_realpath encode_rename encode_readlink encode_symlink
    encode_fsetstat
encode_request_lem id (open_file filename pflags attrs) = simp (pushes, push_attrs_lem)
encode_request_lem id (close handle) = simp pushes
encode_request_lem id (read handle offset len) = simp pushes
encode_request_lem id (write handle offset bytes) = simp pushes
encode_request_lem id (stat path) = simp pushes
encode_request_lem id (lstat path) = simp pushes
encode_request_lem id (fstat handle) = simp pushes
encode_request_lem id (setstat path attrs) = simp (pushes, push_attrs_lem)
encode_request_lem id (opendir path) = simp pushes
encode_request_lem id (readdir handle) = simp pushes
encode_request_lem id (remove filename) = simp pushes
encode_request_lem id (mkdir path attrs) = simp (pushes, push_attrs_lem)
encode_request_lem id (rmdir path) = simp pushes
encode_request_lem id (realpath path) = simp pushes
encode_request_lem id (rename oldpath newpath) = simp pushes
encode_request_lem id (readlink path) = simp pushes
encode_request_lem id (symlink linkpath targetpath) = simp pushes
encode_request_lem id (fsetstat handle attrs) = simp (pushes, push_attrs_lem)
