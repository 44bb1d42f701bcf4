-- ===== src/Sftp/Exchange/Decoding.antt =====
-- The server's request decoders (crates/russh-extra/src/sftp/packet.rs) on the fields of a request.
-- The decoders of one shape share a lemma about the chain of reads.
use russh_extra.Base.{ℕ, ◌≤◌, ◌≡◌, ◌++◌, [], Bytes, Text, length}
use russh_extra.Base.Word.{IsU32, IsU64, u32_bytes, u64_bytes}
use russh_extra.Core.Error.{ok}
use russh_extra.Sftp.Wire.{
  ◌>>=◌, ret, pop_u32, pop_u64, pop_string, pop_bytes, max_sftp_packet_size,
}
use russh_extra.Sftp.Wire.Reads.{
  Reads, ret-Reads, >>=-Reads, pop_u32-Reads, pop_u64-Reads, pop_bytes-Reads, pop_string-Reads,
  from_start-Reads, IsSendable, bytes_wire,
}
use russh_extra.Sftp.Attrs.{SftpFileAttrs, pop_attrs}
use russh_extra.Sftp.Attrs.Reads.{attrs_wire, canonical, pop_attrs-Reads, IsReadable}
use russh_extra.Sftp.RequestDecoder.{
  decode_open_request, decode_close_request, decode_read_request, decode_write_request,
  decode_stat_request, decode_lstat_request, decode_fstat_request, decode_setstat_request,
  decode_opendir_request, decode_readdir_request, decode_remove_request, decode_mkdir_request,
  decode_rmdir_request, decode_realpath_request, decode_rename_request, decode_readlink_request,
  decode_symlink_request, decode_fsetstat_request,
}
use russh_extra.Sftp.Exchange.Fields.{
  Request, IsSendableRequest, fields, open_file, close, read, write, stat, lstat, fstat, setstat,
  opendir, readdir, remove, mkdir, rmdir, realpath, rename, readlink, symlink, fsetstat,
}

pub pop_readable : (a : SftpFileAttrs) → IsReadable a → Reads pop_attrs (attrs_wire a) (canonical a)
pop_readable a h = pop_attrs-Reads a h.in_range h.plain

module _ (id : ℕ) (hid : IsU32 id) (s : Text) (hs : IsSendable s) where
  one_string :
      Reads {A = ℕ × Text}
        (do i ← pop_u32; s' ← pop_string; ret (i, s'))
        (u32_bytes id ++ (bytes_wire s ++ []))
        (id, s)
  one_string =
      >>=-Reads _ (pop_u32-Reads id hid) (>>=-Reads _ (pop_string-Reads s hs) (ret-Reads _))

  two_strings :
      (t : Text) (ht : IsSendable t)
      → Reads {A = ℕ × Text × Text}
          (do i ← pop_u32; s' ← pop_string; t' ← pop_string; ret (i, s', t'))
          (u32_bytes id ++ (bytes_wire s ++ (bytes_wire t ++ [])))
          (id, s, t)
  two_strings t ht =
      >>=-Reads _ (pop_u32-Reads id hid)
        (>>=-Reads _ (pop_string-Reads s hs) (>>=-Reads _ (pop_string-Reads t ht) (ret-Reads _)))

  string_attrs :
      (a : SftpFileAttrs) (ha : IsReadable a)
      → Reads {A = ℕ × Text × SftpFileAttrs}
          (do i ← pop_u32; s' ← pop_string; a' ← pop_attrs; ret (i, s', a'))
          (u32_bytes id ++ (bytes_wire s ++ (attrs_wire a ++ [])))
          (id, s, canonical a)
  string_attrs a ha =
      >>=-Reads _ (pop_u32-Reads id hid)
        (>>=-Reads _ (pop_string-Reads s hs) (>>=-Reads _ (pop_readable a ha) (ret-Reads _)))

  string_range :
      (n : ℕ) (hn : IsU64 n) (k : ℕ) (hk : IsU32 k)
      → Reads {A = ℕ × Text × ℕ × ℕ}
          (do i ← pop_u32; s' ← pop_string; n' ← pop_u64; k' ← pop_u32; ret (i, s', n', k'))
          (u32_bytes id ++ (bytes_wire s ++ (u64_bytes n ++ (u32_bytes k ++ []))))
          (id, s, n, k)
  string_range n hn k hk = >>=-Reads _ (pop_u32-Reads id hid) (
      >>=-Reads _ (pop_string-Reads s hs)
        (>>=-Reads _ (pop_u64-Reads n hn) (>>=-Reads _ (pop_u32-Reads k hk) (ret-Reads _))))

  string_data :
      (n : ℕ) (hn : IsU64 n) (bs : Bytes) (hbs : length bs ≤ max_sftp_packet_size)
      → Reads {A = ℕ × Text × ℕ × Bytes}
          (do i ← pop_u32; s' ← pop_string; n' ← pop_u64; bs' ← pop_bytes; ret (i, s', n', bs'))
          (u32_bytes id ++ (bytes_wire s ++ (u64_bytes n ++ (bytes_wire bs ++ []))))
          (id, s, n, bs)
  string_data n hn bs hbs = >>=-Reads _ (pop_u32-Reads id hid) (
      >>=-Reads _ (pop_string-Reads s hs)
        (>>=-Reads _ (pop_u64-Reads n hn) (>>=-Reads _ (pop_bytes-Reads bs hbs) (ret-Reads _))))

  string_flags :
      (k : ℕ) (hk : IsU32 k) (a : SftpFileAttrs) (ha : IsReadable a)
      → Reads {A = ℕ × Text × ℕ × SftpFileAttrs}
          (do i ← pop_u32; s' ← pop_string; k' ← pop_u32; a' ← pop_attrs; ret (i, s', k', a'))
          (u32_bytes id ++ (bytes_wire s ++ (u32_bytes k ++ (attrs_wire a ++ []))))
          (id, s, k, canonical a)
  string_flags k hk a ha = >>=-Reads _ (pop_u32-Reads id hid) (
      >>=-Reads _ (pop_string-Reads s hs)
        (>>=-Reads _ (pop_u32-Reads k hk) (>>=-Reads _ (pop_readable a ha) (ret-Reads _))))

-- What the server's decoder of the request's packet type returns, as an equation for each request.
abbrev pub Decodes : ℕ → Bytes → Request → Type 0
Decodes id payload (open_file filename pflags attrs) =
    decode_open_request payload ≡ ok (id, filename, pflags, canonical attrs)
Decodes id payload (close handle) = decode_close_request payload ≡ ok (id, handle)
Decodes id payload (read handle offset len) =
    decode_read_request payload ≡ ok (id, handle, offset, len)
Decodes id payload (write handle offset bytes) =
    decode_write_request payload ≡ ok (id, handle, offset, bytes)
Decodes id payload (stat path) = decode_stat_request payload ≡ ok (id, path)
Decodes id payload (lstat path) = decode_lstat_request payload ≡ ok (id, path)
Decodes id payload (fstat handle) = decode_fstat_request payload ≡ ok (id, handle)
Decodes id payload (setstat path attrs) =
    decode_setstat_request payload ≡ ok (id, path, canonical attrs)
Decodes id payload (opendir path) = decode_opendir_request payload ≡ ok (id, path)
Decodes id payload (readdir handle) = decode_readdir_request payload ≡ ok (id, handle)
Decodes id payload (remove filename) = decode_remove_request payload ≡ ok (id, filename)
Decodes id payload (mkdir path attrs) =
    decode_mkdir_request payload ≡ ok (id, path, canonical attrs)
Decodes id payload (rmdir path) = decode_rmdir_request payload ≡ ok (id, path)
Decodes id payload (realpath path) = decode_realpath_request payload ≡ ok (id, path)
Decodes id payload (rename oldpath newpath) =
    decode_rename_request payload ≡ ok (id, oldpath, newpath)
Decodes id payload (readlink path) = decode_readlink_request payload ≡ ok (id, path)
Decodes id payload (symlink linkpath targetpath) =
    decode_symlink_request payload ≡ ok (id, linkpath, targetpath)
Decodes id payload (fsetstat handle attrs) =
    decode_fsetstat_request payload ≡ ok (id, handle, canonical attrs)

-- For an id and fields in range, each of the 18 request decoders returns from the fields of its
-- request, whatever bytes follow them, the id and the fields that were encoded, with attributes
-- in canonical form.
pub decode-fields :
    (id : ℕ) (r : Request) (rest : Bytes)
    → IsU32 id
    → IsSendableRequest r
    → Decodes id (fields id r ++ rest) r
unfolding fields decode_open_request decode_close_request decode_read_request decode_write_request
    decode_stat_request decode_lstat_request decode_fstat_request decode_setstat_request
    decode_opendir_request decode_readdir_request decode_remove_request decode_mkdir_request
    decode_rmdir_request decode_realpath_request decode_rename_request decode_readlink_request
    decode_symlink_request decode_fsetstat_request
decode-fields id (open_file filename pflags attrs) rest hid (h0, h1, h2) =
    from_start-Reads _ rest (string_flags id hid filename h0 pflags h1 attrs h2)
decode-fields id (close handle) rest hid h = from_start-Reads _ rest (one_string id hid handle h)
decode-fields id (read handle offset len) rest hid (h0, h1, h2) =
    from_start-Reads _ rest (string_range id hid handle h0 offset h1 len h2)
decode-fields id (write handle offset bytes) rest hid (h0, h1, h2) =
    from_start-Reads _ rest (string_data id hid handle h0 offset h1 bytes h2)
decode-fields id (stat path) rest hid h = from_start-Reads _ rest (one_string id hid path h)
decode-fields id (lstat path) rest hid h = from_start-Reads _ rest (one_string id hid path h)
decode-fields id (fstat handle) rest hid h = from_start-Reads _ rest (one_string id hid handle h)
decode-fields id (setstat path attrs) rest hid (h0, h1) =
    from_start-Reads _ rest (string_attrs id hid path h0 attrs h1)
decode-fields id (opendir path) rest hid h = from_start-Reads _ rest (one_string id hid path h)
decode-fields id (readdir handle) rest hid h = from_start-Reads _ rest (one_string id hid handle h)
decode-fields id (remove filename) rest hid h =
    from_start-Reads _ rest (one_string id hid filename h)
decode-fields id (mkdir path attrs) rest hid (h0, h1) =
    from_start-Reads _ rest (string_attrs id hid path h0 attrs h1)
decode-fields id (rmdir path) rest hid h = from_start-Reads _ rest (one_string id hid path h)
decode-fields id (realpath path) rest hid h = from_start-Reads _ rest (one_string id hid path h)
decode-fields id (rename oldpath newpath) rest hid (h0, h1) =
    from_start-Reads _ rest (two_strings id hid oldpath h0 newpath h1)
decode-fields id (readlink path) rest hid h = from_start-Reads _ rest (one_string id hid path h)
decode-fields id (symlink linkpath targetpath) rest hid (h0, h1) =
    from_start-Reads _ rest (two_strings id hid linkpath h0 targetpath h1)
decode-fields id (fsetstat handle attrs) rest hid (h0, h1) =
    from_start-Reads _ rest (string_attrs id hid handle h0 attrs h1)
