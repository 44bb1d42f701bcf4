-- ===== src/Sftp/Exchange/Answers.antt =====
-- What a server is to answer: each request is one call of the application's handler, and the
-- outcome of the call is the answer.
use russh_extra.Base.{ℕ, ◌∷◌, [], Bytes, Text, List, map}
use russh_extra.Base.Text.{text}
use russh_extra.Core.Error.{Error, Result, ok, err}
use russh_extra.Sftp.Status.{fx_ok, fx_eof}
use russh_extra.Sftp.Attrs.{SftpFileAttrs}
use russh_extra.Sftp.Attrs.Reads.{canonical}
use russh_extra.Sftp.Response.{
  SftpNameEntry, encode_status_response, encode_handle_response, encode_data_response,
  encode_name_response, encode_attrs_response,
}
use russh_extra.Sftp.Metadata.{SftpMetadata, SftpDirEntry, from_packet, to_packet, to_name_entry}
use russh_extra.Sftp.Handler.{SftpServerHandler}
use russh_extra.Sftp.Server.Runtime.{sftp_status_from_error}
use russh_extra.Sftp.Exchange.Fields.{
  Request, open_file, close, read, write, stat, lstat, fstat, setstat, opendir, readdir, remove,
  mkdir, rmdir, realpath, rename, readlink, symlink, fsetstat,
}

pub data Answer : Type 0 where
  status : ℕ → Text → Answer
  handle : Text → Answer
  contents : Bytes → Answer
  name : List SftpNameEntry → Answer
  attributes : SftpFileAttrs → Answer

-- The answer as the code of the server writes it.
unfoldable pub encode_answer : ℕ → Answer → Bytes
encode_answer id (status code msg) = encode_status_response id code msg
encode_answer id (handle h) = encode_handle_response id h
encode_answer id (contents bytes) = encode_data_response id bytes
encode_answer id (name entries) = encode_name_response id entries
encode_answer id (attributes a) = encode_attrs_response id a

-- An empty result of `read` or `readdir` stands for the end.
abbrev pub read_answer : Bytes → Answer
read_answer [] = status fx_eof (text "End of file")
read_answer (b ∷ bs) = contents (b ∷ bs)

abbrev pub entries_answer : List SftpDirEntry → Answer
entries_answer entries = name (map to_name_entry entries)

abbrev pub readdir_answer : List SftpDirEntry → Answer
readdir_answer [] = status fx_eof (text "End of directory")
readdir_answer (e ∷ es) = entries_answer (e ∷ es)

abbrev pub done_answer : Unit {0} → Answer
done_answer _ = status fx_ok (text "OK")

abbrev pub metadata_answer : SftpMetadata → Answer
metadata_answer m = attributes (to_packet m)

module _ {S : Type 0} (h : SftpServerHandler S) (display : Error → Text) where
  -- A successful call answers with its value, and a failed one with its status.
  abbrev pub answered : {A : Type 0} → (A → Answer) → Result A × S → Answer × S
  answered f (ok a, s) = (f a, s)
  answered f (err e, s) =
      let (code, message) = sftp_status_from_error display e in (status code message, s)

  -- The handler sees the attributes that are on the wire.
  unfoldable pub perform : ℕ → Request → S → Answer × S
  perform id (open_file filename pflags attrs) s =
      answered (handle) (h.open_file id filename pflags (from_packet (canonical attrs)) s)
  perform id (close h') s = answered (done_answer) (h.close id h' s)
  perform id (read h' offset len) s = answered (read_answer) (h.read id h' offset len s)
  perform id (write h' offset bytes) s = answered (done_answer) (h.write id h' offset bytes s)
  perform id (stat path) s = answered (metadata_answer) (h.stat id path s)
  perform id (lstat path) s = answered (metadata_answer) (h.lstat id path s)
  perform id (fstat h') s = answered (metadata_answer) (h.fstat id h' s)
  perform id (setstat path attrs) s =
      answered (done_answer) (h.setstat id path (from_packet (canonical attrs)) s)
  perform id (opendir path) s = answered (handle) (h.opendir id path s)
  perform id (readdir h') s = answered (readdir_answer) (h.readdir id h' s)
  perform id (remove filename) s = answered (done_answer) (h.remove id filename s)
  perform id (mkdir path attrs) s =
      answered (done_answer) (h.mkdir id path (from_packet (canonical attrs)) s)
  perform id (rmdir path) s = answered (done_answer) (h.rmdir id path s)
  perform id (realpath path) s = answered (entries_answer) (h.realpath id path s)
  perform id (rename oldpath newpath) s = answered (done_answer) (h.rename id oldpath newpath s)
  perform id (readlink path) s = answered (entries_answer) (h.readlink id path s)
  perform id (symlink linkpath targetpath) s =
      answered (done_answer) (h.symlink id linkpath targetpath s)
  perform id (fsetstat h' attrs) s =
      answered (done_answer) (h.fsetstat id h' (from_packet (canonical attrs)) s)
