-- ===== src/Sftp/Client/Operations.antt =====
-- crates/russh-extra/src/sftp/client.rs: the public methods. A method is the packet that it sends
-- under a fresh id, and what it makes of the awaited result.
use russh_extra.Base.{ℕ, ◌++◌, Bytes, Text, List, [], ◌∷◌, map, ◌==◌, if◌then◌else◌}
use russh_extra.Base.Text.{text, decimal}
use russh_extra.Core.Error.{Result, ok, err, SftpErrorKind, sftp_error}
use russh_extra.Sftp.Attrs.{SftpFileAttrs, default_attrs}
use russh_extra.Sftp.Status.{fx_eof, sftp_error_kind_for_code, status_code_name, check_status}
use russh_extra.Sftp.Metadata.{SftpMetadata, SftpDirEntry, from_packet, entry_from_packet}
use russh_extra.Sftp.Request.{
  encode_open, encode_close, encode_read, encode_write, encode_stat, encode_lstat, encode_fstat,
  encode_setstat, encode_opendir, encode_readdir, encode_remove, encode_mkdir, encode_rmdir,
  encode_realpath, encode_rename, encode_readlink, encode_symlink, encode_fsetstat,
}
use russh_extra.Sftp.Client.Responses.{SftpResponse, status, handle, contents, name, attrs}

pub record Method (A : Type 0) : Type 0 where
  pub packet : ℕ → Bytes
  pub finish : Result SftpResponse → Result A

coded : Text → ℕ → Text → Text
coded prefix code msg = prefix ++ (decimal code ++ (text ": " ++ msg))

unfoldable pub first_filename : List (Text × Text × SftpFileAttrs) → Result Text
unfolding sftp_error
first_filename [] = err (sftp_error SftpErrorKind.protocol (text "empty name response"))
first_filename ((filename, _, _) ∷ _) = ok filename

-- A status where a sequence is expected: the end is empty.
unfoldable pub empty_at_eof : {A : Type 0} → ℕ → Text → Result (List A)
empty_at_eof code msg =
    if code == fx_eof then ok [] else elim (check_status code msg) [ ok _ ↦ ok [] | err e ↦ err e ]

abbrev pub entry_of_parts : Text × Text × SftpFileAttrs → SftpDirEntry
entry_of_parts (filename, longname, a) = entry_from_packet filename longname a

-- `debug` is the derived `Debug` text of a response.
module _ (debug : SftpResponse → Text) where
  unexpected : {A : Type 0} → Text → SftpResponse → Result A
  unfolding sftp_error
  unexpected expected other = err (
      sftp_error SftpErrorKind.protocol
        (text "expected " ++ (expected ++ (text ", got: " ++ debug other))))

  unfoldable pub expect_handle : Result SftpResponse → Result Text
  unfolding unexpected sftp_error
  expect_handle (err e) = err e
  expect_handle (ok (handle h)) = ok h
  expect_handle (ok (status code msg)) = err (
      sftp_error (sftp_error_kind_for_code code) (
        text "SFTP "
        ++ (status_code_name code ++ (text " (code " ++ (decimal code ++ (text "): " ++ msg))))))
  expect_handle (ok other) = unexpected (text "handle") other

  unfoldable pub expect_status : Result SftpResponse → Result (Unit {0})
  unfolding unexpected
  expect_status (err e) = err e
  expect_status (ok (status code msg)) = check_status code msg
  expect_status (ok other) = unexpected (text "status") other

  unfoldable pub expect_attrs : Result SftpResponse → Result SftpMetadata
  unfolding unexpected sftp_error coded
  expect_attrs (err e) = err e
  expect_attrs (ok (attrs a)) = ok (from_packet a)
  expect_attrs (ok (status code msg)) = err (
      sftp_error (sftp_error_kind_for_code code)
        (coded (text "expected attrs, got status ") code msg))
  expect_attrs (ok other) = unexpected (text "attrs") other

  unfoldable pub expect_name_single : Result SftpResponse → Result Text
  unfolding unexpected sftp_error coded first_filename
  expect_name_single (err e) = err e
  expect_name_single (ok (name entries)) = first_filename entries
  expect_name_single (ok (status code msg)) = err (
      sftp_error (sftp_error_kind_for_code code)
        (coded (text "expected name, got status ") code msg))
  expect_name_single (ok other) = unexpected (text "name") other

  unfoldable pub expect_data : Result SftpResponse → Result Bytes
  unfolding unexpected
  expect_data (err e) = err e
  expect_data (ok (contents bytes)) = ok bytes
  expect_data (ok (status code msg)) = empty_at_eof code msg
  expect_data (ok other) = unexpected (text "data") other

  unfoldable pub expect_entries : Result SftpResponse → Result (List SftpDirEntry)
  unfolding unexpected
  expect_entries (err e) = err e
  expect_entries (ok (name entries)) = ok (map entry_of_parts entries)
  expect_entries (ok (status code msg)) = empty_at_eof code msg
  expect_entries (ok other) = unexpected (text "name or status") other

  unfoldable pub open_file : Text → ℕ → Method Text
  open_file filename pflags = record {
    packet = λ id. encode_open id filename pflags default_attrs;
    finish = expect_handle;
  }

  unfoldable pub read : Text → ℕ → ℕ → Method Bytes
  read h offset len = record { packet = λ id. encode_read id h offset len; finish = expect_data }

  unfoldable pub write : Text → ℕ → Bytes → Method (Unit {0})
  write h offset bytes = record {
    packet = λ id. encode_write id h offset bytes;
    finish = expect_status;
  }

  unfoldable pub close : Text → Method (Unit {0})
  close h = record { packet = λ id. encode_close id h; finish = expect_status }

  unfoldable pub stat : Text → Method SftpMetadata
  stat path = record { packet = λ id. encode_stat id path; finish = expect_attrs }

  unfoldable pub lstat : Text → Method SftpMetadata
  lstat path = record { packet = λ id. encode_lstat id path; finish = expect_attrs }

  unfoldable pub fstat : Text → Method SftpMetadata
  fstat h = record { packet = λ id. encode_fstat id h; finish = expect_attrs }

  unfoldable pub opendir : Text → Method Text
  opendir path = record { packet = λ id. encode_opendir id path; finish = expect_handle }

  unfoldable pub readdir_batch : Text → Method (List SftpDirEntry)
  readdir_batch h = record { packet = λ id. encode_readdir id h; finish = expect_entries }

  unfoldable pub remove : Text → Method (Unit {0})
  remove filename = record { packet = λ id. encode_remove id filename; finish = expect_status }

  unfoldable pub rename : Text → Text → Method (Unit {0})
  rename oldpath newpath = record {
    packet = λ id. encode_rename id oldpath newpath;
    finish = expect_status;
  }

  unfoldable pub mkdir : Text → Method (Unit {0})
  mkdir path = record { packet = λ id. encode_mkdir id path default_attrs; finish = expect_status }

  unfoldable pub rmdir : Text → Method (Unit {0})
  rmdir path = record { packet = λ id. encode_rmdir id path; finish = expect_status }

  unfoldable pub realpath : Text → Method Text
  realpath path = record { packet = λ id. encode_realpath id path; finish = expect_name_single }

  unfoldable pub readlink : Text → Method Text
  readlink path = record { packet = λ id. encode_readlink id path; finish = expect_name_single }

  unfoldable pub symlink : Text → Text → Method (Unit {0})
  symlink linkpath targetpath = record {
    packet = λ id. encode_symlink id linkpath targetpath;
    finish = expect_status;
  }

  unfoldable pub setstat : Text → SftpFileAttrs → Method (Unit {0})
  setstat path a = record { packet = λ id. encode_setstat id path a; finish = expect_status }

  unfoldable pub fsetstat : Text → SftpFileAttrs → Method (Unit {0})
  fsetstat h a = record { packet = λ id. encode_fsetstat id h a; finish = expect_status }
