-- ===== src/Sftp/Exchange/Methods.antt =====
-- The public methods of the client end to end: the request that a method sends, the handler's call on
-- the server, and the method's result for the response.
use russh_extra.Base.{ℕ, ◌≡◌, refl, Text, List, [], ◌∷◌, map, take, suc, zero}
use russh_extra.Base.Text.{text}
use russh_extra.Core.Error.{Error, Result, ok, err, SftpErrorKind, sftp_error}
use russh_extra.Sftp.Attrs.{default_attrs}
use russh_extra.Sftp.Attrs.Reads.{canonical}
use russh_extra.Sftp.Metadata.{SftpDirEntry, from_packet, to_name_entry}
use russh_extra.Sftp.Metadata.RoundTrip.{visible}
use russh_extra.Sftp.Handler.{SftpServerHandler}
use russh_extra.Sftp.Client.Responses.{SftpResponse, entry_parts}
use russh_extra.Sftp.Client.Operations as Operations
use russh_extra.Sftp.Client.Operations.{Method, expect_name_single, first_filename}
use russh_extra.Sftp.Exchange.Fields.{
  Request, encode_request, open_file, close, read, write, stat, lstat, fstat, setstat, opendir,
  readdir, remove, mkdir, rmdir, realpath, rename, readlink, symlink, fsetstat,
}
use russh_extra.Sftp.Exchange.Names.{canonical_entry, kept_entries}
use russh_extra.Sftp.Exchange.Answers.{
  Answer, perform, answered, entries_answer, read_answer, readdir_answer, done_answer,
  metadata_answer,
}
use russh_extra.Sftp.Exchange.Replies.{response_of}
use russh_extra.Sftp.Exchange.Outcomes.{
  Delivers, FailsWith, seen_error, responded, visible_entry, kept, error-Stands,
  expect_status-Delivers, expect_handle-Delivers, expect_attrs-Delivers, expect_data-Delivers,
  expect_entries-Delivers,
}

-- The name of the first entry that is kept.
abbrev pub first_name : List SftpDirEntry → Result Text
first_name [] = err (sftp_error SftpErrorKind.protocol (text "empty name response"))
first_name (e ∷ es) = ok e.filename

abbrev pub DeliversName : Result (List SftpDirEntry) → Result Text → Type 0
DeliversName (ok es) result = result ≡ first_name (kept es)
DeliversName (err e) result = FailsWith (seen_error e) result

first_name-take :
    (n : ℕ) (es : List SftpDirEntry)
    → first_filename (map entry_parts (map canonical_entry (take n (map to_name_entry es))))
      ≡ first_name (take n es)
unfolding first_filename to_name_entry
first_name-take zero es = refl
first_name-take (suc n) [] = refl
first_name-take (suc n) (e ∷ es) = refl

module _ {S : Type 0} (h : SftpServerHandler S) (display : Error → Text)
    (debug : SftpResponse → Text) (s : S) where
  pub expect_name_single-DeliversName :
      (r : Result (List SftpDirEntry))
      → DeliversName r (expect_name_single debug (responded h display debug s entries_answer r))
  unfolding expect_name_single sftp_error
  expect_name_single-DeliversName (ok es) = first_name-take (kept_entries (map to_name_entry es)) es
  expect_name_single-DeliversName (err e) = (error-Stands display e).seen

  -- The method sends the request, and `D` holds of what it returns for the answer.
  abbrev pub Exchanged : {A : Type 0} → (Result A → Type 0) → Method A → ℕ → Request → Type 0
  Exchanged D method id r =
      (method.packet id ≡ encode_request id r)
      × D (method.finish (ok (response_of (perform h display id r s).0)))

  -- What the client's method for a request returns. `open` and `mkdir` send no attributes.
  abbrev pub Returns : ℕ → Request → Type 0
  Returns id (open_file filename pflags attrs) =
      Exchanged
        (Delivers (λ x. x)
          (h.open_file id filename pflags (from_packet (canonical default_attrs)) s).0)
        (Operations.open_file debug filename pflags) id (open_file filename pflags default_attrs)
  Returns id (close file) =
      Exchanged (Delivers (λ _. tt) (h.close id file s).0) (Operations.close debug file) id
        (close file)
  Returns id (read file offset len) =
      Exchanged (Delivers (λ x. x) (h.read id file offset len s).0)
        (Operations.read debug file offset len) id (read file offset len)
  Returns id (write file offset bytes) =
      Exchanged (Delivers (λ _. tt) (h.write id file offset bytes s).0)
        (Operations.write debug file offset bytes) id (write file offset bytes)
  Returns id (stat path) =
      Exchanged (Delivers visible (h.stat id path s).0) (Operations.stat debug path) id (stat path)
  Returns id (lstat path) =
      Exchanged (Delivers visible (h.lstat id path s).0) (Operations.lstat debug path) id
        (lstat path)
  Returns id (fstat file) =
      Exchanged (Delivers visible (h.fstat id file s).0) (Operations.fstat debug file) id
        (fstat file)
  Returns id (setstat path attrs) =
      Exchanged (Delivers (λ _. tt) (h.setstat id path (from_packet (canonical attrs)) s).0)
        (Operations.setstat debug path attrs) id (setstat path attrs)
  Returns id (opendir path) =
      Exchanged (Delivers (λ x. x) (h.opendir id path s).0) (Operations.opendir debug path) id
        (opendir path)
  Returns id (readdir file) =
      Exchanged (Delivers (λ es. map visible_entry (kept es)) (h.readdir id file s).0)
        (Operations.readdir_batch debug file) id (readdir file)
  Returns id (remove filename) =
      Exchanged (Delivers (λ _. tt) (h.remove id filename s).0) (Operations.remove debug filename)
        id (remove filename)
  Returns id (mkdir path attrs) =
      Exchanged (Delivers (λ _. tt) (h.mkdir id path (from_packet (canonical default_attrs)) s).0)
        (Operations.mkdir debug path) id (mkdir path default_attrs)
  Returns id (rmdir path) =
      Exchanged (Delivers (λ _. tt) (h.rmdir id path s).0) (Operations.rmdir debug path) id
        (rmdir path)
  Returns id (realpath path) =
      Exchanged (DeliversName (h.realpath id path s).0) (Operations.realpath debug path) id
        (realpath path)
  Returns id (rename oldpath newpath) =
      Exchanged (Delivers (λ _. tt) (h.rename id oldpath newpath s).0)
        (Operations.rename debug oldpath newpath) id (rename oldpath newpath)
  Returns id (readlink path) =
      Exchanged (DeliversName (h.readlink id path s).0) (Operations.readlink debug path) id
        (readlink path)
  Returns id (symlink linkpath targetpath) =
      Exchanged (Delivers (λ _. tt) (h.symlink id linkpath targetpath s).0)
        (Operations.symlink debug linkpath targetpath) id (symlink linkpath targetpath)
  Returns id (fsetstat file attrs) =
      Exchanged (Delivers (λ _. tt) (h.fsetstat id file (from_packet (canonical attrs)) s).0)
        (Operations.fsetstat debug file attrs) id (fsetstat file attrs)

  finished :
      {A : Type 0} (f : A → Answer) (c : Result A × S) (D : Result SftpResponse → Type 0)
      → D (responded h display debug s f c.0)
      → D (ok (response_of (answered h display f c).0))
  finished f (ok a, s') D d = d
  finished f (err e, s') D d = d

  -- For each of the 18 requests with any fields, the client's method for it sends the encoding
  -- of the request (`open` and `mkdir` with no attributes), and for the response to the answer
  -- of `perform` returns what the handler's call for the request returned: its value, for
  -- metadata and entries in the visible form, where an owner or a time that is missing beside
  -- its partner is 0, and of a list the entries that `decode_name` keeps, for `realpath` and
  -- `readlink` the name of the first of these or an error if there is none; and for an error of
  -- the handler an SFTP error of the kind that the status code carries.
  pub method-Returns : (id : ℕ) (r : Request) → Returns id r
  unfolding encode_request perform Operations.open_file Operations.read Operations.write
      Operations.close Operations.stat Operations.lstat Operations.fstat Operations.opendir
      Operations.readdir_batch Operations.remove Operations.rename Operations.mkdir Operations.rmdir
      Operations.realpath Operations.readlink Operations.symlink Operations.setstat
      Operations.fsetstat
  method-Returns id (open_file filename pflags attrs) = (
    refl,
    finished Answer.handle
        (h.open_file id filename pflags (from_packet (canonical default_attrs)) s)
        (λ x.
          Delivers (λ x. x)
            (h.open_file id filename pflags (from_packet (canonical default_attrs)) s).0
            (Operations.expect_handle debug x))
        (expect_handle-Delivers h display debug s _),
  )
  method-Returns id (close file) = (
    refl,
    finished done_answer (h.close id file s)
        (λ x. Delivers (λ _. tt) (h.close id file s).0 (Operations.expect_status debug x))
        (expect_status-Delivers h display debug s _),
  )
  method-Returns id (read file offset len) = (
    refl,
    finished read_answer (h.read id file offset len s)
        (λ x. Delivers (λ x. x) (h.read id file offset len s).0 (Operations.expect_data debug x))
        (expect_data-Delivers h display debug s _),
  )
  method-Returns id (write file offset bytes) = (
    refl,
    finished done_answer (h.write id file offset bytes s)
        (λ x.
          Delivers (λ _. tt) (h.write id file offset bytes s).0 (Operations.expect_status debug x))
        (expect_status-Delivers h display debug s _),
  )
  method-Returns id (stat path) = (
    refl,
    finished metadata_answer (h.stat id path s)
        (λ x. Delivers visible (h.stat id path s).0 (Operations.expect_attrs debug x))
        (expect_attrs-Delivers h display debug s _),
  )
  method-Returns id (lstat path) = (
    refl,
    finished metadata_answer (h.lstat id path s)
        (λ x. Delivers visible (h.lstat id path s).0 (Operations.expect_attrs debug x))
        (expect_attrs-Delivers h display debug s _),
  )
  method-Returns id (fstat file) = (
    refl,
    finished metadata_answer (h.fstat id file s)
        (λ x. Delivers visible (h.fstat id file s).0 (Operations.expect_attrs debug x))
        (expect_attrs-Delivers h display debug s _),
  )
  method-Returns id (setstat path attrs) = (
    refl,
    finished done_answer (h.setstat id path (from_packet (canonical attrs)) s)
        (λ x.
          Delivers (λ _. tt) (h.setstat id path (from_packet (canonical attrs)) s).0
            (Operations.expect_status debug x))
        (expect_status-Delivers h display debug s _),
  )
  method-Returns id (opendir path) = (
    refl,
    finished Answer.handle (h.opendir id path s)
        (λ x. Delivers (λ x. x) (h.opendir id path s).0 (Operations.expect_handle debug x))
        (expect_handle-Delivers h display debug s _),
  )
  method-Returns id (readdir file) = (
    refl,
    finished readdir_answer (h.readdir id file s)
        (λ x.
          Delivers (λ es. map visible_entry (kept es)) (h.readdir id file s).0
            (Operations.expect_entries debug x))
        (expect_entries-Delivers h display debug s _),
  )
  method-Returns id (remove filename) = (
    refl,
    finished done_answer (h.remove id filename s)
        (λ x. Delivers (λ _. tt) (h.remove id filename s).0 (Operations.expect_status debug x))
        (expect_status-Delivers h display debug s _),
  )
  method-Returns id (mkdir path attrs) = (
    refl,
    finished done_answer (h.mkdir id path (from_packet (canonical default_attrs)) s)
        (λ x.
          Delivers (λ _. tt) (h.mkdir id path (from_packet (canonical default_attrs)) s).0
            (Operations.expect_status debug x))
        (expect_status-Delivers h display debug s _),
  )
  method-Returns id (rmdir path) = (
    refl,
    finished done_answer (h.rmdir id path s)
        (λ x. Delivers (λ _. tt) (h.rmdir id path s).0 (Operations.expect_status debug x))
        (expect_status-Delivers h display debug s _),
  )
  method-Returns id (realpath path) = (
    refl,
    finished entries_answer (h.realpath id path s)
        (λ x. DeliversName (h.realpath id path s).0 (Operations.expect_name_single debug x))
        (expect_name_single-DeliversName _),
  )
  method-Returns id (rename oldpath newpath) = (
    refl,
    finished done_answer (h.rename id oldpath newpath s)
        (λ x.
          Delivers (λ _. tt) (h.rename id oldpath newpath s).0 (Operations.expect_status debug x))
        (expect_status-Delivers h display debug s _),
  )
  method-Returns id (readlink path) = (
    refl,
    finished entries_answer (h.readlink id path s)
        (λ x. DeliversName (h.readlink id path s).0 (Operations.expect_name_single debug x))
        (expect_name_single-DeliversName _),
  )
  method-Returns id (symlink linkpath targetpath) = (
    refl,
    finished done_answer (h.symlink id linkpath targetpath s)
        (λ x.
          Delivers (λ _. tt) (h.symlink id linkpath targetpath s).0
            (Operations.expect_status debug x))
        (expect_status-Delivers h display debug s _),
  )
  method-Returns id (fsetstat file attrs) = (
    refl,
    finished done_answer (h.fsetstat id file (from_packet (canonical attrs)) s)
        (λ x.
          Delivers (λ _. tt) (h.fsetstat id file (from_packet (canonical attrs)) s).0
            (Operations.expect_status debug x))
        (expect_status-Delivers h display debug s _),
  )
