-- ===== src/Sftp/Exchange/Outcomes.antt =====
-- What a method of the client returns for what the application's handler returned on the server.
use russh_extra.Base.{
  ℕ, ◌≤◌, suc, zero, ◌≡◌, refl, ap, Bytes, Text, List, [], ◌∷◌, map, take, arith, ◌==◌, false,
}
use russh_extra.Core.Error.{Error, Result, ok, err, SftpErrorKind, sftp_error, category_error}
use russh_extra.Sftp.Status.{sftp_error_kind_for_code, check_status}
use russh_extra.Sftp.Metadata.{SftpMetadata, SftpDirEntry, to_name_entry, entry_from_packet}
use russh_extra.Sftp.Metadata.RoundTrip.{visible, from_packet-to_packet}
use russh_extra.Sftp.Handler.{SftpServerHandler}
use russh_extra.Sftp.Server.Runtime.{status_of_kind, sftp_status_from_error}
use russh_extra.Sftp.Client.Responses.{SftpResponse, entry_parts}
use russh_extra.Sftp.Client.Operations.{
  expect_handle, expect_status, expect_attrs, expect_data, expect_entries, empty_at_eof,
  entry_of_parts,
}
use russh_extra.Sftp.Exchange.Names.{canonical_entry, kept_entries}
use russh_extra.Sftp.Exchange.Answers.{
  Answer, handle, read_answer, readdir_answer, done_answer, metadata_answer, answered,
}
use russh_extra.Sftp.Exchange.Replies.{response_of}
use mathlib.Core.Path.{ap₂}

-- The kinds that have a status code of their own survive; the others become `RemoteStatus`.
abbrev pub seen_kind : SftpErrorKind → SftpErrorKind
seen_kind SftpErrorKind.no_such_file = SftpErrorKind.no_such_file
seen_kind SftpErrorKind.permission_denied = SftpErrorKind.permission_denied
seen_kind SftpErrorKind.unsupported = SftpErrorKind.unsupported
seen_kind SftpErrorKind.protocol = SftpErrorKind.protocol
seen_kind _ = SftpErrorKind.remote_status

abbrev pub seen_error : Error → SftpErrorKind
seen_error (Error.sftp e) = seen_kind e.kind
seen_error _ = SftpErrorKind.remote_status

-- An SFTP error of the given kind.
abbrev pub FailsWith : {A : Type 0} → SftpErrorKind → Result A → Type 0
FailsWith kind (err (Error.sftp e)) = e.kind ≡ kind
FailsWith kind _ = ⊥

-- The client's result for the handler's: the value, changed by `f`, or an error of the kind that
-- the wire carries.
abbrev pub Delivers : {A B : Type 0} → (A → B) → Result A → Result B → Type 0
Delivers f (ok a) result = result ≡ ok (f a)
Delivers f (err e) result = FailsWith (seen_error e) result

-- A status that stands for an error of kind `kind`.
pub record Stands (kind : SftpErrorKind) (code : ℕ) : Type 0 where
  pub seen : sftp_error_kind_for_code code ≡ kind
  not_eof : 2 ≤ code

kind-Stands : (k : SftpErrorKind) → Stands (seen_kind k) (status_of_kind k).0
unfolding status_of_kind sftp_error_kind_for_code
kind-Stands SftpErrorKind.remote_status = record { seen = refl; not_eof = omega arith }
kind-Stands SftpErrorKind.protocol = record { seen = refl; not_eof = omega arith }
kind-Stands SftpErrorKind.channel_io = record { seen = refl; not_eof = omega arith }
kind-Stands SftpErrorKind.unexpected_response = record { seen = refl; not_eof = omega arith }
kind-Stands SftpErrorKind.unsupported_version = record { seen = refl; not_eof = omega arith }
kind-Stands SftpErrorKind.unsupported = record { seen = refl; not_eof = omega arith }
kind-Stands SftpErrorKind.no_such_file = record { seen = refl; not_eof = omega arith }
kind-Stands SftpErrorKind.permission_denied = record { seen = refl; not_eof = omega arith }

failure-Stands : Stands SftpErrorKind.remote_status 4
unfolding sftp_error_kind_for_code
failure-Stands = record { seen = refl; not_eof = omega arith }

pub error-Stands :
    (display : Error → Text) (e : Error)
    → Stands (seen_error e) (sftp_status_from_error display e).0
unfolding sftp_status_from_error
error-Stands display (Error.sftp e) = kind-Stands e.kind
error-Stands display _ = failure-Stands

check_status-FailsWith :
    {k : SftpErrorKind} (code : ℕ) (msg : Text)
    → Stands k code
    → FailsWith k (check_status code msg)
unfolding check_status sftp_error category_error
check_status-FailsWith code msg st =
    let differs : (code == 0) ≡ false = ground arith in rw differs st.seen

module _ {S : Type 0} (h : SftpServerHandler S) (display : Error → Text)
    (debug : SftpResponse → Text) (s : S) where
  -- The response that the client is given for a call with result `r`.
  abbrev pub responded : {A : Type 0} → (A → Answer) → Result A → Result SftpResponse
  responded f r = ok (response_of (answered h display f (r, s)).0)

  -- For every result of a method of the handler without a value, the client turns the response
  -- that it is given into success exactly for success, and for an error into an SFTP error of
  -- the kind that the status code carries.
  pub expect_status-Delivers :
      (r : Result (Unit {0})) → Delivers (λ _. tt) r (expect_status debug (responded done_answer r))
  unfolding expect_status
  expect_status-Delivers (ok _) = unfold check_status in refl
  expect_status-Delivers (err e) = check_status-FailsWith _ _ (error-Stands display e)

  -- For every result of the handler's `open` or `opendir`, the client turns the response that it
  -- is given into the same handle, or, for an error, an SFTP error of the kind that the status
  -- code carries.
  pub expect_handle-Delivers :
      (r : Result Text) → Delivers (λ x. x) r (expect_handle debug (responded handle r))
  unfolding expect_handle sftp_error category_error
  expect_handle-Delivers (ok x) = refl
  expect_handle-Delivers (err e) = (error-Stands display e).seen

  -- For every result of the handler's `stat`, `lstat` or `fstat`, the client turns the response
  -- that it is given into the visible part of the metadata, or, for an error, an SFTP error of
  -- the kind that the status code carries.
  pub expect_attrs-Delivers :
      (r : Result SftpMetadata)
      → Delivers visible r (expect_attrs debug (responded metadata_answer r))
  unfolding expect_attrs sftp_error category_error
  expect_attrs-Delivers (ok m) = ap ok (from_packet-to_packet m)
  expect_attrs-Delivers (err e) = (error-Stands display e).seen

  empty_at_eof-FailsWith :
      (A : Type 0) {k : SftpErrorKind} (code : ℕ) (msg : Text)
      → Stands k code
      → FailsWith k (empty_at_eof {A = A} code msg)
  unfolding empty_at_eof check_status sftp_error category_error
  empty_at_eof-FailsWith A code msg st =
      let differs : (code == 0) ≡ false = ground arith in
      let differs' : (code == 1) ≡ false = ground arith in rw (differs', differs) st.seen

  -- For every result of the handler's `read`, the client turns the response that it is given
  -- into the same bytes, the empty end of the file included, or, for an error, an SFTP error of
  -- the kind that the status code carries.
  pub expect_data-Delivers :
      (r : Result Bytes) → Delivers (λ x. x) r (expect_data debug (responded read_answer r))
  unfolding expect_data
  expect_data-Delivers (ok []) = unfold empty_at_eof in refl
  expect_data-Delivers (ok (b ∷ bs)) = refl
  expect_data-Delivers (err e) = empty_at_eof-FailsWith _ _ _ (error-Stands display e)

-- An entry as a peer sees it.
abbrev pub visible_entry : SftpDirEntry → SftpDirEntry
visible_entry e = record e { metadata = visible e.metadata }

-- The entries that `decode_name` keeps.
abbrev pub kept : List SftpDirEntry → List SftpDirEntry
kept es = take (kept_entries (map to_name_entry es)) es

visible_none : (n : ℕ) → [] ≡ map visible_entry (take n [])
visible_none zero = refl
visible_none (suc n) = refl

entries_back :
    (n : ℕ) (es : List SftpDirEntry)
    → map entry_of_parts (map entry_parts (map canonical_entry (take n (map to_name_entry es))))
      ≡ map visible_entry (take n es)
unfolding to_name_entry entry_from_packet
entries_back zero es = refl
entries_back (suc n) [] = refl
entries_back (suc n) (e ∷ es) =
    ap₂ (λ m l. record e { metadata = m } ∷ l) (from_packet-to_packet e.metadata)
      (entries_back n es)

module _ {S : Type 0} (h : SftpServerHandler S) (display : Error → Text)
    (debug : SftpResponse → Text) (s : S) where
  -- For every result of the handler's `readdir`, the client turns the response that it is given
  -- into: the visible form of the entries that `decode_name` keeps, where no entries become the
  -- empty end of the directory; or, for an error, an SFTP error of the kind that the status code
  -- carries.
  pub expect_entries-Delivers :
      (r : Result (List SftpDirEntry))
      → Delivers
          (λ es. map visible_entry (kept es))
          r
          (expect_entries debug (responded h display debug s readdir_answer r))
  unfolding expect_entries
  expect_entries-Delivers (ok []) = unfold empty_at_eof in ap ok (visible_none (kept_entries []))
  expect_entries-Delivers (ok (e ∷ es)) =
      ap ok (entries_back (kept_entries (map to_name_entry (e ∷ es))) (e ∷ es))
  expect_entries-Delivers (err e) =
      empty_at_eof-FailsWith h display debug s _ _ _ (error-Stands display e)
