-- ===== src/Sftp/Exchange/Serving.antt =====
-- `dispatch_packet` of crates/russh-extra/src/sftp/server.rs against the abstract answers.
use russh_extra.Base.{ℕ, ◌≡◌, refl, ◌++◌, ◌∷◌, [], Bytes, ap, List, ◌∙◌}
use russh_extra.Base.Word.{IsU32}
use russh_extra.Core.Error.{Result, ok, err}
use russh_extra.Sftp.Server.Runtime.{SftpServerRuntime, Surroundings, Served, sftp_error_status}
use russh_extra.Sftp.Server.Handlers.{
  decoding, respond, responding, ok_status, data_or_eof, names, names_or_eof, attributes,
  handle_open, handle_close, handle_read, handle_write, handle_stat, handle_lstat, handle_fstat,
  handle_setstat, handle_opendir, handle_readdir, handle_remove, handle_mkdir, handle_rmdir,
  handle_realpath, handle_rename, handle_readlink, handle_symlink, handle_fsetstat,
}
use russh_extra.Sftp.Server.Dispatch.{dispatch_packet}
use russh_extra.Sftp.Exchange.Fields.{
  Request, IsSendableRequest, packet_type, fields, open_file, close, read, write, stat, lstat,
  fstat, setstat, opendir, readdir, remove, mkdir, rmdir, realpath, rename, readlink, symlink,
  fsetstat,
}
use russh_extra.Sftp.Exchange.Decoding.{decode-fields}
use russh_extra.Sftp.Exchange.Answers.{
  Answer, encode_answer, perform, answered, read_answer, readdir_answer, done_answer,
  metadata_answer, entries_answer, handle,
}
use russh_extra.Sftp.Metadata.{SftpDirEntry}

module _ {S T : Type 0} (env : Surroundings S T) where
  -- The runtime after a call of the handler, with the answer to the call.
  abbrev pub served : ℕ → Answer × S → SftpServerRuntime S → Result Bytes × SftpServerRuntime S
  served id (answer, s) rt = (ok (encode_answer id answer), record rt { handler_state = s })

  decoding_ok :
      {A B : Type 0} {m : Result A} {a : A} (k : A → Served S B) {rt : SftpServerRuntime S}
      → m ≡ ok a
      → decoding m k rt ≡ k a rt
  unfolding decoding
  decoding_ok k e = rw (e, decoding)

  responding_lem :
      {A : Type 0} (id : ℕ) (bytes : A → Bytes) (f : A → Answer) (r : Result A × S)
      (rt : SftpServerRuntime S)
      → ((a : A) → bytes a ≡ encode_answer id (f a))
      → respond env id bytes r rt ≡ served id (answered env.handler env.display f r) rt
  unfolding respond sftp_error_status encode_answer
  responding_lem id bytes f (ok a, s) rt same =
      ap (λ b. (ok b, record rt { handler_state = s })) (same a)
  responding_lem id bytes f (err e, s) rt same = refl

  read_lem :
      (id : ℕ) (bytes : Bytes) → data_or_eof env id bytes ≡ encode_answer id (read_answer bytes)
  unfolding data_or_eof encode_answer
  read_lem id [] = refl
  read_lem id (b ∷ bs) = refl

  readdir_lem :
      (id : ℕ) (es : List SftpDirEntry)
      → names_or_eof env id es ≡ encode_answer id (readdir_answer es)
  unfolding names_or_eof names encode_answer
  readdir_lem id [] = refl
  readdir_lem id (e ∷ es) = refl

  -- On the fields of any of the 18 requests with an id and fields in range, whatever bytes
  -- follow them, `dispatch_packet` returns the encoding of the answer that the abstract server
  -- `perform` gives, under the id of the request, and changes nothing in the runtime but the
  -- handler's state.
  pub dispatch_packet-perform :
      (id : ℕ) (r : Request) (rest : Bytes) (rt : SftpServerRuntime S)
      → IsU32 id
      → IsSendableRequest r
      → dispatch_packet env (packet_type r ∷ (fields id r ++ rest)) rt
        ≡ served id (perform env.handler env.display id r rt.handler_state) rt
  unfolding dispatch_packet perform responding encode_answer ok_status names attributes handle_open
      handle_close handle_read handle_write handle_stat handle_lstat handle_fstat handle_setstat
      handle_opendir handle_readdir handle_remove handle_mkdir handle_rmdir handle_realpath
      handle_rename handle_readlink handle_symlink handle_fsetstat
  dispatch_packet-perform id (open_file a b c) rest rt hid h =
      decoding_ok _ (decode-fields id (open_file a b c) rest hid h)
      ∙ responding_lem id _ (handle) _ rt (λ _. refl)
  dispatch_packet-perform id (close a) rest rt hid h =
      decoding_ok _ (decode-fields id (close a) rest hid h)
      ∙ responding_lem id _ (done_answer) _ rt (λ _. refl)
  dispatch_packet-perform id (read a b c) rest rt hid h =
      decoding_ok _ (decode-fields id (read a b c) rest hid h)
      ∙ responding_lem id _ (read_answer) _ rt (read_lem id)
  dispatch_packet-perform id (write a b c) rest rt hid h =
      decoding_ok _ (decode-fields id (write a b c) rest hid h)
      ∙ responding_lem id _ (done_answer) _ rt (λ _. refl)
  dispatch_packet-perform id (stat a) rest rt hid h =
      decoding_ok _ (decode-fields id (stat a) rest hid h)
      ∙ responding_lem id _ (metadata_answer) _ rt (λ _. refl)
  dispatch_packet-perform id (lstat a) rest rt hid h =
      decoding_ok _ (decode-fields id (lstat a) rest hid h)
      ∙ responding_lem id _ (metadata_answer) _ rt (λ _. refl)
  dispatch_packet-perform id (fstat a) rest rt hid h =
      decoding_ok _ (decode-fields id (fstat a) rest hid h)
      ∙ responding_lem id _ (metadata_answer) _ rt (λ _. refl)
  dispatch_packet-perform id (setstat a b) rest rt hid h =
      decoding_ok _ (decode-fields id (setstat a b) rest hid h)
      ∙ responding_lem id _ (done_answer) _ rt (λ _. refl)
  dispatch_packet-perform id (opendir a) rest rt hid h =
      decoding_ok _ (decode-fields id (opendir a) rest hid h)
      ∙ responding_lem id _ (handle) _ rt (λ _. refl)
  dispatch_packet-perform id (readdir a) rest rt hid h =
      decoding_ok _ (decode-fields id (readdir a) rest hid h)
      ∙ responding_lem id _ (readdir_answer) _ rt (readdir_lem id)
  dispatch_packet-perform id (remove a) rest rt hid h =
      decoding_ok _ (decode-fields id (remove a) rest hid h)
      ∙ responding_lem id _ (done_answer) _ rt (λ _. refl)
  dispatch_packet-perform id (mkdir a b) rest rt hid h =
      decoding_ok _ (decode-fields id (mkdir a b) rest hid h)
      ∙ responding_lem id _ (done_answer) _ rt (λ _. refl)
  dispatch_packet-perform id (rmdir a) rest rt hid h =
      decoding_ok _ (decode-fields id (rmdir a) rest hid h)
      ∙ responding_lem id _ (done_answer) _ rt (λ _. refl)
  dispatch_packet-perform id (realpath a) rest rt hid h =
      decoding_ok _ (decode-fields id (realpath a) rest hid h)
      ∙ responding_lem id _ (entries_answer) _ rt (λ _. refl)
  dispatch_packet-perform id (rename a b) rest rt hid h =
      decoding_ok _ (decode-fields id (rename a b) rest hid h)
      ∙ responding_lem id _ (done_answer) _ rt (λ _. refl)
  dispatch_packet-perform id (readlink a) rest rt hid h =
      decoding_ok _ (decode-fields id (readlink a) rest hid h)
      ∙ responding_lem id _ (entries_answer) _ rt (λ _. refl)
  dispatch_packet-perform id (symlink a b) rest rt hid h =
      decoding_ok _ (decode-fields id (symlink a b) rest hid h)
      ∙ responding_lem id _ (done_answer) _ rt (λ _. refl)
  dispatch_packet-perform id (fsetstat a b) rest rt hid h =
      decoding_ok _ (decode-fields id (fsetstat a b) rest hid h)
      ∙ responding_lem id _ (done_answer) _ rt (λ _. refl)
