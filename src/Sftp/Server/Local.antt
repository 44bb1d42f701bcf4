-- ===== src/Sftp/Server/Local.antt =====
-- What serving a packet (crates/russh-extra/src/sftp/server.rs) touches of the runtime.
use russh_extra.Base.{
  ℕ, ◌≤◌, ◌≡◌, refl, Bytes, List, [], ◌∷◌, Bool, true, false, ltb, if◌then◌else◌, arith, ◌==◌,
}
use russh_extra.Core.Error.{Result, ok, err}
use russh_extra.Sftp.Handler.{Call}
use russh_extra.Sftp.PacketType.{
  fxp_init, fxp_open, fxp_close, fxp_read, fxp_write, fxp_remove, fxp_rename, fxp_mkdir, fxp_rmdir,
  fxp_opendir, fxp_readdir, fxp_stat, fxp_lstat, fxp_fstat, fxp_setstat, fxp_fsetstat, fxp_realpath,
  fxp_readlink, fxp_symlink,
}
use russh_extra.Sftp.Response.{Extensions}
use russh_extra.Sftp.Server.Runtime.{SftpServerRuntime, Surroundings, Served}
use russh_extra.Sftp.Server.Handlers.{
  decoding, respond, responding, settle_version, negotiate, handle_init, handle_open, handle_close,
  handle_read, handle_write, handle_remove, handle_rename, handle_mkdir, handle_rmdir,
  handle_opendir, handle_readdir, handle_stat, handle_lstat, handle_fstat, handle_setstat,
  handle_fsetstat, handle_realpath, handle_readlink, handle_symlink,
}
use russh_extra.Sftp.Server.Dispatch.{dispatch_packet}

abbrev pub placed :
    {S : Type 0}
    → List (ℕ × Bytes)
    → List (ℕ × Unit {0})
    → SftpServerRuntime S
    → SftpServerRuntime S
placed buffers channels rt = record rt { buffers = buffers; channels = channels }

pub record IsLocal {S A : Type 0} (f : Served S A) : Type 0 where
  pub free :
      (rt : SftpServerRuntime S) (buffers : List (ℕ × Bytes)) (channels : List (ℕ × Unit {0}))
      → f (placed buffers channels rt) ≡ ((f rt).0, placed buffers channels (f rt).1)
  pub version : (rt : SftpServerRuntime S) → 3 ≤ rt.version → 3 ≤ (f rt).1.version

decoding-IsLocal :
    {S A B : Type 0} (m : Result A) (k : A → Served S B)
    → ((a : A) → IsLocal (k a))
    → IsLocal (decoding m k)
unfolding decoding
decoding-IsLocal (ok a) k h = h a
decoding-IsLocal (err e) k h = record { free = λ rt b c. refl; version = λ rt v. v }

if-IsLocal :
    {S A : Type 0} (b : Bool) {f g : Served S A}
    → IsLocal f
    → IsLocal g
    → IsLocal (λ rt. if b then f rt else g rt)
if-IsLocal true hf hg = hf
if-IsLocal false hf hg = hg

module _ {S T : Type 0} (env : Surroundings S T) where
  respond-free :
      {A : Type 0} (id : ℕ) (answer : A → Bytes) (r : Result A × S) (rt : SftpServerRuntime S)
      (buffers : List (ℕ × Bytes)) (channels : List (ℕ × Unit {0}))
      → respond env id answer r (placed buffers channels rt)
        ≡ ((respond env id answer r rt).0, placed buffers channels (respond env id answer r rt).1)
  unfolding respond
  respond-free id answer (ok a, s) rt b c = refl
  respond-free id answer (err e, s) rt b c = refl

  respond-version :
      {A : Type 0} (id : ℕ) (answer : A → Bytes) (r : Result A × S) (rt : SftpServerRuntime S)
      → 3 ≤ rt.version
      → 3 ≤ (respond env id answer r rt).1.version
  unfolding respond
  respond-version id answer (ok a, s) rt h = h
  respond-version id answer (err e, s) rt h = h

  responding-IsLocal :
      {A : Type 0} (id : ℕ) (answer : A → Bytes) (call : Call S A)
      → IsLocal (responding env id answer call)
  unfolding responding
  responding-IsLocal id answer call = record {
    free = λ rt. respond-free id answer (call rt.handler_state) rt;
    version = λ rt. respond-version id answer (call rt.handler_state) rt;
  }

  settle_version-free :
      (r : Result ℕ) (rt : SftpServerRuntime S) (buffers : List (ℕ × Bytes))
      (channels : List (ℕ × Unit {0}))
      → settle_version env r (placed buffers channels rt)
        ≡ ((settle_version env r rt).0, placed buffers channels (settle_version env r rt).1)
  unfolding settle_version
  settle_version-free (ok v) rt b c = refl
  settle_version-free (err e) rt b c = refl

  settle_version-version :
      (r : Result ℕ) (rt : SftpServerRuntime S)
      → 3 ≤ rt.version
      → 3 ≤ (settle_version env r rt).1.version
  unfolding settle_version
  settle_version-version (ok v) rt h = omega arith
  settle_version-version (err e) rt h = h

  negotiate-IsLocal : (request : ℕ × Extensions) → IsLocal (negotiate env request)
  unfolding negotiate
  negotiate-IsLocal (version, extensions) =
      if-IsLocal (ltb version 3) (record { free = λ rt b c. refl; version = λ rt h. h })
        (record {
          free = λ rt b c. settle_version-free _ _ b c;
          version = λ rt h. settle_version-version _ _ h;
        })

  -- For any packet, `dispatch_packet` gives the same result and the same changes whatever the
  -- buffers and the channels of the runtime are, does not change them, and keeps the version at
  -- 3 or above if it was.
  pub dispatch_packet-IsLocal : (packet : Bytes) → IsLocal (dispatch_packet env packet)
  unfolding dispatch_packet handle_init handle_open handle_close handle_read handle_write
      handle_remove handle_rename handle_mkdir handle_rmdir handle_opendir handle_readdir
      handle_stat handle_lstat handle_fstat handle_setstat handle_fsetstat handle_realpath
      handle_readlink handle_symlink
  dispatch_packet-IsLocal [] = record { free = λ rt b c. refl; version = λ rt h. h }
  dispatch_packet-IsLocal (t ∷ payload) =
      if-IsLocal (t == fxp_init) (decoding-IsLocal _ _ negotiate-IsLocal) (
        if-IsLocal (t == fxp_open) (decoding-IsLocal _ _ λ _. responding-IsLocal _ _ _) (
          if-IsLocal (t == fxp_close) (decoding-IsLocal _ _ λ _. responding-IsLocal _ _ _) (
            if-IsLocal (t == fxp_read) (decoding-IsLocal _ _ λ _. responding-IsLocal _ _ _) (
              if-IsLocal (t == fxp_write) (decoding-IsLocal _ _ λ _. responding-IsLocal _ _ _) (
                if-IsLocal (t == fxp_remove) (decoding-IsLocal _ _ λ _. responding-IsLocal _ _ _) (
                  if-IsLocal (t == fxp_rename) (decoding-IsLocal _ _ λ _. responding-IsLocal _ _ _)
                    (if-IsLocal (t == fxp_mkdir)
                      (decoding-IsLocal _ _ λ _. responding-IsLocal _ _ _)
                      (if-IsLocal (t == fxp_rmdir)
                        (decoding-IsLocal _ _ λ _. responding-IsLocal _ _ _)
                        (if-IsLocal (t == fxp_opendir)
                          (decoding-IsLocal _ _ λ _. responding-IsLocal _ _ _)
                          (if-IsLocal (t == fxp_readdir)
                            (decoding-IsLocal _ _ λ _. responding-IsLocal _ _ _)
                            (if-IsLocal (t == fxp_stat)
                              (decoding-IsLocal _ _ λ _. responding-IsLocal _ _ _)
                              (if-IsLocal (t == fxp_lstat)
                                (decoding-IsLocal _ _ λ _. responding-IsLocal _ _ _)
                                (if-IsLocal (t == fxp_fstat)
                                  (decoding-IsLocal _ _ λ _. responding-IsLocal _ _ _)
                                  (if-IsLocal (t == fxp_setstat)
                                    (decoding-IsLocal _ _ λ _. responding-IsLocal _ _ _)
                                    (if-IsLocal (t == fxp_fsetstat)
                                      (decoding-IsLocal _ _ λ _. responding-IsLocal _ _ _)
                                      (if-IsLocal (t == fxp_realpath)
                                        (decoding-IsLocal _ _ λ _. responding-IsLocal _ _ _)
                                        (if-IsLocal (t == fxp_readlink)
                                          (decoding-IsLocal _ _ λ _. responding-IsLocal _ _ _)
                                          (if-IsLocal (t == fxp_symlink)
                                            (decoding-IsLocal _ _ λ _. responding-IsLocal _ _ _)
                                            (record {
                                              free = λ rt b c. refl;
                                              version = λ rt h. h;
                                            })))))))))))))))))))
