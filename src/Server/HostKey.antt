-- ===== src/Server/HostKey.antt =====
-- crates/russh-extra/src/server.rs: host keys. The files are a parameter.
use russh_extra.Base.{ℕ, ◌%◌, ◌==◌, ◌++◌, Text, Bool, List, [], ◌∷◌, if◌then◌else◌}
use russh_extra.Base.Text.{text}
use russh_extra.Core.Error.{
  Error, Result, ok, err, BoxError, IoError, SshErrorKind, category_error_with_source,
}

pub data ServerHostKeySource (H : Type 0) : Type 0 where
  loaded : H → ServerHostKeySource H
  open_ssh_file : Text → ServerHostKeySource H

pub data Read (A E : Type 0) : Type 0 where
  found : A → Read A E
  unreadable : E → Read A E

-- The mode bits of `std::fs::metadata`, and `russh`'s reading of a private key of type `H`.
pub record KeyFiles (H : Type 0) : Type 0 where
  pub mode : Text → Read ℕ IoError
  pub read_openssh_file : Text → Read H BoxError
  pub is_encrypted : H → Bool

-- On Unix; `mode & 0o077` is the remainder by 64.
unfoldable pub check_mode : Text → ℕ → Result (Unit {0})
check_mode path mode =
    if mode % 64 == 0
    then ok tt
    else err (
        Error.invalid_config
          (text "host key file `" ++ (path ++ text "` must not be accessible by group or others")))

module _ {H : Type 0} (files : KeyFiles H) where
  unfoldable pub validate_host_key_permissions : Text → Result (Unit {0})
  validate_host_key_permissions path = elim (files.mode path) [
    | unreadable e ↦ err (Error.io e)
    | found mode ↦ check_mode path mode
  ]

  unfoldable pub from_loaded_private_key : H → Result H
  from_loaded_private_key key =
      if files.is_encrypted key
      then err
          (Error.invalid_config (text "server host key is encrypted and requires a passphrase"))
      else ok key

  unfoldable pub read_key : Text → Result H
  unfolding category_error_with_source
  read_key path = elim (files.read_openssh_file path) [
    | unreadable e ↦ err (
        Error.ssh
          (category_error_with_source SshErrorKind.other (text "failed to read server host key") e))
    | found key ↦ from_loaded_private_key key
  ]

  unfoldable pub from_openssh_file : Text → Result H
  from_openssh_file path = elim (validate_host_key_permissions path) [
    | err e ↦ err e
    | ok _ ↦ read_key path
  ]

  unfoldable pub load : ServerHostKeySource H → Result H
  load (loaded key) = ok key
  load (open_ssh_file path) = from_openssh_file path

  -- `map(ServerHostKeySource::load).collect::<Result<Vec<_>>>()`, up to the first error.
  unfoldable pub load_all : List (ServerHostKeySource H) → Result (List H)
  load_all [] = ok []
  load_all (source ∷ sources) =
      let rest = load_all sources in
      elim (load source) [
        | err e ↦ err e
        | ok key ↦ elim rest [ err e ↦ err e | ok keys ↦ ok (key ∷ keys) ]
      ]
