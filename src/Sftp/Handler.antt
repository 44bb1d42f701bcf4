-- ===== src/Sftp/Handler.antt =====
-- crates/russh-extra/src/sftp/server.rs: the trait `SftpServerHandler`, which an application
-- implements. A handler is a state and, for each method, a function that returns the method's result
-- and the handler's next state.
use russh_extra.Base.{ℕ, Bytes, Text, List}
use russh_extra.Base.Text.{text}
use russh_extra.Core.Error.{Result, ok, err, SftpErrorKind, sftp_error}
use russh_extra.Sftp.Response.{Extensions}
use russh_extra.Sftp.Metadata.{SftpMetadata, SftpDirEntry}

-- A call of an `async fn(&self, …) -> Result<A>` on a handler with state `S`.
abbrev pub Call : Type 0 → Type 0 → Type 0
Call S A = S → Result A × S

-- `open_file` is the trait's `open`.
pub record SftpServerHandler (S : Type 0) : Type 0 where
  pub init : ℕ → Extensions → Call S ℕ
  pub open_file : ℕ → Text → ℕ → SftpMetadata → Call S Text
  pub close : ℕ → Text → Call S (Unit {0})
  pub read : ℕ → Text → ℕ → ℕ → Call S Bytes
  pub write : ℕ → Text → ℕ → Bytes → Call S (Unit {0})
  pub remove : ℕ → Text → Call S (Unit {0})
  pub rename : ℕ → Text → Text → Call S (Unit {0})
  pub mkdir : ℕ → Text → SftpMetadata → Call S (Unit {0})
  pub rmdir : ℕ → Text → Call S (Unit {0})
  pub opendir : ℕ → Text → Call S Text
  pub readdir : ℕ → Text → Call S (List SftpDirEntry)
  pub stat : ℕ → Text → Call S SftpMetadata
  pub lstat : ℕ → Text → Call S SftpMetadata
  pub fstat : ℕ → Text → Call S SftpMetadata
  pub setstat : ℕ → Text → SftpMetadata → Call S (Unit {0})
  pub fsetstat : ℕ → Text → SftpMetadata → Call S (Unit {0})
  pub realpath : ℕ → Text → Call S (List SftpDirEntry)
  pub readlink : ℕ → Text → Call S (List SftpDirEntry)
  pub symlink : ℕ → Text → Text → Call S (Unit {0})

unsupported : {S A : Type 0} → Text → Call S A
unfolding sftp_error
unsupported message s = (err (sftp_error SftpErrorKind.unsupported message), s)

-- The methods that the trait provides: `init` and `close` succeed, the others are unsupported.
unfoldable pub default_handler : (S : Type 0) → SftpServerHandler S
unfolding unsupported
default_handler S = record {
  init = λ _ _ s. (ok 3, s);
  open_file = λ _ _ _ _. unsupported (text "open not implemented");
  close = λ _ _ s. (ok tt, s);
  read = λ _ _ _ _. unsupported (text "read not implemented");
  write = λ _ _ _ _. unsupported (text "write not implemented");
  remove = λ _ _. unsupported (text "remove not implemented");
  rename = λ _ _ _. unsupported (text "rename not implemented");
  mkdir = λ _ _ _. unsupported (text "mkdir not implemented");
  rmdir = λ _ _. unsupported (text "rmdir not implemented");
  opendir = λ _ _. unsupported (text "opendir not implemented");
  readdir = λ _ _. unsupported (text "readdir not implemented");
  stat = λ _ _. unsupported (text "stat not implemented");
  lstat = λ _ _. unsupported (text "lstat not implemented");
  fstat = λ _ _. unsupported (text "fstat not implemented");
  setstat = λ _ _ _. unsupported (text "setstat not implemented");
  fsetstat = λ _ _ _. unsupported (text "fsetstat not implemented");
  realpath = λ _ _. unsupported (text "realpath not implemented");
  readlink = λ _ _. unsupported (text "readlink not implemented");
  symlink = λ _ _ _. unsupported (text "symlink not implemented");
}
