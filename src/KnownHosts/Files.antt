-- ===== src/KnownHosts/Files.antt =====
-- crates/russh-extra/src/known_hosts.rs: `load`, `load_files` and `save` on Unix. The file system, the
-- environment and the `base64` crate are parameters.
use russh_extra.Base.{
  ℕ, ◌==◌, Bytes, Text, Option, none, some, Bool, false, not, ◌&&◌, if◌then◌else◌, List, [], ◌∷◌,
  ◌++◌, drop, bit_and,
}
use russh_extra.Base.Text.{text, decimal, bytes_eq, is_utf8}
use russh_extra.Core.Endpoint.{colon, open_bracket, close_bracket}
use russh_extra.Core.Error.{Error, Result, ok, err, IoError}
use russh_extra.KnownHosts.Entry.{KnownHostsEntry}
use russh_extra.KnownHosts.Parse.{parse_known_hosts_content}
use russh_extra.KnownHosts.Store.{KnownHostsInner, new_store, merge}
use russh_extra.KnownHosts.Words.{begins}

pub data Attempt (A E : Type 0) : Type 0 where
  done : A → Attempt A E
  failed : E → Attempt A E

-- The standard alphabet with padding: the writer of `base64_encode`, the reader of
-- `base64_decode_key`, and the text of a `FromUtf8Error`.
pub record Base64 : Type 0 where
  pub encode : Bytes → Attempt Bytes Text
  pub decode : Text → Option Bytes
  pub utf8_error : Bytes → Text

-- `std::fs` on a file system of type `F`, the variable `HOME`, and `Path::display`.
pub record FileSystem (F : Type 0) : Type 0 where
  pub mode : Bytes → F → Attempt ℕ IoError
  pub read_to_string : Bytes → F → Attempt Text IoError
  pub create : Bytes → F → Attempt (Unit {0}) IoError × F
  pub write_all : Bytes → Bytes → F → Attempt (Unit {0}) IoError × F
  pub set_mode : Bytes → ℕ → F → Attempt (Unit {0}) IoError × F
  pub home : Option Text
  pub display : Bytes → Text

unfoldable pub ends_with_slash : Bytes → Bool
ends_with_slash [] = false
ends_with_slash (c ∷ []) = c == b'/'
ends_with_slash (c ∷ d ∷ cs) = ends_with_slash (d ∷ cs)

-- `PathBuf::join`
unfoldable pub join_path : Bytes → Bytes → Bytes
join_path [] path = path
join_path (c ∷ cs) path =
    if begins b'/' path
    then path
    else if ends_with_slash (c ∷ cs)
    then (c ∷ cs) ++ path
    else (c ∷ cs) ++ b'/' ∷ path

-- `path_str == "~" || path_str.starts_with("~/")`, of a path that is UTF-8.
unfoldable pub begins_at_home : Bytes → Bool
begins_at_home [] = false
begins_at_home (c ∷ []) = c == b'~'
begins_at_home (c ∷ d ∷ cs) = is_utf8 (c ∷ d ∷ cs) && (c == b'~' && d == b'/')

unfoldable pub expand_tilde : Option Text → Bytes → Bytes
expand_tilde none path = path
expand_tilde (some home) path =
    if begins_at_home path
    then (if bytes_eq path (text "~") then home else join_path home (drop 2 path))
    else path

-- `[host]:port`, or the host alone.
unfoldable pub host_part : KnownHostsEntry → Text
host_part entry =
    if not (entry.port == 0) && not (entry.port == 22)
    then open_bracket ∷ (entry.hostname ++ close_bracket ∷ colon ∷ decimal entry.port)
    else entry.hostname

unfoldable pub marker_of : Bool → Text
marker_of revoked = if revoked then text "@revoked " else []

unfoldable pub comment_part : Option Text → Text
comment_part none = []
comment_part (some c) = 32 ∷ c

-- The `format!` of one line.
unfoldable pub saved_line : KnownHostsEntry → Text → Text
saved_line entry key_b64 =
    marker_of entry.revoked
    ++ (host_part entry
        ++ 32 ∷ (entry.algorithm ++ 32 ∷ (key_b64 ++ (comment_part entry.comment ++ 10 ∷ []))))

unfoldable pub mode_is_open : ℕ → Bool
mode_is_open mode = not (bit_and mode 0o22 == 0)

module _ {F : Type 0} (files : FileSystem F) where
  unfoldable pub check_open_mode : Bytes → ℕ → Result (Unit {0})
  check_open_mode path mode =
      if mode_is_open mode
      then err (
          Error.invalid_config (
            text "known-hosts file `"
            ++ (files.display path ++ text "` must not be writable by group or others")))
      else ok tt

  unfoldable pub validate_known_hosts_permissions : Bytes → F → Result (Unit {0})
  validate_known_hosts_permissions path fs = elim (files.mode path fs) [
    | failed e ↦ err (Error.io e)
    | done mode ↦ check_open_mode path mode
  ]

  unfoldable pub restrict : Bytes → F → Result (Unit {0}) × F
  restrict path fs =
      let (result, fs') = files.set_mode path 0o600 fs in
      elim result [
        | done _ ↦ (ok tt, fs')
        | failed _ ↦ (
          err (
              Error.invalid_config (
                text "failed to set permissions on known-hosts file `"
                ++ (files.display path ++ text "`"))),
          fs',
        )
      ]

  unfoldable pub write_created : Bytes → Text → F → Result (Unit {0}) × F
  write_created path output fs =
      let (result, fs') = files.write_all path output fs in
      elim result [ failed e ↦ (err (Error.io e), fs') | done _ ↦ restrict path fs' ]

  unfoldable pub write_output : Bytes → Text → F → Result (Unit {0}) × F
  write_output path output fs =
      let (result, fs') = files.create path fs in
      elim result [ failed e ↦ (err (Error.io e), fs') | done _ ↦ write_created path output fs' ]

module _ (base64 : Base64) where
  unfoldable pub base64_encode : Bytes → Result Text
  base64_encode key_blob = elim (base64.encode key_blob) [
    | failed shown ↦ err (Error.invalid_config (text "base64 encode failed: " ++ shown))
    | done buf ↦
        if is_utf8 buf
        then ok buf
        else err (
            Error.invalid_config
              (text "base64 output is not valid UTF-8: " ++ base64.utf8_error buf))
  ]

  -- The loop of `save`, behind the output so far.
  unfoldable pub save_loop : Text → List KnownHostsEntry → Result Text
  save_loop output [] = ok output
  save_loop output (entry ∷ entries) = elim (base64_encode entry.key_blob) [
    | err e ↦ err e
    | ok key_b64 ↦ save_loop (output ++ saved_line entry key_b64) entries
  ]

  -- `KnownHosts::parse`
  unfoldable pub parse : Bytes → Text → KnownHostsInner
  parse path content =
      let (entries, warnings) = parse_known_hosts_content base64.decode content in
      record {
        entries = entries;
        warnings = warnings;
        source_paths = path ∷ [];
        hash_hostnames = false;
      }

module _ (base64 : Base64) {F : Type 0} (files : FileSystem F) where
  unfoldable pub load_expanded : Bytes → F → Result KnownHostsInner
  load_expanded path fs = elim (validate_known_hosts_permissions files path fs) [
    | err e ↦ err e
    | ok _ ↦ elim (files.read_to_string path fs) [
      | failed e ↦ err (Error.io e)
      | done content ↦ ok (parse base64 path content)
    ]
  ]

  -- `KnownHosts::load`
  unfoldable pub load : Bytes → F → Result KnownHostsInner
  load path fs = load_expanded (expand_tilde files.home path) fs

  unfoldable pub load_loop : KnownHostsInner → List Bytes → F → Result KnownHostsInner
  load_loop store [] fs = ok store
  load_loop store (path ∷ paths) fs = elim (load path fs) [
    | err e ↦ err e
    | ok contents ↦ load_loop (merge store contents) paths fs
  ]

  -- `KnownHosts::load_files`
  unfoldable pub load_files : List Bytes → F → Result KnownHostsInner
  load_files paths fs = load_loop new_store paths fs

  -- `KnownHosts::save`
  unfoldable pub save : KnownHostsInner → Bytes → F → Result (Unit {0}) × F
  save inner path fs = elim (save_loop base64 [] inner.entries) [
    | err e ↦ (err e, fs)
    | ok output ↦ write_output files (expand_tilde files.home path) output fs
  ]
