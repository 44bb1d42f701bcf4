-- ===== src/KnownHosts/Reload.antt =====
-- crates/russh-extra/src/known_hosts.rs: a store that is saved and loaded again.
use russh_extra.Base.{
  ℕ, ◌+◌, Bytes, Text, Option, none, false, List, [], ◌∷◌, ◌++◌, ◌≡◌, refl, ap, ◌∙◌, append_assoc,
  append-nil, map,
}
use russh_extra.Core.Error.{ok}
use russh_extra.KnownHosts.Entry.{KnownHostsEntry, KnownHostsParseWarning}
use russh_extra.KnownHosts.Files.{
  done, Base64, FileSystem, expand_tilde, saved_line, save_loop, parse, mode_is_open,
  check_open_mode, validate_known_hosts_permissions, load_expanded, load, restrict, write_created,
  write_output, save,
}
use russh_extra.KnownHosts.Marked.{Gives}
use russh_extra.KnownHosts.Parse.{
  is_comment_or_blank, parse_entry, warning_of, content_loop, parse_known_hosts_content,
}
use russh_extra.KnownHosts.SavedLine.{
  IsBase64, IsWritable, saved_entry, line_of, saved_line-join, line_of-Gives, lines-line_of,
  base64_encode-encoded,
}
use russh_extra.KnownHosts.Store.{KnownHostsInner}
use russh_extra.KnownHosts.Words.{trim, lines}

pub data AllWritable : List KnownHostsEntry → Type 0 where
  nil : AllWritable []
  cons :
      {e : KnownHostsEntry} {es : List KnownHostsEntry}
      → IsWritable e
      → AllWritable es
      → AllWritable (e ∷ es)

-- One line that gives an entry, in the loop over the lines of a file.
content_loop-Gives :
    (decode : Text → Option Bytes) (index : ℕ) (entries : List KnownHostsEntry)
    (warnings : List KnownHostsParseWarning) (line : Text) (e : KnownHostsEntry) (rest : List Text)
    → Gives decode line e
    → content_loop decode index entries warnings (line ∷ rest)
      ≡ content_loop decode (index + 1) (entries ++ e ∷ []) warnings rest
unfolding content_loop
content_loop-Gives decode index entries warnings line e rest g =
    let not_blank : is_comment_or_blank (trim line) ≡ false = rw g.trimmed g.not_blank in
    let parsed : parse_entry decode (trim line) ≡ e ∷ [] = rw g.trimmed g.parsed in
    let not_warned : warning_of decode (trim line) (parse_entry decode (trim line)) ≡ none =
      rw parsed (rw g.trimmed g.not_warned) in
    rw (not_blank, not_warned, content_loop)
      (ap (λ x. content_loop decode (index + 1) (entries ++ x) warnings rest) parsed)

module _ (base64 : Base64) (law : IsBase64 base64) where
  -- The lines of the entries.
  file_text : List KnownHostsEntry → Text
  file_text [] = []
  file_text (e ∷ es) = saved_line e (law.encoded e.key_blob) ++ file_text es

  save_loop-file_text :
      {es : List KnownHostsEntry} (output : Text)
      → AllWritable es
      → save_loop base64 output es ≡ ok (output ++ file_text es)
  unfolding save_loop file_text
  save_loop-file_text output nil = rw append-nil refl
  save_loop-file_text output (cons {e} {es} w t) =
      rw (base64_encode-encoded base64 law e w, save_loop)
        (save_loop-file_text (output ++ saved_line e (law.encoded e.key_blob)) t
          ∙ ap ok (append_assoc output (saved_line e (law.encoded e.key_blob)) (file_text es)))

  first-file_text :
      (e : KnownHostsEntry) (es : List KnownHostsEntry) (w : IsWritable e)
      → lines (file_text (e ∷ es))
        ≡ line_of e (law.encoded e.key_blob) w.words ∷ lines (file_text es)
  unfolding file_text
  first-file_text e es w =
      ap (λ x. lines (x ++ file_text es))
        (saved_line-join e (law.encoded e.key_blob) w.words w.comment)
      ∙ ap lines
          (append_assoc (line_of e (law.encoded e.key_blob) w.words) (10 ∷ []) (file_text es))
      ∙ lines-line_of base64 law e w (file_text es)

  content_loop-file_text :
      {es : List KnownHostsEntry} (index : ℕ) (entries : List KnownHostsEntry)
      → AllWritable es
      → content_loop base64.decode index entries [] (lines (file_text es))
        ≡ (entries ++ map saved_entry es, [])
  content_loop-file_text index entries nil =
      unfold content_loop file_text lines in rw append-nil refl
  content_loop-file_text index entries (cons {e} {es} w t) =
      ap (content_loop base64.decode index entries []) (first-file_text e es w)
      ∙ content_loop-Gives base64.decode index entries []
          (line_of e (law.encoded e.key_blob) w.words) (saved_entry e) (lines (file_text es))
          (line_of-Gives base64 law e w)
      ∙ content_loop-file_text (index + 1) (entries ++ saved_entry e ∷ []) t
      ∙ ap (λ x. (x, [])) (append_assoc entries (saved_entry e ∷ []) (map saved_entry es))

-- The file system takes a text that is written at a path, and has it there afterwards with the mode
-- that was set.
pub record Keeps {F : Type 0} (files : FileSystem F) (path : Bytes) (fs : F) (output : Text)
    : Type 0 where
  pub created : (files.create path fs).0 ≡ done tt
  pub written : (files.write_all path output (files.create path fs).1).0 ≡ done tt
  pub restricted :
      let fs' = (files.write_all path output (files.create path fs).1).1 in
      (files.set_mode path 0o600 fs').0 ≡ done tt
  pub kept :
      let fs' = (files.write_all path output (files.create path fs).1).1 in
      let fs'' = (files.set_mode path 0o600 fs').1 in
      (files.mode path fs'' ≡ done 0o600) × (files.read_to_string path fs'' ≡ done output)

module _ {F : Type 0} (files : FileSystem F) (path : Bytes) (fs : F) (output : Text)
    (k : Keeps files path fs output) where
  -- The file system behind the three calls.
  abbrev after_writing : F
  after_writing =
      (files.set_mode path 0o600 (files.write_all path output (files.create path fs).1).1).1

  write_output-Keeps : write_output files path output fs ≡ (ok tt, after_writing)
  unfolding write_output write_created restrict
  write_output-Keeps =
      rw (k.created, write_output)
        (rw (k.written, write_created) (rw (k.restricted, restrict) refl))

  allowed : validate_known_hosts_permissions files path after_writing ≡ ok tt
  unfolding validate_known_hosts_permissions check_open_mode mode_is_open
  allowed = rw (k.kept.0, validate_known_hosts_permissions) refl

  load_expanded-Keeps :
      (base64 : Base64)
      → load_expanded base64 files path after_writing ≡ ok (parse base64 path output)
  unfolding load_expanded
  load_expanded-Keeps base64 = rw (allowed, load_expanded) (rw (k.kept.1) refl)

-- The store that is loaded in place of the one saved.
unfoldable pub reloaded : Bytes → KnownHostsInner → KnownHostsInner
reloaded path inner = record {
  entries = map saved_entry inner.entries;
  warnings = [];
  source_paths = path ∷ [];
  hash_hostnames = false;
}

parse-file_text :
    (base64 : Base64) (law : IsBase64 base64) (inner : KnownHostsInner) (path : Bytes)
    → AllWritable inner.entries
    → parse base64 path (file_text base64 law inner.entries) ≡ reloaded path inner
unfolding parse parse_known_hosts_content reloaded
parse-file_text base64 law inner path w = rw (content_loop-file_text base64 law 0 [] w) refl

save-file_text :
    {F : Type 0} (base64 : Base64) (law : IsBase64 base64) (files : FileSystem F)
    (inner : KnownHostsInner) (path : Bytes) (fs : F)
    (k : Keeps files (expand_tilde files.home path) fs (file_text base64 law inner.entries))
    → AllWritable inner.entries
    → save base64 files inner path fs ≡ (
      ok tt,
      after_writing files (expand_tilde files.home path) fs (file_text base64 law inner.entries) k,
    )
unfolding save
save-file_text base64 law files inner path fs k w =
    rw (save_loop-file_text base64 law [] w, save)
      (write_output-Keeps files (expand_tilde files.home path) fs
        (file_text base64 law inner.entries) k)

-- With a base64 codec that decodes what it encodes and a file system that keeps the text of the
-- store at the expanded path, saving a store succeeds when each entry has a host of one word
-- with no comma, no `]` and no special first byte, a port below 65536, an algorithm of one word,
-- a key of at least one byte and a comment, if any, of words between single spaces; and loading
-- the path again gives the same entries in the same order, the port 22 read back as 0, with no
-- warning, the path as its source and hashing off.
pub load-save :
    {F : Type 0} (base64 : Base64) (files : FileSystem F) (inner : KnownHostsInner) (path : Bytes)
    (fs : F)
    → IsBase64 base64
    → AllWritable inner.entries
    → ((output : Text)
        → save_loop base64 [] inner.entries ≡ ok output
        → Keeps files (expand_tilde files.home path) fs output)
    → let (result, fs') = save base64 files inner path fs in
      (result ≡ ok tt)
      × (load base64 files path fs' ≡ ok (reloaded (expand_tilde files.home path) inner))
unfolding load
load-save base64 files inner path fs law w keeps =
    let path' = expand_tilde files.home path in
    let output = file_text base64 law inner.entries in
    let k = keeps output (save_loop-file_text base64 law [] w) in
    rw (save-file_text base64 law files inner path fs k w) (
      refl,
      load_expanded-Keeps files path' fs output k base64
          ∙ ap ok (parse-file_text base64 law inner path' w),
    )
