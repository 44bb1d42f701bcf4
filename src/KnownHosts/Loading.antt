-- ===== src/KnownHosts/Loading.antt =====
-- crates/russh-extra/src/known_hosts.rs: which files `load` and `load_files` take, and what the
-- store holds then.
use russh_extra.Base.{
  ℕ, Bytes, List, [], ◌∷◌, ◌++◌, ◌≡◌, refl, ◌∙◌, arith, ◌⊎◌, inl, inr, bit_and, append_assoc,
  append-nil, Text,
}
use russh_extra.Core.Error.{Error, Result, ok, err}
use russh_extra.KnownHosts.Entry.{KnownHostsEntry}
use russh_extra.KnownHosts.Files.{
  Attempt, done, failed, Base64, FileSystem, expand_tilde, parse, mode_is_open, check_open_mode,
  validate_known_hosts_permissions, load_expanded, load, load_loop, load_files,
}
use russh_extra.KnownHosts.Store.{KnownHostsInner, new_store, merge}

Attempt-cases :
    {A E : Type 0} (a : Attempt A E) → ((x : A) × (a ≡ done x)) ⊎ ((e : E) × (a ≡ failed e))
Attempt-cases (done x) = inl (x, refl)
Attempt-cases (failed e) = inr (e, refl)

Result-cases : {A : Type 0} (r : Result A) → ((x : A) × (r ≡ ok x)) ⊎ ((e : Error) × (r ≡ err e))
Result-cases (ok x) = inl (x, refl)
Result-cases (err e) = inr (e, refl)

-- What a store was loaded from: a file that neither group nor others may write.
pub record IsGuarded {F : Type 0} (base64 : Base64) (files : FileSystem F) (fs : F) (path : Bytes)
    (store : KnownHostsInner) : Type 0 where
  pub mode : ℕ
  pub content : Text
  pub has_mode : files.mode path fs ≡ done mode
  pub guarded : bit_and mode 0o22 ≡ 0
  pub has_content : files.read_to_string path fs ≡ done content
  pub is_parsed : store ≡ parse base64 path content

module _ {F : Type 0} (files : FileSystem F) where
  check_open_mode-ok :
      (path : Bytes) (mode : ℕ) → check_open_mode files path mode ≡ ok tt → bit_and mode 0o22 ≡ 0
  unfolding check_open_mode mode_is_open
  check_open_mode-ok path mode h = ground arith

  validate-ok :
      (path : Bytes) (fs : F) (u : Unit {0})
      → validate_known_hosts_permissions files path fs ≡ ok u
      → (mode : ℕ) × (files.mode path fs ≡ done mode) × (bit_and mode 0o22 ≡ 0)
  unfolding validate_known_hosts_permissions
  validate-ok path fs u h = elim (Attempt-cases (files.mode path fs)) [
    | inl (mode, e) ↦ (mode, e, check_open_mode-ok path mode (ground arith))
    | inr (shown, e) ↦ absurd (ground arith)
  ]

module _ {F : Type 0} (base64 : Base64) (files : FileSystem F) (fs : F) where
  load_expanded-IsGuarded :
      (path : Bytes) (store : KnownHostsInner)
      → load_expanded base64 files path fs ≡ ok store
      → IsGuarded base64 files fs path store
  unfolding load_expanded
  load_expanded-IsGuarded path store h =
      elim (Result-cases (validate_known_hosts_permissions files path fs)) [
        | inr (e, refused) ↦ absurd (ground arith)
        | inl (u, allowed) ↦ elim (Attempt-cases (files.read_to_string path fs)) [
          | inr (e, unread) ↦ absurd (ground arith)
          | inl (content, read) ↦
              let (mode, has_mode, guarded) = validate-ok files path fs u allowed in
              record {
                mode = mode;
                content = content;
                has_mode = has_mode;
                guarded = guarded;
                has_content = read;
                is_parsed = ground arith;
              }
        ]
      ]

  -- What files together give.
  pub data AllLoaded : List Bytes → List KnownHostsEntry → Type 0 where
    nil : AllLoaded [] []
    cons :
        {path : Bytes} {paths : List Bytes} {store : KnownHostsInner} {es : List KnownHostsEntry}
        → IsGuarded base64 files fs (expand_tilde files.home path) store
        → AllLoaded paths es
        → AllLoaded (path ∷ paths) (store.entries ++ es)

  load-IsGuarded :
      (path : Bytes) (store : KnownHostsInner)
      → load base64 files path fs ≡ ok store
      → IsGuarded base64 files fs (expand_tilde files.home path) store
  unfolding load
  load-IsGuarded path store h = load_expanded-IsGuarded (expand_tilde files.home path) store h

  load_loop-AllLoaded :
      (start store : KnownHostsInner) (paths : List Bytes)
      → load_loop base64 files start paths fs ≡ ok store
      → (es : List KnownHostsEntry) × (store.entries ≡ start.entries ++ es) × AllLoaded paths es
  unfolding load_loop merge
  load_loop-AllLoaded start store [] h = ([], ground (arith, append-nil start.entries), nil)
  load_loop-AllLoaded start store (path ∷ paths) h =
      elim (Result-cases (load base64 files path fs)) [
        | inr (e, refused) ↦ absurd (ground arith)
        | inl (s, loaded) ↦
            let (es, e, all) = load_loop-AllLoaded (merge start s) store paths (ground arith) in
            (
              s.entries ++ es,
              e ∙ append_assoc start.entries s.entries es,
              cons (load-IsGuarded path s loaded) all,
            )
      ]

  -- When `load_files` succeeds, each of the files can be read and has a mode that lets neither
  -- the group nor others write, and the entries of the store are those parsed from the files, in
  -- the order of the paths.
  pub load_files-AllLoaded :
      (store : KnownHostsInner) (paths : List Bytes)
      → load_files base64 files paths fs ≡ ok store
      → AllLoaded paths store.entries
  unfolding load_files new_store
  load_files-AllLoaded store paths h =
      let (es, e, all) = load_loop-AllLoaded new_store store paths h in rw e all
