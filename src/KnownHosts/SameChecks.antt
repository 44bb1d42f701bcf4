-- ===== src/KnownHosts/SameChecks.antt =====
-- crates/russh-extra/src/known_hosts.rs: `check` on a store that was saved and loaded.
use russh_extra.Base.{
  ℕ, ◌==◌, Bytes, Text, Option, Bool, false, ◌||◌, List, [], ◌∷◌, ◌≡◌, refl, sym, ap, ◌∙◌, arith,
  map, ◌⊎◌, inl, inr, Option-cases,
}
use russh_extra.Core.Error.{ok}
use russh_extra.KnownHosts.Entry.{KnownHostsEntry}
use russh_extra.KnownHosts.Files.{Base64, FileSystem, expand_tilde, load, save, save_loop}
use russh_extra.KnownHosts.Reload.{AllWritable, Keeps, reloaded, load-save}
use russh_extra.KnownHosts.SavedLine.{IsBase64, saved_entry}
use russh_extra.KnownHosts.Store.{KnownHostsInner, check}
use russh_extra.KnownHosts.Strongest.{status_of, stronger, strongest, check-none, check-some}

-- Whether some entry is for the port 22.
unfoldable pub names_22 : List KnownHostsEntry → Bool
names_22 [] = false
names_22 (e ∷ es) = e.port == 22 || names_22 es

module _ (host : Text) (port : ℕ) (key_bytes : Bytes) where
  status_of-saved_entry :
      (e : KnownHostsEntry)
      → (port ≡ 22) ⊎ ((e.port == 22) ≡ false)
      → status_of host port key_bytes (saved_entry e) ≡ status_of host port key_bytes e
  unfolding saved_entry
  status_of-saved_entry e h = ground arith

  strongest-saved_entry :
      (es : List KnownHostsEntry)
      → (port ≡ 22) ⊎ (names_22 es ≡ false)
      → strongest host port key_bytes (map saved_entry es) ≡ strongest host port key_bytes es
  unfolding names_22
  strongest-saved_entry [] h = refl
  strongest-saved_entry (e ∷ es) h =
      rw (status_of-saved_entry e (ground arith))
        (ap (stronger (status_of host port key_bytes e)) (strongest-saved_entry es (ground arith)))

check-reloaded :
    {K : Type 0} (public_key_to_bytes : K → Option Bytes) (host : Text) (port : ℕ) (public_key : K)
    (path : Bytes) (inner : KnownHostsInner)
    → (port ≡ 22) ⊎ (names_22 inner.entries ≡ false)
    → check public_key_to_bytes host port public_key (reloaded path inner)
      ≡ check public_key_to_bytes host port public_key inner
unfolding reloaded
check-reloaded public_key_to_bytes host port public_key path inner h =
    elim (Option-cases (public_key_to_bytes public_key)) [
      | inl failed ↦
          check-none public_key_to_bytes host port public_key _ failed
          ∙ sym (check-none public_key_to_bytes host port public_key inner failed)
      | inr (key_bytes, e) ↦
          check-some public_key_to_bytes host port public_key _ key_bytes e
          ∙ strongest-saved_entry host port key_bytes inner.entries h
          ∙ sym (check-some public_key_to_bytes host port public_key inner key_bytes e)
    ]

-- With a base64 codec, a file system and entries that meet the conditions of `load-save`, a
-- store that was saved and loaded again gives the outcome of `check` that the saved store gives,
-- for any host and key at the port 22, and at any port if no entry is for the port 22.
pub check-load-save :
    {F K : Type 0} (base64 : Base64) (files : FileSystem F) (public_key_to_bytes : K → Option Bytes)
    (inner : KnownHostsInner) (path : Bytes) (fs : F) (host : Text) (port : ℕ) (public_key : K)
    → IsBase64 base64
    → AllWritable inner.entries
    → ((output : Text)
        → save_loop base64 [] inner.entries ≡ ok output
        → Keeps files (expand_tilde files.home path) fs output)
    → (port ≡ 22) ⊎ (names_22 inner.entries ≡ false)
    → (loaded : KnownHostsInner) × (load base64 files path (save base64 files inner path fs).1
        ≡ ok loaded)
      × (check public_key_to_bytes host port public_key loaded
          ≡ check public_key_to_bytes host port public_key inner)
check-load-save base64 files public_key_to_bytes inner path fs host port public_key law w k h =
    let path' = expand_tilde files.home path in
    (
      reloaded path' inner,
      (load-save base64 files inner path fs law w k).1,
      check-reloaded public_key_to_bytes host port public_key path' inner h,
    )
