-- ===== src/Client/Persisted.antt =====
-- crates/russh-extra/src/client.rs and known_hosts.rs: trust on first use across a file.
use russh_extra.Base.{
  ℕ, ◌<◌, ◌==◌, ◌&&◌, ◌||◌, Bytes, Text, Bool, true, false, some, List, [], ◌∷◌, ◌++◌, ◌≡◌, refl,
  ap, ◌∙◌, arith, if◌then◌else◌, ◌⊎◌, inl, inr, Bool-cases,
}
use russh_extra.Base.Text.{text, bytes_eq}
use russh_extra.Core.Error.{ok}
use russh_extra.Client.HostKeys.{
  ClientHandler, PublicKeys, KeyData, ed25519, rsa, dsa, sk_ed25519, other_key, decided,
  key_changed, public_key_algorithm, by_status, check_server_key,
}
use russh_extra.Client.Trust.{remembering, check_server_key-first}
use russh_extra.KnownHosts.Entry.{KnownHostsEntry, key_match, not_found, changed, host_matches}
use russh_extra.KnownHosts.Files.{Base64, FileSystem, expand_tilde, load, save, save_loop}
use russh_extra.KnownHosts.Joined.{IsWord, is_solid, AllWords}
use russh_extra.KnownHosts.Parse.{comment_of}
use russh_extra.KnownHosts.Reload.{AllWritable, nil, cons, Keeps}
use russh_extra.KnownHosts.SameChecks.{names_22, check-load-save}
use russh_extra.KnownHosts.SavedHost.{IsHost}
use russh_extra.KnownHosts.SavedLine.{IsBase64, IsWritable, is_bytes}
use russh_extra.KnownHosts.Store.{KnownHostsInner, retained, new_entry, check, add_entry}
use russh_extra.KnownHosts.Updates.{add_entry-some, check-add_entry}
use russh_extra.KnownHosts.Words.{is_empty, white_len}

public_key_algorithm-IsWord : (d : KeyData) → IsWord (public_key_algorithm d)
unfolding public_key_algorithm text is_solid white_len
public_key_algorithm-IsWord ed25519 = record { solid = refl; some_byte = refl }
public_key_algorithm-IsWord rsa = record { solid = refl; some_byte = refl }
public_key_algorithm-IsWord dsa = record { solid = refl; some_byte = refl }
public_key_algorithm-IsWord sk_ed25519 = record { solid = refl; some_byte = refl }
public_key_algorithm-IsWord other_key = record { solid = refl; some_byte = refl }

module _ (host : Text) (port : ℕ) where
  retained-AllWritable :
      {es : List KnownHostsEntry} → AllWritable es → AllWritable (retained host port es)
  unfolding retained
  retained-AllWritable nil = nil
  retained-AllWritable (cons {e} {es} w t) =
      elim (Bool-cases (
        host_matches e.hostname host
        && (e.port == port || e.port == 0 || port == 0 || port == 22))) [
          | inl gone ↦ rw gone (retained-AllWritable t)
          | inr kept ↦ rw kept (cons w (retained-AllWritable t))
        ]

  names_22-retained :
      (es : List KnownHostsEntry) → names_22 es ≡ false → names_22 (retained host port es) ≡ false
  unfolding retained names_22
  names_22-retained [] h = h
  names_22-retained (e ∷ es) h = ground (arith, names_22-retained es)

names_22-append :
    (es : List KnownHostsEntry) (e : KnownHostsEntry)
    → names_22 es ≡ false
    → (e.port == 22) ≡ false
    → names_22 (es ++ e ∷ []) ≡ false
unfolding names_22
names_22-append [] e h k = ground arith
names_22-append (f ∷ es) e h k = ground (arith, names_22-append es e)

append-AllWritable :
    {es : List KnownHostsEntry} {e : KnownHostsEntry}
    → AllWritable es
    → IsWritable e
    → AllWritable (es ++ e ∷ [])
append-AllWritable nil w = cons w nil
append-AllWritable (cons v t) w = cons v (append-AllWritable t w)

new_entry-IsWritable :
    (host : Text) (port : ℕ) (d : KeyData) (key_blob : Bytes)
    → IsHost host
    → port < 65536
    → is_bytes key_blob ≡ true
    → is_empty key_blob ≡ false
    → IsWritable (new_entry host port (public_key_algorithm d) key_blob)
unfolding comment_of
new_entry-IsWritable host port d key_blob h b kb ke = record {
  host = h;
  port_lt = b;
  algorithm = public_key_algorithm-IsWord d;
  key_bytes = kb;
  some_key = ke;
  words = [];
  all_words = AllWords.nil;
  comment = refl;
}

-- What a first use needs of the server and its key, so that a line can hold them.
pub record IsStorable (host : Text) (port : ℕ) (key_blob : Bytes) (store : KnownHostsInner)
    : Type 0 where
  pub is_host : IsHost host
  pub port_lt : port < 65536
  pub key_bytes : is_bytes key_blob ≡ true
  pub some_key : is_empty key_blob ≡ false
  pub others : AllWritable store.entries
  pub port_kept : (port ≡ 22) ⊎ (names_22 store.entries ≡ false)

module _ {K : Type 0} (keys : PublicKeys K) (host : Text) (port : ℕ) (store : KnownHostsInner)
    (key : K) (key_blob : Bytes) (serialises : keys.to_bytes key ≡ some key_blob)
    (s : IsStorable host port key_blob store) where
  -- The store behind the first use.
  abbrev pub storing : KnownHostsInner
  storing =
      (add_entry keys.to_bytes host port key (public_key_algorithm (keys.key_data key)) store).1

  storing-entries :
      storing.entries
      ≡ retained host port store.entries
        ++ new_entry host port (public_key_algorithm (keys.key_data key)) key_blob ∷ []
  storing-entries =
      ap (λ r. r.1.entries)
        (add_entry-some keys.to_bytes host port key (public_key_algorithm (keys.key_data key)) store
          key_blob serialises)

  storing-AllWritable : AllWritable storing.entries
  storing-AllWritable = rw storing-entries (
      append-AllWritable (retained-AllWritable host port s.others) (
        new_entry-IsWritable host port (keys.key_data key) key_blob s.is_host s.port_lt s.key_bytes
          s.some_key))

  storing-names_22 : (port ≡ 22) ⊎ (names_22 storing.entries ≡ false)
  storing-names_22 = elim s.port_kept [
    | inl same ↦ inl same
    | inr absent ↦ elim (Bool-cases (port == 22)) [
      | inl same ↦ inl (ground arith)
      | inr other ↦ inr (
          rw storing-entries (
            names_22-append (retained host port store.entries)
              (new_entry host port (public_key_algorithm (keys.key_data key)) key_blob)
              (names_22-retained host port store.entries absent) other))
    ]
  ]

module _ {K : Type 0} (keys : PublicKeys K) (handler : ClientHandler) (store : KnownHostsInner)
    (key asked : K) (key_blob key_bytes : Bytes) where
  by_status-loaded :
      (b : Bool) (h : ClientHandler) (loaded : KnownHostsInner)
      → (by_status keys (if b then key_match else changed) h loaded asked).0
        ≡ (if b then decided true else key_changed)
  unfolding by_status
  by_status-loaded true h loaded = refl
  by_status-loaded false h loaded = refl

  -- When a server's key is not in the store, new keys are accepted and the key has bytes, the
  -- key is accepted and stored. If a line can hold the host, the key and the entries of the
  -- store, if the port is 22 or no entry is for the port 22, and with a base64 codec and a file
  -- system that keeps what is saved at the path: the stored entries can be saved and loaded, and
  -- with the loaded store a later key for the server that has bytes is accepted if it has the
  -- same ones, and refused as changed if not.
  pub check_server_key-load-save :
      {F : Type 0} (base64 : Base64) (files : FileSystem F) (path : Bytes) (fs : F)
      → handler.known_hosts ≡ some store
      → handler.known_hosts_accept_new ≡ true
      → check keys.to_bytes handler.endpoint.host handler.endpoint.port key store ≡ not_found
      → keys.to_bytes key ≡ some key_blob
      → keys.to_bytes asked ≡ some key_bytes
      → IsBase64 base64
      → IsStorable handler.endpoint.host handler.endpoint.port key_blob store
      → ((inner : KnownHostsInner) (output : Text)
          → save_loop base64 [] inner.entries ≡ ok output
          → Keeps files (expand_tilde files.home path) fs output)
      → (stored : KnownHostsInner) × (loaded : KnownHostsInner) × (check_server_key keys handler key
          ≡ (decided true, record handler { known_hosts = some stored }))
        × (load base64 files path (save base64 files stored path fs).1 ≡ ok loaded)
        × ((check_server_key keys (record handler { known_hosts = some loaded }) asked).0
            ≡ (if bytes_eq key_blob key_bytes then decided true else key_changed))
  unfolding check_server_key remembering
  check_server_key-load-save base64 files path fs hs hn hc hk ha law s keeps =
      let host = handler.endpoint.host in
      let port = handler.endpoint.port in
      let stored = storing keys host port store key key_blob hk s in
      let (loaded, read, same) =
        check-load-save base64 files keys.to_bytes stored path fs host port asked law
          (storing-AllWritable keys host port store key key_blob hk s) (keeps stored)
          (storing-names_22 keys host port store key key_blob hk s) in
      (
        stored,
        loaded,
        check_server_key-first keys handler store key hs hn hc,
        read,
        ap
              (λ status.
                (by_status keys status (record handler { known_hosts = some loaded }) loaded
                  asked).0)
              (same
                ∙ (check-add_entry keys.to_bytes host port key _ store asked key_blob key_bytes hk
                    ha).1)
            ∙ by_status-loaded (bytes_eq key_blob key_bytes)
                (record handler { known_hosts = some loaded }) loaded,
      )
