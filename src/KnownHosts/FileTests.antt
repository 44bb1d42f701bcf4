-- ===== src/KnownHosts/FileTests.antt =====
-- Files of known hosts and a first use at concrete entries, on a disk with a single file, with a codec that writes
-- a byte as so many letters `A` and a `B`.
use russh_extra.Base.{
  inr, ℕ, zero, suc, ◌+◌, ◌==◌, Bytes, Text, Option, none, some, true, false, if◌then◌else◌, [],
  ◌∷◌, ◌++◌, ◌≡◌, refl, ap, ◌∙◌, arith,
}
use russh_extra.Base.Text.{text, bytes_eq, strip_prefix, is_utf8}
use russh_extra.Core.Error.{ok}
use russh_extra.Client.HostKeys.{
  ClientHandler, PublicKeys, ed25519, strict, decided, key_changed, check_server_key,
}
use russh_extra.Client.Persisted.{check_server_key-load-save}
use russh_extra.Core.Endpoint.{count_byte, parse_u16, digits_u16, rsplit_once}
use russh_extra.KnownHosts.Entry.{
  KnownHostsEntry, changed, not_found, host_matches, to_ascii_lowercase,
}
use russh_extra.KnownHosts.Files.{
  done, Base64, FileSystem, expand_tilde, load, save, load_files, load_loop, load_expanded,
  validate_known_hosts_permissions, check_open_mode, mode_is_open, parse, join_path, begins_at_home,
  ends_with_slash,
}
use russh_extra.KnownHosts.Joined.{is_solid, IsWord, AllWords}
use russh_extra.KnownHosts.Lines.{Accounted, content-Accounted}
use russh_extra.KnownHosts.Loading.{AllLoaded, load_files-AllLoaded}
use russh_extra.KnownHosts.Parse.{
  is_comment_or_blank, warning_of, parse_entry, parse_revoked_marker, parse_cert_authority_marker,
  parse_words, base64_decode_key, entry_for, content_loop, parse_known_hosts_content,
  parse_host_pattern, parse_bracketed, parse_closed, parse_opened, with_port, strip_suffix,
  rsplit_close, split_commas, at_any_port, comment_of,
}
use russh_extra.KnownHosts.Reload.{AllWritable, Keeps, reloaded, load-save}
use russh_extra.KnownHosts.SameChecks.{names_22}
use russh_extra.KnownHosts.SavedHost.{IsHost}
use russh_extra.KnownHosts.SavedLine.{is_bytes, IsBase64, in_alphabet, saved_entry}
use russh_extra.KnownHosts.Store.{
  KnownHostsInner, merge, new_store, new_entry, check, check_loop, conclude,
}
use russh_extra.KnownHosts.Words.{trim, split_whitespace, is_empty, join, lines, white_len}

letters : ℕ → Bytes → Bytes
letters zero rest = b'B' ∷ rest
letters (suc n) rest = b'A' ∷ letters n rest

spelled : Bytes → Bytes
unfolding letters
spelled [] = []
spelled (b ∷ bs) = letters b (spelled bs)

abbrev onto : ℕ → Option Bytes → Option Bytes
onto n none = none
onto n (some bs) = some (n ∷ bs)

counted : ℕ → Bytes → Option Bytes
counted n [] = some []
counted n (c ∷ cs) =
    let rest = counted (if c == b'B' then 0 else n + 1) cs in
    if c == b'B' then onto n rest else if c == b'A' then rest else none

counted-letters :
    (n k : ℕ) (rest : Bytes) → counted n (letters k rest) ≡ onto (n + k) (counted 0 rest)
unfolding counted letters
counted-letters n zero rest = ap (λ x. onto x (counted 0 rest)) (omega arith)
counted-letters n (suc k) rest =
    counted-letters (n + 1) k rest ∙ ap (λ x. onto x (counted 0 rest)) (omega arith)

counted-spelled : (bs : Bytes) → counted 0 (spelled bs) ≡ some bs
unfolding spelled
counted-spelled [] = unfold counted in refl
counted-spelled (b ∷ bs) =
    counted-letters 0 b (spelled bs)
    ∙ ap (λ x. onto x (counted 0 (spelled bs))) (omega arith)
    ∙ ap (onto b) (counted-spelled bs)

letters-in_alphabet :
    (n : ℕ) (rest : Bytes) → in_alphabet rest ≡ true → in_alphabet (letters n rest) ≡ true
unfolding letters in_alphabet
letters-in_alphabet zero rest h = h
letters-in_alphabet (suc n) rest h = letters-in_alphabet n rest h

spelled-in_alphabet : (bs : Bytes) → in_alphabet (spelled bs) ≡ true
unfolding spelled
spelled-in_alphabet [] = unfold in_alphabet in refl
spelled-in_alphabet (b ∷ bs) = letters-in_alphabet b (spelled bs) (spelled-in_alphabet bs)

letters-is_empty : (n : ℕ) (rest : Bytes) → is_empty (letters n rest) ≡ false
unfolding letters
letters-is_empty zero rest = refl
letters-is_empty (suc n) rest = refl

spelled-is_empty : (bs : Bytes) → is_empty bs ≡ false → is_empty (spelled bs) ≡ false
unfolding spelled
spelled-is_empty [] h = h
spelled-is_empty (b ∷ bs) h = letters-is_empty b (spelled bs)

abbrev codec : Base64
codec = record { encode = λ bs. done (spelled bs); decode = counted 0; utf8_error = λ bs. [] }

codec-IsBase64 : IsBase64 codec
codec-IsBase64 = record {
  encoded = spelled;
  encodes = λ bs h. refl;
  decodes = λ bs h. counted-spelled bs;
  alphabet = λ bs h. spelled-in_alphabet bs;
  some_text = λ bs h. spelled-is_empty bs;
}

record Disk : Type 0 where
  content : Text
  mode : ℕ

abbrev disk_files : FileSystem Disk
disk_files = record {
  mode = λ path d. done d.mode;
  read_to_string = λ path d. done d.content;
  create = λ path d. (done tt, record { content = []; mode = 0o644 });
  write_all = λ path bs d. (done tt, record d { content = d.content ++ bs });
  set_mode = λ path m d. (done tt, record d { mode = m });
  home = some (text "/root");
  display = λ path. path;
}

abbrev empty_disk : Disk
empty_disk = record { content = []; mode = 0 }

disk-Keeps : (path : Bytes) (d : Disk) (output : Text) → Keeps disk_files path d output
disk-Keeps path d output = record {
  created = refl;
  written = refl;
  restricted = refl;
  kept = (refl, refl);
}

h_org-IsHost : IsHost (text "h.org")
unfolding text is_solid white_len count_byte
h_org-IsHost = record {
  word = record { solid = refl; some_byte = refl };
  no_comma = refl;
  no_close = refl;
  no_hash = refl;
  no_bar = refl;
  no_marker = refl;
  no_open = refl;
}

rsa-IsWord : IsWord (text "ssh-rsa")
unfolding text is_solid white_len
rsa-IsWord = record { solid = refl; some_byte = refl }

abbrev commented : KnownHostsEntry
commented = record (new_entry (text "h.org") 2222 (text "ssh-rsa") (1 ∷ 2 ∷ [])) {
  comment = some (text "h.org");
}

abbrev bad : KnownHostsEntry
bad = record (new_entry (text "h.org") 22 (text "ssh-rsa") (3 ∷ [])) { revoked = true }

abbrev two_entries : KnownHostsInner
two_entries = record new_store { entries = commented ∷ bad ∷ [] }

two_entries-AllWritable : AllWritable (commented ∷ bad ∷ [])
unfolding comment_of join is_bytes
two_entries-AllWritable =
    AllWritable.cons
      (record {
        host = h_org-IsHost;
        port_lt = omega arith;
        algorithm = rsa-IsWord;
        key_bytes = refl;
        some_key = refl;
        words = text "h.org" ∷ [];
        all_words = AllWords.cons h_org-IsHost.word AllWords.nil;
        comment = refl;
      })
      (AllWritable.cons
        (record {
          host = h_org-IsHost;
          port_lt = omega arith;
          algorithm = rsa-IsWord;
          key_bytes = refl;
          some_key = refl;
          words = [];
          all_words = AllWords.nil;
          comment = refl;
        })
        AllWritable.nil)

load-save_example :
    let (result, after) = save codec disk_files two_entries (text "~/hosts") empty_disk in
    (result ≡ ok tt)
    × (load codec disk_files (text "~/hosts") after
        ≡ ok (reloaded (expand_tilde (some (text "/root")) (text "~/hosts")) two_entries))
unfolding new_store
load-save_example =
    load-save codec disk_files two_entries (text "~/hosts") empty_disk codec-IsBase64
      two_entries-AllWritable
      (λ output e.
        disk-Keeps (expand_tilde (some (text "/root")) (text "~/hosts")) empty_disk output)

content-Accounted_example :
    let (entries, warnings) =
      parse_known_hosts_content (counted 0) (text "a b" ++ 10 ∷ text "|1|x") in
    Accounted (counted 0) 1 (text "|1|x") entries warnings
unfolding lines text
content-Accounted_example =
    content-Accounted (counted 0) (text "a b" ++ 10 ∷ text "|1|x") 1 (text "|1|x") refl

abbrev one_line : Disk
one_line = record { content = text "h ssh-rsa AB"; mode = 0o644 }

abbrev one_entry : KnownHostsInner
one_entry = record new_store {
  entries = new_entry (text "h") 0 (text "ssh-rsa") (1 ∷ []) ∷ [];
  source_paths = text "k" ∷ [];
}

load_files-AllLoaded_example : AllLoaded codec disk_files one_line (text "k" ∷ []) one_entry.entries
unfolding load_files load_loop load load_expanded validate_known_hosts_permissions check_open_mode
    mode_is_open parse parse_known_hosts_content content_loop lines new_store merge expand_tilde
    begins_at_home text trim is_comment_or_blank warning_of parse_entry parse_revoked_marker
    parse_cert_authority_marker strip_prefix split_whitespace white_len parse_words
    base64_decode_key counted parse_host_pattern split_commas at_any_port entry_for comment_of
load_files-AllLoaded_example =
    load_files-AllLoaded codec disk_files one_line one_entry (text "k" ∷ []) refl

-- A key is its own bytes.
abbrev byte_keys : PublicKeys Bytes
byte_keys = record { to_bytes = some; sha256_fingerprint = λ k. k; key_data = λ k. ed25519 }

abbrev first_use : ClientHandler
first_use = record {
  endpoint = record { host = text "h.org"; port = 2222 };
  host_key_policy = strict;
  known_hosts = some new_store;
  known_hosts_accept_new = true;
}

check_server_key-load-save_example :
    (stored : KnownHostsInner) × (loaded : KnownHostsInner) × (check_server_key byte_keys first_use
        (1 ∷ 2 ∷ [])
      ≡ (decided true, record first_use { known_hosts = some stored }))
    × (load codec disk_files
          (text "~/hosts")
          (save codec disk_files stored (text "~/hosts") empty_disk).1
        ≡ ok loaded)
    × ((check_server_key byte_keys (record first_use { known_hosts = some loaded }) (1 ∷ 3 ∷ [])).0
        ≡ (if bytes_eq (1 ∷ 2 ∷ []) (1 ∷ 3 ∷ []) then decided true else key_changed))
unfolding check check_loop conclude new_store is_bytes names_22
check_server_key-load-save_example =
    check_server_key-load-save byte_keys first_use new_store (1 ∷ 2 ∷ []) (1 ∷ 3 ∷ []) (1 ∷ 2 ∷ [])
      (1 ∷ 3 ∷ []) codec disk_files (text "~/hosts") empty_disk refl refl refl refl refl
      codec-IsBase64
      (record {
        is_host = h_org-IsHost;
        port_lt = omega arith;
        key_bytes = refl;
        some_key = refl;
        others = AllWritable.nil;
        port_kept = inr refl;
      })
      (λ inner output e.
        disk-Keeps (expand_tilde (some (text "/root")) (text "~/hosts")) empty_disk output)

-- An entry for the port 22 answers for any port behind a reload.
widened :
    (check some
        (text "h.org")
        2222
        (3 ∷ [])
        (record new_store { entries = new_entry (text "h.org") 22 (text "ssh-rsa") (4 ∷ []) ∷ [] })
      ≡ not_found)
    × (check some (text "h.org") 2222 (3 ∷ []) (
          reloaded (text "k") (record new_store {
            entries = new_entry (text "h.org") 22 (text "ssh-rsa") (4 ∷ []) ∷ [];
          }))
        ≡ changed)
unfolding check check_loop conclude reloaded saved_entry new_store host_matches to_ascii_lowercase
    text bytes_eq
widened = (refl, refl)

two_hosts : parse_host_pattern (text "a,b") ≡ (text "a", 0) ∷ (text "b", 0) ∷ []
unfolding parse_host_pattern text strip_prefix split_commas at_any_port
two_hosts = refl

ported_host : parse_host_pattern (text "[a]:2222") ≡ (text "a", 2222) ∷ []
unfolding parse_host_pattern text strip_prefix parse_bracketed strip_suffix parse_opened
    rsplit_close with_port parse_u16 digits_u16
ported_host = refl

inner_port : parse_host_pattern (text "[a:22]") ≡ (text "a", 22) ∷ []
unfolding parse_host_pattern text strip_prefix parse_bracketed strip_suffix parse_closed rsplit_once
    with_port parse_u16 digits_u16
inner_port = refl

home_path : expand_tilde (some (text "/root")) (text "~/.ssh") ≡ text "/root/.ssh"
unfolding expand_tilde begins_at_home is_utf8 text bytes_eq join_path ends_with_slash
home_path = refl
