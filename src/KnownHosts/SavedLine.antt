-- ===== src/KnownHosts/SavedLine.antt =====
-- crates/russh-extra/src/known_hosts.rs: a line that `save` writes, read back by
-- `KnownHostsEntry::parse`.
use russh_extra.Base.{
  ℕ, ltb, ◌==◌, ◌<◌, leb, Bytes, Text, some, Bool, true, false, ◌&&◌, ◌||◌, List, [], ◌∷◌, ◌++◌,
  ◌≡◌, refl, sym, ap, ◌∙◌, arith, append_assoc, append-nil,
}
use russh_extra.Base.Text.{is_ascii, ascii-is_utf8}
use russh_extra.Core.Endpoint.{open_bracket}
use russh_extra.Core.Error.{ok}
use russh_extra.KnownHosts.Entry.{KnownHostsEntry}
use russh_extra.KnownHosts.Files.{
  done, Base64, host_part, marker_of, comment_part, saved_line, base64_encode,
}
use russh_extra.KnownHosts.Joined.{
  IsWord, AllWords, cons, split_whitespace-join, trim-join, lines-join,
}
use russh_extra.KnownHosts.Marked.{
  Gives, marked_words, join-marked_words, marked_words-AllWords, body-Gives,
}
use russh_extra.KnownHosts.Parse.{comment_of, entry_for, base64_decode_key, parse_words}
use russh_extra.KnownHosts.SavedHost.{
  is_graphic, graphic-is_solid, IsHost, saved_port, parse_host_pattern-host_part, host_part-IsWord,
  begins-host_part,
}
use russh_extra.KnownHosts.Words.{is_empty, begins, join, lines}

-- The standard alphabet of base64 and its padding.
unfoldable pub in_alphabet : Bytes → Bool
in_alphabet [] = true
in_alphabet (c ∷ cs) =
    (leb b'A' c && leb c b'Z'
      || (leb b'a' c && leb c b'z' || (leb b'/' c && leb c b'9' || (c == b'+' || c == b'='))))
    && in_alphabet cs

unfoldable pub is_bytes : Bytes → Bool
is_bytes [] = true
is_bytes (b ∷ bs) = ltb b 256 && is_bytes bs

-- What is relied on: every blob is encoded in the alphabet, one that is not empty as text that is
-- not, and decoding gives the blob back.
pub record IsBase64 (base64 : Base64) : Type 0 where
  pub encoded : Bytes → Text
  pub encodes : (blob : Bytes) → is_bytes blob ≡ true → base64.encode blob ≡ done (encoded blob)
  pub decodes : (blob : Bytes) → is_bytes blob ≡ true → base64.decode (encoded blob) ≡ some blob
  pub alphabet : (blob : Bytes) → is_bytes blob ≡ true → in_alphabet (encoded blob) ≡ true
  pub some_text :
      (blob : Bytes)
      → is_bytes blob ≡ true
      → is_empty blob ≡ false
      → is_empty (encoded blob) ≡ false

alphabet-is_graphic : (s : Bytes) → in_alphabet s ≡ true → is_graphic s ≡ true
unfolding in_alphabet is_graphic
alphabet-is_graphic [] h = refl
alphabet-is_graphic (c ∷ cs) h = ground (arith, alphabet-is_graphic cs)

alphabet-is_ascii : (s : Bytes) → in_alphabet s ≡ true → is_ascii s ≡ true
unfolding in_alphabet is_ascii
alphabet-is_ascii [] h = refl
alphabet-is_ascii (c ∷ cs) h = ground (arith, alphabet-is_ascii cs)

-- An entry that a line can hold: its comment is words with single spaces between them.
pub record IsWritable (e : KnownHostsEntry) : Type 0 where
  pub host : IsHost e.hostname
  pub port_lt : e.port < 65536
  pub algorithm : IsWord e.algorithm
  pub key_bytes : is_bytes e.key_blob ≡ true
  pub some_key : is_empty e.key_blob ≡ false
  pub words : List Bytes
  pub all_words : AllWords words
  pub comment : comment_of words ≡ e.comment

-- The entry as it is read back.
unfoldable pub saved_entry : KnownHostsEntry → KnownHostsEntry
unfolding saved_port
saved_entry e = record e { port = saved_port e.port }

-- The words of a line behind its marker.
abbrev pub body_words : KnownHostsEntry → Text → List Bytes → List Bytes
body_words e key words = host_part e ∷ e.algorithm ∷ key ∷ words

join-comment :
    (key : Text) (words : List Bytes) → join (key ∷ words) ≡ key ++ comment_part (comment_of words)
unfolding join comment_part comment_of
join-comment key [] = sym (append-nil key)
join-comment key (w ∷ ws) = refl

-- A line without its end.
abbrev pub line_of : KnownHostsEntry → Text → List Bytes → Text
line_of e key words = marker_of e.revoked ++ join (body_words e key words)

pub saved_line-join :
    (e : KnownHostsEntry) (key : Text) (words : List Bytes)
    → comment_of words ≡ e.comment
    → saved_line e key ≡ line_of e key words ++ 10 ∷ []
unfolding saved_line join
saved_line-join e key words h = rw (← h, join-comment key words) (simp (append_assoc))

begins-append :
    (c : ℕ) (w rest : Bytes)
    → is_empty w ≡ false
    → begins c w ≡ false
    → begins c (w ++ rest) ≡ false
begins-append c [] rest h k = cc
begins-append c (d ∷ ds) rest h k = k

append-is_empty : (w rest : Bytes) → is_empty w ≡ false → is_empty (w ++ rest) ≡ false
append-is_empty [] rest h = cc
append-is_empty (c ∷ cs) rest h = refl

module _ (base64 : Base64) (law : IsBase64 base64) (e : KnownHostsEntry) (w : IsWritable e) where
  key-IsWord : IsWord (law.encoded e.key_blob)
  key-IsWord = record {
    solid =
        graphic-is_solid (law.encoded e.key_blob)
          (alphabet-is_graphic (law.encoded e.key_blob) (law.alphabet e.key_blob w.key_bytes));
    some_byte = law.some_text e.key_blob w.key_bytes w.some_key;
  }

  body-AllWords : AllWords (body_words e (law.encoded e.key_blob) w.words)
  body-AllWords =
      cons (host_part-IsWord e w.host w.port_lt) (cons w.algorithm (cons key-IsWord w.all_words))

  parse_words-body :
      parse_words base64.decode e.revoked (body_words e (law.encoded e.key_blob) w.words)
      ≡ saved_entry e ∷ []
  unfolding parse_words base64_decode_key entry_for saved_entry
  parse_words-body =
      rw
        (
          law.decodes e.key_blob w.key_bytes,
          parse_host_pattern-host_part e w.host w.port_lt,
          w.comment,
          parse_words,
        )
        refl

  begins-body :
      (c : ℕ)
      → begins c e.hostname ≡ false
      → (c == open_bracket) ≡ false
      → begins c (join (body_words e (law.encoded e.key_blob) w.words)) ≡ false
  unfolding join
  begins-body c h k =
      begins-append c (host_part e) _ (host_part-IsWord e w.host w.port_lt).some_byte
        (begins-host_part e c h k)

  body-is_empty : is_empty (join (body_words e (law.encoded e.key_blob) w.words)) ≡ false
  unfolding join
  body-is_empty = append-is_empty (host_part e) _ (host_part-IsWord e w.host w.port_lt).some_byte

  line-AllWords : AllWords (marked_words e.revoked (body_words e (law.encoded e.key_blob) w.words))
  line-AllWords = marked_words-AllWords e.revoked body-AllWords

  line-marked :
      line_of e (law.encoded e.key_blob) w.words
      ≡ join (marked_words e.revoked (body_words e (law.encoded e.key_blob) w.words))
  line-marked =
      join-marked_words e.revoked (host_part e) (e.algorithm ∷ law.encoded e.key_blob ∷ w.words)

  -- A line that is written gives its entry back.
  pub line_of-Gives :
      Gives base64.decode (line_of e (law.encoded e.key_blob) w.words) (saved_entry e)
  line_of-Gives =
      body-Gives base64.decode (join (body_words e (law.encoded e.key_blob) w.words))
        (saved_entry e) (begins-body b'#' w.host.no_hash refl) (begins-body b'|' w.host.no_bar refl)
        (begins-body b'@' w.host.no_marker refl) body-is_empty e.revoked
        (rw line-marked (trim-join line-AllWords))
        (ap (parse_words base64.decode e.revoked) (split_whitespace-join body-AllWords)
          ∙ parse_words-body)

  -- And it is one line of the file.
  pub lines-line_of :
      (rest : Text)
      → lines (line_of e (law.encoded e.key_blob) w.words ++ 10 ∷ rest)
        ≡ line_of e (law.encoded e.key_blob) w.words ∷ lines rest
  lines-line_of rest = rw line-marked (lines-join rest line-AllWords)

  -- The key's text is accepted by `base64_encode`.
  pub base64_encode-encoded : base64_encode base64 e.key_blob ≡ ok (law.encoded e.key_blob)
  unfolding base64_encode
  base64_encode-encoded =
      rw
        (
          law.encodes e.key_blob w.key_bytes,
          ascii-is_utf8 (law.encoded e.key_blob)
              (alphabet-is_ascii (law.encoded e.key_blob) (law.alphabet e.key_blob w.key_bytes)),
          base64_encode,
        )
        refl
