-- ===== src/KnownHosts/Marked.antt =====
-- crates/russh-extra/src/known_hosts.rs: the markers of a line, and what a line must be
-- to give its entry.
use russh_extra.Base.{
  Bytes, Text, Option, none, Bool, true, false, List, [], ◌∷◌, ◌++◌, ◌≡◌, refl, ◌∙◌,
}
use russh_extra.Base.Text.{text, strip_prefix}
use russh_extra.KnownHosts.Entry.{KnownHostsEntry}
use russh_extra.KnownHosts.Files.{marker_of}
use russh_extra.KnownHosts.Joined.{IsWord, AllWords, cons}
use russh_extra.KnownHosts.Parse.{
  parse_revoked_marker, parse_cert_authority_marker, is_comment_or_blank, parse_words, parse_entry,
  warning_of,
}
use russh_extra.KnownHosts.SavedHost.{is_graphic, graphic-is_solid, strip_prefix-first}
use russh_extra.KnownHosts.Words.{is_empty, begins, trim, join, split_whitespace}

unmarked-revoked :
    (line : Text) → begins b'@' line ≡ false → parse_revoked_marker line ≡ (false, line)
unfolding parse_revoked_marker text
unmarked-revoked line at =
    rw (strip_prefix-first b'@' (text "revoked ") line at, parse_revoked_marker) refl

uncertified :
    (line : Text) → begins b'@' line ≡ false → strip_prefix (text "@cert-authority ") line ≡ none
unfolding text
uncertified line at = strip_prefix-first b'@' (text "cert-authority ") line at

unmarked-cert_authority :
    (line : Text) → begins b'@' line ≡ false → parse_cert_authority_marker line ≡ (false, line)
unfolding parse_cert_authority_marker
unmarked-cert_authority line at = rw (uncertified line at, parse_cert_authority_marker) refl

marked-revoked : (rest : Text) → parse_revoked_marker (text "@revoked " ++ rest) ≡ (true, rest)
unfolding parse_revoked_marker text strip_prefix
marked-revoked rest = refl

marked-is_comment_or_blank : (rest : Text) → is_comment_or_blank (text "@revoked " ++ rest) ≡ false
unfolding is_comment_or_blank text
marked-is_comment_or_blank rest = refl

-- How a line whose two markers are known is parsed.
marked-parse_entry :
    (decode : Text → Option Bytes) (line : Text) (revoked : Bool) (rest : Text)
    → trim line ≡ line
    → is_comment_or_blank line ≡ false
    → parse_revoked_marker line ≡ (revoked, rest)
    → begins b'@' rest ≡ false
    → parse_entry decode line ≡ parse_words decode revoked (split_whitespace rest)
unfolding parse_entry
marked-parse_entry decode line revoked rest t blank r at =
    rw (t, blank, r, unmarked-cert_authority rest at) refl

-- What a line must be for a file to be read as the entries `e ∷ es` from it.
pub record Gives (decode : Text → Option Bytes) (line : Text) (e : KnownHostsEntry) : Type 0 where
  pub trimmed : trim line ≡ line
  pub not_blank : is_comment_or_blank line ≡ false
  pub not_warned : warning_of decode line (e ∷ []) ≡ none
  pub parsed : parse_entry decode line ≡ e ∷ []

-- The words of a line.
abbrev pub marked_words : Bool → List Bytes → List Bytes
marked_words false ws = ws
marked_words true ws = text "@revoked" ∷ ws

pub join-marked_words :
    (revoked : Bool) (w : Bytes) (ws : List Bytes)
    → marker_of revoked ++ join (w ∷ ws) ≡ join (marked_words revoked (w ∷ ws))
unfolding join marker_of text
join-marked_words false w ws = refl
join-marked_words true w ws = refl

marker-IsWord : IsWord (text "@revoked")
unfolding text is_graphic
marker-IsWord = record { solid = graphic-is_solid (text "@revoked") refl; some_byte = refl }

pub marked_words-AllWords :
    (revoked : Bool) {ws : List Bytes} → AllWords ws → AllWords (marked_words revoked ws)
marked_words-AllWords false h = h
marked_words-AllWords true h = cons marker-IsWord h

marked-not_warned :
    (decode : Text → Option Bytes) (rest : Text) (e : KnownHostsEntry)
    → warning_of decode (text "@revoked " ++ rest) (e ∷ []) ≡ none
unfolding warning_of text strip_prefix
marked-not_warned decode rest e = refl

unmarked-not_warned :
    (decode : Text → Option Bytes) (line : Text) (e : KnownHostsEntry)
    → begins b'|' line ≡ false
    → begins b'@' line ≡ false
    → warning_of decode line (e ∷ []) ≡ none
unfolding warning_of
unmarked-not_warned decode line e bar at = rw (bar, uncertified line at) refl

unmarked-is_comment_or_blank :
    (line : Text)
    → is_empty line ≡ false
    → begins b'#' line ≡ false
    → is_comment_or_blank line ≡ false
unfolding is_comment_or_blank
unmarked-is_comment_or_blank line some_byte hash = rw (some_byte, hash) refl

-- The two shapes of a line: the text `body` begins none of the special lines.
module _ (decode : Text → Option Bytes) (body : Text) (e : KnownHostsEntry)
    (hash : begins b'#' body ≡ false) (bar : begins b'|' body ≡ false)
    (at : begins b'@' body ≡ false) (some_byte : is_empty body ≡ false) where
  pub body-Gives :
      (revoked : Bool)
      → trim (marker_of revoked ++ body) ≡ marker_of revoked ++ body
      → parse_words decode revoked (split_whitespace body) ≡ e ∷ []
      → Gives decode (marker_of revoked ++ body) e
  unfolding marker_of
  body-Gives false t parsed =
      let blank = unmarked-is_comment_or_blank body some_byte hash in
      record {
        trimmed = t;
        not_blank = blank;
        not_warned = unmarked-not_warned decode body e bar at;
        parsed =
            marked-parse_entry decode body false body t blank (unmarked-revoked body at) at
            ∙ parsed;
      }
  body-Gives true t parsed = record {
    trimmed = t;
    not_blank = marked-is_comment_or_blank body;
    not_warned = marked-not_warned decode body e;
    parsed =
        marked-parse_entry decode (text "@revoked " ++ body) true body t
          (marked-is_comment_or_blank body) (marked-revoked body) at
        ∙ parsed;
  }
