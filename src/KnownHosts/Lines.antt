-- ===== src/KnownHosts/Lines.antt =====
-- crates/russh-extra/src/known_hosts.rs: what becomes of each line of a file.
use russh_extra.Base.{
  ℕ, zero, suc, ◌+◌, Bytes, Text, Option, none, some, true, if◌then◌else◌, List, [], ◌∷◌, ◌++◌, ◌≡◌,
  refl, sym, ap, ◌∙◌, arith, inl, inr, Option-cases, Bool-cases, append_assoc, append-nil,
}
use mathlib.Core.Path.{subst}
use russh_extra.KnownHosts.Entry.{KnownHostsEntry, KnownHostsParseWarning}
use russh_extra.KnownHosts.Parse.{
  is_comment_or_blank, parse_entry, warning_of, warning_at, content_loop, parse_known_hosts_content,
}
use russh_extra.KnownHosts.Words.{trim, lines}

-- The line at an index.
abbrev pub line_at : ℕ → List Text → Option Text
line_at i [] = none
line_at zero (l ∷ ls) = some l
line_at (suc i) (l ∷ ls) = line_at i ls

module _ (decode : Text → Option Bytes) where
  -- What the lines give, without the accumulators.
  lines_entries : List Text → List KnownHostsEntry
  lines_entries [] = []
  lines_entries (line ∷ rest) =
      let parsed = parse_entry decode (trim line) in
      let others = lines_entries rest in
      if is_comment_or_blank (trim line)
      then others
      else elim (warning_of decode (trim line) parsed) [ some r ↦ others | none ↦ parsed ++ others ]

  lines_warnings : ℕ → List Text → List KnownHostsParseWarning
  lines_warnings index [] = []
  lines_warnings index (line ∷ rest) =
      let parsed = parse_entry decode (trim line) in
      let others = lines_warnings (index + 1) rest in
      if is_comment_or_blank (trim line)
      then others
      else elim (warning_of decode (trim line) parsed) [
        | some r ↦ warning_at decode index (trim line) r ∷ others
        | none ↦ others
      ]

  content_loop-lines :
      (index : ℕ) (es : List KnownHostsEntry) (ws : List KnownHostsParseWarning) (ls : List Text)
      → content_loop decode index es ws ls ≡ (es ++ lines_entries ls, ws ++ lines_warnings index ls)
  unfolding content_loop lines_entries lines_warnings
  content_loop-lines index es ws [] = rw (append-nil es, append-nil ws) refl
  content_loop-lines index es ws (line ∷ rest) =
      let trimmed = trim line in
      let parsed = parse_entry decode trimmed in
      elim (Option-cases (warning_of decode trimmed parsed)) [
        | inl fine ↦ ground (
          arith,
          content_loop-lines (index + 1) es ws rest,
          content_loop-lines (index + 1) (es ++ parsed) ws rest,
          append_assoc es parsed (lines_entries rest),
        )
        | inr (r, warns) ↦
            let w = warning_at decode index trimmed r ∷ [] in
            ground (
              arith,
              content_loop-lines (index + 1) es ws rest,
              content_loop-lines (index + 1) es (ws ++ w) rest,
              append_assoc ws w (lines_warnings (index + 1) rest),
            )
      ]

-- A list that stands within another.
pub record Within {A : Type 0} (part whole : List A) : Type 0 where
  pub before : List A
  pub after : List A
  pub split : whole ≡ before ++ (part ++ after)

-- What a file's result holds for its line of the number `index + 1`.
pub data Accounted (decode : Text → Option Bytes) (index : ℕ) (line : Text)
    (entries : List KnownHostsEntry) (warnings : List KnownHostsParseWarning) : Type 0 where
  skipped : is_comment_or_blank (trim line) ≡ true → Accounted decode index line entries warnings
  accepted :
      (e : KnownHostsEntry) (es : List KnownHostsEntry)
      → parse_entry decode (trim line) ≡ e ∷ es
      → Within (e ∷ es) entries
      → Accounted decode index line entries warnings
  warned :
      (reason : Text)
      → Within (record { line = index + 1; content = trim line; reason = reason } ∷ []) warnings
      → Accounted decode index line entries warnings

Within-front : {A : Type 0} (part rest : List A) → Within part (part ++ rest)
Within-front part rest = record { before = []; after = rest; split = refl }

Within-append :
    {A : Type 0} {part whole : List A} (front : List A)
    → Within part whole
    → Within part (front ++ whole)
Within-append {part} front w = record {
  before = front ++ w.before;
  after = w.after;
  split = ap (λ x. front ++ x) w.split ∙ sym (append_assoc front w.before (part ++ w.after));
}

module _ (decode : Text → Option Bytes) where
  Accounted-append :
      (index : ℕ) (line : Text) {es : List KnownHostsEntry} {ws : List KnownHostsParseWarning}
      (es' : List KnownHostsEntry) (ws' : List KnownHostsParseWarning)
      → Accounted decode index line es ws
      → Accounted decode index line (es' ++ es) (ws' ++ ws)
  Accounted-append index line es' ws' (skipped b) = skipped b
  Accounted-append index line es' ws' (accepted e es p w) = accepted e es p (Within-append es' w)
  Accounted-append index line es' ws' (warned r w) = warned r (Within-append ws' w)

  -- The line under another name.
  Accounted-at :
      (i j : ℕ) (l m : Text) {es : List KnownHostsEntry} {ws : List KnownHostsParseWarning}
      → i ≡ j
      → l ≡ m
      → Accounted decode i l es ws
      → Accounted decode j m es ws
  Accounted-at i j l m {es} {ws} e e' a =
      subst (λ n. Accounted decode n m es ws) e (subst (λ x. Accounted decode i x es ws) e' a)

  -- A warning, or an entry at least.
  warning_of-none :
      (trimmed : Text) (parsed : List KnownHostsEntry)
      → warning_of decode trimmed parsed ≡ none
      → (e : KnownHostsEntry) × (es : List KnownHostsEntry) × (parsed ≡ e ∷ es)
  unfolding warning_of
  warning_of-none trimmed [] h = absurd (ground arith)
  warning_of-none trimmed (e ∷ es) h = (e, es, refl)

  -- What one line adds.
  module _ (index : ℕ) (line : Text) (rest : List Text) where
    record Adds : Type 0 where
      es : List KnownHostsEntry
      ws : List KnownHostsParseWarning
      more_entries : lines_entries decode (line ∷ rest) ≡ es ++ lines_entries decode rest
      more_warnings :
          lines_warnings decode index (line ∷ rest) ≡ ws ++ lines_warnings decode (index + 1) rest
      own :
          Accounted decode index line
            (es ++ lines_entries decode rest)
            (ws ++ lines_warnings decode (index + 1) rest)

    line-Adds : Adds
    unfolding lines_entries lines_warnings warning_at
    line-Adds = elim (Bool-cases (is_comment_or_blank (trim line))) [
      | inl blank ↦ record {
        es = [];
        ws = [];
        more_entries = rw blank refl;
        more_warnings = rw blank refl;
        own = skipped blank;
      }
      | inr full ↦
          elim (Option-cases (warning_of decode (trim line) (parse_entry decode (trim line)))) [
            | inl fine ↦
                let (e, es, parsed) =
                  warning_of-none (trim line) (parse_entry decode (trim line)) fine in
                record {
                  es = e ∷ es;
                  ws = [];
                  more_entries = rw (full, fine) (ap (λ x. x ++ lines_entries decode rest) parsed);
                  more_warnings = rw (full, fine) refl;
                  own = accepted e es parsed (Within-front (e ∷ es) (lines_entries decode rest));
                }
            | inr (r, warns) ↦ record {
              es = [];
              ws = warning_at decode index (trim line) r ∷ [];
              more_entries = rw (full, warns) refl;
              more_warnings = rw (full, warns) refl;
              own = warned r (
                  Within-front (warning_at decode index (trim line) r ∷ [])
                    (lines_warnings decode (index + 1) rest));
            }
          ]
    ]

  lines-Accounted :
      (index : ℕ) (ls : List Text) (i : ℕ) (line : Text)
      → line_at i ls ≡ some line
      → Accounted decode (index + i) line (lines_entries decode ls) (lines_warnings decode index ls)
  lines-Accounted index [] zero line h = cc
  lines-Accounted index [] (suc i) line h = cc
  lines-Accounted index (l ∷ rest) zero line h =
      let a = line-Adds index l rest in
      rw (a.more_entries, a.more_warnings)
        (Accounted-at index (index + 0) l line (omega arith) (cc) a.own)
  lines-Accounted index (l ∷ rest) (suc i) line h =
      let a = line-Adds index l rest in
      let later = lines-Accounted (index + 1) rest i line h in
      rw (a.more_entries, a.more_warnings)
        (Accounted-append (index + suc i) line a.es a.ws
          (Accounted-at (index + 1 + i) (index + suc i) line line (omega arith) refl later))

-- Each line of a file of known hosts is blank or a comment, or its parse is not empty and stands
-- among the entries that are read, or there is a warning with the line's number and its trimmed
-- text.
pub content-Accounted :
    (decode : Text → Option Bytes) (content : Text) (i : ℕ) (line : Text)
    → line_at i (lines content) ≡ some line
    → let (entries, warnings) = parse_known_hosts_content decode content in
      Accounted decode i line entries warnings
unfolding parse_known_hosts_content
content-Accounted decode content i line h = rw (content_loop-lines decode 0 [] [] (lines content)) (
    Accounted-at decode (0 + i) i line line (omega arith) refl
      (lines-Accounted decode 0 (lines content) i line h))
