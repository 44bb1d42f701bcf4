-- ===== src/Sftp/Exchange/Names.antt =====
-- `decode_name` on what `encode_name_response` writes: how many of the entries come back.
use russh_extra.Base.{
  ℕ, ◌-◌, ◌/◌, min, ◌≤◌, zero, suc, ◌≡◌, refl, sym, ap, ◌∙◌, ◌++◌, Bytes, List, [], ◌∷◌, map,
  length, length-append, take, drop, append_assoc, append-nil, arith, length-take,
}
use russh_extra.Base.Word.{IsU32, as_u32, u32_bytes}
use russh_extra.Core.Error.{ok}
use russh_extra.Sftp.Wire.{◌>>=◌, frame, pop_u32}
use russh_extra.Sftp.Wire.Reads.{
  Reads, ret-Reads, >>=-Reads, >>=-eq, pop_u32-Reads, pop_string-Reads, IsSendable, bytes_wire,
  pushes, from_start-eq,
}
use russh_extra.Sftp.Attrs.Reads.{attrs_wire, canonical, push_attrs_lem, IsReadable}
use russh_extra.Sftp.PacketType.{fxp_name}
use russh_extra.Sftp.Response.{
  SftpNameEntry, push_entry, encode_name_response, pop_entries, name_limit, name_entries, pop_name,
  decode_name,
}
use russh_extra.Sftp.Exchange.Decoding.{pop_readable}
use mathlib.Core.List.{foldl}
use mathlib.Core.Path.{subst}

pub record IsSendableEntry (e : SftpNameEntry) : Type 0 where
  pub filename : IsSendable e.filename
  pub longname : IsSendable e.longname
  pub attrs : IsReadable e.attrs

abbrev pub AllSendable : List SftpNameEntry → Type 0
AllSendable [] = Unit {0}
AllSendable (e ∷ es) = IsSendableEntry e × AllSendable es

pub entry_wire : SftpNameEntry → Bytes
entry_wire e = bytes_wire e.filename ++ (bytes_wire e.longname ++ (attrs_wire e.attrs ++ []))

pub entries_wire : List SftpNameEntry → Bytes
entries_wire [] = []
entries_wire (e ∷ es) = entry_wire e ++ entries_wire es

abbrev pub canonical_entry : SftpNameEntry → SftpNameEntry
canonical_entry e = record e { attrs = canonical e.attrs }

push_entry_lem : (buf : Bytes) (e : SftpNameEntry) → push_entry buf e ≡ buf ++ entry_wire e
unfolding push_entry entry_wire
push_entry_lem buf e = simp (pushes, push_attrs_lem)

push_entries_lem :
    (buf : Bytes) (es : List SftpNameEntry) → foldl push_entry buf es ≡ buf ++ entries_wire es
unfolding entries_wire
push_entries_lem buf [] = sym (append-nil buf)
push_entries_lem buf (e ∷ es) =
    push_entries_lem (push_entry buf e) es
    ∙ rw push_entry_lem (append_assoc buf (entry_wire e) (entries_wire es))

pub name_fields : ℕ → List SftpNameEntry → Bytes
name_fields id es = u32_bytes id ++ (u32_bytes (as_u32 (length es)) ++ entries_wire es)

pub encode_name_response_lem :
    (id : ℕ) (es : List SftpNameEntry)
    → encode_name_response id es ≡ frame fxp_name (name_fields id es)
unfolding encode_name_response name_fields
encode_name_response_lem id es = simp (push_entries_lem, pushes)

entry_wire-append :
    (e : SftpNameEntry) (rest : Bytes)
    → bytes_wire e.filename ++ (bytes_wire e.longname ++ (attrs_wire e.attrs ++ rest))
      ≡ entry_wire e ++ rest
unfolding entry_wire
entry_wire-append e rest = simp (append_assoc, append-nil)

pop_entries-Reads :
    (es acc : List SftpNameEntry)
    → AllSendable es
    → Reads (pop_entries (length es) acc) (entries_wire es) (acc ++ map canonical_entry es)
unfolding pop_entries entries_wire
pop_entries-Reads [] acc h = rw append-nil (ret-Reads acc)
pop_entries-Reads (e ∷ es) acc (he, hes) =
    let e' = canonical_entry e in
    let later : Reads (pop_entries (length es) (acc ++ e' ∷ [])) (entries_wire es)
        (acc ++ e' ∷ map canonical_entry es) =
      rw (append_assoc acc (e' ∷ []) (map canonical_entry es)) at
        (pop_entries-Reads es (acc ++ e' ∷ []) hes) in
    subst (λ w. Reads (pop_entries (length (e ∷ es)) acc) w (acc ++ map canonical_entry (e ∷ es)))
      (entry_wire-append e (entries_wire es))
      (>>=-Reads _ (pop_string-Reads e.filename he.filename) (
        >>=-Reads _ (pop_string-Reads e.longname he.longname)
          (>>=-Reads _ (pop_readable e.attrs he.attrs) later)))

AllSendable-take : (n : ℕ) (es : List SftpNameEntry) → AllSendable es → AllSendable (take n es)
AllSendable-take zero es h = tt
AllSendable-take (suc n) [] h = tt
AllSendable-take (suc n) (e ∷ es) (he, hes) = (he, AllSendable-take n es hes)

entries_wire-cut :
    (n : ℕ) (es : List SftpNameEntry)
    → entries_wire es ≡ entries_wire (take n es) ++ entries_wire (drop n es)
unfolding entries_wire
entries_wire-cut zero es = refl
entries_wire-cut (suc n) [] = refl
entries_wire-cut (suc n) (e ∷ es) =
    ap (λ w. entry_wire e ++ w) (entries_wire-cut n es)
    ∙ sym (append_assoc (entry_wire e) (entries_wire (take n es)) (entries_wire (drop n es)))

-- The number of entries that `decode_name` is to read, of those that were written.
abbrev pub kept_entries : List SftpNameEntry → ℕ
kept_entries es = min (min (length es) (length (entries_wire es) / 16)) 65536

kept_entries-le : (es : List SftpNameEntry) → kept_entries es ≤ length es
unfolding name_limit
kept_entries-le es = omega arith

name_entries_lem :
    (id : ℕ) (es : List SftpNameEntry) (head : Bytes)
    → AllSendable es
    → (pos : ℕ) × (name_entries id (length es) (head ++ entries_wire es) (length head)
        ≡ ok ((id, map canonical_entry (take (kept_entries es) es)), pos))
unfolding name_entries name_limit
name_entries_lem id es head hes =
    let w = entries_wire es in
    let k = kept_entries es in
    let size : length (take k es) ≡ k = omega (arith, length-take k es, kept_entries-le es) in
    let left : length (head ++ w) - length head ≡ length w = omega (arith, length-append head w) in
    let whole : head ++ (entries_wire (take k es) ++ entries_wire (drop k es)) ≡ head ++ w =
      ap (λ x. head ++ x) (sym (entries_wire-cut k es)) in
    let read =
      (pop_entries-Reads (take k es) [] (AllSendable-take k es hes)).run head
        (entries_wire (drop k es)) in
    let read' : pop_entries k [] (head ++ w) (length head)
        ≡ ok (map canonical_entry (take k es), length (head ++ entries_wire (take k es))) =
      rw (whole, size) at read in
    (length (head ++ entries_wire (take k es)), rw (left, read', ◌>>=◌))

-- For an id, a count of entries and entries in range, `decode_name` returns the id and the first
-- entries in canonical form: as many as the least of their count, a sixteenth of the bytes
-- behind the count, and 65536.
pub decode_name-name_fields :
    (id : ℕ) (es : List SftpNameEntry)
    → IsU32 id
    → IsU32 (length es)
    → AllSendable es
    → decode_name (name_fields id es) ≡ ok (id, map canonical_entry (take (kept_entries es) es))
unfolding decode_name pop_name name_fields
decode_name-name_fields id es hid hn hes =
    let n = length es in
    let w = entries_wire es in
    let head = u32_bytes id ++ u32_bytes n in
    let same : as_u32 n ≡ n = omega arith in
    let first = (pop_u32-Reads id hid).run [] (u32_bytes n ++ w) in
    let second = (pop_u32-Reads n hn).run (u32_bytes id) w in
    let (pos, last) = name_entries_lem id es head hes in
    let all : pop_name (u32_bytes id ++ (u32_bytes n ++ w)) 0
        ≡ ok ((id, map canonical_entry (take (kept_entries es) es)), pos) =
      >>=-eq pop_u32 (λ i. pop_u32 >>= λ count. name_entries i count) first
      ∙ >>=-eq pop_u32 (name_entries id) second
      ∙ (rw append_assoc at last) in
    rw same (from_start-eq pop_name all)
