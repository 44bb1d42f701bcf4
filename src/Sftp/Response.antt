-- ===== src/Sftp/Response.antt =====
-- crates/russh-extra/src/sftp/packet.rs: the responses that the server writes, and the client's
-- decoders of them. `HashMap<String, String>` is an association list without repeated keys.
use russh_extra.Base.{
  ℕ, ◌-◌, ◌/◌, ◌++◌, zero, suc, min, Bytes, Text, List, [], ◌∷◌, length, if◌then◌else◌,
}
use russh_extra.Base.Word.{as_u32}
use russh_extra.Base.Text.{text, bytes_eq}
use russh_extra.Core.Error.{Result, ok, err, SftpErrorKind, sftp_error}
use russh_extra.Sftp.Wire.{
  Pop, ◌>>=◌, ret, from_start, frame, push_u32, push_string, push_bytes, pop_u32, pop_string,
  pop_bytes,
}
use russh_extra.Sftp.Attrs.{SftpFileAttrs, push_attrs, pop_attrs}
use russh_extra.Sftp.PacketType.{fxp_version, fxp_status, fxp_handle, fxp_data, fxp_name, fxp_attrs}
use mathlib.Core.List.{foldl}

pub record SftpNameEntry : Type 0 where
  pub filename : Text
  pub longname : Text
  pub attrs : SftpFileAttrs

abbrev pub Extensions : Type 0
Extensions = List (Text × Text)

-- `HashMap::insert`
unfoldable pub insert : Text → Text → Extensions → Extensions
insert k v [] = (k, v) ∷ []
insert k v ((j, w) ∷ m) = if bytes_eq j k then (k, v) ∷ m else (j, w) ∷ insert k v m

push_extension : Bytes → Text × Text → Bytes
push_extension buf (key, value) = push_string (push_string buf key) value

unfoldable pub encode_version_response : ℕ → Extensions → Bytes
unfolding push_extension
encode_version_response version extensions =
    frame fxp_version (
      foldl push_extension (push_u32 (push_u32 [] version) (as_u32 (length extensions))) extensions)

unfoldable pub encode_status_response : ℕ → ℕ → Text → Bytes
encode_status_response id code msg =
    frame fxp_status (push_string (push_string (push_u32 (push_u32 [] id) code) msg) (text "en"))

unfoldable pub encode_handle_response : ℕ → Text → Bytes
encode_handle_response id handle = frame fxp_handle (push_string (push_u32 [] id) handle)

unfoldable pub encode_data_response : ℕ → Bytes → Bytes
encode_data_response id bytes = frame fxp_data (push_bytes (push_u32 [] id) bytes)

unfoldable pub push_entry : Bytes → SftpNameEntry → Bytes
push_entry buf entry =
    push_attrs (push_string (push_string buf entry.filename) entry.longname) entry.attrs

unfoldable pub encode_name_response : ℕ → List SftpNameEntry → Bytes
encode_name_response id entries =
    frame fxp_name (foldl push_entry (push_u32 (push_u32 [] id) (as_u32 (length entries))) entries)

unfoldable pub encode_attrs_response : ℕ → SftpFileAttrs → Bytes
encode_attrs_response id attrs = frame fxp_attrs (push_attrs (push_u32 [] id) attrs)

-- `payload.len().saturating_sub(pos)`
unfoldable pub remaining : Pop ℕ
remaining slice pos = ok (length slice - pos, pos)

unfoldable pub pop_extensions : ℕ → Extensions → Pop Extensions
pop_extensions zero extensions = ret extensions
pop_extensions (suc count) extensions = do
  key ← pop_string
  value ← pop_string
  pop_extensions count (insert key value extensions)

-- A count above what the payload can hold, or above 128, is cut down.
unfoldable pub decode_version : Bytes → Result (ℕ × Extensions)
unfolding pop_extensions remaining
decode_version = from_start (do
  version ← pop_u32
  count ← pop_u32
  left ← remaining
  extensions ← pop_extensions (min (min count (left / 8)) 128) []
  ret (version, extensions))

unfoldable pub decode_init_request : Bytes → Result (ℕ × Extensions)
unfolding decode_version
decode_init_request = decode_version

unfoldable pub decode_status : Bytes → Result (ℕ × ℕ × Text)
decode_status =
    from_start
      (do id ← pop_u32; code ← pop_u32; msg ← pop_string; lang ← pop_string; ret (id, code, msg))

unfoldable pub decode_handle : Bytes → Result (ℕ × Text)
decode_handle = from_start (do id ← pop_u32; handle ← pop_string; ret (id, handle))

unfoldable pub decode_data : Bytes → Result (ℕ × Bytes)
decode_data = from_start (do id ← pop_u32; bytes ← pop_bytes; ret (id, bytes))

-- The body of the loop, as many times as `count`.
unfoldable pub pop_entries : ℕ → List SftpNameEntry → Pop (List SftpNameEntry)
pop_entries zero entries = ret entries
pop_entries (suc count) entries = do
  filename ← pop_string
  longname ← pop_string
  attrs ← pop_attrs
  pop_entries count
      (entries ++ record { filename = filename; longname = longname; attrs = attrs } ∷ [])

-- A count above one entry for each 16 bytes that are left, or above 65536, is cut down.
unfoldable pub name_limit : ℕ → ℕ → ℕ
name_limit count left = min (min count (left / 16)) 65536

unfoldable pub name_entries : ℕ → ℕ → Pop (ℕ × List SftpNameEntry)
unfolding remaining
name_entries id count = do
  left ← remaining
  entries ← pop_entries (name_limit count left) []
  ret (id, entries)

unfoldable pub pop_name : Pop (ℕ × List SftpNameEntry)
pop_name = do id ← pop_u32; count ← pop_u32; name_entries id count

unfoldable pub decode_name : Bytes → Result (ℕ × List SftpNameEntry)
decode_name = from_start pop_name

unfoldable pub decode_attrs : Bytes → Result (ℕ × SftpFileAttrs)
decode_attrs = from_start (do id ← pop_u32; attrs ← pop_attrs; ret (id, attrs))

unfoldable pub decode_packet_type : Bytes → Result ℕ
unfolding sftp_error
decode_packet_type [] = err (sftp_error SftpErrorKind.protocol (text "empty SFTP packet"))
decode_packet_type (b ∷ bs) = ok b
