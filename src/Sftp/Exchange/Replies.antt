-- ===== src/Sftp/Exchange/Replies.antt =====
-- The client's decoding (`dispatch_response` of crates/russh-extra/src/sftp/client.rs) of what the
-- server writes for an answer.
use russh_extra.Base.{ℕ, ◌≤◌, ◌≡◌, refl, ◌++◌, Bytes, [], map, length, take, arith}
use russh_extra.Base.Word.{IsU32, u32_bytes}
use russh_extra.Base.Text.{text, is_utf8}
use russh_extra.Core.Error.{Result, ok}
use russh_extra.Sftp.Wire.{frame, max_sftp_packet_size}
use russh_extra.Sftp.Wire.Reads.{
  ret-Reads, >>=-Reads, pop_u32-Reads, pop_string-Reads, pop_bytes-Reads, from_start-Reads_whole,
  IsSendable, bytes_wire, pushes,
}
use russh_extra.Sftp.Attrs.Reads.{attrs_wire, canonical, push_attrs_lem, IsReadable}
use russh_extra.Sftp.PacketType.{fxp_status, fxp_handle, fxp_data, fxp_name, fxp_attrs}
use russh_extra.Sftp.Response.{
  encode_status_response, encode_handle_response, encode_data_response, encode_attrs_response,
  decode_status, decode_handle, decode_data, decode_attrs,
}
use russh_extra.Sftp.Client.Responses.{
  SftpResponse, delivering, entry_parts, decode_status_response, decode_handle_response,
  decode_data_response, decode_name_response, decode_attrs_response, decode_response,
}
use russh_extra.Sftp.Exchange.Decoding.{pop_readable}
use russh_extra.Sftp.Exchange.Names.{
  AllSendable, canonical_entry, kept_entries, name_fields, encode_name_response_lem,
  decode_name-name_fields,
}
use russh_extra.Sftp.Exchange.Answers.{
  Answer, status, handle, contents, name, attributes, encode_answer,
}

-- What the wire can carry.
abbrev pub IsSendableAnswer : Answer → Type 0
IsSendableAnswer (status code msg) = IsU32 code × IsSendable msg
IsSendableAnswer (handle h) = IsSendable h
IsSendableAnswer (contents bytes) = length bytes ≤ max_sftp_packet_size
IsSendableAnswer (name entries) = IsU32 (length entries) × AllSendable entries
IsSendableAnswer (attributes a) = IsReadable a

-- The response that the client is to deliver. Of a list of names, `decode_name` keeps the first.
abbrev pub response_of : Answer → SftpResponse
response_of (status code msg) = SftpResponse.status code msg
response_of (handle h) = SftpResponse.handle h
response_of (contents bytes) = SftpResponse.contents bytes
response_of (name entries) =
    SftpResponse.name (map entry_parts (map canonical_entry (take (kept_entries entries) entries)))
response_of (attributes a) = SftpResponse.attrs (canonical a)

abbrev pub answer_type : Answer → ℕ
answer_type (status _ _) = fxp_status
answer_type (handle _) = fxp_handle
answer_type (contents _) = fxp_data
answer_type (name _) = fxp_name
answer_type (attributes _) = fxp_attrs

unfoldable pub answer_fields : ℕ → Answer → Bytes
answer_fields id (status code msg) =
    u32_bytes id ++ (u32_bytes code ++ (bytes_wire msg ++ (bytes_wire (text "en") ++ [])))
answer_fields id (handle h) = u32_bytes id ++ (bytes_wire h ++ [])
answer_fields id (contents bytes) = u32_bytes id ++ (bytes_wire bytes ++ [])
answer_fields id (name entries) = name_fields id entries
answer_fields id (attributes a) = u32_bytes id ++ (attrs_wire a ++ [])

pub encode_answer_lem :
    (id : ℕ) (a : Answer) → encode_answer id a ≡ frame (answer_type a) (answer_fields id a)
unfolding encode_answer answer_fields encode_status_response encode_handle_response
    encode_data_response encode_attrs_response
encode_answer_lem id (status code msg) = simp pushes
encode_answer_lem id (handle h) = simp pushes
encode_answer_lem id (contents bytes) = simp pushes
encode_answer_lem id (name entries) = encode_name_response_lem id entries
encode_answer_lem id (attributes a) = simp (pushes, push_attrs_lem)

delivering_ok :
    {A : Type 0} (id : ℕ) (f : A → ℕ × SftpResponse) {m : Result A} {a : A}
    → m ≡ ok a
    → delivering id f m ≡ ((f a).0, ok (f a).1)
unfolding delivering
delivering_ok id f e = rw (e, delivering)

en : IsSendable (text "en")
unfolding text is_utf8
en = record { well_formed = refl; fits = omega arith }

-- For an id and contents in range, the client decodes the type and the fields of each of the
-- five kinds of answers to the id and the response of the answer, with attributes in canonical
-- form and of a list of names the entries that `decode_name` keeps.
pub decode_response-answer_fields :
    (id : ℕ) (a : Answer)
    → IsU32 id
    → IsSendableAnswer a
    → decode_response (answer_type a) (answer_fields id a) ≡ (id, ok (response_of a))
unfolding decode_response answer_fields decode_status_response decode_handle_response
    decode_data_response decode_name_response decode_attrs_response decode_status decode_handle
    decode_data decode_attrs
decode_response-answer_fields id (status code msg) hid (hc, hm) = delivering_ok _ _ (
    from_start-Reads_whole _ (
      >>=-Reads _ (pop_u32-Reads id hid) (
        >>=-Reads _ (pop_u32-Reads code hc) (
          >>=-Reads _ (pop_string-Reads msg hm)
            (>>=-Reads _ (pop_string-Reads (text "en") en) (ret-Reads _))))))
decode_response-answer_fields id (handle h) hid hh = delivering_ok _ _ (
    from_start-Reads_whole _
      (>>=-Reads _ (pop_u32-Reads id hid) (>>=-Reads _ (pop_string-Reads h hh) (ret-Reads _))))
decode_response-answer_fields id (contents bytes) hid hb = delivering_ok _ _ (
    from_start-Reads_whole _
      (>>=-Reads _ (pop_u32-Reads id hid) (>>=-Reads _ (pop_bytes-Reads bytes hb) (ret-Reads _))))
decode_response-answer_fields id (name entries) hid (hn, hes) =
    delivering_ok _ _ (decode_name-name_fields id entries hid hn hes)
decode_response-answer_fields id (attributes a) hid ha = delivering_ok _ _ (
    from_start-Reads_whole _
      (>>=-Reads _ (pop_u32-Reads id hid) (>>=-Reads _ (pop_readable a ha) (ret-Reads _))))
