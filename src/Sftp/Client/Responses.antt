-- ===== src/Sftp/Client/Responses.antt =====
-- crates/russh-extra/src/sftp/client.rs: `SftpResponse`, and how a packet becomes the id and the
-- result that are delivered to a waiting request.
use russh_extra.Base.{ℕ, ◌++◌, Bytes, Text, List, map, length, take, leb, ◌==◌, if◌then◌else◌}
use russh_extra.Base.Word.{from_be_bytes}
use russh_extra.Base.Text.{text, decimal}
use russh_extra.Core.Error.{Result, ok, err, SftpErrorKind, sftp_error}
use russh_extra.Sftp.PacketType.{fxp_version, fxp_status, fxp_handle, fxp_data, fxp_name, fxp_attrs}
use russh_extra.Sftp.Attrs.{SftpFileAttrs}
use russh_extra.Sftp.Response.{
  SftpNameEntry, decode_status, decode_handle, decode_data, decode_name, decode_attrs,
}

pub data SftpResponse : Type 0 where
  status : ℕ → Text → SftpResponse
  handle : Text → SftpResponse
  contents : Bytes → SftpResponse
  name : List (Text × Text × SftpFileAttrs) → SftpResponse
  attrs : SftpFileAttrs → SftpResponse

-- `Result<(u32, SftpResponse), (u32, Error)>`: an id in both cases.
abbrev pub Delivery : Type 0
Delivery = ℕ × Result SftpResponse

unfoldable pub fallback_pop_id : Bytes → ℕ
fallback_pop_id bytes = if leb 4 (length bytes) then from_be_bytes (take 4 bytes) else 0

-- `match decode(…) { Ok((decoded_id, …)) => Ok((decoded_id, …)), Err(e) => Err((id, e)) }`
unfoldable pub delivering : {A : Type 0} → ℕ → (A → ℕ × SftpResponse) → Result A → Delivery
delivering id f (ok a) = ((f a).0, ok (f a).1)
delivering id f (err e) = (id, err e)

unfoldable pub decode_status_response : Bytes → Delivery
decode_status_response payload =
    delivering (fallback_pop_id payload) (λ (id, code, msg). (id, status code msg))
      (decode_status payload)

unfoldable pub decode_handle_response : Bytes → Delivery
decode_handle_response payload =
    delivering (fallback_pop_id payload) (λ (id, h). (id, handle h)) (decode_handle payload)

unfoldable pub decode_data_response : Bytes → Delivery
decode_data_response payload =
    delivering (fallback_pop_id payload) (λ (id, bytes). (id, contents bytes)) (decode_data payload)

abbrev pub entry_parts : SftpNameEntry → Text × Text × SftpFileAttrs
entry_parts e = (e.filename, e.longname, e.attrs)

unfoldable pub decode_name_response : Bytes → Delivery
decode_name_response payload =
    delivering (fallback_pop_id payload) (λ (id, entries). (id, name (map entry_parts entries)))
      (decode_name payload)

unfoldable pub decode_attrs_response : Bytes → Delivery
decode_attrs_response payload =
    delivering (fallback_pop_id payload) (λ (id, a). (id, attrs a)) (decode_attrs payload)

protocol_failure : Text → Delivery
unfolding sftp_error
protocol_failure message = (0, err (sftp_error SftpErrorKind.protocol message))

-- The `match` of `dispatch_response` on the packet type.
unfoldable pub decode_response : ℕ → Bytes → Delivery
unfolding protocol_failure
decode_response packet_type payload =
    if packet_type == fxp_version
    then protocol_failure (text "unexpected FXP_VERSION after init")
    else if packet_type == fxp_status
    then decode_status_response payload
    else if packet_type == fxp_handle
    then decode_handle_response payload
    else if packet_type == fxp_data
    then decode_data_response payload
    else if packet_type == fxp_name
    then decode_name_response payload
    else if packet_type == fxp_attrs
    then decode_attrs_response payload
    else protocol_failure (text "unknown SFTP packet type: " ++ decimal packet_type)
