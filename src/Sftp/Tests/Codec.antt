-- ===== src/Sftp/Tests/Codec.antt =====
-- The encoders and decoders at concrete packets.
use russh_extra.Base.{◌≡◌, arith, [], ◌∷◌, ◌++◌, map, take}
use russh_extra.Base.Text.{text}
use russh_extra.Core.Error.{ok}
use russh_extra.Sftp.Wire.Reads.{Reads}
use russh_extra.Sftp.Attrs.{pop_attrs}
use russh_extra.Sftp.Attrs.Reads.{attrs_wire, canonical, pop_attrs-Reads}
use russh_extra.Sftp.Response.{decode_name}
use russh_extra.Sftp.Exchange.Fields.{open_file, fields}
use russh_extra.Sftp.Exchange.Decoding.{Decodes, decode-fields}
use russh_extra.Sftp.Exchange.Names.{
  canonical_entry, kept_entries, name_fields, decode_name-name_fields,
}
use russh_extra.Sftp.Metadata.{from_packet, to_packet}
use russh_extra.Sftp.Metadata.RoundTrip.{visible, from_packet-to_packet}
use russh_extra.Sftp.Tests.Sample.{
  notes_IsSendable, mode_IsSendable, sized, sized-IsReadable, entry, some_metadata,
}

pop_attrs-Reads_example : Reads pop_attrs (attrs_wire sized) (canonical sized)
pop_attrs-Reads_example = pop_attrs-Reads sized sized-IsReadable.in_range sized-IsReadable.plain

decode-fields_example :
    Decodes 12
      (fields 12 (open_file (text "notes.txt") 26 sized) ++ [])
      (open_file (text "notes.txt") 26 sized)
decode-fields_example =
    decode-fields 12 (open_file (text "notes.txt") 26 sized) [] (omega arith)
      (notes_IsSendable, omega arith, sized-IsReadable)

decode_name_example :
    decode_name (name_fields 12 (entry ∷ []))
    ≡ ok (12, map canonical_entry (take (kept_entries (entry ∷ [])) (entry ∷ [])))
decode_name_example = decode_name-name_fields 12 (entry ∷ []) (omega arith) (omega arith) (
  record { filename = notes_IsSendable; longname = mode_IsSendable; attrs = sized-IsReadable },
  tt,
)

from_packet-to_packet_example :
    from_packet (canonical (to_packet some_metadata)) ≡ visible some_metadata
from_packet-to_packet_example = from_packet-to_packet some_metadata
