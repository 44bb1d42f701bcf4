-- ===== src/Sftp/Metadata/RoundTrip.antt =====
-- Metadata through the wire: `to_packet` and `from_packet` of crates/russh-extra/src/sftp/types.rs.
use russh_extra.Base.{
  ℕ, ◌≡◌, refl, Bool, true, false, Option, none, some, is_some, unwrap_or, arith,
}
use russh_extra.Base.Word.{IsU32, IsU64}
use russh_extra.Sftp.Attrs.Reads.{canonical, sent_field, IsReadable}
use russh_extra.Sftp.Metadata.{SftpMetadata, from_packet, to_packet}
use russh_extra.Sftp.Metadata.Flags.{
  flags_of_lem, has_owner, has_times, grouped, grouped_time, packet_of, to_packet_lem,
}

-- What a peer reads: an owner or a time that is left out beside its partner is 0, and times are
-- reduced to 32 bits.
unfoldable pub visible : SftpMetadata → SftpMetadata
visible m = record {
  size = m.size;
  uid = grouped (has_owner m) m.uid;
  gid = grouped (has_owner m) m.gid;
  permissions = m.permissions;
  accessed = grouped_time (has_times m) m.accessed;
  modified = grouped_time (has_times m) m.modified;
}

-- The ranges of the field types that are sent as they are.
pub record IsInMetadataRange (m : SftpMetadata) : Type 0 where
  pub size : IsU64 (unwrap_or m.size 0)
  pub uid : IsU32 (unwrap_or m.uid 0)
  pub gid : IsU32 (unwrap_or m.gid 0)
  pub permissions : IsU32 (unwrap_or m.permissions 0)

sent_self : (o : Option ℕ) → sent_field (is_some o) o ≡ o
sent_self none = refl
sent_self (some v) = refl

sent_grouped : (b : Bool) (o : Option ℕ) → sent_field b (grouped b o) ≡ grouped b o
sent_grouped true o = refl
sent_grouped false o = refl

sent_grouped_time : (b : Bool) (o : Option ℕ) → sent_field b (grouped_time b o) ≡ grouped_time b o
sent_grouped_time true o = refl
sent_grouped_time false o = refl

canonical-packet_of : (m : SftpMetadata) → canonical (packet_of m) ≡ packet_of m
unfolding canonical packet_of
canonical-packet_of m =
    let f = flags_of_lem (is_some m.size) (has_owner m) (is_some m.permissions) (has_times m) in
    simp (f.0, f.1, f.2, f.3, sent_self, sent_grouped, sent_grouped_time)

-- For any metadata, `from_packet` of the canonical form of `to_packet` is its visible part: an
-- owner or a time that is missing beside its partner is 0, and times are reduced to 32 bits.
pub from_packet-to_packet : (m : SftpMetadata) → from_packet (canonical (to_packet m)) ≡ visible m
unfolding from_packet visible packet_of
from_packet-to_packet m = rw (to_packet_lem m, canonical-packet_of m)

grouped_range :
    (b : Bool) (o : Option ℕ) → IsU32 (unwrap_or o 0) → IsU32 (unwrap_or (grouped b o) 0)
grouped_range true o h = h
grouped_range false o h = omega arith

grouped_time_range : (b : Bool) (o : Option ℕ) → IsU32 (unwrap_or (grouped_time b o) 0)
grouped_time_range true o = omega arith
grouped_time_range false o = omega arith

-- For metadata whose size, owners and permissions are in the range of their types, the
-- attributes of `to_packet` have every field in range and no bit for extended attributes.
pub to_packet-IsReadable : (m : SftpMetadata) → IsInMetadataRange m → IsReadable (to_packet m)
unfolding packet_of
to_packet-IsReadable m h =
    let f = flags_of_lem (is_some m.size) (has_owner m) (is_some m.permissions) (has_times m) in
    rw (to_packet_lem m) (record {
      in_range = record {
        flags = f.5;
        size = h.size;
        uid = grouped_range (has_owner m) m.uid h.uid;
        gid = grouped_range (has_owner m) m.gid h.gid;
        permissions = h.permissions;
        atime = grouped_time_range (has_times m) m.accessed;
        mtime = grouped_time_range (has_times m) m.modified;
      };
      plain = f.4;
    })
