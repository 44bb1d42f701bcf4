-- ===== src/Sftp/Metadata/Flags.antt =====
-- The flags that `to_packet` sets: one for each group of fields that is there.
use russh_extra.Base.{
  ℕ, ◌≡◌, refl, Bool, true, false, ◌||◌, Option, none, some, is_some, unwrap_or, if◌then◌else◌,
  bit_or, arith,
}
use russh_extra.Base.Word.{IsU32, as_u32}
use russh_extra.Sftp.Attrs.{
  SftpFileAttrs, default_attrs, has_flag, attr_size, attr_uidgid, attr_permissions, attr_acmodtime,
  attr_extended,
}
use russh_extra.Sftp.Metadata.{
  SftpMetadata, put_size, put_owner, put_permissions, put_times, to_packet,
}

abbrev or_if : Bool → ℕ → ℕ → ℕ
or_if b flag flags = if b then bit_or flags flag else flags

-- The flags for the size, the owner, the permissions and the times.
pub flags_of : Bool → Bool → Bool → Bool → ℕ
flags_of s o p t =
    or_if t attr_acmodtime (or_if p attr_permissions (or_if o attr_uidgid (or_if s attr_size 0)))

-- Each test of a flag finds its own group, the bit for extended attributes is clear, and the flags
-- are a u32.
abbrev pub Flags : Bool → Bool → Bool → Bool → Type 0
Flags s o p t =
    (has_flag (flags_of s o p t) attr_size ≡ s)
    × (has_flag (flags_of s o p t) attr_uidgid ≡ o)
    × (has_flag (flags_of s o p t) attr_permissions ≡ p)
    × (has_flag (flags_of s o p t) attr_acmodtime ≡ t)
    × (has_flag (flags_of s o p t) attr_extended ≡ false)
    × IsU32 (flags_of s o p t)

pub flags_of_lem : (s o p t : Bool) → Flags s o p t
unfolding flags_of has_flag
flags_of_lem true true true true = (refl, refl, refl, refl, refl, omega arith)
flags_of_lem true true true false = (refl, refl, refl, refl, refl, omega arith)
flags_of_lem true true false true = (refl, refl, refl, refl, refl, omega arith)
flags_of_lem true true false false = (refl, refl, refl, refl, refl, omega arith)
flags_of_lem true false true true = (refl, refl, refl, refl, refl, omega arith)
flags_of_lem true false true false = (refl, refl, refl, refl, refl, omega arith)
flags_of_lem true false false true = (refl, refl, refl, refl, refl, omega arith)
flags_of_lem true false false false = (refl, refl, refl, refl, refl, omega arith)
flags_of_lem false true true true = (refl, refl, refl, refl, refl, omega arith)
flags_of_lem false true true false = (refl, refl, refl, refl, refl, omega arith)
flags_of_lem false true false true = (refl, refl, refl, refl, refl, omega arith)
flags_of_lem false true false false = (refl, refl, refl, refl, refl, omega arith)
flags_of_lem false false true true = (refl, refl, refl, refl, refl, omega arith)
flags_of_lem false false true false = (refl, refl, refl, refl, refl, omega arith)
flags_of_lem false false false true = (refl, refl, refl, refl, refl, omega arith)
flags_of_lem false false false false = (refl, refl, refl, refl, refl, omega arith)

abbrev pub has_owner : SftpMetadata → Bool
has_owner m = is_some m.uid || is_some m.gid

abbrev pub has_times : SftpMetadata → Bool
has_times m = is_some m.accessed || is_some m.modified

-- A field of a group: 0 where its partner alone is there.
abbrev pub grouped : Bool → Option ℕ → Option ℕ
grouped there field = if there then some (unwrap_or field 0) else none

abbrev pub grouped_time : Bool → Option ℕ → Option ℕ
grouped_time there field = if there then some (as_u32 (unwrap_or field 0)) else none

-- What `to_packet` returns, field by field.
unfoldable pub packet_of : SftpMetadata → SftpFileAttrs
packet_of m = record {
  flags = flags_of (is_some m.size) (has_owner m) (is_some m.permissions) (has_times m);
  size = m.size;
  uid = grouped (has_owner m) m.uid;
  gid = grouped (has_owner m) m.gid;
  permissions = m.permissions;
  atime = grouped_time (has_times m) m.accessed;
  mtime = grouped_time (has_times m) m.modified;
}

put_size_lem :
    (o : Option ℕ)
    → put_size o default_attrs
      ≡ record default_attrs { flags = or_if (is_some o) attr_size 0; size = o }
unfolding put_size
put_size_lem none = refl
put_size_lem (some v) = refl

put_owner_lem :
    (u g : Option ℕ) (f : ℕ) (s : Option ℕ)
    → let a = record default_attrs { flags = f; size = s } in
      let there = is_some u || is_some g in
      put_owner u g a
      ≡ record a { flags = or_if there attr_uidgid f; uid = grouped there u; gid = grouped there g }
unfolding put_owner
put_owner_lem none none f s = refl
put_owner_lem none (some g) f s = refl
put_owner_lem (some u) none f s = refl
put_owner_lem (some u) (some g) f s = refl

put_permissions_lem :
    (p : Option ℕ) (f : ℕ) (s u g : Option ℕ)
    → let a = record default_attrs { flags = f; size = s; uid = u; gid = g } in
      put_permissions p a
      ≡ record a { flags = or_if (is_some p) attr_permissions f; permissions = p }
unfolding put_permissions
put_permissions_lem none f s u g = refl
put_permissions_lem (some p) f s u g = refl

put_times_lem :
    (t v : Option ℕ) (f : ℕ) (s u g p : Option ℕ)
    → let a = record default_attrs { flags = f; size = s; uid = u; gid = g; permissions = p } in
      let there = is_some t || is_some v in
      put_times t v a ≡ record a {
        flags = or_if there attr_acmodtime f;
        atime = grouped_time there t;
        mtime = grouped_time there v;
      }
unfolding put_times
put_times_lem none none f s u g p = refl
put_times_lem none (some v) f s u g p = refl
put_times_lem (some t) none f s u g p = refl
put_times_lem (some t) (some v) f s u g p = refl

pub to_packet_lem : (m : SftpMetadata) → to_packet m ≡ packet_of m
unfolding to_packet packet_of flags_of
to_packet_lem m = rw (
  put_size_lem m.size,
  put_owner_lem m.uid m.gid,
  put_permissions_lem m.permissions,
  put_times_lem m.accessed m.modified,
)
