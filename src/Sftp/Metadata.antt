-- ===== src/Sftp/Metadata.antt =====
-- crates/russh-extra/src/sftp/types.rs: `SftpMetadata` and `SftpDirEntry`. The
-- accessors of the source are the fields here.
pub mod Flags
pub mod RoundTrip
use russh_extra.Base.{ℕ, Text, unwrap_or, Option, none, some, bit_or}
use russh_extra.Base.Word.{as_u32}
use russh_extra.Sftp.Attrs.{
  SftpFileAttrs, default_attrs, attr_size, attr_uidgid, attr_permissions, attr_acmodtime,
}
use russh_extra.Sftp.Response.{SftpNameEntry}
use mathlib.Core.Option

pub record SftpMetadata : Type 0 where
  pub size : Option ℕ
  pub uid : Option ℕ
  pub gid : Option ℕ
  pub permissions : Option ℕ
  pub accessed : Option ℕ
  pub modified : Option ℕ

abbrev pub default_metadata : SftpMetadata
default_metadata = record {
  size = none;
  uid = none;
  gid = none;
  permissions = none;
  accessed = none;
  modified = none;
}

-- `v as u64` of a u32 is the same number.
unfoldable pub from_packet : SftpFileAttrs → SftpMetadata
from_packet attrs = record {
  size = attrs.size;
  uid = attrs.uid;
  gid = attrs.gid;
  permissions = attrs.permissions;
  accessed = attrs.atime;
  modified = attrs.mtime;
}

add_flag : SftpFileAttrs → ℕ → SftpFileAttrs
add_flag attrs flag = record attrs { flags = bit_or attrs.flags flag }

unfoldable pub put_size : Option ℕ → SftpFileAttrs → SftpFileAttrs
unfolding add_flag
put_size none attrs = attrs
put_size (some size) attrs = record (add_flag attrs attr_size) { size = some size }

unfoldable pub put_owner : Option ℕ → Option ℕ → SftpFileAttrs → SftpFileAttrs
unfolding add_flag
put_owner none none attrs = attrs
put_owner uid gid attrs = record (add_flag attrs attr_uidgid) {
  uid = some (unwrap_or uid 0);
  gid = some (unwrap_or gid 0);
}

unfoldable pub put_permissions : Option ℕ → SftpFileAttrs → SftpFileAttrs
unfolding add_flag
put_permissions none attrs = attrs
put_permissions (some perm) attrs = record (add_flag attrs attr_permissions) {
  permissions = some perm;
}

unfoldable pub put_times : Option ℕ → Option ℕ → SftpFileAttrs → SftpFileAttrs
unfolding add_flag
put_times (some atime) modified attrs = record (add_flag attrs attr_acmodtime) {
  atime = some (as_u32 atime);
  mtime = some (unwrap_or (Option.map as_u32 modified) 0);
}
put_times none (some mtime) attrs = record (add_flag attrs attr_acmodtime) {
  atime = some 0;
  mtime = some (as_u32 mtime);
}
put_times none none attrs = attrs

-- The conditional updates of the source, in its order.
unfoldable pub to_packet : SftpMetadata → SftpFileAttrs
to_packet m =
    put_times m.accessed m.modified
      (put_permissions m.permissions (put_owner m.uid m.gid (put_size m.size default_attrs)))

unfoldable pub with_size : SftpMetadata → ℕ → SftpMetadata
with_size m size = record m { size = some size }

unfoldable pub with_permissions : SftpMetadata → ℕ → SftpMetadata
with_permissions m permissions = record m { permissions = some permissions }

unfoldable pub with_uid_gid : SftpMetadata → ℕ → ℕ → SftpMetadata
with_uid_gid m uid gid = record m { uid = some uid; gid = some gid }

unfoldable pub with_accessed : SftpMetadata → ℕ → SftpMetadata
with_accessed m accessed = record m { accessed = some accessed }

unfoldable pub with_modified : SftpMetadata → ℕ → SftpMetadata
with_modified m modified = record m { modified = some modified }

pub record SftpDirEntry : Type 0 where
  pub filename : Text
  pub longname : Text
  pub metadata : SftpMetadata

-- `SftpDirEntry::from_packet`
unfoldable pub entry_from_packet : Text → Text → SftpFileAttrs → SftpDirEntry
entry_from_packet filename longname attrs = record {
  filename = filename;
  longname = longname;
  metadata = from_packet attrs;
}

unfoldable pub to_name_entry : SftpDirEntry → SftpNameEntry
to_name_entry e = record {
  filename = e.filename;
  longname = e.longname;
  attrs = to_packet e.metadata;
}
