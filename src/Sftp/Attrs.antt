-- ===== src/Sftp/Attrs.antt =====
-- crates/russh-extra/src/sftp/packet.rs: `SftpFileAttrs`, with `push_attrs` and `pop_attrs`.
pub mod Reads
use russh_extra.Base.{
  ℕ, Bytes, Bool, true, false, not, ◌==◌, ltb, if◌then◌else◌, unwrap_or, Option, none, some,
  bit_and, [],
}
use russh_extra.Base.Text.{text}
use russh_extra.Core.Error.{SftpErrorKind, sftp_error}
use russh_extra.Sftp.Wire.{Pop, ◌>>=◌, ret, fail, push_u32, push_u64, pop_u32, pop_u64}

abbrev pub attr_size : ℕ
attr_size = 0x00000001

abbrev pub attr_uidgid : ℕ
attr_uidgid = 0x00000002

abbrev pub attr_permissions : ℕ
attr_permissions = 0x00000004

abbrev pub attr_acmodtime : ℕ
attr_acmodtime = 0x00000008

abbrev pub attr_extended : ℕ
attr_extended = 0x80000000

pub record SftpFileAttrs : Type 0 where
  pub flags : ℕ
  pub size : Option ℕ
  pub uid : Option ℕ
  pub gid : Option ℕ
  pub permissions : Option ℕ
  pub atime : Option ℕ
  pub mtime : Option ℕ

-- `SftpFileAttrs::default()`
abbrev pub default_attrs : SftpFileAttrs
default_attrs = record {
  flags = 0;
  size = none;
  uid = none;
  gid = none;
  permissions = none;
  atime = none;
  mtime = none;
}

-- `flags & mask != 0`
unfoldable pub has_flag : ℕ → ℕ → Bool
has_flag flags mask = not (bit_and flags mask == 0)

unfoldable pub push_size : Bytes → SftpFileAttrs → Bytes
push_size buf attrs =
    if has_flag attrs.flags attr_size then push_u64 buf (unwrap_or attrs.size 0) else buf

unfoldable pub push_owner : Bytes → SftpFileAttrs → Bytes
push_owner buf attrs =
    if has_flag attrs.flags attr_uidgid
    then push_u32 (push_u32 buf (unwrap_or attrs.uid 0)) (unwrap_or attrs.gid 0)
    else buf

unfoldable pub push_permissions : Bytes → SftpFileAttrs → Bytes
push_permissions buf attrs =
    if has_flag attrs.flags attr_permissions
    then push_u32 buf (unwrap_or attrs.permissions 0)
    else buf

unfoldable pub push_times : Bytes → SftpFileAttrs → Bytes
push_times buf attrs =
    if has_flag attrs.flags attr_acmodtime
    then push_u32 (push_u32 buf (unwrap_or attrs.atime 0)) (unwrap_or attrs.mtime 0)
    else buf

-- The four conditional writes of the source, in its order.
unfoldable pub push_attrs : Bytes → SftpFileAttrs → Bytes
push_attrs buf attrs =
    let buf = push_u32 buf attrs.flags in
    let buf = push_size buf attrs in
    let buf = push_owner buf attrs in let buf = push_permissions buf attrs in push_times buf attrs

unfoldable pub pop_size : SftpFileAttrs → Pop SftpFileAttrs
pop_size attrs =
    if has_flag attrs.flags attr_size
    then (do size ← pop_u64; ret (record attrs { size = some size }))
    else ret attrs

unfoldable pub pop_owner : SftpFileAttrs → Pop SftpFileAttrs
pop_owner attrs =
    if has_flag attrs.flags attr_uidgid
    then (do uid ← pop_u32; gid ← pop_u32; ret (record attrs { uid = some uid; gid = some gid }))
    else ret attrs

unfoldable pub pop_permissions : SftpFileAttrs → Pop SftpFileAttrs
pop_permissions attrs =
    if has_flag attrs.flags attr_permissions
    then (do permissions ← pop_u32; ret (record attrs { permissions = some permissions }))
    else ret attrs

unfoldable pub pop_times : SftpFileAttrs → Pop SftpFileAttrs
pop_times attrs =
    if has_flag attrs.flags attr_acmodtime
    then (do
      atime ← pop_u32
      mtime ← pop_u32
      ret (record attrs { atime = some atime; mtime = some mtime }))
    else ret attrs

check_extended : SftpFileAttrs → ℕ → Pop SftpFileAttrs
unfolding sftp_error
check_extended attrs extended_count =
    if ltb 0 extended_count
    then fail
        (sftp_error SftpErrorKind.protocol (text "extended file attributes are not supported"))
    else ret attrs

-- A count of extended attributes may stand there, and must be 0.
unfoldable pub pop_extended : SftpFileAttrs → Pop SftpFileAttrs
unfolding check_extended
pop_extended attrs =
    if has_flag attrs.flags attr_extended
    then (do extended_count ← pop_u32; check_extended attrs extended_count)
    else ret attrs

-- The reads of the source, in its order.
unfoldable pub pop_attrs : Pop SftpFileAttrs
pop_attrs = do
  flags ← pop_u32
  attrs ← pop_size (record default_attrs { flags = flags })
  attrs ← pop_owner attrs
  attrs ← pop_permissions attrs
  attrs ← pop_times attrs
  pop_extended attrs
