-- ===== src/Sftp/Attrs/Reads.antt =====
-- `push_attrs` and `pop_attrs` of crates/russh-extra/src/sftp/packet.rs against the wire form of
-- attributes.
use russh_extra.Base.{
  ℕ, ◌≡◌, refl, sym, [], ◌++◌, Bytes, Bool, true, false, append_assoc, append-nil, if◌then◌else◌,
  unwrap_or, some, none, Option,
}
use russh_extra.Base.Word.{IsU32, IsU64, u32_bytes, u64_bytes}
use russh_extra.Sftp.Wire.{ret, ◌>>=◌, push_u32, push_u64, pop_u32, pop_u64}
use russh_extra.Sftp.Wire.Reads.{Reads, ret-Reads, >>=-Reads, pop_u32-Reads, pop_u64-Reads}
use russh_extra.Sftp.Attrs.{
  SftpFileAttrs, default_attrs, has_flag, attr_size, attr_uidgid, attr_permissions, attr_acmodtime,
  attr_extended, push_size, push_owner, push_permissions, push_times, push_attrs, pop_size,
  pop_owner, pop_permissions, pop_times, pop_extended, pop_attrs,
}

-- A field as it is on the wire: there when its flag is set, and 0 if it was left out then.
abbrev pub sent_field : Bool → Option ℕ → Option ℕ
sent_field present field = if present then some (unwrap_or field 0) else none

-- The attributes that a peer sees.
unfoldable pub canonical : SftpFileAttrs → SftpFileAttrs
canonical a = record {
  flags = a.flags;
  size = sent_field (has_flag a.flags attr_size) a.size;
  uid = sent_field (has_flag a.flags attr_uidgid) a.uid;
  gid = sent_field (has_flag a.flags attr_uidgid) a.gid;
  permissions = sent_field (has_flag a.flags attr_permissions) a.permissions;
  atime = sent_field (has_flag a.flags attr_acmodtime) a.atime;
  mtime = sent_field (has_flag a.flags attr_acmodtime) a.mtime;
}

-- The ranges of the field types, which every value has.
pub record IsInRange (a : SftpFileAttrs) : Type 0 where
  pub flags : IsU32 a.flags
  pub size : IsU64 (unwrap_or a.size 0)
  pub uid : IsU32 (unwrap_or a.uid 0)
  pub gid : IsU32 (unwrap_or a.gid 0)
  pub permissions : IsU32 (unwrap_or a.permissions 0)
  pub atime : IsU32 (unwrap_or a.atime 0)
  pub mtime : IsU32 (unwrap_or a.mtime 0)

-- Attributes that a peer can read: in range, without the bit for extended attributes.
pub record IsReadable (a : SftpFileAttrs) : Type 0 where
  pub in_range : IsInRange a
  pub plain : has_flag a.flags attr_extended ≡ false

size_wire : SftpFileAttrs → Bytes
size_wire a = if has_flag a.flags attr_size then u64_bytes (unwrap_or a.size 0) else []

owner_wire : SftpFileAttrs → Bytes
owner_wire a =
    if has_flag a.flags attr_uidgid
    then u32_bytes (unwrap_or a.uid 0) ++ (u32_bytes (unwrap_or a.gid 0) ++ [])
    else []

permissions_wire : SftpFileAttrs → Bytes
permissions_wire a =
    if has_flag a.flags attr_permissions then u32_bytes (unwrap_or a.permissions 0) else []

times_wire : SftpFileAttrs → Bytes
times_wire a =
    if has_flag a.flags attr_acmodtime
    then u32_bytes (unwrap_or a.atime 0) ++ (u32_bytes (unwrap_or a.mtime 0) ++ [])
    else []

-- The bytes that `push_attrs` appends.
pub attrs_wire : SftpFileAttrs → Bytes
attrs_wire a =
    u32_bytes a.flags
    ++ (size_wire a ++ (owner_wire a ++ (permissions_wire a ++ (times_wire a ++ []))))

if-append :
    (b : Bool) (buf bs : Bytes) → (if b then buf ++ bs else buf) ≡ buf ++ (if b then bs else [])
if-append true buf bs = refl
if-append false buf bs = sym (append-nil buf)

push_size_lem : (buf : Bytes) (a : SftpFileAttrs) → push_size buf a ≡ buf ++ size_wire a
unfolding push_size size_wire push_u64
push_size_lem buf a = if-append (has_flag a.flags attr_size) buf _

push_two :
    (buf : Bytes) (u v : ℕ)
    → push_u32 (push_u32 buf u) v ≡ buf ++ (u32_bytes u ++ (u32_bytes v ++ []))
unfolding push_u32
push_two buf u v = simp (append_assoc, append-nil)

push_owner_lem : (buf : Bytes) (a : SftpFileAttrs) → push_owner buf a ≡ buf ++ owner_wire a
unfolding push_owner owner_wire
push_owner_lem buf a = rw push_two (if-append (has_flag a.flags attr_uidgid) buf _)

push_permissions_lem :
    (buf : Bytes) (a : SftpFileAttrs) → push_permissions buf a ≡ buf ++ permissions_wire a
unfolding push_permissions permissions_wire push_u32
push_permissions_lem buf a = if-append (has_flag a.flags attr_permissions) buf _

push_times_lem : (buf : Bytes) (a : SftpFileAttrs) → push_times buf a ≡ buf ++ times_wire a
unfolding push_times times_wire
push_times_lem buf a = rw push_two (if-append (has_flag a.flags attr_acmodtime) buf _)

pub push_attrs_lem : (buf : Bytes) (a : SftpFileAttrs) → push_attrs buf a ≡ buf ++ attrs_wire a
unfolding push_attrs attrs_wire push_u32
push_attrs_lem buf a =
    simp (
      push_times_lem, push_permissions_lem, push_owner_lem, push_size_lem, append_assoc, append-nil,
    )

-- The attributes read so far, after each of the four parts.
abbrev with_flags : SftpFileAttrs → SftpFileAttrs
with_flags a = record default_attrs { flags = a.flags }

abbrev with_size : SftpFileAttrs → SftpFileAttrs
with_size a = record (with_flags a) { size = (canonical a).size }

abbrev with_owner : SftpFileAttrs → SftpFileAttrs
with_owner a = record (with_size a) { uid = (canonical a).uid; gid = (canonical a).gid }

abbrev with_permissions : SftpFileAttrs → SftpFileAttrs
with_permissions a = record (with_owner a) { permissions = (canonical a).permissions }

pop_size-Reads :
    (a : SftpFileAttrs) → IsInRange a → Reads (pop_size (with_flags a)) (size_wire a) (with_size a)
unfolding pop_size size_wire canonical
pop_size-Reads a h = split (has_flag a.flags attr_size)
  where
    split :
        (b : Bool)
        → Reads
            (if b
              then (pop_u64 >>= λ v. ret (record (with_flags a) { size = some v }))
              else ret (with_flags a))
            (if b then u64_bytes (unwrap_or a.size 0) else [])
            (record (with_flags a) { size = sent_field b a.size })
    split true =
        rw (← append-nil (u64_bytes (unwrap_or a.size 0)))
          (>>=-Reads _ (pop_u64-Reads _ h.size) (ret-Reads _))
    split false = ret-Reads _

two-Reads :
    {A : Type 0} (f : ℕ → ℕ → A) (u v : ℕ)
    → IsU32 u
    → IsU32 v
    → Reads (do x ← pop_u32; y ← pop_u32; ret (f x y)) (u32_bytes u ++ (u32_bytes v ++ [])) (f u v)
two-Reads f u v hu hv =
    >>=-Reads _ (pop_u32-Reads u hu) (>>=-Reads _ (pop_u32-Reads v hv) (ret-Reads _))

pop_owner-Reads :
    (a : SftpFileAttrs)
    → IsInRange a
    → Reads (pop_owner (with_size a)) (owner_wire a) (with_owner a)
unfolding pop_owner owner_wire canonical
pop_owner-Reads a h = split (has_flag a.flags attr_uidgid)
  where
    split :
        (b : Bool)
        → Reads
            (if b
              then (do
                u ← pop_u32
                g ← pop_u32
                ret (record (with_size a) { uid = some u; gid = some g }))
              else ret (with_size a))
            (if b
              then u32_bytes (unwrap_or a.uid 0) ++ (u32_bytes (unwrap_or a.gid 0) ++ [])
              else [])
            (record (with_size a) { uid = sent_field b a.uid; gid = sent_field b a.gid })
    split true = two-Reads _ _ _ h.uid h.gid
    split false = ret-Reads _

pop_permissions-Reads :
    (a : SftpFileAttrs)
    → IsInRange a
    → Reads (pop_permissions (with_owner a)) (permissions_wire a) (with_permissions a)
unfolding pop_permissions permissions_wire canonical
pop_permissions-Reads a h = split (has_flag a.flags attr_permissions)
  where
    split :
        (b : Bool)
        → Reads
            (if b
              then (pop_u32 >>= λ v. ret (record (with_owner a) { permissions = some v }))
              else ret (with_owner a))
            (if b then u32_bytes (unwrap_or a.permissions 0) else [])
            (record (with_owner a) { permissions = sent_field b a.permissions })
    split true =
        rw (← append-nil (u32_bytes (unwrap_or a.permissions 0)))
          (>>=-Reads _ (pop_u32-Reads _ h.permissions) (ret-Reads _))
    split false = ret-Reads _

pop_times-Reads :
    (a : SftpFileAttrs)
    → IsInRange a
    → Reads (pop_times (with_permissions a)) (times_wire a) (canonical a)
unfolding pop_times times_wire canonical
pop_times-Reads a h = split (has_flag a.flags attr_acmodtime)
  where
    split :
        (b : Bool)
        → Reads
            (if b
              then (do
                u ← pop_u32
                v ← pop_u32
                ret (record (with_permissions a) { atime = some u; mtime = some v }))
              else ret (with_permissions a))
            (if b
              then u32_bytes (unwrap_or a.atime 0) ++ (u32_bytes (unwrap_or a.mtime 0) ++ [])
              else [])
            (record (with_permissions a) {
              atime = sent_field b a.atime;
              mtime = sent_field b a.mtime;
            })
    split true = two-Reads _ _ _ h.atime h.mtime
    split false = ret-Reads _

pop_extended-Reads :
    (a : SftpFileAttrs) → has_flag a.flags attr_extended ≡ false → Reads (pop_extended a) [] a
unfolding pop_extended
pop_extended-Reads a e = rw e (ret-Reads a)

-- Attributes with fields in range and without the bit for extended attributes are read back by
-- `pop_attrs` from their wire form, at any place in a payload, in canonical form: a field whose
-- flag is set is there, 0 if it was missing, and a field whose flag is not set is missing.
pub pop_attrs-Reads :
    (a : SftpFileAttrs)
    → IsInRange a
    → has_flag a.flags attr_extended ≡ false
    → Reads pop_attrs (attrs_wire a) (canonical a)
unfolding pop_attrs attrs_wire
pop_attrs-Reads a h e = >>=-Reads _ (pop_u32-Reads a.flags h.flags) (
    >>=-Reads _ (pop_size-Reads a h) (
      >>=-Reads _ (pop_owner-Reads a h) (
        >>=-Reads _ (pop_permissions-Reads a h) (
          >>=-Reads _ (pop_times-Reads a h)
            (pop_extended-Reads (canonical a) (unfold canonical in e))))))
