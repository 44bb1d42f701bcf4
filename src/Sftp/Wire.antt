-- ===== src/Sftp/Wire.antt =====
-- crates/russh-extra/src/sftp/packet.rs, the internal helpers: `push_*` append to a buffer, and
-- `pop_*` read from a slice at a cursor, which `pos: &mut usize` is in the source.
pub mod Reads
use russh_extra.Base.{
  ℕ, ◌+◌, ◌-◌, ◌*◌, ◌%◌, ◌^◌, List, [], ◌∷◌, ◌++◌, Bytes, Text, Bool, length, take, drop, ltb,
  if◌then◌else◌, leb,
}
use russh_extra.Base.Word.{as_u32, u32_bytes, u64_bytes, from_be_bytes}
use russh_extra.Base.Text.{text, decimal, is_utf8}
use russh_extra.Core.Error.{Error, Result, ok, err, SftpErrorKind, sftp_error}

-- 256 KiB
abbrev pub max_sftp_packet_size : ℕ
max_sftp_packet_size = 256 * 1024

-- A step that reads from `slice` at `pos` and moves `pos`.
abbrev pub Pop : Type 0 → Type 0
Pop A = Bytes → ℕ → Result (A × ℕ)

infixl 5 ◌>>=◌ ◌>>◌
abbrev pub ◌>>=◌ : {A B : Type 0} → Pop A → (A → Pop B) → Pop B
◌>>=◌ m k slice pos = elim (m slice pos) [ ok (a, pos') ↦ k a slice pos' | err e ↦ err e ]

abbrev pub ◌>>◌ : {B : Type 0} → Pop (Unit {0}) → Pop B → Pop B
m >> k = m >>= λ _. k

abbrev pub ret : {A : Type 0} → A → Pop A
ret a slice pos = ok (a, pos)

abbrev pub fail : {A : Type 0} → Error → Pop A
fail e slice pos = err e

unfoldable pub frame_len : Bytes → ℕ
frame_len payload = (1 + as_u32 (length payload)) % 2 ^ 32

unfoldable pub push_u32 : Bytes → ℕ → Bytes
push_u32 buf value = buf ++ u32_bytes value

unfoldable pub push_u64 : Bytes → ℕ → Bytes
push_u64 buf value = buf ++ u64_bytes value

unfoldable pub push_bytes : Bytes → Bytes → Bytes
unfolding push_u32
push_bytes buf bytes = push_u32 buf (as_u32 (length bytes)) ++ bytes

unfoldable pub push_string : Bytes → Text → Bytes
unfolding push_bytes
push_string buf s = push_bytes buf s

-- The length prefix, the packet type, and the payload.
unfoldable pub frame : ℕ → Bytes → Bytes
unfolding push_u32 frame_len
frame packet_type payload = (push_u32 [] (frame_len payload) ++ packet_type ∷ []) ++ payload

protocol_error : Text → Error
unfolding sftp_error
protocol_error message = sftp_error SftpErrorKind.protocol message

truncated_message : Bytes → ℕ → ℕ → Text
truncated_message slice pos needed =
    text "SFTP packet truncated: need "
    ++ (decimal needed
        ++ (text " bytes at position "
            ++ (decimal pos ++ (text ", have " ++ decimal (length slice - pos)))))

unfoldable pub check_bounds : Bytes → ℕ → ℕ → Result (Unit {0})
unfolding protocol_error truncated_message
check_bounds slice pos needed =
    if ltb (length slice) (pos + needed)
    then err (protocol_error (truncated_message slice pos needed))
    else ok tt

-- `check_bounds(data, *pos, n)?; let bytes = data[*pos..*pos + n]; *pos += n`
pop_slice : ℕ → Pop Bytes
unfolding check_bounds
pop_slice n slice pos = elim (check_bounds slice pos n) [
  | ok _ ↦ ok (take n (drop pos slice), pos + n)
  | err e ↦ err e
]

unfoldable pub pop_u32 : Pop ℕ
unfolding pop_slice
pop_u32 = do bytes ← pop_slice 4; ret (from_be_bytes bytes)

unfoldable pub pop_u64 : Pop ℕ
unfolding pop_slice
pop_u64 = do bytes ← pop_slice 8; ret (from_be_bytes bytes)

too_long_message : ℕ → Text
too_long_message len =
    text "SFTP byte length "
    ++ (decimal len ++ (text " exceeds maximum " ++ decimal max_sftp_packet_size))

unfoldable pub pop_bytes : Pop Bytes
unfolding pop_u32 protocol_error too_long_message
pop_bytes = do
  len ← pop_u32
  if ltb max_sftp_packet_size len
      then fail (protocol_error (too_long_message len))
      else pop_slice len

unfoldable pub pop_string : Pop Text
unfolding pop_bytes protocol_error
pop_string = do
  bytes ← pop_bytes
  if is_utf8 bytes then ret bytes else fail (protocol_error (text "SFTP string is not valid UTF-8"))

-- A decoder of a whole payload: `let mut pos = 0; …`
unfoldable pub from_start : {A : Type 0} → Pop A → Bytes → Result A
from_start m payload = elim (m payload 0) [ ok (a, pos) ↦ ok a | err e ↦ err e ]
