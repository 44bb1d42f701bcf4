-- ===== src/Sftp/Framing.antt =====
-- The reassembly loop of crates/russh-extra/src/sftp/server.rs (`handle_data`) and client.rs
-- (`read_task`): complete packets are cut off the front of the buffer.
pub mod Stream
pub mod Accounts
use russh_extra.Base.{
  ℕ, ◌+◌, zero, suc, ◌++◌, ◌||◌, Bytes, List, [], ◌∷◌, length, take, drop, ltb, ◌==◌, if◌then◌else◌,
  Bool,
}
use russh_extra.Base.Word.{from_be_bytes}
use russh_extra.Sftp.Wire.{max_sftp_packet_size}

-- What the loop leaves: the packets and the bytes behind them, or the packets before a length field
-- that is 0 or too large. `out_of_fuel` is no outcome of the source.
pub data Split : Type 0 where
  complete : List Bytes → Bytes → Split
  bad_length : List Bytes → ℕ → Split
  out_of_fuel : Split

-- `len_u32 > MAX_SFTP_PACKET_SIZE || len_u32 == 0`
abbrev pub is_bad_length : ℕ → Bool
is_bad_length len = ltb max_sftp_packet_size len || len == 0

unfoldable pub split_loop : ℕ → List Bytes → Bytes → Split
split_loop zero packets buf = out_of_fuel
split_loop (suc fuel) packets buf =
    let len = from_be_bytes (take 4 buf) in
    let packet = take len (drop 4 buf) in
    let next = split_loop fuel (packets ++ packet ∷ []) (drop (4 + len) buf) in
    if ltb (length buf) 4
    then complete packets buf
    else if is_bad_length len
    then bad_length packets len
    else if ltb (length buf) (4 + len)
    then complete packets buf
    else next

-- Each round cuts off five bytes or more.
unfoldable pub split_packets : Bytes → Split
unfolding split_loop
split_packets buf = split_loop (suc (length buf)) [] buf
