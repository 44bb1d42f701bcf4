-- ===== src/Sftp/Transfer.antt =====
-- crates/russh-extra/src/sftp/mod.rs: `read_to_vec` and `write_all`, which move a whole file in
-- chunks. The client's methods are functions on the state of the connection. On an early error the
-- source drops the open file, whose `Drop` starts a close that nobody waits for; it is left out.
pub mod Whole
use russh_extra.Base.{
  ℕ, ◌+◌, zero, suc, ◌++◌, Bytes, Text, List, [], ◌∷◌, length, take, drop, bit_or,
}
use russh_extra.Core.Error.{Result, ok, err}
use russh_extra.Sftp.Metadata.{SftpMetadata}

abbrev pub sftp_chunk_size : ℕ
sftp_chunk_size = 32768

-- `SftpOpenMode::READ`
abbrev pub read_mode : ℕ
read_mode = 0x00000001

-- `SftpOpenMode::WRITE | SftpOpenMode::CREATE | SftpOpenMode::TRUNCATE`
abbrev pub write_mode : ℕ
write_mode = bit_or (bit_or 0x00000002 0x00000008) 0x00000010

pub record Connection (S : Type 0) : Type 0 where
  pub open_file : Text → ℕ → S → Result Text × S
  pub fstat : Text → S → Result SftpMetadata × S
  pub read : Text → ℕ → ℕ → S → Result Bytes × S
  pub write : Text → ℕ → Bytes → S → Result (Unit {0}) × S
  pub close : Text → S → Result (Unit {0}) × S

-- How a function ends: with a result, or without fuel, which is no outcome of the source.
pub data Run (A : Type 0) : Type 0 where
  done : Result A → Run A
  out_of_fuel : Run A

-- `let a = call.await?; …`
unfoldable pub awaiting : {S A B : Type 0} → Result A × S → (A → S → Run B × S) → Run B × S
awaiting (ok a, s) k = k a s
awaiting (err e, s) k = (done (err e), s)

-- `let a = run?; …` behind a loop.
unfoldable pub finishing : {S A B : Type 0} → Run A × S → (A → S → Run B × S) → Run B × S
finishing (done (ok a), s) k = k a s
finishing (done (err e), s) k = (done (err e), s)
finishing (out_of_fuel, s) k = (out_of_fuel, s)

-- The body of the loop of `read_to_vec`: an empty chunk ends it.
unfoldable pub take_chunk :
    {S : Type 0} → (ℕ → Bytes → S → Run Bytes × S) → ℕ → Bytes → Bytes → S → Run Bytes × S
take_chunk next offset buf [] s = (done (ok buf), s)
take_chunk next offset buf (b ∷ bs) s = next (offset + length (b ∷ bs)) (buf ++ (b ∷ bs)) s

module _ {S : Type 0} (connection : Connection S) where
  -- `fuel` bounds the number of reads.
  unfoldable pub read_loop : Text → ℕ → ℕ → Bytes → S → Run Bytes × S
  read_loop handle zero offset buf s = (out_of_fuel, s)
  read_loop handle (suc fuel) offset buf s =
      awaiting (connection.read handle offset sftp_chunk_size s)
        (take_chunk (read_loop handle fuel) offset buf)

  -- The result of the close is only logged, and the size of the metadata only reserves memory.
  unfoldable pub read_to_vec : ℕ → Text → S → Run Bytes × S
  read_to_vec fuel path s = awaiting (connection.open_file path read_mode s) λ handle s.
      awaiting (connection.fstat handle s) λ _ s.
        finishing (read_loop handle fuel 0 [] s)
          λ buf s. (done (ok buf), (connection.close handle s).1)

  -- `for chunk in data.chunks(SFTP_CHUNK_SIZE)`, with a unit of fuel for each chunk.
  unfoldable pub write_loop : Text → ℕ → ℕ → Bytes → S → Run (Unit {0}) × S
  write_loop handle fuel offset [] s = (done (ok tt), s)
  write_loop handle zero offset (b ∷ bs) s = (out_of_fuel, s)
  write_loop handle (suc fuel) offset (b ∷ bs) s =
      let chunk = take sftp_chunk_size (b ∷ bs) in
      awaiting (connection.write handle offset chunk s)
        λ _ s. write_loop handle fuel (offset + length chunk) (drop sftp_chunk_size (b ∷ bs)) s

  -- Each chunk is a byte long or more.
  unfoldable pub write_all : Text → Bytes → S → Run (Unit {0}) × S
  write_all path bytes s = awaiting (connection.open_file path write_mode s) λ handle s.
      finishing (write_loop handle (length bytes) 0 bytes s)
        λ _ s. (done (connection.close handle s).0, (connection.close handle s).1)
