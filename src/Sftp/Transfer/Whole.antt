-- ===== src/Sftp/Transfer/Whole.antt =====
-- `read_to_vec` and `write_all` of crates/russh-extra/src/sftp/mod.rs on connections that hold a file.
use russh_extra.Base.{
  ℕ, ◌+◌, ◌≤◌, ◌<◌, zero, suc, ◌≡◌, refl, sym, ap, ◌∙◌, ◌++◌, Bytes, Text, [], ◌∷◌, length, take,
  drop, append_assoc, append-nil, take-append-drop, length-take, length-drop, arith, drop-add, ◌⊎◌,
  inl, inr, drop-length-append, length-append,
}
use russh_extra.Core.Error.{ok}
use russh_extra.Sftp.Metadata.{SftpMetadata}
use russh_extra.Sftp.Transfer.{
  sftp_chunk_size, read_mode, write_mode, Connection, Run, done, awaiting, finishing, take_chunk,
  read_loop, read_to_vec, write_loop, write_all,
}

empty_or_not : (bs : Bytes) → (bs ≡ []) ⊎ (1 ≤ length bs)
empty_or_not [] = inl refl
empty_or_not (b ∷ bs) = inr (omega arith)

drop-taken : (n : ℕ) (bs : Bytes) → drop (length (take n bs)) bs ≡ drop n bs
drop-taken n bs =
    ap (drop (length (take n bs))) (sym (take-append-drop n bs))
    ∙ drop-length-append (take n bs) (drop n bs)

-- A connection on which the open file `handle` holds `contents`, and reads change nothing.
module _ {S : Type 0} (connection : Connection S) (handle : Text) (contents : Bytes)
    (reads : (offset len : ℕ) (s : S)
      → connection.read handle offset len s ≡ (ok (take len (drop offset contents)), s)) where
  take_chunk_lem :
      (next : ℕ → Bytes → S → Run Bytes × S) (offset : ℕ) (buf chunk : Bytes) (s : S)
      → 1 ≤ length chunk
      → take_chunk next offset buf chunk s ≡ next (offset + length chunk) (buf ++ chunk) s
  unfolding take_chunk
  take_chunk_lem next offset buf [] s h = absurd (omega arith)
  take_chunk_lem next offset buf (b ∷ bs) s h = refl

  read_loop-rest :
      (fuel offset : ℕ) (buf rest : Bytes) (s : S)
      → drop offset contents ≡ rest
      → length rest < fuel
      → read_loop connection handle fuel offset buf s ≡ (done (ok (buf ++ rest)), s)
  unfolding read_loop awaiting
  read_loop-rest zero offset buf rest s e h = absurd (omega arith)
  read_loop-rest (suc fuel) offset buf rest s e h =
      rw (reads, e, awaiting)
        (elim (empty_or_not rest) [
          | inl none_left ↦ rw none_left (unfold take_chunk in rw append-nil refl)
          | inr some_left ↦
              let chunk = take sftp_chunk_size rest in
              let size : 1 ≤ length chunk = omega (arith, length-take sftp_chunk_size rest) in
              take_chunk_lem _ offset buf chunk s size
              ∙ read_loop-rest fuel (offset + length chunk) (buf ++ chunk)
                  (drop sftp_chunk_size rest) s
                  (drop-add offset (length chunk) contents
                    ∙ ap (drop (length chunk)) e
                    ∙ drop-taken sftp_chunk_size rest)
                  (omega (arith, length-drop sftp_chunk_size rest))
              ∙ ap (λ b. (done (ok b), s))
                  (append_assoc buf chunk (drop sftp_chunk_size rest)
                    ∙ ap (λ r. buf ++ r) (take-append-drop sftp_chunk_size rest))
        ])

  -- On a connection that opens the path and returns its metadata, and where a read of the opened
  -- file returns its contents from the offset on up to the length asked and changes nothing,
  -- `read_to_vec` with more fuel than the contents have bytes ends with exactly these contents
  -- and has closed the file.
  pub read_to_vec-whole :
      (fuel : ℕ) (path : Text) (s s1 s2 : S) (m : SftpMetadata)
      → connection.open_file path read_mode s ≡ (ok handle, s1)
      → connection.fstat handle s1 ≡ (ok m, s2)
      → length contents < fuel
      → read_to_vec connection fuel path s ≡ (done (ok contents), (connection.close handle s2).1)
  unfolding read_to_vec awaiting finishing
  read_to_vec-whole fuel path s s1 s2 m e1 e2 h =
      rw (e1, awaiting)
        (rw (e2, awaiting) (rw (read_loop-rest fuel 0 [] contents s2 refl h, finishing) refl))

-- A connection on which a write at the end of the open file `handle` appends to what is stored.
module _ {S : Type 0} (connection : Connection S) (handle : Text) (stored : S → Bytes)
    (writes : (offset : ℕ) (bytes : Bytes) (s : S)
      → length (stored s) ≡ offset
      → (s' : S) × (connection.write handle offset bytes s ≡ (ok tt, s'))
        × (stored s' ≡ stored s ++ bytes)) where
  write_loop_step :
      (fuel offset : ℕ) (bytes : Bytes) (s : S)
      → 1 ≤ length bytes
      → write_loop connection handle (suc fuel) offset bytes s
        ≡ awaiting (connection.write handle offset (take sftp_chunk_size bytes) s) λ _ s'.
          write_loop connection handle fuel
            (offset + length (take sftp_chunk_size bytes))
            (drop sftp_chunk_size bytes)
            s'
  unfolding write_loop
  write_loop_step fuel offset [] s h = absurd (omega arith)
  write_loop_step fuel offset (b ∷ bs) s h = refl

  write_loop-rest :
      (fuel offset : ℕ) (bytes : Bytes) (s : S)
      → length (stored s) ≡ offset
      → length bytes ≤ fuel
      → (s' : S) × (write_loop connection handle fuel offset bytes s ≡ (done (ok tt), s'))
        × (stored s' ≡ stored s ++ bytes)
  unfolding awaiting write_loop
  write_loop-rest zero offset bytes s e h = elim (empty_or_not bytes) [
    | inl none_left ↦ (s, rw none_left refl, rw none_left (sym (append-nil (stored s))))
    | inr some_left ↦ absurd (omega arith)
  ]
  write_loop-rest (suc fuel) offset bytes s e h = elim (empty_or_not bytes) [
    | inl none_left ↦ (s, rw none_left refl, rw none_left (sym (append-nil (stored s))))
    | inr some_left ↦
        let chunk = take sftp_chunk_size bytes in
        let (s1, written, more) = writes offset chunk s e in
        let (s2, later, whole) =
          write_loop-rest fuel (offset + length chunk) (drop sftp_chunk_size bytes) s1
            (ap length more ∙ length-append (stored s) chunk ∙ ap (λ n. n + length chunk) e)
            (omega (arith, length-drop sftp_chunk_size bytes)) in
        (
          s2,
          write_loop_step fuel offset bytes s some_left ∙ rw (written, awaiting) later,
          whole
              ∙ rw more (append_assoc (stored s) chunk (drop sftp_chunk_size bytes))
              ∙ ap (λ r. stored s ++ r) (take-append-drop sftp_chunk_size bytes),
        )
  ]

  -- On a connection that opens the path with an empty file, and where a write at the end of the
  -- opened file succeeds and appends its bytes to what is stored, `write_all` ends, with the
  -- result of the close, and what is stored before the close is exactly the given bytes.
  pub write_all-whole :
      (path : Text) (bytes : Bytes) (s s1 : S)
      → connection.open_file path write_mode s ≡ (ok handle, s1)
      → stored s1 ≡ []
      → (s2 : S) × (write_all connection path bytes s
          ≡ (done (connection.close handle s2).0, (connection.close handle s2).1))
        × (stored s2 ≡ bytes)
  unfolding write_all awaiting finishing
  write_all-whole path bytes s s1 e empty =
      let (s2, ran, whole) =
        write_loop-rest (length bytes) 0 bytes s1 (ap length empty) (omega arith) in
      (s2, rw (e, awaiting) (rw (ran, finishing) refl), whole ∙ rw empty refl)
