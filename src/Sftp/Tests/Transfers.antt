-- ===== src/Sftp/Tests/Transfers.antt =====
-- Whole files through connections that hold them.
use russh_extra.Base.{◌≡◌, refl, arith, Bytes, [], ◌∷◌, ◌++◌, take, drop}
use russh_extra.Base.Text.{text}
use russh_extra.Core.Error.{ok}
use russh_extra.Sftp.Metadata.{default_metadata}
use russh_extra.Sftp.Transfer.{Connection, done, read_to_vec, write_all}
use russh_extra.Sftp.Transfer.Whole.{read_to_vec-whole, write_all-whole}

abbrev pub contents : Bytes
contents = 4 ∷ 5 ∷ 6 ∷ []

-- The state is what has been written.
abbrev pub one_file : Connection Bytes
one_file = record {
  open_file = λ path mode s. (ok (text "0"), []);
  fstat = λ handle s. (ok default_metadata, s);
  read = λ handle offset len s. (ok (take len (drop offset contents)), s);
  write = λ handle offset bytes s. (ok tt, s ++ bytes);
  close = λ handle s. (ok tt, s);
}

read_to_vec-whole_example :
    read_to_vec one_file 4 (text "f") [] ≡ (done (ok contents), (one_file.close (text "0") []).1)
read_to_vec-whole_example =
    read_to_vec-whole one_file (text "0") contents (λ offset len s. refl) 4 (text "f") [] [] []
      default_metadata refl refl (omega arith)

write_all-whole_example :
    (s2 : Bytes) × (write_all one_file (text "f") contents []
      ≡ (done (one_file.close (text "0") s2).0, (one_file.close (text "0") s2).1))
    × (s2 ≡ contents)
write_all-whole_example =
    write_all-whole one_file (text "0") (λ s. s) (λ offset bytes s e. (s ++ bytes, refl, refl))
      (text "f") contents [] [] refl refl
