-- ===== src/Sftp/Tests/Streams.antt =====
-- The reassembly loop at concrete streams.
use russh_extra.Base.{◌≡◌, refl, arith, Bytes, [], ◌∷◌}
use russh_extra.Base.Word.{from_be_bytes, AllBytes}
use russh_extra.Sftp.Framing.{complete, bad_length, split_packets}
use russh_extra.Sftp.Framing.Accounts.{Accounts, split_packets-Accounts}

-- A whole packet of two bytes, then a packet of three that is cut short.
abbrev pub cut_short : Bytes
cut_short = 0 ∷ 0 ∷ 0 ∷ 2 ∷ 9 ∷ 8 ∷ 0 ∷ 0 ∷ 0 ∷ 3 ∷ 5 ∷ []

cut_short_bytes : AllBytes cut_short
cut_short_bytes = (
  omega arith,
  (
    omega arith,
    (
      omega arith,
      (
        omega arith,
        (
          omega arith,
          (
            omega arith,
            (omega arith, (omega arith, (omega arith, (omega arith, (omega arith, tt))))),
          ),
        ),
      ),
    ),
  ),
)

cut_short_split : split_packets cut_short ≡ complete ((9 ∷ 8 ∷ []) ∷ []) (0 ∷ 0 ∷ 0 ∷ 3 ∷ 5 ∷ [])
unfolding split_packets from_be_bytes
cut_short_split = refl

too_long_split : split_packets (0 ∷ 4 ∷ 0 ∷ 1 ∷ []) ≡ bad_length [] 262145
unfolding split_packets from_be_bytes
too_long_split = refl

split_packets-Accounts_example : Accounts cut_short (split_packets cut_short)
split_packets-Accounts_example = split_packets-Accounts cut_short cut_short_bytes
