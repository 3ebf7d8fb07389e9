-- ===== src/Scpio.antt =====
-- Package scpio (scpio/writer.go, scpio/reader.go): the stripped cpio archive of an rpm payload.
-- Here: its errors, its magics and the headers that the writer emits.
pub mod Writer
pub mod Reader
pub mod Header
pub mod Written
pub mod Read
pub mod RoundTrip
mod Tests
use go_rpm.Base.{
  ℕ, zero, suc, ◌+◌, ◌-◌, ◌*◌, ◌/◌, ◌^◌, List, [], ◌∷◌, ◌++◌, Bytes, codes, length, take, drop, set,
  get_or, zeros, copy, bit_and,
}
use go_rpm.Io.{IoError}
use go_rpm.Io.Hex.{HexError}

-- `at_offset` is what `Reader.err` wraps an error in.
pub data Error : Type 0 where
  err_unexpected_eof err_bad_magic err_invalid_trailer err_short_write : Error
  io : IoError → Error
  hex : HexError → Error
  at_offset : ℕ → Error → Error

abbrev pub newc_magic : Bytes
newc_magic = codes "070701"

abbrev pub scpio_magic : Bytes
scpio_magic = codes "07070X"

-- `digits[d]`.
abbrev pub digit : ℕ → ℕ
digit d = get_or (codes "0123456789abcdef") d 0

-- The loop over `i`, with the rounds that are left.
fmt16_loop : ℕ → ℕ → ℕ → Bytes → Bytes
fmt16_loop zero i n r = r
fmt16_loop (suc rounds) i n r =
    fmt16_loop rounds (i + 1) n (set r (7 - i) (digit (bit_and (n / 2 ^ (i * 4)) 0xf)))

unfoldable pub fmt16 : ℕ → Bytes → Bytes
unfolding fmt16_loop
fmt16 n r = fmt16_loop 8 0 n r

-- `f(r[k:])`: `f` writes through the slice into `r`.
abbrev pub from_index : ℕ → (Bytes → Bytes) → Bytes → Bytes
from_index k f r = take k r ++ f (drop k r)

unfoldable pub new_header_loop : List ℕ → ℕ → Bytes → Bytes
new_header_loop [] i r = r
new_header_loop (n ∷ us) i r = new_header_loop us (i + 1) (from_index (i * 8 + 6) (fmt16 n) r)

unfoldable pub new_header : Bytes → List ℕ → Bytes
new_header magic u =
    let r = zeros (length u * 8 + 6) in new_header_loop u 0 (copy (take 6 r) magic ++ drop 6 r)

-- The name of the last entry, with its NUL.
abbrev pub trailer_name : Bytes
trailer_name = codes "TRAILER!!!" ++ 0 ∷ []

unfoldable pub trailer : Bytes
unfolding new_header new_header_loop fmt16
trailer =
    new_header newc_magic (0 ∷ 0 ∷ 0 ∷ 0 ∷ 1 ∷ 0 ∷ 0 ∷ 0 ∷ 0 ∷ 0 ∷ 0 ∷ 11 ∷ 0 ∷ []) ++ trailer_name
