-- ===== src/Scpio/Header.antt =====
-- What `newHeader` returns.
use go_rpm.Base.{
  ℕ, zero, suc, ◌+◌, ◌*◌, ◌/◌, ◌%◌, ◌^◌, ◌<◌, ◌≡◌, refl, sym, ◌∙◌, arith, List, [], ◌∷◌, ◌++◌,
  append_assoc, append-nil, Bytes, length, length-append, zeros, zeros_add, take_all, some,
  bit_and_fifteen, take-append_length, drop-append_length,
}
use go_rpm.Io.{ok}
use go_rpm.Io.Hex.{decode, from_hex_char, decode_step, decode-nil}
use go_rpm.Io.Binary.{put_be}
use go_rpm.Scpio.{digit, fmt16, new_header_loop, new_header}

-- The `k` lowest hexadecimal digits of `n`, the highest of them first.
abbrev pub hex_digits : ℕ → ℕ → Bytes
hex_digits zero n = []
hex_digits (suc k) n = digit (n / 16 ^ k % 16) ∷ hex_digits k n

abbrev pub hex_fields : List ℕ → Bytes
hex_fields [] = []
hex_fields (n ∷ us) = hex_digits 8 n ++ hex_fields us

pub fmt16-hex_digits : (n : ℕ) (rest : Bytes) → fmt16 n (zeros 8 ++ rest) ≡ hex_digits 8 n ++ rest
unfolding fmt16
fmt16-hex_digits n rest = simp bit_and_fifteen

new_header_loop-hex_fields :
    (us : List ℕ) (i : ℕ) (done : Bytes)
    → length done ≡ i * 8 + 6
    → new_header_loop us i (done ++ zeros (length us * 8)) ≡ done ++ hex_fields us
unfolding new_header_loop
new_header_loop-hex_fields [] i done h = refl
new_header_loop-hex_fields (n ∷ us) i done h =
    let more = zeros (length us * 8) in
    let size : suc (length us) * 8 ≡ 8 + length us * 8 = omega arith in
    let room : zeros (suc (length us) * 8) ≡ zeros 8 ++ more =
      rw size (sym (zeros_add 8 (length us * 8))) in
    rw
      (
        room,
        take-append_length done (zeros 8 ++ more) (i * 8 + 6) (sym h),
        drop-append_length done (zeros 8 ++ more) (i * 8 + 6) (sym h),
        fmt16-hex_digits n more,
        ← append_assoc done (hex_digits 8 n) more,
      )
      (new_header_loop-hex_fields us (i + 1) (done ++ hex_digits 8 n)
          (omega (arith, length-append done (hex_digits 8 n)))
        ∙ append_assoc done (hex_digits 8 n) (hex_fields us))

-- `newHeader` writes the magic, and each number as eight hexadecimal digits.
pub new_header-hex_fields :
    (magic : Bytes) (us : List ℕ) → length magic ≡ 6 → new_header magic us ≡ magic ++ hex_fields us
unfolding new_header
new_header-hex_fields magic us h =
    let size : length us * 8 + 6 ≡ 6 + length us * 8 = omega arith in
    rw (size, ← zeros_add 6 (length us * 8), h, take_all magic 6 (omega arith), append-nil)
      (new_header_loop-hex_fields us 0 magic (omega arith))

from_digit : (d : ℕ) → d < 16 → from_hex_char (digit d) ≡ some d
unfolding from_hex_char
from_digit d h = ground arith

from_digit_mod : (m : ℕ) → from_hex_char (digit (m % 16)) ≡ some (m % 16)
from_digit_mod m = from_digit (m % 16) (omega arith)

-- Decoding eight digits gives the four bytes of the number.
pub decode-hex_digits : (n : ℕ) → decode (hex_digits 8 n) ≡ ok (put_be 4 n)
decode-hex_digits n = simp (decode_step, decode-nil, from_digit_mod) (ground arith)
