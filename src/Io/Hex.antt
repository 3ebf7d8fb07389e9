-- ===== src/Io/Hex.antt =====
-- encoding/hex: `Decode`.
use go_rpm.Base.{ℕ, ◌+◌, ◌-◌, ◌*◌, [], ◌∷◌, ◌&&◌, Option, none, some, Bytes, leb, if◌then◌else◌}
use mathlib.Core.Path.{◌≡◌, refl}
use go_rpm.Io.Defs.{Result, ok, err}

-- The value of a hexadecimal digit.
unfoldable pub from_hex_char : ℕ → Option ℕ
from_hex_char c =
    if leb b'0' c && leb c b'9'
    then some (c - b'0')
    else if leb b'a' c && leb c b'f'
    then some (c - b'a' + 10)
    else if leb b'A' c && leb c b'F'
    then some (c - b'A' + 10)
    else none

-- hex.InvalidByteError, and hex.ErrLength.
pub data HexError : Type 0 where
  invalid_byte : ℕ → HexError
  odd_length : HexError

abbrev pub cons_byte : ℕ → Result HexError Bytes → Result HexError Bytes
cons_byte b (ok bs) = ok (b ∷ bs)
cons_byte b (err e) = err e

abbrev pub decode_pair : Option ℕ → Option ℕ → ℕ → ℕ → Result HexError Bytes → Result HexError Bytes
decode_pair (some a) (some b) p q rest = cons_byte (a * 16 + b) rest
decode_pair none _ p q rest = err (invalid_byte p)
decode_pair (some a) none p q rest = err (invalid_byte q)

-- The bytes decoded up to an error are not kept by the caller.
unfoldable pub decode : Bytes → Result HexError Bytes
decode [] = ok []
decode (p ∷ []) = elim (from_hex_char p) [ some _ ↦ err odd_length | none ↦ err (invalid_byte p) ]
decode (p ∷ q ∷ rest) = decode_pair (from_hex_char p) (from_hex_char q) p q (decode rest)

pub decode_step :
    (p q : ℕ) (rest : Bytes)
    → decode (p ∷ q ∷ rest) ≡ decode_pair (from_hex_char p) (from_hex_char q) p q (decode rest)
unfolding decode
decode_step p q rest = refl

pub decode-nil : decode [] ≡ ok []
unfolding decode
decode-nil = refl
