-- ===== src/Io/Binary.antt =====
-- encoding/binary: fixed-size integers in big-endian order.
use go_rpm.Base.{
  ℕ, zero, suc, ◌+◌, ◌*◌, ◌/◌, ◌%◌, ◌^◌, ◌<◌, ◌≡◌, refl, arith, [], ◌∷◌, Bytes, length, All,
}

-- The `k` bytes of `n`, the highest first.
abbrev pub put_be : ℕ → ℕ → Bytes
put_be zero n = []
put_be (suc k) n = (n / 256 ^ k % 256) ∷ put_be k n

abbrev uint_onto : ℕ → Bytes → ℕ
uint_onto acc [] = acc
uint_onto acc (b ∷ bs) = uint_onto (acc * 256 + b) bs

-- binary.BigEndian.Uint16, Uint32 and Uint64, by the length of the slice.
abbrev pub uint_be : Bytes → ℕ
uint_be = uint_onto 0

pub length-put_be : (k n : ℕ) → length (put_be k n) ≡ k
length-put_be zero n = refl
length-put_be (suc k) n = omega (arith, length-put_be k n)

pub put_be-bytes : (k n : ℕ) → All (λ b. b < 256) (put_be k n)
put_be-bytes zero n = tt
put_be-bytes (suc k) n = (omega arith, put_be-bytes k n)

pub uint_be-put_be_2 : (n : ℕ) → n < 2 ^ 16 → uint_be (put_be 2 n) ≡ n
uint_be-put_be_2 n h = omega arith

pub uint_be-put_be_4 : (n : ℕ) → n < 2 ^ 32 → uint_be (put_be 4 n) ≡ n
uint_be-put_be_4 n h = omega arith

pub uint_be-put_be_8 : (n : ℕ) → n < 2 ^ 64 → uint_be (put_be 8 n) ≡ n
uint_be-put_be_8 n h = omega arith
