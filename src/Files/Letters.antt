-- ===== src/Files/Letters.antt =====
-- files.go: `hexEncode`, which shows the bits of a number as letters.
use native.Mathlib.Nat.{pow-suc, div-div-eq-div-mul}
use go_rpm.Base.{
  ℕ, Bytes, bit_and, codes, ◌≡◌, ◌∷◌, All, ◌<◌, if◌then◌else◌, ◌^◌, ◌/◌, Bool-cases, bytes_eq, ◌+◌,
  ◌==◌, false, ◌%◌, ◌*◌, length, bit_and-one, ◌-◌, [], inl, arith, refl, inr, suc, subst,
  bytes_eq_iff, ap, ◌∙◌, ==_refl, sym, true,
}
use go_rpm.Files.{not_u32}

abbrev pub encode_hex : Bytes
encode_hex = codes "0123456789ABCDEFGHIJKLMNOPQRSTUV"

-- The loop, from the letter of bit `i` on.
unfoldable pub hex_loop : ℕ → Bytes → ℕ → Bytes
hex_loop i [] m = []
hex_loop i (v ∷ vs) m =
    let rest = hex_loop (i + 1) vs m in if bit_and (m / 2 ^ i) 1 == 0 then rest else v ∷ rest

unfoldable pub hex_encode : ℕ → Bytes
hex_encode m =
    if m == 0 then codes "-" else if not_u32 m == 0 then codes "!" else hex_loop 0 encode_hex m

-- Reads letters in the order of an alphabet, the first of which is worth one, the next two, and so on.
unfoldable pub sum_letters : Bytes → Bytes → ℕ
sum_letters [] s = 0
sum_letters (v ∷ vs) [] = 0
sum_letters (v ∷ vs) (x ∷ s) =
    let with_it = sum_letters vs s in
    let without = sum_letters vs (x ∷ s) in if x == v then 1 + 2 * with_it else 2 * without

-- The number that a text of `hexEncode` stands for.
unfoldable pub hex_decode : Bytes → ℕ
hex_decode s =
    if bytes_eq s (codes "-")
    then 0
    else if bytes_eq s (codes "!")
    then 2 ^ 32 - 1
    else sum_letters encode_hex s

-- The loop by halves.
unfoldable halves : Bytes → ℕ → Bytes
halves [] x = []
halves (v ∷ vs) x = let rest = halves vs (x / 2) in if x % 2 == 0 then rest else v ∷ rest

hex_loop-halves : (i : ℕ) (vs : Bytes) (m : ℕ) → hex_loop i vs m ≡ halves vs (m / 2 ^ i)
unfolding hex_loop halves
hex_loop-halves i [] m = refl
hex_loop-halves i (v ∷ vs) m =
    let succ : i + 1 ≡ suc i = omega arith in
    let next : m / 2 ^ (i + 1) ≡ m / 2 ^ i / 2 =
      ap (λ (n : ℕ). m / n) (ap (λ (j : ℕ). 2 ^ j) succ ∙ pow-suc 2 i)
      ∙ sym (div-div-eq-div-mul m (2 ^ i) 2) in
    rw (bit_and-one (m / 2 ^ i), hex_loop-halves (i + 1) vs m, next)

-- The letters are of the alphabet.
halves-All : (P : ℕ → Type 0) (vs : Bytes) (x : ℕ) → All P vs → All P (halves vs x)
unfolding halves
halves-All P [] x h = tt
halves-All P (v ∷ vs) x (p, h) = elim (Bool-cases (x % 2 == 0)) [
  | inl even ↦ rw even (halves-All P vs (x / 2) h)
  | inr odd ↦ rw odd (p, halves-All P vs (x / 2) h)
]

abbrev IsAlphabet : Bytes → Type 0
IsAlphabet [] = Unit {0}
IsAlphabet (v ∷ vs) = All (λ w. (w == v) ≡ false) vs × IsAlphabet vs

sum_letters_skip :
    (v : ℕ) (vs s : Bytes)
    → All (λ w. (w == v) ≡ false) s
    → sum_letters (v ∷ vs) s ≡ 2 * sum_letters vs s
unfolding sum_letters
sum_letters_skip v [] [] h = refl
sum_letters_skip v (w ∷ vs) [] h = refl
sum_letters_skip v vs (x ∷ s) (p, h) = rw p refl

sum_letters-halves :
    (vs : Bytes) (x : ℕ) → IsAlphabet vs → x < 2 ^ length vs → sum_letters vs (halves vs x) ≡ x
unfolding sum_letters halves
sum_letters-halves [] x a lt = omega arith
sum_letters-halves (v ∷ vs) x (p, a) lt =
    let short : x < 2 * 2 ^ length vs = omega (arith, pow-suc 2 (length vs)) in
    elim (Bool-cases (x % 2 == 0)) [
      | inl even ↦ rw even (
          sum_letters_skip v vs (halves vs (x / 2))
            (halves-All (λ w. (w == v) ≡ false) vs (x / 2) p)
          ∙ ground (arith, sum_letters-halves vs (x / 2) a (omega arith)))
      | inr odd ↦
          rw (odd, ==_refl v) (ground (arith, sum_letters-halves vs (x / 2) a (omega arith)))
    ]

encode_hex-IsAlphabet : IsAlphabet encode_hex
encode_hex-IsAlphabet = ground arith

-- No text of letters is a byte that is no letter.
other_text : (c : ℕ) (s : Bytes) → All (λ v. (v == c) ≡ false) s → bytes_eq s (c ∷ []) ≡ false
other_text c s h = elim (Bool-cases (bytes_eq s (c ∷ []))) [
  | inl same ↦ absurd (
      let (other, _) = subst (All (λ v. (v == c) ≡ false)) ((bytes_eq_iff s (c ∷ [])).0 same) h in
      let equal : (c == c) ≡ true = ==_refl c in cc)
  | inr other ↦ other
]

hex_decode-text :
    (s : Bytes)
    → All (λ v. (v == 0x2d) ≡ false) s
    → All (λ v. (v == 0x21) ≡ false) s
    → hex_decode s ≡ sum_letters encode_hex s
unfolding hex_decode
hex_decode-text s dash mark = rw (other_text 0x2d s dash, other_text 0x21 s mark) refl

hex_encode-halves :
    (m : ℕ) → (m == 0) ≡ false → (not_u32 m == 0) ≡ false → hex_encode m ≡ halves encode_hex m
unfolding hex_encode
hex_encode-halves m ne ne' =
    let whole : m / 2 ^ 0 ≡ m = omega arith in
    rw (ne, ne') (hex_loop-halves 0 encode_hex m ∙ ap (halves encode_hex) whole)

hex_decode-dash : hex_decode (hex_encode 0) ≡ 0
unfolding hex_decode hex_encode bytes_eq
hex_decode-dash = refl

hex_decode-mark : hex_decode (hex_encode (2 ^ 32 - 1)) ≡ 2 ^ 32 - 1
unfolding hex_decode hex_encode bytes_eq
hex_decode-mark = refl

-- The text of `hexEncode` tells every number below 2 ^ 32: reading its letters gives the number back.
pub hex_decode-hex_encode : (m : ℕ) → m < 2 ^ 32 → hex_decode (hex_encode m) ≡ m
hex_decode-hex_encode m lt = elim (Bool-cases (m == 0)) [
  | inl e ↦ let none_set : m ≡ 0 = ground arith in rw none_set hex_decode-dash
  | inr ne ↦ elim (Bool-cases (not_u32 m == 0)) [
    | inl e ↦ let all_set : m ≡ 2 ^ 32 - 1 = ground arith in rw all_set hex_decode-mark
    | inr ne' ↦ rw (hex_encode-halves m ne ne') (
        hex_decode-text (halves encode_hex m)
          (halves-All (λ v. (v == 0x2d) ≡ false) encode_hex m (ground arith))
          (halves-All (λ v. (v == 0x21) ≡ false) encode_hex m (ground arith))
        ∙ sum_letters-halves encode_hex m encode_hex-IsAlphabet (omega arith))
  ]
]
