-- ===== src/Io/Ensures.antt =====
-- What holds of an operation that succeeds, and how much of a stream it has read then.
use go_rpm.Base.{
  ℕ, length, take, drop, leb, ◌≡◌, ◌≤◌, ◌+◌, ◌-◌, refl, arith, Bool-cases, inl, inr, Option-cases,
  suc, zero, [], ◌∷◌, List, ◌∙◌, ap, drop_all, sym,
}
use go_rpm.Io.Defs.{Result, Op, ok, err, after, Stream, read_full, discard}

-- Where the operation returned with no error.
abbrev pub Ensures : {S E A : Type 0} → (A → S → Type 0) → Result E A × S → Type 0
Ensures P (ok a, s) = P a s
Ensures P (err e, s) = Unit {0}

module _ {S E A : Type 0} where
  pub Ensures-weaken :
      (P Q : A → S → Type 0) (r : Result E A × S)
      → Ensures P r
      → ((a : A) (s : S) → P a s → Q a s)
      → Ensures Q r
  Ensures-weaken P Q (ok a, s) p h = h a s p
  Ensures-weaken P Q (err e, s) p h = tt

  pub Ensures-ok :
      (P : A → S → Type 0) (r : Result E A × S) (a : A) (s : S)
      → Ensures P r
      → r ≡ (ok a, s)
      → P a s
  Ensures-ok P r a s p e = let all : Ensures P r = p in rw e at all

  pub Ensures-bind :
      {B : Type 0} (P : A → S → Type 0) (Q : B → S → Type 0) (r : Result E A × S) (f : A → Op S E B)
      → Ensures P r
      → ((a : A) (s : S) → P a s → Ensures Q (f a s))
      → Ensures Q (after f r)
  Ensures-bind P Q (ok a, s) f p h = h a s p
  Ensures-bind P Q (err e, s) f p h = tt

pub length-drop {ℓ} : {A : Type ℓ} (n : ℕ) (xs : List A) → length (drop n xs) ≡ length xs - n
length-drop zero xs = omega arith
length-drop (suc n) [] = omega arith
length-drop (suc n) (x ∷ xs) = omega (arith, length-drop n xs)

pub drop-drop {ℓ} : {A : Type ℓ} (m n : ℕ) (xs : List A) → drop m (drop n xs) ≡ drop (n + m) xs
drop-drop m zero xs = let e : zero + m ≡ m = omega arith in rw e
drop-drop m (suc n) [] =
    let e : suc n + m ≡ suc (n + m) = omega arith in rw e (drop_all [] m (omega arith))
drop-drop m (suc n) (x ∷ xs) =
    let e : suc n + m ≡ suc (n + m) = omega arith in rw e (drop-drop m n xs)

-- From `r` to `r'` just `n` bytes are read.
pub record Reads (n : ℕ) (r r' : Stream) : Type 0 where
  pub there : n ≤ length r.input
  pub left : r'.input ≡ drop n r.input
  pub same : r'.fault ≡ r.fault

pub Reads-none : (r : Stream) → Reads 0 r r
Reads-none r = record { there = omega arith; left = refl; same = refl }

pub Reads-trans :
    {n m : ℕ} {r r' r'' : Stream} → Reads n r r' → Reads m r' r'' → Reads (n + m) r r''
Reads-trans {n} {m} {r} {r'} {r''} h k = record {
  there = omega (arith, h.there, k.there, ap (length {A = ℕ}) h.left, length-drop n r.input);
  left = k.left ∙ ap (drop m) h.left ∙ drop-drop m n r.input;
  same = k.same ∙ h.same;
}

pub read_full-Reads :
    (n : ℕ) (r : Stream) → Ensures (λ b r'. Reads n r r' × (b ≡ take n r.input)) (read_full n r)
unfolding read_full
read_full-Reads n r = elim (Bool-cases (leb n (length r.input))) [
  | inl fits ↦ rw fits ((record { there = ground arith; left = refl; same = refl }, refl))
  | inr short ↦ elim (Option-cases r.fault) [
    | inl sound ↦ rw (short, sound) tt
    | inr (k, faulty) ↦ rw (short, faulty) tt
  ]
]

-- `discard` of `n` bytes reads as many as it says, at most `n`.
pub discard-Reads : (n : ℕ) (r : Stream) → Ensures (λ k r'. Reads k r r' × (k ≤ n)) (discard n r)
unfolding discard
discard-Reads n r = elim (Bool-cases (leb n (length r.input))) [
  | inl fits ↦ rw fits ((record { there = ground arith; left = refl; same = refl }, omega arith))
  | inr short ↦ elim (Option-cases r.fault) [
    | inl sound ↦
        let few : length r.input ≤ n = ground arith in
        rw (short, sound)
          ((
            record {
              there = omega arith;
              left = drop_all r.input n few ∙ sym (drop_all r.input (length r.input) (omega arith));
              same = sound;
            },
            few,
          ))
    | inr (k, faulty) ↦ rw (short, faulty) tt
  ]
]
