-- ===== src/Tar2rpm/Senses.antt =====
-- tar2rpm.go: what `senseFlags` makes of a dependency.
use go_rpm.Base.{
  length, ℕ, Bytes, bit_or, ◌≡◌, Bool, ◌∷◌, All, ◌⊎◌, if◌then◌else◌, ◌++◌, true, false, [], refl,
  ◌==◌, ◌+◌, ◌||◌, inl, inr, append-nil, arith, take-append_length, drop-append_length, ap, ◌∙◌,
  sym,
}
use go_rpm.Tar2rpm.{Sense, sense_flags, sense_rest, is_operator}
use go_rpm.Text.Words.{index_where-none, index_where-append}

-- The flags of senses that are less, greater or equal.
abbrev pub mask : Bool → Bool → Bool → ℕ
mask less greater equal =
    (if less then 2 else 0) + ((if greater then 4 else 0) + (if equal then 8 else 0))

abbrev pub has : ℕ → Bytes → Bool
has c [] = false
has c (v ∷ vs) = v == c || has c vs

abbrev pub mask_of : Bytes → ℕ
mask_of ops = mask (has 0x3c ops) (has 0x3e ops) (has 0x3d ops)

pub or_less : (l g e : Bool) → bit_or (mask l g e) 2 ≡ mask true g e
or_less true true true = refl
or_less true true false = refl
or_less true false true = refl
or_less true false false = refl
or_less false true true = refl
or_less false true false = refl
or_less false false true = refl
or_less false false false = refl

pub or_greater : (l g e : Bool) → bit_or (mask l g e) 4 ≡ mask l true e
or_greater true true true = refl
or_greater true true false = refl
or_greater true false true = refl
or_greater true false false = refl
or_greater false true true = refl
or_greater false true false = refl
or_greater false false true = refl
or_greater false false false = refl

pub or_equal : (l g e : Bool) → bit_or (mask l g e) 8 ≡ mask l g true
or_equal true true true = refl
or_equal true true false = refl
or_equal true false true = refl
or_equal true false false = refl
or_equal false true true = refl
or_equal false true false = refl
or_equal false false true = refl
or_equal false false false = refl

or_false : (b : Bool) → (b || false) ≡ b
or_false true = refl
or_false false = refl

or_true : (b : Bool) → (b || true) ≡ true
or_true true = refl
or_true false = refl

abbrev pub IsOperator : ℕ → Type 0
IsOperator v = (v ≡ 0x3c) ⊎ ((v ≡ 0x3e) ⊎ (v ≡ 0x3d))

-- A version does not begin with an operator.
abbrev pub IsVersion : Bytes → Type 0
IsVersion [] = Unit {0}
IsVersion (v ∷ vs) = is_operator v ≡ false

abbrev pub sense : Bytes → Bytes → Bool → Bool → Bool → Sense
sense name version l g e = record { name = name; version = version; flags = mask l g e }

sense_rest-version :
    (version : Bytes) (r : Sense)
    → r.version ≡ []
    → IsVersion version
    → sense_rest version r ≡ record r { version = version }
unfolding sense_rest
sense_rest-version [] r e h = λ i. record r { version = e i }
sense_rest-version (v ∷ vs) r e h =
    let less : (v == 0x3c) ≡ false = ground arith in
    let greater : (v == 0x3e) ≡ false = ground arith in
    let equal : (v == 0x3d) ≡ false = ground arith in rw (sense_rest, less, greater, equal) refl

sense_rest-operators :
    (ops version name : Bytes) (l g e : Bool)
    → All IsOperator ops
    → IsVersion version
    → sense_rest (ops ++ version) (sense name [] l g e)
      ≡ sense name version (l || has 0x3c ops) (g || has 0x3e ops) (e || has 0x3d ops)
unfolding sense_rest
sense_rest-operators [] version name l g e h p =
    rw (or_false l, or_false g, or_false e)
      (sense_rest-version version (sense name [] l g e) refl p)
sense_rest-operators (v ∷ ops) version name l g e (inl less, h) p =
    rw (less, or_less l g e, or_true l) (sense_rest-operators ops version name true g e h p)
sense_rest-operators (v ∷ ops) version name l g e (inr (inl greater), h) p =
    rw (greater, or_greater l g e, or_true g) (sense_rest-operators ops version name l true e h p)
sense_rest-operators (v ∷ ops) version name l g e (inr (inr equal), h) p =
    rw (equal, or_equal l g e, or_true e) (sense_rest-operators ops version name l g true h p)

pub sense_flags-bare :
    (name : Bytes)
    → All (λ b. is_operator b ≡ false) name
    → sense_flags name ≡ sense name [] false false false
unfolding sense_flags
sense_flags-bare name h = rw (sense_flags, index_where-none is_operator name h) refl

pub sense_flags-operator :
    (name : Bytes) (v : ℕ) (rest : Bytes)
    → All (λ b. is_operator b ≡ false) name
    → is_operator v ≡ true
    → sense_flags (name ++ v ∷ rest) ≡ sense_rest (v ∷ rest) (sense name [] false false false)
unfolding sense_flags sense_rest
sense_flags-operator name v rest h hit =
    rw
      (
        sense_flags,
        index_where-append is_operator name v rest h hit,
        take-append_length name (v ∷ rest) (length name) refl,
        drop-append_length name (v ∷ rest) (length name) refl,
      )
      refl

-- A dependency that is written as a name, operators and a version is taken apart into these, the
-- flags being those of the operators, where no operator is in the name, the version does not begin
-- with one, and there is no version where there are no operators.
pub sense_flags-append :
    (name ops version : Bytes)
    → All (λ b. is_operator b ≡ false) name
    → All IsOperator ops
    → IsVersion version
    → (ops ≡ [] → version ≡ [])
    → sense_flags (name ++ (ops ++ version))
      ≡ record { name = name; version = version; flags = mask_of ops }
unfolding sense_flags
sense_flags-append name [] version h o v alone =
    ap (λ (t : Bytes). sense_flags (name ++ t)) (alone refl)
    ∙ ap sense_flags (append-nil name)
    ∙ sense_flags-bare name h
    ∙ ap (λ (t : Bytes). sense name t false false false) (sym (alone refl))
sense_flags-append name (v ∷ ops) version h (o, os) p alone =
    sense_flags-operator name v (ops ++ version) h (ground arith)
    ∙ sense_rest-operators (v ∷ ops) version name false false false (o, os) p
