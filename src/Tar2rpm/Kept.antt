-- ===== src/Tar2rpm/Kept.antt =====
-- tar2rpm.go: which of the dependencies `provides` and `requires` keep.
use go_rpm.Base.{
  ℕ, Bytes, Bool, List, All, [], ◌∷◌, ◌++◌, ◌==◌, ◌||◌, ◌≡◌, ◌⊎◌, true, false, inl, inr, refl,
  arith, map, bytes_eq, bytes_eq_iff, Bool-cases, ap, ◌∙◌, none, some, bit_or, ltb,
}
use go_rpm.Tar2rpm.{Sense, sense_flags, sense_rest, is_operator, flag_of, kept, is_seen}
use go_rpm.Tar2rpm.Senses.{
  mask, or_less, or_greater, or_equal, sense, sense_flags-bare, sense_flags-operator,
}

-- The elements that pass a test.
abbrev pub only : {A : Type 0} → (A → Bool) → List A → List A
only test [] = []
only test (x ∷ xs) = elim (test x) [ true ↦ x ∷ only test xs | false ↦ only test xs ]

only-pass :
    {A : Type 0} (test : A → Bool) (x : A) (xs : List A)
    → test x ≡ true
    → only test (x ∷ xs) ≡ x ∷ only test xs
only-pass test x xs h = rw (only, h) refl

only-miss :
    {A : Type 0} (test : A → Bool) (x : A) (xs : List A)
    → test x ≡ false
    → only test (x ∷ xs) ≡ only test xs
only-miss test x xs h = rw (only, h) refl

-- There is an operator in the dependency.
abbrev pub has_operator : Bytes → Bool
has_operator [] = false
has_operator (b ∷ s) = is_operator b || has_operator s

-- A sense with a flag.
abbrev pub is_flagged : Sense → Bool
is_flagged s = ltb 0 s.flags

-- A dependency is a name, or a name and an operator and the rest.
abbrev IsBare : Bytes → Type 0
IsBare p = All (λ b. is_operator b ≡ false) p

record IsSplitAt (p name : Bytes) (v : ℕ) (rest : Bytes) : Type 0 where
  bare : IsBare name
  hit : is_operator v ≡ true
  whole : p ≡ name ++ v ∷ rest

split_at :
    (p : Bytes) → IsBare p ⊎ ((name : Bytes) × (v : ℕ) × (rest : Bytes) × IsSplitAt p name v rest)
split_at [] = inl tt
split_at (b ∷ p) = elim (Bool-cases (is_operator b)) [
  | inl hit ↦ inr ([], b, p, record { bare = tt; hit = hit; whole = refl })
  | inr miss ↦ elim (split_at p) [
    | inl bare ↦ inl (miss, bare)
    | inr (name, v, rest, h) ↦ inr (
      b ∷ name,
      v,
      rest,
      record { bare = (miss, h.bare); hit = h.hit; whole = ap (λ (t : Bytes). b ∷ t) h.whole },
    )
  ]
]

has_operator-bare : (p : Bytes) → IsBare p → has_operator p ≡ false
has_operator-bare [] h = refl
has_operator-bare (b ∷ p) (e, h) = rw e (has_operator-bare p h)

has_operator-split :
    (name : Bytes) (v : ℕ) (rest : Bytes)
    → is_operator v ≡ true
    → has_operator (name ++ v ∷ rest) ≡ true
has_operator-split [] v rest h = rw h refl
has_operator-split (b ∷ name) v rest h = rw (has_operator-split name v rest h) ground arith

-- The flag that a byte sets, if it does, and how it changes the flags.
flag_of-cases :
    (v : ℕ)
    → (flag_of v ≡ none)
      ⊎ ((is_operator v ≡ true)
          × ((flag_of v ≡ some 2) ⊎ ((flag_of v ≡ some 4) ⊎ (flag_of v ≡ some 8))))
flag_of-cases v = elim (Bool-cases (v == 0x3c)) [
  | inl e ↦ rw e (inr (refl, inl refl))
  | inr e ↦ elim (Bool-cases (v == 0x3e)) [
    | inl e2 ↦ rw (e, e2) (inr (refl, inr (inl refl)))
    | inr e2 ↦ elim (Bool-cases (v == 0x3d)) [
      | inl e3 ↦ rw (e, e2, e3) (inr (refl, inr (inr refl)))
      | inr e3 ↦ rw (e, e2, e3) (inl refl)
    ]
  ]
]

sense_rest-some :
    (v : ℕ) (s : Bytes) (r : Sense) (flag : ℕ)
    → flag_of v ≡ some flag
    → sense_rest (v ∷ s) r ≡ sense_rest s (record r { flags = bit_or r.flags flag })
unfolding sense_rest
sense_rest-some v s r flag e = rw (sense_rest, e) refl

sense_rest-none :
    (v : ℕ) (s : Bytes) (r : Sense)
    → flag_of v ≡ none
    → sense_rest (v ∷ s) r ≡ record r { version = v ∷ s }
unfolding sense_rest
sense_rest-none v s r e = rw (sense_rest, e) refl

sense_rest-name : (s : Bytes) (r : Sense) → (sense_rest s r).name ≡ r.name
unfolding sense_rest
sense_rest-name [] r = refl
sense_rest-name (v ∷ s) r = elim (flag_of-cases v) [
  | inl e ↦ rw (sense_rest-none v s r e) refl
  | inr (hit, inl e) ↦ rw (sense_rest-some v s r 2 e) (sense_rest-name s _)
  | inr (hit, inr (inl e)) ↦ rw (sense_rest-some v s r 4 e) (sense_rest-name s _)
  | inr (hit, inr (inr e)) ↦ rw (sense_rest-some v s r 8 e) (sense_rest-name s _)
]

mask-positive : (l g e : Bool) → (l || (g || e)) ≡ true → ltb 0 (mask l g e) ≡ true
mask-positive true true true h = refl
mask-positive true true false h = refl
mask-positive true false true h = refl
mask-positive true false false h = refl
mask-positive false true true h = refl
mask-positive false true false h = refl
mask-positive false false true h = refl
mask-positive false false false h = cc

-- The flags of a sense with an operator stay, and an operator gives some.
sense_rest-is_flagged :
    (s : Bytes) (name version : Bytes) (l g e : Bool)
    → (l || (g || e)) ≡ true
    → is_flagged (sense_rest s (record { name = name; version = version; flags = mask l g e }))
      ≡ true
unfolding sense_rest
sense_rest-is_flagged [] name version l g e h = mask-positive l g e h
sense_rest-is_flagged (v ∷ s) name version l g e h =
    let r : Sense = record { name = name; version = version; flags = mask l g e } in
    elim (flag_of-cases v) [
      | inl none_set ↦ rw (sense_rest-none v s r none_set) (mask-positive l g e h)
      | inr (hit, inl set) ↦
          rw (sense_rest-some v s r 2 set, or_less l g e)
            (sense_rest-is_flagged s name version true g e refl)
      | inr (hit, inr (inl set)) ↦
          rw (sense_rest-some v s r 4 set, or_greater l g e)
            (sense_rest-is_flagged s name version l true e (ground arith))
      | inr (hit, inr (inr set)) ↦
          rw (sense_rest-some v s r 8 set, or_equal l g e)
            (sense_rest-is_flagged s name version l g true (ground arith))
    ]

-- What `senseFlags` makes of the two kinds of dependency: a name with no operator, and a flag where
-- there is one.
operator_flagged :
    (v : ℕ) (rest name : Bytes)
    → is_operator v ≡ true
    → is_flagged (sense_rest (v ∷ rest) (sense name [] false false false)) ≡ true
operator_flagged v rest name hit =
    let r : Sense = sense name [] false false false in
    elim (flag_of-cases v) [
      | inl unset ↦ absurd (no_flag v hit unset)
      | inr (h, inl set) ↦
          rw (sense_rest-some v rest r 2 set)
            (sense_rest-is_flagged rest name [] true false false refl)
      | inr (h, inr (inl set)) ↦
          rw (sense_rest-some v rest r 4 set)
            (sense_rest-is_flagged rest name [] false true false refl)
      | inr (h, inr (inr set)) ↦
          rw (sense_rest-some v rest r 8 set)
            (sense_rest-is_flagged rest name [] false false true refl)
    ]
  where
    no_flag : (v : ℕ) → is_operator v ≡ true → flag_of v ≡ none → ⊥
    no_flag v hit unset = ground arith

sense_flags-IsBare : (p : Bytes) → has_operator (sense_flags p).name ≡ false
sense_flags-IsBare p = elim (split_at p) [
  | inl bare ↦ rw (sense_flags-bare p bare) (has_operator-bare p bare)
  | inr (name, v, rest, h) ↦
      rw
        (
          h.whole,
          sense_flags-operator name v rest h.bare h.hit,
          sense_rest-name (v ∷ rest) (sense name [] false false false),
        )
        (has_operator-bare name h.bare)
]

sense_flags-is_flagged : (p : Bytes) → is_flagged (sense_flags p) ≡ has_operator p
sense_flags-is_flagged p = elim (split_at p) [
  | inl bare ↦ rw (sense_flags-bare p bare, has_operator-bare p bare) refl
  | inr (name, v, rest, h) ↦
      rw
        (
          h.whole,
          sense_flags-operator name v rest h.bare h.hit,
          has_operator-split name v rest h.hit,
        )
        (operator_flagged v rest name h.hit)
]

is_seen-has_operator :
    (p : Bytes) (seen : List Bytes)
    → has_operator p ≡ true
    → All (λ n. has_operator n ≡ false) seen
    → is_seen p seen ≡ false
unfolding is_seen
is_seen-has_operator p [] h k = refl
is_seen-has_operator p (n ∷ seen) h (bare, k) = elim (Bool-cases (bytes_eq n p)) [
  | inl same ↦
      let e : n ≡ p = (bytes_eq_iff n p).0 same in
      let both : has_operator n ≡ has_operator p = ap has_operator e in cc
  | inr other ↦ rw (other, is_seen-has_operator p seen h k) refl
]

only-kept :
    (ps seen : List Bytes)
    → All (λ n. has_operator n ≡ false) seen
    → only is_flagged (kept ps seen) ≡ map sense_flags (only has_operator ps)
unfolding kept
only-kept [] seen k = refl
only-kept (p ∷ ps) seen k =
    let flagged : is_flagged (sense_flags p) ≡ has_operator p = sense_flags-is_flagged p in
    let rest : only is_flagged (kept ps ((sense_flags p).name ∷ seen))
        ≡ map sense_flags (only has_operator ps) =
      only-kept ps ((sense_flags p).name ∷ seen) (sense_flags-IsBare p, k) in
    let ss : List Sense = kept ps ((sense_flags p).name ∷ seen) in
    elim (Bool-cases (has_operator p)) [
      | inl op ↦
          rw (kept, is_seen-has_operator p seen op k, only-pass has_operator p ps op)
            (only-pass is_flagged (sense_flags p) ss (flagged ∙ op)
              ∙ ap (λ (us : List Sense). sense_flags p ∷ us) rest)
      | inr bare ↦ elim (Bool-cases (is_seen p seen)) [
        | inl again ↦ rw (kept, again, only-miss has_operator p ps bare) (only-kept ps seen k)
        | inr new ↦
            rw (kept, new, only-miss has_operator p ps bare)
              (only-miss is_flagged (sense_flags p) ss (flagged ∙ bare) ∙ rest)
      ]
    ]

-- Of a list of dependencies, `provides` and `requires` keep all that have an operator, in their
-- order and as often as they are listed, whatever stands between them: those of the kept senses that
-- have a flag are just what `senseFlags` makes of these.
pub kept-has_operator :
    (ps : List Bytes) → only is_flagged (kept ps []) ≡ map sense_flags (only has_operator ps)
kept-has_operator ps = only-kept ps [] tt
