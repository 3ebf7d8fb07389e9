-- ===== src/Tag/Named.antt =====
-- What `TagType.String` gives, for every number.
use go_rpm.Base.{
  ℕ, zero, suc, Bytes, Bool, List, Option, none, some, [], ◌∷◌, ◌==◌, ◌&&◌, ◌||◌, ◌≡◌, ◌<◌, ◌+◌,
  ◌-◌, refl, arith, true, false, leb, bytes_eq, bytes_eq_iff, Bool-cases, inl, inr, if◌then◌else◌,
  subst, ap,
}
use go_rpm.Tag.Names.{tag_names, find_name, name_at, type_string, unnamed}
use go_rpm.Tag.Names.First.{first_names}
use go_rpm.Tag.Names.Middle.{middle_names}
use go_rpm.Tag.Names.Last.{last_names}
use go_rpm.Tag.Names.Joined.{
  type_name_0, type_name_1, type_name_2, type_name_3, type_name_4, type_name_5, type_name_6,
  type_name_7, type_index_0, type_index_2, type_index_4, type_index_5, type_index_6, type_index_7,
}

-- Both names are there, and they are the same.
abbrev same_name : Option Bytes → Option Bytes → Bool
same_name (some a) (some b) = bytes_eq a b
same_name none b = false
same_name (some a) none = false

-- The slices of a range of numbers from `lo` on are the names of its constants.
abbrev all_named : ℕ → Bytes → List ℕ → ℕ → Bool
all_named lo s index zero = true
all_named lo s index (suc n) =
    same_name (name_at s index n) (find_name (lo + n) tag_names) && all_named lo s index n

named_0 : all_named 61 type_name_0 type_index_0 4 ≡ true
unfolding name_at find_name tag_names bytes_eq type_name_0 type_index_0 first_names middle_names
    last_names
named_0 = refl

named_2 : all_named 256 type_name_2 type_index_2 16 ≡ true
unfolding name_at find_name tag_names bytes_eq type_name_2 type_index_2 first_names middle_names
    last_names
named_2 = refl

named_4 : all_named 1000 type_name_4 type_index_4 70 ≡ true
unfolding name_at find_name tag_names bytes_eq type_name_4 type_index_4 first_names middle_names
    last_names
named_4 = refl

named_5 : all_named 1079 type_name_5 type_index_5 118 ≡ true
unfolding name_at find_name tag_names bytes_eq type_name_5 type_index_5 first_names middle_names
    last_names
named_5 = refl

named_6 : all_named 5000 type_name_6 type_index_6 28 ≡ true
unfolding name_at find_name tag_names bytes_eq type_name_6 type_index_6 first_names middle_names
    last_names
named_6 = refl

named_7 : all_named 5029 type_name_7 type_index_7 69 ≡ true
unfolding name_at find_name tag_names bytes_eq type_name_7 type_index_7 first_names middle_names
    last_names
named_7 = refl

-- The ranges of the switch.
abbrev in_ranges : ℕ → Bool
in_ranges i =
    (leb 61 i && leb i 64)
    || ((i == 100)
        || ((leb 256 i && leb i 271)
            || ((i == 273)
                || ((leb 1000 i && leb i 1069)
                    || ((leb 1079 i && leb i 1196)
                        || ((leb 5000 i && leb i 5027) || (leb 5029 i && leb i 5097)))))))

abbrev all_in : List (ℕ × Bytes) → Bool
all_in [] = true
all_in ((n, v) ∷ m) = in_ranges n && all_in m

tag_names_in : all_in tag_names ≡ true
unfolding tag_names first_names middle_names last_names
tag_names_in = refl

and_left : (a b : Bool) → (a && b) ≡ true → a ≡ true
and_left a b h = ground arith

and_right : (a b : Bool) → (a && b) ≡ true → b ≡ true
and_right a b h = ground arith

-- A number in no range is that of no constant.
find_name-outside :
    (i : ℕ) (m : List (ℕ × Bytes)) → all_in m ≡ true → in_ranges i ≡ false → find_name i m ≡ none
unfolding find_name
find_name-outside i [] h out = refl
find_name-outside i ((n, v) ∷ m) h out = elim (Bool-cases (n == i)) [
  | inl e ↦
      let same : n ≡ i = ground arith in
      let inside : in_ranges i ≡ true =
        subst (λ (k : ℕ). in_ranges k ≡ true) same (and_left (in_ranges n) (all_in m) h) in
      cc
  | inr e ↦ rw e (find_name-outside i m (and_right (in_ranges n) (all_in m) h) out)
]

-- What `String` gives of a number: the name of the first constant that has it, where one does.
unfoldable pub named : (ℕ → Bytes) → ℕ → Option Bytes → Bytes
named decimal i none = unnamed decimal i
named decimal i (some v) = v

same_name-named :
    (decimal : ℕ → Bytes) (i : ℕ) (a b : Option Bytes)
    → same_name a b ≡ true
    → a ≡ some (named decimal i b)
unfolding named
same_name-named decimal i (some a) (some b) h = ap some ((bytes_eq_iff a b).0 h)
same_name-named decimal i none b h = cc
same_name-named decimal i (some a) none h = cc

all_named-below :
    (lo : ℕ) (s : Bytes) (index : List ℕ) (n k : ℕ)
    → all_named lo s index n ≡ true
    → k < n
    → same_name (name_at s index k) (find_name (lo + k) tag_names) ≡ true
all_named-below lo s index zero k h lt = absurd (omega arith)
all_named-below lo s index (suc n) k h lt = elim (Bool-cases (k == n)) [
  | inl e ↦
      let same : k ≡ n = ground arith in
      rw same (
        and_left (same_name (name_at s index n) (find_name (lo + n) tag_names))
          (all_named lo s index n) h)
  | inr e ↦
      all_named-below lo s index n k
        (and_right (same_name (name_at s index n) (find_name (lo + n) tag_names))
          (all_named lo s index n) h)
        (ground arith)
]

name_of_100 : find_name 100 tag_names ≡ some type_name_1
unfolding find_name tag_names first_names middle_names last_names type_name_1
name_of_100 = refl

name_of_273 : find_name 273 tag_names ≡ some type_name_3
unfolding find_name tag_names first_names middle_names last_names type_name_3
name_of_273 = refl

if-both :
    {A : Type 0} {a b r : A} (c : Bool)
    → (c ≡ true → a ≡ r)
    → (c ≡ false → b ≡ r)
    → (if c then a else b) ≡ r
if-both true h k = h refl
if-both false h k = k refl

module _ (decimal : ℕ → Bytes) where
  in_range :
      (i lo hi n : ℕ) (s : Bytes) (index : List ℕ)
      → all_named lo s index n ≡ true
      → n ≡ hi + 1 - lo
      → (leb lo i && leb i hi) ≡ true
      → name_at s index (i - lo) ≡ some (named decimal i (find_name i tag_names))
  in_range i lo hi n s index h size e =
      let back : lo + (i - lo) ≡ i = ground arith in
      same_name-named decimal i (name_at s index (i - lo)) (find_name i tag_names) (
        subst (λ (j : ℕ). same_name (name_at s index (i - lo)) (find_name j tag_names) ≡ true) back
          (all_named-below lo s index n (i - lo) h (ground arith)))

  single :
      (i n : ℕ) (s : Bytes)
      → (i == n) ≡ true
      → find_name n tag_names ≡ some s
      → some s ≡ some (named decimal i (find_name i tag_names))
  unfolding named
  single i n s e h = let same : i ≡ n = ground arith in rw (same, h) refl

  outside :
      (i : ℕ)
      → in_ranges i ≡ false
      → some (unnamed decimal i) ≡ some (named decimal i (find_name i tag_names))
  unfolding named
  outside i e = rw (find_name-outside i tag_names tag_names_in e) refl

  -- `String` of a TagType is the name of the first constant with its number, in the order of their
  -- declaration, where there is one, and the number in `TagType(`...`)` where there is none: for no
  -- number does it slice a string or an array out of its range.
  pub type_string-named :
      (i : ℕ) → type_string decimal i ≡ some (named decimal i (find_name i tag_names))
  unfolding type_string
  type_string-named i =
      if-both (leb 61 i && leb i 64) (in_range i 61 64 4 type_name_0 type_index_0 named_0 refl)
        λ e0.
          if-both (i == 100) (λ e. single i 100 type_name_1 e name_of_100)
            λ e1.
              if-both (leb 256 i && leb i 271)
                (in_range i 256 271 16 type_name_2 type_index_2 named_2 refl)
                λ e2.
                  if-both (i == 273) (λ e. single i 273 type_name_3 e name_of_273)
                    λ e3.
                      if-both (leb 1000 i && leb i 1069)
                        (in_range i 1000 1069 70 type_name_4 type_index_4 named_4 refl)
                        λ e4.
                          if-both (leb 1079 i && leb i 1196)
                            (in_range i 1079 1196 118 type_name_5 type_index_5 named_5 refl)
                            λ e5.
                              if-both (leb 5000 i && leb i 5027)
                                (in_range i 5000 5027 28 type_name_6 type_index_6 named_6 refl)
                                λ e6.
                                  if-both (leb 5029 i && leb i 5097)
                                    (in_range i 5029 5097 69 type_name_7 type_index_7 named_7 refl)
                                    λ e7. outside i (rw (e0, e1, e2, e3, e4, e5, e6, e7) refl)
