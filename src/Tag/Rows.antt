-- ===== src/Tag/Rows.antt =====
-- The rows of the dump of a string array, and the strings that they tell.
use go_rpm.Base.{
  ℕ, Bytes, Bool, List, [], ◌∷◌, ◌++◌, ◌&&◌, ◌≡◌, ◌+◌, ◌==◌, not, Option, none, some, subst, inl,
  inr, true, false, ltb, bytes_eq, bytes_eq_iff, replicate, suc, zero, refl, sym, ap, ◌∙◌,
  append-nil, arith, Bool-cases,
}

-- A row of the dump of a string array: a string with its place, or how often it was repeated.
pub data ArrayRow : Type 0 where
  line : ℕ → Bytes → ArrayRow
  again : ℕ → ArrayRow

abbrev pub count_row : ℕ → List ArrayRow
count_row zero = []
count_row (suc n) = again (suc n) ∷ []

-- The rows of the strings from place `i` on.
unfoldable pub array_rows : List Bytes → ℕ → Bytes → ℕ → List ArrayRow
array_rows [] i lv li = count_row li
array_rows (v ∷ vs) i lv li = elim (bytes_eq lv v && ltb 0 i) [
  | true ↦ array_rows vs (i + 1) lv (li + 1)
  | false ↦ count_row li ++ line i v ∷ array_rows vs (i + 1) v 0
]

abbrev pub add_strings : List Bytes → Option (List Bytes) → Option (List Bytes)
add_strings us none = none
add_strings us (some vs) = some (us ++ vs)

-- The strings that rows tell, from place `i` on and behind the string `lv`: none where a row has a
-- string with another place, or the same string as the row before it.
unfoldable pub strings_of : List ArrayRow → ℕ → Bytes → Option (List Bytes)
strings_of [] i lv = some []
strings_of (line j v ∷ rs) i lv = elim (j == i && not (bytes_eq lv v && ltb 0 i)) [
  | true ↦ add_strings (v ∷ []) (strings_of rs (i + 1) v)
  | false ↦ none
]
strings_of (again n ∷ rs) i lv = add_strings (replicate n lv) (strings_of rs (i + n) lv)

add_strings_nil : (o : Option (List Bytes)) → add_strings [] o ≡ o
add_strings_nil none = refl
add_strings_nil (some vs) = refl

strings_of-count_row :
    (li i : ℕ) (lv : Bytes) (rs : List ArrayRow)
    → strings_of (count_row li ++ rs) i lv
      ≡ add_strings (replicate li lv) (strings_of rs (i + li) lv)
unfolding strings_of
strings_of-count_row zero i lv rs =
    let same : i + 0 ≡ i = omega arith in rw same (sym (add_strings_nil (strings_of rs i lv)))
strings_of-count_row (suc n) i lv rs = refl

strings_of-line :
    (i : ℕ) (v lv : Bytes) (rs : List ArrayRow)
    → (bytes_eq lv v && ltb 0 i) ≡ false
    → strings_of (line i v ∷ rs) i lv ≡ add_strings (v ∷ []) (strings_of rs (i + 1) v)
unfolding strings_of
strings_of-line i v lv rs other =
    let here : (i == i) ≡ true = ground arith in rw (strings_of, here, other) refl

replicate-middle :
    (n : ℕ) (v : Bytes) (vs : List Bytes) → replicate (n + 1) v ++ vs ≡ replicate n v ++ v ∷ vs
replicate-middle zero v vs = refl
replicate-middle (suc n) v vs =
    let e : suc n + 1 ≡ suc (n + 1) = omega arith in rw e (ap (◌∷◌ v) (replicate-middle n v vs))

-- Rows that begin `li` places before place `i`, with the repeats of `lv`.
pub strings_of-array_rows :
    (vs : List Bytes) (j : ℕ) (lv : Bytes) (li : ℕ)
    → strings_of (array_rows vs (j + li) lv li) j lv ≡ some (replicate li lv ++ vs)
unfolding array_rows strings_of
strings_of-array_rows [] j lv li =
    ap (λ (rs : List ArrayRow). strings_of rs j lv) (sym (append-nil (count_row li)))
    ∙ strings_of-count_row li j lv []
strings_of-array_rows (v ∷ vs) j lv li = elim (Bool-cases (bytes_eq lv v && ltb 0 (j + li))) [
  | inl same ↦
      let e : lv ≡ v = (bytes_eq_iff lv v).0 (both (bytes_eq lv v) (ltb 0 (j + li)) same) in
      let place : j + li + 1 ≡ j + (li + 1) = omega arith in
      rw (same, array_rows, place)
        (strings_of-array_rows vs j lv (li + 1)
          ∙ ap some (replicate-middle li lv vs)
          ∙ ap (λ (u : Bytes). some (replicate li lv ++ u ∷ vs)) e)
  | inr other ↦
      let k : ℕ = j + li in
      let next : k + 1 + 0 ≡ k + 1 = omega arith in
      let rest : strings_of (array_rows vs (k + 1) v 0) (k + 1) v ≡ some vs =
        subst (λ (m : ℕ). strings_of (array_rows vs m v 0) (k + 1) v ≡ some vs) next
          (strings_of-array_rows vs (k + 1) v 0) in
      rw (array_rows, other)
        (strings_of-count_row li j lv (line k v ∷ array_rows vs (k + 1) v 0)
          ∙ ap (add_strings (replicate li lv)) (
              strings_of-line k v lv (array_rows vs (k + 1) v 0) other
              ∙ ap (add_strings (v ∷ [])) rest))
]
  where
    both : (a b : Bool) → (a && b) ≡ true → a ≡ true
    both a b h = ground arith
