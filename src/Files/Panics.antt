-- ===== src/Files/Panics.antt =====
-- Where `Dump` and `FileIndexHeader` panic.
use go_rpm.Files.Found.{index_tags-other, IsOtherTag}
use go_rpm.Base.{
  length, ℕ, Bytes, List, get_elem?, zero, suc, ◌<◌, ◌≡◌, subst, ◌≤◌, sym, ◌+◌, inl, none, inr, ◌⊎◌,
  ◌==◌, arith, ◌∷◌, some, false, [], refl, ◌++◌, All, ◌∙◌, Option,
}
use go_rpm.Io.{Op, Result, ok, err, after, pure}
use go_rpm.Tag.{Error, index_out_of_range, Tag, tag_uint32, tag_uint64}
use go_rpm.Files.{FileIndex, checked_lengths, first_mismatch, new_file_index}
use go_rpm.Files.Dump.{Row, shown, dump_rows, dump_index, file, column, dumped, arrow, element}
use go_rpm.Files.Append.{file_index_header, index_tags, index_tag, got_first}
use go_rpm.Tag.Getters.{int32, int64}
use go_rpm.Header.{Header}
use go_rpm.Tag.Numbers.{rpmtag_size, rpmtag_longsize}

-- A call that leaves the index alone, and returns a value with `P` or panics out of bounds.
abbrev Outcome : {A : Type 0} → FileIndex → (A → Type 0) → Result Error A × FileIndex → Type 0
Outcome f P (ok a, f') = (f' ≡ f) × P a
Outcome f P (err e, f') = (f' ≡ f) × (e ≡ index_out_of_range)

record IsRead {A : Type 0} (f : FileIndex) (P : A → Type 0) (reply : Result Error A × FileIndex)
    : Type 0 where
  outcome : Outcome f P reply

IsRead-bind :
    {A B : Type 0} (f : FileIndex) (P : A → Type 0) (Q : B → Type 0)
    (reply : Result Error A × FileIndex) (k : A → Op FileIndex Error B)
    → IsRead f P reply
    → ((a : A) → P a → IsRead f Q (k a f))
    → IsRead f Q (after k reply)
IsRead-bind f P Q (ok a, f') k h next =
    subst (λ (g : FileIndex). IsRead f Q (k a g)) (sym h.outcome.0) (next a h.outcome.1)
IsRead-bind f P Q (err x, f') k h next = record { outcome = h.outcome }

pure-IsRead : {A : Type 0} (f : FileIndex) (P : A → Type 0) (a : A) → P a → IsRead f P (ok a, f)
pure-IsRead f P a p = record { outcome = (refl, p) }

get_elem?-cases :
    {A : Type 0} (xs : List A) (i : ℕ)
    → (get_elem? xs i ≡ none) ⊎ ((i < length xs) × (a : A) × (get_elem? xs i ≡ some a))
get_elem?-cases [] i = inl refl
get_elem?-cases (x ∷ xs) zero = inr (omega arith, x, refl)
get_elem?-cases (x ∷ xs) (suc i) = elim (get_elem?-cases xs i) [
  | inl gone ↦ inl gone
  | inr (lt, a, got) ↦ inr (omega arith, a, got)
]

column-IsRead :
    {A : Type 0} (f : FileIndex) (xs : FileIndex → List A) (i : ℕ)
    → IsRead f (λ (a : A). i < length (xs f)) (column xs i f)
column-IsRead f xs i = elim (get_elem?-cases (xs f) i) [
  | inl gone ↦ rw gone (record { outcome = (refl, refl) })
  | inr (lt, a, got) ↦ rw got (record { outcome = (refl, lt) })
]

-- An element, and then what does not depend on there being one.
then-IsRead :
    {A B : Type 0} (f : FileIndex) (Q : B → Type 0) (o : Option A) (k : A → Op FileIndex Error B)
    → ((a : A) → IsRead f Q (k a f))
    → IsRead f Q (after k (element o, f))
then-IsRead f Q none k h = record { outcome = (refl, refl) }
then-IsRead f Q (some a) k h = h a

module _ (path_join : Bytes → Bytes → Bytes) where
  file-IsRead : (f : FileIndex) (i : ℕ) → IsRead f (λ (b : Bytes). Unit {0}) (file path_join i f)
  unfolding file
  file-IsRead f i =
      let q : Bytes → Type 0 = λ b. Unit {0} in
      then-IsRead f q (get_elem? f.dir_indexes i) _ λ d. then-IsRead f q (get_elem? f.name i) _ λ n.
        then-IsRead f q (get_elem? f.linkto i) _ λ l.
          then-IsRead f q (get_elem? f.dir_names.s d) (λ s. pure (path_join s n ++ arrow l))
            λ s. pure-IsRead f q (path_join s n ++ arrow l) tt

  dump_index-IsRead :
      (f : FileIndex) (i : ℕ) → IsRead f (λ (r : Row). i < length f.mode) (dump_index path_join i f)
  unfolding dump_index
  dump_index-IsRead f i =
      let q : Row → Type 0 = λ r. i < length f.mode in
      then-IsRead f q (get_elem? f.verify i) _ λ v. then-IsRead f q (get_elem? f.flags i) _ λ x.
        then-IsRead f q (get_elem? f.digest i) _ λ d.
          IsRead-bind f _ q _ _ (column-IsRead f (λ g. g.mode) i) λ m lt.
            then-IsRead f q (get_elem? f.user i) _ λ u. then-IsRead f q (get_elem? f.group i) _ λ g.
              then-IsRead f q (get_elem? f.mtime i) _ λ t.
                IsRead-bind f _ q _ (λ p. dumped v x d m u g t p i) (file-IsRead f i)
                  λ p _. pure-IsRead f q _ lt

  dump_rows-IsRead :
      (f : FileIndex) (ns : List Bytes) (i : ℕ)
      → i ≤ length f.mode
      → IsRead f (λ (rs : List Row). i + length ns ≤ length f.mode) (dump_rows path_join ns i f)
  unfolding dump_rows
  dump_rows-IsRead f [] i le = record { outcome = (refl, omega arith) }
  dump_rows-IsRead f (n ∷ ns) i le = IsRead-bind f _ _ _ _ (dump_index-IsRead f i) λ r lt.
      IsRead-bind f _ _ _ _ (dump_rows-IsRead f ns (i + 1) (omega arith))
        λ rs le'. pure-IsRead f _ (r ∷ rs) (omega arith)

  panicked :
      {A : Type 0} (f : FileIndex) (P : A → Type 0) (reply : Result Error A × FileIndex)
      → IsRead f P reply
      → ((a : A) → P a → ⊥)
      → reply ≡ (err index_out_of_range, f)
  panicked f P (ok a, f') r h = absurd (h a r.outcome.1)
  panicked f P (err x, f') r h = λ i. (err (r.outcome.1 i), r.outcome.0 i)

  -- Making a row leaves the index as it is.
  pub dump_index-cases :
      (f : FileIndex) (i : ℕ)
      → ((row : Row) × (dump_index path_join i f ≡ (ok row, f)))
        ⊎ ((e : Error) × (dump_index path_join i f ≡ (err e, f)))
  dump_index-cases f i = cases (dump_index path_join i f) (dump_index-IsRead f i)
    where
      cases :
          {P : Row → Type 0} (r : Result Error Row × FileIndex)
          → IsRead f P r
          → ((row : Row) × (r ≡ (ok row, f))) ⊎ ((e : Error) × (r ≡ (err e, f)))
      cases (ok row, f') h = inl (row, λ k. (ok row, h.outcome.0 k))
      cases (err e, f') h = inr (e, λ k. (err e, h.outcome.0 k))

  pub shown-panics :
      (f : FileIndex)
      → first_mismatch (length f.name) (checked_lengths f) ≡ none
      → length f.mode < length f.name
      → shown path_join f ≡ (err index_out_of_range, f)
  unfolding shown
  shown-panics f passed short =
      let some_name : (length f.name == 0) ≡ false = ground arith in
      rw (some_name, shown, passed)
        (panicked f _ _ (dump_rows-IsRead f f.name 0 (omega arith)) λ rs le. omega arith)

-- A header with a size tag that has no number, behind tags that are no columns of an index, makes
-- `FileIndexHeader` panic: an index is out of range.
pub file_index_header-panics :
    (hdr : Header) (ts us : List Tag) (t : Tag)
    → hdr.tags ≡ ts ++ t ∷ us
    → All IsOtherTag ts
    → ((t.head.tag ≡ rpmtag_size) × (t.body ≡ tag_uint32 []))
      ⊎ ((t.head.tag ≡ rpmtag_longsize) × (t.body ≡ tag_uint64 []))
    → file_index_header hdr ≡ err index_out_of_range
unfolding file_index_header index_tags index_tag got_first int32 int64
file_index_header-panics hdr ts us t tags other (inl (tag, body)) =
    rw tags (index_tags-other ts (t ∷ us) new_file_index other ∙ rw (tag, body) refl)
file_index_header-panics hdr ts us t tags other (inr (tag, body)) =
    rw tags (index_tags-other ts (t ∷ us) new_file_index other ∙ rw (tag, body) refl)
