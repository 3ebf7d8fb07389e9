-- ===== src/Header/Insertion.antt =====
-- A sort that keeps the contract of sort.Sort: insertion sort, which sort.Sort is on short lists.
use mathlib.Core.List.{Perm, List}
use go_rpm.Base.{ℕ, List, ◌∷◌, ◌≤◌, All, Bool-cases, [], if◌then◌else◌, arith, leb, inl, inr}
use go_rpm.Header.Sort.{IsSort, IsAscending}
use go_rpm.Tag.{Tag}
use mathlib.Core.List.Perm

unfoldable pub insert_tag : Tag → List Tag → List Tag
insert_tag t [] = t ∷ []
insert_tag t (u ∷ us) = if leb t.head.offset u.head.offset then t ∷ u ∷ us else u ∷ insert_tag t us

unfoldable pub insertion_sort : List Tag → List Tag
unfolding insert_tag
insertion_sort [] = []
insertion_sort (t ∷ ts) = insert_tag t (insertion_sort ts)

insert_tag-perm : (t : Tag) (us : List Tag) → Perm (insert_tag t us) (t ∷ us)
unfolding insert_tag
insert_tag-perm t [] = Perm.refl (t ∷ [])
insert_tag-perm t (u ∷ us) = elim (Bool-cases (leb t.head.offset u.head.offset)) [
  | inl le ↦ rw le (Perm.refl (t ∷ u ∷ us))
  | inr gt ↦ rw gt (Perm.trans (Perm.cons u (insert_tag-perm t us)) (Perm.swap t u us))
]

insertion_sort-perm : (ts : List Tag) → Perm (insertion_sort ts) ts
unfolding insertion_sort
insertion_sort-perm [] = Perm.refl []
insertion_sort-perm (t ∷ ts) =
    Perm.trans (insert_tag-perm t (insertion_sort ts)) (Perm.cons t (insertion_sort-perm ts))

insert_tag-All :
    (n : ℕ) (t : Tag) (us : List Tag)
    → n ≤ t.head.offset
    → All (λ u. n ≤ u.head.offset) us
    → All (λ u. n ≤ u.head.offset) (insert_tag t us)
unfolding insert_tag
insert_tag-All n t [] h a = (h, tt)
insert_tag-All n t (u ∷ us) h (b, a) = elim (Bool-cases (leb t.head.offset u.head.offset)) [
  | inl le ↦ rw le (h, (b, a))
  | inr gt ↦ rw gt (b, insert_tag-All n t us h a)
]

All-le_trans :
    (m n : ℕ) (us : List Tag)
    → m ≤ n
    → All (λ u. n ≤ u.head.offset) us
    → All (λ u. m ≤ u.head.offset) us
All-le_trans m n [] h a = tt
All-le_trans m n (u ∷ us) h (b, a) = (omega arith, All-le_trans m n us h a)

insert_tag-IsAscending : (t : Tag) (us : List Tag) → IsAscending us → IsAscending (insert_tag t us)
unfolding insert_tag
insert_tag-IsAscending t [] a = (tt, tt)
insert_tag-IsAscending t (u ∷ us) (b, a) = elim (Bool-cases (leb t.head.offset u.head.offset)) [
  | inl le ↦
      let h : t.head.offset ≤ u.head.offset = ground arith in
      rw le ((h, All-le_trans t.head.offset u.head.offset us h b), (b, a))
  | inr gt ↦
      rw gt (insert_tag-All u.head.offset t us (ground arith) b, insert_tag-IsAscending t us a)
]

insertion_sort-IsAscending : (ts : List Tag) → IsAscending (insertion_sort ts)
unfolding insertion_sort
insertion_sort-IsAscending [] = tt
insertion_sort-IsAscending (t ∷ ts) =
    insert_tag-IsAscending t (insertion_sort ts) (insertion_sort-IsAscending ts)

pub insertion_sort-IsSort : IsSort insertion_sort
insertion_sort-IsSort = record {
  permutes = insertion_sort-perm;
  ascends = insertion_sort-IsAscending;
}
