-- ===== src/Reader/Numbered.antt =====
-- A header's tags with their indices, and its region tag behind them: what is the same as without.
use mathlib.Core.List.{Perm, perm_middle}
use go_rpm.Tag.{Tag}
use go_rpm.Reader.{split_last}
use go_rpm.Base.{
  List, ℕ, All, length, ◌++◌, ◌∷◌, map, ◌≤◌, arith, [], ◌+◌, ◌≡◌, some, refl, append-nil,
  append_assoc, zeros, ◌<◌, ap,
}
use go_rpm.Header.Sort.{IsSort, IsStrict, sorted_unique}
use go_rpm.Header.Written.{laid_data, tag_headers, length-laid_data}
use go_rpm.Header.Layout.{IsLaid, gap, data_size}
use go_rpm.Reader.Loop.{numbered, fresh}
use go_rpm.Tag.Written.{data_bytes}
use mathlib.Core.List.Perm

module _ {κ} {P : Tag → Type κ} (same : (t : Tag) (i : ℕ) → P t → P (record t { idx = i })) where
  pub All-numbered : (i : ℕ) (ts : List Tag) → All P ts → All P (numbered i ts)
  All-numbered i [] h = tt
  All-numbered i (t ∷ ts) (p, h) = (same t i p, All-numbered (i + 1) ts h)

pub IsLaid-numbered :
    (i cur : ℕ) (ts : List Tag) (end : ℕ) → IsLaid cur ts end → IsLaid cur (numbered i ts) end
IsLaid-numbered i cur [] end h = h
IsLaid-numbered i cur (t ∷ ts) end (p, h) = (
  record { placed = p.placed; set_data = p.set_data },
  IsLaid-numbered (i + 1) (t.head.offset + data_size t) ts end h,
)

pub tag_headers-numbered : (i : ℕ) (ts : List Tag) → tag_headers (numbered i ts) ≡ tag_headers ts
tag_headers-numbered i [] = refl
tag_headers-numbered i (t ∷ ts) = rw (tag_headers-numbered (i + 1) ts)

pub laid_data-numbered :
    (i cur : ℕ) (ts : List Tag) → laid_data cur (numbered i ts) ≡ laid_data cur ts
laid_data-numbered i cur [] = refl
laid_data-numbered i cur (t ∷ ts) = rw (laid_data-numbered (i + 1) (t.head.offset + data_size t) ts)

pub length-numbered : (i : ℕ) (ts : List Tag) → length (numbered i ts) ≡ length ts
length-numbered i [] = refl
length-numbered i (t ∷ ts) = rw (length-numbered (i + 1) ts)

-- Data that need no alignment follow at once.
pub laid_data_concat :
    (cur : ℕ) (ts : List Tag) (end : ℕ) (t : Tag)
    → IsLaid cur ts end
    → gap t.head.type end ≡ 0
    → laid_data cur (ts ++ t ∷ []) ≡ laid_data cur ts ++ data_bytes t.body
laid_data_concat cur [] end t h e = rw (h, e) (append-nil (data_bytes t.body))
laid_data_concat cur (u ∷ ts) end t (p, h) e = rw (
  laid_data_concat (u.head.offset + data_size u) ts end t h e,
  append_assoc (zeros (gap u.head.type cur))
      (data_bytes u.body ++ laid_data (u.head.offset + data_size u) ts) (data_bytes t.body),
  append_assoc (data_bytes u.body) (laid_data (u.head.offset + data_size u) ts) (data_bytes t.body),
)

pub IsLaid-bounded :
    (cur : ℕ) (ts : List Tag) (end : ℕ) → IsLaid cur ts end → All (λ t. t.head.offset ≤ end) ts
IsLaid-bounded cur [] end h = tt
IsLaid-bounded cur (t ∷ ts) end (p, h) = (
  omega (arith, length-laid_data (t.head.offset + data_size t) ts end h),
  IsLaid-bounded (t.head.offset + data_size t) ts end h,
)

All-fresh :
    (n : ℕ) (ts : List Tag)
    → All (λ t. n < t.head.offset) ts
    → All (λ t. n < t.head.offset) (map fresh ts)
All-fresh n [] h = tt
All-fresh n (t ∷ ts) (p, h) = (p, All-fresh n ts h)

IsStrict-fresh : (ts : List Tag) → IsStrict ts → IsStrict (map fresh ts)
IsStrict-fresh [] h = tt
IsStrict-fresh (t ∷ ts) (p, h) = (All-fresh t.head.offset ts p, IsStrict-fresh ts h)

pub map_concat :
    (f : Tag → Tag) (ts : List Tag) (t : Tag) → map f (ts ++ t ∷ []) ≡ map f ts ++ f t ∷ []
map_concat f [] t = refl
map_concat f (u ∷ ts) t = ap (◌∷◌ (f u)) (map_concat f ts t)

-- Sorting by offset moves the region tag, whose data come last, from the front to the end.
pub sort-region :
    {sort : List Tag → List Tag} (law : IsSort sort) (reg : Tag) (ts : List Tag)
    → IsStrict (ts ++ reg ∷ [])
    → sort (map fresh (reg ∷ ts)) ≡ map fresh (ts ++ reg ∷ [])
sort-region {sort} law reg ts h =
    let moved : Perm (map fresh ts ++ fresh reg ∷ []) (fresh reg ∷ (map fresh ts ++ [])) =
      perm_middle (map fresh ts) [] in
    let moved_back : Perm (map fresh (reg ∷ ts)) (map fresh (ts ++ reg ∷ [])) =
      rw (map_concat fresh ts reg) (Perm.symm (rw append-nil at moved)) in
    sorted_unique (sort (map fresh (reg ∷ ts))) (map fresh (ts ++ reg ∷ []))
      (Perm.trans (law.permutes (map fresh (reg ∷ ts))) moved_back)
      (law.ascends (map fresh (reg ∷ ts))) (IsStrict-fresh (ts ++ reg ∷ []) h)

pub split_last_concat : (ts : List Tag) (t : Tag) → split_last (ts ++ t ∷ []) ≡ some (ts, t)
unfolding split_last
split_last_concat [] t = refl
split_last_concat (u ∷ ts) t = rw (split_last_concat ts t)
