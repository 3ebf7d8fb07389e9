-- ===== src/Header/Sort.antt =====
-- sort.Sort over a header's tags: it promises a permutation in ascending order of the offsets.
use go_rpm.Tag.{Tag}
use mathlib.Core.List.{Mem, Perm, mem-cons, List, not-mem-nil, mem-cons_self}
use native.Mathlib.Bridge.{le_prop}
use go_rpm.Base.{ℕ, List, ◌∷◌, ◌≡◌, All, ◌≤◌, ◌<◌, sym, ap, [], arith, suc}
use mathlib.Core.List.Perm
use mathlib.Core.Logic.Or

-- `hdr.Less(i, j)` for no `j` before `i`.
abbrev pub IsAscending : List Tag → Type 0
IsAscending [] = Unit {0}
IsAscending (t ∷ ts) = All (λ u. t.head.offset ≤ u.head.offset) ts × IsAscending ts

-- The documented behaviour of sort.Sort, which need not be stable.
pub record IsSort (sort : List Tag → List Tag) : Type 0 where
  pub permutes : (ts : List Tag) → Perm (sort ts) ts
  pub ascends : (ts : List Tag) → IsAscending (sort ts)

abbrev pub IsStrict : List Tag → Type 0
IsStrict [] = Unit {0}
IsStrict (t ∷ ts) = All (λ u. t.head.offset < u.head.offset) ts × IsStrict ts

Tag-set : IsSet Tag
Tag-set = hlevel

All-le-mem :
    (n : ℕ) (ts : List Tag) (t : Tag)
    → All (λ u. n ≤ u.head.offset) ts
    → Mem t ts
    → n ≤ t.head.offset
All-le-mem n [] t h m = absurd (not-mem-nil m)
All-le-mem n (u ∷ ts) t (p, h) m =
    Or.elim le_prop (mem-cons.0 m) (λ e. rw e p) (All-le-mem n ts t h)

-- A strict order leaves a sort no choice.
pub sorted_unique : (ts us : List Tag) → Perm ts us → IsAscending ts → IsStrict us → ts ≡ us
sorted_unique [] us p a s = sym (Perm.eq-nil (Perm.symm p))
sorted_unique (t ∷ ts) [] p a s = Perm.eq-nil p
sorted_unique (t ∷ ts) (u ∷ us) p (at', a) (su, s) =
    let u_mem : Mem u (t ∷ ts) = (Perm.mem_iff p).1 mem-cons_self in
    let t_mem : Mem t (u ∷ us) = (Perm.mem_iff p).0 mem-cons_self in
    let le : t.head.offset ≤ u.head.offset =
      Or.elim le_prop (mem-cons.0 u_mem) (λ e. rw e (omega arith))
        (All-le-mem t.head.offset ts u at') in
    let same : t ≡ u =
      Or.elim (Tag-set t u) (mem-cons.0 t_mem) (λ e. e)
        (λ m. absurd (omega (arith, All-le-mem (suc u.head.offset) us t su m))) in
    rw same (ap (◌∷◌ u) (sorted_unique ts us (Perm.cons_inv (rw same at p)) a s))

-- Sorting tags whose offsets ascend strictly changes nothing.
pub sort_strict :
    {sort : List Tag → List Tag} (law : IsSort sort) (ts : List Tag) → IsStrict ts → sort ts ≡ ts
sort_strict {sort} law ts s = sorted_unique (sort ts) ts (law.permutes ts) (law.ascends ts) s
