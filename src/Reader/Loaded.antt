-- ===== src/Reader/Loaded.antt =====
-- What the loops of the reader have read of any stream where they succeed: the tags' headers, and
-- their data one behind the other.
use go_rpm.Base.{
  ℕ, List, ◌≡◌, ◌≤◌, ◌<◌, ◌+◌, ◌-◌, refl, arith, true, ap, subst, All, All-map, [], ◌∷◌, map,
}
use go_rpm.Io.Ensures.{Ensures, Ensures-bind, Reads-none, Reads-trans}
use go_rpm.Tag.{Tag, TagHeader}
use go_rpm.Tag.ReadBack.{IsAhead}
use go_rpm.Tag.Accepted.{IsCounted}
use go_rpm.Reader.{Reader, read_data, read_all_data, data_end, tag_aligned}
use go_rpm.Reader.Accepted.{Steps, IsReadFrom, read_data-IsReadFrom}

pub Steps-none : (s : Reader) → Steps 0 s s
Steps-none s = record { stream = Reads-none s.r; counted = omega arith }

pub Steps-trans :
    {n m : ℕ} {s s' s'' : Reader} → Steps n s s' → Steps m s' s'' → Steps (n + m) s s''
Steps-trans h k = record {
  stream = Reads-trans h.stream k.stream;
  counted = omega (arith, h.counted, k.counted);
}

-- Each tag's offset is before the next one's, and the last before `size`.
abbrev pub IsRising : ℕ → List Tag → Type 0
IsRising size [] = Unit {0}
IsRising size (t ∷ ts) = (t.head.offset < data_end size ts) × IsRising size ts

-- The tags `ts'` are `ts` with their data, which were read one behind the other from `base` on.
pub record IsLoaded (size base : ℕ) (ts : List Tag) (s : Reader) (ts' : List Tag) (s' : Reader)
    : Type 0 where
  pub heads : map (λ (t : Tag). t.head) ts' ≡ map (λ (t : Tag). t.head) ts
  pub rising : IsRising size ts'
  pub first : data_end size ts' ≡ data_end size ts
  pub counted : All (λ t. IsCounted t.head t.body) ts'
  pub aligned : All (λ t. tag_aligned t.head.type t.off ≡ true) ts'
  pub placed : All (λ t. t.off + base ≡ s.off + t.head.offset) ts'
  pub within : data_end size ts ≤ size
  pub steps : Steps (size - data_end size ts) s s'

module _ {ahead : ℕ → ℕ → ℕ} (law : IsAhead ahead) where
  pub read_all_data-IsLoaded :
      (size : ℕ) (ts : List Tag) (s : Reader)
      → Ensures (IsLoaded size (data_end size ts) ts s) (read_all_data ahead size ts s)
  unfolding read_all_data
  read_all_data-IsLoaded size [] s =
      let none_left : 0 ≡ size - size = omega arith in
      record {
        heads = refl;
        rising = tt;
        first = refl;
        counted = tt;
        aligned = tt;
        placed = tt;
        within = omega arith;
        steps = subst (λ (n : ℕ). Steps n s s) none_left (Steps-none s);
      }
  read_all_data-IsLoaded size (t ∷ ts) s =
      let nt : ℕ = data_end size ts in
      Ensures-bind (IsReadFrom t nt s) _ (read_data ahead t nt s) _
        (read_data-IsReadFrom law t nt s)
        λ t' s1 h.
          Ensures-bind (IsLoaded size nt ts s1) _ (read_all_data ahead size ts s1) _
            (read_all_data-IsLoaded size ts s1)
            λ ts' s2 k.
              let total : nt - t.head.offset + (size - nt) ≡ size - t.head.offset =
                omega (arith, h.before, k.within) in
              record {
                heads = λ i. h.same i ∷ k.heads i;
                rising = (rw (h.same, k.first) h.before, k.rising);
                first = ap (λ (x : TagHeader). x.offset) h.same;
                counted = (rw h.same h.counted, k.counted);
                aligned = (rw (h.same, h.placed) h.aligned, k.aligned);
                placed = (
                  omega (arith, h.placed, ap (λ (x : TagHeader). x.offset) h.same),
                  All-map (λ u p. omega (arith, h.before, k.within, h.steps.counted)) ts' k.placed,
                );
                within = omega (arith, h.before, k.within);
                steps = subst (λ (n : ℕ). Steps n s s2) total (Steps-trans h.steps k.steps);
              }
