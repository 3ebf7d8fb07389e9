-- ===== src/Rpmdump/Dumpable.antt =====
-- The headers that `Next` accepts have data of their tags' types.
use go_rpm.Base.{
  ℕ, Bytes, List, Option, none, some, [], ◌∷◌, ◌++◌, ◌==◌, ◌||◌, ◌≡◌, refl, ap, sym, subst, All,
  All-of_append, inl, inr, Bool-cases,
}
use go_rpm.Io.{ok}
use go_rpm.Tag.{Tag, tag_bytes, bin_type, header_immutable, header_signatures}
use go_rpm.Tag.ReadBack.{IsAhead}
use go_rpm.Tag.Accepted.{IsCounted}
use go_rpm.Header.{Header, RpmHeaderPre, region_of, set_region, set_region_tag}
use go_rpm.Header.Sort.{IsSort}
use go_rpm.Reader.{Reader, next, split_last, split_region, behind_first}
use go_rpm.Reader.Sound.{next-IsFound}

abbrev pub Tagged : Tag → Type 0
Tagged t = IsCounted t.head t.body

abbrev IsBinRegion : Option Tag → Type 0
IsBinRegion none = Unit {0}
IsBinRegion (some t) = t.head.type ≡ bin_type

-- The tags have data of their types, and the region tag the type that `SetRegion` gives it.
abbrev pub IsDumpable : Header → Type 0
IsDumpable hdr = All Tagged hdr.tags × IsBinRegion hdr.region

-- The list is what is in front of its last element, and that element.
abbrev IsFront : List Tag → Option (List Tag × Tag) → Type 0
IsFront ts none = ts ≡ []
IsFront ts (some (front, lt)) = ts ≡ front ++ lt ∷ []

behind_first-IsFront :
    (t : Tag) (us : List Tag) (r : Option (List Tag × Tag))
    → IsFront us r
    → IsFront (t ∷ us) (behind_first t r)
behind_first-IsFront t us none h = ap (λ (x : List Tag). t ∷ x) h
behind_first-IsFront t us (some (front, lt)) h = ap (λ (x : List Tag). t ∷ x) h

split_last-IsFront : (ts : List Tag) → IsFront ts (split_last ts)
unfolding split_last
split_last-IsFront [] = refl
split_last-IsFront (t ∷ ts) = behind_first-IsFront t ts (split_last ts) (split_last-IsFront ts)

split_region-IsDumpable :
    (pre : RpmHeaderPre) (ts : List Tag) (r : Option (List Tag × Tag))
    → IsFront ts r
    → All Tagged ts
    → IsDumpable (split_region pre ts r)
unfolding split_region set_region_tag
split_region-IsDumpable pre ts none h c = (c, tt)
split_region-IsDumpable pre ts (some (front, lt)) h c =
    elim (Bool-cases (lt.head.tag == header_immutable || lt.head.tag == header_signatures)) [
      | inl e ↦ rw e ((All-of_append Tagged front (lt ∷ []) (subst (All Tagged) h c)).0, refl)
      | inr e ↦ rw e (c, tt)
    ]

pub next-IsDumpable :
    {ahead : ℕ → ℕ → ℕ} (law : IsAhead ahead) {sort : List Tag → List Tag} (sorts : IsSort sort)
    (s s' : Reader) (hdr : Header)
    → next ahead sort s ≡ (ok hdr, s')
    → IsDumpable hdr
next-IsDumpable law sorts s s' hdr e =
    let (pre, ts, h) = next-IsFound law sorts s hdr s' e in
    subst IsDumpable (sym h.split)
      (split_region-IsDumpable pre ts (split_last ts) (split_last-IsFront ts) h.counted)

-- What `Region` gives.
abbrev pub IsRegionTag : Option Tag → Type 0
IsRegionTag none = Unit {0}
IsRegionTag (some t) = (t.head.type ≡ bin_type) × ((b : Bytes) × (t.body ≡ tag_bytes b 0))

pub region_of-IsRegionTag :
    (hdr : Header) (r : Option Tag)
    → hdr.region ≡ r
    → IsBinRegion r
    → ((region_of hdr).0.tags ≡ hdr.tags) × IsRegionTag (region_of hdr).1
unfolding region_of set_region
region_of-IsRegionTag hdr none e b = rw e (refl, tt)
region_of-IsRegionTag hdr (some t) e b = rw e (refl, (b, (_, refl)))

pub region_of-pre :
    (hdr : Header) (r : Option Tag) → hdr.region ≡ r → (region_of hdr).0.pre ≡ hdr.pre
unfolding region_of set_region
region_of-pre hdr none e = rw e refl
region_of-pre hdr (some t) e = rw e refl
