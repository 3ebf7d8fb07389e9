-- ===== src/Files/Paths.antt =====
-- The directories of a file index, and the paths that it stands for.
use go_rpm.Base.{
  zero, suc, length, ℕ, List, Bytes, ◌∷◌, get_or, ◌<◌, ◌≡◌, All, Option, ◌++◌, [], ◌+◌, ◌≢◌, some,
  Bool-cases, arith, bytes_eq, none, refl, inl, ap, bytes_eq_iff, inr, true, All-append,
  length-append, sym, append-nil, ◌≤◌,
}
use go_rpm.Files.{PrefixMap, find, def, index_found, index, root_dir}

-- The map holds each directory with its place in the list.
abbrev pub entries : ℕ → List Bytes → List (Bytes × ℕ)
entries i [] = []
entries i (d ∷ ds) = (d, i) ∷ entries (i + 1) ds

-- The map and the list of a prefixMap say the same, and no directory stands twice.
abbrev pub IsNew : Bytes → List Bytes → Type 0
IsNew d ds = All (λ e. e ≢ d) ds

abbrev pub IsDistinct : List Bytes → Type 0
IsDistinct [] = Unit {0}
IsDistinct (d ∷ ds) = All (λ e. d ≢ e) ds × IsDistinct ds

pub record IsPrefixMap (p : PrefixMap) : Type 0 where
  pub listed : p.m ≡ entries 0 p.s
  pub distinct : IsDistinct p.s

-- A directory and the rest of a path, for each file.
abbrev pub paths : List Bytes → List ℕ → List Bytes → List Bytes
paths s [] ns = []
paths s (i ∷ is) [] = []
paths s (i ∷ is) (n ∷ ns) = (get_or s i [] ++ n) ∷ paths s is ns

pub entries-append :
    (i : ℕ) (ds : List Bytes) (d : Bytes)
    → entries i (ds ++ d ∷ []) ≡ entries i ds ++ (d, i + length ds) ∷ []
entries-append i [] d = let here : i ≡ i + 0 = omega arith in ap (λ (n : ℕ). (d, n) ∷ []) here
entries-append i (e ∷ ds) d =
    let next : i + 1 + length ds ≡ i + length (e ∷ ds) = omega arith in
    rw (entries-append (i + 1) ds d, next)

length-entries : (i : ℕ) (ds : List Bytes) → length (entries i ds) ≡ length ds
length-entries i [] = refl
length-entries i (d ∷ ds) = rw (length-entries (i + 1) ds)

get_or-append : (s : List Bytes) (d : Bytes) → get_or (s ++ d ∷ []) (length s) [] ≡ d
get_or-append [] d = refl
get_or-append (e ∷ s) d = get_or-append s d

get_or_grown : (s t : List Bytes) (i : ℕ) → i < length s → get_or (s ++ t) i [] ≡ get_or s i []
get_or_grown [] t i h = absurd (omega arith)
get_or_grown (e ∷ s) t zero h = refl
get_or_grown (e ∷ s) t (suc i) h = get_or_grown s t i (omega arith)

-- More directories change no path.
pub paths_grown :
    (s t : List Bytes) (is : List ℕ) (ns : List Bytes)
    → All (λ i. i < length s) is
    → paths (s ++ t) is ns ≡ paths s is ns
paths_grown s t [] ns h = refl
paths_grown s t (i ∷ is) [] h = refl
paths_grown s t (i ∷ is) (n ∷ ns) (p, h) = rw (get_or_grown s t i p, paths_grown s t is ns h)

pub paths-append :
    (s : List Bytes) (is : List ℕ) (ns : List Bytes) (i : ℕ) (n : Bytes)
    → length is ≡ length ns
    → paths s (is ++ i ∷ []) (ns ++ n ∷ []) ≡ paths s is ns ++ (get_or s i [] ++ n) ∷ []
paths-append s [] [] i n h = refl
paths-append s [] (m ∷ ns) i n h = absurd (omega arith)
paths-append s (j ∷ is) [] i n h = absurd (omega arith)
paths-append s (j ∷ is) (m ∷ ns) i n h = rw (paths-append s is ns i n (omega arith))

-- What a search in the map finds: the place of the directory, or that it is new.
abbrev IsFound : ℕ → List Bytes → Bytes → Option ℕ → Type 0
IsFound k s d none = IsNew d s
IsFound k s d (some i) = (j : ℕ) × (i ≡ k + j) × (j < length s) × (get_or s j [] ≡ d)

behind :
    (k : ℕ) (s : List Bytes) (e d : Bytes) (r : Option ℕ)
    → e ≢ d
    → IsFound (k + 1) s d r
    → IsFound k (e ∷ s) d r
behind k s e d none ne h = (ne, h)
behind k s e d (some i) ne (j, at', lt, eq') = (suc j, omega arith, omega arith, eq')

find-entries : (k : ℕ) (s : List Bytes) (d : Bytes) → IsFound k s d (find d (entries k s))
unfolding find
find-entries k [] d = tt
find-entries k (e ∷ s) d = elim (Bool-cases (bytes_eq e d)) [
  | inl same ↦ rw same (0, omega arith, omega arith, (bytes_eq_iff e d).0 same)
  | inr other ↦ rw other (
      behind k s e d (find d (entries (k + 1) s))
        (λ same. let yes : bytes_eq e d ≡ true = (bytes_eq_iff e d).1 same in cc)
        (find-entries (k + 1) s d))
]

IsDistinct-append :
    (ds : List Bytes) (d : Bytes) → IsDistinct ds → IsNew d ds → IsDistinct (ds ++ d ∷ [])
IsDistinct-append [] d h new = (tt, tt)
IsDistinct-append (e ∷ ds) d (h, hs) (n, new) =
    (All-append (λ x. e ≢ x) ds (d ∷ []) h (n, tt), IsDistinct-append ds d hs new)

-- The directory and the name of a path.
abbrev pub dir_of : (Bytes → Bytes × Bytes) → Bytes → Bytes
dir_of split file = def (split file).0 [] root_dir

-- What `index` returns is the place of the path's directory.
pub record IsIndexed (split : Bytes → Bytes × Bytes) (file : Bytes) (p : PrefixMap)
    (r : (Bytes × ℕ) × PrefixMap) : Type 0 where
  pub map : IsPrefixMap r.1
  pub rest : r.0.0 ≡ (split file).1
  pub place : r.0.1 < length r.1.s
  pub dir : get_or r.1.s r.0.1 [] ≡ dir_of split file
  pub grown : (t : List Bytes) × (r.1.s ≡ p.s ++ t)
  pub few : length r.1.s ≤ length p.s + 1

index_found-IsIndexed :
    (split : Bytes → Bytes × Bytes) (file : Bytes) (p : PrefixMap) (o : Option ℕ)
    → IsPrefixMap p
    → IsFound 0 p.s (dir_of split file) o
    → IsIndexed split file p (index_found (split file).1 (dir_of split file) o p)
unfolding index_found
index_found-IsIndexed split file p none h new =
    let d : Bytes = dir_of split file in
    let count : length p.m ≡ length p.s = rw (h.listed) (length-entries 0 p.s) in
    let start : 0 + length p.s ≡ length p.s = omega arith in
    rw count (record {
      map = record {
        listed = rw (entries-append 0 p.s d, start, h.listed);
        distinct = IsDistinct-append p.s d h.distinct new;
      };
      rest = refl;
      place = omega (arith, length-append p.s (d ∷ []));
      dir = get_or-append p.s d;
      grown = (d ∷ [], refl);
      few = omega (arith, length-append p.s (d ∷ []));
    })
index_found-IsIndexed split file p (some i) h (j, at', lt, dir) =
    let same : i ≡ j = omega arith in
    record {
      map = h;
      rest = refl;
      place = omega arith;
      dir = rw same dir;
      grown = ([], sym (append-nil p.s));
      few = omega arith;
    }

-- `index` keeps the map and the list of a prefixMap in step, and no directory is listed twice. It
-- returns the path's name, and the place in the list of the path's directory, or of "/" where that is
-- empty. Directories keep their places.
pub index-IsIndexed :
    (split : Bytes → Bytes × Bytes) (file : Bytes) (p : PrefixMap)
    → IsPrefixMap p
    → IsIndexed split file p (index split file p)
unfolding index
index-IsIndexed split file p h =
    index_found-IsIndexed split file p (find (dir_of split file) p.m) h
      (rw (h.listed) (find-entries 0 p.s (dir_of split file)))
