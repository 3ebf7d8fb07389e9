-- ===== src/Files/Added.antt =====
-- What a file index holds of the files that were added to it.
use go_rpm.Files.{
  add, File, FileIndex, PrefixMap, index, not_u32, def, root_user, u32, add_all, first_mismatch,
  new_file_index, checked_lengths, values,
}
use go_rpm.Base.{
  suc, length, ℕ, List, Bytes, map, ◌≤◌, ◌<◌, ◌++◌, ◌≡◌, ◌∷◌, ◌+◌, All, ◌^◌, [], arith, ap, refl,
  ◌%◌, length-append, All-append, none, ◌∙◌, append-nil, ==_refl, get_or, append_assoc, sym,
}
use go_rpm.Files.Paths.{
  dir_of, IsPrefixMap, paths, IsIndexed, index-IsIndexed, paths_grown, paths-append,
}
use go_rpm.Header.{u32}

-- A file's path: its directory, "/" where that is empty, and its name.
abbrev pub path_of : (Bytes → Bytes × Bytes) → File → Bytes
path_of split r = dir_of split r.name ++ (split r.name).1

abbrev pub total_size : List File → ℕ
total_size [] = 0
total_size (r ∷ rs) = r.size + total_size rs

-- The index holds the files `rs`, in this order.
pub record IsIndexOf (split : Bytes → Bytes × Bytes) (rs : List File) (f : FileIndex) : Type 0 where
  pub dirs : IsPrefixMap f.dir_names
  pub within : All (λ i. i < length f.dir_names.s) f.dir_indexes
  pub few : length f.dir_names.s ≤ length rs
  pub lengths : (length f.dir_indexes ≡ length rs) × (length f.name ≡ length rs)
  pub places : paths f.dir_names.s f.dir_indexes f.name ≡ map (path_of split) rs
  pub modes : f.mode ≡ map (λ (r : File). r.mode) rs
  pub mtimes : f.mtime ≡ map (λ (r : File). r.m_time) rs
  pub links : f.linkto ≡ map (λ (r : File). r.link_to) rs
  pub digests : f.digest ≡ map (λ (r : File). r.digest) rs
  pub all_flags : f.flags ≡ map (λ (r : File). r.flags) rs
  pub verified : f.verify ≡ map (λ (r : File). not_u32 r.no_verify) rs
  pub users : f.user ≡ map (λ (r : File). def r.user [] root_user) rs
  pub groups : f.group ≡ map (λ (r : File). def r.group [] root_user) rs
  pub sizes : values f.lsize ≡ map (λ (r : File). r.size) rs
  pub total : f.rpmlsize ≡ total_size rs % 2 ^ 64

map_concat {ℓ κ} :
    {A : Type ℓ} {B : Type κ} (f : A → B) (xs : List A) (x : A)
    → map f xs ++ f x ∷ [] ≡ map f (xs ++ x ∷ [])
map_concat f [] x = refl
map_concat f (y ∷ xs) x = ap (◌∷◌ (f y)) (map_concat f xs x)

total_size_concat : (rs : List File) (r : File) → total_size (rs ++ r ∷ []) ≡ total_size rs + r.size
total_size_concat [] r = omega arith
total_size_concat (s ∷ rs) r = omega (arith, total_size_concat rs r)

pub All-weaken : (n m : ℕ) (is : List ℕ) → n ≤ m → All (λ i. i < n) is → All (λ i. i < m) is
All-weaken n m [] le h = tt
All-weaken n m (i ∷ is) le (p, h) = (omega arith, All-weaken n m is le h)

-- A list that follows the files, and the next file.
column :
    {A : Type 0} (g : File → A) (rs : List File) (r : File) (xs : List A)
    → xs ≡ map g rs
    → xs ++ g r ∷ [] ≡ map g (rs ++ r ∷ [])
column g rs r xs h = rw h (map_concat g rs r)

-- Adding a file to an index of the files `rs` makes an index of `rs` and the file, while there are at
-- most 2 ^ 32 of them.
pub add-IsIndexOf :
    (split : Bytes → Bytes × Bytes) (rs : List File) (f : FileIndex) (r : File)
    → IsIndexOf split rs f
    → length rs < 2 ^ 32
    → IsIndexOf split (rs ++ r ∷ []) (add split r f)
unfolding add
add-IsIndexOf split rs f r h lt =
    let q : (Bytes × ℕ) × PrefixMap = index split r.name f.dir_names in
    let i : IsIndexed split r.name f.dir_names q =
      index-IsIndexed split r.name f.dir_names h.dirs in
    let (t, grown) = i.grown in
    let more : length (rs ++ r ∷ []) ≡ length rs + 1 = length-append rs (r ∷ []) in
    let small : u32 q.0.1 ≡ q.0.1 = omega (arith, i.place, i.few, h.few) in
    let longer : length f.dir_names.s ≤ length q.1.s = rw (grown, length-append) (omega arith) in
    let kept : paths q.1.s f.dir_indexes f.name ≡ map (path_of split) rs =
      rw grown (paths_grown f.dir_names.s t f.dir_indexes f.name h.within) ∙ h.places in
    let last : get_or q.1.s (u32 q.0.1) [] ++ q.0.0 ≡ path_of split r = rw (small, i.dir, i.rest) in
    record {
      dirs = i.map;
      within =
          All-append (λ n. n < length q.1.s) f.dir_indexes (u32 q.0.1 ∷ [])
            (All-weaken (length f.dir_names.s) (length q.1.s) f.dir_indexes longer h.within)
            (rw small (i.place), tt);
      few = omega (arith, i.few, h.few);
      lengths = (
        omega (arith, length-append f.dir_indexes (u32 q.0.1 ∷ []), h.lengths.0),
        omega (arith, length-append f.name (q.0.0 ∷ []), h.lengths.1),
      );
      places =
          paths-append q.1.s f.dir_indexes f.name (u32 q.0.1) q.0.0
            (h.lengths.0 ∙ sym (h.lengths.1))
          ∙ ap (λ (ps : List Bytes). ps ++ (get_or q.1.s (u32 q.0.1) [] ++ q.0.0) ∷ []) kept
          ∙ ap (λ (path : Bytes). map (path_of split) rs ++ path ∷ []) last
          ∙ map_concat (path_of split) rs r;
      modes = column (λ (r : File). r.mode) rs r f.mode h.modes;
      mtimes = column (λ (r : File). r.m_time) rs r f.mtime h.mtimes;
      links = column (λ (r : File). r.link_to) rs r f.linkto h.links;
      digests = column (λ (r : File). r.digest) rs r f.digest h.digests;
      all_flags = column (λ (r : File). r.flags) rs r f.flags h.all_flags;
      verified = column (λ (r : File). not_u32 r.no_verify) rs r f.verify h.verified;
      users = column (λ (r : File). def r.user [] root_user) rs r f.user h.users;
      groups = column (λ (r : File). def r.group [] root_user) rs r f.group h.groups;
      sizes = column (λ (r : File). r.size) rs r (values f.lsize) h.sizes;
      total = omega (arith, total_size_concat rs r, h.total);
    }

add_all-IsIndexOf_from :
    (split : Bytes → Bytes × Bytes) (rs us : List File) (f : FileIndex)
    → IsIndexOf split rs f
    → length (rs ++ us) ≤ 2 ^ 32
    → IsIndexOf split (rs ++ us) (add_all split us f)
unfolding add_all
add_all-IsIndexOf_from split rs [] f h le = rw (append-nil rs) h
add_all-IsIndexOf_from split rs (u ∷ us) f h le = rw (← append_assoc rs (u ∷ []) us) (
    add_all-IsIndexOf_from split (rs ++ u ∷ []) us (add split u f)
      (add-IsIndexOf split rs f u h (omega (arith, length-append rs (u ∷ us))))
      (rw (append_assoc rs (u ∷ []) us) le))

-- Files that are added to a new index, at most 2 ^ 32 of them, stand in it in their order. Each
-- directory index and name together are the file's path, no directory is listed twice, and every
-- column holds the files' values: absent users and groups as root, the flags of what to verify
-- inverted, and the sizes with their sum modulo 2 ^ 64.
pub add_all-IsIndexOf :
    (split : Bytes → Bytes × Bytes) (rs : List File)
    → length rs ≤ 2 ^ 32
    → IsIndexOf split rs (add_all split rs new_file_index)
add_all-IsIndexOf split rs le =
    add_all-IsIndexOf_from split [] rs new_file_index
      (record {
        dirs = record { listed = refl; distinct = tt };
        within = tt;
        few = omega arith;
        lengths = (refl, refl);
        places = refl;
        modes = refl;
        mtimes = refl;
        links = refl;
        digests = refl;
        all_flags = refl;
        verified = refl;
        users = refl;
        groups = refl;
        sizes = refl;
        total = refl;
      })
      le

length-map {ℓ κ} :
    {A : Type ℓ} {B : Type κ} (f : A → B) (xs : List A) → length (map f xs) ≡ length xs
length-map f [] = refl
length-map f (x ∷ xs) = ap suc (length-map f xs)

column_length :
    {A : Type 0} {split : Bytes → Bytes × Bytes} {rs : List File} {f : FileIndex}
    (h : IsIndexOf split rs f) (g : File → A) (xs : List A)
    → xs ≡ map g rs
    → length xs ≡ length f.name
column_length {rs = rs} h g xs e = ap length e ∙ length-map g rs ∙ sym (h.lengths.1)

pub first_mismatch-none : (n : ℕ) (vs : List ℕ) → All (λ v. v ≡ n) vs → first_mismatch n vs ≡ none
unfolding first_mismatch
first_mismatch-none n [] h = refl
first_mismatch-none n (v ∷ vs) (e, h) = rw (e, ==_refl, first_mismatch-none n vs h)

-- Every column that `Dump` compares is as long as the names.
pub add_all-lengths :
    (split : Bytes → Bytes × Bytes) (rs : List File)
    → length rs ≤ 2 ^ 32
    → let f = add_all split rs new_file_index in
      All (λ v. v ≡ length f.name) (checked_lengths f) × (length f.mode ≡ length f.name)
add_all-lengths split rs le =
    let f : FileIndex = add_all split rs new_file_index in
    let h : IsIndexOf split rs f = add_all-IsIndexOf split rs le in
    let columns : All (λ v. v ≡ length f.name) (checked_lengths f) = (
      column_length h _ f.verify h.verified,
      (
        column_length h _ f.flags h.all_flags,
        (
          column_length h _ f.digest h.digests,
          (
            column_length h _ f.user h.users,
            (
              column_length h _ f.group h.groups,
              (
                column_length h _ f.mtime h.mtimes,
                (h.lengths.0 ∙ sym (h.lengths.1), (column_length h _ f.linkto h.links, tt)),
              ),
            ),
          ),
        ),
      ),
    ) in
    (columns, column_length h _ f.mode h.modes)

-- The lengths that `Dump` compares are those of the names in every index that files were added to,
-- and so is that of the modes, which it does not compare.
pub first_mismatch-add_all :
    (split : Bytes → Bytes × Bytes) (rs : List File)
    → length rs ≤ 2 ^ 32
    → let f = add_all split rs new_file_index in
      (first_mismatch (length f.name) (checked_lengths f) ≡ none) × (length f.mode ≡ length f.name)
first_mismatch-add_all split rs le =
    let f : FileIndex = add_all split rs new_file_index in
    let (columns, modes) = add_all-lengths split rs le in
    (first_mismatch-none (length f.name) (checked_lengths f) columns, modes)
