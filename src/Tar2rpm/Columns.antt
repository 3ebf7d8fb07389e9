-- ===== src/Tar2rpm/Columns.antt =====
-- The columns of a file index can be added to a header and read back, where the files are in their
-- bounds.
use go_rpm.Base.{
  length, ℕ, Bytes, List, All, ◌∷◌, [], ◌<◌, ◌^◌, ◌≢◌, ◌≡◌, arith, ◌++◌, map, refl, All-append,
  All-mapped, All-of_append, Option, some, none, subst, sym, bytes_eq, Bool-cases, inl, inr, ◌∙◌,
}
use go_rpm.Tag.ReadBack.{HasNoNul}
use go_rpm.Files.{
  File, FileIndex, PrefixMap, add, add_all, index, index_found, def, new_file_index, not_u32,
  root_user, root_dir, values,
}
use go_rpm.Files.Added.{IsIndexOf, add_all-IsIndexOf, All-weaken}
use go_rpm.Files.Appended.{file_tags, strings_tag, int32_tag}
use go_rpm.Files.RoundTrip.{map_ne}
use go_rpm.Tar2rpm.Addable.{
  FitsIn, strings_tag-FitsIn, int16_tag-FitsIn, int32_tag-FitsIn, int64_tag-FitsIn,
}

-- filepath.Split, as documented: the two parts are the path.
abbrev pub IsSplit : (Bytes → Bytes × Bytes) → Type 0
IsSplit split = (p : Bytes) → (split p).0 ++ (split p).1 ≡ p

-- A file whose texts have no NUL and whose numbers are in the bounds of their types.
pub record IsSoundFile (r : File) : Type 0 where
  pub named : HasNoNul r.name
  pub owned : HasNoNul r.user × HasNoNul r.group
  pub linked : HasNoNul r.link_to
  pub digested : HasNoNul r.digest
  pub sixteen : r.mode < 2 ^ 16
  pub words : (r.m_time < 2 ^ 32) × (r.flags < 2 ^ 32)
  pub sized : r.size < 2 ^ 64

-- A column that the files' values make.
All-column :
    {A : Type 0} (P : A → Type 0) (g : File → A) (rs : List File) (xs : List A)
    → ((r : File) → IsSoundFile r → P (g r))
    → All IsSoundFile rs
    → xs ≡ map g rs
    → All P xs
All-column P g rs xs f h e = subst (All P) (sym e) (All-mapped IsSoundFile P g rs f h)

def-HasNoNul : (a d : Bytes) → HasNoNul a → HasNoNul d → HasNoNul (def a [] d)
unfolding def
def-HasNoNul a d h k = elim (Bool-cases (bytes_eq a [])) [ inl e ↦ rw e k | inr e ↦ rw e h ]

root_user-HasNoNul : HasNoNul root_user
root_user-HasNoNul = omega arith

-- The texts of an index: its directories and its names.
abbrev HasTexts : PrefixMap → List Bytes → Type 0
HasTexts p ns = All HasNoNul p.s × All HasNoNul ns

index_found-HasTexts :
    (f d : Bytes) (place : Option ℕ) (p : PrefixMap) (ns : List Bytes)
    → HasNoNul f
    → HasNoNul d
    → HasTexts p ns
    → HasTexts (index_found f d place p).1 (ns ++ (index_found f d place p).0.0 ∷ [])
unfolding index_found
index_found-HasTexts f d (some i) p ns hf hd (s, n) =
    (s, All-append HasNoNul ns (f ∷ []) n (hf, tt))
index_found-HasTexts f d none p ns hf hd (s, n) =
    (All-append HasNoNul p.s (d ∷ []) s (hd, tt), All-append HasNoNul ns (f ∷ []) n (hf, tt))

module _ (split : Bytes → Bytes × Bytes) (law : IsSplit split) where
  add-HasTexts :
      (r : File) (f : FileIndex)
      → HasNoNul r.name
      → HasTexts f.dir_names f.name
      → HasTexts (add split r f).dir_names (add split r f).name
  unfolding add index
  add-HasTexts r f h t =
      let (d, n) =
        All-of_append (λ b. b ≢ 0) (split r.name).0 (split r.name).1
          (subst HasNoNul (sym (law r.name)) h) in
      index_found-HasTexts (split r.name).1 _ _ f.dir_names f.name n
        (def-HasNoNul (split r.name).0 root_dir d (omega arith)) t

  add_all-HasTexts :
      (rs : List File) (f : FileIndex)
      → All IsSoundFile rs
      → HasTexts f.dir_names f.name
      → HasTexts (add_all split rs f).dir_names (add_all split rs f).name
  unfolding add_all
  add_all-HasTexts [] f h t = t
  add_all-HasTexts (r ∷ rs) f (p, h) t =
      add_all-HasTexts rs (add split r f) h (add-HasTexts r f p.named t)

-- Lists as long as the files.
ne_of_length :
    {A : Type 0} (rs : List File) (xs : List A) → rs ≢ [] → length xs ≡ length rs → xs ≢ []
ne_of_length [] xs ne e = absurd (ne refl)
ne_of_length (r ∷ rs) [] ne e = absurd (omega arith)
ne_of_length (r ∷ rs) (x ∷ xs) ne e = λ h. cc

dirs_ne : (ds : List Bytes) (is : List ℕ) → is ≢ [] → All (λ i. i < length ds) is → ds ≢ []
dirs_ne [] [] ne h = absurd (ne refl)
dirs_ne [] (i ∷ is) ne (p, h) = absurd (omega arith)
dirs_ne (d ∷ ds) is ne h = λ e. cc

module _ (rs : List File) (h : All IsSoundFile rs) (ne : rs ≢ []) where
  texts_column :
      (t : ℕ) (g : File → Bytes) (xs : List Bytes)
      → t < 2 ^ 32
      → ((r : File) → IsSoundFile r → HasNoNul (g r))
      → xs ≡ map g rs
      → FitsIn (strings_tag t xs)
  texts_column t g xs small f e =
      strings_tag-FitsIn t xs small (λ k. map_ne g rs ne (sym e ∙ k))
        (All-column HasNoNul g rs xs f h e)

  words_column :
      (t : ℕ) (g : File → ℕ) (xs : List ℕ)
      → t < 2 ^ 32
      → ((r : File) → IsSoundFile r → g r < 2 ^ 32)
      → xs ≡ map g rs
      → FitsIn (int32_tag t xs)
  words_column t g xs small f e =
      int32_tag-FitsIn t xs small (λ k. map_ne g rs ne (sym e ∙ k))
        (All-column (λ v. v < 2 ^ 32) g rs xs f h e)

-- The index of sound files, at least one, has columns that can be added while they fit.
pub file_tags-FitsIn :
    (split : Bytes → Bytes × Bytes) (rs : List File)
    → IsSplit split
    → All IsSoundFile rs
    → rs ≢ []
    → length rs < 2 ^ 32
    → All FitsIn (file_tags (add_all split rs new_file_index))
file_tags-FitsIn split rs law h ne lt =
    let f : FileIndex = add_all split rs new_file_index in
    let i : IsIndexOf split rs f = add_all-IsIndexOf split rs (omega arith) in
    let (dirs, names) = add_all-HasTexts split law rs new_file_index h (tt, tt) in
    let places : f.dir_indexes ≢ [] = ne_of_length rs f.dir_indexes ne i.lengths.0 in
    (
      strings_tag-FitsIn _ f.dir_names.s (omega arith)
          (dirs_ne f.dir_names.s f.dir_indexes places i.within) dirs,
      (
        strings_tag-FitsIn _ f.name (omega arith) (ne_of_length rs f.name ne i.lengths.1) names,
        (
          texts_column rs h ne _ (λ r. def r.user [] root_user) f.user (omega arith)
              (λ r s. def-HasNoNul r.user root_user s.owned.0 root_user-HasNoNul) i.users,
          (
            texts_column rs h ne _ (λ r. def r.group [] root_user) f.group (omega arith)
                (λ r s. def-HasNoNul r.group root_user s.owned.1 root_user-HasNoNul) i.groups,
            (
              texts_column rs h ne _ (λ r. r.link_to) f.linkto (omega arith) (λ r s. s.linked)
                  i.links,
              (
                texts_column rs h ne _ (λ r. r.digest) f.digest (omega arith) (λ r s. s.digested)
                    i.digests,
                (
                  int32_tag-FitsIn _ f.dir_indexes (omega arith) places (
                      All-weaken (length f.dir_names.s) (2 ^ 32) f.dir_indexes
                        (omega (arith, i.few)) i.within),
                  (
                    words_column rs h ne _ (λ r. r.m_time) f.mtime (omega arith) (λ r s. s.words.0)
                        i.mtimes,
                    (
                      int16_tag-FitsIn _ f.mode (omega arith)
                          (λ k. map_ne (λ (r : File). r.mode) rs ne (sym i.modes ∙ k))
                          (All-column (λ v. v < 2 ^ 16) (λ r. r.mode) rs f.mode (λ r s. s.sixteen) h
                            i.modes),
                      (
                        words_column rs h ne _ (λ r. r.flags) f.flags (omega arith)
                            (λ r s. s.words.1) i.all_flags,
                        (
                          words_column rs h ne _ (λ r. not_u32 r.no_verify) f.verify (omega arith)
                              (λ r s. omega arith) i.verified,
                          (
                            int64_tag-FitsIn _ (values f.lsize) (omega arith)
                                (λ k. map_ne (λ (r : File). r.size) rs ne (sym i.sizes ∙ k))
                                (All-column (λ v. v < 2 ^ 64) (λ r. r.size) rs (values f.lsize)
                                  (λ r s. s.sized) h i.sizes),
                            (
                              int64_tag-FitsIn _ (f.rpmlsize ∷ []) (omega arith) (λ k. cc)
                                  (omega (arith, i.total), tt),
                              tt,
                            ),
                          ),
                        ),
                      ),
                    ),
                  ),
                ),
              ),
            ),
          ),
        ),
      ),
    )
