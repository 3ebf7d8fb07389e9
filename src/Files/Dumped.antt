-- ===== src/Files/Dumped.antt =====
-- Which rows `Dump` shows, and where it panics.
use go_rpm.Base.{
  zero, suc, length, ℕ, Bytes, List, get_elem?, get_or, ◌+◌, [], ◌<◌, All, ◌≡◌, ◌≤◌, ◌^◌, arith,
  ◌∷◌, some, ◌++◌, refl, Bool-cases, ◌==◌, inl, ◌∙◌, inr, ap,
}
use go_rpm.Io.{ok}
use go_rpm.Files.{
  FileIndex, File, fsize, def, not_u32, checked_lengths, add_all, new_file_index, root_user,
}
use go_rpm.Files.Dump.{Row, shown, dump_rows, dump_index, file, dash, arrow}
use go_rpm.Files.Mode.{os_mode}
use go_rpm.Files.Letters.{hex_encode}
use go_rpm.Files.Added.{IsIndexOf, add_all-IsIndexOf, add_all-lengths, first_mismatch-none}

-- The path of the file at place `i`, and where it links to.
abbrev pub path_at : (Bytes → Bytes → Bytes) → FileIndex → ℕ → Bytes
path_at path_join f i =
    path_join (get_or f.dir_names.s (get_or f.dir_indexes i 0) []) (get_or f.name i [])
    ++ arrow (get_or f.linkto i [])

-- The row of the file at place `i`.
abbrev pub row_at : (Bytes → Bytes → Bytes) → FileIndex → ℕ → Row
row_at path_join f i = record {
  verify = hex_encode (not_u32 (get_or f.verify i 0));
  flags = hex_encode (get_or f.flags i 0);
  digest = def (get_or f.digest i []) [] dash;
  mode = os_mode (get_or f.mode i 0);
  user = def (get_or f.user i []) root_user dash;
  group = def (get_or f.group i []) root_user dash;
  size = fsize i f;
  mtime = get_or f.mtime i 0;
  path = path_at path_join f i;
}

-- `n` rows from place `i` on.
abbrev pub rows_from : (Bytes → Bytes → Bytes) → FileIndex → ℕ → ℕ → List Row
rows_from path_join f zero i = []
rows_from path_join f (suc n) i = row_at path_join f i ∷ rows_from path_join f n (i + 1)

-- Every column is as long as the names, and each directory index is one of a directory.
pub record IsWhole (f : FileIndex) : Type 0 where
  pub lengths : All (λ v. v ≡ length f.name) (checked_lengths f)
  pub modes : length f.mode ≡ length f.name
  pub within : All (λ d. d < length f.dir_names.s) f.dir_indexes

get_elem?-get_or {ℓ} :
    {A : Type ℓ} (xs : List A) (i : ℕ) (d : A)
    → i < length xs
    → get_elem? xs i ≡ some (get_or xs i d)
get_elem?-get_or [] i d h = absurd (omega arith)
get_elem?-get_or (x ∷ xs) zero d h = refl
get_elem?-get_or (x ∷ xs) (suc i) d h = get_elem?-get_or xs i d (omega arith)

All-get_or : (P : ℕ → Type 0) (xs : List ℕ) (i : ℕ) → All P xs → i < length xs → P (get_or xs i 0)
All-get_or P [] i h lt = absurd (omega arith)
All-get_or P (x ∷ xs) zero (p, h) lt = p
All-get_or P (x ∷ xs) (suc i) (p, h) lt = All-get_or P xs i h (omega arith)

module _ (path_join : Bytes → Bytes → Bytes) where
  dump_index-row_at :
      (f : FileIndex) (i : ℕ)
      → IsWhole f
      → i < length f.name
      → dump_index path_join i f ≡ (ok (row_at path_join f i), f)
  unfolding dump_index file
  dump_index-row_at f i h lt =
      let (verify, (flags, (digest, (user, (group, (mtime, (dirs, (links, u)))))))) = h.lengths in
      let dir : ℕ = get_or f.dir_indexes i 0 in
      let inside : dir < length f.dir_names.s =
        All-get_or (λ d. d < length f.dir_names.s) f.dir_indexes i h.within (omega arith) in
      rw
        (
          get_elem?-get_or f.verify i 0 (omega arith),
          get_elem?-get_or f.flags i 0 (omega arith),
          get_elem?-get_or f.digest i [] (omega arith),
          get_elem?-get_or f.mode i 0 (omega (arith, h.modes)),
          get_elem?-get_or f.user i [] (omega arith),
          get_elem?-get_or f.group i [] (omega arith),
          get_elem?-get_or f.mtime i 0 (omega arith),
          get_elem?-get_or f.dir_indexes i 0 (omega arith),
          get_elem?-get_or f.name i [] lt,
          get_elem?-get_or f.linkto i [] (omega arith),
          get_elem?-get_or f.dir_names.s dir [] inside,
        )
        refl

  dump_rows-rows_from :
      (f : FileIndex) (ns : List Bytes) (i : ℕ)
      → IsWhole f
      → i + length ns ≤ length f.name
      → dump_rows path_join ns i f ≡ (ok (rows_from path_join f (length ns) i), f)
  unfolding dump_rows
  dump_rows-rows_from f [] i h le = refl
  dump_rows-rows_from f (n ∷ ns) i h le =
      rw (dump_index-row_at f i h (omega arith), dump_rows-rows_from f ns (i + 1) h (omega arith))
        refl

  shown-IsWhole :
      (f : FileIndex)
      → IsWhole f
      → shown path_join f ≡ (ok (rows_from path_join f (length f.name) 0), f)
  unfolding shown
  shown-IsWhole f h = elim (Bool-cases (length f.name == 0)) [
    | inl e ↦ let z : length f.name ≡ 0 = ground arith in rw z refl
    | inr ne ↦
        rw (ne, shown, first_mismatch-none (length f.name) (checked_lengths f) h.lengths)
          (dump_rows-rows_from f f.name 0 h (omega arith))
  ]

  -- The index of added files, at most 2 ^ 32 of them, has a row for each file, in their order.
  pub shown-add_all :
      (split : Bytes → Bytes × Bytes) (rs : List File)
      → length rs ≤ 2 ^ 32
      → let f = add_all split rs new_file_index in
        shown path_join f ≡ (ok (rows_from path_join f (length rs) 0), f)
  shown-add_all split rs le =
      let f : FileIndex = add_all split rs new_file_index in
      let h : IsIndexOf split rs f = add_all-IsIndexOf split rs le in
      let (columns, modes) = add_all-lengths split rs le in
      shown-IsWhole f (record { lengths = columns; modes = modes; within = h.within })
      ∙ ap (λ (n : ℕ). (ok (rows_from path_join f n 0), f)) (h.lengths.1)
