-- ===== src/Files/Found.antt =====
-- The index that `FileIndexHeader` finds in a header, behind other tags.
use go_rpm.Tag.Numbers.{
  rpmtag_filesizes, rpmtag_size, rpmtag_dirnames, rpmtag_basenames, rpmtag_fileusername,
  rpmtag_filegroupname, rpmtag_filelinktos, rpmtag_filedigests, rpmtag_dirindexes,
  rpmtag_filedevices, rpmtag_fileinodes, rpmtag_filemtimes, rpmtag_fileflags,
  rpmtag_fileverifyflags, rpmtag_filemodes, rpmtag_longfilesizes, rpmtag_longsize,
}
use go_rpm.Files.Paths.{entries-append, IsPrefixMap, IsDistinct, IsNew, entries}
use go_rpm.Base.{
  length, ℕ, All, List, ◌≡◌, ◌==◌, Bytes, ◌++◌, false, none, ◌+◌, ◌∷◌, [], append-nil, bytes_eq,
  refl, Bool-cases, arith, length-append, inl, bytes_eq_iff, inr, ◌≢◌, append_assoc, Option, ◌∙◌,
  some, ap, sym,
}
use go_rpm.Io.{ok}
use go_rpm.Tag.{Tag}
use go_rpm.Files.{FileIndex, new_file_index, values, find}
use go_rpm.Files.Append.{index_tag, map_dirs, index_tags, got_strings, got_numbers, got_first}
use go_rpm.Files.Appended.{HasFiles, index_rows, file_tags}
use go_rpm.Tag.Getters.{string_array, int16, int32, int64}
use go_rpm.Header.Adds.{rows}

All-middle :
    {A : Type 0} (P : A → Type 0) (xs : List A) (y : A) (ys : List A) → All P (xs ++ y ∷ ys) → P y
All-middle P [] y ys (p, h) = p
All-middle P (x ∷ xs) y ys (p, h) = All-middle P xs y ys h

IsDistinct-IsNew :
    (ds : List Bytes) (d : Bytes) (es : List Bytes) → IsDistinct (ds ++ d ∷ es) → IsNew d ds
IsDistinct-IsNew [] d es h = tt
IsDistinct-IsNew (c ∷ ds) d es (p, h) =
    (All-middle (λ e. c ≢ e) ds d es p, IsDistinct-IsNew ds d es h)

find-new : (k : ℕ) (s : List Bytes) (d : Bytes) → IsNew d s → find d (entries k s) ≡ none
unfolding find
find-new k [] d h = refl
find-new k (e ∷ s) d (p, h) =
    let other : bytes_eq e d ≡ false = elim (Bool-cases (bytes_eq e d)) [
      | inl same ↦ absurd (p ((bytes_eq_iff e d).0 same))
      | inr other ↦ other
    ] in
    rw (other, find-new (k + 1) s d h)

map_dirs-entries_from :
    (ds es : List Bytes)
    → IsDistinct (ds ++ es)
    → map_dirs (0 + length ds) es (entries 0 ds) ≡ entries 0 (ds ++ es)
unfolding map_dirs
map_dirs-entries_from ds [] h = rw (append-nil ds)
map_dirs-entries_from ds (e ∷ es) h =
    let next : 0 + length (ds ++ e ∷ []) ≡ 0 + length ds + 1 =
      omega (arith, length-append ds (e ∷ [])) in
    rw (find-new 0 ds e (IsDistinct-IsNew ds e es h), map_dirs, ← entries-append 0 ds e, ← next)
      (map_dirs-entries_from (ds ++ e ∷ []) es (rw (append_assoc ds (e ∷ []) es) h)
        ∙ ap (entries 0) (append_assoc ds (e ∷ []) es))

-- The loop over distinct directories makes the map of their places.
pub map_dirs-entries : (ds : List Bytes) → IsDistinct ds → map_dirs 0 ds [] ≡ entries 0 ds
map_dirs-entries ds h = map_dirs-entries_from [] ds h

-- The numbers of the tags that the switch knows.
abbrev file_numbers : List ℕ
file_numbers =
    rpmtag_dirnames ∷ rpmtag_basenames ∷ rpmtag_fileusername ∷ rpmtag_filegroupname
    ∷ rpmtag_filelinktos ∷ rpmtag_filedigests ∷ rpmtag_dirindexes ∷ rpmtag_filedevices
    ∷ rpmtag_fileinodes ∷ rpmtag_filemtimes ∷ rpmtag_fileflags ∷ rpmtag_fileverifyflags
    ∷ rpmtag_filemodes ∷ rpmtag_filesizes ∷ rpmtag_longfilesizes ∷ rpmtag_size ∷ rpmtag_longsize
    ∷ []

abbrev pub IsOtherTag : Tag → Type 0
IsOtherTag t = All (λ n. (t.head.tag == n) ≡ false) file_numbers

index_tag-other : (t : Tag) (f : FileIndex) → IsOtherTag t → index_tag t.head.tag t.body f ≡ ok f
unfolding index_tag
index_tag-other t f
      (
        p0,
        (
          p1,
          (
            p2,
            (
              p3,
              (
                p4,
                (p5, (p6, (p7, (p8, (p9, (p10, (p11, (p12, (p13, (p14, (p15, (p16, u)))))))))))),
              ),
            ),
          ),
        ),
      ) =
    rw (p0, p1, p2, p3, p4, p5, p6, p7, p8, p9, p10, p11, p12, p13, p14, p15, p16) refl

pub index_tags-other :
    (ts : List Tag) (us : List Tag) (f : FileIndex)
    → All IsOtherTag ts
    → index_tags (ts ++ us) f ≡ index_tags us f
unfolding index_tags
index_tags-other [] us f h = refl
index_tags-other (t ∷ ts) us f (p, h) = rw (index_tag-other t f p) (index_tags-other ts us f h)

-- The parts of an index that `Append` does not write are as in a new one.
pub record IsPlain (f : FileIndex) : Type 0 where
  pub files : HasFiles f
  pub dirs : IsPrefixMap f.dir_names
  pub unset_columns : (f.dev ≡ []) × (f.ino ≡ []) × (f.size ≡ [])
  pub unset_total : f.rpmsize ≡ 0

some-values : (vs : Option (List ℕ)) → vs ≢ none → some (values vs) ≡ vs
some-values none h = absurd (h refl)
some-values (some vs) h = refl

pub index_rows-file_tags :
    (f : FileIndex) → IsPlain f → index_rows (rows (file_tags f)) new_file_index ≡ ok f
unfolding index_tag string_array int16 int32 int64 got_strings got_numbers got_first
index_rows-file_tags f h =
    let m : map_dirs 0 f.dir_names.s [] ≡ f.dir_names.m =
      map_dirs-entries f.dir_names.s h.dirs.distinct ∙ sym h.dirs.listed in
    let dev : [] ≡ f.dev = sym h.unset_columns.0 in
    let ino : [] ≡ f.ino = sym h.unset_columns.1 in
    let size : [] ≡ f.size = sym h.unset_columns.2 in
    let total : 0 ≡ f.rpmsize = sym h.unset_total in
    let lsize : some (values f.lsize) ≡ f.lsize = some-values f.lsize h.files.sized in
    λ i. ok (record f {
      dir_names = record { s = f.dir_names.s; m = m i };
      dev = dev i;
      ino = ino i;
      size = size i;
      lsize = lsize i;
      rpmsize = total i;
    })
