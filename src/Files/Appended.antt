-- ===== src/Files/Appended.antt =====
-- A file index that was appended to a header, found again in it.
use go_rpm.Base.{
  length, ℕ, ◌≢◌, List, ◌≡◌, ◌∷◌, [], Bytes, refl, none, some, ◌==◌, Option-cases, false, inl, inr,
  arith,
}
use go_rpm.Io.{◌>>◌, Op, ok, Result, err}
use go_rpm.Header.{add, Header, add_string_array, new_tag, add_int64, add_int32, add_int16, u32}
use go_rpm.Tag.{
  Error, Tag, TagData, unset, tag_string, tag_uint32, tag_uint16, tag_uint64, int64_type,
  int32_type, string_array_type, tag_bytes, int16_type,
}
use go_rpm.Header.Adds.{rows, content, Adds, Adds-bind, Adds-one}
use go_rpm.Tag.Numbers.{
  rpmtag_dirnames, rpmtag_longfilesizes, rpmtag_basenames, rpmtag_fileusername, rpmtag_longsize,
  rpmtag_filegroupname, rpmtag_filelinktos, rpmtag_filedigests, rpmtag_dirindexes,
  rpmtag_filemtimes, rpmtag_filemodes, rpmtag_fileflags, rpmtag_fileverifyflags,
}
use go_rpm.Files.{FileIndex, values}
use go_rpm.Files.Append.{append, index_tag, append_sizes, index_tags, and_then}
use go_rpm.Tag.Getters.{string_array, int16, int32, int64}

abbrev pub strings_tag : ℕ → List Bytes → Tag
strings_tag tag vs = new_tag tag string_array_type (u32 (length vs)) (tag_string vs 0)

abbrev pub int32_tag : ℕ → List ℕ → Tag
int32_tag tag vs = new_tag tag int32_type (u32 (length vs)) (tag_uint32 vs)

abbrev pub int64_tag : ℕ → List ℕ → Tag
int64_tag tag vs = new_tag tag int64_type (u32 (length vs)) (tag_uint64 vs)

-- The tags of an index with 64-bit sizes.
abbrev pub file_tags : FileIndex → List Tag
file_tags f =
    strings_tag rpmtag_dirnames f.dir_names.s
    ∷ strings_tag rpmtag_basenames f.name
    ∷ strings_tag rpmtag_fileusername f.user
    ∷ strings_tag rpmtag_filegroupname f.group
    ∷ strings_tag rpmtag_filelinktos f.linkto
    ∷ strings_tag rpmtag_filedigests f.digest
    ∷ int32_tag rpmtag_dirindexes f.dir_indexes
    ∷ int32_tag rpmtag_filemtimes f.mtime
    ∷ new_tag rpmtag_filemodes int16_type (u32 (length f.mode)) (tag_uint16 f.mode)
    ∷ int32_tag rpmtag_fileflags f.flags
    ∷ int32_tag rpmtag_fileverifyflags f.verify
    ∷ int64_tag rpmtag_longfilesizes (values f.lsize)
    ∷ int64_tag rpmtag_longsize (f.rpmlsize ∷ [])
    ∷ []

-- An index with files and 64-bit sizes.
pub record HasFiles (f : FileIndex) : Type 0 where
  pub named : f.name ≢ []
  pub sized : f.lsize ≢ none

pub Adds-next :
    (t : Tag) (ts : List Tag) (k : Op Header Error (Unit {0}))
    → Adds ts k
    → Adds (t ∷ ts) (add t >> k)
Adds-next t ts k h = Adds-bind (t ∷ []) ts (add t) k (Adds-one t) h

append_sizes-Adds :
    (f : FileIndex) (ls : List ℕ)
    → Adds
        (int64_tag rpmtag_longfilesizes ls ∷ int64_tag rpmtag_longsize (f.rpmlsize ∷ []) ∷ [])
        (append_sizes (some ls) f)
unfolding append_sizes add_int64
append_sizes-Adds f ls = Adds-next _ _ _ (Adds-one _)

length_ne : (xs : List Bytes) → xs ≢ [] → (length xs == 0) ≡ false
length_ne [] h = absurd (h refl)
length_ne (x ∷ xs) h = ground arith

-- `Append` adds just the tags of the index.
pub file_tags-Adds : (f : FileIndex) → HasFiles f → Adds (file_tags f) (append f)
unfolding append append_sizes add_string_array add_int32 add_int16
file_tags-Adds f h hdr = elim (Option-cases f.lsize) [
  | inl gone ↦ absurd (h.sized gone)
  | inr (ls, set) ↦
      rw (length_ne f.name h.named, set)
        (Adds-next _ _ _
          (Adds-next _ _ _ (
            Adds-next _ _ _ (
              Adds-next _ _ _ (
                Adds-next _ _ _ (
                  Adds-next _ _ _ (
                    Adds-next _ _ _ (
                      Adds-next _ _ _ (
                        Adds-next _ _ _
                          (Adds-next _ _ _ (Adds-next _ _ _ (append_sizes-Adds f ls)))))))))))
          hdr)
]

-- `index_tags` goes by the numbers and the contents of the tags.
abbrev pub index_rows : List (ℕ × TagData) → FileIndex → Result Error FileIndex
index_rows [] f = ok f
index_rows ((tag, d) ∷ rs) f = and_then (index_rows rs) (index_tag tag d f)

and_then_same :
    (k l : FileIndex → Result Error FileIndex) (r : Result Error FileIndex)
    → ((f : FileIndex) → k f ≡ l f)
    → and_then k r ≡ and_then l r
and_then_same k l (err e) h = refl
and_then_same k l (ok f) h = h f

index_tag-content :
    (tag : ℕ) (d : TagData) (f : FileIndex) → index_tag tag (content d) f ≡ index_tag tag d f
unfolding index_tag string_array int16 int32 int64
index_tag-content tag (tag_bytes b n) f = refl
index_tag-content tag (tag_string vs n) f = refl
index_tag-content tag (tag_uint16 vs) f = refl
index_tag-content tag (tag_uint32 vs) f = refl
index_tag-content tag (tag_uint64 vs) f = refl
index_tag-content tag unset f = refl

pub index_tags-rows : (ts : List Tag) (f : FileIndex) → index_tags ts f ≡ index_rows (rows ts) f
unfolding index_tags
index_tags-rows [] f = refl
index_tags-rows (t ∷ ts) f =
    rw (index_tag-content t.head.tag t.body f)
      (and_then_same (index_tags ts) (index_rows (rows ts)) _ (index_tags-rows ts))
