-- ===== src/Files/WrongType.antt =====
-- files.go: `FileIndexHeader` of a header with a column of another type.
use go_rpm.Base.{ℕ, List, [], ◌∷◌, ◌++◌, ◌≡◌, ◌⊎◌, inl, inr, false, refl, ◌∙◌, All, Bytes}
use go_rpm.Io.{err}
use go_rpm.Tag.{
  Tag, TagData, Error, err_tag_type, nil_dereference, tag_string, tag_bytes, tag_uint16, tag_uint32,
  tag_uint64, unset,
}
use go_rpm.Tag.Numbers.{
  rpmtag_size, rpmtag_filesizes, rpmtag_dirnames, rpmtag_basenames, rpmtag_longfilesizes,
  rpmtag_longsize, rpmtag_fileusername, rpmtag_filegroupname, rpmtag_filelinktos,
  rpmtag_filedigests, rpmtag_dirindexes, rpmtag_filedevices, rpmtag_filemtimes, rpmtag_filemodes,
  rpmtag_fileinodes, rpmtag_fileflags, rpmtag_fileverifyflags,
}
use go_rpm.Tag.Getters.{string_array, int16, int32, int64}
use go_rpm.Header.{Header}
use go_rpm.Files.{FileIndex, new_file_index}
use go_rpm.Files.Append.{
  file_index_header, index_tags, index_tag, got_strings, got_numbers, got_first,
}
use go_rpm.Files.Found.{index_tags-other, IsOtherTag}

-- The columns by the type that they have in a package.
abbrev pub string_columns : List ℕ
string_columns =
    rpmtag_dirnames ∷ rpmtag_basenames ∷ rpmtag_fileusername ∷ rpmtag_filegroupname
    ∷ rpmtag_filelinktos ∷ rpmtag_filedigests ∷ []

abbrev pub int32_columns : List ℕ
int32_columns =
    rpmtag_dirindexes ∷ rpmtag_filedevices ∷ rpmtag_fileinodes ∷ rpmtag_filemtimes
    ∷ rpmtag_fileflags ∷ rpmtag_fileverifyflags ∷ rpmtag_filesizes ∷ rpmtag_size ∷ []

abbrev pub int64_columns : List ℕ
int64_columns = rpmtag_longfilesizes ∷ rpmtag_longsize ∷ []

abbrev pub IsIn : ℕ → List ℕ → Type 0
IsIn n [] = ⊥
IsIn n (m ∷ ms) = (n ≡ m) ⊎ IsIn n ms

abbrev pub IsStrings : TagData → Type 0
IsStrings (tag_string vs n) = Unit {0}
IsStrings d = ⊥

abbrev pub IsUint16 : TagData → Type 0
IsUint16 (tag_uint16 vs) = Unit {0}
IsUint16 d = ⊥

abbrev pub IsUint32 : TagData → Type 0
IsUint32 (tag_uint32 vs) = Unit {0}
IsUint32 d = ⊥

abbrev pub IsUint64 : TagData → Type 0
IsUint64 (tag_uint64 vs) = Unit {0}
IsUint64 d = ⊥

-- A column whose data are not of its type, and what stands for it: a panic for one of strings, and an
-- error for one of numbers.
abbrev pub IsRefused : ℕ → TagData → Error → Type 0
IsRefused tag d e =
    (IsIn tag string_columns × (¬ (IsStrings d)) × (e ≡ nil_dereference))
    ⊎ ((IsIn tag int32_columns × (¬ (IsUint32 d)) × (e ≡ err_tag_type))
        ⊎ (((tag ≡ rpmtag_filemodes) × (¬ (IsUint16 d)) × (e ≡ err_tag_type))
            ⊎ (IsIn tag int64_columns × (¬ (IsUint64 d)) × (e ≡ err_tag_type))))

got_strings-refused :
    (d : TagData) (set : List Bytes → FileIndex)
    → ¬ (IsStrings d)
    → got_strings (string_array d) set ≡ err nil_dereference
unfolding got_strings string_array
got_strings-refused (tag_string vs n) set h = absurd (h tt)
got_strings-refused (tag_bytes b n) set h = refl
got_strings-refused (tag_uint16 vs) set h = refl
got_strings-refused (tag_uint32 vs) set h = refl
got_strings-refused (tag_uint64 vs) set h = refl
got_strings-refused unset set h = refl

int32-refused : (d : TagData) → ¬ (IsUint32 d) → int32 d ≡ ([], false)
unfolding int32
int32-refused (tag_string vs n) h = refl
int32-refused (tag_bytes b n) h = refl
int32-refused (tag_uint16 vs) h = refl
int32-refused (tag_uint32 vs) h = absurd (h tt)
int32-refused (tag_uint64 vs) h = refl
int32-refused unset h = refl

int16-refused : (d : TagData) → ¬ (IsUint16 d) → int16 d ≡ ([], false)
unfolding int16
int16-refused (tag_string vs n) h = refl
int16-refused (tag_bytes b n) h = refl
int16-refused (tag_uint16 vs) h = absurd (h tt)
int16-refused (tag_uint32 vs) h = refl
int16-refused (tag_uint64 vs) h = refl
int16-refused unset h = refl

int64-refused : (d : TagData) → ¬ (IsUint64 d) → int64 d ≡ ([], false)
unfolding int64
int64-refused (tag_string vs n) h = refl
int64-refused (tag_bytes b n) h = refl
int64-refused (tag_uint16 vs) h = refl
int64-refused (tag_uint32 vs) h = refl
int64-refused (tag_uint64 vs) h = absurd (h tt)
int64-refused unset h = refl

strings-refused :
    (tag : ℕ) (d : TagData) (f : FileIndex)
    → IsIn tag string_columns
    → ¬ (IsStrings d)
    → index_tag tag d f ≡ err nil_dereference
unfolding index_tag
strings-refused tag d f (inl e) h = rw e (got_strings-refused d _ h)
strings-refused tag d f (inr (inl e)) h = rw e (got_strings-refused d _ h)
strings-refused tag d f (inr (inr (inl e))) h = rw e (got_strings-refused d _ h)
strings-refused tag d f (inr (inr (inr (inl e)))) h = rw e (got_strings-refused d _ h)
strings-refused tag d f (inr (inr (inr (inr (inl e))))) h = rw e (got_strings-refused d _ h)
strings-refused tag d f (inr (inr (inr (inr (inr (inl e)))))) h = rw e (got_strings-refused d _ h)
strings-refused tag d f (inr (inr (inr (inr (inr (inr none)))))) h = absurd none

numbers-refused :
    (tag : ℕ) (d : TagData) (f : FileIndex)
    → IsIn tag int32_columns
    → int32 d ≡ ([], false)
    → index_tag tag d f ≡ err err_tag_type
unfolding index_tag got_numbers got_first
numbers-refused tag d f (inl e) h = rw (e, h) refl
numbers-refused tag d f (inr (inl e)) h = rw (e, h) refl
numbers-refused tag d f (inr (inr (inl e))) h = rw (e, h) refl
numbers-refused tag d f (inr (inr (inr (inl e)))) h = rw (e, h) refl
numbers-refused tag d f (inr (inr (inr (inr (inl e))))) h = rw (e, h) refl
numbers-refused tag d f (inr (inr (inr (inr (inr (inl e)))))) h = rw (e, h) refl
numbers-refused tag d f (inr (inr (inr (inr (inr (inr (inl e))))))) h = rw (e, h) refl
numbers-refused tag d f (inr (inr (inr (inr (inr (inr (inr (inl e)))))))) h = rw (e, h) refl
numbers-refused tag d f (inr (inr (inr (inr (inr (inr (inr (inr none)))))))) h = absurd none

index_tag-refused :
    (tag : ℕ) (d : TagData) (f : FileIndex) (x : Error)
    → IsRefused tag d x
    → index_tag tag d f ≡ err x
unfolding index_tag got_numbers got_first
index_tag-refused tag d f x (inl (col, h, e)) = rw e (strings-refused tag d f col h)
index_tag-refused tag d f x (inr (inl (col, h, e))) =
    rw e (numbers-refused tag d f col (int32-refused d h))
index_tag-refused tag d f x (inr (inr (inl (col, h, e)))) = rw (e, col, int16-refused d h) refl
index_tag-refused tag d f x (inr (inr (inr (inl col, h, e)))) = rw (e, col, int64-refused d h) refl
index_tag-refused tag d f x (inr (inr (inr (inr (inl col), h, e)))) =
    rw (e, col, int64-refused d h) refl
index_tag-refused tag d f x (inr (inr (inr (inr (inr none), h, e)))) = absurd none

-- A header with a column whose data have another type than the column, behind tags that are no
-- columns: `FileIndexHeader` panics with a nil dereference where the column is one of the six of strings,
-- and returns errTagType where it is one of the eleven of numbers.
pub file_index_header-wrong_type :
    (hdr : Header) (ts us : List Tag) (t : Tag) (e : Error)
    → hdr.tags ≡ ts ++ t ∷ us
    → All IsOtherTag ts
    → IsRefused t.head.tag t.body e
    → file_index_header hdr ≡ err e
unfolding file_index_header index_tags
file_index_header-wrong_type hdr ts us t e tags other h = rw tags (
    index_tags-other ts (t ∷ us) new_file_index other
    ∙ rw (index_tag-refused t.head.tag t.body new_file_index e h) refl)
