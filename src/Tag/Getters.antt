-- ===== src/Tag/Getters.antt =====
-- tag.go: the values of a tag by their type. A nil *tagString that is used is the error
-- `nil_dereference`, a panic.
use go_rpm.Tag.{
  Error, TagData, unset, tag_bytes, tag_uint32, tag_string, tag_uint16, nil_dereference, tag_uint64,
}
use go_rpm.Io.{err, Result, ok}
use go_rpm.Base.{Bool, List, ◌⊎◌, ◌≡◌, ℕ, Bytes, true, ◌+◌, [], false, inr, inl, ◌∷◌, refl}

unfoldable pub string_data : TagData → Result Error (Bytes × Bool)
string_data (tag_string [] n) = ok ([], false)
string_data (tag_string (v ∷ vs) n) = ok (v, true)
string_data d = err nil_dereference

unfoldable pub string_array : TagData → Result Error (List Bytes × Bool)
string_array (tag_string vs n) = ok (vs, true)
string_array d = err nil_dereference

unfoldable pub int16 : TagData → List ℕ × Bool
int16 (tag_uint16 vs) = (vs, true)
int16 d = ([], false)

unfoldable pub int32 : TagData → List ℕ × Bool
int32 (tag_uint32 vs) = (vs, true)
int32 d = ([], false)

unfoldable pub int64 : TagData → List ℕ × Bool
int64 (tag_uint64 vs) = (vs, true)
int64 d = ([], false)

unfoldable pub get_bytes : TagData → List ℕ × Bool
get_bytes (tag_bytes b n) = (b, true)
get_bytes d = ([], false)

abbrev string_tells : Result Error (List Bytes × Bool) → Bool
string_tells (ok (vs, told)) = told
string_tells (err e) = false

abbrev one_if : Bool → ℕ
one_if true = 1
one_if false = 0

-- How many of the getters say that the data are theirs.
abbrev pub takers : TagData → ℕ
takers d =
    one_if (string_tells (string_array d))
    + (one_if (int16 d).1 + (one_if (int32 d).1 + (one_if (int64 d).1 + one_if (get_bytes d).1)))

-- Data that are set belong to exactly one of StringArray, Int16, Int32, Int64 and Bytes, and nil to
-- none of them.
pub takers_lem : (d : TagData) → (takers d ≡ 1) ⊎ (d ≡ unset)
unfolding string_array int16 int32 int64 get_bytes
takers_lem (tag_bytes b n) = inl refl
takers_lem (tag_string vs n) = inl refl
takers_lem (tag_uint16 vs) = inl refl
takers_lem (tag_uint32 vs) = inl refl
takers_lem (tag_uint64 vs) = inl refl
takers_lem unset = inr refl
