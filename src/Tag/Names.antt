-- ===== src/Tag/Names.antt =====
-- types_string.gen.go: `TagType.String`, and types.gen.go: the constants that it names. A slice of a
-- string out of its range is a panic, `none`.
pub mod First
pub mod Middle
pub mod Last
pub mod Joined
use go_rpm.Base.{
  ℕ, Bytes, Bool, List, Option, none, some, [], ◌∷◌, ◌++◌, ◌==◌, ◌&&◌, ◌||◌, ◌+◌, ◌-◌,
  if◌then◌else◌, codes, take, drop, leb, length, get_elem?,
}
use go_rpm.Tag.Names.First.{first_names}
use go_rpm.Tag.Names.Middle.{middle_names}
use go_rpm.Tag.Names.Last.{last_names}
use go_rpm.Tag.Names.Joined.{
  type_name_0, type_name_1, type_name_2, type_name_3, type_name_4, type_name_5, type_name_6,
  type_name_7, type_index_0, type_index_2, type_index_4, type_index_5, type_index_6, type_index_7,
}

-- The constants of type TagType, in the order of their declaration.
unfoldable pub tag_names : List (ℕ × Bytes)
tag_names = first_names ++ (middle_names ++ last_names)

-- The name of a number: the first that has it.
unfoldable pub find_name : ℕ → List (ℕ × Bytes) → Option Bytes
find_name t [] = none
find_name t ((n, v) ∷ m) = let more = find_name t m in if n == t then some v else more

-- `s[lo:hi]`.
abbrev pub slice : Bytes → Option ℕ → Option ℕ → Option Bytes
slice s (some lo) (some hi) =
    if leb lo hi && leb hi (length s) then some (take (hi - lo) (drop lo s)) else none
slice s none hi = none
slice s (some lo) none = none

-- `name[index[i]:index[i+1]]`.
unfoldable pub name_at : Bytes → List ℕ → ℕ → Option Bytes
name_at s index i = slice s (get_elem? index i) (get_elem? index (i + 1))

module _ (decimal : ℕ → Bytes) where
  abbrev pub unnamed : ℕ → Bytes
  unnamed i = codes "TagType(" ++ (decimal i ++ codes ")")

  unfoldable pub type_string : ℕ → Option Bytes
  type_string i =
      if leb 61 i && leb i 64
      then name_at type_name_0 type_index_0 (i - 61)
      else if i == 100
      then some type_name_1
      else if leb 256 i && leb i 271
      then name_at type_name_2 type_index_2 (i - 256)
      else if i == 273
      then some type_name_3
      else if leb 1000 i && leb i 1069
      then name_at type_name_4 type_index_4 (i - 1000)
      else if leb 1079 i && leb i 1196
      then name_at type_name_5 type_index_5 (i - 1079)
      else if leb 5000 i && leb i 5027
      then name_at type_name_6 type_index_6 (i - 5000)
      else if leb 5029 i && leb i 5097
      then name_at type_name_7 type_index_7 (i - 5029)
      else some (unnamed i)
