-- ===== src/Tag/NameTests.antt =====
-- The names of tags at concrete numbers.
use go_rpm.Base.{ℕ, Bytes, [], ◌∷◌, ◌++◌, ◌≡◌, codes, some, none, refl}
use go_rpm.Tag.Names.{tag_names, find_name, name_at, type_string}
use go_rpm.Tag.Named.{named, type_string-named}
use go_rpm.Tag.Names.Joined.{type_name_4, type_index_4}

abbrev one_digit : ℕ → Bytes
one_digit n = n ∷ []

name_run : type_string one_digit 1001 ≡ some (codes "RPMTAG_VERSION")
unfolding type_string name_at type_name_4 type_index_4
name_run = refl

-- Below no constant.
no_name_run : type_string one_digit 7 ≡ some (codes "TagType(" ++ (7 ∷ codes ")"))
unfolding type_string
no_name_run = refl

-- Past the end of a table of indices.
outside_run : name_at type_name_4 type_index_4 70 ≡ none
unfolding name_at type_name_4 type_index_4
outside_run = refl

type_string-named_example :
    type_string one_digit 1001 ≡ some (named one_digit 1001 (find_name 1001 tag_names))
type_string-named_example = type_string-named one_digit 1001
