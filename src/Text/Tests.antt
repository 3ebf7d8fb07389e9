-- ===== src/Text/Tests.antt =====
-- Runs of the functions on strings.
use go_rpm.Base.{codes, ◌∷◌, [], ◌++◌, ◌≡◌, refl, some}
use go_rpm.Text.{
  fields, fields_from, trim_space, trim_left, trim_right, space_length, string_index, starts_with,
  prefix_length,
}

fields_run :
    fields (codes " a\tbc  " ++ 0xc2 ∷ 0xa0 ∷ codes "d ") ≡ codes "a" ∷ codes "bc" ∷ codes "d" ∷ []
unfolding fields fields_from space_length prefix_length starts_with
fields_run = refl

trim_space_run : trim_space (codes " \n a b" ++ 0xe3 ∷ 0x80 ∷ 0x80 ∷ []) ≡ codes "a b"
unfolding trim_space trim_left trim_right space_length prefix_length starts_with
trim_space_run = refl

string_index_run : string_index (codes "<<") (codes "a < b << c") ≡ some 6
unfolding string_index starts_with
string_index_run = refl
