-- ===== src/Tag/DumpTests.antt =====
-- Runs of the dump of a tag, and its theorem at concrete strings.
use go_rpm.Base.{Bytes, List, [], ◌∷◌, ◌++◌, ◌≡◌, codes, true, some, refl, bytes_eq}
use go_rpm.Io.{ok, buffer_write}
use go_rpm.Io.Buffer.{buffer-IsWriter, buffer-NeverFails}
use go_rpm.Tag.{tag_string, string_type}
use go_rpm.Tag.Data.{send}
use go_rpm.Tag.Getters.{string_data}
use go_rpm.Tag.Format.{Format, show, type_text, name_text}
use go_rpm.Tag.Names.{find_name, type_string, name_at}
use go_rpm.Tag.Names.Joined.{type_name_2, type_index_2}
use go_rpm.Tag.Dump.{
  newline, print, print_unchecked, print_count, print_strings, print_array, nl, dump_data, dump,
  split_lines,
}
use go_rpm.Tag.Dumped.{rows_text, print_array-strings_of}
use go_rpm.Tag.Rows.{ArrayRow, strings_of}
use go_rpm.Text.{index_where}

-- Numbers as one byte, and strings between two quotes.
abbrev pub plain : Format
plain = record {
  decimal = λ n. n ∷ [];
  wide = λ n. n ∷ [];
  signed = λ n. 0x2b ∷ n ∷ [];
  hex = λ n. n ∷ [];
  hex_bytes = λ b. b;
  hex_list = λ ns. ns;
  quote = λ b. 0x22 ∷ (b ++ 0x22 ∷ []);
  hex_dump = λ b. b;
}

-- Three equal strings are one line and a count; a string of two lines is two.
array_run :
    (print_array plain buffer_write
      (codes "a" ∷ codes "a" ∷ codes "a" ∷ (0x62 ∷ newline ∷ 0x63 ∷ []) ∷ [])
      [])
    ≡ (
      ok tt,
      (newline ∷ 0x20 ∷ 0 ∷ codes ":\"a\"")
          ++ ((newline ∷ 0x20 ∷ 0x2b ∷ 2 ∷ newline ∷ 0x20 ∷ 3 ∷ codes ":\"b\"")
              ++ (newline ∷ codes "      \"c\"" ++ newline ∷ [])),
    )
unfolding print_array print_strings print_unchecked print print_count nl send bytes_eq split_lines
    index_where
array_run = refl

-- A tag of a signature header has the name that it has there.
tag_run :
    (dump plain buffer_write true
      (record {
        head = record { tag = 269; type = string_type; offset = 0; count = 1 };
        idx = 0;
        off = 7;
        body = tag_string (codes "x" ∷ []) 2;
      })
      [])
    ≡ (
      ok tt,
      codes "0x"
          ++ (7 ∷ codes ": tag: RPMSIGTAG_SHA1, "
              ++ (269 ∷ codes ", "
                  ++ (1 ∷ codes ", 0x"
                      ++ (0 ∷ codes ", str" ++ (newline ∷ codes "  \"x\"" ++ newline ∷ []))))),
    )
unfolding dump show name_text find_name type_string name_at type_name_2 type_index_2 type_text
    dump_data string_data print_array print_unchecked print nl send index_where
tag_run = refl

print_array-strings_of_example :
    (rs : List ArrayRow) × (s' : Bytes) × (print_array plain buffer_write
        (codes "a" ∷ codes "a" ∷ [])
        []
      ≡ (ok tt, s'))
    × (s' ≡ [] ++ (newline ∷ [] ++ rows_text plain rs))
    × (strings_of rs 0 [] ≡ some (codes "a" ∷ codes "a" ∷ []))
print_array-strings_of_example =
    print_array-strings_of plain buffer-IsWriter buffer-NeverFails (codes "a") (codes "a") [] []
