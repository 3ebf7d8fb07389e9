-- ===== src/Tag/Dump.antt =====
-- tag.go: `dump`, the text of a tag with its data, over any io.Writer.
use go_rpm.Base.{
  ℕ, Bytes, Bool, List, none, some, [], ◌∷◌, ◌++◌, ◌==◌, ◌&&◌, ◌||◌, ◌+◌, if◌then◌else◌, codes,
  true, false, take, drop, ltb, bytes_eq,
}
use go_rpm.Io.{Result, Op, WriteReply, ok, err, pure, fail, ◌>>=◌, ◌>>◌, buffer_write}
use go_rpm.Tag.{
  index_out_of_range, Tag, TagData, Error, err_tag_type, char_type, int8_type, int16_type,
  int32_type, int64_type, string_type, bin_type, string_array_type, i18n_string_type,
}
use go_rpm.Tag.Data.{send, write_data}
use go_rpm.Tag.Getters.{string_data, string_array, int16, int32, int64, get_bytes}
use go_rpm.Tag.Format.{Format, show}
use go_rpm.Text.{index_byte}

abbrev pub newline : ℕ
newline = 0xa

-- `strings.Split(s, "\n")`.
abbrev pub in_line : ℕ → List Bytes → List Bytes
in_line b [] = []
in_line b (l ∷ ls) = (b ∷ l) ∷ ls

unfoldable pub split_lines : Bytes → List Bytes
split_lines [] = [] ∷ []
split_lines (b ∷ s) = let rest = split_lines s in if b == newline then [] ∷ rest else in_line b rest

-- The lines that `nl` prints.
abbrev pub short_line : Format → Bytes → Bytes
short_line fm v = codes "  " ++ (fm.quote v ++ newline ∷ [])

abbrev pub numbered_line : Format → ℕ → Bytes → Bytes
numbered_line fm idx v = codes " " ++ (fm.wide idx ++ (codes ":" ++ (fm.quote v ++ newline ∷ [])))

abbrev pub further_line : Format → Bytes → Bytes
further_line fm v = codes "      " ++ (fm.quote v ++ newline ∷ [])

abbrev pub count_line : Format → ℕ → Bytes
count_line fm li = codes " " ++ (fm.signed li ++ newline ∷ [])

abbrev pub of_result : {S A : Type 0} → Result Error A → Op S Error A
of_result (ok a) = pure a
of_result (err e) = fail e

module _ (fm : Format) {S : Type 0} (io_write : Bytes → S → WriteReply S) where
  -- fmt.Fprintf, with its error, and where that is not looked at.
  unfoldable pub print : Bytes → Op S Error (Unit {0})
  print b = send io_write b >> pure tt

  unfoldable pub print_unchecked : Bytes → Op S Error (Unit {0})
  unfolding print
  print_unchecked b s = (ok tt, (print b s).1)

  -- `fprintf`.
  unfoldable pub print_if : Bool → Bytes → Op S Error (Unit {0})
  unfolding print
  print_if told b = if told then print b else fail err_tag_type

  unfoldable pub print_further : List Bytes → Op S Error (Unit {0})
  unfolding print
  print_further [] = pure tt
  print_further (v ∷ vs) = do print (further_line fm v); print_further vs

  unfoldable pub nl : ℕ → ℕ → Bytes → Op S Error (Unit {0})
  unfolding print print_further
  nl idx n v = elim (index_byte newline v) [
    | none ↦ print (if n == 0 then short_line fm v else numbered_line fm idx v)
    | some i ↦ do
      print (numbered_line fm idx (take i v))
      print_further (split_lines (drop (i + 1) v))
  ]

  -- How often the last line was repeated.
  unfoldable pub print_count : ℕ → Op S Error (Unit {0})
  unfolding print_unchecked
  print_count li = if ltb 0 li then print_unchecked (count_line fm li) else pure tt

  -- An error of `nl` ends the loop; the count, which was not reset, is printed behind it again.
  abbrev pub or_break :
      ℕ → Op S Error (Unit {0}) → Result Error (Unit {0}) × S → Result Error (Unit {0}) × S
  or_break li k (ok u, s) = k s
  or_break li k (err e, s) = (err e, (print_count li s).1)

  -- The loop over the strings, from place `i` on, with the last line and how often it was repeated.
  unfoldable pub print_strings : List Bytes → ℕ → Bytes → ℕ → Op S Error (Unit {0})
  unfolding nl print_count
  print_strings [] i lv li = print_count li
  print_strings (v ∷ vs) i lv li = elim (bytes_eq lv v && ltb 0 i) [
    | true ↦ print_strings vs (i + 1) lv (li + 1)
    | false ↦ print_count li >> λ s. or_break li (print_strings vs (i + 1) v 0) (nl i 1 v s)
  ]

  -- A string array: a single string has no number.
  unfoldable pub print_array : List Bytes → Op S Error (Unit {0})
  unfolding print_strings
  print_array vs = do
    print_unchecked (newline ∷ [])
    elim vs [ v ∷ [] ↦ nl 0 0 v | other ↦ print_strings other 0 [] 0 ]

  -- `tag.data.WriteTo(hex.Dumper(w))` between two empty lines; nil data are a panic.
  abbrev pub behind : Op S Error (Unit {0}) → Op S Error (Unit {0}) → Op S Error (Unit {0})
  behind m k s = let (r, s') = m s in (r, (k s').1)

  unfoldable pub print_dumped : TagData → Op S Error (Unit {0})
  print_dumped d = do
    print_unchecked (newline ∷ [])
    of_result (write_data buffer_write d []).0
    behind (print (fm.hex_dump (write_data buffer_write d []).1)) (print_unchecked (newline ∷ []))

  -- The switch on the type.
  unfoldable pub dump_data : ℕ → TagData → Op S Error (Unit {0})
  unfolding print_if print_dumped print_array
  dump_data type d =
      if type == int8_type
      then print_if (get_bytes d).1 (codes "\n  " ++ (fm.hex_bytes (get_bytes d).0 ++ newline ∷ []))
      else if type == char_type
      then print_if (get_bytes d).1 (codes "\n  " ++ (fm.quote (get_bytes d).0 ++ newline ∷ []))
      else if type == int16_type
      then print_if (int16 d).1 (codes "\n  " ++ (fm.hex_list (int16 d).0 ++ newline ∷ []))
      else if type == int32_type
      then print_if (int32 d).1 (codes "\n  " ++ (fm.hex_list (int32 d).0 ++ newline ∷ []))
      else if type == int64_type
      then print_if (int64 d).1 (codes "\n  " ++ (fm.hex_list (int64 d).0 ++ newline ∷ []))
      else if type == bin_type
      then print_dumped d
      else if type == string_type || type == i18n_string_type
      then (do
        (v, told) ← of_result (string_data d)
        if told then print_unchecked (newline ∷ []) >> nl 0 0 v else pure tt)
      else if type == string_array_type
      then (do (vs, told) ← of_result (string_array d); if told then print_array vs else pure tt)
      else pure tt

  unfoldable pub dump : Bool → Tag → Op S Error (Unit {0})
  unfolding dump_data
  dump sig t = elim (show fm sig t) [
    | none ↦ fail index_out_of_range
    | some s ↦ do
      print (codes "0x" ++ (fm.hex t.off ++ (codes ": tag: " ++ s)))
      dump_data t.head.type t.body
  ]
