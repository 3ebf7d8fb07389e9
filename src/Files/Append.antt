-- ===== src/Files/Append.antt =====
-- files.go: a file index as tags of a header (`Append`), and the index of a header
-- (`FileIndexHeader`).
use go_rpm.Base.{
  length, Option, ℕ, List, Bytes, Bool, if◌then◌else◌, ◌∷◌, ◌==◌, true, some, [], ◌+◌, false, ◌++◌,
  none,
}
use go_rpm.Tag.Numbers.{
  rpmtag_size, rpmtag_filesizes, rpmtag_dirnames, rpmtag_basenames, rpmtag_longfilesizes,
  rpmtag_longsize, rpmtag_fileusername, rpmtag_filegroupname, rpmtag_filelinktos,
  rpmtag_filedigests, rpmtag_dirindexes, rpmtag_filedevices, rpmtag_filemtimes, rpmtag_filemodes,
  rpmtag_fileinodes, rpmtag_fileflags, rpmtag_fileverifyflags,
}
use go_rpm.Tag.Getters.{int16, string_array, int32, int64}
use go_rpm.Tag.{Error, Tag, TagData, err_tag_type, index_out_of_range}
use go_rpm.Io.{◌>>◌, Op, Result, ok, err, pure}
use go_rpm.Files.{FileIndex, find, Option, ℕ, List, new_file_index}
use go_rpm.Header.{Header, add_int32, add_string_array, add_int64, add_int16}

unfoldable pub append_sizes : Option (List ℕ) → FileIndex → Op Header Error (Unit {0})
append_sizes none f = do add_int32 rpmtag_filesizes f.size; add_int32 rpmtag_size (f.rpmsize ∷ [])
append_sizes (some lsize) f = do
  add_int64 rpmtag_longfilesizes lsize
  add_int64 rpmtag_longsize (f.rpmlsize ∷ [])

unfoldable pub append : FileIndex → Op Header Error (Unit {0})
unfolding append_sizes
append f = if length f.name == 0 then pure tt else do
  add_string_array rpmtag_dirnames f.dir_names.s
  add_string_array rpmtag_basenames f.name
  add_string_array rpmtag_fileusername f.user
  add_string_array rpmtag_filegroupname f.group
  add_string_array rpmtag_filelinktos f.linkto
  add_string_array rpmtag_filedigests f.digest
  add_int32 rpmtag_dirindexes f.dir_indexes
  add_int32 rpmtag_filemtimes f.mtime
  add_int16 rpmtag_filemodes f.mode
  add_int32 rpmtag_fileflags f.flags
  add_int32 rpmtag_fileverifyflags f.verify
  append_sizes f.lsize f

-- The loop over the directories, from place `i` on: the first place of each goes into the map.
unfoldable pub map_dirs : ℕ → List Bytes → List (Bytes × ℕ) → List (Bytes × ℕ)
map_dirs i [] m = m
map_dirs i (d ∷ ds) m = elim (find d m) [
  | some j ↦ map_dirs (i + 1) ds m
  | none ↦ map_dirs (i + 1) ds (m ++ (d, i) ∷ [])
]

-- The index with the values of a getter, or what the getter does on other data.
unfoldable pub got_strings :
    Result Error (List Bytes × Bool) → (List Bytes → FileIndex) → Result Error FileIndex
got_strings (err e) set = err e
got_strings (ok (vs, true)) set = ok (set vs)
got_strings (ok (vs, false)) set = err err_tag_type

unfoldable pub got_numbers : List ℕ × Bool → (List ℕ → FileIndex) → Result Error FileIndex
got_numbers (vs, true) set = ok (set vs)
got_numbers (vs, false) set = err err_tag_type

-- `sz[0]`.
unfoldable pub got_first : List ℕ × Bool → (ℕ → FileIndex) → Result Error FileIndex
got_first ([], true) set = err index_out_of_range
got_first (v ∷ vs, true) set = ok (set v)
got_first (vs, false) set = err err_tag_type

-- The switch, and the test behind it. The numbers of a tag that was read are never nil.
unfoldable pub index_tag : ℕ → TagData → FileIndex → Result Error FileIndex
unfolding got_strings got_numbers got_first
index_tag tag body f =
    if tag == rpmtag_dirnames
    then got_strings (string_array body)
        (λ vs. record f { dir_names = record { s = vs; m = map_dirs 0 vs f.dir_names.m } })
    else if tag == rpmtag_basenames
    then got_strings (string_array body) (λ vs. record f { name = vs })
    else if tag == rpmtag_fileusername
    then got_strings (string_array body) (λ vs. record f { user = vs })
    else if tag == rpmtag_filegroupname
    then got_strings (string_array body) (λ vs. record f { group = vs })
    else if tag == rpmtag_filelinktos
    then got_strings (string_array body) (λ vs. record f { linkto = vs })
    else if tag == rpmtag_filedigests
    then got_strings (string_array body) (λ vs. record f { digest = vs })
    else if tag == rpmtag_dirindexes
    then got_numbers (int32 body) (λ vs. record f { dir_indexes = vs })
    else if tag == rpmtag_filedevices
    then got_numbers (int32 body) (λ vs. record f { dev = vs })
    else if tag == rpmtag_fileinodes
    then got_numbers (int32 body) (λ vs. record f { ino = vs })
    else if tag == rpmtag_filemtimes
    then got_numbers (int32 body) (λ vs. record f { mtime = vs })
    else if tag == rpmtag_fileflags
    then got_numbers (int32 body) (λ vs. record f { flags = vs })
    else if tag == rpmtag_fileverifyflags
    then got_numbers (int32 body) (λ vs. record f { verify = vs })
    else if tag == rpmtag_filemodes
    then got_numbers (int16 body) (λ vs. record f { mode = vs })
    else if tag == rpmtag_filesizes
    then got_numbers (int32 body) (λ vs. record f { size = vs })
    else if tag == rpmtag_longfilesizes
    then got_numbers (int64 body) (λ vs. record f { lsize = some vs })
    else if tag == rpmtag_size
    then got_first (int32 body) (λ v. record f { rpmsize = v })
    else if tag == rpmtag_longsize
    then got_first (int64 body) (λ v. record f { rpmlsize = v })
    else ok f

-- The rest of the loop, which an error ends.
abbrev pub and_then :
    (FileIndex → Result Error FileIndex) → Result Error FileIndex → Result Error FileIndex
and_then k (err e) = err e
and_then k (ok f) = k f

unfoldable pub index_tags : List Tag → FileIndex → Result Error FileIndex
unfolding index_tag
index_tags [] f = ok f
index_tags (t ∷ ts) f = and_then (index_tags ts) (index_tag t.head.tag t.body f)

unfoldable pub file_index_header : Header → Result Error FileIndex
unfolding index_tags
file_index_header hdr = index_tags hdr.tags new_file_index
