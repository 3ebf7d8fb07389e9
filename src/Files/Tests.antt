-- ===== src/Files/Tests.antt =====
-- Runs of the file index, and its theorems at concrete inputs.
use go_rpm.Base.{
  ◌+◌, List, ℕ, Bytes, ◌∷◌, bytes_eq, if◌then◌else◌, codes, arith, ◌≡◌, ◌==◌, [], refl, ◌^◌, ◌⊎◌,
  ◌++◌,
}
use go_rpm.Files.Mode.{mode, IsOddMode, Stands, mode-os_mode}
use go_rpm.Files.{add_all, new_file_index, find, File, new_prefix_map, index, FileIndex}
use go_rpm.Files.Added.{IsIndexOf, add_all-IsIndexOf}
use go_rpm.Files.Paths.{IsIndexed, index-IsIndexed}
use go_rpm.Files.Letters.{hex_decode, hex_encode, hex_loop, hex_decode-hex_encode}
use go_rpm.Io.{Op, IoError, ok, err}
use go_rpm.Tag.{err_invalid_file_mode}
use go_rpm.Files.Dump.{Row}

-- The text up to the last slash, and the rest.
abbrev pub after_slash : ℕ → Bytes × Bytes → Bytes × Bytes
after_slash b ([], f) = if b == 0x2f then (b ∷ [], f) else ([], b ∷ f)
after_slash b (x ∷ d, f) = (b ∷ x ∷ d, f)

abbrev pub split_path : Bytes → Bytes × Bytes
split_path [] = ([], [])
split_path (b ∷ bs) = after_slash b (split_path bs)

abbrev file : Bytes → ℕ → File
file name size = record {
  name = name;
  user = [];
  group = codes "wheel";
  mode = 0x81a4;
  link_to = [];
  m_time = 1;
  digest = [];
  no_verify = 0;
  size = size;
  flags = 0;
}

abbrev pub files : List File
files = file (codes "/bin/a") 3 ∷ file (codes "/etc/b") 4 ∷ file (codes "/bin/c") 5 ∷ []

dir_indexes_files : (add_all split_path files new_file_index).dir_indexes ≡ 0 ∷ 1 ∷ 0 ∷ []
unfolding add_all find bytes_eq
dir_indexes_files = refl

index-IsIndexed_example :
    IsIndexed split_path
      (codes "/bin/a")
      new_prefix_map
      (index split_path (codes "/bin/a") new_prefix_map)
index-IsIndexed_example =
    index-IsIndexed split_path (codes "/bin/a") new_prefix_map
      (record { listed = refl; distinct = tt })

add_all-IsIndexOf_example : IsIndexOf split_path files (add_all split_path files new_file_index)
add_all-IsIndexOf_example = add_all-IsIndexOf split_path files (omega arith)

abbrev slash_join : Bytes → Bytes → Bytes
slash_join a b = a ++ b

-- A row as its path, and a tabwriter that keeps what it is given.
abbrev path_line : Row → Bytes
path_line r = r.path

abbrev no_flush : Op Bytes IoError (Unit {0})
no_flush t = (ok tt, t)

abbrev without_modes : FileIndex
without_modes = record (add_all split_path files new_file_index) { mode = [] }

mode-os_mode_example :
    (IsOddMode (2 ^ 31 + 0x1ed) × (mode (2 ^ 31 + 0x1ed) ≡ err err_invalid_file_mode))
    ⊎ ((v : ℕ) × (mode (2 ^ 31 + 0x1ed) ≡ ok v) × Stands (2 ^ 31 + 0x1ed) v)
mode-os_mode_example = mode-os_mode (2 ^ 31 + 0x1ed)

mode_run : mode (2 ^ 31 + 0x1ed) ≡ ok 0x41ed
unfolding mode
mode_run = refl

hex_encode_run : hex_encode 0x80000011 ≡ codes "04V"
unfolding hex_encode hex_loop
hex_encode_run = refl

hex_decode-hex_encode_example : hex_decode (hex_encode 0x80000011) ≡ 0x80000011
hex_decode-hex_encode_example = hex_decode-hex_encode 0x80000011 (omega arith)
