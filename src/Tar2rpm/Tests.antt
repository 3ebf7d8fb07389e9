-- ===== src/Tar2rpm/Tests.antt =====
-- Runs of the model of tar2rpm, and its theorems at concrete inputs.
use go_rpm.Reader.Tests.{take_all_ahead-IsAhead, take_all_ahead, built_header-IsReadable}
use go_rpm.Files.Mode.{mode}
use go_rpm.Base.{
  length, Bytes, List, codes, ◌++◌, ◌≡◌, ◌∷◌, [], none, ◌^◌, All, arith, refl, ◌+◌, map, ℕ,
  bytes_eq,
}
use go_rpm.Io.{ok, buffer_write}
use go_rpm.Tar2rpm.{Package, sense_flags, kept, sense_rest, Script, index_where, is_seen}
use go_rpm.Tar2rpm.Index.{TarEntry, index}
use go_rpm.Tar2rpm.Build.{build_header}
use go_rpm.Files.Tests.{files, split_path}
use go_rpm.Files.Append.{file_index_header}
use go_rpm.Header.{Header, new_payload_header}
use go_rpm.Scpio.Writer.{Writer, new_writer}
use go_rpm.Files.{add_all, new_file_index}
use go_rpm.Config.{Script}
use go_rpm.Tar2rpm.Senses.{mask_of, sense_flags-append}
use go_rpm.Tar2rpm.Kept.{only, is_flagged, has_operator, kept-has_operator}
use go_rpm.Text.{index_where}
use go_rpm.Tar2rpm.Indexed.{IsPackable, files_of, entries_of, index-read_entries}
use go_rpm.Header.Adds.{rows}
use go_rpm.Io.Buffer.{buffer-IsWriter, buffer-NeverFails}
use go_rpm.Tar2rpm.Tags.{package_tags}
use go_rpm.Tar2rpm.Built.{fixed_tags, file_index_header-build_header}
use go_rpm.Scpio.RoundTrip.{read_entries, entry_size}
use go_rpm.Files.Appended.{file_tags}
use go_rpm.Tar2rpm.Packages.{signature_of, write_package, lead_name}
use go_rpm.Tar2rpm.Packed.{IsDigest, read_package-write_package}
use go_rpm.Header.Encoding.{encoded}
use go_rpm.Header.Tests.{built_header}
use go_rpm.Header.Insertion.{insertion_sort, insertion_sort-IsSort}
use go_rpm.Lead.Package.{read_package, payload_offset}
use go_rpm.Lead.{new_lead, lead_binary}
use go_rpm.Reader.Parts.{read_header}
use go_rpm.Reader.Data
use go_rpm.Scpio.Read

-- "foo>=1.2".
foo_run :
    sense_flags (codes "foo>=1.2")
    ≡ record { name = codes "foo"; version = codes "1.2"; flags = 12 }
unfolding sense_flags sense_rest index_where
foo_run = refl

sense_flags-append_example :
    sense_flags (codes "foo" ++ (codes ">=" ++ codes "1.2"))
    ≡ record { name = codes "foo"; version = codes "1.2"; flags = mask_of (codes ">=") }
sense_flags-append_example =
    sense_flags-append (codes "foo") (codes ">=") (codes "1.2") (ground arith) (ground arith)
      (ground arith) (λ e. cc)

-- A version that is listed twice stays, and a name that is listed twice does not.
abbrev listed : List Bytes
listed = codes "foo=1" ∷ codes "bar" ∷ codes "foo=1" ∷ codes "bar" ∷ []

listed_run : length (kept listed []) ≡ 3
unfolding kept is_seen sense_flags sense_rest index_where bytes_eq
listed_run = refl

kept-has_operator_example :
    only is_flagged (kept listed []) ≡ map sense_flags (only has_operator listed)
kept-has_operator_example = kept-has_operator listed

abbrev pub no_script : Script
no_script = record { text = []; prog = [] }

abbrev pub sh_package : Package
sh_package = record {
  name = codes "package";
  version = codes "1";
  release = codes "1";
  arch = codes "noarch";
  license = [];
  url = [];
  bug_url = [];
  packager = [];
  vendor = [];
  summary = [];
  description = [];
  provides = [];
  requires = codes "sh" ∷ [];
  pre_install = no_script;
  post_install = record { text = codes "exit"; prog = codes "/bin/sh" };
}

file_index_header-build_header_example :
    let f = add_all split_path files new_file_index in
    (hdr : Header) × (build_header sh_package (codes "ab") f new_payload_header ≡ (ok tt, hdr))
    × (rows hdr.tags ≡ rows ((package_tags sh_package ++ fixed_tags (codes "ab")) ++ file_tags f))
    × (file_index_header hdr ≡ ok f)
file_index_header-build_header_example =
    file_index_header-build_header sh_package (codes "ab") split_path files (λ e. cc) (omega arith)

abbrev pub tar : List TarEntry
tar =
    record {
      name = codes "bin";
      linkname = [];
      mod_time = 1;
      size = 0;
      mode = 2 ^ 31 + 0x1ed;
      typeflag = 0x35;
      pieces = [];
      fault = none;
    }
    ∷ record {
      name = codes "bin/a";
      linkname = [];
      mod_time = 2;
      size = 5;
      mode = 0x1a4;
      typeflag = 0x30;
      pieces = codes "abc" ∷ codes "de" ∷ [];
      fault = none;
    }
    ∷ []

pub tar-IsPackable : All IsPackable tar
unfolding mode
tar-IsPackable = (
  record { taken = (0x41ed, refl); complete = λ e. cc },
  (record { taken = (0x81a4, refl); complete = λ e. (refl, refl) }, tt),
)

abbrev one_digest : Bytes → Bytes
one_digest b = codes "00"

abbrev pub slash_join : Bytes → Bytes → Bytes
slash_join a b = a ++ b

index-read_entries_example :
    (s' : Writer Bytes) × (index buffer_write one_digest slash_join split_path tar none
        (new_writer [])
      ≡ (
        ok (
            add_all split_path
              (files_of buffer-IsWriter buffer-NeverFails one_digest slash_join split_path tar)
              new_file_index),
        s',
      ))
    × (x : Bytes) × (s'.w ≡ [] ++ x)
    × (read_entries (map entry_size (entries_of 0 tar)) 0 (Read.reader 0 x none)
        ≡ (ok (entries_of 0 tar), Read.reader (length x) [] none))
index-read_entries_example =
    index-read_entries buffer-IsWriter buffer-NeverFails one_digest slash_join split_path tar []
      tar-IsPackable (omega arith)

abbrev pub letters : Bytes → Bytes
letters b = codes "0123456789abcdef0123456789abcdef0123456789abcdef0123456789abcdef"

pub letters-IsDigest : IsDigest letters
letters-IsDigest = record { digits = λ b. omega arith; count = λ b. refl }

read_package-write_package_example :
    let sig = signature_of letters (encoded built_header) in
    (n : ℕ) × (w' : Bytes) × (write_package letters buffer_write insertion_sort sh_package
        built_header
        (codes "xyz")
        []
      ≡ (ok n, w'))
    × (x : Bytes) × (w' ≡ [] ++ x)
    × (end : ℕ) × (read_package take_all_ahead insertion_sort (Data.reader 0 x none) ≡ (
      ok (
        new_lead (lead_name sh_package) lead_binary,
        (read_header 62 96 sig, read_header 63 (payload_offset sig) built_header),
      ),
      Data.reader end (codes "xyz") none,
    ))
read_package-write_package_example =
    read_package-write_package buffer-IsWriter buffer-NeverFails insertion_sort-IsSort
      letters-IsDigest take_all_ahead-IsAhead sh_package built_header (codes "xyz") []
      built_header-IsReadable
