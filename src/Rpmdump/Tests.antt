-- ===== src/Rpmdump/Tests.antt =====
-- Runs of rpmdump at concrete packages.
use go_rpm.Base.{ℕ, Bytes, List, none, [], ◌∷◌, ◌++◌, ◌≡◌, arith, codes, false}
use go_rpm.Io.{ok, buffer_write}
use go_rpm.Io.Buffer.{buffer-IsWriter, buffer-NeverFails}
use go_rpm.Header.Encoding.{encoded}
use go_rpm.Header.Insertion.{insertion_sort, insertion_sort-IsSort}
use go_rpm.Header.Tests.{built_header}
use go_rpm.Header.Write.{put_pre}
use go_rpm.Header.Written.{tag_headers}
use go_rpm.Lead.{new_lead, read_lead, put_lead, lead_binary}
use go_rpm.Lead.Package.{payload_offset}
use go_rpm.Lead.RoundTrip.{new_lead-IsLead}
use go_rpm.Reader.Next.{padding, wire_pre}
use go_rpm.Reader.Tests.{take_all_ahead, take_all_ahead-IsAhead, built_header-IsReadable}
use go_rpm.Tag.{Tag, unset}
use go_rpm.Tag.DumpTests.{plain}
use go_rpm.Files.Dump.{Row}
use go_rpm.Files.Tests.{split_path}
use go_rpm.Tar2rpm.Main.{make_package}
use go_rpm.Tar2rpm.Tests.{sh_package, tar, slash_join, letters, letters-IsDigest}
use go_rpm.Tar2rpm.EndTests.{
  split_path-IsSplit, slash_join-KeepsTexts, sh_package-IsSound, tar-IsSound, tar-HasRoom,
}
use go_rpm.Reader.{Reader}
use go_rpm.Header.{Header}
use go_rpm.Files.{add_all, new_file_index}
use go_rpm.Files.Append.{file_index_header}
use go_rpm.Lead.Package.{read_package}
use go_rpm.Tar2rpm.Packages.{lead_name}
use go_rpm.Tar2rpm.EndToEnd.{tar_files}
use go_rpm.Rpmdump.Printed.{headers_text}
use go_rpm.Reader.Data.{reader}
use go_rpm.Rpmdump.{main}
use go_rpm.Rpmdump.Dumps.{package_end, main-package_end}
use go_rpm.Rpmdump.Read.{main-cut}
use go_rpm.Rpmdump.Packages.{main-make_package}

abbrev no_table : List Row → Bytes
no_table rows = []

-- A lead and a header, and behind them part of a prefix.
abbrev broken : Bytes
broken =
    put_lead (new_lead (codes "foo") lead_binary)
    ++ (padding 96 ++ (encoded built_header ++ 0x8e ∷ 0xad ∷ []))

main-package_end_example :
    (main plain slash_join no_table buffer_write take_all_ahead insertion_sort false 2
      (reader 0 broken none)
      []).0
    ≡ package_end take_all_ahead insertion_sort 2 (read_lead (reader 0 broken none))
main-package_end_example =
    main-package_end take_all_ahead-IsAhead insertion_sort-IsSort plain slash_join no_table
      buffer-IsWriter buffer-NeverFails 2 (reader 0 broken none) []

abbrev first_tag : Tag
first_tag = record {
  head = record { tag = 1000; type = 4; offset = 0; count = 1 };
  idx = 0;
  off = 0;
  body = unset;
}

-- A header of two tags with the tag header of one of them.
main-cut_example :
    (main plain slash_join no_table buffer_write take_all_ahead insertion_sort false 2
      (reader 0
        (put_lead (new_lead (codes "foo") lead_binary)
          ++ (padding 96
              ++ (encoded built_header
                  ++ (padding (payload_offset built_header)
                      ++ (put_pre (wire_pre 2 8) ++ tag_headers (first_tag ∷ []))))))
        none)
      []).0
    ≡ ok tt
main-cut_example =
    main-cut take_all_ahead-IsAhead insertion_sort-IsSort plain slash_join no_table buffer-IsWriter
      buffer-NeverFails (new_lead (codes "foo") lead_binary) built_header 63 8 2 (first_tag ∷ []) []
      (new_lead-IsLead (codes "foo") lead_binary (omega arith)) built_header-IsReadable
      (omega arith) (omega arith) (omega arith) (omega arith)

main-make_package_example :
    (n : ℕ) × (w' : Bytes) × (make_package letters buffer_write insertion_sort slash_join split_path
        sh_package tar none []
      ≡ (ok n, w'))
    × (x : Bytes) × (w' ≡ [] ++ x)
    × (signature : Header) × (hdr : Header) × (s : Reader) × (read_package take_all_ahead
          insertion_sort
          (reader 0 x none)
        ≡ (ok (new_lead (lead_name sh_package) lead_binary, (signature, hdr)), s))
    × (file_index_header hdr
        ≡ ok (add_all split_path (tar_files letters slash_join split_path tar) new_file_index))
    × (v' : Bytes) × (main plain slash_join no_table buffer_write take_all_ahead insertion_sort
          false 2
          (reader 0 x none)
          []
        ≡ (ok tt, v'))
    × (v' ≡ [] ++ headers_text plain (signature ∷ hdr ∷ []) 0)
main-make_package_example =
    main-make_package buffer-IsWriter buffer-NeverFails buffer-IsWriter buffer-NeverFails
      insertion_sort-IsSort letters-IsDigest take_all_ahead-IsAhead slash_join slash_join-KeepsTexts
      split_path split_path-IsSplit plain slash_join no_table sh_package tar [] []
      sh_package-IsSound tar-IsSound (λ e. cc) (omega arith) tar-HasRoom
