-- ===== src/Tar2rpm/EndTests.antt =====
-- The way from a tar archive to a package and back, at a concrete archive.
use go_rpm.Base.{
  length, ℕ, Bytes, ◌++◌, ◌≡◌, ◌∷◌, [], none, All, All-append, arith, refl, ap, map, ◌==◌, ◌≢◌,
  Bool-cases, inl, inr, bytes_eq,
}
use go_rpm.Io.{ok, buffer_write}
use go_rpm.Io.Buffer.{buffer-IsWriter, buffer-NeverFails}
use go_rpm.Header.{Header}
use go_rpm.Header.Insertion.{insertion_sort, insertion_sort-IsSort}
use go_rpm.Reader.Tests.{take_all_ahead, take_all_ahead-IsAhead}
use go_rpm.Lead.{new_lead, lead_binary}
use go_rpm.Lead.Package.{read_package}
use go_rpm.Files.{add_all, new_file_index, find}
use go_rpm.Files.Mode.{mode}
use go_rpm.Files.Append.{file_index_header}
use go_rpm.Files.Tests.{split_path, after_slash}
use go_rpm.Scpio.RoundTrip.{read_entries, entry_size}
use go_rpm.Text.{index_where}
use go_rpm.Tar2rpm.{kept, is_seen, sense_flags, sense_rest}
use go_rpm.Tar2rpm.Indexed.{entries_of}
use go_rpm.Tar2rpm.Packages.{lead_name}
use go_rpm.Tar2rpm.Columns.{IsSplit}
use go_rpm.Tar2rpm.Configured.{IsSoundPackage}
use go_rpm.Tar2rpm.Readable.{HasRoom}
use go_rpm.Tar2rpm.Main.{make_package}
use go_rpm.Tar2rpm.EndToEnd.{KeepsTexts, IsSoundEntry, tar_files, read_package-make_package}
use go_rpm.Tar2rpm.Tests.{sh_package, tar, tar-IsPackable, slash_join, letters, letters-IsDigest}
use go_rpm.Reader.Data
use go_rpm.Scpio.Read

after_slash_parts :
    (b : ℕ) (p : Bytes × Bytes) → (after_slash b p).0 ++ (after_slash b p).1 ≡ b ∷ (p.0 ++ p.1)
after_slash_parts b ([], f) = elim (Bool-cases (b == 0x2f)) [ inl e ↦ rw e | inr e ↦ rw e ]
after_slash_parts b (x ∷ d, f) = refl

pub split_path-IsSplit : IsSplit split_path
split_path-IsSplit [] = refl
split_path-IsSplit (b ∷ p) =
    rw (after_slash_parts b (split_path p)) (ap (◌∷◌ b) (split_path-IsSplit p))

pub slash_join-KeepsTexts : KeepsTexts slash_join
slash_join-KeepsTexts a b h k = All-append (λ c. c ≢ 0) a b h k

pub sh_package-IsSound : IsSoundPackage sh_package
sh_package-IsSound = omega arith

pub tar-IsSound : All IsSoundEntry tar
tar-IsSound = (
  record { packable = tar-IsPackable.0; named = omega arith; linked = tt; sized = omega arith },
  (
    record { packable = tar-IsPackable.1.0; named = omega arith; linked = tt; sized = omega arith },
    tt,
  ),
)

pub tar-HasRoom :
    HasRoom sh_package
      (add_all split_path (tar_files letters slash_join split_path tar) new_file_index)
unfolding add_all find bytes_eq mode kept is_seen sense_flags sense_rest index_where
tar-HasRoom = omega arith

read_package-make_package_example :
    let f = add_all split_path (tar_files letters slash_join split_path tar) new_file_index in
    (n : ℕ) × (w' : Bytes) × (make_package letters buffer_write insertion_sort slash_join split_path
        sh_package tar none []
      ≡ (ok n, w'))
    × (x : Bytes) × (w' ≡ [] ++ x)
    × (signature : Header) × (hdr : Header) × (payload : Bytes) × (end : ℕ) × (read_package
          take_all_ahead insertion_sort
          (Data.reader 0 x none)
        ≡ (
          ok (new_lead (lead_name sh_package) lead_binary, (signature, hdr)),
          Data.reader end payload none,
        ))
    × (file_index_header hdr ≡ ok f)
    × (read_entries (map entry_size (entries_of 0 tar)) 0 (Read.reader 0 payload none)
        ≡ (ok (entries_of 0 tar), Read.reader (length payload) [] none))
read_package-make_package_example =
    read_package-make_package buffer-IsWriter buffer-NeverFails insertion_sort-IsSort
      letters-IsDigest take_all_ahead-IsAhead slash_join slash_join-KeepsTexts split_path
      split_path-IsSplit sh_package tar [] sh_package-IsSound tar-IsSound (λ e. cc) (omega arith)
      tar-HasRoom
