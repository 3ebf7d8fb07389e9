-- ===== src/Rpmdump/Packages.antt =====
-- cmd/tar2rpm and cmd/rpmdump: the packages that one writes and the other prints.
use go_rpm.Base.{ℕ, Bytes, List, none, [], ◌∷◌, ◌++◌, ◌≡◌, ◌≢◌, ◌<◌, ◌^◌, All, length, false}
use go_rpm.Io.{WriteReply, IsWriter, NeverFails, ok}
use go_rpm.Tag.{Tag}
use go_rpm.Tag.ReadBack.{IsAhead}
use go_rpm.Tag.Format.{Format}
use go_rpm.Header.Sort.{IsSort}
use go_rpm.Reader.{Reader}
use go_rpm.Reader.Data.{reader}
use go_rpm.Header.{Header}
use go_rpm.Lead.{new_lead, lead_binary}
use go_rpm.Lead.Package.{read_package}
use go_rpm.Files.Append.{file_index_header}
use go_rpm.Tar2rpm.Packages.{lead_name}
use go_rpm.Rpmdump.Printed.{headers_text}
use go_rpm.Files.{add_all, new_file_index}
use go_rpm.Files.Dump.{Row}
use go_rpm.Tar2rpm.{Package}
use go_rpm.Tar2rpm.Index.{TarEntry}
use go_rpm.Tar2rpm.Packed.{IsDigest}
use go_rpm.Tar2rpm.Columns.{IsSplit}
use go_rpm.Tar2rpm.Configured.{IsSoundPackage}
use go_rpm.Tar2rpm.Readable.{HasRoom}
use go_rpm.Tar2rpm.Main.{make_package}
use go_rpm.Tar2rpm.EndToEnd.{KeepsTexts, IsSoundEntry, tar_files, read_package-make_package}
use go_rpm.Rpmdump.{main}
use go_rpm.Rpmdump.Read.{main-read_package}

module _ {S T : Type 0} {io_write : Bytes → S → WriteReply S} {content : S → Bytes}
    (law : IsWriter io_write content) (never : NeverFails io_write)
    {out_write : Bytes → T → WriteReply T} {printed : T → Bytes} (out : IsWriter out_write printed)
    (out_never : NeverFails out_write) {sort : List Tag → List Tag} (sorts : IsSort sort)
    {digest : Bytes → Bytes} (digests : IsDigest digest) {ahead : ℕ → ℕ → ℕ}
    (aheads : IsAhead ahead) (join : Bytes → Bytes → Bytes) (keeps : KeepsTexts join)
    (split : Bytes → Bytes × Bytes) (splits : IsSplit split) (fm : Format)
    (path_join : Bytes → Bytes → Bytes) (table : List Row → Bytes) where
  -- From a configuration and a tar archive with no NUL in their texts, at least one entry and fewer
  -- than 2 ^ 32, all of which can be packed, and a header that has room for their tags: `main` of
  -- tar2rpm writes a package with no error, and `main` of rpmdump, told to print two headers with
  -- neither -json nor -files, ends with no error on it. What rpmdump prints is the text of the two headers
  -- that a client of `Reader` reads from the package (`headers_text`): of each its place, the
  -- length and the count of its prefix, its region tag, and all its tags in their order, with their
  -- names and data. The second of the two has the index of the archive's files. Neither io.Writer ever
  -- fails.
  pub main-make_package :
      (c : Package) (es : List TarEntry) (w : S) (v : T)
      → IsSoundPackage c
      → All IsSoundEntry es
      → es ≢ []
      → length es < 2 ^ 32
      → HasRoom c (add_all split (tar_files digest join split es) new_file_index)
      → (n : ℕ) × (w' : S) × (make_package digest io_write sort join split c es none w ≡ (ok n, w'))
        × (x : Bytes) × (content w' ≡ content w ++ x)
        × (signature : Header) × (hdr : Header) × (s : Reader) × (read_package ahead sort
              (reader 0 x none)
            ≡ (ok (new_lead (lead_name c) lead_binary, (signature, hdr)), s))
        × (file_index_header hdr
            ≡ ok (add_all split (tar_files digest join split es) new_file_index))
        × (v' : T) × (main fm path_join table out_write ahead sort false 2 (reader 0 x none) v
            ≡ (ok tt, v'))
        × (printed v' ≡ printed v ++ headers_text fm (signature ∷ hdr ∷ []) 0)
  main-make_package c es w v sound entries ne lt fits =
      let (n, w', made, x, held, signature, hdr, payload, end, got, indexed, unpacked) =
        read_package-make_package law never sorts digests aheads join keeps split splits c es w
          sound entries ne lt fits in
      let (v', ran, shown) =
        main-read_package aheads sorts fm path_join table out out_never (reader 0 x none) _ _
          signature hdr v got in
      (n, w', made, x, held, signature, hdr, _, got, indexed, v', ran, shown)
