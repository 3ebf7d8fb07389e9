-- ===== src/Tar2rpm/EndToEnd.antt =====
-- From a tar archive to a package, and back: everything that tar2rpm puts into a package is read from it
-- by the readers of this library.
use go_rpm.Base.{
  length, ℕ, Bytes, List, All, ◌<◌, ◌^◌, ◌≢◌, ◌≡◌, ◌++◌, ◌∷◌, [], map, none, arith, refl, ap, sym,
  ◌∙◌, ◌==◌, Bool-cases, inl, inr,
}
use go_rpm.Io.{WriteReply, IsWriter, NeverFails, ok}
use go_rpm.Io.Buffer.{buffer-IsWriter, buffer-NeverFails}
use go_rpm.Tag.{Tag}
use go_rpm.Tag.ReadBack.{HasNoNul, IsAhead}
use go_rpm.Header.{Header}
use go_rpm.Header.Sort.{IsSort}
use go_rpm.Header.Encoding.{encoded}
use go_rpm.Reader.Parts.{read_header}
use go_rpm.Reader.Data.{reader}
use go_rpm.Lead.{new_lead, lead_binary}
use go_rpm.Lead.Package.{read_package, payload_offset}
use go_rpm.Files.{File, add_all, new_file_index}
use go_rpm.Files.Append.{file_index_header}
use go_rpm.Files.RoundTrip.{file_index_header-read_header}
use go_rpm.Scpio.RoundTrip.{read_entries, entry_size}
use go_rpm.Tar2rpm.{Package}
use go_rpm.Tar2rpm.Index.{TarEntry, type_reg, concat}
use go_rpm.Tar2rpm.Indexed.{IsPackable, files_of, sum_of, entries_of, mode_of, index-read_entries}
use go_rpm.Tar2rpm.Packages.{lead_name, signature_of}
use go_rpm.Tar2rpm.Packed.{IsDigest, read_package-write_package}
use go_rpm.Tar2rpm.Columns.{IsSoundFile, IsSplit}
use go_rpm.Tar2rpm.Configured.{IsSoundPackage}
use go_rpm.Tar2rpm.Readable.{HasRoom, build_header-IsReadable}
use go_rpm.Tar2rpm.Main.{make_package}
use go_rpm.Files.Mode
use go_rpm.Scpio.Read

-- path.Join, of texts without NUL.
abbrev pub KeepsTexts : (Bytes → Bytes → Bytes) → Type 0
KeepsTexts join = (a b : Bytes) → HasNoNul a → HasNoNul b → HasNoNul (join a b)

-- An entry that can be packed, with no NUL in its texts and its size in 64 bits.
pub record IsSoundEntry (e : TarEntry) : Type 0 where
  pub packable : IsPackable e
  pub named : HasNoNul e.name
  pub linked : HasNoNul e.linkname
  pub sized : e.size < 2 ^ 64

mode-small : (m v : ℕ) → Mode.mode m ≡ ok v → v < 2 ^ 16
mode-small m v e = elim (Mode.mode-os_mode m) [
  | inl (odd, refused) ↦ cc
  | inr (u, taken, (small, back)) ↦ let same : u ≡ v = ap mode_of (sym taken ∙ e) in omega arith
]

packable : (es : List TarEntry) → All IsSoundEntry es → All IsPackable es
packable [] h = tt
packable (e ∷ es) (p, h) = (p.packable, packable es h)

sum-HasNoNul :
    (digest : Bytes → Bytes) (e : TarEntry)
    → IsDigest digest
    → HasNoNul (sum_of buffer-IsWriter buffer-NeverFails digest e)
sum-HasNoNul digest e digests = elim (Bool-cases (e.typeflag == type_reg)) [
  | inl regular ↦ rw regular (digests.digits (concat e.pieces))
  | inr other ↦ rw other tt
]

module _ (digest : Bytes → Bytes) (join : Bytes → Bytes → Bytes)
    (split : Bytes → Bytes × Bytes) where
  -- The files of a tar archive.
  abbrev pub tar_files : List TarEntry → List File
  tar_files = files_of buffer-IsWriter buffer-NeverFails digest join split

  tar_files-IsSound :
      (es : List TarEntry)
      → IsDigest digest
      → KeepsTexts join
      → All IsSoundEntry es
      → All IsSoundFile (tar_files es)
  tar_files-IsSound [] d k h = tt
  tar_files-IsSound (e ∷ es) d k (p, h) =
      let (v, taken) = p.packable.taken in
      (
        record {
          named = k (0x2f ∷ []) e.name (omega arith) p.named;
          owned = (tt, tt);
          linked = p.linked;
          digested = sum-HasNoNul digest e d;
          sixteen = omega (arith, mode-small e.mode v taken, ap mode_of taken);
          words = (omega arith, omega arith);
          sized = p.sized;
        },
        tar_files-IsSound es d k h,
      )

  length-tar_files : (es : List TarEntry) → length (tar_files es) ≡ length es
  length-tar_files [] = refl
  length-tar_files (e ∷ es) = omega (arith, length-tar_files es)

  tar_files_ne : (es : List TarEntry) → es ≢ [] → tar_files es ≢ []
  tar_files_ne [] h = absurd (h refl)
  tar_files_ne (e ∷ es) h = λ k. cc

module _ {S : Type 0} {io_write : Bytes → S → WriteReply S} {content : S → Bytes}
    (law : IsWriter io_write content) (never : NeverFails io_write) {sort : List Tag → List Tag}
    (sorts : IsSort sort) {digest : Bytes → Bytes} (digests : IsDigest digest) {ahead : ℕ → ℕ → ℕ}
    (aheads : IsAhead ahead) (join : Bytes → Bytes → Bytes) (keeps : KeepsTexts join)
    (split : Bytes → Bytes × Bytes) (splits : IsSplit split) where
  -- On an io.Writer that never fails, from a configuration and a tar archive with no NUL in their
  -- texts, at least one entry and fewer than 2 ^ 32, all of which can be packed, and a header that has
  -- room for their tags: `main` writes a package with no error. A client of `Reader` gets a lead, a
  -- signature header and a payload header from it. `FileIndexHeader` of the payload header gives the
  -- index of the archive's files, and a `Reader` of package scpio that is told their sizes gets the
  -- numbers and the data of all entries, in order, from what is left, and reads it to its end.
  pub read_package-make_package :
      (c : Package) (es : List TarEntry) (w : S)
      → IsSoundPackage c
      → All IsSoundEntry es
      → es ≢ []
      → length es < 2 ^ 32
      → HasRoom c (add_all split (tar_files digest join split es) new_file_index)
      → (n : ℕ) × (w' : S) × (make_package digest io_write sort join split c es none w ≡ (ok n, w'))
        × (x : Bytes) × (content w' ≡ content w ++ x)
        × (signature : Header) × (hdr : Header) × (payload : Bytes) × (end : ℕ) × (read_package
              ahead sort
              (reader 0 x none)
            ≡ (ok (new_lead (lead_name c) lead_binary, (signature, hdr)), reader end payload none))
        × (file_index_header hdr
            ≡ ok (add_all split (tar_files digest join split es) new_file_index))
        × (read_entries (map entry_size (entries_of 0 es)) 0 (Read.reader 0 payload none)
            ≡ (ok (entries_of 0 es), Read.reader (length payload) [] none))
  unfolding make_package
  read_package-make_package c es w sound entries ne lt fits =
      let rs : List File = tar_files digest join split es in
      let few : length rs ≡ length es = length-tar_files digest join split es in
      let (s, indexed, x, wrote, unpacked) =
        index-read_entries buffer-IsWriter buffer-NeverFails digest join split es []
          (packable es entries) lt in
      let (hdr, built, readable, found) =
        build_header-IsReadable c (digest x) split rs sound (digests.digits x) (digests.count x)
          splits (tar_files-IsSound digest join split es digests keeps entries)
          (tar_files_ne digest join split es ne) (omega arith) fits in
      let (n, w', packed, y, held, end, got) =
        read_package-write_package law never sorts digests aheads c hdr x w readable in
      (
        n,
        w',
        rw (indexed, wrote, built, packed) refl,
        y,
        held,
        _,
        read_header 63 (payload_offset (signature_of digest (encoded hdr))) hdr,
        x,
        end,
        got,
        file_index_header-read_header hdr 63 _ ∙ found,
        unpacked,
      )
