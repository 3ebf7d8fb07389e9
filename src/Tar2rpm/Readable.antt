-- ===== src/Tar2rpm/Readable.antt =====
-- The payload header that `main` builds can be written and read.
use go_rpm.Base.{
  length, Bytes, List, All, ◌<◌, ◌^◌, ◌+◌, ◌≢◌, ◌≡◌, arith, ◌++◌, refl, All-append, inl, ◌∙◌, [],
  ap, sym, subst, length-append,
}
use go_rpm.Io.{Result, ok}
use go_rpm.Tag.{Error, Tag}
use go_rpm.Tag.ReadBack.{HasNoNul}
use go_rpm.Header.{Header, new_payload_header, set_region_tag}
use go_rpm.Header.Room.{IsOpen, room, add_tags-IsOpen, IsOpen-IsReadable}
use go_rpm.Header.Adds.{add_tags}
use go_rpm.Reader.Parts.{IsReadable}
use go_rpm.Files.{FileIndex, File, add_all, new_file_index}
use go_rpm.Files.Append.{file_index_header}
use go_rpm.Files.Appended.{file_tags}
use go_rpm.Files.Found.{IsPlain}
use go_rpm.Files.RoundTrip.{add_all-IsPlain}
use go_rpm.Tar2rpm.{Package}
use go_rpm.Tar2rpm.Tags.{package_tags}
use go_rpm.Tar2rpm.Build.{build_header}
use go_rpm.Tar2rpm.Built.{fixed_tags, build_header-Adds, file_index_header-build_header}
use go_rpm.Tar2rpm.Addable.{FitsIn, All-FitsIn}
use go_rpm.Tar2rpm.Columns.{IsSoundFile, IsSplit, file_tags-FitsIn}
use go_rpm.Tar2rpm.Configured.{
  IsSoundPackage, package_tags-FitsIn, fixed_tags-FitsIn, fixed_room, room-fixed_tags, room-append,
}

new_payload_header-IsOpen : IsOpen new_payload_header 63
unfolding new_payload_header set_region_tag
new_payload_header-IsOpen = record {
  laid = refl;
  readable = tt;
  wire = tt;
  is_region = inl refl;
  has_region = refl;
}

-- The tags of the payload header.
abbrev pub payload_tags : Package → Bytes → FileIndex → List Tag
payload_tags c digest f = (package_tags c ++ fixed_tags digest) ++ file_tags f

-- A header fits the tags of a configuration and of a file index, with those that every package has
-- and the region.
abbrev pub HasRoom : Package → FileIndex → Type 0
HasRoom c f = room (package_tags c) + fixed_room + room (file_tags f) + 16 < 2 ^ 32

open-IsReadable :
    (ts : List Tag) (hdr : Header)
    → All FitsIn ts
    → 0 < length ts
    → room ts + 16 < 2 ^ 32
    → add_tags ts new_payload_header ≡ (ok tt, hdr)
    → IsReadable hdr 63
unfolding new_payload_header set_region_tag
open-IsReadable ts hdr h some fits ran =
    let (hdr', ran', opened, le, lt) =
      add_tags-IsOpen ts new_payload_header 63 new_payload_header-IsOpen
        (All-FitsIn ts h (omega arith)) (omega arith) in
    let same : hdr' ≡ hdr = ap (λ (x : Result Error (Unit {0}) × Header). x.1) (sym ran' ∙ ran) in
    subst (λ (g : Header). IsReadable g 63) same
      (IsOpen-IsReadable hdr' 63 opened (omega arith) (omega arith))

-- A sound configuration and sound files, at least one, for which a header has room: the payload
-- header is built, can be written and read, and has the index of the files.
pub build_header-IsReadable :
    (c : Package) (digest : Bytes) (split : Bytes → Bytes × Bytes) (rs : List File)
    → IsSoundPackage c
    → HasNoNul digest
    → length digest ≡ 64
    → IsSplit split
    → All IsSoundFile rs
    → rs ≢ []
    → length rs < 2 ^ 32
    → HasRoom c (add_all split rs new_file_index)
    → let f = add_all split rs new_file_index in
      (hdr : Header) × (build_header c digest f new_payload_header ≡ (ok tt, hdr))
      × IsReadable hdr 63
      × (file_index_header hdr ≡ ok f)
build_header-IsReadable c digest split rs sound text size law files ne lt fits =
    let f : FileIndex = add_all split rs new_file_index in
    let plain : IsPlain f = add_all-IsPlain split rs ne (omega arith) in
    let (hdr, ran, _, found) = file_index_header-build_header c digest split rs ne (omega arith) in
    let total : room (payload_tags c digest f)
        ≡ room (package_tags c) + fixed_room + room (file_tags f) =
      omega (
        arith,
        room-append (package_tags c ++ fixed_tags digest) (file_tags f),
        room-append (package_tags c) (fixed_tags digest),
        room-fixed_tags digest size,
      ) in
    (
      hdr,
      ran,
      open-IsReadable (payload_tags c digest f) hdr
          (All-append FitsIn (package_tags c ++ fixed_tags digest) (file_tags f)
            (All-append FitsIn (package_tags c) (fixed_tags digest) (package_tags-FitsIn c sound)
              (fixed_tags-FitsIn digest text))
            (file_tags-FitsIn split rs law files ne lt))
          (omega (arith, length-append (package_tags c ++ fixed_tags digest) (file_tags f)))
          (omega arith) (sym (build_header-Adds c digest f plain.files new_payload_header) ∙ ran),
      found,
    )
