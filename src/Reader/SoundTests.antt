-- ===== src/Reader/SoundTests.antt =====
-- What `Next` accepts, at concrete streams.
use go_rpm.Base.{length, ◌+◌, Bytes, List, ◌++◌, ◌∷◌, [], none, ◌≡◌, refl, bytes_eq}
use go_rpm.Io.{ok, read_full, discard}
use go_rpm.Tag.{Tag, tag_uint32}
use go_rpm.Header.{RpmHeaderPre}
use go_rpm.Header.Encoding.{encoded}
use go_rpm.Header.Tests.{built_header}
use go_rpm.Header.Insertion.{insertion_sort, insertion_sort-IsSort}
use go_rpm.Reader.{
  next, get_pre, align, read_pre, read_tags, get_tag_header, tag_aligned, limited, skip_padding,
  read_data, read_all_data, split_region, split_last,
}
use go_rpm.Reader.Data.{reader}
use go_rpm.Reader.Next.{padding}
use go_rpm.Reader.Parts.{read_header}
use go_rpm.Reader.RoundTrip.{next-encoded}
use go_rpm.Reader.Sound.{IsFound, next-IsFound}
use go_rpm.Reader.Tests.{take_all_ahead, take_all_ahead-IsAhead, built_header-IsReadable}
use go_rpm.Tag.Read.{make, read_from}

next-IsFound_example :
    (pre : RpmHeaderPre) × (ts : List Tag) × IsFound
      (reader 97 (padding 97 ++ (encoded built_header ++ 1 ∷ [])) none)
      (read_header 63 97 built_header)
      pre
      ts
      (reader (97 + 7 + length (encoded built_header)) (1 ∷ []) none)
next-IsFound_example =
    next-IsFound take_all_ahead-IsAhead insertion_sort-IsSort
      (reader 97 (padding 97 ++ (encoded built_header ++ 1 ∷ [])) none)
      (read_header 63 97 built_header)
      (reader (97 + 7 + length (encoded built_header)) (1 ∷ []) none)
      (next-encoded take_all_ahead-IsAhead insertion_sort-IsSort built_header 63 97 (1 ∷ []) none
        built_header-IsReadable)

-- One tag of an int32 at offset 4 of 8 bytes of data, which hold 7 and 9.
abbrev late : Bytes
late =
    0x8e ∷ 0xad ∷ 0xe8 ∷ 0x1 ∷ 0 ∷ 0 ∷ 0 ∷ 0 ∷ 0 ∷ 0 ∷ 0 ∷ 1 ∷ 0 ∷ 0 ∷ 0 ∷ 8 ∷ 0 ∷ 0 ∷ 3 ∷ 0xe8 ∷ 0
    ∷ 0 ∷ 0 ∷ 4 ∷ 0 ∷ 0 ∷ 0 ∷ 4 ∷ 0 ∷ 0 ∷ 0 ∷ 1 ∷ 0 ∷ 0 ∷ 0 ∷ 7 ∷ 0 ∷ 0 ∷ 0 ∷ 9 ∷ []

abbrev late_tag : Tag
late_tag = record {
  head = record { tag = 1000; type = 4; offset = 4; count = 1 };
  idx = 0;
  off = 32;
  body = tag_uint32 (7 ∷ []);
}

-- The first four bytes are taken, and the next four are left.
late_run : next take_all_ahead insertion_sort (reader 0 late none) ≡ (
  ok (record { pre = get_pre late; off = 8; region = none; tags = late_tag ∷ [] }),
  reader 36 (0 ∷ 0 ∷ 0 ∷ 9 ∷ []) none,
)
unfolding next align discard read_pre read_full get_pre bytes_eq read_tags get_tag_header
    insertion_sort read_all_data read_data tag_aligned make limited read_from skip_padding
    split_region split_last
late_run = refl
