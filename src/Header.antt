-- ===== src/Header.antt =====
-- header.go: a header under construction. `Add` and its callers, regions, alignment.
pub mod Write
pub mod Layout
pub mod Sort
pub mod Written
pub mod Encoding
pub mod WriteTo
pub mod WriteOk
pub mod Many
pub mod Insertion
pub mod Adds
pub mod Room
pub mod Tests
use go_rpm.Io.{Op, Result, ok, err, pure, fail, ◌>>=◌, ◌>>◌}
use go_rpm.Tag.{
  TagHeader, TagData, tag_bytes, tag_string, tag_uint16, tag_uint32, tag_uint64, unset, Tag, Error,
  int16_type, int32_type, int64_type, string_type, i18n_string_type, string_array_type, bin_type,
  header_signatures, header_immutable, tag_size,
}
use go_rpm.Tag.Data.{len, put_tag_header}
use go_rpm.Base.{
  ℕ, zeros, Option, length, Bytes, ◌+◌, some, ◌%◌, ◌∷◌, if◌then◌else◌, List, ◌^◌, none, and_not,
  ◌==◌, ◌++◌, [], ◌-◌, ◌*◌,
}

-- uint32 arithmetic.
abbrev pub u32 : ℕ → ℕ
u32 n = n % 2 ^ 32

-- `rpmHeaderMagic`.
abbrev pub rpm_header_magic : Bytes
rpm_header_magic = 0x8e ∷ 0xad ∷ 0xe8 ∷ 0x1 ∷ 0 ∷ 0 ∷ 0 ∷ 0 ∷ []

pub record RpmHeaderPre : Type 0 where
  pub magic : Bytes
  pub count : ℕ
  pub length : ℕ

pub record Header : Type 0 where
  pub pre : RpmHeaderPre
  pub off : ℕ
  pub region : Option Tag
  pub tags : List Tag

-- `new(Header)`.
abbrev pub zero_header : Header
zero_header = record {
  pre = record { magic = zeros 8; count = 0; length = 0 };
  off = 0;
  region = none;
  tags = [];
}

-- `SetRegion`: the region tag has no data yet.
unfoldable pub set_region_tag : ℕ → Header → Header
set_region_tag tag hdr = record hdr {
  region = some (record {
    head = record { tag = tag; type = bin_type; offset = 0; count = tag_size };
    idx = 0;
    off = 0;
    body = unset;
  });
}

unfoldable pub new_signature_header : Header
unfolding set_region_tag
new_signature_header = set_region_tag header_signatures zero_header

unfoldable pub new_payload_header : Header
unfolding set_region_tag
new_payload_header = set_region_tag header_immutable zero_header

unfoldable pub align : ℕ → Header → ℕ
align n hdr = and_not (u32 (hdr.off + n)) n

-- The switch on the type in `Add`.
unfoldable pub aligned_off : ℕ → Header → ℕ
unfolding align
aligned_off type hdr =
    if type == int16_type
    then align 0x1 hdr
    else if type == int32_type
    then align 0x3 hdr
    else if type == int64_type
    then align 0x7 hdr
    else hdr.off

add_sized : Tag → ℕ → Header → Result Error (ℕ × TagData) → Result Error (Unit {0}) × Header
add_sized t off hdr (ok (n, body)) = (
  ok tt,
  record hdr {
    off = u32 (off + u32 n);
    tags = hdr.tags ++ record t { head = record t.head { offset = off }; body = body } ∷ [];
  },
)
add_sized t off hdr (err e) = (err e, record hdr { off = off })

unfoldable pub add : Tag → Op Header Error (Unit {0})
unfolding aligned_off add_sized
add t hdr = add_sized t (aligned_off t.head.type hdr) hdr (len t.body)

-- A tag that is to be added: `Add` sets its offset.
abbrev pub new_tag : ℕ → ℕ → ℕ → TagData → Tag
new_tag tag type count body = record {
  head = record { tag = tag; type = type; offset = 0; count = count };
  idx = 0;
  off = 0;
  body = body;
}

-- `addString`, and its two callers `AddString` and `AddStringI18N`.
unfoldable pub add_string_of : ℕ → ℕ → Bytes → Op Header Error (Unit {0})
unfolding add
add_string_of tag type v = add (new_tag tag type 1 (tag_string (v ∷ []) (length v + 1)))

unfoldable pub add_string : ℕ → Bytes → Op Header Error (Unit {0})
unfolding add_string_of
add_string tag = add_string_of tag string_type

unfoldable pub add_string_i18n : ℕ → Bytes → Op Header Error (Unit {0})
unfolding add_string_of
add_string_i18n tag = add_string_of tag i18n_string_type

unfoldable pub add_string_array : ℕ → List Bytes → Op Header Error (Unit {0})
unfolding add
add_string_array tag vs = add (new_tag tag string_array_type (u32 (length vs)) (tag_string vs 0))

unfoldable pub add_int16 : ℕ → List ℕ → Op Header Error (Unit {0})
unfolding add
add_int16 tag vs = add (new_tag tag int16_type (u32 (length vs)) (tag_uint16 vs))

unfoldable pub add_int32 : ℕ → List ℕ → Op Header Error (Unit {0})
unfolding add
add_int32 tag vs = add (new_tag tag int32_type (u32 (length vs)) (tag_uint32 vs))

unfoldable pub add_int64 : ℕ → List ℕ → Op Header Error (Unit {0})
unfolding add
add_int64 tag vs = add (new_tag tag int64_type (u32 (length vs)) (tag_uint64 vs))

unfoldable pub add_bin : ℕ → Bytes → Op Header Error (Unit {0})
unfolding add
add_bin tag b = add (new_tag tag bin_type (u32 (length b)) (tag_bytes b 0))

-- `uint32(-int32(n) * tagSize)`: two's complement.
abbrev pub neg_tags : ℕ → ℕ
neg_tags n = (2 ^ 32 - u32 (n * tag_size)) % 2 ^ 32

region_tag : Header → Tag → Tag
region_tag hdr t = record t {
  head = record t.head { offset = hdr.off };
  body =
      tag_bytes
        (put_tag_header (record {
          tag = t.head.tag;
          type = bin_type;
          offset = neg_tags (length hdr.tags + 1);
          count = tag_size;
        }))
        0;
}

-- `setRegion`: the header and the prefix afterwards. Its binary.Write is into a bytes.Buffer, which
-- does not fail.
unfoldable pub set_region : RpmHeaderPre → Header → Header × RpmHeaderPre
unfolding region_tag
set_region pre hdr = elim hdr.region [
  | none ↦ (hdr, pre)
  | some t ↦ (
    record hdr { region = some (region_tag hdr t) },
    record pre { length = u32 (pre.length + tag_size); count = u32 (pre.count + 1) },
  )
]

-- `Region`: the header, its region set.
unfoldable pub region_of : Header → Header × Option Tag
unfolding set_region
region_of hdr = let (hdr', _) = set_region zero_header.pre hdr in (hdr', hdr'.region)
