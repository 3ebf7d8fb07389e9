-- ===== src/Header/Encoding.antt =====
-- A header on the wire, described apart from the code that writes it, and when it can be written.
use go_rpm.Tag.{Tag, tag_bytes, tag_size, bin_type}
use go_rpm.Tag.Data.{put_tag_header}
use go_rpm.Header.{
  Header, RpmHeaderPre, u32, rpm_header_magic, neg_tags, set_region, length, Bytes, ◌+◌, ℕ, Option,
}
use go_rpm.Header.Layout.{IsLaid, IsLaidHeader, data_size}
use go_rpm.Header.Sort.{IsStrict}
use go_rpm.Header.Write.{put_pre}
use go_rpm.Header.Written.{
  tag_headers, laid_data, region_header, region_data, IsSetRegion, length-tag_headers,
  length-laid_data,
}
use go_rpm.Base.{
  ◌+◌, Bytes, ◌≢◌, ℕ, Option, ◌*◌, List, [], some, ◌++◌, ◌<◌, none, All, ◌^◌, ◌≡◌, ◌∷◌, arith, ◌≤◌,
  length-append, refl,
}

-- A region tag as it is written behind data that end at `end`, in a header of `n` other tags.
abbrev pub written_region : ℕ → ℕ → Option Tag → Option Tag
written_region n end none = none
written_region n end (some t) = some (record t {
  head = record t.head { offset = end };
  body =
      tag_bytes
        (put_tag_header (record {
          tag = t.head.tag;
          type = bin_type;
          offset = neg_tags (n + 1);
          count = tag_size;
        }))
        0;
})

abbrev pub region_count : Option Tag → ℕ
region_count none = 0
region_count (some t) = 1

abbrev pub region_of_header : Header → Option Tag
region_of_header hdr = written_region (length hdr.tags) hdr.off hdr.region

abbrev pub written_pre : Header → RpmHeaderPre
written_pre hdr = record {
  magic = rpm_header_magic;
  count = u32 (length hdr.tags + region_count hdr.region);
  length = hdr.off + 16 * region_count hdr.region;
}

-- A header on the wire: prefix, region tag, tags, data, region data.
abbrev pub encoded : Header → Bytes
encoded hdr =
    (put_pre (written_pre hdr) ++ region_header (region_of_header hdr))
    ++ (tag_headers hdr.tags ++ (laid_data 0 hdr.tags ++ region_data (region_of_header hdr)))

-- What `WriteTo` can be called on: laid out by `Add`, no data empty, and room for the region.
pub record IsWritable (hdr : Header) : Type 0 where
  pub laid : IsLaidHeader hdr
  pub some_tags : hdr.tags ≢ []
  pub some_data : All (λ t. 0 < data_size t) hdr.tags
  pub fits : hdr.off + 16 < 2 ^ 32

-- With no data empty, each tag lies strictly behind those before it.
laid_behind :
    (cur : ℕ) (ts : List Tag) (end n : ℕ)
    → IsLaid cur ts end
    → All (λ t. 0 < data_size t) ts
    → n < cur
    → All (λ t. n < t.head.offset) ts
laid_behind cur [] end n h d lt = tt
laid_behind cur (t ∷ ts) end n (p, h) (d, ds) lt = (
  omega (arith, p.placed),
  laid_behind (t.head.offset + data_size t) ts end n h ds (omega (arith, p.placed)),
)

pub IsLaid-IsStrict :
    (cur : ℕ) (ts : List Tag) (end : ℕ)
    → IsLaid cur ts end
    → All (λ t. 0 < data_size t) ts
    → IsStrict ts
IsLaid-IsStrict cur [] end h d = tt
IsLaid-IsStrict cur (t ∷ ts) end (p, h) (d, ds) = (
  laid_behind (t.head.offset + data_size t) ts end t.head.offset h ds (omega arith),
  IsLaid-IsStrict (t.head.offset + data_size t) ts end h ds,
)

pub set_region-written :
    (hdr : Header)
    → hdr.off + 16 < 2 ^ 32
    → set_region
        (record { magic = rpm_header_magic; count = u32 (length hdr.tags); length = hdr.off })
        hdr
      ≡ (record hdr { region = region_of_header hdr }, written_pre hdr)
unfolding set_region
set_region-written hdr h = ground arith

-- The header as `WriteTo` leaves it.
abbrev pub with_region : Header → Header
with_region hdr = record hdr { region = region_of_header hdr }

pub region-IsSetRegion : (n end : ℕ) (r : Option Tag) → IsSetRegion (written_region n end r)
region-IsSetRegion n end none = tt
region-IsSetRegion n end (some t) = tt

pub length-region :
    (n end : ℕ) (r : Option Tag)
    → (length (region_header (written_region n end r)) ≡ 16 * region_count r)
      × (length (region_data (written_region n end r)) ≡ 16 * region_count r)
length-region n end none = (refl, refl)
length-region n end (some t) = (refl, refl)

region_count-le : (r : Option Tag) → region_count r ≤ 1
region_count-le none = omega arith
region_count-le (some t) = omega arith

-- The whole length of a header.
pub length-encoded :
    (hdr : Header)
    → IsWritable hdr
    → length (encoded hdr)
      ≡ 16
        + (length hdr.tags + region_count hdr.region) * 16
        + (hdr.off + 16 * region_count hdr.region)
length-encoded hdr h =
    let region = region_of_header hdr in
    omega (
      arith,
      length-append (put_pre (written_pre hdr) ++ region_header region)
          (tag_headers hdr.tags ++ (laid_data 0 hdr.tags ++ region_data region)),
      length-append (put_pre (written_pre hdr)) (region_header region),
      length-append (tag_headers hdr.tags) (laid_data 0 hdr.tags ++ region_data region),
      length-append (laid_data 0 hdr.tags) (region_data region),
      length-tag_headers hdr.tags,
      length-laid_data 0 hdr.tags hdr.off h.laid,
      (length-region (length hdr.tags) hdr.off hdr.region).0,
      (length-region (length hdr.tags) hdr.off hdr.region).1,
    )

-- `WriteTo` returns the length modulo 2 ^ 32, since its sum is a uint32.
abbrev pub returned : Header → ℕ
returned hdr = u32 (u32 ((written_pre hdr).count * tag_size) + (written_pre hdr).length + 16)

pub returned-encoded : (hdr : Header) → IsWritable hdr → returned hdr ≡ u32 (length (encoded hdr))
returned-encoded hdr h = rw (length-encoded hdr h) (omega arith)
