-- ===== src/Reader/Parts.antt =====
-- A header with a region on the wire in the order that `Next` reads it.
use go_rpm.Header.{set_region_tag, Header, neg_tags, RpmHeaderPre, u32}
use go_rpm.Reader.Numbered.{
  laid_data_concat, sort-region, map_concat, split_last_concat, IsLaid-numbered, laid_data-numbered,
}
use go_rpm.Header.Sort.{IsStrict, IsSort}
use go_rpm.Reader.Next.{padding, wire_pre, align-padding, read_pre-put_pre, read_all_data-from}
use go_rpm.Reader.Data.{reader}
use go_rpm.Reader.{
  next, ℕ, Header, Tag, header_immutable, header_signatures, ok, split_region, read_tags,
}
use go_rpm.Base.{
  ℕ, ◌+◌, none, length, All, List, map, Bytes, Option, ◌<◌, ◌^◌, ◌≡◌, ◌⊎◌, ◌++◌, ◌∷◌, [], ◌≤◌, ◌*◌,
  arith, ap, ◌≢◌, sym, some, ◌==◌, ◌%◌, length-replicate, ◌||◌, ◌-◌, true, ◌∙◌, append_assoc,
}
use go_rpm.Tag.{Tag, bin_type, tag_bytes, header_immutable, header_signatures}
use go_rpm.Header.Encoding.{
  written_pre, IsWritable, IsLaid-IsStrict, encoded, region_of_header, region_count,
}
use go_rpm.Tag.ReadBack.{IsAhead}
use go_rpm.Reader.Loop.{IsReadableTag, found, numbered, fresh}
use go_rpm.Tag.Data.{put_tag_header}
use go_rpm.Reader.Tags.{IsWireHeader, read_tags-tag_headers}
use go_rpm.Header.Layout.{IsLaid, data_size, IsLaid-concat}
use go_rpm.Header.Write.{put_pre}
use go_rpm.Header.Written.{tag_headers, laid_data, region_header, region_data}
use go_rpm.Io.{ok}
use go_rpm.Tag.Written.{data_bytes}

-- What `Next` reads back: a header that `Add` laid out, with a region, whose tags have types that fit
-- their data and fields that fit 32 bits.
pub record IsReadable (hdr : Header) (region : ℕ) : Type 0 where
  pub writable : IsWritable hdr
  pub readable : All IsReadableTag hdr.tags
  pub wire : All (λ t. IsWireHeader t.head) hdr.tags
  pub few : length hdr.tags + 1 < 2 ^ 32
  pub is_region : (region ≡ header_immutable) ⊎ (region ≡ header_signatures)
  pub has_region : hdr.region ≡ (set_region_tag region hdr).region

-- Where the data begin.
abbrev pub data_start : ℕ → Header → ℕ
data_start o hdr = o + length (padding o) + 16 + (length hdr.tags + 1) * 16

-- The header as it is read: the tags with their places in the stream.
abbrev pub read_header : ℕ → ℕ → Header → Header
read_header region o hdr = set_region_tag region (record {
  pre = written_pre hdr;
  off = hdr.off;
  region = none;
  tags = map (found (data_start o hdr)) (numbered 1 hdr.tags);
})

-- The region tag on the wire.
abbrev pub wire_region : ℕ → ℕ → ℕ → Tag
wire_region region n end = record {
  head = record { tag = region; type = bin_type; offset = end; count = 16 };
  idx = 0;
  off = 0;
  body =
      tag_bytes
        (put_tag_header
          (record { tag = region; type = bin_type; offset = neg_tags (n + 1); count = 16 }))
        0;
}

All-some_data : (ts : List Tag) → All IsReadableTag ts → All (λ t. 0 < data_size t) ts
All-some_data [] h = tt
All-some_data (t ∷ ts) (p, h) = (p.some_data, All-some_data ts h)

-- A region tag at the end becomes the header's region.
split_region-region :
    (pre : RpmHeaderPre) (ts front : List Tag) (lt : Tag)
    → (lt.head.tag ≡ header_immutable) ⊎ (lt.head.tag ≡ header_signatures)
    → split_region pre ts (some (front, lt))
      ≡ set_region_tag lt.head.tag
          (record { pre = pre; off = lt.head.offset; region = none; tags = front })
unfolding split_region
split_region-region pre ts front lt h =
    let known : (lt.head.tag == header_immutable || lt.head.tag == header_signatures) ≡ true =
      ground arith in
    rw known

not-concat-nil : (ts : List Tag) (t : Tag) → ts ++ t ∷ [] ≢ []
not-concat-nil [] t e = cc
not-concat-nil (u ∷ ts) t e = cc

written_region-wire_region :
    (hdr : Header) (region : ℕ)
    → IsReadable hdr region
    → region_of_header hdr ≡ some (wire_region region (length hdr.tags) hdr.off)
unfolding set_region_tag
written_region-wire_region hdr region h = rw (h.has_region)

-- The tags in the order of their data.
abbrev pub all_tags : Header → ℕ → List Tag
all_tags hdr region = numbered 1 hdr.tags ++ wire_region region (length hdr.tags) hdr.off ∷ []

pub all_tags-IsLaid :
    (hdr : Header) (region : ℕ)
    → IsReadable hdr region
    → IsLaid 0 (all_tags hdr region) (hdr.off + 16)
all_tags-IsLaid hdr region h =
    IsLaid-concat 0 (numbered 1 hdr.tags) hdr.off (wire_region region (length hdr.tags) hdr.off)
      (IsLaid-numbered 1 0 hdr.tags hdr.off h.writable.laid)
      (record { placed = omega arith; set_data = tt })

pub written_pre-wire_pre :
    (hdr : Header) (region : ℕ)
    → IsReadable hdr region
    → written_pre hdr ≡ wire_pre (length hdr.tags + 1) (hdr.off + 16)
unfolding set_region_tag
written_pre-wire_pre hdr region h =
    let few : u32 (length hdr.tags + 1) ≡ length hdr.tags + 1 = omega (arith, h.few) in
    rw (h.has_region) (ap (λ (n : ℕ). wire_pre n (hdr.off + 16)) few)

pub region_count-one :
    (hdr : Header) (region : ℕ) → IsReadable hdr region → region_count hdr.region ≡ 1
unfolding set_region_tag
region_count-one hdr region h = rw (h.has_region)

pub IsWireHeader-bounded :
    (ts : List Tag) (end : ℕ)
    → All (λ t. IsWireHeader t.head) ts
    → All (λ t. t.head.offset ≤ end) ts
    → All (λ t. IsWireHeader t.head × (t.head.offset ≤ end + 16)) ts
IsWireHeader-bounded [] end h b = tt
IsWireHeader-bounded (t ∷ ts) end (w, h) (le, b) =
    ((w, omega arith), IsWireHeader-bounded ts end h b)

pub region-IsWireHeader :
    (region n end : ℕ)
    → (region ≡ header_immutable) ⊎ (region ≡ header_signatures)
    → end + 16 < 2 ^ 32
    → IsWireHeader (wire_region region n end).head
region-IsWireHeader region n end h lt = (ground arith, omega arith, omega arith, omega arith)

regroup : (a b c d : Bytes) → (a ++ b) ++ (c ++ d) ≡ a ++ ((b ++ c) ++ d)
regroup a b c d = rw (append_assoc a b (c ++ d), append_assoc b c d)

-- What stands on the wire: prefix, region tag, tags, all data.
pub encoded-parts :
    (hdr : Header) (region : ℕ)
    → IsReadable hdr region
    → encoded hdr
      ≡ put_pre (wire_pre (length hdr.tags + 1) (hdr.off + 16))
        ++ (tag_headers (wire_region region (length hdr.tags) hdr.off ∷ hdr.tags)
            ++ laid_data 0 (all_tags hdr region))
encoded-parts hdr region h =
    let wire : RpmHeaderPre → Option Tag → Bytes = λ pre reg.
      (put_pre pre ++ region_header reg)
      ++ (tag_headers hdr.tags ++ (laid_data 0 hdr.tags ++ region_data reg)) in
    let reg : Tag = wire_region region (length hdr.tags) hdr.off in
    let all_data : laid_data 0 (all_tags hdr region) ≡ laid_data 0 hdr.tags ++ data_bytes reg.body =
      laid_data_concat 0 (numbered 1 hdr.tags) hdr.off reg
        (IsLaid-numbered 1 0 hdr.tags hdr.off h.writable.laid) (omega arith)
      ∙ ap (λ (x : Bytes). x ++ data_bytes reg.body) (laid_data-numbered 1 0 hdr.tags) in
    ap (λ pre. wire pre (region_of_header hdr)) (written_pre-wire_pre hdr region h)
    ∙ ap (wire (wire_pre (length hdr.tags + 1) (hdr.off + 16)))
        (written_region-wire_region hdr region h)
    ∙ regroup (put_pre (wire_pre (length hdr.tags + 1) (hdr.off + 16))) (put_tag_header reg.head)
        (tag_headers hdr.tags) (laid_data 0 hdr.tags ++ data_bytes reg.body)
    ∙ ap
        (λ (x : Bytes).
          put_pre (wire_pre (length hdr.tags + 1) (hdr.off + 16))
          ++ (tag_headers (reg ∷ hdr.tags) ++ x))
        (sym all_data)

module _ {ahead : ℕ → ℕ → ℕ} (law : IsAhead ahead) {sort : List Tag → List Tag}
    (sorts : IsSort sort) where
  -- Everything behind the prefix.
  pub next-parts :
      (o end : ℕ) (reg : Tag) (ts : List Tag) (rest : Bytes) (f : Option ℕ)
      → (reg.head.tag ≡ header_immutable) ⊎ (reg.head.tag ≡ header_signatures)
      → reg.idx ≡ 0
      → IsLaid 0 (numbered 1 ts ++ reg ∷ []) end
      → All IsReadableTag (numbered 1 ts ++ reg ∷ [])
      → All (λ t. IsWireHeader t.head × (t.head.offset ≤ end)) (reg ∷ ts)
      → length ts + 1 < 2 ^ 32
      → end < 2 ^ 32
      → next ahead sort (
          reader o
            (padding o
              ++ (put_pre (wire_pre (length ts + 1) end)
                  ++ (tag_headers (reg ∷ ts) ++ (laid_data 0 (numbered 1 ts ++ reg ∷ []) ++ rest))))
            f)
        ≡ (
          ok (
              set_region_tag reg.head.tag (record {
                pre = wire_pre (length ts + 1) end;
                off = reg.head.offset;
                region = none;
                tags =
                    map
                      (found (o + length (padding o) + 16 + (length ts + 1) * 16))
                      (numbered 1 ts);
              })),
          reader (o + length (padding o) + 16 + (length ts + 1) * 16 + end) rest f,
        )
  unfolding next
  next-parts o end reg ts rest f is_region idx laid readable wire few fits =
      let us : List Tag = numbered 1 ts ++ reg ∷ [] in
      let start : ℕ = o + length (padding o) + 16 in
      let base : ℕ = start + (length ts + 1) * 16 in
      let count : length (reg ∷ ts) ≡ length ts + 1 = omega arith in
      let numbered_reg : record reg { idx = 0 } ≡ reg =
        ap (λ (i : ℕ). record reg { idx = i }) (sym idx) in
      let strict : IsStrict us = IsLaid-IsStrict 0 us end laid (All-some_data us readable) in
      let aligned : base % 8 ≡ 0 = omega (arith, length-replicate {A = ℕ} ((8 - o % 8) % 8) 0) in
      let tags_read : read_tags end (length ts + 1) 0
            (reader start (tag_headers (reg ∷ ts) ++ (laid_data 0 us ++ rest)) f)
          ≡ (ok (map fresh (reg ∷ numbered 1 ts)), reader base (laid_data 0 us ++ rest) f) =
        rw (← count) (
          read_tags-tag_headers end 0 start (reg ∷ ts) (laid_data 0 us ++ rest) f wire
          ∙ ap
              (λ (r : Tag). (
                ok (map fresh (r ∷ numbered 1 ts)),
                reader (start + length (reg ∷ ts) * 16) (laid_data 0 us ++ rest) f,
              ))
              numbered_reg) in
      rw
        (
          align-padding o _ f,
          read_pre-put_pre (length ts + 1) end (o + length (padding o)) _ f few fits,
          tags_read,
          sort-region sorts reg (numbered 1 ts) strict,
          read_all_data-from law us base end rest f (not-concat-nil (numbered 1 ts) reg) aligned
              laid readable fits,
          map_concat (found base) (numbered 1 ts) reg,
          split_last_concat (map (found base) (numbered 1 ts)) (found base reg),
        )
        (ap (λ (h : Header). (ok h, reader (base + end) rest f))
          (split_region-region (wire_pre (length ts + 1) end) _ (map (found base) (numbered 1 ts))
            (found base reg) is_region))
