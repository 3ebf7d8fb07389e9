-- ===== src/Header/Room.antt =====
-- A header that is built by adding tags can be written and read while there is room.
use go_rpm.Tag.{unset, Tag, TagData, TagHeader, header_immutable, header_signatures}
use go_rpm.Base.{
  length, ℕ, List, ◌+◌, ◌≡◌, All, ◌∷◌, [], ◌<◌, ◌^◌, ◌≤◌, ◌⊎◌, arith, inr, refl, sym, ◌∙◌, ap, ◌++◌,
  All-append, subst,
}
use go_rpm.Io.{ok}
use go_rpm.Header.{
  Header, add, set_region_tag, add_sized, u32, len, TagHeader, tag_bytes, header_immutable,
  tag_string, tag_uint16, tag_uint32, header_signatures, tag_uint64,
}
use go_rpm.Header.Adds.{content, add_tags}
use go_rpm.Tag.Data.{len, strings_len}
use go_rpm.Header.Layout.{
  IsLaidHeader, data_size, gap, gap-lt, aligned_off-gap, IsLaid-concat, IsLaid,
}
use go_rpm.Tag.Written.{data_bytes, IsSetData, length-c_strings, length-put_all}
use go_rpm.Reader.Loop.{IsReadableTag}
use go_rpm.Tag.ReadBack.{IsTyped}
use go_rpm.Reader.Tags.{IsWireHeader}
use go_rpm.Reader.Parts.{IsReadable}

-- A tag that can be added and read back: its header tells what its data are, which are not empty.
pub record IsAddable (t : Tag) : Type 0 where
  pub readable : IsReadableTag t
  pub set_data : IsSetData t.body
  pub wire : (t.head.tag < 2 ^ 32) × (t.head.type < 2 ^ 32) × (t.head.count < 2 ^ 32)

-- A header under construction, which has a region and can be read back once there are tags.
pub record IsOpen (hdr : Header) (region : ℕ) : Type 0 where
  pub laid : IsLaidHeader hdr
  pub readable : All IsReadableTag hdr.tags
  pub wire : All (λ t. IsWireHeader t.head) hdr.tags
  pub is_region : (region ≡ header_immutable) ⊎ (region ≡ header_signatures)
  pub has_region : hdr.region ≡ (set_region_tag region hdr).region

-- What the data of tags take at most.
abbrev pub room : List Tag → ℕ
room [] = 0
room (t ∷ ts) = 7 + data_size t + room ts

IsTyped-content :
    (h : TagHeader) (o : ℕ) (d : TagData)
    → IsTyped (record h { offset = o }) (content d) ≡ IsTyped h d
IsTyped-content h o (tag_bytes b n) = refl
IsTyped-content h o (tag_string vs n) = refl
IsTyped-content h o (tag_uint16 vs) = refl
IsTyped-content h o (tag_uint32 vs) = refl
IsTyped-content h o (tag_uint64 vs) = refl
IsTyped-content h o unset = refl

-- Data stay typed where they change in what they cache, and their header in its offset.
IsTyped-moved :
    (h : TagHeader) (o : ℕ) (d d' : TagData)
    → content d' ≡ content d
    → IsTyped h d
    → IsTyped (record h { offset = o }) d'
IsTyped-moved h o d d' same t =
    let h' : TagHeader = record h { offset = o } in
    subst (λ (P : Type 0). P)
      (sym (IsTyped-content h o d) ∙ ap (IsTyped h') (sym same) ∙ IsTyped-content h' o d') t

data_bytes-content : (d : TagData) → data_bytes (content d) ≡ data_bytes d
data_bytes-content (tag_bytes b n) = refl
data_bytes-content (tag_string vs n) = refl
data_bytes-content (tag_uint16 vs) = refl
data_bytes-content (tag_uint32 vs) = refl
data_bytes-content (tag_uint64 vs) = refl
data_bytes-content unset = refl

-- `Len` of set data is the number of their bytes, and only sets the length that they cache.
len-same :
    (d : TagData)
    → IsSetData d
    → (d' : TagData) × (len d ≡ ok (length (data_bytes d), d'))
      × (content d' ≡ content d)
      × IsSetData d'
unfolding len
len-same (tag_bytes b count) h = (tag_bytes b count, refl, refl, tt)
len-same (tag_string vs n) h =
    (tag_string vs (strings_len vs), rw (length-c_strings vs) (ground arith), refl, inr refl)
len-same (tag_uint16 vs) h = (tag_uint16 vs, rw (length-put_all 2 vs), refl, tt)
len-same (tag_uint32 vs) h = (tag_uint32 vs, rw (length-put_all 4 vs), refl, tt)
len-same (tag_uint64 vs) h = (tag_uint64 vs, rw (length-put_all 8 vs), refl, tt)
len-same unset h = absurd h

-- One more tag, while there is room for it.
pub add-IsOpen :
    (t : Tag) (hdr : Header) (region : ℕ)
    → IsOpen hdr region
    → IsAddable t
    → hdr.off + 7 + data_size t < 2 ^ 32
    → (hdr' : Header) × (add t hdr ≡ (ok tt, hdr'))
      × IsOpen hdr' region
      × (hdr'.off ≤ hdr.off + 7 + data_size t)
      × (hdr.off < hdr'.off)
unfolding add set_region_tag
add-IsOpen t hdr region o h fits =
    let (d', sized, same, set') = len-same t.body h.set_data in
    let off : ℕ = hdr.off + gap t.head.type hdr.off in
    let fits_u32 : u32 (off + u32 (data_size t)) ≡ off + data_size t =
      omega (arith, gap-lt t.head.type hdr.off) in
    let t' : Tag = record t { head = record t.head { offset = off }; body = d' } in
    let bytes : data_bytes d' ≡ data_bytes t.body =
      sym (data_bytes-content d') ∙ ap data_bytes same ∙ data_bytes-content t.body in
    let typed : IsTyped t'.head d' = IsTyped-moved t.head off t.body d' same h.readable.typed in
    (
      record hdr { off = off + data_size t; tags = hdr.tags ++ t' ∷ [] },
      rw (sized, aligned_off-gap t.head.type hdr (omega arith), add_sized, fits_u32),
      record {
        laid = rw (← ap (length {A = ℕ}) bytes) (
            IsLaid-concat 0 hdr.tags hdr.off t' o.laid (record { placed = refl; set_data = set' }));
        readable = All-append IsReadableTag hdr.tags (t' ∷ []) o.readable (
          record {
            typed = typed;
            some_data = omega (arith, h.readable.some_data, ap (length {A = ℕ}) bytes);
          },
          tt,
        );
        wire =
            All-append (λ t. IsWireHeader t.head) hdr.tags (t' ∷ []) o.wire
              ((h.wire.0, h.wire.1, omega (arith, gap-lt t.head.type hdr.off), h.wire.2), tt);
        is_region = o.is_region;
        has_region = o.has_region;
      },
      omega (arith, gap-lt t.head.type hdr.off),
      omega (arith, h.readable.some_data),
    )

pub add_tags-IsOpen :
    (ts : List Tag) (hdr : Header) (region : ℕ)
    → IsOpen hdr region
    → All IsAddable ts
    → hdr.off + room ts < 2 ^ 32
    → (hdr' : Header) × (add_tags ts hdr ≡ (ok tt, hdr'))
      × IsOpen hdr' region
      × (hdr'.off ≤ hdr.off + room ts)
      × (hdr.off + length ts ≤ hdr'.off)
unfolding add_tags
add_tags-IsOpen [] hdr region o h fits = (hdr, refl, o, omega arith, omega arith)
add_tags-IsOpen (t ∷ ts) hdr region o (p, h) fits =
    let (next, added, o', le, lt) = add-IsOpen t hdr region o p (omega arith) in
    let (hdr', ran, o'', le', lt') = add_tags-IsOpen ts next region o' h (omega arith) in
    (hdr', rw added ran, o'', omega arith, omega arith)

-- Tags with some data each lie in as many bytes at least.
pub laid-length :
    (cur : ℕ) (ts : List Tag) (end : ℕ)
    → IsLaid cur ts end
    → All IsReadableTag ts
    → cur + length ts ≤ end
laid-length cur [] end h a = omega arith
laid-length cur (t ∷ ts) end (p, h) (a, more) =
    omega (arith, p.placed, a.some_data, laid-length (t.head.offset + data_size t) ts end h more)

some_data : (ts : List Tag) → All IsReadableTag ts → All (λ t. 0 < data_size t) ts
some_data [] h = tt
some_data (t ∷ ts) (p, h) = (p.some_data, some_data ts h)

tags_ne : (ts : List Tag) (end : ℕ) → ts ≡ [] → IsLaid 0 ts end → 0 < end → ⊥
tags_ne [] end e h lt = omega arith
tags_ne (t ∷ ts) end e h lt = cc

-- A header under construction that has tags, and room for its region.
pub IsOpen-IsReadable :
    (hdr : Header) (region : ℕ)
    → IsOpen hdr region
    → 0 < hdr.off
    → hdr.off + 16 < 2 ^ 32
    → IsReadable hdr region
IsOpen-IsReadable hdr region o some fits = record {
  writable = record {
    laid = o.laid;
    some_tags = λ e. tags_ne hdr.tags hdr.off e o.laid some;
    some_data = some_data hdr.tags o.readable;
    fits = fits;
  };
  readable = o.readable;
  wire = o.wire;
  few = omega (arith, laid-length 0 hdr.tags hdr.off o.laid o.readable);
  is_region = o.is_region;
  has_region = o.has_region;
}
