-- ===== src/Reader/Tags.antt =====
-- The loop that reads a header's tags, over the tags as they are written.
use go_rpm.Reader.Data.{reader}
use go_rpm.Reader.{read_tags, get_tag_header, ℕ, Tag, ok, offset_error, tag_error, err_offset_oob}
use go_rpm.Tag.{io, TagHeader, Tag, offset_error, tag_error, err_offset_oob}
use go_rpm.Base.{
  zero, suc, ◌+◌, ◌<◌, ℕ, ◌^◌, List, ◌≡◌, Bytes, Option, All, ◌≤◌, length, ◌++◌, map, ◌*◌, arith,
  ap, ◌∷◌, leb, true, append_assoc, [], refl, false, none,
}
use go_rpm.Tag.Data.{put_tag_header}
use go_rpm.Io.Binary.{uint_be-put_be_4}
use go_rpm.Header.Written.{tag_headers}
use go_rpm.Io.{ok, err, eof}
use go_rpm.Reader.Loop.{fresh, numbered}
use go_rpm.Io.Streams.{read_full-append, read_full_short}

abbrev pub IsWireHeader : TagHeader → Type 0
IsWireHeader h = (h.tag < 2 ^ 32) × (h.type < 2 ^ 32) × (h.offset < 2 ^ 32) × (h.count < 2 ^ 32)

-- A tag header's sixteen bytes, as they are decoded.
get_tag_header-put_tag_header :
    (h : TagHeader) → IsWireHeader h → get_tag_header (put_tag_header h) ≡ h
unfolding get_tag_header
get_tag_header-put_tag_header h (p1, p2, p3, p4) = rw (
  uint_be-put_be_4 h.tag p1,
  uint_be-put_be_4 h.type p2,
  uint_be-put_be_4 h.offset p3,
  uint_be-put_be_4 h.count p4,
)

-- The tags are read with their indices, and each is sixteen bytes.
pub read_tags-tag_headers :
    (size i o : ℕ) (ts : List Tag) (rest : Bytes) (f : Option ℕ)
    → All (λ t. IsWireHeader t.head × (t.head.offset ≤ size)) ts
    → read_tags size (length ts) i (reader o (tag_headers ts ++ rest) f)
      ≡ (ok (map fresh (numbered i ts)), reader (o + length ts * 16) rest f)
unfolding read_tags
read_tags-tag_headers size i o [] rest f h =
    let stay : o ≡ o + 0 * 16 = omega arith in ap (λ n. (ok [], reader n rest f)) stay
read_tags-tag_headers size i o (t ∷ ts) rest f ((wire, le), h) =
    let inside : leb t.head.offset size ≡ true = ground arith in
    let next : o + 16 + length ts * 16 ≡ o + length (t ∷ ts) * 16 = omega arith in
    rw (
      append_assoc (put_tag_header t.head) (tag_headers ts) rest,
      read_full-append 16 (put_tag_header t.head) (tag_headers ts ++ rest) f refl,
      get_tag_header-put_tag_header t.head wire,
      inside,
      read_tags-tag_headers size (i + 1) (o + 16) ts rest f h,
      next,
    )

-- The first tag whose data would begin behind the end of the data stops the loop.
pub read_tags_oob :
    (size n i o : ℕ) (ts : List Tag) (h : TagHeader) (rest : Bytes) (f : Option ℕ)
    → All (λ t. IsWireHeader t.head × (t.head.offset ≤ size)) ts
    → IsWireHeader h
    → size < h.offset
    → length ts < n
    → read_tags size n i (reader o (tag_headers ts ++ (put_tag_header h ++ rest)) f) ≡ (
      err (offset_error (o + length ts * 16) (tag_error h err_offset_oob)),
      reader (o + length ts * 16) rest f,
    )
unfolding read_tags
read_tags_oob size zero i o ts h rest f wire wire_h far lt = absurd (omega arith)
read_tags_oob size (suc n) i o [] h rest f wire wire_h far lt =
    let outside : leb h.offset size ≡ false = ground arith in
    let stay : o + 0 * 16 ≡ o = omega arith in
    rw (
      read_full-append 16 (put_tag_header h) rest f refl,
      get_tag_header-put_tag_header h wire_h,
      outside,
      stay,
    )
read_tags_oob size (suc n) i o (t ∷ ts) h rest f ((wire, le), wires) wire_h far lt =
    let inside : leb t.head.offset size ≡ true = ground arith in
    let next : o + 16 + length ts * 16 ≡ o + length (t ∷ ts) * 16 = omega arith in
    rw (
      append_assoc (put_tag_header t.head) (tag_headers ts) (put_tag_header h ++ rest),
      read_full-append 16 (put_tag_header t.head) (tag_headers ts ++ (put_tag_header h ++ rest)) f
          refl,
      get_tag_header-put_tag_header t.head wire,
      inside,
      read_tags_oob size n (i + 1) (o + 16) ts h rest f wires wire_h far (omega arith),
      next,
    )

-- A stream that ends where a tag header is due stops the loop, with the bare error of binary.Read.
pub read_tags_cut :
    (size n i o : ℕ) (ts : List Tag)
    → All (λ t. IsWireHeader t.head × (t.head.offset ≤ size)) ts
    → length ts < n
    → read_tags size n i (reader o (tag_headers ts) none)
      ≡ (err (io eof), reader (o + length ts * 16) [] none)
unfolding read_tags
read_tags_cut size zero i o ts wire lt = absurd (omega arith)
read_tags_cut size (suc n) i o [] wire lt =
    let stay : o + 0 * 16 ≡ o = omega arith in rw (read_full_short 16 [] (omega arith), stay)
read_tags_cut size (suc n) i o (t ∷ ts) ((wire, le), wires) lt =
    let inside : leb t.head.offset size ≡ true = ground arith in
    let next : o + 16 + length ts * 16 ≡ o + length (t ∷ ts) * 16 = omega arith in
    rw (
      read_full-append 16 (put_tag_header t.head) (tag_headers ts) none refl,
      get_tag_header-put_tag_header t.head wire,
      inside,
      read_tags_cut size n (i + 1) (o + 16) ts wires (omega arith),
      next,
    )
