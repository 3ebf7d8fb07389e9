-- ===== src/Reader/Errors.antt =====
-- What `Next` does with a stream that is not a header.
use go_rpm.Tag.{
  tag_error, Tag, TagHeader, offset_error, err_bad_align, io, err_invalid_header, err_offset_oob,
}
use go_rpm.Io.{discard, err, eof, unexpected_eof}
use go_rpm.Reader.Data.{reader}
use go_rpm.Reader.{
  next, Tag, read_pre, TagHeader, align, offset_error, err_bad_align, rpm_header_magic,
  err_invalid_header, tag_error, err_offset_oob,
}
use go_rpm.Reader.Next.{padding, align-padding, wire_pre, read_pre-put_pre}
use go_rpm.Base.{
  length, ℕ, List, Bytes, Option, ◌<◌, All, none, ◌≡◌, ◌++◌, take, ◌≤◌, ◌≢◌, ◌+◌, [], ◌^◌,
  if◌then◌else◌, ◌==◌, sym, ◌*◌, bytes_eq_ne, and_not, ◌-◌, bit_and_seven, arith, length-replicate,
  leb, false, drop_all,
}
use go_rpm.Reader.Tags.{IsWireHeader, read_tags_oob, read_tags_cut}
use go_rpm.Header.{rpm_header_magic}
use go_rpm.Header.Write.{put_pre}
use go_rpm.Io.Streams.{read_full-append, read_full_short}
use go_rpm.Header.Written.{tag_headers}
use go_rpm.Tag.Data.{put_tag_header}

module _ (ahead : ℕ → ℕ → ℕ) (sort : List Tag → List Tag) where
  -- A stream that ends within the padding in front of a header is refused as badly aligned.
  pub next_bad_align :
      (o : ℕ) (b : Bytes)
      → length b < length (padding o)
      → next ahead sort (reader o b none) ≡ (err err_bad_align, reader o [] none)
  unfolding next align discard
  next_bad_align o b h =
      let gap : and_not (o + 7) 7 - o ≡ length (padding o) =
        rw (bit_and_seven, length-replicate {A = ℕ}) (omega arith) in
      let short : leb (length (padding o)) (length b) ≡ false = ground arith in
      let lacking : (length (padding o) - length b == 0) ≡ false = ground arith in
      rw (gap, discard, short, lacking, drop_all b (length (padding o)) (omega arith))

  -- Sixteen bytes that do not begin with the magic number are refused, with the offset of the header.
  pub next_wrong_magic :
      (o : ℕ) (b rest : Bytes) (f : Option ℕ)
      → length b ≡ 16
      → take 8 b ≢ rpm_header_magic
      → next ahead sort (reader o (padding o ++ (b ++ rest)) f) ≡ (
        err (offset_error (o + length (padding o)) err_invalid_header),
        reader (o + length (padding o)) rest f,
      )
  unfolding next read_pre
  next_wrong_magic o b rest f h ne = rw (
    align-padding o (b ++ rest) f,
    read_full-append 16 b rest f (sym h),
    bytes_eq_ne (take 8 b) rpm_header_magic ne,
  )

  -- A stream that ends before or within the sixteen bytes of a header's prefix is refused: io.EOF where
  -- nothing is left, else io.ErrUnexpectedEOF, with the offset of the header.
  pub next_short :
      (o : ℕ) (b : Bytes)
      → length b < 16
      → next ahead sort (reader o (padding o ++ b) none) ≡ (
        err (
            offset_error
              (o + length (padding o))
              (io (if length b == 0 then eof else unexpected_eof))),
        reader (o + length (padding o)) [] none,
      )
  unfolding next read_pre
  next_short o b h = rw (align-padding o b none, read_full_short 16 b h)

  -- The first tag whose offset is behind the end of the data is refused, where fewer tags than the
  -- prefix counts stand before it and the offsets of these are within the data, with the tag's header
  -- and the offset behind those tags. All fields of the prefix and the tag headers are of 32 bits.
  pub next_offset_oob :
      (o size n : ℕ) (ts : List Tag) (h : TagHeader) (rest : Bytes) (f : Option ℕ)
      → All (λ t. IsWireHeader t.head × (t.head.offset ≤ size)) ts
      → IsWireHeader h
      → size < h.offset
      → length ts < n
      → n < 2 ^ 32
      → next ahead sort (
          reader o
            (padding o
              ++ (put_pre (wire_pre n size) ++ (tag_headers ts ++ (put_tag_header h ++ rest))))
            f)
        ≡ (
          err (
              offset_error
                (o + length (padding o) + 16 + length ts * 16)
                (tag_error h err_offset_oob)),
          reader (o + length (padding o) + 16 + length ts * 16) rest f,
        )
  unfolding next
  next_offset_oob o size n ts h rest f wire wire_h far lt few = rw (
    align-padding o _ f,
    read_pre-put_pre n size (o + length (padding o)) _ f few (omega (arith, wire_h.2)),
    read_tags_oob size n 0 (o + length (padding o) + 16) ts h rest f wire wire_h far lt,
  )

  -- A stream that ends where a tag header is due, behind the prefix and fewer tag headers than it counts
  -- whose offsets are within the length, gives io.EOF itself, with no offset.
  pub next_cut :
      (o size n : ℕ) (ts : List Tag)
      → All (λ t. IsWireHeader t.head × (t.head.offset ≤ size)) ts
      → length ts < n
      → n < 2 ^ 32
      → size < 2 ^ 32
      → next ahead sort (reader o (padding o ++ (put_pre (wire_pre n size) ++ tag_headers ts)) none)
        ≡ (err (io eof), reader (o + length (padding o) + 16 + length ts * 16) [] none)
  unfolding next
  next_cut o size n ts wire lt few small = rw (
    align-padding o _ none,
    read_pre-put_pre n size (o + length (padding o)) _ none few small,
    read_tags_cut size n 0 (o + length (padding o) + 16) ts wire lt,
  )
