-- ===== src/Header/WriteTo.antt =====
-- `WriteTo` as a whole: the bytes that it writes and the count that it returns.
use go_rpm.Tag.{Tag, Error}
use go_rpm.Header.{
  Header, u32, rpm_header_magic, set_region, length, Bytes, ◌+◌, ℕ, Error, Result, ok, err,
}
use go_rpm.Header.Sort.{IsSort, sort_strict}
use go_rpm.Header.Write.{
  put_pre, Output, write_set, put_writer, write_checked, write_to, write_back,
}
use go_rpm.Header.Written.{
  tag_headers, laid_data, region_header, region_data, write_front-Emits, write_back-Emits,
}
use go_rpm.Base.{◌+◌, Bytes, ◌≢◌, ℕ, List, [], ◌++◌, ◌≡◌, ◌∷◌, arith, refl, ◌∙◌, ap}
use go_rpm.Io.{WriteReply, IsWriter, Result}
use go_rpm.Io.Emits.{Emits, Emits-bind, Emits-weaken}
use go_rpm.Header.Encoding.{
  IsWritable, encoded, with_region, set_region-written, written_pre, region_of_header, returned,
  IsLaid-IsStrict, length-region, region-IsSetRegion, returned-encoded,
}

module _ {S : Type 0} {io_write : Bytes → S → WriteReply S} {content : S → Bytes}
    (law : IsWriter io_write content) where
  abbrev pub out : Output S → Bytes
  out s = content s.w

  -- A call on the writer leaves the header alone.
  pub put_writer-Emits :
      {A : Type 0} (b : Bytes) (s : Output S) (P : A → S → Type 0) (r : Result Error A × S)
      → Emits content b s.w P r
      → Emits out b s (λ a s'. P a s'.w × (s'.hdr ≡ s.hdr)) (put_writer s r)
  put_writer-Emits b s P (ok a, w) (h, p) = (h, (p, refl))
  put_writer-Emits b s P (err e, w) h = h

  module _ {sort : List Tag → List Tag} (sorts : IsSort sort) where
    pub write_checked-cons :
        (ts : List Tag) (s : Output S)
        → ts ≢ []
        → write_checked io_write sort ts s
          ≡ write_set io_write sort
              (set_region
                (record { magic = rpm_header_magic; count = u32 (length ts); length = s.hdr.off })
                s.hdr)
              s
    unfolding write_checked
    write_checked-cons [] s h = absurd (h refl)
    write_checked-cons (t ∷ ts) s h = refl

    write_set-Emits :
        (hdr : Header) (s : Output S)
        → IsWritable hdr
        → Emits out
            (encoded hdr)
            s
            (λ n s'. (n ≡ u32 (length (encoded hdr))) × (s'.hdr ≡ with_region hdr))
            (write_set io_write sort (with_region hdr, written_pre hdr) s)
    unfolding write_set
    write_set-Emits hdr s h =
        let region = region_of_header hdr in
        let pre = written_pre hdr in
        let P : ℕ → S → Type 0 = λ n _. n ≡ returned hdr in
        let same : sort hdr.tags ≡ hdr.tags =
          sort_strict sorts hdr.tags (IsLaid-IsStrict 0 hdr.tags hdr.off h.laid h.some_data) in
        let size : pre.length ≡ hdr.off + length (region_data region) =
          omega (arith, (length-region (length hdr.tags) hdr.off hdr.region).1) in
        let back : (w : S)
            → Emits content (tag_headers hdr.tags ++ (laid_data 0 hdr.tags ++ region_data region)) w
                P (write_back io_write (sort hdr.tags) region pre w) =
          λ w. rw same (
            write_back-Emits law hdr.tags region pre hdr.off w h.laid
              (region-IsSetRegion (length hdr.tags) hdr.off hdr.region) size) in
        Emits-bind out (put_pre pre ++ region_header region) _ s _ _ _ _
          (put_writer-Emits _ (record s { hdr = with_region hdr }) _ _
            (write_front-Emits law region pre s.w))
          λ _ s1 e1.
            Emits-weaken out _ s1 _ _ _
              (put_writer-Emits _ (record s1 { hdr = record s1.hdr { tags = sort hdr.tags } }) P _
                (back s1.w))
              λ n s2 e2. (
                e2.0 ∙ returned-encoded hdr h,
                e2.1
                    ∙ ap (λ (k : Header). record k { tags = sort hdr.tags }) e1.1
                    ∙ ap (λ (ts : List Tag). record hdr { region = region; tags = ts }) same,
              )

    -- On every io.Writer, `WriteTo` of a header that `Add` laid out, with tags, no data empty and
    -- room for the region, writes its encoding, or fails having written a beginning of it. Where it
    -- succeeds it returns the length modulo 2 ^ 32 and leaves the header as it was, its region set.
    pub write_to-Emits :
        (s : Output S)
        → IsWritable s.hdr
        → Emits out
            (encoded s.hdr)
            s
            (λ n s'. (n ≡ u32 (length (encoded s.hdr))) × (s'.hdr ≡ with_region s.hdr))
            (write_to io_write sort s)
    unfolding write_to
    write_to-Emits s h =
        rw (write_checked-cons s.hdr.tags s h.some_tags, set_region-written s.hdr h.fits)
          (write_set-Emits s.hdr s h)
