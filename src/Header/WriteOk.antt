-- ===== src/Header/WriteOk.antt =====
-- `WriteTo` on a writer that never fails, and where there is nothing to write.
use go_rpm.Base.{
  Bytes, List, Option, ℕ, ◌≡◌, ◌+◌, ◌<◌, some, ◌∷◌, length, ltb, false, none, [], arith, ◌-◌, ◌++◌,
  subst, ==_refl,
}
use go_rpm.Io.{WriteReply, IsWriter, NeverFails, Result, ok}
use go_rpm.Header.Write.{
  write_tag_headers, write_tags, write_region_data, pad, write_back, write_region_header,
  write_front, put_pre, Output, write_set, write_to, put_writer, write_checked,
}
use go_rpm.Tag.{Tag, Error, err_no_tags}
use go_rpm.Header.Written.{
  IsSetRegion, region_data, pad-Emits, write_tags-Emits, write_region_data-Emits,
}
use go_rpm.Header.{RpmHeaderPre, Result, Error, Header, ok, err, u32}
use go_rpm.Header.Layout.{IsLaid, gap, gap-lt, data_size}
use go_rpm.Io.Emits.{Succeeds, Succeeds-bind, Succeeds-bind_of, Emits-of_Succeeds}
use go_rpm.Tag.Written.{write_header-Succeeds, send-Succeeds, write_data-Succeeds, write_data-Emits}
use go_rpm.Header.Sort.{IsSort, sort_strict}
use go_rpm.Header.Encoding.{
  IsWritable, with_region, written_pre, encoded, region_of_header, IsLaid-IsStrict,
  set_region-written, length-region, region-IsSetRegion,
}
use go_rpm.Header.WriteTo.{write_checked-cons, out, write_to-Emits}

module _ {S : Type 0} {io_write : Bytes → S → WriteReply S} {content : S → Bytes}
    (law : IsWriter io_write content) (never : NeverFails io_write) where
  write_tag_headers-Succeeds : (ts : List Tag) (w : S) → Succeeds (write_tag_headers io_write ts w)
  unfolding write_tag_headers
  write_tag_headers-Succeeds [] w = tt
  write_tag_headers-Succeeds (t ∷ ts) w =
      Succeeds-bind _ _ (write_header-Succeeds law never t.head w)
        λ _ w'. write_tag_headers-Succeeds ts w'

  pad-Succeeds : (off cur n : ℕ) (w : S) → off ≡ cur + n → n < 8 → Succeeds (pad io_write off cur w)
  unfolding pad
  pad-Succeeds off cur n w e h =
      let late : ltb off cur ≡ false = ground arith in
      let near : ltb 8 (off - cur) ≡ false = ground arith in
      rw (late, near) (send-Succeeds law never _ w)

  write_tags-Succeeds :
      (cur : ℕ) (ts : List Tag) (end : ℕ) (w : S)
      → IsLaid cur ts end
      → Succeeds (write_tags io_write ts cur w)
  unfolding write_tags
  write_tags-Succeeds cur [] end w h = tt
  write_tags-Succeeds cur (t ∷ ts) end w (p, h) =
      Succeeds-bind_of content _ w _ _ _
        (pad-Emits law t.head.offset cur (gap t.head.type cur) w p.placed (gap-lt t.head.type cur))
        (pad-Succeeds t.head.offset cur (gap t.head.type cur) w p.placed (gap-lt t.head.type cur))
        λ n1 w1 e1.
          Succeeds-bind_of content _ w1 _ _ _ (write_data-Emits law t.body w1 p.set_data)
            (write_data-Succeeds law never t.body w1 p.set_data)
            λ n2 w2 e2.
              let next : cur + (n1 + n2) ≡ t.head.offset + data_size t = omega (arith, p.placed) in
              rw next (write_tags-Succeeds (t.head.offset + data_size t) ts end w2 h)

  write_region_data-Succeeds :
      (region : Option Tag) (w : S)
      → IsSetRegion region
      → Succeeds (write_region_data io_write region w)
  unfolding write_region_data
  write_region_data-Succeeds none w h = tt
  write_region_data-Succeeds (some t) w h = write_data-Succeeds law never t.body w h

  write_region_header-Succeeds :
      (region : Option Tag) (w : S) → Succeeds (write_region_header io_write region w)
  unfolding write_region_header
  write_region_header-Succeeds none w = tt
  write_region_header-Succeeds (some t) w = write_header-Succeeds law never t.head w

  write_front-Succeeds :
      (region : Option Tag) (pre : RpmHeaderPre) (w : S)
      → Succeeds (write_front io_write region pre w)
  unfolding write_front
  write_front-Succeeds region pre w =
      Succeeds-bind _ _ (send-Succeeds law never (put_pre pre) w)
        λ _ w'. write_region_header-Succeeds region w'

  write_back-Succeeds :
      (ts : List Tag) (region : Option Tag) (pre : RpmHeaderPre) (end : ℕ) (w : S)
      → IsLaid 0 ts end
      → IsSetRegion region
      → pre.length ≡ end + length (region_data region)
      → Succeeds (write_back io_write ts region pre w)
  unfolding write_back
  write_back-Succeeds ts region pre end w h set e =
      Succeeds-bind _ _ (write_tag_headers-Succeeds ts w) λ _ w1.
        Succeeds-bind_of content _ w1 _ _ _ (write_tags-Emits law 0 ts end w1 h)
          (write_tags-Succeeds 0 ts end w1 h)
          λ cur w2 e2.
            Succeeds-bind_of content _ w2 _ _ _ (write_region_data-Emits law region w2 set)
              (write_region_data-Succeeds region w2 set)
              λ n w3 e3. let total : n + cur ≡ pre.length = omega arith in rw (total, ==_refl) tt

  put_writer-Succeeds :
      {A : Type 0} (s : Output S) (r : Result Error A × S) → Succeeds r → Succeeds (put_writer s r)
  put_writer-Succeeds s (ok a, w) h = tt
  put_writer-Succeeds s (err e, w) h = h

  module _ {sort : List Tag → List Tag} (sorts : IsSort sort) where
    write_set-Succeeds :
        (hdr : Header) (s : Output S)
        → IsWritable hdr
        → Succeeds (write_set io_write sort (with_region hdr, written_pre hdr) s)
    unfolding write_set
    write_set-Succeeds hdr s h =
        let region = region_of_header hdr in
        let pre = written_pre hdr in
        let same : sort hdr.tags ≡ hdr.tags =
          sort_strict sorts hdr.tags (IsLaid-IsStrict 0 hdr.tags hdr.off h.laid h.some_data) in
        let size : pre.length ≡ hdr.off + length (region_data region) =
          omega (arith, (length-region (length hdr.tags) hdr.off hdr.region).1) in
        let back : (w : S) → Succeeds (write_back io_write (sort hdr.tags) region pre w) = λ w.
          rw same (
            write_back-Succeeds hdr.tags region pre hdr.off w h.laid
              (region-IsSetRegion (length hdr.tags) hdr.off hdr.region) size) in
        Succeeds-bind _ _
          (put_writer-Succeeds (record s { hdr = with_region hdr }) _
            (write_front-Succeeds region pre s.w))
          λ _ s1.
            put_writer-Succeeds (record s1 { hdr = record s1.hdr { tags = sort hdr.tags } }) _
              (back s1.w)

    -- On an io.Writer that never fails, `WriteTo` of a header that `Add` laid out, with tags, no
    -- data empty and room for the region, succeeds: it writes the header's encoding, returns its
    -- length modulo 2 ^ 32, and leaves the header as it was, its region set.
    pub write_to-encoded :
        (s : Output S)
        → IsWritable s.hdr
        → (s' : Output S) × (write_to io_write sort s ≡ (ok (u32 (length (encoded s.hdr))), s'))
          × (content s'.w ≡ content s.w ++ encoded s.hdr)
          × (s'.hdr ≡ with_region s.hdr)
    write_to-encoded s h =
        let done : Succeeds (write_to io_write sort s) =
          unfold write_to in
          rw
            (write_checked-cons law sorts s.hdr.tags s h.some_tags, set_region-written s.hdr h.fits)
            (write_set-Succeeds s.hdr s h) in
        let (n, s', ran, wrote, (count, kept)) =
          Emits-of_Succeeds (out law) (encoded s.hdr) s _ _ (write_to-Emits law sorts s h) done in
        (s', subst (λ (k : ℕ). write_to io_write sort s ≡ (ok k, s')) count ran, wrote, kept)

-- A header with no tags is refused, and nothing is written.
pub write_to_no_tags :
    {S : Type 0} (io_write : Bytes → S → WriteReply S) (sort : List Tag → List Tag) (s : Output S)
    → s.hdr.tags ≡ []
    → write_to io_write sort s ≡ (err err_no_tags, s)
unfolding write_to write_checked
write_to_no_tags io_write sort s h = rw h
