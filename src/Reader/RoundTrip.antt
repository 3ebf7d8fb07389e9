-- ===== src/Reader/RoundTrip.antt =====
-- A header that `WriteTo` wrote, read back by `Next`.
use go_rpm.Header.{set_region_tag, Header, RpmHeaderPre, u32}
use go_rpm.Reader.Numbered.{All-numbered, IsLaid-bounded}
use go_rpm.Header.Sort.{IsSort}
use go_rpm.Reader.Next.{padding, wire_pre}
use go_rpm.Reader.Data.{reader}
use go_rpm.Reader.{next, ℕ, Header, Tag, ok}
use go_rpm.Base.{
  ℕ, ◌+◌, none, length, All, List, Bytes, Option, ◌≡◌, ◌++◌, ◌∷◌, [], ◌≤◌, ◌*◌, arith, ap, sym, ◌∙◌,
  append_assoc, All-append, inl, refl,
}
use go_rpm.Tag.{Tag}
use go_rpm.Header.Encoding.{encoded, length-encoded}
use go_rpm.Tag.ReadBack.{IsAhead}
use go_rpm.Reader.Loop.{IsReadableTag, numbered}
use go_rpm.Reader.Tags.{IsWireHeader}
use go_rpm.Header.Write.{put_pre, Output, write_to}
use go_rpm.Header.Written.{tag_headers, laid_data}
use go_rpm.Io.{ok, WriteReply, IsWriter, NeverFails}
use go_rpm.Reader.Parts.{
  IsReadable, all_tags, read_header, wire_region, encoded-parts, region_count-one,
  IsWireHeader-bounded, next-parts, all_tags-IsLaid, region-IsWireHeader, written_pre-wire_pre,
}
use go_rpm.Header.WriteOk.{write_to-encoded}

module _ {ahead : ℕ → ℕ → ℕ} (law : IsAhead ahead) {sort : List Tag → List Tag}
    (sorts : IsSort sort) where
  all_tags-readable :
      (hdr : Header) (region : ℕ) → IsReadable hdr region → All IsReadableTag (all_tags hdr region)
  all_tags-readable hdr region h =
      All-append IsReadableTag (numbered 1 hdr.tags)
        (wire_region region (length hdr.tags) hdr.off ∷ [])
        (All-numbered {P = IsReadableTag}
          (λ t i p. record { typed = p.typed; some_data = p.some_data }) 1 hdr.tags h.readable)
        (record { typed = (inl refl, refl); some_data = omega arith }, tt)

  -- `Next` gives a header with a region (tag 62 or 63) that `Add` laid out, with at least one tag
  -- and fewer than 2 ^ 32 - 1, no data empty, every type and count those of the data, no NUL in a
  -- string, and all fields and the length in 32 bits, back from its encoding: the same tags with
  -- the same values, in the same order, with their indices on the wire and their places in the
  -- stream. It reads the padding in front and the encoding, and nothing behind them, whatever that
  -- is.
  pub next-encoded :
      (hdr : Header) (region o : ℕ) (rest : Bytes) (f : Option ℕ)
      → IsReadable hdr region
      → next ahead sort (reader o (padding o ++ (encoded hdr ++ rest)) f) ≡ (
        ok (read_header region o hdr),
        reader (o + length (padding o) + length (encoded hdr)) rest f,
      )
  unfolding set_region_tag
  next-encoded hdr region o rest f h =
      let reg : Tag = wire_region region (length hdr.tags) hdr.off in
      let end : ℕ = hdr.off + 16 in
      let pre : RpmHeaderPre = wire_pre (length hdr.tags + 1) end in
      let us : List Tag = all_tags hdr region in
      let parts : encoded hdr ++ rest
          ≡ put_pre pre ++ (tag_headers (reg ∷ hdr.tags) ++ (laid_data 0 us ++ rest)) =
        ap (λ (x : Bytes). x ++ rest) (encoded-parts hdr region h)
        ∙ append_assoc (put_pre pre) (tag_headers (reg ∷ hdr.tags) ++ laid_data 0 us) rest
        ∙ ap (◌++◌ (put_pre pre))
            (append_assoc (tag_headers (reg ∷ hdr.tags)) (laid_data 0 us) rest) in
      let total : o + length (padding o) + 16 + (length hdr.tags + 1) * 16 + end
          ≡ o + length (padding o) + length (encoded hdr) =
        omega (arith, length-encoded hdr h.writable, region_count-one hdr region h) in
      let bounded : All (λ t. IsWireHeader t.head × (t.head.offset ≤ end)) hdr.tags =
        IsWireHeader-bounded hdr.tags hdr.off h.wire
          (IsLaid-bounded 0 hdr.tags hdr.off h.writable.laid) in
      ap (λ (x : Bytes). next ahead sort (reader o (padding o ++ x) f)) parts
      ∙ next-parts law sorts o end reg hdr.tags rest f h.is_region refl
          (all_tags-IsLaid hdr region h) (all_tags-readable hdr region h)
          (
            (
              region-IsWireHeader region (length hdr.tags) hdr.off h.is_region h.writable.fits,
              omega arith,
            ),
            bounded,
          )
          h.few h.writable.fits
      ∙ ap
          (λ (p : RpmHeaderPre). (
            ok (
                set_region_tag region
                  (record (read_header region o hdr) { pre = p; region = none })),
            reader (o + length (padding o) + 16 + (length hdr.tags + 1) * 16 + end) rest f,
          ))
          (sym (written_pre-wire_pre hdr region h))
      ∙ ap (λ (n : ℕ). (ok (read_header region o hdr), reader n rest f)) total

  -- `WriteTo`, on an io.Writer that never fails, of a header with a region (tag 62 or 63) that
  -- `Add` laid out, with at least one tag and fewer than 2 ^ 32 - 1, no data empty, every type and
  -- count those of the data, no NUL in a string, and all fields and the length in 32 bits,
  -- succeeds, and `Next` gives the header back from what was written, behind padding up to a
  -- multiple of eight: the same tags with the same values, in the same order, with their indices on
  -- the wire and their places in the stream. `Next` reads the padding and what was written, and
  -- nothing behind it.
  pub next-write_to :
      {S : Type 0} {io_write : Bytes → S → WriteReply S} {content : S → Bytes}
      (writes : IsWriter io_write content) (never : NeverFails io_write) (s : Output S)
      (region o : ℕ) (rest : Bytes) (f : Option ℕ)
      → IsReadable s.hdr region
      → (n : ℕ) × (s' : Output S) × (write_to io_write sort s ≡ (ok n, s'))
        × (x : Bytes) × (content s'.w ≡ content s.w ++ x)
        × (next ahead sort (reader o (padding o ++ (x ++ rest)) f)
            ≡ (ok (read_header region o s.hdr), reader (o + length (padding o) + length x) rest f))
  next-write_to writes never s region o rest f h =
      let (s', ran, wrote, _) = write_to-encoded writes never sorts s h.writable in
      (
        u32 (length (encoded s.hdr)),
        s',
        ran,
        encoded s.hdr,
        wrote,
        next-encoded s.hdr region o rest f h,
      )
