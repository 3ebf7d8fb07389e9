-- ===== src/Rpmdump/Printed.antt =====
-- cmd/rpmdump/rpmdump.go: what is printed of the headers that the reader accepts.
use go_rpm.Base.{
  ◌++◌, ◌∙◌, ap, append-nil, append_assoc, ℕ, Bytes, Bool, List, Option, none, some, [], ◌∷◌, ◌≡◌,
  ◌+◌, refl, sym, subst, All, false, inl,
}
use go_rpm.Io.{Result, Op, WriteReply, IsWriter, NeverFails, ok}
use go_rpm.Tag.{Tag, Error}
use go_rpm.Tag.Format.{Format}
use go_rpm.Tag.Dump.{print_unchecked, newline}
use go_rpm.Tag.DumpOk.{dump_text, dump-Prints, dump-Prints_bytes}
use go_rpm.Tag.Dumped.{Prints, Prints-none, Prints-bind, print_unchecked-Prints}
use go_rpm.Header.{Header, region_of}
use go_rpm.Files.Dump.{Row}
use go_rpm.Rpmdump.{
  next_tag, dump_tags, dump_region, dump_header, dump_headers, header_line, is_signature, check_end,
  dump_read,
}
use go_rpm.Rpmdump.Dumpable.{Tagged, IsDumpable, IsRegionTag, region_of-IsRegionTag, region_of-pre}
use go_rpm.Tag.Dump

-- The text of headers: the line with their length and count, the region tag, and the tags, each with an
-- empty line behind it. The tags of a header with the region of a signature have the names that
-- they have there.
unfoldable pub tags_text : Format → Bool → List Tag → Bytes
tags_text fm sig [] = []
tags_text fm sig (t ∷ ts) = dump_text fm sig t ++ (newline ∷ [] ++ tags_text fm sig ts)

abbrev pub region_text : Format → Option Tag → Bytes
region_text fm none = []
region_text fm (some t) = dump_text fm false t

unfoldable pub header_text : Format → ℕ → Header → Bytes
header_text fm i hdr =
    header_line fm i hdr
    ++ (region_text fm (region_of hdr).1 ++ tags_text fm (is_signature (region_of hdr).1) hdr.tags)

unfoldable pub headers_text : Format → List Header → ℕ → Bytes
headers_text fm [] i = []
headers_text fm (hdr ∷ hs) i = header_text fm i hdr ++ headers_text fm hs (i + 1)

module _ (fm : Format) {S : Type 0} {io_write : Bytes → S → WriteReply S} {content : S → Bytes}
    (law : IsWriter io_write content) (never : NeverFails io_write) where
  next_tag-Prints :
      (b c : Bytes) (w : S) (k : Result Error (Unit {0}) → Op S Error (Unit {0}))
      (r : Result Error (Unit {0}) × S)
      → Prints fm law never b w r
      → ((w' : S) → Prints fm law never c w' (k (ok tt) w'))
      → Prints fm law never (b ++ (newline ∷ [] ++ c)) w (next_tag fm io_write k r)
  next_tag-Prints b c w k r (w1, ran, wrote) f =
      let (w2, ran2, wrote2) = print_unchecked-Prints fm law never (newline ∷ []) w1 in
      let (w3, ran3, wrote3) = f w2 in
      (
        w3,
        rw (ran, ran2) ran3,
        wrote3
            ∙ ap (λ (t : Bytes). t ++ c) (wrote2 ∙ ap (λ (t : Bytes). t ++ newline ∷ []) wrote)
            ∙ append_assoc (content w ++ b) (newline ∷ []) c
            ∙ append_assoc (content w) b (newline ∷ [] ++ c),
      )

  dump_tags-Prints :
      (sig : Bool) (ts : List Tag) (w : S)
      → All Tagged ts
      → Prints fm law never (tags_text fm sig ts) w (dump_tags fm io_write sig ts (ok tt) w)
  unfolding dump_tags tags_text
  dump_tags-Prints sig [] w c = Prints-none fm law never w
  dump_tags-Prints sig (t ∷ ts) w (c, cs) =
      next_tag-Prints (dump_text fm sig t) (tags_text fm sig ts) w (dump_tags fm io_write sig ts)
        (Dump.dump fm io_write sig t w) (dump-Prints fm law never sig t w c)
        λ w'. dump_tags-Prints sig ts w' cs

  dump_region-Prints :
      (r : Option Tag) (w : S)
      → IsRegionTag r
      → Prints fm law never (region_text fm r) w (dump_region fm io_write r w)
  unfolding dump_region
  dump_region-Prints none w h = Prints-none fm law never w
  dump_region-Prints (some t) w (b, (body, e)) =
      dump-Prints_bytes fm law never false t body 0 w e (inl b)

  dump_header-Prints :
      (path_join : Bytes → Bytes → Bytes) (table : List Row → Bytes) (i : ℕ) (hdr : Header) (w : S)
      → IsDumpable hdr
      → Prints fm law never
          (header_text fm i hdr)
          w
          (dump_header fm path_join table io_write false i (region_of hdr) w)
  unfolding dump_header header_text
  dump_header-Prints path_join table i hdr w (c, b) =
      let (same, region) = region_of-IsRegionTag hdr hdr.region refl b in
      let pre : (region_of hdr).0.pre ≡ hdr.pre = region_of-pre hdr hdr.region refl in
      let v : Header = (region_of hdr).0 in
      let rtag : Option Tag = (region_of hdr).1 in
      let tags : Bytes = tags_text fm (is_signature rtag) v.tags in
      let text : header_line fm i v ++ (region_text fm rtag ++ (tags ++ []))
          ≡ header_text fm i hdr =
        rw (append-nil tags, same, pre) refl in
      subst
        (λ (x : Bytes).
          Prints fm law never x w (dump_header fm path_join table io_write false i (v, rtag) w))
        text
        (Prints-bind fm law never (header_line fm i v) _ w
          (print_unchecked fm io_write (header_line fm i v)) _
          (print_unchecked-Prints fm law never (header_line fm i v) w)
          λ w1.
            Prints-bind fm law never (region_text fm rtag) _ w1 (dump_region fm io_write rtag) _
              (dump_region-Prints rtag w1 region)
              λ w2.
                Prints-bind fm law never tags [] w2
                  (dump_tags fm io_write (is_signature rtag) v.tags (ok tt)) _
                  (dump_tags-Prints (is_signature rtag) v.tags w2 (subst (All Tagged) (sym same) c))
                  λ w3. Prints-none fm law never w3)

  pub dump_headers-Prints :
      (path_join : Bytes → Bytes → Bytes) (table : List Row → Bytes) (hs : List Header) (i : ℕ)
      (w : S)
      → All IsDumpable hs
      → Prints fm law never
          (headers_text fm hs i)
          w
          (dump_headers fm path_join table io_write false hs i w)
  unfolding dump_headers headers_text
  dump_headers-Prints path_join table [] i w h = Prints-none fm law never w
  dump_headers-Prints path_join table (hdr ∷ hs) i w (h, k) =
      Prints-bind fm law never (header_text fm i hdr) (headers_text fm hs (i + 1)) w
        (dump_header fm path_join table io_write false i (region_of hdr))
        (dump_headers fm path_join table io_write false hs (i + 1))
        (dump_header-Prints path_join table i hdr w h)
        λ w'. dump_headers-Prints path_join table hs (i + 1) w' k

  -- Behind a loop over headers that met no error.
  pub dump_read-Prints :
      (path_join : Bytes → Bytes → Bytes) (table : List Row → Bytes) (v : Header) (vs : List Header)
      (w : S)
      → All IsDumpable (v ∷ vs)
      → (w' : S) × (dump_read fm path_join table io_write false (v ∷ vs) none w ≡ (ok tt, w'))
        × (content w' ≡ content w ++ headers_text fm (v ∷ vs) 0)
  unfolding dump_read check_end
  dump_read-Prints path_join table v vs w h =
      let (w', ran, wrote) = dump_headers-Prints path_join table (v ∷ vs) 0 w h in
      (w', rw ran refl, wrote)
