-- ===== src/Reader/Sound.antt =====
-- Everything that `Next` accepts, whatever the stream holds.
use mathlib.Core.List.{Perm}
use go_rpm.Base.{
  ℕ, Bytes, List, length, take, drop, ◌==◌, ◌≡◌, ◌≤◌, ◌+◌, ◌-◌, ◌*◌, refl, arith, true, ◌∙◌, ap,
  sym, subst, All, All-map, zero, suc, [], ◌∷◌, map, leb, and_not, bytes_eq, bytes_eq_iff,
  bit_and_seven, length-replicate,
}
use go_rpm.Io.{ok, read_full, discard}
use go_rpm.Io.Ensures.{
  Ensures, Ensures-ok, Ensures-bind, Ensures-weaken, Reads, read_full-Reads, discard-Reads,
}
use go_rpm.Tag.{Tag, TagHeader, tag_size, err_offset_oob, err_bad_align, err_invalid_header}
use go_rpm.Tag.Read.{lift_io}
use go_rpm.Tag.ReadBack.{IsAhead}
use go_rpm.Tag.Accepted.{IsCounted, lift_io-Ensures}
use go_rpm.Header.{Header, RpmHeaderPre, rpm_header_magic}
use go_rpm.Header.Sort.{IsSort}
use go_rpm.Reader.{
  Reader, align, read_pre, get_pre, read_all_data, data_end, read_tags, get_tag_header, wrap,
  wrap_tag, check, on_stream, next, split_region, split_last, read_body, tag_aligned,
}
use go_rpm.Reader.Next.{padding}
use go_rpm.Reader.Accepted.{Steps, on_stream-Ensures, check-Ensures, wrap-Ensures, wrap_tag-Ensures}
use go_rpm.Reader.Loaded.{Steps-none, Steps-trans, IsRising, IsLoaded, read_all_data-IsLoaded}
use mathlib.Core.List.Perm

-- Bytes that are read and then counted.
counted-Steps :
    (n : ℕ) (s s1 : Reader)
    → Reads n s.r s1.r
    → s1.off ≡ s.off
    → Steps n s (record s1 { off = s1.off + n })
counted-Steps n s s1 h e = record { stream = h; counted = omega arith }

align-Steps : (s : Reader) → Ensures (λ _ s'. Steps (length (padding s.off)) s s') (align s)
unfolding align
align-Steps s =
    let gap : ℕ = and_not (s.off + 0x7) 0x7 - s.off in
    let size : gap ≡ length (padding s.off) =
      rw (bit_and_seven, length-replicate {A = ℕ}) (omega arith) in
    Ensures-bind _ (λ _ s'. Steps (length (padding s.off)) s s')
      (on_stream (lift_io (discard gap)) s) _
      (on_stream-Ensures (λ k r'. Reads k s.r r' × (k ≤ gap)) (lift_io (discard gap)) s
        (lift_io-Ensures _ (discard gap) s.r (discard-Reads gap s.r)))
      λ k s1 p.
        Ensures-bind _ (λ _ s'. Steps (length (padding s.off)) s s')
          (check (gap - k == 0) err_bad_align s1) _ (check-Ensures (gap - k == 0) err_bad_align s1)
          λ _ s2 c.
            let all : k ≡ length (padding s.off) = full gap k (p.0.1) c.0 ∙ size in
            subst (λ (u : Reader). Steps (length (padding s.off)) s (record u { off = u.off + k }))
              (sym c.1)
              (subst (λ (n : ℕ). Steps n s (record s1 { off = s1.off + k })) all
                (counted-Steps k s s1 p.0.0 p.1))
  where
    full : (gap k : ℕ) → k ≤ gap → (gap - k == 0) ≡ true → k ≡ gap
    full gap k le h = ground arith

read_pre-Steps :
    (s : Reader)
    → Ensures
        (λ pre s'.
          Steps 16 s s'
          × (pre ≡ get_pre (take 16 s.r.input))
          × (take 8 (take 16 s.r.input) ≡ rpm_header_magic))
        (read_pre s)
unfolding read_pre
read_pre-Steps s =
    Ensures-bind _ _ (on_stream (lift_io (read_full 16)) s) _
      (on_stream-Ensures _ (lift_io (read_full 16)) s
        (lift_io-Ensures _ (read_full 16) s.r (read_full-Reads 16 s.r)))
      λ b s1 p.
        Ensures-bind _ _ (check (bytes_eq (take 8 b) rpm_header_magic) err_invalid_header s1) _
          (check-Ensures (bytes_eq (take 8 b) rpm_header_magic) err_invalid_header s1)
          λ _ s2 c. (
            subst (λ (u : Reader). Steps 16 s (record u { off = u.off + tag_size })) (sym c.1)
                (counted-Steps 16 s s1 p.0.0 p.1),
            ap get_pre p.0.1,
            ap (take 8) (sym p.0.1) ∙ (bytes_eq_iff (take 8 b) rpm_header_magic).0 c.0,
          )

-- The tag headers that stand in some bytes.
unfoldable pub wire_headers : ℕ → Bytes → List TagHeader
wire_headers zero b = []
wire_headers (suc n) b = get_tag_header (take 16 b) ∷ wire_headers n (drop 16 b)

abbrev pub heads : List Tag → List TagHeader
heads ts = map (λ (t : Tag). t.head) ts

read_tags-Steps :
    (size n i : ℕ) (s : Reader)
    → Ensures
        (λ ts s'. Steps (n * 16) s s' × (heads ts ≡ wire_headers n s.r.input))
        (read_tags size n i s)
unfolding read_tags wire_headers
read_tags-Steps size zero i s = (Steps-none s, refl)
read_tags-Steps size (suc n) i s =
    Ensures-bind _ _ (on_stream (lift_io (read_full 16)) s) _
      (on_stream-Ensures _ (lift_io (read_full 16)) s
        (lift_io-Ensures _ (read_full 16) s.r (read_full-Reads 16 s.r)))
      λ b s1 p.
        let h : TagHeader = get_tag_header b in
        Ensures-bind (λ _ s2. (leb h.offset size ≡ true) × (s2 ≡ s1)) _
          (wrap_tag h (check (leb h.offset size) err_offset_oob) s1) _
          (wrap_tag-Ensures (λ _ s2. (leb h.offset size ≡ true) × (s2 ≡ s1)) h
            (check (leb h.offset size) err_offset_oob s1)
            (check-Ensures (leb h.offset size) err_offset_oob s1))
          λ _ s2 c.
            let s3 : Reader = record s2 { off = s2.off + tag_size } in
            let step : Steps 16 s s3 =
              subst (λ (u : Reader). Steps 16 s (record u { off = u.off + tag_size })) (sym c.1)
                (counted-Steps 16 s s1 p.0.0 p.1) in
            let sum : 16 + n * 16 ≡ suc n * 16 = omega arith in
            Ensures-bind _ _ (read_tags size n (i + 1) s3) _ (read_tags-Steps size n (i + 1) s3)
              λ ts s4 q. (
                subst (λ (k : ℕ). Steps k s s4) sum (Steps-trans step q.0),
                λ j. get_tag_header (p.0.1 j) ∷ (q.1 ∙ ap (wire_headers n) step.stream.left) j,
              )

-- The header that `Next` has read from `s` on, behind padding up to a multiple of eight bytes: its
-- prefix, and its tags `ts`, sorted and with their data.
pub record IsFound (s : Reader) (hdr : Header) (pre : RpmHeaderPre) (ts : List Tag) (s' : Reader)
    : Type 0 where
  pub prefix : pre ≡ get_pre (take 16 (drop (length (padding s.off)) s.r.input))
  pub magic : pre.magic ≡ rpm_header_magic
  pub listed :
      Perm (heads ts) (wire_headers pre.count (drop (length (padding s.off) + 16) s.r.input))
  pub split : hdr ≡ split_region pre ts (split_last ts)
  pub rising : IsRising pre.length ts
  pub counted : All (λ t. IsCounted t.head t.body) ts
  pub aligned : All (λ t. tag_aligned t.head.type t.off ≡ true) ts
  pub placed :
      let start = s.off + (length (padding s.off) + 16 + pre.count * 16) in
      All (λ t. t.off + data_end pre.length ts ≡ start + t.head.offset) ts
  pub steps :
      Steps
        (length (padding s.off) + 16 + pre.count * 16 + (pre.length - data_end pre.length ts))
        s
        s'

module _ {ahead : ℕ → ℕ → ℕ} (law : IsAhead ahead) {sort : List Tag → List Tag}
    (sorts : IsSort sort) where
  body-Ensures :
      (pre : RpmHeaderPre) (ts : List Tag) (s : Reader)
      → Ensures
          (λ hdr s'.
            (ts' : List Tag) × (hdr ≡ split_region pre ts' (split_last ts'))
            × IsLoaded pre.length (data_end pre.length ts') (sort ts) s ts' s'
            × Perm (heads ts') (heads ts))
          (read_body ahead sort pre ts s)
  unfolding read_body read_all_data split_last
  body-Ensures pre [] s =
      let none_left : sort [] ≡ [] = Perm.eq-nil (sorts.permutes []) in
      let h : IsLoaded pre.length pre.length [] s [] s =
        read_all_data-IsLoaded law pre.length [] s in
      (
        [],
        refl,
        subst (λ (us : List Tag). IsLoaded pre.length pre.length us s [] s) (sym none_left) h,
        Perm.refl [],
      )
  body-Ensures pre (t ∷ ts) s =
      Ensures-bind _ _ (read_all_data ahead pre.length (sort (t ∷ ts)) s) _
        (read_all_data-IsLoaded law pre.length (sort (t ∷ ts)) s)
        λ ts' s' h. (
          ts',
          refl,
          subst (λ (b : ℕ). IsLoaded pre.length b (sort (t ∷ ts)) s ts' s') (sym h.first) h,
          subst (λ (x : List TagHeader). Perm x (heads (t ∷ ts))) (sym h.heads)
              (Perm.map (λ (u : Tag). u.head) (sorts.permutes (t ∷ ts))),
        )

  next-Ensures :
      (s : Reader)
      → Ensures
          (λ hdr s'. (pre : RpmHeaderPre) × (ts : List Tag) × IsFound s hdr pre ts s')
          (next ahead sort s)
  unfolding next get_pre
  next-Ensures s =
      let p : ℕ = length (padding s.off) in
      Ensures-bind _ _ (align s) _ (align-Steps s) λ _ s1 a.
        Ensures-bind _ _ (wrap read_pre s1) _ (wrap-Ensures _ (read_pre s1) (read_pre-Steps s1))
          λ pre s2 b.
            Ensures-bind _ _ (read_tags pre.length pre.count 0 s2) _
              (read_tags-Steps pre.length pre.count 0 s2)
              λ wire s3 c.
                Ensures-weaken _ _ (read_body ahead sort pre wire s3) (body-Ensures pre wire s3)
                  λ hdr s4 d. (pre, d.0, found s s1 s2 s3 s4 hdr pre wire d.0 a b c d.1 d.2 d.3)
    where
      found :
          (s s1 s2 s3 s4 : Reader) (hdr : Header) (pre : RpmHeaderPre) (wire ts : List Tag)
          → Steps (length (padding s.off)) s s1
          → Steps 16 s1 s2
            × (pre ≡ get_pre (take 16 s1.r.input))
            × (take 8 (take 16 s1.r.input) ≡ rpm_header_magic)
          → Steps (pre.count * 16) s2 s3 × (heads wire ≡ wire_headers pre.count s2.r.input)
          → hdr ≡ split_region pre ts (split_last ts)
          → IsLoaded pre.length (data_end pre.length ts) (sort wire) s3 ts s4
          → Perm (heads ts) (heads wire)
          → IsFound s hdr pre ts s4
      found s s1 s2 s3 s4 hdr pre wire ts a b c split loaded perm =
          let before : Steps (length (padding s.off) + 16 + pre.count * 16) s s3 =
            Steps-trans (Steps-trans a b.0) c.0 in
          record {
            prefix = b.1 ∙ ap (λ (x : Bytes). get_pre (take 16 x)) a.stream.left;
            magic = ap (λ (x : RpmHeaderPre). x.magic) b.1 ∙ b.2;
            listed =
                subst (λ (x : List TagHeader). Perm (heads ts) x)
                  (c.1 ∙ ap (wire_headers pre.count) (Steps-trans a b.0).stream.left) perm;
            split = split;
            rising = loaded.rising;
            counted = loaded.counted;
            aligned = loaded.aligned;
            placed = All-map (λ t e. omega (arith, before.counted)) ts loaded.placed;
            steps =
                subst
                  (λ (n : ℕ).
                    Steps (length (padding s.off) + 16 + pre.count * 16 + (pre.length - n)) s s4)
                  (sym loaded.first) (Steps-trans before loaded.steps);
          }

  -- Whatever the stream holds, a header that `Next` gives stands in it (`IsFound`), behind padding up to
  -- a multiple of eight bytes: its prefix has the magic number, its tags are those of the headers that
  -- follow, as many as the prefix says, and their offsets rise strictly and are below its length. Each
  -- tag has data of its type and count, and its place `off` is aligned for the type: the first tag's is
  -- right behind the tag headers, whatever its offset is, and the others' follow by the differences of
  -- the offsets. The reader reads from the stream just what its offset moves by, which is the prefix,
  -- the tag headers and the length less the first offset.
  pub next-IsFound :
      (s : Reader) (hdr : Header) (s' : Reader)
      → next ahead sort s ≡ (ok hdr, s')
      → (pre : RpmHeaderPre) × (ts : List Tag) × IsFound s hdr pre ts s'
  next-IsFound s hdr s' e = Ensures-ok _ (next ahead sort s) hdr s' (next-Ensures s) e
