-- ===== src/Header/Written.antt =====
-- What `WriteTo` writes of a header under construction, on every io.Writer that keeps its contract.
use go_rpm.Io.{WriteReply, IsWriter}
use go_rpm.Io.Emits.{Emits, Emits-bind, Emits-pure, Emits-weaken}
use go_rpm.Tag.{TagHeader, Tag, tag_size}
use go_rpm.Tag.Data.{put_tag_header}
use go_rpm.Tag.Written.{data_bytes, send-Emits, write_data-Emits, write_header-Emits, IsSetData}
use go_rpm.Header.{RpmHeaderPre, u32, Option, List, Bytes, ℕ, length}
use go_rpm.Header.Layout.{IsLaid, data_size, gap, gap-lt}
use go_rpm.Header.Write.{
  put_pre, pad, write_region_header, write_region_data, write_tag_headers, write_tags, write_front,
  write_back,
}
use go_rpm.Base.{
  List, Option, Bytes, ℕ, sym, ◌≡◌, ◌∷◌, ◌<◌, some, [], ◌+◌, append-nil, zeros, ◌*◌, ◌++◌, refl,
  none, arith, ltb, length-append, false, length-replicate, ◌-◌, take-zeros, ◌∙◌, ==_refl,
}

abbrev pub tag_headers : List Tag → Bytes
tag_headers [] = []
tag_headers (t ∷ ts) = put_tag_header t.head ++ tag_headers ts

-- The data of the tags from offset `cur` on, zeros in the gaps.
abbrev pub laid_data : ℕ → List Tag → Bytes
laid_data cur [] = []
laid_data cur (t ∷ ts) =
    zeros (gap t.head.type cur) ++ (data_bytes t.body ++ laid_data (t.head.offset + data_size t) ts)

abbrev pub region_header : Option Tag → Bytes
region_header none = []
region_header (some t) = put_tag_header t.head

abbrev pub region_data : Option Tag → Bytes
region_data none = []
region_data (some t) = data_bytes t.body

abbrev pub IsSetRegion : Option Tag → Type 0
IsSetRegion none = Unit {0}
IsSetRegion (some t) = IsSetData t.body

length-put_tag_header : (h : TagHeader) → length (put_tag_header h) ≡ 16
length-put_tag_header h = refl

pub length-tag_headers : (ts : List Tag) → length (tag_headers ts) ≡ length ts * 16
length-tag_headers [] = omega arith
length-tag_headers (t ∷ ts) =
    omega (arith, length-append (put_tag_header t.head) (tag_headers ts), length-tag_headers ts)

-- The data end where the layout ends.
pub length-laid_data :
    (cur : ℕ) (ts : List Tag) (end : ℕ) → IsLaid cur ts end → cur + length (laid_data cur ts) ≡ end
length-laid_data cur [] end h = omega arith
length-laid_data cur (t ∷ ts) end (p, h) = omega (
  arith,
  length-append (zeros (gap t.head.type cur))
      (data_bytes t.body ++ laid_data (t.head.offset + data_size t) ts),
  length-replicate {A = ℕ} (gap t.head.type cur) 0,
  length-append (data_bytes t.body) (laid_data (t.head.offset + data_size t) ts),
  length-laid_data (t.head.offset + data_size t) ts end h,
  p.placed,
)

module _ {S : Type 0} {io_write : Bytes → S → WriteReply S} {content : S → Bytes}
    (law : IsWriter io_write content) where
  pub pad-Emits :
      (off cur n : ℕ) (w : S)
      → off ≡ cur + n
      → n < 8
      → Emits content (zeros n) w (λ k _. k ≡ n) (pad io_write off cur w)
  unfolding pad
  pad-Emits off cur n w e h =
      let late : ltb off cur ≡ false = ground arith in
      let close : ltb 8 n ≡ false = ground arith in
      let room : off - cur ≡ n = omega arith in
      rw (late, room, close, take-zeros n 8 (omega arith))
        (Emits-weaken content (zeros n) w _ _ _ (send-Emits law (zeros n) w)
          λ k _ e. e ∙ length-replicate n 0)

  write_tag_headers-Emits :
      (ts : List Tag) (w : S)
      → Emits content (tag_headers ts) w (λ _ _. Unit {0}) (write_tag_headers io_write ts w)
  unfolding write_tag_headers
  write_tag_headers-Emits [] w = (sym (append-nil (content w)), tt)
  write_tag_headers-Emits (t ∷ ts) w =
      Emits-bind content (put_tag_header t.head) _ w _ _ _ _ (write_header-Emits law t.head w)
        λ _ w' _. write_tag_headers-Emits ts w'

  pub write_tags-Emits :
      (cur : ℕ) (ts : List Tag) (end : ℕ) (w : S)
      → IsLaid cur ts end
      → Emits content (laid_data cur ts) w (λ n _. n ≡ end) (write_tags io_write ts cur w)
  unfolding write_tags
  write_tags-Emits cur [] end w h = (sym (append-nil (content w)), h)
  write_tags-Emits cur (t ∷ ts) end w (p, h) =
      Emits-bind content (zeros (gap t.head.type cur)) _ w _ _ _ _
        (pad-Emits t.head.offset cur (gap t.head.type cur) w p.placed (gap-lt t.head.type cur))
        λ n1 w1 e1.
          Emits-bind content (data_bytes t.body) _ w1 _ _ _ _
            (write_data-Emits law t.body w1 p.set_data)
            λ n2 w2 e2.
              let next : cur + (n1 + n2) ≡ t.head.offset + data_size t = omega (arith, p.placed) in
              rw next (write_tags-Emits (t.head.offset + data_size t) ts end w2 h)

  write_region_header-Emits :
      (region : Option Tag) (w : S)
      → Emits content
          (region_header region)
          w
          (λ _ _. Unit {0})
          (write_region_header io_write region w)
  unfolding write_region_header
  write_region_header-Emits none w = (sym (append-nil (content w)), tt)
  write_region_header-Emits (some t) w = write_header-Emits law t.head w

  pub write_region_data-Emits :
      (region : Option Tag) (w : S)
      → IsSetRegion region
      → Emits content
          (region_data region)
          w
          (λ n _. n ≡ length (region_data region))
          (write_region_data io_write region w)
  unfolding write_region_data
  write_region_data-Emits none w h = (sym (append-nil (content w)), refl)
  write_region_data-Emits (some t) w h = write_data-Emits law t.body w h

  pub write_front-Emits :
      (region : Option Tag) (pre : RpmHeaderPre) (w : S)
      → Emits content
          (put_pre pre ++ region_header region)
          w
          (λ _ _. Unit {0})
          (write_front io_write region pre w)
  unfolding write_front
  write_front-Emits region pre w =
      Emits-bind content (put_pre pre) _ w _ _ _ _ (send-Emits law (put_pre pre) w)
        λ _ w' _. write_region_header-Emits region w'

  -- The length check passes where the prefix counts the tags' data and the region's.
  pub write_back-Emits :
      (ts : List Tag) (region : Option Tag) (pre : RpmHeaderPre) (end : ℕ) (w : S)
      → IsLaid 0 ts end
      → IsSetRegion region
      → pre.length ≡ end + length (region_data region)
      → Emits content
          (tag_headers ts ++ (laid_data 0 ts ++ region_data region))
          w
          (λ n _. n ≡ u32 (u32 (pre.count * tag_size) + pre.length + 16))
          (write_back io_write ts region pre w)
  unfolding write_back
  write_back-Emits ts region pre end w h set e =
      Emits-bind content (tag_headers ts) _ w _ _ _ _ (write_tag_headers-Emits ts w) λ _ w1 _.
        Emits-bind content (laid_data 0 ts) _ w1 _ _ _ _ (write_tags-Emits 0 ts end w1 h)
          λ cur w2 e2.
            Emits-pure content (region_data region) w2 _ _ _ _
              (write_region_data-Emits region w2 set)
              λ n w3 e3.
                let total : n + cur ≡ pre.length = omega arith in
                (u32 (u32 (pre.count * tag_size) + pre.length + 16), rw (total, ==_refl), refl)
