-- ===== src/Header/Layout.antt =====
-- Where `Add` places the data of the tags.
use go_rpm.Io.{ok}
use go_rpm.Tag.{Tag, int16_type, int32_type, int64_type}
use go_rpm.Tag.Written.{data_bytes, IsSetData, len_lem}
use go_rpm.Header.{Header, u32, aligned_off, add_sized, add, ℕ}
use go_rpm.Base.{
  ℕ, length, ◌<◌, ◌+◌, ◌-◌, if◌then◌else◌, List, ◌≡◌, ◌++◌, ◌==◌, ◌∷◌, ◌^◌, ◌%◌, [], subst, sym,
  refl, arith, bit_and-one, bit_and_three, bit_and_seven, ap,
}

-- The multiple that a type's data starts at.
abbrev pub alignment : ℕ → ℕ
alignment type =
    if type == int16_type
    then 2
    else if type == int32_type
    then 4
    else if type == int64_type
    then 8
    else 1

abbrev pub data_size : Tag → ℕ
data_size t = length (data_bytes t.body)

-- The bytes left out before data of the type at offset `cur`.
abbrev pub gap : ℕ → ℕ → ℕ
gap type cur = (alignment type - cur % alignment type) % alignment type

-- The data of `t` follows offset `cur`, aligned for its type.
pub record IsPlaced (cur : ℕ) (t : Tag) : Type 0 where
  pub placed : t.head.offset ≡ cur + gap t.head.type cur
  pub set_data : IsSetData t.body

-- The tags' data lie one behind the other from offset `cur` up to `end`.
abbrev pub IsLaid : ℕ → List Tag → ℕ → Type 0
IsLaid cur [] end = cur ≡ end
IsLaid cur (t ∷ ts) end = IsPlaced cur t × IsLaid (t.head.offset + data_size t) ts end

-- The invariant of a header under construction: its tags' data fill the offsets up to `off`.
abbrev pub IsLaidHeader : Header → Type 0
IsLaidHeader hdr = IsLaid 0 hdr.tags hdr.off

pub IsLaid-concat :
    (cur : ℕ) (ts : List Tag) (end : ℕ) (t : Tag)
    → IsLaid cur ts end
    → IsPlaced end t
    → IsLaid cur (ts ++ t ∷ []) (t.head.offset + data_size t)
IsLaid-concat cur [] end t h p = (subst (λ (o : ℕ). IsPlaced o t) (sym h) p, refl)
IsLaid-concat cur (u ∷ ts) end t (q, h) p =
    (q, IsLaid-concat (u.head.offset + data_size u) ts end t h p)

-- No data starts more than seven bytes behind the data before it.
pub gap-lt : (type cur : ℕ) → gap type cur < 8
gap-lt type cur = ground arith

pub aligned_off-gap :
    (type : ℕ) (hdr : Header)
    → hdr.off + 7 < 2 ^ 32
    → aligned_off type hdr ≡ hdr.off + gap type hdr.off
unfolding aligned_off
aligned_off-gap type hdr h = rw (bit_and-one, bit_and_three, bit_and_seven) (ground arith)

-- `Add` succeeds while the offsets fit 32 bits. It appends the tag with its data as they are, at the
-- next offset that is aligned for its type, and moves the end behind them.
pub add_lem :
    (t : Tag) (hdr : Header)
    → IsSetData t.body
    → hdr.off + 7 + data_size t < 2 ^ 32
    → (t' : Tag) × (add t hdr
        ≡ (ok tt, record hdr { off = t'.head.offset + data_size t; tags = hdr.tags ++ t' ∷ [] }))
      × (t'.head ≡ record t.head { offset = hdr.off + gap t.head.type hdr.off })
      × (data_bytes t'.body ≡ data_bytes t.body)
      × IsSetData t'.body
unfolding add
add_lem t hdr h fits =
    let (d', sized, same, h') = len_lem t.body h in
    let fits_u32 : u32 (hdr.off + gap t.head.type hdr.off + u32 (data_size t))
        ≡ hdr.off + gap t.head.type hdr.off + data_size t =
      omega (arith, gap-lt t.head.type hdr.off) in
    (
      record t { head = record t.head { offset = hdr.off + gap t.head.type hdr.off }; body = d' },
      rw (sized, aligned_off-gap t.head.type hdr (omega arith), add_sized, fits_u32),
      refl,
      same,
      h',
    )

-- `Add` of a tag whose data are set keeps the layout, in which the tags' data lie one behind the
-- other, aligned for their types, up to the header's offset, while the offsets fit 32 bits.
pub add-IsLaidHeader :
    (t : Tag) (hdr : Header)
    → IsLaidHeader hdr
    → IsSetData t.body
    → hdr.off + 7 + data_size t < 2 ^ 32
    → IsLaidHeader (add t hdr).1
add-IsLaidHeader t hdr h set fits =
    let (t', added, head, same, set') = add_lem t hdr set fits in
    rw (added, ← ap (length {A = ℕ}) same)
      (IsLaid-concat 0 hdr.tags hdr.off t' h (record { placed = rw head; set_data = set' }))
