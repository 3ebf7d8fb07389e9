-- ===== src/Reader/Loop.antt =====
-- The loops of `Next` over a header's tags, over a stream that holds them as they are written.
use go_rpm.Reader.Data.{reader, read_data-padded}
use go_rpm.Tag.{Tag, unset}
use go_rpm.Reader.{tag_aligned, unset, read_all_data, ok}
use go_rpm.Base.{
  ℕ, ◌+◌, List, ◌%◌, ◌<◌, ◌∷◌, ◌≡◌, true, Bytes, arith, [], bit_and-one, Option, bit_and_three, All,
  bit_and_seven, ◌^◌, map, ◌++◌, length, append_assoc, zeros,
}
use go_rpm.Tag.ReadBack.{IsAhead, IsTyped, read_back}
use go_rpm.Header.Layout.{IsPlaced, alignment, data_size, IsLaid, gap, gap-lt}
use go_rpm.Tag.Written.{data_bytes}
use go_rpm.Header.Written.{laid_data, length-laid_data}
use go_rpm.Io.{ok}

-- A tag as `tags` leaves it, and as the loop over the data leaves it where they begin at `base`.
abbrev pub fresh : Tag → Tag
fresh t = record t { off = 0; body = unset }

abbrev pub found : ℕ → Tag → Tag
found base t = record t { off = base + t.head.offset; body = read_back t.body }

-- The tags with the indices that they have on the wire.
abbrev pub numbered : ℕ → List Tag → List Tag
numbered i [] = []
numbered i (t ∷ ts) = record t { idx = i } ∷ numbered (i + 1) ts

-- A tag that the reader takes: its header tells what its data are, and they are not empty.
pub record IsReadableTag (t : Tag) : Type 0 where
  pub typed : IsTyped t.head t.body
  pub some_data : 0 < data_size t

pub IsPlaced-aligned :
    (cur : ℕ) (t : Tag) → IsPlaced cur t → t.head.offset % alignment t.head.type ≡ 0
IsPlaced-aligned cur t p = rw (p.placed) (ground arith)

tag_aligned-add :
    (type base off : ℕ)
    → base % 8 ≡ 0
    → off % alignment type ≡ 0
    → tag_aligned type (base + off) ≡ true
unfolding tag_aligned
tag_aligned-add type base off h e = rw (bit_and-one, bit_and_three, bit_and_seven) (ground arith)

module _ {ahead : ℕ → ℕ → ℕ} (law : IsAhead ahead) where
  -- The data of `t` and then of `ts`, with nothing but padding between them, up to `end`.
  pub read_all_data-laid :
      (t : Tag) (ts : List Tag) (base end : ℕ) (rest : Bytes) (f : Option ℕ)
      → base % 8 ≡ 0
      → t.head.offset % alignment t.head.type ≡ 0
      → IsLaid (t.head.offset + data_size t) ts end
      → All IsReadableTag (t ∷ ts)
      → end < 2 ^ 32
      → read_all_data ahead end (map fresh (t ∷ ts)) (
          reader
            (base + t.head.offset)
            (data_bytes t.body ++ (laid_data (t.head.offset + data_size t) ts ++ rest))
            f)
        ≡ (ok (map (found base) (t ∷ ts)), reader (base + end) rest f)
  unfolding read_all_data
  read_all_data-laid t [] base end rest f al at' laid (h, _) lt =
      let aligned : tag_aligned t.head.type (base + t.head.offset) ≡ true =
        tag_aligned-add t.head.type base t.head.offset al at' in
      let stop : base + t.head.offset + (length (data_bytes t.body) + 0) ≡ base + end =
        omega arith in
      rw (
        read_data-padded law (fresh t) t.body 0 (base + t.head.offset) end rest f h.typed
            (omega arith) aligned (omega arith) (omega (arith, h.some_data)) lt,
        stop,
      )
  read_all_data-laid t (u ∷ ts) base end rest f al at' (p, laid) (h, hs) lt =
      let aligned : tag_aligned t.head.type (base + t.head.offset) ≡ true =
        tag_aligned-add t.head.type base t.head.offset al at' in
      let g : ℕ = gap u.head.type (t.head.offset + data_size t) in
      let next : base + t.head.offset + (length (data_bytes t.body) + g) ≡ base + u.head.offset =
        omega (arith, p.placed) in
      let tail : Bytes = data_bytes u.body ++ laid_data (u.head.offset + data_size u) ts in
      rw (
        append_assoc (zeros g) tail rest,
        append_assoc (data_bytes u.body) (laid_data (u.head.offset + data_size u) ts) rest,
        read_data-padded law (fresh t) t.body g (base + t.head.offset) u.head.offset
            (data_bytes u.body ++ (laid_data (u.head.offset + data_size u) ts ++ rest)) f h.typed
            (gap-lt u.head.type (t.head.offset + data_size t)) aligned (omega (arith, p.placed))
            (omega (arith, h.some_data, p.placed))
            (omega (arith, length-laid_data (u.head.offset + data_size u) ts end laid)),
        next,
        read_all_data-laid u ts base end rest f al (IsPlaced-aligned _ u p) laid hs lt,
      )
