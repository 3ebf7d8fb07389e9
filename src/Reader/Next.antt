-- ===== src/Reader/Next.antt =====
-- `Next` on a header as it stands on the wire.
use go_rpm.Header.Layout.{gap, IsLaid, data_size}
use go_rpm.Reader.Data.{reader}
use go_rpm.Reader.{read_pre, get_pre, align, RpmHeaderPre, Tag, ok, read_all_data}
use go_rpm.Base.{
  ℕ, ◌<◌, Bytes, Option, List, ◌^◌, zeros, ◌-◌, ◌++◌, ◌≡◌, ◌≢◌, ◌%◌, [], ◌+◌, length, All, and_not,
  bytes_eq_refl, refl, bit_and_seven, length-replicate, map, arith, ◌∷◌, append_assoc, subst, sym,
}
use go_rpm.Header.{RpmHeaderPre, rpm_header_magic}
use go_rpm.Tag.ReadBack.{IsAhead}
use go_rpm.Header.Write.{put_pre}
use go_rpm.Tag.{Tag}
use go_rpm.Io.Binary.{uint_be-put_be_4}
use go_rpm.Io.{ok}
use go_rpm.Io.Streams.{read_full-append, discard-append}
use go_rpm.Reader.Loop.{IsReadableTag, fresh, found, read_all_data-laid, IsPlaced-aligned}
use go_rpm.Header.Written.{laid_data}
use go_rpm.Tag.Written.{data_bytes}

-- What fills a stream up to a multiple of eight bytes.
abbrev pub padding : ℕ → Bytes
padding o = zeros ((8 - o % 8) % 8)

pub align-padding :
    (o : ℕ) (rest : Bytes) (f : Option ℕ)
    → align (reader o (padding o ++ rest) f) ≡ (ok tt, reader (o + length (padding o)) rest f)
unfolding align
align-padding o rest f =
    let gap : and_not (o + 7) 7 - o ≡ length (padding o) =
      rw (bit_and_seven, length-replicate {A = ℕ}) (omega arith) in
    rw (gap, discard-append (length (padding o)) (padding o) rest f refl)
      (let none_left : length (padding o) - length (padding o) ≡ 0 = omega arith in rw none_left)

abbrev pub wire_pre : ℕ → ℕ → RpmHeaderPre
wire_pre count size = record { magic = rpm_header_magic; count = count; length = size }

get_pre-put_pre :
    (count size : ℕ)
    → count < 2 ^ 32
    → size < 2 ^ 32
    → get_pre (put_pre (wire_pre count size)) ≡ wire_pre count size
unfolding get_pre
get_pre-put_pre count size p q = rw (uint_be-put_be_4 count p, uint_be-put_be_4 size q)

pub read_pre-put_pre :
    (count size o : ℕ) (rest : Bytes) (f : Option ℕ)
    → count < 2 ^ 32
    → size < 2 ^ 32
    → read_pre (reader o (put_pre (wire_pre count size) ++ rest) f)
      ≡ (ok (wire_pre count size), reader (o + 16) rest f)
unfolding read_pre
read_pre-put_pre count size o rest f p q = rw (
  read_full-append 16 (put_pre (wire_pre count size)) rest f refl,
  bytes_eq_refl rpm_header_magic,
  get_pre-put_pre count size p q,
)

-- The data of all tags, the first of them at offset 0.
pub read_all_data-from :
    {ahead : ℕ → ℕ → ℕ} (law : IsAhead ahead) (us : List Tag) (base end : ℕ) (rest : Bytes)
    (f : Option ℕ)
    → us ≢ []
    → base % 8 ≡ 0
    → IsLaid 0 us end
    → All IsReadableTag us
    → end < 2 ^ 32
    → read_all_data ahead end (map fresh us) (reader base (laid_data 0 us ++ rest) f)
      ≡ (ok (map (found base) us), reader (base + end) rest f)
read_all_data-from law [] base end rest f some al laid h lt = absurd (some refl)
read_all_data-from {ahead} law (u ∷ us) base end rest f some al (p, laid) h lt =
    let none : gap u.head.type 0 ≡ 0 = ground arith in
    let first : base ≡ base + u.head.offset = omega (arith, p.placed) in
    let tail : Bytes = laid_data (u.head.offset + data_size u) us in
    rw (none, append_assoc (data_bytes u.body) tail rest)
      (subst
        (λ (o : ℕ).
          read_all_data ahead end (map fresh (u ∷ us))
            (reader o (data_bytes u.body ++ (tail ++ rest)) f)
          ≡ (ok (map (found base) (u ∷ us)), reader (base + end) rest f))
        (sym first)
        (read_all_data-laid law u us base end rest f al (IsPlaced-aligned 0 u p) laid h lt))
