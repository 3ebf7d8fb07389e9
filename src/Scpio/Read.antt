-- ===== src/Scpio/Read.antt =====
-- What `Reader.Next` answers on the bytes that a `Writer` wrote.
use go_rpm.Base.{
  ℕ, ◌+◌, ◌-◌, ◌%◌, ◌^◌, ◌<◌, ◌≡◌, refl, sym, ap, arith, [], ◌∷◌, ◌++◌, append_assoc, Option, true,
  false, Bytes, take, drop, length, length-append, length-replicate, zeros, and_not, bit_and_three,
  ◌==◌, if◌then◌else◌, bytes_eq, bytes_eq_refl, bytes_eq_ne, ◌≢◌, none,
}
use go_rpm.Io.{ok, err, eof, unexpected_eof}
use go_rpm.Io.Streams.{stream, read_full-append, discard-append, read_full_short}
use go_rpm.Io.Binary.{uint_be-put_be_4}
use go_rpm.Scpio.{at_offset, io, err_bad_magic, scpio_magic, newc_magic, trailer_name, trailer}
use go_rpm.Scpio.Header.{hex_digits, new_header-hex_fields, decode-hex_digits}
use go_rpm.Scpio.Written.{padding, padded, record_of, padding_fills}
use go_rpm.Scpio.Reader.{Reader, align, read_trailer, next}

-- A reader at offset `o` with `x` still to read.
abbrev pub reader : ℕ → Bytes → Option ℕ → Reader
reader o x f = record { r = stream x f; off = o }

align-padding :
    (o : ℕ) (rest : Bytes) (f : Option ℕ)
    → align (reader o (padding o ++ rest) f) ≡ (ok tt, reader (o + length (padding o)) rest f)
unfolding align
align-padding o rest f =
    let gap : and_not (o + 3) 3 - o ≡ length (padding o) =
      rw (bit_and_three, length-replicate {A = ℕ}) (omega arith) in
    rw (gap, discard-append (length (padding o)) (padding o) rest f refl)
      (let none_left : length (padding o) - length (padding o) ≡ 0 = omega arith in rw none_left)

-- The sixteen bytes of a record's header.
abbrev header_bytes : ℕ → Bytes
header_bytes ino = scpio_magic ++ (hex_digits 8 ino ++ 0 ∷ 0 ∷ [])

header-header_bytes :
    (ino : ℕ) → record_of ino false ++ padding (length (record_of ino false)) ≡ header_bytes ino
header-header_bytes ino = rw (new_header-hex_fields scpio_magic (ino ∷ []) refl)

-- `Next` skips the padding in front of a record that was written at its offset, and returns the
-- inode number.
pub next-record :
    (ino sz o : ℕ) (rest : Bytes) (f : Option ℕ)
    → ino < 2 ^ 32
    → next sz (reader o (padded (o + sz) (record_of ino false) ++ rest) f)
      ≡ (ok ino, reader (o + sz + length (padded (o + sz) (record_of ino false))) rest f)
unfolding next
next-record ino sz o rest f h =
    let total : o + sz + length (padding (o + sz)) + 16
        ≡ o + sz + length (padding (o + sz) ++ header_bytes ino) =
      omega (arith, length-append (padding (o + sz)) (header_bytes ino)) in
    rw (
      append_assoc (padding (o + sz)) _ rest,
      align-padding (o + sz) _ f,
      header-header_bytes ino,
      read_full-append 16 (header_bytes ino) rest f refl,
      bytes_eq_refl scpio_magic,
      decode-hex_digits ino,
      uint_be-put_be_4 ino h,
      total,
    )

-- The trailer as `Next` reads it: sixteen bytes, and the rest up to the end of its name.
trailer_head : Bytes
unfolding trailer
trailer_head = take 16 trailer

trailer_tail : Bytes
unfolding trailer
trailer_tail = drop 16 trailer

trailer-split : trailer ≡ trailer_head ++ trailer_tail
unfolding trailer_head trailer_tail
trailer-split = refl

trailer_sizes : (length trailer_head ≡ 16) × (length trailer_tail ≡ 105)
unfolding trailer_head trailer_tail
trailer_sizes = (refl, refl)

trailer_marks :
    (take 6 trailer_head ≡ newc_magic)
    × (drop (105 - length trailer_name) trailer_tail ≡ trailer_name)
unfolding trailer_head trailer_tail
trailer_marks = (refl, refl)

read_trailer-trailer_tail :
    (o : ℕ) (rest : Bytes) (f : Option ℕ)
    → read_trailer (reader o (trailer_tail ++ (padding (o + 105) ++ rest)) f)
      ≡ (ok tt, reader (o + 105 + length (padding (o + 105))) rest f)
unfolding read_trailer
read_trailer-trailer_tail o rest f = rw (
  read_full-append 105 trailer_tail (padding (o + 105) ++ rest) f (sym trailer_sizes.1),
  trailer_sizes.1,
  trailer_marks.1,
  bytes_eq_refl trailer_name,
  align-padding (o + 105) rest f,
)

magics_differ : bytes_eq newc_magic scpio_magic ≡ false
unfolding bytes_eq
magics_differ = refl

-- At the bytes that `Close` wrote, `Next` returns 0, and has read the archive to its end.
pub next-trailer :
    (sz o : ℕ) (rest : Bytes) (f : Option ℕ)
    → next sz (reader o (padded (o + sz) (record_of 0 true) ++ rest) f)
      ≡ (ok 0, reader (o + sz + length (padded (o + sz) (record_of 0 true))) rest f)
unfolding next
next-trailer sz o rest f =
    let start : ℕ = o + sz + length (padding (o + sz)) in
    let size : length trailer ≡ 121 =
      rw (trailer-split, length-append) (omega (arith, trailer_sizes.0, trailer_sizes.1)) in
    let pad : padding (length trailer) ≡ padding (start + 16 + 105) =
      ap (λ (t : ℕ). zeros ((4 - t) % 4)) (omega (arith, padding_fills (o + sz))) in
    let P : Bytes = padding (start + 16 + 105) in
    let total : start + 16 + 105 + length P
        ≡ o + sz + length (padding (o + sz) ++ ((trailer_head ++ trailer_tail) ++ P)) =
      rw (length-append, length-append, length-append)
        (omega (arith, trailer_sizes.0, trailer_sizes.1)) in
    rw (
      append_assoc (padding (o + sz)) _ rest,
      align-padding (o + sz) _ f,
      append_assoc trailer _ rest,
      pad,
      trailer-split,
      append_assoc trailer_head trailer_tail _,
      read_full-append 16 trailer_head _ f (sym trailer_sizes.0),
      trailer_marks.0,
      trailer_sizes.0,
      magics_differ,
      bytes_eq_refl newc_magic,
      read_trailer-trailer_tail (start + 16) rest f,
      total,
    )

-- Sixteen bytes that begin with neither magic are refused, at the offset behind them.
pub next_bad_magic :
    (sz o : ℕ) (b rest : Bytes) (f : Option ℕ)
    → length b ≡ 16
    → take 6 b ≢ scpio_magic
    → take 6 b ≢ newc_magic
    → next sz (reader o (padding (o + sz) ++ (b ++ rest)) f) ≡ (
      err (at_offset (o + sz + length (padding (o + sz)) + 16) err_bad_magic),
      reader (o + sz + length (padding (o + sz)) + 16) rest f,
    )
unfolding next
next_bad_magic sz o b rest f h not_scpio not_newc = rw (
  align-padding (o + sz) _ f,
  read_full-append 16 b rest f (sym h),
  h,
  bytes_eq_ne _ _ not_scpio,
  bytes_eq_ne _ _ not_newc,
)

-- A stream that ends inside a header is reported: io.EOF before its first byte, else
-- io.ErrUnexpectedEOF.
pub next_truncated :
    (sz o : ℕ) (b : Bytes)
    → length b < 16
    → next sz (reader o (padding (o + sz) ++ b) none) ≡ (
      err (
          at_offset
            (o + sz + length (padding (o + sz)))
            (io (if length b == 0 then eof else unexpected_eof))),
      reader (o + sz + length (padding (o + sz))) [] none,
    )
unfolding next
next_truncated sz o b h = rw (align-padding (o + sz) b none, read_full_short 16 b h)
