-- ===== src/Scpio/Reader.antt =====
-- scpio/reader.go: `Reader`, over a byte stream that is read in sequence.
use go_rpm.Base.{
  ℕ, ◌+◌, ◌-◌, ◌*◌, Bytes, length, take, drop, bytes_eq, and_not, ◌==◌, if◌then◌else◌,
}
use go_rpm.Io.{Result, Op, ok, err, ◌>>=◌, ◌>>◌, pure, fail, Stream, IoError, read_full, discard}
use go_rpm.Io.Hex.{HexError, decode}
use go_rpm.Io.Binary.{uint_be}
use go_rpm.Scpio.{
  Error, err_unexpected_eof, err_bad_magic, err_invalid_trailer, io, hex, at_offset, newc_magic,
  scpio_magic, trailer_name,
}

pub record Reader : Type 0 where
  pub r : Stream
  pub off : ℕ

abbrev pub new_reader : Stream → Reader
new_reader r = record { r = r; off = 0 }

-- A call on the underlying stream, its error passed on.
abbrev lift_reply : {A : Type 0} → Reader → Result IoError A × Stream → Result Error A × Reader
lift_reply s (ok a, st) = (ok a, record s { r = st })
lift_reply s (err e, st) = (err (io e), record s { r = st })

abbrev pub on_stream : {A : Type 0} → Op Stream IoError A → Op Reader Error A
on_stream m s = lift_reply s (m s.r)

abbrev pub advance : ℕ → Op Reader Error (Unit {0})
advance n s = (ok tt, record s { off = s.off + n })

-- `lr.N` is what was asked for less what was copied.
unfoldable pub align : Op Reader Error (Unit {0})
align s =
    let i = and_not (s.off + 3) 3 in
    (do
      n ← on_stream (discard (i - s.off))
      if (i - s.off) - n == 0 then advance n else fail err_unexpected_eof)
      s

-- `tl - 2`, and `tl = 8*12 + len(trailer)`.
abbrev trailer_rest : ℕ
trailer_rest = 8 * 12 + length trailer_name - 2

unfoldable pub read_trailer : Op Reader Error (Unit {0})
read_trailer = do
  b ← on_stream (read_full trailer_rest)
  if bytes_eq (drop (length b - length trailer_name) b) trailer_name
      then advance (length b) >> align
      else fail err_invalid_trailer

-- `r.err(e)` takes the offset that the reader has when it is called.
abbrev wrap_reply : {A : Type 0} → Result Error A × Reader → Result Error A × Reader
wrap_reply (ok a, s) = (ok a, s)
wrap_reply (err e, s) = (err (at_offset s.off e), s)

abbrev pub wrap : {A : Type 0} → Op Reader Error A → Op Reader Error A
wrap m s = wrap_reply (m s)

-- hex.Decode of eight digits into `d`, then binary.BigEndian.Uint32(d).
abbrev from_decoded : Result HexError Bytes → Op Reader Error ℕ
from_decoded (ok d) = pure (uint_be d)
from_decoded (err e) = fail (hex e)

abbrev decode_inode : Bytes → Op Reader Error ℕ
decode_inode digits = from_decoded (decode digits)

-- At the trailer the result is 0 with no error.
unfoldable pub next : ℕ → Op Reader Error ℕ
next sz = do
  advance sz
  wrap align
  b ← wrap (on_stream (read_full (6 + 8 + 2)))
  advance (length b)
  wrap (
      if bytes_eq (take 6 b) scpio_magic
      then decode_inode (take 8 (drop 6 b))
      else if bytes_eq (take 6 b) newc_magic
      then read_trailer >> pure 0
      else fail err_bad_magic)
