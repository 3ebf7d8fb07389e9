-- ===== src/Scpio/Writer.antt =====
-- scpio/writer.go: `Writer`. The underlying io.Writer is a parameter; offsets are Go `int`s, which
-- count bytes that exist and do not wrap.
use go_rpm.Base.{
  ℕ, ◌+◌, ◌-◌, Bool, true, false, [], ◌∷◌, none, some, Bytes, length, take, zeros, and_not, ◌==◌,
  if◌then◌else◌,
}
use go_rpm.Io.{Op, ok, err, ◌>>◌, pure, WriteReply}
use go_rpm.Scpio.{Error, err_short_write, io, scpio_magic, new_header, trailer}

pub record Writer (S : Type 0) : Type 0 where
  pub off : ℕ
  pub w : S

abbrev pub new_writer : {S : Type 0} → S → Writer S
new_writer w = record { off = 0; w = w }

module _ {S : Type 0} (io_write : Bytes → S → WriteReply S) where
  unfoldable pub write : Bytes → Op (Writer S) Error ℕ
  write b s =
      let (w', n, e) = io_write b s.w in
      let short : Writer S = record s { w = w' } in
      elim e [
        | some x ↦ (err (io x), short)
        | none ↦
            if n == length b
            then (ok n, record short { off = s.off + n })
            else (err err_short_write, short)
      ]

  -- `zb[:n-s.off]`, `zb` being four zeros.
  unfoldable pub align : Op (Writer S) Error (Unit {0})
  align s = let n = and_not (s.off + 3) 3 in (do write (take (n - s.off) (zeros 4)); pure tt) s

  unfoldable pub write_header_or_trailer : ℕ → Bool → Op (Writer S) Error (Unit {0})
  write_header_or_trailer ino close = do
    align
    write (if close then trailer else new_header scpio_magic (ino ∷ []))
    align

  -- The method `WriteHeader`, and `Close`.
  abbrev pub write_header : ℕ → Op (Writer S) Error (Unit {0})
  write_header ino = write_header_or_trailer ino false

  abbrev pub close : Op (Writer S) Error (Unit {0})
  close = write_header_or_trailer 0 true
