-- ===== src/Scpio/Written.antt =====
-- What the methods of `Writer` write, on every io.Writer that keeps its contract.
use go_rpm.Base.{
  ℕ, ◌+◌, ◌-◌, ◌%◌, ◌≡◌, refl, sym, ap, ◌∙◌, arith, [], ◌∷◌, ◌++◌, Bool, Bytes, length,
  length-append, length-replicate, take, drop, take-append-drop, take_all, zeros, take-zeros,
  and_not, bit_and_three, if◌then◌else◌, Option-cases, inl, inr, ==_refl,
}
use go_rpm.Io.{WriteReply, IsWriter, NeverFails}
use go_rpm.Io.Emits.{Emits, Emits-bind, Emits-map, Emits-weaken, Succeeds, Succeeds-bind}
use go_rpm.Scpio.{scpio_magic, new_header, trailer}
use go_rpm.Scpio.Writer.{Writer, write, align, write_header_or_trailer}

align_gap : (off : ℕ) → off + 3 - (off + 3) % 4 - off ≡ (4 - off % 4) % 4
align_gap off = omega arith

-- Zeros up to the next multiple of four.
abbrev pub padding : ℕ → Bytes
padding off = zeros ((4 - off % 4) % 4)

-- A record of the archive, written at offset `off`.
abbrev pub padded : ℕ → Bytes → Bytes
padded off b = padding off ++ (b ++ padding (length b))

-- The slice of `zb` that `align` writes.
align_slice : (off : ℕ) → take (and_not (off + 3) 3 - off) (zeros 4) ≡ padding off
align_slice off = rw (bit_and_three, align_gap) (take-zeros _ 4 (omega arith))

abbrev pub record_of : ℕ → Bool → Bytes
record_of ino close = if close then trailer else new_header scpio_magic (ino ∷ [])

pub padding_fills : (off : ℕ) → (off + length (padding off)) % 4 ≡ 0
padding_fills off = rw (length-replicate {A = ℕ}) (omega arith)

length_padded :
    (off : ℕ) (b : Bytes)
    → length (padded off b) ≡ length (padding off) + (length b + length (padding (length b)))
length_padded off b = rw (length-append, length-append)

module _ {S : Type 0} {io_write : Bytes → S → WriteReply S} {content : S → Bytes}
    (law : IsWriter io_write content) where
  abbrev pub out : Writer S → Bytes
  out s = content s.w

  pub write-Emits :
      (b : Bytes) (s : Writer S)
      → Emits out b s (λ n s'. (n ≡ length b) × (s'.off ≡ s.off + length b)) (write io_write b s)
  unfolding write
  write-Emits b s = elim (Option-cases (io_write b s.w).2) [
    | inr (e, failed) ↦
        rw (failed, write)
          (
            take (io_write b s.w).1 b,
            drop (io_write b s.w).1 b,
            sym (take-append-drop (io_write b s.w).1 b),
            law.takes b s.w,
          )
    | inl sent ↦
        let full : (io_write b s.w).1 ≡ length b = law.count_full b s.w sent in
        rw (sent, write)
          (rw (full, ==_refl, write)
            (
              law.takes b s.w ∙ ap (λ (t : Bytes). out s ++ t) (take_all b _ (omega arith)),
              (refl, refl),
            ))
  ]

  pub align-Emits :
      (s : Writer S)
      → Emits out
          (padding s.off)
          s
          (λ _ s'. s'.off ≡ s.off + length (padding s.off))
          (align io_write s)
  unfolding align
  align-Emits s = rw align_slice (
      Emits-map out (padding s.off) s _ _ (λ _. tt) _ (write-Emits (padding s.off) s)
        (λ n s' p. p.1))

  -- `writeHeader` pads to a multiple of four, writes its record, and pads again.
  pub write_header_or_trailer-Emits :
      (ino : ℕ) (close : Bool) (s : Writer S)
      → Emits out
          (padded s.off (record_of ino close))
          s
          (λ _ s'. s'.off ≡ s.off + length (padded s.off (record_of ino close)))
          (write_header_or_trailer io_write ino close s)
  unfolding write_header_or_trailer
  write_header_or_trailer-Emits ino close s =
      Emits-bind out (padding s.off) _ s _ _ _ _ (align-Emits s) λ _ s1 e1.
        Emits-bind out (record_of ino close) _ s1 _ _ _ _ (write-Emits (record_of ino close) s1)
          λ _ s2 e2.
            let same : padding s2.off ≡ padding (length (record_of ino close)) =
              ap (λ (t : ℕ). zeros ((4 - t) % 4)) (omega (arith, padding_fills s.off)) in
            Emits-weaken out _ s2 _ _ _ (rw same at (align-Emits s2))
              λ _ s3 e3. omega (arith, length_padded s.off (record_of ino close), e2.1)

  module _ (never : NeverFails io_write) where
    pub write-Succeeds : (b : Bytes) (s : Writer S) → Succeeds (write io_write b s)
    unfolding write
    write-Succeeds b s =
        let full : (io_write b s.w).1 ≡ length b = law.count_full b s.w (never b s.w) in
        rw (never b s.w, full, ==_refl, write) tt

    align-Succeeds : (s : Writer S) → Succeeds (align io_write s)
    unfolding align
    align-Succeeds s = Succeeds-bind _ _ (write-Succeeds _ s) (λ _ _. tt)

    pub write_header_or_trailer-Succeeds :
        (ino : ℕ) (close : Bool) (s : Writer S)
        → Succeeds (write_header_or_trailer io_write ino close s)
    unfolding write_header_or_trailer
    write_header_or_trailer-Succeeds ino close s =
        Succeeds-bind _ _ (align-Succeeds s)
          λ _ s1. Succeeds-bind _ _ (write-Succeeds _ s1) λ _ s2. align-Succeeds s2
