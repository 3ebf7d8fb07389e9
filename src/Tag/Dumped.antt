-- ===== src/Tag/Dumped.antt =====
-- What `dump` prints of a tag, on an io.Writer that never fails.
use go_rpm.Base.{
  ℕ, Bytes, List, [], ◌∷◌, ◌++◌, ◌==◌, ◌&&◌, ◌≡◌, ◌+◌, inl, inr, if◌then◌else◌, true, take, drop,
  ltb, bytes_eq, suc, zero, refl, sym, ap, ◌∙◌, append-nil, append_assoc, arith, Bool-cases,
  Option-cases, none, some,
}
use go_rpm.Io.{Result, Op, WriteReply, IsWriter, NeverFails, ok, ◌>>◌}
use go_rpm.Io.Emits.{Emits-of_Succeeds}
use go_rpm.Tag.{Error}
use go_rpm.Tag.Written.{send-Emits, send-Succeeds}
use go_rpm.Tag.Format.{Format}
use go_rpm.Tag.Dump.{
  newline, split_lines, short_line, numbered_line, further_line, count_line, print, print_unchecked,
  print_further, nl, print_count, or_break, print_strings, print_array,
}
use go_rpm.Text.{index_byte}
use go_rpm.Tag.Rows.{
  ArrayRow, line, again, count_row, array_rows, strings_of, strings_of-array_rows,
}

module _ (fm : Format) where
  further_text : List Bytes → Bytes
  further_text [] = []
  further_text (v ∷ vs) = further_line fm v ++ further_text vs

  -- The text of a string: one line, or each of its lines.
  unfoldable pub nl_text : ℕ → ℕ → Bytes → Bytes
  unfolding further_text
  nl_text idx n v = elim (index_byte newline v) [
    | none ↦ if n == 0 then short_line fm v else numbered_line fm idx v
    | some i ↦ numbered_line fm idx (take i v) ++ further_text (split_lines (drop (i + 1) v))
  ]

  unfoldable pub row_text : ArrayRow → Bytes
  unfolding nl_text
  row_text (line i v) = nl_text i 1 v
  row_text (again n) = count_line fm n

  unfoldable pub rows_text : List ArrayRow → Bytes
  unfolding row_text
  rows_text [] = []
  rows_text (r ∷ rs) = row_text r ++ rows_text rs

  rows_text-append : (rs us : List ArrayRow) → rows_text (rs ++ us) ≡ rows_text rs ++ rows_text us
  unfolding rows_text
  rows_text-append [] us = refl
  rows_text-append (r ∷ rs) us =
      ap (λ (b : Bytes). row_text r ++ b) (rows_text-append rs us)
      ∙ sym (append_assoc (row_text r) (rows_text rs) (rows_text us))

module _ (fm : Format) {S : Type 0} {io_write : Bytes → S → WriteReply S} {content : S → Bytes}
    (law : IsWriter io_write content) (never : NeverFails io_write) where
  -- A call that succeeds, having written `b`.
  abbrev pub Prints : Bytes → S → Result Error (Unit {0}) × S → Type 0
  Prints b s r = (s' : S) × (r ≡ (ok tt, s')) × (content s' ≡ content s ++ b)

  pub Prints-none : (s : S) → Prints [] s (ok tt, s)
  Prints-none s = (s, refl, sym (append-nil (content s)))

  pub Prints-bind :
      (b c : Bytes) (s : S) (m k : Op S Error (Unit {0}))
      → Prints b s (m s)
      → ((s' : S) → Prints c s' (k s'))
      → Prints (b ++ c) s ((m >> k) s)
  Prints-bind b c s m k (s1, ran, wrote) h =
      let (s2, ran2, wrote2) = h s1 in
      (s2, rw ran ran2, wrote2 ∙ ap (λ (t : Bytes). t ++ c) wrote ∙ append_assoc (content s) b c)

  pub print-Prints : (b : Bytes) (s : S) → Prints b s (print fm io_write b s)
  unfolding print
  print-Prints b s =
      let (n, s', ran, wrote, _) =
        Emits-of_Succeeds content b s _ _ (send-Emits law b s) (send-Succeeds law never b s) in
      (s', rw ran refl, wrote)

  pub print_unchecked-Prints : (b : Bytes) (s : S) → Prints b s (print_unchecked fm io_write b s)
  unfolding print_unchecked
  print_unchecked-Prints b s =
      let (s', ran, wrote) = print-Prints b s in
      (s', ap (λ (r : Result Error (Unit {0}) × S). (ok tt, r.1)) ran, wrote)

  print_further-Prints :
      (vs : List Bytes) (s : S) → Prints (further_text fm vs) s (print_further fm io_write vs s)
  unfolding print_further further_text
  print_further-Prints [] s = Prints-none s
  print_further-Prints (v ∷ vs) s =
      Prints-bind (further_line fm v) (further_text fm vs) s (print fm io_write (further_line fm v))
        (print_further fm io_write vs) (print-Prints (further_line fm v) s)
        (print_further-Prints vs)

  pub nl-Prints :
      (idx n : ℕ) (v : Bytes) (s : S) → Prints (nl_text fm idx n v) s (nl fm io_write idx n v s)
  unfolding nl nl_text
  nl-Prints idx n v s = elim (Option-cases (index_byte newline v)) [
    | inl e ↦ rw (e, nl, nl_text) (print-Prints _ s)
    | inr (i, e) ↦
        rw (e, nl, nl_text)
          (Prints-bind (numbered_line fm idx (take i v)) _ s
            (print fm io_write (numbered_line fm idx (take i v)))
            (print_further fm io_write (split_lines (drop (i + 1) v)))
            (print-Prints (numbered_line fm idx (take i v)) s)
            (print_further-Prints (split_lines (drop (i + 1) v))))
  ]

  print_count-Prints :
      (li : ℕ) (s : S) → Prints (rows_text fm (count_row li)) s (print_count fm io_write li s)
  unfolding print_count rows_text row_text
  print_count-Prints zero s = Prints-none s
  print_count-Prints (suc n) s =
      let some_count : ltb 0 (suc n) ≡ true = ground arith in
      rw (some_count, append-nil (count_line fm (suc n)))
        (print_unchecked-Prints (count_line fm (suc n)) s)

  or_break-Prints :
      (b c : Bytes) (li : ℕ) (s : S) (r : Result Error (Unit {0}) × S) (k : Op S Error (Unit {0}))
      → Prints b s r
      → ((s' : S) → Prints c s' (k s'))
      → Prints (b ++ c) s (or_break fm io_write li k r)
  or_break-Prints b c li s r k (s1, ran, wrote) h =
      let (s2, ran2, wrote2) = h s1 in
      (s2, rw ran ran2, wrote2 ∙ ap (λ (t : Bytes). t ++ c) wrote ∙ append_assoc (content s) b c)

  -- A string that is not the last one again, and then more.
  print_line-Prints :
      (li i : ℕ) (v : Bytes) (rs : List ArrayRow) (s : S) (k : Op S Error (Unit {0}))
      → ((s' : S) → Prints (rows_text fm rs) s' (k s'))
      → Prints (rows_text fm (count_row li ++ line i v ∷ rs)) s (
          (print_count fm io_write li >> λ s1. or_break fm io_write li k (nl fm io_write i 1 v s1))
            s)
  unfolding rows_text row_text
  print_line-Prints li i v rs s k h = rw (rows_text-append fm (count_row li) (line i v ∷ rs)) (
      Prints-bind (rows_text fm (count_row li)) (nl_text fm i 1 v ++ rows_text fm rs) s
        (print_count fm io_write li) (λ s1. or_break fm io_write li k (nl fm io_write i 1 v s1))
        (print_count-Prints li s)
        λ s1.
          or_break-Prints (nl_text fm i 1 v) (rows_text fm rs) li s1 (nl fm io_write i 1 v s1) k
            (nl-Prints i 1 v s1) h)

  pub print_strings-Prints :
      (vs : List Bytes) (i : ℕ) (lv : Bytes) (li : ℕ) (s : S)
      → Prints (rows_text fm (array_rows vs i lv li)) s (print_strings fm io_write vs i lv li s)
  unfolding print_strings array_rows
  print_strings-Prints [] i lv li s = print_count-Prints li s
  print_strings-Prints (v ∷ vs) i lv li s = elim (Bool-cases (bytes_eq lv v && ltb 0 i)) [
    | inl same ↦
        rw (same, array_rows, print_strings) (print_strings-Prints vs (i + 1) lv (li + 1) s)
    | inr other ↦
        rw (other, array_rows, print_strings)
          (print_line-Prints li i v (array_rows vs (i + 1) v 0) s
            (print_strings fm io_write vs (i + 1) v 0) (print_strings-Prints vs (i + 1) v 0))
  ]

  -- On an io.Writer that never fails, an array of two strings or more is printed as an empty line and
  -- rows, each of which is a string with its place or how often the string before it was repeated. The
  -- rows tell the strings, all of them and in their order, every string that has a row of its own is
  -- numbered with its place, and no such row repeats the string before it.
  pub print_array-strings_of :
      (v u : Bytes) (vs : List Bytes) (s : S)
      → (rs : List ArrayRow) × (s' : S) × (print_array fm io_write (v ∷ u ∷ vs) s ≡ (ok tt, s'))
        × (content s' ≡ content s ++ (newline ∷ [] ++ rows_text fm rs))
        × (strings_of rs 0 [] ≡ some (v ∷ u ∷ vs))
  unfolding print_array
  print_array-strings_of v u vs s =
      let rs : List ArrayRow = array_rows (v ∷ u ∷ vs) 0 [] 0 in
      let (s', ran, wrote) =
        Prints-bind (newline ∷ []) (rows_text fm rs) s (print_unchecked fm io_write (newline ∷ []))
          (print_strings fm io_write (v ∷ u ∷ vs) 0 [] 0) (print_unchecked-Prints (newline ∷ []) s)
          (print_strings-Prints (v ∷ u ∷ vs) 0 [] 0) in
      (rs, s', ran, wrote, strings_of-array_rows (v ∷ u ∷ vs) 0 [] 0)
