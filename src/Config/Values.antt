-- ===== src/Config/Values.antt =====
-- The loaders of a map, and what they read from a value that was written.
use go_rpm.Base.{
  All-map, length, List, Bytes, All, ℕ, ◌==◌, ◌∷◌, ◌≢◌, ◌≡◌, [], none, ◌++◌, false, some,
  bytes_eq_refl, Bool-cases, map, bytes_eq, bytes_eq_ne, All-append, inl, append_assoc, inr, refl,
  take_all, arith, drop, ◌∙◌, ◌+◌,
}
use go_rpm.Io.{ok}
use go_rpm.Config.{
  set_loader, read_block, read_to, load_str, find_loader, line_words, load_slice, index_where,
  string_index, Scanner, Loader, Loaders, load_heredoc, newline, heredoc_mark, trim_space, is_empty,
  index_byte,
}
use go_rpm.Text.{
  join, index_where, string_index, starts_with, trim_space, is_empty, index_byte, trim_left,
  trim_right,
}
use go_rpm.Config.Load.{
  IsWritten, IsWithout, words, one_line, block, more_lines, space, heredoc, first_line, all_words,
}
use go_rpm.Text.Words.{IsWord, trim_space_space, index_where-none, fields_space, fields-join}
use go_rpm.Text.Trim.{trim_space-join}

pub find_loader-set_loader :
    (k : Bytes) (old ld : Loader) (m : Loaders)
    → find_loader k m ≡ some old
    → find_loader k (set_loader k ld m) ≡ some ld
unfolding find_loader set_loader
find_loader-set_loader k old ld [] h = cc
find_loader-set_loader k old ld ((j, x) ∷ m) h = elim (Bool-cases (bytes_eq j k)) [
  | inl same ↦ rw (same, same)
  | inr other ↦ rw (other, other) (find_loader-set_loader k old ld m (rw other at h))
]

pub set_loader-set_loader :
    (k : Bytes) (a b : Loader) (m : Loaders) → set_loader k a (set_loader k b m) ≡ set_loader k a m
unfolding set_loader
set_loader-set_loader k a b [] = refl
set_loader-set_loader k a b ((j, x) ∷ m) = elim (Bool-cases (bytes_eq j k)) [
  | inl same ↦ rw (same, same)
  | inr other ↦ rw (other, other, set_loader-set_loader k a b m)
]

-- A scanner over a text that is read with no error.
abbrev pub scanner : List Bytes → Scanner
scanner ls = record { lines = ls; fault = λ n. none }

read_to-append :
    (e : Bytes) (ls rest : List Bytes)
    → All (λ l. l ≢ e) ls
    → read_to e (ls ++ e ∷ rest) ≡ (ls, rest)
unfolding read_to
read_to-append e [] rest h = rw (bytes_eq_refl e)
read_to-append e (l ∷ ls) rest (p, h) = rw (bytes_eq_ne l e p, read_to-append e ls rest h)

-- Behind the space that ends the key.
no_mark :
    (v : Bytes) → string_index heredoc_mark v ≡ none → string_index heredoc_mark (0x20 ∷ v) ≡ none
unfolding string_index starts_with
no_mark v h = rw h

mark : (e : Bytes) → string_index heredoc_mark (0x20 ∷ (heredoc_mark ++ e)) ≡ some 1
unfolding string_index starts_with
mark e = refl

no_brace : (v : Bytes) → index_byte 0x7b v ≡ none → index_byte 0x7b (0x20 ∷ v) ≡ none
unfolding index_where
no_brace v h = rw h

pub load_str-one_line :
    (v old : Bytes) (rest : List Bytes)
    → IsWritten (one_line v)
    → load_str (0x20 ∷ v) old (scanner rest) ≡ (ok tt, (v, scanner rest))
unfolding load_str
load_str-one_line v old rest (no_hash, trimmed, unmarked) =
    rw (no_mark v unmarked, load_str, trim_space_space v, trimmed)

load_str_found :
    (value old : Bytes) (i : ℕ) (sc : Scanner)
    → string_index heredoc_mark value ≡ some i
    → load_str value old sc ≡ load_heredoc (drop (i + 2) value) old sc
unfolding load_str
load_str_found value old i sc e = rw (e, load_str)

pub load_str-heredoc :
    (e old : Bytes) (ls rest : List Bytes)
    → IsWritten (heredoc e ls)
    → load_str (0x20 ∷ first_line (heredoc e ls)) old (scanner (more_lines (heredoc e ls) ++ rest))
      ≡ (ok tt, (join newline ls, scanner rest))
unfolding load_str load_heredoc
load_str-heredoc [] old ls rest (no_hash, some_mark, h) = absurd (some_mark refl)
load_str-heredoc (b ∷ e) old ls rest (no_hash, some_mark, h) =
    load_str_found (0x20 ∷ (heredoc_mark ++ b ∷ e)) old 1
      (scanner (more_lines (heredoc (b ∷ e) ls) ++ rest)) (mark (b ∷ e))
    ∙ rw (append_assoc ls ((b ∷ e) ∷ []) rest, read_to-append (b ∷ e) ls rest h)

-- The bytes of words with spaces between them.
pub IsWithout-join :
    (c : ℕ) (ws : List Bytes)
    → (0x20 == c) ≡ false
    → All (λ w. All (λ b. (b == c) ≡ false) w) ws
    → All (λ b. (b == c) ≡ false) (join space ws)
unfolding join
IsWithout-join c [] ne h = tt
IsWithout-join c (v ∷ []) ne (p, h) = p
IsWithout-join c (v ∷ w ∷ ws) ne (p, h) =
    All-append (λ b. (b == c) ≡ false) v (0x20 ∷ join space (w ∷ ws)) p
      (ne, IsWithout-join c (w ∷ ws) ne h)

pub load_slice-words :
    (ws old rest : List Bytes)
    → IsWritten (words ws)
    → load_slice (0x20 ∷ join space ws) old (scanner rest) ≡ (ok tt, (ws, scanner rest))
unfolding load_slice
load_slice-words ws old rest h =
    let clear : All (λ b. (b == 0x7b) ≡ false) (join space ws) =
      IsWithout-join 0x7b ws refl (All-map (λ w p. All-map (λ b q. q.1.0) w p.1) ws h) in
    rw (
      no_brace (join space ws) (index_where-none (λ b. b == 0x7b) (join space ws) clear),
      load_slice,
      fields_space (join space ws),
      fields-join ws (All-map (λ w p. p.0) ws h),
    )

is_empty-join : (w : Bytes) (ws : List Bytes) → IsWord w → is_empty (join space (w ∷ ws)) ≡ false
unfolding join
is_empty-join [] ws h = absurd (h.some_byte refl)
is_empty-join (b ∷ w) [] h = refl
is_empty-join (b ∷ w) (v ∷ ws) h = refl

line_words-nil : line_words (join space []) ≡ []
unfolding line_words join trim_space trim_left trim_right
line_words-nil = refl

line_words-join :
    (ws : List Bytes)
    → All (λ w. IsWord w × IsWithout (0x23 ∷ []) w) ws
    → line_words (join space ws) ≡ ws
unfolding line_words
line_words-join [] h = line_words-nil
line_words-join (w ∷ ws) h =
    let is_words : All IsWord (w ∷ ws) = All-map (λ v p. p.0) (w ∷ ws) h in
    let clear : All (λ b. (b == 0x23) ≡ false) (join space (w ∷ ws)) =
      IsWithout-join 0x23 (w ∷ ws) refl (All-map (λ v p. All-map (λ b q. q.0) v p.1) (w ∷ ws) h) in
    let some : is_empty (join space (w ∷ ws)) ≡ false = is_empty-join w ws is_words.0 in
    rw (
      trim_space-join (w ∷ ws) is_words,
      some,
      index_where-none (λ b. b == 0x23) (join space (w ∷ ws)) clear,
      take_all (join space (w ∷ ws)) (length (join space (w ∷ ws))) (omega arith),
      fields-join (w ∷ ws) is_words,
    )

read_block-append :
    (wss : List (List Bytes)) (rest : List Bytes)
    → IsWritten (block wss)
    → read_block (map (join space) wss ++ (0x7d ∷ []) ∷ rest) ≡ (all_words wss, rest)
unfolding read_block
read_block-append [] rest h = rw (bytes_eq_refl (0x7d ∷ []))
read_block-append (ws ∷ wss) rest ((p, ne), h) =
    rw (
      bytes_eq_ne (join space ws) (0x7d ∷ []) ne,
      read_block-append wss rest h,
      line_words-join ws p,
    )

pub load_slice-block :
    (wss : List (List Bytes)) (old rest : List Bytes)
    → IsWritten (block wss)
    → load_slice (0x20 ∷ 0x7b ∷ []) old (scanner (more_lines (block wss) ++ rest))
      ≡ (ok tt, (all_words wss, scanner rest))
unfolding load_slice index_where
load_slice-block wss old rest h =
    rw (append_assoc (map (join space) wss) ((0x7d ∷ []) ∷ []) rest, read_block-append wss rest h)
