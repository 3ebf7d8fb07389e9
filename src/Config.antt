-- ===== src/Config.antt =====
-- cmd/tar2rpm/config.go: the reader of configuration files. path.Join is a parameter.
pub mod Load
pub mod Values
pub mod Scan
pub mod Ends
mod Tests
use go_rpm.Io.{◌>>◌, ◌>>=◌, Result, Op, ok, err, pure, fail}
use go_rpm.Base.{
  zero, suc, length, List, Bytes, ℕ, Option, take, Bool, if◌then◌else◌, codes, ◌∷◌, none, [], some,
  ◌==◌, bytes_eq, drop, ◌++◌, ◌||◌, ◌+◌,
}
use go_rpm.Text.{index_byte, trim_space, string_index, join, is_empty, index_where, fields}

-- The errors of config.go, and an error that the scanner reports. `out_of_fuel` is none of them.
pub data ConfigError : Type 0 where
  missing_eof invalid_entry out_of_fuel : ConfigError
  unknown_key : Bytes → ConfigError
  scan_failed : ℕ → ConfigError

-- A bufio.Scanner over lines: those still to come, and what `Err` reports with so many to come.
pub record Scanner : Type 0 where
  pub lines : List Bytes
  pub fault : ℕ → Option ℕ

abbrev pub sc_err : Scanner → Result ConfigError (Unit {0})
sc_err sc = elim (sc.fault (length sc.lines)) [ none ↦ ok tt | some k ↦ err (scan_failed k) ]

pub record Script : Type 0 where
  pub text : Bytes
  pub prog : Bytes

-- A loader, with the value that it points to: `*str`, `*slice`, `*script`.
pub data Loader : Type 0 where
  str : Bytes → Loader
  slice : List Bytes → Loader
  script : Script → Loader

-- The lines before the first that is `e`, and those behind it.
unfoldable pub read_to : Bytes → List Bytes → List Bytes × List Bytes
read_to e [] = ([], [])
read_to e (l ∷ ls) =
    let (r, rest) = read_to e ls in if bytes_eq l e then ([], ls) else (l ∷ r, rest)

-- The value afterwards and the scanner, with the error.
abbrev pub Loaded : Type 0 → Type 0
Loaded A = Result ConfigError (Unit {0}) × (A × Scanner)

-- "\n".
abbrev pub newline : Bytes
newline = 0xa ∷ []

unfoldable pub load_heredoc : Bytes → Bytes → Scanner → Loaded Bytes
load_heredoc [] old sc = (err missing_eof, (old, sc))
load_heredoc (b ∷ e) old sc =
    let (r, rest) = read_to (b ∷ e) sc.lines in
    let sc' : Scanner = record sc { lines = rest } in (sc_err sc', (join newline r, sc'))

-- "<<".
abbrev pub heredoc_mark : Bytes
heredoc_mark = 0x3c ∷ 0x3c ∷ []

-- `str.load`.
unfoldable pub load_str : Bytes → Bytes → Scanner → Loaded Bytes
unfolding load_heredoc
load_str value old sc = elim (string_index heredoc_mark value) [
  | none ↦ (ok tt, (trim_space value, sc))
  | some i ↦ load_heredoc (drop (i + 2) value) old sc
]

-- The words of a line in a block, less its comment.
abbrev pub or_length : Bytes → Option ℕ → ℕ
or_length l none = length l
or_length l (some i) = i

unfoldable pub line_words : Bytes → List Bytes
line_words line =
    let l = trim_space line in
    if is_empty l then [] else fields (take (or_length l (index_byte 0x23 l)) l)

-- The words of the lines before the first that is "}", and the lines behind it.
unfoldable pub read_block : List Bytes → List Bytes × List Bytes
read_block [] = ([], [])
read_block (l ∷ ls) =
    let (r, rest) = read_block ls in
    if bytes_eq l (0x7d ∷ []) then ([], ls) else (line_words l ++ r, rest)

-- `slice.load`.
unfoldable pub load_slice : Bytes → List Bytes → Scanner → Loaded (List Bytes)
load_slice value old sc = elim (index_byte 0x7b value) [
  | none ↦ (ok tt, (fields value, sc))
  | some i ↦
      let (r, rest) = read_block sc.lines in
      let sc' : Scanner = record sc { lines = rest } in (sc_err sc', (r, sc'))
]

abbrev pub into : {A B : Type 0} → (A → B) → Loaded A → Loaded B
into f (r, (a, sc)) = (r, (f a, sc))

-- The method `load`.
unfoldable pub load : Bytes → Loader → Scanner → Loaded Loader
unfolding load_str load_slice
load value (str s) sc = into str (load_str value s sc)
load value (slice vs) sc = into slice (load_slice value vs sc)
load value (script s) sc = into (λ x. script (record s { text = x })) (load_str value s.text sc)

-- A map[string]loader, as the loaders under their keys.
abbrev pub Loaders : Type 0
Loaders = List (Bytes × Loader)

unfoldable pub find_loader : Bytes → Loaders → Option Loader
find_loader k [] = none
find_loader k ((j, ld) ∷ m) = let more = find_loader k m in if bytes_eq j k then some ld else more

-- The map after the loader under the key has changed its value.
unfoldable pub set_loader : Bytes → Loader → Loaders → Loaders
set_loader k ld [] = []
set_loader k ld ((j, old) ∷ m) =
    let rest = set_loader k ld m in if bytes_eq j k then (j, ld) ∷ m else (j, old) ∷ rest

-- `kp`: the key, and what stands in parentheses behind it.
unfoldable pub kp : Bytes → Bytes × Bytes
kp key = elim (index_byte 0x28 key) [
  | none ↦ (key, [])
  | some i ↦ elim (index_byte 0x29 (drop i key)) [
    | none ↦ (take i key, [])
    | some j ↦ (take i key, drop (i + 1) (take (i + j) key))
  ]
]

-- The loaders and the scanner.
pub record Loading : Type 0 where
  pub m : Loaders
  pub sc : Scanner

-- The text of a line, less its comment.
unfoldable pub uncommented : Bytes → Bytes
uncommented l = take (or_length l (index_byte 0x23 l)) l

abbrev pub is_blank : ℕ → Bool
is_blank b = b == 0x20 || b == 0x9

unfoldable pub load_found : Bytes → Bytes → Option Loader → Op Loading ConfigError (Unit {0})
load_found k value none s = (err (unknown_key k), s)
load_found k value (some ld) s =
    let (r, (ld', sc')) = load value ld s.sc in (r, record { m = set_loader k ld' s.m; sc = sc' })

-- The switch on the program of a script.
module _ (path_join : Bytes → Bytes → Bytes) where
  unfoldable pub program : Bytes → Bytes
  program [] = codes "/bin/sh"
  program (c ∷ p) =
      if bytes_eq (c ∷ p) (codes "lua")
      then codes "<lua>"
      else if c == 0x2f
      then c ∷ p
      else path_join (codes "/bin") (c ∷ p)

  unfoldable pub prog_loader : Bytes → Bytes → Option Loader → Loaders → Loaders
  prog_loader k p (some (script s)) m = set_loader k (script (record s { prog = program p })) m
  prog_loader k p _ m = m

  unfoldable pub script_prog : Bytes → Loaders → Bytes × Loaders
  unfolding prog_loader
  script_prog key m = let (k, p) = kp key in (k, prog_loader k p (find_loader k m) m)

  -- A line that is not empty, with the place of its first blank.
  unfoldable pub scan_entry : Bytes → Option ℕ → Op Loading ConfigError (Unit {0})
  unfolding load_found
  scan_entry l none s = (err invalid_entry, s)
  scan_entry l (some i) s =
      let (k, m) = script_prog (take i l) s.m in
      load_found k (drop i l) (find_loader k m) (record s { m = m })

  -- `scan1`, of the line that was scanned last.
  unfoldable pub scan1 : Bytes → Op Loading ConfigError (Unit {0})
  unfolding scan_entry
  scan1 line =
      let l = uncommented line in
      if is_empty l then pure tt else scan_entry l (index_where is_blank l)

  -- The loop of `loadconfig`. Each round scans a line at least; `fuel` bounds the rounds.
  unfoldable pub load_lines : ℕ → Op Loading ConfigError (Unit {0})
  load_lines zero s = (err out_of_fuel, s)
  load_lines (suc fuel) s = elim s.sc.lines [
    | [] ↦ (sc_err s.sc, s)
    | l ∷ ls ↦ (do scan1 l; load_lines fuel) (record s { sc = record s.sc { lines = ls } })
  ]

  -- `loadconfig` with the loaders of its target.
  unfoldable pub load_config : Loaders → Scanner → Result ConfigError (Unit {0}) × Loading
  unfolding load_lines
  load_config m sc = load_lines (suc (length sc.lines)) (record { m = m; sc = sc })
