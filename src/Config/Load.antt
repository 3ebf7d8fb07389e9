-- ===== src/Config/Load.antt =====
-- Configuration files that are written entry by entry, and what they set.
use go_rpm.Base.{Bytes, List, Option, ◌∷◌, ◌++◌, ℕ, [], some, map, All, none, ◌≡◌, ◌==◌, false, ◌≢◌}
use go_rpm.Config.{
  Loaders, Loader, heredoc_mark, str, find_loader, trim_space, join, set_loader, newline, slice,
  string_index, script, program,
}
use go_rpm.Text.{join, trim_space, string_index}
use go_rpm.Text.Words.{IsWord}

-- What can stand behind a key: a text or words on the same line, a text up to a line that is the
-- mark, words on lines up to "}".
pub data Setting : Type 0 where
  one_line : Bytes → Setting
  heredoc : Bytes → List Bytes → Setting
  words : List Bytes → Setting
  block : List (List Bytes) → Setting

pub record Entry : Type 0 where
  pub key : Bytes
  pub prog : Option Bytes
  pub setting : Setting

-- " ".
abbrev pub space : Bytes
space = 0x20 ∷ []

abbrev pub key_text : Bytes → Option Bytes → Bytes
key_text k none = k
key_text k (some p) = k ++ 0x28 ∷ (p ++ 0x29 ∷ [])

abbrev pub first_line : Setting → Bytes
first_line (one_line v) = v
first_line (heredoc e ls) = heredoc_mark ++ e
first_line (words ws) = join space ws
first_line (block wss) = 0x7b ∷ []

abbrev pub more_lines : Setting → List Bytes
more_lines (one_line v) = []
more_lines (heredoc e ls) = ls ++ e ∷ []
more_lines (words ws) = []
more_lines (block wss) = map (join space) wss ++ (0x7d ∷ []) ∷ []

abbrev pub written : List Entry → List Bytes
written [] = []
written (e ∷ es) =
    (key_text e.key e.prog ++ 0x20 ∷ first_line e.setting) ∷ (more_lines e.setting ++ written es)

-- What an entry sets, where the value under its key can hold it.
abbrev pub text_of : Setting → Option Bytes
text_of (one_line v) = some v
text_of (heredoc e ls) = some (join newline ls)
text_of _ = none

abbrev pub all_words : List (List Bytes) → List Bytes
all_words [] = []
all_words (ws ∷ wss) = ws ++ all_words wss

abbrev pub words_of : Setting → Option (List Bytes)
words_of (words ws) = some ws
words_of (block wss) = some (all_words wss)
words_of _ = none

abbrev pub map_option : {A B : Type 0} → (A → B) → Option A → Option B
map_option f none = none
map_option f (some a) = some (f a)

abbrev pub prog_of : Option Bytes → Bytes
prog_of none = []
prog_of (some p) = p

module _ (path_join : Bytes → Bytes → Bytes) where
  abbrev pub assign : Option Bytes → Setting → Loader → Option Loader
  assign p st (str old) = map_option str (text_of st)
  assign p st (slice old) = map_option slice (words_of st)
  assign p st (script s) =
      map_option (λ t. script (record { text = t; prog = program path_join (prog_of p) }))
        (text_of st)

  abbrev pub put : Bytes → Loaders → Option Loader → Option Loaders
  put k m ld = map_option (λ x. set_loader k x m) ld

  abbrev pub assign_found : Option Bytes → Setting → Option Loader → Option Loader
  assign_found p st none = none
  assign_found p st (some ld) = assign p st ld

  abbrev pub apply : Entry → Loaders → Option Loaders
  apply e m = put e.key m (assign_found e.prog e.setting (find_loader e.key m))

  -- The values after all entries, in their order.
  unfoldable pub apply_all : List Entry → Loaders → Option Loaders
  apply_all [] m = some m
  apply_all (e ∷ es) m = elim (apply e m) [ none ↦ none | some m' ↦ apply_all es m' ]

-- Texts with no comment, blank or bracket where these would be taken as such.
abbrev pub IsWithout : List ℕ → Bytes → Type 0
IsWithout cs v = All (λ b. All (λ c. (b == c) ≡ false) cs) v

abbrev pub IsWritten : Setting → Type 0
IsWritten (one_line v) =
    IsWithout (0x23 ∷ []) v × (trim_space v ≡ v) × (string_index heredoc_mark v ≡ none)
IsWritten (heredoc e ls) = IsWithout (0x23 ∷ []) e × (e ≢ []) × All (λ l. l ≢ e) ls
IsWritten (words ws) = All (λ w. IsWord w × IsWithout (0x23 ∷ 0x7b ∷ []) w) ws
IsWritten (block wss) =
    All (λ ws. All (λ w. IsWord w × IsWithout (0x23 ∷ []) w) ws × (join space ws ≢ 0x7d ∷ [])) wss

abbrev pub IsProg : Option Bytes → Type 0
IsProg none = Unit {0}
IsProg (some p) = IsWithout (0x23 ∷ 0x20 ∷ 0x9 ∷ 0x29 ∷ []) p

pub record IsEntry (e : Entry) : Type 0 where
  pub key : IsWithout (0x23 ∷ 0x20 ∷ 0x9 ∷ 0x28 ∷ []) e.key
  pub prog : IsProg e.prog
  pub setting : IsWritten e.setting
