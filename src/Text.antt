-- ===== src/Text.antt =====
-- What the sources use of Go's package strings. A string is the list of its bytes; white space is
-- that of unicode.IsSpace, in UTF-8.
pub mod Words
pub mod Trim
mod Tests
use go_rpm.Base.{
  zero, suc, length, Option, Bytes, List, ℕ, ◌∷◌, some, if◌then◌else◌, Bool, ◌==◌, [], ◌-◌, ◌||◌,
  true, ltb, ◌++◌, none, false, leb, ◌&&◌,
}

-- `strings.HasPrefix`.
unfoldable pub starts_with : Bytes → Bytes → Bool
starts_with [] s = true
starts_with (p ∷ ps) [] = false
starts_with (p ∷ ps) (b ∷ s) = let rest = starts_with ps s in if p == b then rest else false

abbrev pub one_more : Option ℕ → Option ℕ
one_more none = none
one_more (some i) = some (suc i)

-- `strings.Index`; none is -1.
unfoldable pub string_index : Bytes → Bytes → Option ℕ
string_index sub [] = if starts_with sub [] then some 0 else none
string_index sub (b ∷ s) =
    let more = string_index sub s in if starts_with sub (b ∷ s) then some 0 else one_more more

-- `strings.IndexByte` and `strings.IndexAny` for ASCII sets: the first byte that passes the test.
unfoldable pub index_where : (ℕ → Bool) → Bytes → Option ℕ
index_where test [] = none
index_where test (b ∷ s) = let more = index_where test s in if test b then some 0 else one_more more

abbrev pub index_byte : ℕ → Bytes → Option ℕ
index_byte c = index_where (λ b. b == c)

-- The encodings of the white space that unicode.IsSpace knows.
abbrev pub wide_spaces : List Bytes
wide_spaces =
    (0xc2 ∷ 0x85 ∷ [])
    ∷ (0xc2 ∷ 0xa0 ∷ [])
    ∷ (0xe1 ∷ 0x9a ∷ 0x80 ∷ [])
    ∷ (0xe2 ∷ 0x80 ∷ 0x80 ∷ [])
    ∷ (0xe2 ∷ 0x80 ∷ 0x81 ∷ [])
    ∷ (0xe2 ∷ 0x80 ∷ 0x82 ∷ [])
    ∷ (0xe2 ∷ 0x80 ∷ 0x83 ∷ [])
    ∷ (0xe2 ∷ 0x80 ∷ 0x84 ∷ [])
    ∷ (0xe2 ∷ 0x80 ∷ 0x85 ∷ [])
    ∷ (0xe2 ∷ 0x80 ∷ 0x86 ∷ [])
    ∷ (0xe2 ∷ 0x80 ∷ 0x87 ∷ [])
    ∷ (0xe2 ∷ 0x80 ∷ 0x88 ∷ [])
    ∷ (0xe2 ∷ 0x80 ∷ 0x89 ∷ [])
    ∷ (0xe2 ∷ 0x80 ∷ 0x8a ∷ [])
    ∷ (0xe2 ∷ 0x80 ∷ 0xa8 ∷ [])
    ∷ (0xe2 ∷ 0x80 ∷ 0xa9 ∷ [])
    ∷ (0xe2 ∷ 0x80 ∷ 0xaf ∷ [])
    ∷ (0xe2 ∷ 0x81 ∷ 0x9f ∷ [])
    ∷ (0xe3 ∷ 0x80 ∷ 0x80 ∷ [])
    ∷ []

-- The length of the first of `ps` that the text starts with, or 0.
unfoldable pub prefix_length : List Bytes → Bytes → ℕ
prefix_length [] s = 0
prefix_length (p ∷ ps) s =
    let more = prefix_length ps s in if starts_with p s then length p else more

abbrev pub is_ascii_space : ℕ → Bool
is_ascii_space b = b == 0x20 || (leb 0x9 b && leb b 0xd)

-- The length of the white space character that the text starts with, or 0. No such encoding begins
-- within that of another character, so that a text can be gone through byte by byte.
unfoldable pub space_length : Bytes → ℕ
space_length [] = 0
space_length (b ∷ s) =
    if is_ascii_space b then 1 else if ltb b 0x80 then 0 else prefix_length wide_spaces (b ∷ s)

-- Leading white space goes; the first `skip` bytes belong to it.
unfoldable pub trim_left : ℕ → Bytes → Bytes
trim_left skip [] = []
trim_left (suc skip) (b ∷ s) = trim_left skip s
trim_left zero (b ∷ s) =
    let n = space_length (b ∷ s) in let rest = trim_left (n - 1) s in if n == 0 then b ∷ s else rest

abbrev pub is_empty : Bytes → Bool
is_empty [] = true
is_empty (b ∷ s) = false

unfoldable pub trim_right : Bytes → Bytes
trim_right [] = []
trim_right (b ∷ s) =
    let rest = trim_right s in if is_empty (trim_left 0 (b ∷ s)) then [] else b ∷ rest

-- `strings.TrimSpace`.
unfoldable pub trim_space : Bytes → Bytes
trim_space s = trim_right (trim_left 0 s)

-- A word, where there is one.
abbrev pub flush : Bytes → List Bytes
flush [] = []
flush (b ∷ word) = (b ∷ word) ∷ []

-- `strings.Fields`, with the word read so far; the first `skip` bytes are white space.
unfoldable pub fields_from : ℕ → Bytes → Bytes → List Bytes
fields_from skip word [] = flush word
fields_from (suc skip) word (b ∷ s) = fields_from skip word s
fields_from zero word (b ∷ s) =
    let n = space_length (b ∷ s) in
    let more = fields_from 0 (word ++ b ∷ []) s in
    let next = fields_from (n - 1) [] s in if n == 0 then more else flush word ++ next

unfoldable pub fields : Bytes → List Bytes
fields s = fields_from 0 [] s

-- `strings.Join`.
unfoldable pub join : Bytes → List Bytes → Bytes
join sep [] = []
join sep (v ∷ []) = v
join sep (v ∷ w ∷ vs) = v ++ (sep ++ join sep (w ∷ vs))
