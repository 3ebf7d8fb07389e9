-- ===== src/Tag/ReadBack.antt =====
-- Data that were written, read back by `make` and `ReadFrom`.
use go_rpm.Io.{Result, ok, Stream, read_full}
use go_rpm.Io.Streams.{stream, read_full-append}
use go_rpm.Io.Binary.{uint_be-put_be_2, uint_be-put_be_4, uint_be-put_be_8}
use go_rpm.Tag.{
  TagHeader, TagData, tag_bytes, tag_string, tag_uint16, tag_uint32, tag_uint64, unset, Error,
  char_type, int8_type, int16_type, int32_type, int64_type, string_type, bin_type,
  string_array_type, i18n_string_type, Bytes, List, ℕ,
}
use go_rpm.Tag.Data.{c_string, strings_len, put_all}
use go_rpm.Tag.Written.{c_strings, data_bytes, length-c_strings, length-put_all}
use go_rpm.Tag.Read.{
  make, get_all, cut, cut_strings, read_from, read_all, keep_string, strings_read,
}
use go_rpm.Base.{
  zero, suc, ◌≡◌, [], List, ℕ, Bytes, ◌≤◌, length, ◌⊎◌, All, ◌++◌, ◌+◌, ◌≢◌, ◌<◌, arith, replicate,
  some, ◌∷◌, zeros, ◌^◌, refl, append_assoc, none, drop, ◌*◌, ◌-◌, ap, sym, ◌∙◌, ltb, false,
  length-append, length-replicate, take-append_length,
}

-- A Go string that can be NUL-terminated.
abbrev pub HasNoNul : Bytes → Type 0
HasNoNul v = All (λ b. b ≢ 0) v

-- The type and the count of a tag header tell what the data are.
abbrev pub IsTyped : TagHeader → TagData → Type 0
IsTyped h (tag_bytes b n) =
    ((h.type ≡ bin_type) ⊎ ((h.type ≡ char_type) ⊎ (h.type ≡ int8_type))) × (h.count ≡ length b)
IsTyped h (tag_string vs n) =
    ((h.type ≡ string_type) ⊎ ((h.type ≡ i18n_string_type) ⊎ (h.type ≡ string_array_type)))
    × (h.count ≡ length vs)
    × All HasNoNul vs
IsTyped h (tag_uint16 vs) = (h.type ≡ int16_type) × (h.count ≡ length vs) × All (λ v. v < 2 ^ 16) vs
IsTyped h (tag_uint32 vs) = (h.type ≡ int32_type) × (h.count ≡ length vs) × All (λ v. v < 2 ^ 32) vs
IsTyped h (tag_uint64 vs) = (h.type ≡ int64_type) × (h.count ≡ length vs) × All (λ v. v < 2 ^ 64) vs
IsTyped h unset = ⊥

-- What `make` prepares, and what the data are when they are read: the same, with the count or the
-- cached length set.
abbrev pub blank : TagData → TagData
blank (tag_bytes b n) = tag_bytes [] (length b)
blank (tag_string vs n) = tag_string (replicate (length vs) []) 0
blank (tag_uint16 vs) = tag_uint16 (zeros (length vs))
blank (tag_uint32 vs) = tag_uint32 (zeros (length vs))
blank (tag_uint64 vs) = tag_uint64 (zeros (length vs))
blank unset = unset

abbrev pub read_back : TagData → TagData
read_back (tag_bytes b n) = tag_bytes b (length b)
read_back (tag_string vs n) = tag_string vs (strings_len vs)
read_back d = d

-- What a bufio.Reader promises: it has read what was needed, and no more than there was.
pub record IsAhead (ahead : ℕ → ℕ → ℕ) : Type 0 where
  pub enough : (limit need : ℕ) → need ≤ limit → need ≤ ahead limit need
  pub within : (limit need : ℕ) → ahead limit need ≤ limit

pub length-le-strings_len : (vs : List Bytes) → length vs ≤ strings_len vs
length-le-strings_len [] = omega arith
length-le-strings_len (v ∷ vs) = omega (arith, length-le-strings_len vs)

-- `make` accepts every room below 2 ^ 32 that holds the data, for a tag header that tells their
-- type and count, and prepares data of that type and count to be read.
pub make-blank :
    (h : TagHeader) (a b : ℕ) (d : TagData)
    → IsTyped h d
    → a + length (data_bytes d) ≤ b
    → b < 2 ^ 32
    → make h a b ≡ ok (blank d)
unfolding make
make-blank h a b (tag_bytes x n) t fits lt = ground arith
make-blank h a b (tag_string vs n) t fits lt =
    ground (arith, length-c_strings vs, length-le-strings_len vs)
make-blank h a b (tag_uint16 vs) t fits lt = ground (arith, length-put_all 2 vs)
make-blank h a b (tag_uint32 vs) t fits lt = ground (arith, length-put_all 4 vs)
make-blank h a b (tag_uint64 vs) t fits lt = ground (arith, length-put_all 8 vs)
make-blank h a b unset t fits lt = absurd t

cut-c_string : (v rest : Bytes) → HasNoNul v → cut (c_string v ++ rest) ≡ some (v, rest)
unfolding cut
cut-c_string [] rest h = refl
cut-c_string (b ∷ v) rest (p, h) = ground (arith, cut-c_string v rest h)

cut_strings_step :
    (slots : List Bytes) (slot v b rest : Bytes)
    → cut b ≡ some (v, rest)
    → cut_strings (slot ∷ slots) b ≡ keep_string v (cut_strings slots rest)
unfolding cut_strings
cut_strings_step slots slot v b rest e = rw (e, cut_strings)

cut_strings-c_strings :
    (vs : List Bytes) (rest : Bytes)
    → All HasNoNul vs
    → cut_strings (replicate (length vs) []) (c_strings vs ++ rest) ≡ some (vs, rest)
unfolding cut_strings
cut_strings-c_strings [] rest h = refl
cut_strings-c_strings (v ∷ vs) rest (p, h) =
    let first : cut ((c_string v ++ c_strings vs) ++ rest) ≡ some (v, c_strings vs ++ rest) =
      ap cut (append_assoc (c_string v) (c_strings vs) rest) ∙ cut-c_string v _ p in
    cut_strings_step (replicate (length vs) []) [] v _ _ first
    ∙ ap (keep_string v) (cut_strings-c_strings vs rest h)

get_all-put_all_2 :
    (vs : List ℕ) → All (λ v. v < 2 ^ 16) vs → get_all 2 (length vs) (put_all 2 vs) ≡ vs
get_all-put_all_2 [] h = refl
get_all-put_all_2 (v ∷ vs) (p, h) = rw (uint_be-put_be_2 v p, get_all-put_all_2 vs h)

get_all-put_all_4 :
    (vs : List ℕ) → All (λ v. v < 2 ^ 32) vs → get_all 4 (length vs) (put_all 4 vs) ≡ vs
get_all-put_all_4 [] h = refl
get_all-put_all_4 (v ∷ vs) (p, h) = rw (uint_be-put_be_4 v p, get_all-put_all_4 vs h)

get_all-put_all_8 :
    (vs : List ℕ) → All (λ v. v < 2 ^ 64) vs → get_all 8 (length vs) (put_all 8 vs) ≡ vs
get_all-put_all_8 [] h = refl
get_all-put_all_8 (v ∷ vs) (p, h) = rw (uint_be-put_be_8 v p, get_all-put_all_8 vs h)

pub drop-zeros : (n g : ℕ) → drop n (zeros g) ≡ zeros (g - n)
drop-zeros zero g = let e : g ≡ g - 0 = omega arith in ap zeros e
drop-zeros (suc n) zero = let e : 0 ≡ 0 - suc n = omega arith in ap zeros e
drop-zeros (suc n) (suc g) =
    let e : g - n ≡ suc g - suc n = omega arith in drop-zeros n g ∙ ap zeros e

drop-append_zeros :
    (n g : ℕ) (b : Bytes) → length b ≤ n → drop n (b ++ zeros g) ≡ zeros (g - (n - length b))
drop-append_zeros n g [] h =
    let e : g - n ≡ g - (n - 0) = omega arith in drop-zeros n g ∙ ap zeros e
drop-append_zeros zero g (x ∷ b) h = absurd (omega arith)
drop-append_zeros (suc n) g (x ∷ b) h =
    let e : g - (n - length b) ≡ g - (suc n - suc (length b)) = omega arith in
    drop-append_zeros n g b (omega arith) ∙ ap zeros e

-- What `ReadFrom` takes and leaves of the data `d` with `g` bytes of padding behind them.
abbrev pub Taken : TagData → ℕ → Result Error (ℕ × TagData) × Stream → Type 0
Taken d g q =
    (w : ℕ) × (left : ℕ) × (q ≡ (ok (w, read_back d), stream (zeros left) none))
    × (left ≤ g)
    × (w + left ≡ length (data_bytes d) + g)

module _ {ahead : ℕ → ℕ → ℕ} (law : IsAhead ahead) where
  ints-Taken :
      (k : ℕ) (vs : List ℕ) (g : ℕ)
      → read_full (length vs * k) (stream (put_all k vs ++ zeros g) none)
        ≡ (ok (put_all k vs), stream (zeros g) none)
  ints-Taken k vs g =
      read_full-append (length vs * k) (put_all k vs) (zeros g) none (sym (length-put_all k vs))

  read_bytes :
      (b : Bytes) (g : ℕ)
      → read_from ahead (tag_bytes [] (length b)) (stream (b ++ zeros g) none)
        ≡ (ok (length b + g, tag_bytes b (length b)), stream [] none)
  unfolding read_from read_all
  read_bytes b g =
      let fits : ltb (length (b ++ zeros g)) (length b) ≡ false = rw length-append (ground arith) in
      rw (fits, length-append, length-replicate, take-append_length b (zeros g) (length b) refl)

  strings-Taken :
      (vs : List Bytes) (n g : ℕ)
      → All HasNoNul vs
      → Taken
          (tag_string vs n)
          g
          (read_from ahead (blank (tag_string vs n)) (stream (c_strings vs ++ zeros g) none))
  unfolding read_from
  strings-Taken [] n g h = (0, g, refl, omega arith, omega arith)
  strings-Taken (v ∷ vs) n g h =
      let b : Bytes = c_strings (v ∷ vs) in
      let total : length (b ++ zeros g) ≡ length b + g = rw (length-append, length-replicate) in
      let padding : length (zeros g) ≡ g = rw length-replicate in
      let need : ℕ = length (b ++ zeros g) - length (zeros g) in
      let need_b : need ≡ length b = omega arith in
      let taken : ℕ = ahead (length (b ++ zeros g)) need in
      let enough : need ≤ taken = law.enough _ need (omega arith) in
      let within : taken ≤ length (b ++ zeros g) = law.within _ need in
      let all_read : need ≡ strings_len (v ∷ vs) = need_b ∙ length-c_strings (v ∷ vs) in
      let left : drop taken (b ++ zeros g) ≡ zeros (g - (taken - length b)) =
        drop-append_zeros taken g b (omega arith) in
      (
        taken,
        g - (taken - length b),
        ap (λ c. strings_read ahead c (stream (b ++ zeros g) none))
              (cut_strings-c_strings (v ∷ vs) (zeros g) h)
            ∙ rw (left, all_read, strings_read),
        omega arith,
        omega arith,
      )

  -- From data that were written, with padding behind them, `ReadFrom` reads the same values again. It
  -- returns how many bytes it took, which may be some of the padding, and leaves the rest.
  pub read_from-blank :
      (h : TagHeader) (d : TagData) (g : ℕ)
      → IsTyped h d
      → Taken d g (read_from ahead (blank d) (stream (data_bytes d ++ zeros g) none))
  unfolding read_from
  read_from-blank h (tag_bytes b n) g t =
      (length b + g, 0, rw (read_bytes b g), omega arith, omega arith)
  read_from-blank h (tag_string vs n) g (_, _, h') = strings-Taken vs n g h'
  read_from-blank h (tag_uint16 vs) g (_, _, h') = (
    length vs * 2,
    g,
    rw (length-replicate, ints-Taken 2 vs g, get_all-put_all_2 vs h'),
    omega arith,
    omega (arith, length-put_all 2 vs),
  )
  read_from-blank h (tag_uint32 vs) g (_, _, h') = (
    length vs * 4,
    g,
    rw (length-replicate, ints-Taken 4 vs g, get_all-put_all_4 vs h'),
    omega arith,
    omega (arith, length-put_all 4 vs),
  )
  read_from-blank h (tag_uint64 vs) g (_, _, h') = (
    length vs * 8,
    g,
    rw (length-replicate, ints-Taken 8 vs g, get_all-put_all_8 vs h'),
    omega arith,
    omega (arith, length-put_all 8 vs),
  )
  read_from-blank h unset g t = absurd t
