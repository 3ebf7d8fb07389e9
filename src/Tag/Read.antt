-- ===== src/Tag/Read.antt =====
-- tag.go: `make` and the `ReadFrom` methods, over a byte stream that is read in sequence.
use go_rpm.Io.{Result, Op, ok, err, pure, fail, ◌>>=◌, Stream, IoError, eof, failed, read_full}
use go_rpm.Io.Binary.{uint_be}
use go_rpm.Tag.{
  TagHeader, TagData, tag_bytes, tag_string, tag_uint16, tag_uint32, tag_uint64, unset, Error, io,
  err_tag_size, err_tag_type, err_unexpected_eof, nil_dereference, char_type, int8_type, int16_type,
  int32_type, int64_type, string_type, bin_type, string_array_type, i18n_string_type, Bytes, List,
  ℕ,
}
use go_rpm.Base.{
  zero, suc, Bool, Option, Bytes, List, ℕ, [], none, ◌+◌, some, if◌then◌else◌, ◌∷◌, suc, ltb, ◌^◌,
  length, ◌==◌, ◌-◌, leb, take, drop, ◌%◌, ◌/◌, ◌++◌, zeros, ◌*◌, ◌||◌, replicate,
}

-- `b - a` of uint32s.
abbrev pub sub_u32 : ℕ → ℕ → ℕ
sub_u32 b a = (b + 2 ^ 32 - a) % 2 ^ 32

abbrev pub checked : Bool → TagData → Result Error TagData
checked fits body = if fits then ok body else err err_tag_size

-- `make`: the data of a tag before they are read. A nil buffer is an empty one, since `ReadFrom`
-- makes it before anything else is done with it.
unfoldable pub make : TagHeader → ℕ → ℕ → Result Error TagData
make h a b =
    let dl = sub_u32 b a in
    if h.type == int16_type
    then checked (leb h.count (dl / 2)) (tag_uint16 (zeros h.count))
    else if h.type == int32_type
    then checked (leb h.count (dl / 4)) (tag_uint32 (zeros h.count))
    else if h.type == int64_type
    then checked (leb h.count (dl / 8)) (tag_uint64 (zeros h.count))
    else if h.type == string_type || h.type == i18n_string_type || h.type == string_array_type
    then checked (leb h.count dl) (tag_string (replicate h.count []) 0)
    else if h.type == bin_type || h.type == char_type || h.type == int8_type
    then checked (leb h.count dl) (tag_bytes [] h.count)
    else err err_tag_type

-- binary.Read into a slice of `k`-byte integers.
abbrev pub get_all : ℕ → ℕ → Bytes → List ℕ
get_all k zero b = []
get_all k (suc n) b = uint_be (take k b) ∷ get_all k n (drop k b)

abbrev pub io_reply : {S A : Type 0} → Result IoError A × S → Result Error A × S
io_reply (ok a, s) = (ok a, s)
io_reply (err e, s) = (err (io e), s)

abbrev pub lift_io : {S A : Type 0} → Op S IoError A → Op S Error A
lift_io m s = io_reply (m s)

-- What io.EOF or the stream's own error stands for, behind the last byte.
abbrev pub at_end : Option ℕ → IoError
at_end none = eof
at_end (some k) = failed k

-- `ReadFrom` of a bytes.Buffer: everything up to io.EOF.
unfoldable pub read_all : Op Stream IoError Bytes
read_all r = elim r.fault [
  | some k ↦ (err (failed k), record r { input = [] })
  | none ↦ (ok r.input, record r { input = [] })
]

-- `ReadBytes(0)` of a bufio.Reader over the bytes: up to the first NUL, which is dropped here as the
-- caller drops it, and what follows.
abbrev pub keep_byte : ℕ → Option (Bytes × Bytes) → Option (Bytes × Bytes)
keep_byte b none = none
keep_byte b (some (v, rest)) = some (b ∷ v, rest)

unfoldable pub cut : Bytes → Option (Bytes × Bytes)
cut [] = none
cut (b ∷ bs) = let more = cut bs in if b == 0 then some ([], bs) else keep_byte b more

abbrev pub keep_string : Bytes → Option (List Bytes × Bytes) → Option (List Bytes × Bytes)
keep_string v none = none
keep_string v (some (vs, rest)) = some (v ∷ vs, rest)

-- The loop over `t.data`: the strings, and the bytes behind them.
unfoldable pub cut_strings : List Bytes → Bytes → Option (List Bytes × Bytes)
cut_strings [] b = some ([], b)
cut_strings (_ ∷ slots) b = elim (cut b) [
  | none ↦ none
  | some (v, rest) ↦ keep_string v (cut_strings slots rest)
]

-- What `ReadFrom` returns: the count and the data.
abbrev pub Reading : Type 0
Reading = ℕ × TagData

-- How far a bufio.Reader has read, where `need` of `limit` bytes had to be read.
module _ (ahead : ℕ → ℕ → ℕ) where
  -- `b.Buffered() + t.len` counts all bytes that the bufio.Reader has taken.
  unfoldable pub strings_read : Option (List Bytes × Bytes) → Op Stream Error Reading
  strings_read none r = (err (io (at_end r.fault)), record r { input = [] })
  strings_read (some (vs, rest)) r =
      let need = length r.input - length rest in
      let n = ahead (length r.input) need in
      (ok (n, tag_string vs need), record r { input = drop n r.input })

  -- With no string to read the bufio.Reader reads nothing.
  unfoldable pub read_strings : List Bytes → Op Stream Error Reading
  read_strings [] r = (ok (0, tag_string [] 0), r)
  read_strings (v ∷ slots) r = strings_read (cut_strings (v ∷ slots) r.input) r

  -- `ReadFrom`, over what an io.LimitedReader lets through.
  unfoldable pub read_from : TagData → Op Stream Error Reading
  unfolding strings_read read_strings
  read_from (tag_bytes b count) = do
    x ← lift_io read_all
    if ltb (length x) count
        then fail err_unexpected_eof
        else pure (length x, tag_bytes (take count (b ++ x)) count)
  read_from (tag_string vs n) = read_strings vs
  read_from (tag_uint16 vs) = do
    x ← lift_io (read_full (length vs * 2))
    pure (length vs * 2, tag_uint16 (get_all 2 (length vs) x))
  read_from (tag_uint32 vs) = do
    x ← lift_io (read_full (length vs * 4))
    pure (length vs * 4, tag_uint32 (get_all 4 (length vs) x))
  read_from (tag_uint64 vs) = do
    x ← lift_io (read_full (length vs * 8))
    pure (length vs * 8, tag_uint64 (get_all 8 (length vs) x))
  read_from unset = fail nil_dereference
