-- ===== src/Tag/Data.antt =====
-- tag.go: the methods `Len`, `WriteTo` and `writeHeader`, over any io.Writer.
use go_rpm.Io.{Op, pure, fail, ok, err, ◌>>=◌, ◌>>◌, WriteReply, short_write, Result}
use go_rpm.Io.Binary.{put_be}
use go_rpm.Tag.{
  TagHeader, TagData, tag_bytes, tag_string, tag_uint16, tag_uint32, tag_uint64, unset, Error, io,
  nil_dereference, List, Bytes, ℕ,
}
use go_rpm.Base.{ℕ, List, Bytes, ◌++◌, ◌∷◌, some, length, if◌then◌else◌, ◌*◌, [], ◌+◌, ◌==◌, none}

-- A string and its NUL.
abbrev pub c_string : Bytes → Bytes
c_string v = v ++ 0 ∷ []

-- The loop of `tagString.Len`.
abbrev pub strings_len : List Bytes → ℕ
strings_len [] = 0
strings_len (v ∷ vs) = (length v + 1) + strings_len vs

-- `Len`, with the data afterwards: a `tagString` keeps the length that it computes.
unfoldable pub len : TagData → Result Error (ℕ × TagData)
len (tag_bytes b count) = ok (length b, tag_bytes b count)
len (tag_string vs n) =
    let m = strings_len vs in if n == 0 then ok (m, tag_string vs m) else ok (n, tag_string vs n)
len (tag_uint16 vs) = ok (length vs * 2, tag_uint16 vs)
len (tag_uint32 vs) = ok (length vs * 4, tag_uint32 vs)
len (tag_uint64 vs) = ok (length vs * 8, tag_uint64 vs)
len unset = err nil_dereference

-- binary.Write of a slice of `k`-byte integers.
abbrev pub put_all : ℕ → List ℕ → Bytes
put_all k [] = []
put_all k (v ∷ vs) = put_be k v ++ put_all k vs

-- binary.Write of a tagHeader.
abbrev pub put_tag_header : TagHeader → Bytes
put_tag_header h = put_be 4 h.tag ++ (put_be 4 h.type ++ (put_be 4 h.offset ++ put_be 4 h.count))

module _ {S : Type 0} (io_write : Bytes → S → WriteReply S) where
  -- One call of `Write`, with its count and error.
  unfoldable pub send : Bytes → Op S Error ℕ
  send b w =
      let (w', n, e) = io_write b w in elim e [ some x ↦ (err (io x), w') | none ↦ (ok n, w') ]

  -- `WriteTo` of a bytes.Buffer: no call where it is empty, and a short count is an error.
  unfoldable pub send_buffer : Bytes → Op S Error ℕ
  send_buffer [] = pure 0
  send_buffer (x ∷ b) = do
    n ← send (x ∷ b)
    if n == length (x ∷ b) then pure n else fail (io short_write)

  -- The loop of `tagString.WriteTo`, `b` being the bytes written before.
  unfoldable pub send_strings : List Bytes → ℕ → Op S Error ℕ
  send_strings [] b = pure b
  send_strings (v ∷ vs) b = do n ← send (c_string v); send_strings vs (b + n)

  -- The count that the integer slices return is their length, not the writer's.
  unfoldable pub write_data : TagData → Op S Error ℕ
  write_data (tag_bytes b count) = send_buffer b
  write_data (tag_string vs n) = send_strings vs 0
  write_data (tag_uint16 vs) = send (put_all 2 vs) >> pure (length vs * 2)
  write_data (tag_uint32 vs) = send (put_all 4 vs) >> pure (length vs * 4)
  write_data (tag_uint64 vs) = send (put_all 8 vs) >> pure (length vs * 8)
  write_data unset = fail nil_dereference

  unfoldable pub write_header : TagHeader → Op S Error (Unit {0})
  write_header h = send (put_tag_header h) >> pure tt
