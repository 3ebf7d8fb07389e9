-- ===== src/Tag/DumpOk.antt =====
-- What `dump` prints of a tag whose data are of its type, on an io.Writer that never fails.
use go_rpm.Base.{
  ◌==◌, ◌++◌, ◌∙◌, if◌then◌else◌, true, codes, length, ap, append_assoc, arith, ℕ, some, refl,
  Bytes, Bool, List, [], ◌∷◌, ◌≡◌, ◌⊎◌, inl, inr,
}
use go_rpm.Io.{Result, Op, WriteReply, IsWriter, NeverFails, ok, buffer_write, ◌>>◌}
use go_rpm.Io.Emits.{Succeeds}
use go_rpm.Tag.{
  Tag, TagData, TagHeader, Error, tag_bytes, tag_string, tag_uint16, tag_uint32, tag_uint64, unset,
  bin_type, char_type, int8_type, string_type, i18n_string_type, string_array_type,
}
use go_rpm.Tag.Data.{write_data, send_buffer, send}
use go_rpm.Tag.Rows.{array_rows}
use go_rpm.Tag.Getters.{string_data, string_array, int16, int32, int64, get_bytes}
use go_rpm.Tag.Accepted.{IsCounted}
use go_rpm.Tag.Format.{Format, show, name_text, shown, sig_name}
use go_rpm.Tag.Named.{named, type_string-named}
use go_rpm.Tag.Names.{find_name, tag_names}
use go_rpm.Tag.Dump.{
  print, print_unchecked, print_if, print_array, print_strings, print_dumped, behind, dump_data,
  dump, nl, newline,
}
use go_rpm.Tag.Dumped.{
  Prints, Prints-none, Prints-bind, nl_text, rows_text, print-Prints, print_unchecked-Prints,
  nl-Prints, print_strings-Prints,
}

abbrev IsBytes : ℕ → Type 0
IsBytes type = (type ≡ bin_type) ⊎ ((type ≡ char_type) ⊎ (type ≡ int8_type))

-- What `dump` prints of data behind the line of the tag.
abbrev pub field_text : Bytes → Bytes
field_text b = codes "\n  " ++ (b ++ newline ∷ [])

abbrev pub bytes_text : Format → ℕ → Bytes → Bytes
bytes_text fm type b =
    if type == bin_type
    then newline ∷ [] ++ (fm.hex_dump b ++ newline ∷ [])
    else if type == char_type
    then field_text (fm.quote b)
    else field_text (fm.hex_bytes b)

abbrev pub string_text : Format → List Bytes → Bytes
string_text fm [] = []
string_text fm (v ∷ vs) = newline ∷ [] ++ nl_text fm 0 0 v

abbrev pub array_text : Format → List Bytes → Bytes
array_text fm [] = newline ∷ [] ++ rows_text fm (array_rows [] 0 [] 0)
array_text fm (v ∷ []) = newline ∷ [] ++ nl_text fm 0 0 v
array_text fm (v ∷ u ∷ vs) = newline ∷ [] ++ rows_text fm (array_rows (v ∷ u ∷ vs) 0 [] 0)

abbrev pub data_text : Format → ℕ → TagData → Bytes
data_text fm type (tag_bytes b n) = bytes_text fm type b
data_text fm type (tag_string vs n) =
    if type == string_array_type then array_text fm vs else string_text fm vs
data_text fm type (tag_uint16 vs) = field_text (fm.hex_list vs)
data_text fm type (tag_uint32 vs) = field_text (fm.hex_list vs)
data_text fm type (tag_uint64 vs) = field_text (fm.hex_list vs)
data_text fm type unset = []

abbrev tag_name : Format → ℕ → Bytes
tag_name fm tag = named fm.decimal tag (find_name tag tag_names)

-- All of it: the offset, the name, the number, the count and the type of the tag, and its data.
unfoldable pub dump_text : Format → Bool → Tag → Bytes
dump_text fm sig t =
    (codes "0x"
      ++ (fm.hex t.off
          ++ (codes ": tag: " ++ shown fm t (sig_name fm sig t.head.tag (tag_name fm t.head.tag)))))
    ++ data_text fm t.head.type t.body

-- Bytes that are written to a new bytes.Buffer stand in it.
buffer_bytes :
    (b : Bytes) (n : ℕ) → (k : ℕ) × (write_data buffer_write (tag_bytes b n) [] ≡ (ok k, b))
unfolding write_data send_buffer send
buffer_bytes [] n = (0, refl)
buffer_bytes (x ∷ b) n =
    let full : (length (x ∷ b) == length (x ∷ b)) ≡ true = ground arith in
    (length (x ∷ b), rw full refl)

-- `String` never panics.
show-some :
    (fm : Format) (sig : Bool) (t : Tag)
    → show fm sig t ≡ some (shown fm t (sig_name fm sig t.head.tag (tag_name fm t.head.tag)))
unfolding show name_text
show-some fm sig t = rw (show, name_text, type_string-named fm.decimal t.head.tag) refl

module _ (fm : Format) {S : Type 0} {io_write : Bytes → S → WriteReply S} {content : S → Bytes}
    (law : IsWriter io_write content) (never : NeverFails io_write) where
  pub of_Prints :
      (b : Bytes) (s : S) (r : Result Error (Unit {0}) × S) → Prints fm law never b s r → Succeeds r
  of_Prints b s r (s', ran, wrote) = rw ran tt

  behind-Prints :
      (b c : Bytes) (s : S) (m k : Op S Error (Unit {0}))
      → Prints fm law never b s (m s)
      → ((s' : S) → Prints fm law never c s' (k s'))
      → Prints fm law never (b ++ c) s (behind fm io_write m k s)
  behind-Prints b c s m k (s1, ran, wrote) h =
      let (s2, ran2, wrote2) = h s1 in
      (
        s2,
        rw (ran, ran2) refl,
        wrote2 ∙ ap (λ (t : Bytes). t ++ c) wrote ∙ append_assoc (content s) b c,
      )

  -- Something in a line of its own.
  line-Prints :
      (b : Bytes) (k : Op S Error (Unit {0})) (s : S)
      → ((s' : S) → Prints fm law never b s' (k s'))
      → Prints fm law never
          (newline ∷ [] ++ b)
          s
          ((print_unchecked fm io_write (newline ∷ []) >> k) s)
  line-Prints b k s h =
      Prints-bind fm law never (newline ∷ []) b s (print_unchecked fm io_write (newline ∷ [])) k
        (print_unchecked-Prints fm law never (newline ∷ []) s) h

  print_array-Prints :
      (vs : List Bytes) (s : S)
      → Prints fm law never (array_text fm vs) s (print_array fm io_write vs s)
  unfolding print_array
  print_array-Prints [] s =
      line-Prints (rows_text fm (array_rows [] 0 [] 0)) (print_strings fm io_write [] 0 [] 0) s
        (print_strings-Prints fm law never [] 0 [] 0)
  print_array-Prints (v ∷ []) s =
      line-Prints (nl_text fm 0 0 v) (nl fm io_write 0 0 v) s (nl-Prints fm law never 0 0 v)
  print_array-Prints (v ∷ u ∷ vs) s =
      line-Prints (rows_text fm (array_rows (v ∷ u ∷ vs) 0 [] 0))
        (print_strings fm io_write (v ∷ u ∷ vs) 0 [] 0) s
        (print_strings-Prints fm law never (v ∷ u ∷ vs) 0 [] 0)

  print_dumped-Prints :
      (b : Bytes) (n : ℕ) (s : S)
      → Prints fm law never
          (newline ∷ [] ++ (fm.hex_dump b ++ newline ∷ []))
          s
          (print_dumped fm io_write (tag_bytes b n) s)
  unfolding print_dumped
  print_dumped-Prints b n s =
      let (k, written) = buffer_bytes b n in
      rw (print_dumped, written)
        (line-Prints (fm.hex_dump b ++ newline ∷ []) _ s λ s'.
          behind-Prints (fm.hex_dump b) (newline ∷ []) s' (print fm io_write (fm.hex_dump b))
            (print_unchecked fm io_write (newline ∷ []))
            (print-Prints fm law never (fm.hex_dump b) s')
            (print_unchecked-Prints fm law never (newline ∷ [])))

  dump_bytes-Prints :
      (type : ℕ) (b : Bytes) (n : ℕ) (s : S)
      → IsBytes type
      → Prints fm law never (bytes_text fm type b) s (dump_data fm io_write type (tag_bytes b n) s)
  unfolding dump_data print_if get_bytes
  dump_bytes-Prints type b n s (inl e) = rw e (print_dumped-Prints b n s)
  dump_bytes-Prints type b n s (inr (inl e)) = rw e (print-Prints fm law never _ s)
  dump_bytes-Prints type b n s (inr (inr e)) = rw e (print-Prints fm law never _ s)

  dump_string-Prints :
      (type : ℕ) (vs : List Bytes) (n : ℕ) (s : S)
      → (type ≡ string_type) ⊎ (type ≡ i18n_string_type)
      → Prints fm law never
          (data_text fm type (tag_string vs n))
          s
          (dump_data fm io_write type (tag_string vs n) s)
  unfolding dump_data string_data
  dump_string-Prints type [] n s (inl e) = rw e (Prints-none fm law never s)
  dump_string-Prints type [] n s (inr e) = rw e (Prints-none fm law never s)
  dump_string-Prints type (v ∷ vs) n s (inl e) =
      rw e (line-Prints (nl_text fm 0 0 v) (nl fm io_write 0 0 v) s (nl-Prints fm law never 0 0 v))
  dump_string-Prints type (v ∷ vs) n s (inr e) =
      rw e (line-Prints (nl_text fm 0 0 v) (nl fm io_write 0 0 v) s (nl-Prints fm law never 0 0 v))

  dump_data-Prints :
      (h : TagHeader) (d : TagData) (s : S)
      → IsCounted h d
      → Prints fm law never (data_text fm h.type d) s (dump_data fm io_write h.type d s)
  unfolding dump_data print_if int16 int32 int64 string_array
  dump_data-Prints h (tag_bytes b n) s (t, c) = dump_bytes-Prints h.type b n s t
  dump_data-Prints h (tag_string vs n) s (inl e, c) = dump_string-Prints h.type vs n s (inl e)
  dump_data-Prints h (tag_string vs n) s (inr (inl e), c) = dump_string-Prints h.type vs n s (inr e)
  dump_data-Prints h (tag_string vs n) s (inr (inr e), c) = rw e (print_array-Prints vs s)
  dump_data-Prints h (tag_uint16 vs) s (e, c) = rw e (print-Prints fm law never _ s)
  dump_data-Prints h (tag_uint32 vs) s (e, c) = rw e (print-Prints fm law never _ s)
  dump_data-Prints h (tag_uint64 vs) s (e, c) = rw e (print-Prints fm law never _ s)
  dump_data-Prints h unset s c = absurd c

  dump_then-Prints :
      (sig : Bool) (t : Tag) (s : S)
      → ((s' : S)
          → Prints fm law never
              (data_text fm t.head.type t.body)
              s'
              (dump_data fm io_write t.head.type t.body s'))
      → Prints fm law never (dump_text fm sig t) s (dump fm io_write sig t s)
  unfolding dump dump_text
  dump_then-Prints sig t s h =
      rw (dump, show-some fm sig t)
        (Prints-bind fm law never _ (data_text fm t.head.type t.body) s (print fm io_write _)
          (dump_data fm io_write t.head.type t.body) (print-Prints fm law never _ s) h)

  pub dump-Prints :
      (sig : Bool) (t : Tag) (s : S)
      → IsCounted t.head t.body
      → Prints fm law never (dump_text fm sig t) s (dump fm io_write sig t s)
  dump-Prints sig t s c = dump_then-Prints sig t s λ s'. dump_data-Prints t.head t.body s' c

  -- The region of a header.
  pub dump-Prints_bytes :
      (sig : Bool) (t : Tag) (b : Bytes) (n : ℕ) (s : S)
      → t.body ≡ tag_bytes b n
      → IsBytes t.head.type
      → Prints fm law never (dump_text fm sig t) s (dump fm io_write sig t s)
  dump-Prints_bytes sig t b n s e h =
      dump_then-Prints sig t s λ s'. rw e (dump_bytes-Prints t.head.type b n s' h)
