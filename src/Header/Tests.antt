-- ===== src/Header/Tests.antt =====
-- Runs of the header model, and its theorems at concrete inputs.
use go_rpm.Header.{
  add_string, Header, TagData, Error, Tag, add_string_i18n, zero_header, add_string_array,
  tag_string, add_int16, unset, add_int32, add_int64, tag_uint16, add_bin, tag_uint32, len,
  new_payload_header, tag_uint64, tag_bytes, ok, new_tag, add, int64_type, u32,
}
use go_rpm.Base.{ℕ, List, arith, some, codes, ◌∷◌, [], ◌≡◌, refl, length, Bytes, ◌+◌, ◌*◌, ◌++◌}
use go_rpm.Io.{Op, ok, ◌>>◌, buffer_write}
use go_rpm.Header.Encoding.{IsWritable, encoded, with_region, length-encoded}
use go_rpm.Tag.{
  Error, TagData, Tag, tag_string, unset, tag_uint16, tag_uint32, tag_uint64, tag_bytes, int64_type,
}
use go_rpm.Tag.Data.{len, send}
use go_rpm.Header.Insertion.{insertion_sort, insertion_sort-IsSort}
use go_rpm.Header.Write.{Output, write_to}
use go_rpm.Header.Layout.{IsLaidHeader, add-IsLaidHeader, gap, add_lem}
use go_rpm.Io.Emits.{Emits}
use go_rpm.Header.Sort.{sort_strict}
use go_rpm.Header.WriteTo.{write_to-Emits}
use go_rpm.Io.Buffer.{buffer-IsWriter, buffer-NeverFails}
use go_rpm.Header.WriteOk.{write_to-encoded}
use go_rpm.Tag.Written.{data_bytes, IsSetData, send-Emits}
use go_rpm.Header.Many.{eight_aligned, write_headers, write_headers-Emits}

-- `makeHdr` of header_test.go, with fewer values, in a payload header.
abbrev built : Op Header Error (Unit {0})
built = do
  add_string 1 (codes "foo")
  add_string_i18n 1 (codes "I18N")
  add_string_array 2 (codes "foo" ∷ codes "bar" ∷ [])
  add_int16 3 (0x1122 ∷ 0x3344 ∷ [])
  add_int32 4 (0x11223344 ∷ [])
  add_int64 5 (0x99 ∷ [])
  add_bin 6 (codes "foo")

abbrev pub test_tag : ℕ → ℕ → ℕ → ℕ → TagData → Tag
test_tag tag type offset count body = record {
  head = record { tag = tag; type = type; offset = offset; count = count };
  idx = 0;
  off = 0;
  body = body;
}

abbrev pub built_tags : List Tag
built_tags =
    test_tag 1 6 0 1 (tag_string (codes "foo" ∷ []) 4)
    ∷ test_tag 1 9 4 1 (tag_string (codes "I18N" ∷ []) 5)
    ∷ test_tag 2 8 9 2 (tag_string (codes "foo" ∷ codes "bar" ∷ []) 8)
    ∷ test_tag 3 3 18 2 (tag_uint16 (0x1122 ∷ 0x3344 ∷ []))
    ∷ test_tag 4 4 24 1 (tag_uint32 (0x11223344 ∷ []))
    ∷ test_tag 5 5 32 1 (tag_uint64 (0x99 ∷ []))
    ∷ test_tag 6 7 40 3 (tag_bytes (codes "foo") 0)
    ∷ []

abbrev pub built_header : Header
built_header = record zero_header {
  off = 43;
  region = some (test_tag 63 7 0 16 unset);
  tags = built_tags;
}

run_built : built new_payload_header ≡ (ok tt, built_header)
unfolding add_string add_string_i18n add_string_array add_int16 add_int32 add_int64 add_bin len
    new_payload_header
run_built = refl

pub built_header-IsWritable : IsWritable built_header
built_header-IsWritable = record {
  laid = omega arith;
  some_tags = λ e. cc;
  some_data = omega arith;
  fits = omega arith;
}

abbrev long_tag : Tag
long_tag = new_tag 7 int64_type 1 (tag_uint64 (1 ∷ []))

add-IsLaidHeader_example : IsLaidHeader (add long_tag built_header).1
add-IsLaidHeader_example = add-IsLaidHeader long_tag built_header (omega arith) tt (omega arith)

abbrev pub to_buffer : Output Bytes
to_buffer = record { hdr = built_header; w = [] }

write_to-Emits_example :
    Emits
      (λ s. s.w)
      (encoded built_header)
      to_buffer
      (λ n s'. (n ≡ u32 (length (encoded built_header))) × (s'.hdr ≡ with_region built_header))
      (write_to buffer_write insertion_sort to_buffer)
write_to-Emits_example =
    write_to-Emits buffer-IsWriter insertion_sort-IsSort to_buffer built_header-IsWritable

write_to-encoded_example :
    (s' : Output Bytes) × (write_to buffer_write insertion_sort to_buffer
      ≡ (ok (u32 (length (encoded built_header))), s'))
    × (s'.w ≡ [] ++ encoded built_header)
    × (s'.hdr ≡ with_region built_header)
write_to-encoded_example =
    write_to-encoded buffer-IsWriter buffer-NeverFails insertion_sort-IsSort to_buffer
      built_header-IsWritable

length-encoded_example : length (encoded built_header) ≡ 16 + (7 + 1) * 16 + (43 + 16 * 1)
length-encoded_example = length-encoded built_header built_header-IsWritable

sort_strict_example : insertion_sort built_tags ≡ built_tags
sort_strict_example = sort_strict insertion_sort-IsSort built_tags (omega arith)

add_example :
    (t' : Tag) × (add long_tag built_header
      ≡ (ok tt, record built_header { off = t'.head.offset + 8; tags = built_tags ++ t' ∷ [] }))
    × (t'.head ≡ record long_tag.head { offset = 43 + gap int64_type 43 })
    × (data_bytes t'.body ≡ 0 ∷ 0 ∷ 0 ∷ 0 ∷ 0 ∷ 0 ∷ 0 ∷ 1 ∷ [])
    × IsSetData t'.body
add_example = add_lem long_tag built_header tt (omega arith)

abbrev whole : Op Bytes Error ℕ
whole = send buffer_write (codes "header")

write_headers-Emits_example :
    Emits
      (λ s. s)
      (eight_aligned 0 (codes "header" ∷ codes "header" ∷ []))
      []
      (λ n _. n ≡ 14)
      (write_headers buffer_write (whole ∷ whole ∷ []) [])
write_headers-Emits_example =
    write_headers-Emits buffer-IsWriter (whole ∷ whole ∷ []) (codes "header" ∷ codes "header" ∷ [])
      []
      (
        send-Emits buffer-IsWriter (codes "header"),
        (send-Emits buffer-IsWriter (codes "header"), tt),
      )
