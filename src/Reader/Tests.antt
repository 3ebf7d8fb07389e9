-- ===== src/Reader/Tests.antt =====
-- Runs of the reader model, and its theorems at concrete inputs.
use go_rpm.Tag.ReadBack.{make-blank}
use go_rpm.Tag.Read.{make}
use go_rpm.Reader.Data.{reader}
use go_rpm.Reader.{
  next, read_from, err_bad_align, offset_error, err_invalid_header, unset, err_offset_oob,
}
use go_rpm.Reader.Next.{padding, wire_pre}
use go_rpm.Tag.{
  tag_error, tag_string, err_bad_align, offset_error, unset, err_invalid_header, io, err_offset_oob,
}
use go_rpm.Io.{err, buffer_write, ok, unexpected_eof}
use go_rpm.Base.{
  length, ℕ, arith, inl, refl, inr, Bytes, ◌++◌, ◌∷◌, codes, zeros, [], none, ◌≡◌, ◌+◌,
}
use go_rpm.Header.{set_region_tag}
use go_rpm.Header.Tests.{built_header, built_header-IsWritable, to_buffer, test_tag}
use go_rpm.Reader.Parts.{IsReadable, read_header}
use go_rpm.Tag.ReadBack.{IsAhead, Taken, blank, read_from-blank}
use go_rpm.Header.Write.{Output, put_pre, write_to}
use go_rpm.Header.Insertion.{insertion_sort, insertion_sort-IsSort}
use go_rpm.Header.Encoding.{encoded}
use go_rpm.Tag.Read.{read_from}
use go_rpm.Header.Written.{tag_headers}
use go_rpm.Io.Streams.{stream}
use go_rpm.Reader.Errors.{next_bad_align, next_wrong_magic, next_short, next_offset_oob}
use go_rpm.Tag.Written.{data_bytes}
use go_rpm.Tag.Data.{put_tag_header}
use go_rpm.Reader.RoundTrip.{next-encoded, next-write_to}
use go_rpm.Io.Buffer.{buffer-IsWriter, buffer-NeverFails}

-- A bufio.Reader that takes all there is.
abbrev pub take_all_ahead : ℕ → ℕ → ℕ
take_all_ahead limit need = limit

pub take_all_ahead-IsAhead : IsAhead take_all_ahead
take_all_ahead-IsAhead = record { enough = λ limit need h. h; within = λ limit need. omega arith }

pub built_header-IsReadable : IsReadable built_header 63
unfolding set_region_tag
built_header-IsReadable = record {
  writable = built_header-IsWritable;
  readable = (
    record { typed = (inl refl, refl, omega arith); some_data = omega arith },
    (
      record { typed = (inr (inl refl), refl, omega arith); some_data = omega arith },
      (
        record { typed = (inr (inr refl), refl, omega arith); some_data = omega arith },
        (
          record { typed = (refl, refl, omega arith); some_data = omega arith },
          (
            record { typed = (refl, refl, omega arith); some_data = omega arith },
            (
              record { typed = (refl, refl, omega arith); some_data = omega arith },
              (record { typed = (inl refl, refl); some_data = omega arith }, tt),
            ),
          ),
        ),
      ),
    ),
  );
  wire = omega arith;
  few = omega arith;
  is_region = inl refl;
  has_region = refl;
}

next-write_to_example :
    (n : ℕ) × (s' : Output Bytes) × (write_to buffer_write insertion_sort to_buffer ≡ (ok n, s'))
    × (x : Bytes) × (s'.w ≡ [] ++ x)
    × (next take_all_ahead insertion_sort (reader 97 (padding 97 ++ (x ++ 1 ∷ [])) none)
        ≡ (ok (read_header 63 97 built_header), reader (97 + 7 + length x) (1 ∷ []) none))
next-write_to_example =
    next-write_to take_all_ahead-IsAhead insertion_sort-IsSort buffer-IsWriter buffer-NeverFails
      to_buffer 63 97 (1 ∷ []) none built_header-IsReadable

next-encoded_example :
    next take_all_ahead insertion_sort
      (reader 97 (padding 97 ++ (encoded built_header ++ 1 ∷ [])) none)
    ≡ (
      ok (read_header 63 97 built_header),
      reader (97 + 7 + length (encoded built_header)) (1 ∷ []) none,
    )
next-encoded_example =
    next-encoded take_all_ahead-IsAhead insertion_sort-IsSort built_header 63 97 (1 ∷ []) none
      built_header-IsReadable

read_from-blank_example : Taken (tag_string (codes "foo" ∷ codes "bar" ∷ []) 8) 3 (
    read_from take_all_ahead
      (blank (tag_string (codes "foo" ∷ codes "bar" ∷ []) 8))
      (stream (data_bytes (tag_string (codes "foo" ∷ codes "bar" ∷ []) 8) ++ zeros 3) none))
read_from-blank_example =
    read_from-blank take_all_ahead-IsAhead (test_tag 2 8 9 2 unset).head
      (tag_string (codes "foo" ∷ codes "bar" ∷ []) 8) 3 (inr (inr refl), refl, omega arith)

next_bad_align_example :
    next take_all_ahead insertion_sort (reader 97 (0 ∷ 0 ∷ []) none)
    ≡ (err err_bad_align, reader 97 [] none)
next_bad_align_example = next_bad_align take_all_ahead insertion_sort 97 (0 ∷ 0 ∷ []) (omega arith)

next_wrong_magic_example :
    next take_all_ahead insertion_sort (reader 97 (padding 97 ++ (zeros 16 ++ [])) none)
    ≡ (err (offset_error 104 err_invalid_header), reader 104 [] none)
next_wrong_magic_example =
    next_wrong_magic take_all_ahead insertion_sort 97 (zeros 16) [] none refl λ e. cc

next_short_example :
    next take_all_ahead insertion_sort (reader 97 (padding 97 ++ 0x8e ∷ []) none)
    ≡ (err (offset_error 104 (io unexpected_eof)), reader 104 [] none)
next_short_example = next_short take_all_ahead insertion_sort 97 (0x8e ∷ []) (omega arith)

next_offset_oob_example :
    next take_all_ahead insertion_sort (
      reader 0
        (padding 0
          ++ (put_pre (wire_pre 2 4)
              ++ (tag_headers (test_tag 1 6 0 1 unset ∷ [])
                  ++ (put_tag_header (test_tag 1 6 5 1 unset).head ++ []))))
        none)
    ≡ (
      err (offset_error 32 (tag_error (test_tag 1 6 5 1 unset).head err_offset_oob)),
      reader 32 [] none,
    )
next_offset_oob_example =
    next_offset_oob take_all_ahead insertion_sort 0 4 2 (test_tag 1 6 0 1 unset ∷ [])
      (test_tag 1 6 5 1 unset).head [] none (omega arith) (omega arith) (omega arith) (omega arith)
      (omega arith)

make-blank_example :
    make (test_tag 2 8 9 2 unset).head 9 20
    ≡ ok (blank (tag_string (codes "foo" ∷ codes "bar" ∷ []) 8))
make-blank_example =
    make-blank (test_tag 2 8 9 2 unset).head 9 20 (tag_string (codes "foo" ∷ codes "bar" ∷ []) 8)
      (inr (inr refl), refl, omega arith) (omega arith) (omega arith)
