-- ===== src/Lead/Tests.antt =====
-- Runs of the lead model, and its theorems at concrete inputs.
use go_rpm.Reader.Next.{padding}
use go_rpm.Base.{length, take, Bytes, codes, zeros, ◌≢◌, none, ◌++◌, [], ◌≡◌, ◌∷◌, arith, refl, ◌+◌}
use go_rpm.Tag.{err_invalid_lead}
use go_rpm.Reader.Data.{reader}
use go_rpm.Io.{err, buffer_write, ok}
use go_rpm.Lead.{
  shown_name, new_lead, read_lead, lead_magic, put_lead, write_lead, lead_binary, lead_source,
}
use go_rpm.Lead.RoundTrip.{
  shown_name-new_lead, read_lead-write_lead, read_lead_bad_magic, new_lead-IsLead,
}
use go_rpm.Io.Buffer.{buffer-IsWriter, buffer-NeverFails}
use go_rpm.Lead.Package.{read_package, payload_offset, read_package-eight_aligned}
use go_rpm.Reader.Tests.{take_all_ahead, take_all_ahead-IsAhead, built_header-IsReadable}
use go_rpm.Header.Insertion.{insertion_sort, insertion_sort-IsSort}
use go_rpm.Header.Many.{eight_aligned}
use go_rpm.Header.Encoding.{encoded}
use go_rpm.Header.Tests.{built_header}
use go_rpm.Reader.Parts.{read_header}

zeros_refused : take 4 (zeros 96) ≢ lead_magic
zeros_refused e = cc

new_lead_magic :
    take 6 (put_lead (new_lead (codes "foo") lead_binary)) ≡ 0xed ∷ 0xab ∷ 0xee ∷ 0xdb ∷ 3 ∷ 0 ∷ []
unfolding new_lead
new_lead_magic = refl

shown_name-new_lead_example :
    shown_name (new_lead (codes "foo") lead_binary).name ≡ take 66 (codes "foo")
shown_name-new_lead_example = shown_name-new_lead (codes "foo") lead_binary (omega arith)

read_lead-write_lead_example :
    (w' : Bytes) × (write_lead buffer_write (new_lead (codes "foo") lead_source) [] ≡ (ok 96, w'))
    × (x : Bytes) × (w' ≡ [] ++ x)
    × (read_lead (reader 0 (x ++ 7 ∷ []) none)
        ≡ (ok (new_lead (codes "foo") lead_source), reader 96 (7 ∷ []) none))
read_lead-write_lead_example =
    read_lead-write_lead buffer-IsWriter buffer-NeverFails (codes "foo") lead_source [] 0 (7 ∷ [])
      none (omega arith)

read_lead_bad_magic_example :
    read_lead (reader 0 (zeros 96 ++ []) none) ≡ (err err_invalid_lead, reader 0 [] none)
read_lead_bad_magic_example = read_lead_bad_magic (zeros 96) 0 [] none refl zeros_refused

read_package-eight_aligned_example :
    read_package take_all_ahead insertion_sort (
      reader 0
        (eight_aligned 0 (
            put_lead (new_lead (codes "foo") lead_binary)
            ∷ encoded built_header
            ∷ encoded built_header
            ∷ [])
          ++ 7 ∷ [])
        none)
    ≡ (
      ok (
        new_lead (codes "foo") lead_binary,
        (read_header 63 96 built_header, read_header 63 (payload_offset built_header) built_header),
      ),
      reader
          (payload_offset built_header
            + length (padding (payload_offset built_header))
            + length (encoded built_header))
          (7 ∷ [])
          none,
    )
read_package-eight_aligned_example =
    read_package-eight_aligned take_all_ahead-IsAhead insertion_sort-IsSort
      (new_lead (codes "foo") lead_binary) built_header built_header 63 63 (7 ∷ []) none
      (new_lead-IsLead (codes "foo") lead_binary (omega arith)) built_header-IsReadable
      built_header-IsReadable
