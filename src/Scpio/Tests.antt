-- ===== src/Scpio/Tests.antt =====
-- Runs of the scpio model, and its theorems at concrete inputs.
use go_rpm.Io.{buffer_write, ok, err, unexpected_eof}
use go_rpm.Io.Buffer.{buffer-IsWriter, buffer-NeverFails}
use go_rpm.Io.Emits.{Emits}
use go_rpm.Scpio.{
  scpio_magic, new_header, new_header_loop, fmt16, trailer, at_offset, io, err_bad_magic, codes, [],
  List, ◌∷◌, Bytes, ◌++◌,
}
use go_rpm.Scpio.Header.{new_header-hex_fields}
use go_rpm.Scpio.Writer.{Writer, new_writer, write_header_or_trailer, align, write}
use go_rpm.Scpio.Read.{reader, next_bad_magic, next_truncated}
use go_rpm.Scpio.Reader.{next}
use go_rpm.Scpio.RoundTrip.{
  Entry, entry_size, archive, write_entries, read_entries, write_entries-Emits,
  read_entries-write_entries,
}
use go_rpm.Base.{◌≡◌, none, arith, ◌+◌, map, zeros, length, refl, ap, ℕ, get_or}

abbrev entries : List Entry
entries = (0, codes "foo") ∷ (1, codes "A") ∷ (2, []) ∷ []

-- What the writer leaves in a bytes.Buffer.
abbrev archive_start : Bytes
archive_start =
    codes "07070X00000000"
    ++ 0 ∷ 0 ∷ []
    ++ codes "foo"
    ++ 0 ∷ []
    ++ codes "07070X00000001"
    ++ 0 ∷ 0 ∷ []

write_two : write_entries buffer_write entries (new_writer []) ≡ (
  ok tt,
  record {
    off = 180;
    w =
        archive_start
        ++ codes "A"
        ++ zeros 3
        ++ codes "07070X00000002"
        ++ zeros 2
        ++ codes
            "07070100000000000000000000000000000000000000010000000000000000000000000000000000000000000000000000000b00000000TRAILER!!!"
        ++ zeros 4;
  },
)
unfolding write_entries write_header_or_trailer align write new_header new_header_loop fmt16 trailer
write_two = refl

new_header-hex_fields_example : new_header scpio_magic (0xbeef ∷ []) ≡ codes "07070X0000beef"
new_header-hex_fields_example = new_header-hex_fields scpio_magic (0xbeef ∷ []) refl

write_entries-Emits_example :
    Emits
      (λ s. s.w)
      (archive 0 entries)
      (new_writer [])
      (λ _ s'. s'.off ≡ 0 + length (archive 0 entries))
      (write_entries buffer_write entries (new_writer []))
write_entries-Emits_example = write_entries-Emits buffer-IsWriter entries (new_writer [])

abbrev sixth : Bytes → ℕ
sixth b = get_or b 5 0

next_bad_magic_example :
    next 0 (reader 0 (codes "070702xxxxxxxxxx") none)
    ≡ (err (at_offset 16 err_bad_magic), reader 16 [] none)
next_bad_magic_example =
    next_bad_magic 0 0 (codes "070702xxxxxxxxxx") [] none refl
      (λ e. absurd (omega (arith, ap sixth e))) (λ e. absurd (omega (arith, ap sixth e)))

next_truncated_example :
    next 2 (reader 0 (0 ∷ 0 ∷ codes "07070") none)
    ≡ (err (at_offset 4 (io unexpected_eof)), reader 4 [] none)
next_truncated_example = next_truncated 2 0 (codes "07070") (omega arith)

read_entries-write_entries_example :
    (s' : Writer Bytes) × (write_entries buffer_write entries (new_writer []) ≡ (ok tt, s'))
    × (x : Bytes) × (s'.w ≡ [] ++ x)
    × (read_entries (map entry_size entries) 0 (reader 0 x none)
        ≡ (ok entries, reader (length x) [] none))
read_entries-write_entries_example =
    read_entries-write_entries buffer-IsWriter buffer-NeverFails entries [] (omega arith)
