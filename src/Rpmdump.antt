-- ===== src/Rpmdump.antt =====
-- cmd/rpmdump/rpmdump.go: the reader of packages that prints their headers. What fmt prints, and the
-- table that tabwriter makes of the rows of a file index, are parameters. Standard output is any
-- io.Writer.
pub mod Read
mod Dumpable
pub mod Printed
pub mod Dumps
pub mod Packages
mod Tests
use go_rpm.Base.{
  ℕ, zero, suc, Bytes, Bool, List, Option, none, some, [], ◌∷◌, ◌++◌, ◌==◌, ◌+◌, if◌then◌else◌,
  codes, true, false,
}
use go_rpm.Io.{Result, Op, WriteReply, ok, err, pure, fail, ◌>>=◌, ◌>>◌, eof}
use go_rpm.Tag.{
  Tag, Error, io, tag_error, offset_error, header_signatures, nil_dereference, index_out_of_range,
}
use go_rpm.Tag.Format.{Format}
use go_rpm.Tag.Dump
use go_rpm.Tag.Dump.{print, print_unchecked, newline}
use go_rpm.Header.{Header, region_of}
use go_rpm.Reader.{Reader, next}
use go_rpm.Lead.{Lead, read_lead}
use go_rpm.Files.Append.{file_index_header}
use go_rpm.Files.Dump as FileDump
use go_rpm.Files.Dump.{Row}

-- What the tool ends with where it fails.
pub data Fatal : Type 0 where
  lead_failed : Error → Fatal
  no_headers : Option Error → Fatal
  not_dumped : Error → Fatal
  read_failed : Error → Fatal

abbrev is_io_eof : Error → Bool
is_io_eof (io eof) = true
is_io_eof e = false

-- `errors.Is(err, io.EOF)`: an offsetError unwraps, and a tagError compares.
unfoldable pub is_eof : Error → Bool
is_eof (offset_error o e) = is_eof e
is_eof (tag_error h e) = is_io_eof e
is_eof e = is_io_eof e

-- The headers that were read, and the error that ended the loop.
abbrev pub Headers : Type 0
Headers = (List Header × Option Error) × Reader

abbrev keep_header : Header → Headers → Headers
keep_header h ((hs, e), s) = ((h ∷ hs, e), s)

abbrev pub go_on : (Reader → Headers) → Result Error Header × Reader → Headers
go_on k (ok h, s) = keep_header h (k s)
go_on k (err e, s) = (([], some e), s)

module _ (ahead : ℕ → ℕ → ℕ) (sort : List Tag → List Tag) where
  -- The loop of `main` over as many headers as were asked for.
  unfoldable pub read_headers : ℕ → Reader → Headers
  read_headers zero s = (([], none), s)
  read_headers (suc n) s = go_on (read_headers n) (next ahead sort s)

abbrev of_result : {S A : Type 0} → Result Error A → Op S Error A
of_result (ok a) = pure a
of_result (err e) = fail e

abbrev pub panics : Result Error (Unit {0}) → Bool
panics (err nil_dereference) = true
panics (err index_out_of_range) = true
panics r = false

abbrev pub is_signature : Option Tag → Bool
is_signature none = false
is_signature (some t) = t.head.tag == header_signatures

abbrev pub header_line : Format → ℕ → Header → Bytes
header_line fm i v =
    codes "hdr("
    ++ (fm.decimal i
        ++ (codes "), len:0x"
            ++ (fm.hex v.pre.length
                ++ (codes ", count:" ++ (fm.decimal v.pre.count ++ newline ∷ [])))))

-- The error of the loop over the headers is looked at last, where it is not io.EOF.
unfoldable pub check_end : {S : Type 0} → Option Error → Op S Fatal (Unit {0})
check_end none = pure tt
check_end (some e) = if is_eof e then pure tt else fail (read_failed e)

abbrev pub lift_dumped : {S : Type 0} → Result Error (Unit {0}) × S → Result Fatal (Unit {0}) × S
lift_dumped (ok u, w) = (ok u, w)
lift_dumped (err e, w) = (err (not_dumped e), w)

module _ (fm : Format) {S : Type 0} (io_write : Bytes → S → WriteReply S) where
  abbrev pub next_tag :
      (Result Error (Unit {0}) → Op S Error (Unit {0}))
      → Result Error (Unit {0}) × S
      → Result Error (Unit {0}) × S
  next_tag k (r, s) =
      if panics r then (r, s) else k r (print_unchecked fm io_write (newline ∷ []) s).1

  -- The loop over the tags: the error of one is forgotten at the next, which a panic is not.
  unfoldable pub dump_tags : Bool → List Tag → Result Error (Unit {0}) → Op S Error (Unit {0})
  dump_tags sig [] last s = (last, s)
  dump_tags sig (t ∷ ts) last s = next_tag (dump_tags sig ts) (Dump.dump fm io_write sig t s)

  unfoldable pub dump_region : Option Tag → Op S Error (Unit {0})
  dump_region none = pure tt
  dump_region (some t) = Dump.dump fm io_write false t

module _ (fm : Format) (path_join : Bytes → Bytes → Bytes) (table : List Row → Bytes) {S : Type 0}
    (io_write : Bytes → S → WriteReply S) where
  -- `Dump` of a file index: `print` is given all that the tabwriter makes of its rows at once.
  print_rows : List Row → Op S Error (Unit {0})
  print_rows [] = pure tt
  print_rows (r ∷ rows) = print fm io_write (table (r ∷ rows))

  unfoldable pub dump_files : Header → Op S Error (Unit {0})
  unfolding print_rows
  dump_files v = do
    fi ← of_result (file_index_header v)
    rows ← of_result (FileDump.shown path_join fi).0
    print_rows rows

  -- The body of the loop of `dump`, with the header after `Region`.
  unfoldable pub dump_header : Bool → ℕ → Header × Option Tag → Op S Error (Unit {0})
  unfolding dump_tags dump_region dump_files
  dump_header fl i (v, rtag) = do
    print_unchecked fm io_write (header_line fm i v)
    dump_region fm io_write rtag
    dump_tags fm io_write (is_signature rtag) v.tags (ok tt)
    if fl then dump_files v else pure tt

  -- `dump`, from place `i` on.
  unfoldable pub dump_headers : Bool → List Header → ℕ → Op S Error (Unit {0})
  unfolding dump_header
  dump_headers fl [] i = pure tt
  dump_headers fl (v ∷ vs) i = dump_header fl i (region_of v) >> dump_headers fl vs (i + 1)

  -- `main`, behind the loop over the headers, without -json.
  unfoldable pub dump_read : Bool → List Header → Option Error → Op S Fatal (Unit {0})
  unfolding check_end dump_headers
  dump_read fl [] e = fail (no_headers e)
  dump_read fl (v ∷ vs) e = (λ w. lift_dumped (dump_headers fl (v ∷ vs) 0 w)) >> check_end e

  module _ (ahead : ℕ → ℕ → ℕ) (sort : List Tag → List Tag) where
    unfoldable pub main_lead : Bool → ℕ → Result Error Lead × Reader → Op S Fatal (Unit {0})
    unfolding dump_read
    main_lead fl nhdr (err e, s) = fail (lead_failed e)
    main_lead fl nhdr (ok l, s) =
        if nhdr == 0
        then pure tt
        else (let ((hs, e), s') = read_headers ahead sort nhdr s in dump_read fl hs e)

    -- `main`, with its flags, from the package that is read.
    unfoldable pub main : Bool → ℕ → Reader → Op S Fatal (Unit {0})
    unfolding main_lead
    main fl nhdr s = main_lead fl nhdr (read_lead s)
