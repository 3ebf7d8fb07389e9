-- ===== src/Rpmdump/Dumps.antt =====
-- cmd/rpmdump/rpmdump.go: what the reader accepts is printed with no error.
use go_rpm.Base.{
  arith, ℕ, zero, suc, Bytes, List, Option, none, some, [], ◌∷◌, ◌==◌, ◌≡◌, refl, All,
  if◌then◌else◌, false, inl, inr, Bool-cases,
}
use go_rpm.Io.{Result, WriteReply, IsWriter, NeverFails, ok, err, after}
use go_rpm.Io.Emits.{Succeeds}
use go_rpm.Tag.{Tag, Error}
use go_rpm.Tag.ReadBack.{IsAhead}
use go_rpm.Tag.Format.{Format}
use go_rpm.Header.{Header}
use go_rpm.Header.Sort.{IsSort}
use go_rpm.Reader.{Reader, next}
use go_rpm.Lead.{Lead, read_lead}
use go_rpm.Files.Dump.{Row}
use go_rpm.Rpmdump.{
  Fatal, lead_failed, no_headers, Headers, go_on, dump_headers, check_end, dump_read, read_headers,
  main, read_failed, is_eof, lift_dumped, main_lead,
}
use go_rpm.Rpmdump.Printed.{headers_text, dump_headers-Prints}
use go_rpm.Tag.DumpOk.{of_Prints}
use go_rpm.Rpmdump.Dumpable.{IsDumpable, next-IsDumpable}

-- How `main` ends where printing cannot fail: with the error of the lead, with that of the first header,
-- or with one of a later header that is not the end of the file.
abbrev pub headers_end : List Header → Option Error → Result Fatal (Unit {0})
headers_end [] e = err (no_headers e)
headers_end (v ∷ vs) none = ok tt
headers_end (v ∷ vs) (some e) = if is_eof e then ok tt else err (read_failed e)

check_end-headers_end :
    {S : Type 0} (v : Header) (vs : List Header) (e : Option Error) (w : S)
    → (check_end e w).0 ≡ headers_end (v ∷ vs) e
unfolding check_end
check_end-headers_end v vs none w = refl
check_end-headers_end v vs (some e) w = ground arith

module _ (ahead : ℕ → ℕ → ℕ) (sort : List Tag → List Tag) where
  abbrev pub package_end : ℕ → Result Error Lead × Reader → Result Fatal (Unit {0})
  package_end nhdr (err e, s) = err (lead_failed e)
  package_end nhdr (ok l, s) =
      if nhdr == 0
      then ok tt
      else headers_end (read_headers ahead sort nhdr s).0.0 (read_headers ahead sort nhdr s).0.1

module _ {ahead : ℕ → ℕ → ℕ} (law : IsAhead ahead) {sort : List Tag → List Tag}
    (sorts : IsSort sort) where
  go_on-IsDumpable :
      (k : Reader → Headers) (r : Result Error Header × Reader)
      → ((hdr : Header) (s : Reader) → r ≡ (ok hdr, s) → IsDumpable hdr)
      → ((s : Reader) → All IsDumpable (k s).0.0)
      → All IsDumpable (go_on k r).0.0
  go_on-IsDumpable k (ok hdr, s) h f = (h hdr s refl, f s)
  go_on-IsDumpable k (err e, s) h f = tt

  read_headers-IsDumpable : (n : ℕ) (s : Reader) → All IsDumpable (read_headers ahead sort n s).0.0
  unfolding read_headers
  read_headers-IsDumpable zero s = tt
  read_headers-IsDumpable (suc n) s =
      go_on-IsDumpable (read_headers ahead sort n) (next ahead sort s)
        (λ hdr s' e. next-IsDumpable law sorts s s' hdr e) (read_headers-IsDumpable n)

  module _ (fm : Format) (path_join : Bytes → Bytes → Bytes) (table : List Row → Bytes) {S : Type 0}
      {io_write : Bytes → S → WriteReply S} {content : S → Bytes}
      (writer : IsWriter io_write content) (never : NeverFails io_write) where
    dump_read-headers_end :
        (hs : List Header) (e : Option Error) (w : S)
        → All IsDumpable hs
        → (dump_read fm path_join table io_write false hs e w).0 ≡ headers_end hs e
    unfolding dump_read
    dump_read-headers_end [] e w h = refl
    dump_read-headers_end (v ∷ vs) e w h =
        lifted (dump_headers fm path_join table io_write false (v ∷ vs) 0 w) (
          of_Prints fm writer never (headers_text fm (v ∷ vs) 0) w _
            (dump_headers-Prints fm writer never path_join table (v ∷ vs) 0 w h))
      where
        lifted :
            (r : Result Error (Unit {0}) × S)
            → Succeeds r
            → (after (λ _. check_end e) (lift_dumped r)).0 ≡ headers_end (v ∷ vs) e
        lifted (ok u, w') h = check_end-headers_end v vs e w'
        lifted (err x, w') h = absurd h

    main_lead-package_end :
        (nhdr : ℕ) (r : Result Error Lead × Reader) (w : S)
        → (main_lead fm path_join table io_write ahead sort false nhdr r w).0
          ≡ package_end ahead sort nhdr r
    unfolding main_lead
    main_lead-package_end nhdr (err e, s) w = refl
    main_lead-package_end nhdr (ok l, s) w = elim (Bool-cases (nhdr == 0)) [
      | inl e ↦ rw e refl
      | inr e ↦ rw e (
          let hs : Headers = read_headers ahead sort nhdr s in
          dump_read-headers_end hs.0.0 hs.0.1 w (read_headers-IsDumpable nhdr s))
    ]

    -- On an io.Writer that never fails, `main` without -json and -files ends as reading alone does,
    -- whatever the stream holds: with the error of the lead, with that of the first header where a header
    -- is asked for, with an error of a later header that `errors.Is` does not find to be io.EOF, and
    -- otherwise with none. No header that `Next` accepts makes `Dump` return an error or panic.
    pub main-package_end :
        (nhdr : ℕ) (s : Reader) (w : S)
        → (main fm path_join table io_write ahead sort false nhdr s w).0
          ≡ package_end ahead sort nhdr (read_lead s)
    unfolding main
    main-package_end nhdr s w = main_lead-package_end nhdr (read_lead s) w
