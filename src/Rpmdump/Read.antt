-- ===== src/Rpmdump/Read.antt =====
-- cmd/rpmdump/rpmdump.go: how `main` ends on packages, whole ones and one that is cut.
use go_rpm.Base.{
  ℕ, Bytes, List, none, [], ◌∷◌, ◌++◌, ◌≡◌, ◌≤◌, ◌<◌, ◌^◌, refl, false, ◌∙◌, ap, All, length,
}
use go_rpm.Io.{Result, Op, WriteReply, IsWriter, NeverFails, ok, err, after, eof}
use go_rpm.Tag.{Tag, Error, io}
use go_rpm.Tag.ReadBack.{IsAhead}
use go_rpm.Tag.Format.{Format}
use go_rpm.Header.{Header}
use go_rpm.Header.Encoding.{encoded}
use go_rpm.Header.Sort.{IsSort}
use go_rpm.Header.Write.{put_pre}
use go_rpm.Header.Written.{tag_headers}
use go_rpm.Reader.{Reader, next}
use go_rpm.Reader.Data.{reader}
use go_rpm.Reader.Errors.{next_cut}
use go_rpm.Reader.Next.{padding, wire_pre}
use go_rpm.Reader.Parts.{IsReadable}
use go_rpm.Reader.RoundTrip.{next-encoded}
use go_rpm.Reader.Tags.{IsWireHeader}
use go_rpm.Lead.{Lead, read_lead, put_lead}
use go_rpm.Lead.RoundTrip.{IsLead, read_lead-put_lead}
use go_rpm.Lead.Package.{read_package, payload_offset}
use go_rpm.Files.Dump.{Row}
use go_rpm.Rpmdump.{read_headers, main, main_lead, dump_read, is_eof}
use go_rpm.Rpmdump.Printed.{headers_text, dump_read-Prints}
use go_rpm.Rpmdump.Dumpable.{next-IsDumpable}
use go_rpm.Rpmdump.Dumps.{package_end, main-package_end}

module _ {S E A B : Type 0} where
  -- Both parts of a run that succeeds do.
  after-ok :
      (r : Result E A × S) (f : A → Op S E B) (b : B) (s' : S)
      → after f r ≡ (ok b, s')
      → (a : A) × (s1 : S) × (r ≡ (ok a, s1)) × (f a s1 ≡ (ok b, s'))
  after-ok (ok a, s1) f b s' e = (a, s1, refl, e)
  after-ok (err x, s1) f b s' e = cc

module _ (ahead : ℕ → ℕ → ℕ) (sort : List Tag → List Tag) where
  package_end-cut :
      (l : Lead) (signature : Header) (s s1 s2 : Reader)
      → read_lead s ≡ (ok l, s1)
      → next ahead sort s1 ≡ (ok signature, s2)
      → (next ahead sort s2).0 ≡ err (io eof)
      → package_end ahead sort 2 (read_lead s) ≡ ok tt
  unfolding read_headers is_eof
  package_end-cut l signature s s1 s2 lead first second = rw (lead, first, second) refl

-- The headers of a package.
abbrev headers_of : Result Error (Lead × (Header × Header)) → List Header
headers_of (ok (l, (signature, payload))) = signature ∷ payload ∷ []
headers_of (err e) = []

module _ {ahead : ℕ → ℕ → ℕ} (law : IsAhead ahead) {sort : List Tag → List Tag}
    (sorts : IsSort sort) (fm : Format) (path_join : Bytes → Bytes → Bytes)
    (table : List Row → Bytes) {S : Type 0} {io_write : Bytes → S → WriteReply S}
    {content : S → Bytes} (writer : IsWriter io_write content) (never : NeverFails io_write) where
  main_two :
      (l : Lead) (h1 h2 : Header) (s s1 s2 s3 : Reader) (w : S)
      → read_lead s ≡ (ok l, s1)
      → next ahead sort s1 ≡ (ok h1, s2)
      → next ahead sort s2 ≡ (ok h2, s3)
      → main fm path_join table io_write ahead sort false 2 s w
        ≡ dump_read fm path_join table io_write false (h1 ∷ h2 ∷ []) none w
  unfolding main main_lead read_headers
  main_two l h1 h2 s s1 s2 s3 w lead first second = rw (lead, first, second) refl

  -- The headers of a package that a client of `Reader` reads to its payload are printed, both of them.
  pub main-read_package :
      (s s' : Reader) (l : Lead) (signature payload : Header) (w : S)
      → read_package ahead sort s ≡ (ok (l, (signature, payload)), s')
      → (w' : S) × (main fm path_join table io_write ahead sort false 2 s w ≡ (ok tt, w'))
        × (content w' ≡ content w ++ headers_text fm (signature ∷ payload ∷ []) 0)
  unfolding read_package
  main-read_package s s' l signature payload w e =
      let (l1, s1, lead, e1) = after-ok (read_lead s) _ _ _ e in
      let (h1, s2, first, e2) = after-ok (next ahead sort s1) _ _ _ e1 in
      let (h2, s3, second, e3) = after-ok (next ahead sort s2) _ _ _ e2 in
      let (w', ran, wrote) = dump_read-Prints fm writer never path_join table h1 (h2 ∷ []) w (
        next-IsDumpable law sorts s1 s2 h1 first,
        (next-IsDumpable law sorts s2 s3 h2 second, tt),
      ) in
      (
        w',
        main_two l1 h1 h2 s s1 s2 s3 w lead first second ∙ ran,
        wrote
            ∙ ap
                (λ (r : Result Error (Lead × (Header × Header)) × Reader).
                  content w ++ headers_text fm (headers_of r.0) 0)
                e3,
      )

  -- A file that ends between two tag headers of the second header, behind a whole lead and a whole first
  -- header, with fewer tags than the second header's prefix says and none behind its length, is printed
  -- with no error on an io.Writer that never fails: the missing header is taken for the end of the file.
  pub main-cut :
      (l : Lead) (signature : Header) (region size n : ℕ) (ts : List Tag) (w : S)
      → IsLead l
      → IsReadable signature region
      → All (λ t. IsWireHeader t.head × (t.head.offset ≤ size)) ts
      → length ts < n
      → n < 2 ^ 32
      → size < 2 ^ 32
      → let cut =
          padding (payload_offset signature) ++ (put_pre (wire_pre n size) ++ tag_headers ts) in
        (main fm path_join table io_write ahead sort false 2
          (reader 0 (put_lead l ++ (padding 96 ++ (encoded signature ++ cut))) none)
          w).0
        ≡ ok tt
  main-cut l signature region size n ts w is_lead is_sig wire lt few small =
      let o : ℕ = payload_offset signature in
      let cut : Bytes = padding o ++ (put_pre (wire_pre n size) ++ tag_headers ts) in
      let rest : Bytes = padding 96 ++ (encoded signature ++ cut) in
      main-package_end law sorts fm path_join table writer never 2
        (reader 0 (put_lead l ++ rest) none) w
      ∙ package_end-cut ahead sort l _ (reader 0 (put_lead l ++ rest) none) _ _
          (read_lead-put_lead l 0 rest none is_lead)
          (next-encoded law sorts signature region 96 cut none is_sig)
          (ap (λ (r : Result Error Header × Reader). r.0)
            (next_cut ahead sort o size n ts wire lt few small))
