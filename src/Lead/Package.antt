-- ===== src/Lead/Package.antt =====
-- A lead and two headers, as `WriteHeaders` lays them out at the front of an RPM file.
use go_rpm.Io.{ok, ◌>>=◌, Op, pure}
use go_rpm.Reader.Data.{reader}
use go_rpm.Reader.{Reader, next}
use go_rpm.Reader.Next.{padding}
use go_rpm.Tag.{Error, Tag}
use go_rpm.Base.{
  length, ℕ, ◌+◌, List, Bytes, Option, ◌∷◌, [], ◌++◌, ◌≡◌, append-nil, append_assoc, arith, ap, ◌∙◌,
}
use go_rpm.Header.{Header}
use go_rpm.Tag.ReadBack.{IsAhead}
use go_rpm.Header.Encoding.{encoded}
use go_rpm.Header.Sort.{IsSort}
use go_rpm.Lead.{Lead, read_lead, put_lead}
use go_rpm.Lead.RoundTrip.{IsLead, length-put_lead, read_lead-put_lead}
use go_rpm.Reader.Parts.{IsReadable, read_header}
use go_rpm.Header.Many.{eight_aligned}
use go_rpm.Reader.RoundTrip.{next-encoded}

-- A client that reads the lead, the signature header and the payload header.
unfoldable pub read_package :
    (ℕ → ℕ → ℕ) → (List Tag → List Tag) → Op Reader Error (Lead × (Header × Header))
read_package ahead sort = do
  l ← read_lead
  signature ← next ahead sort
  payload ← next ahead sort
  pure (l, (signature, payload))

-- The offset behind the signature header.
abbrev pub payload_offset : Header → ℕ
payload_offset signature = 96 + length (padding 96) + length (encoded signature)

regroup :
    (a b c d rest : Bytes) → (a ++ (b ++ (c ++ (d ++ [])))) ++ rest ≡ a ++ (b ++ (c ++ (d ++ rest)))
regroup a b c d rest = rw (
  append-nil d,
  append_assoc a (b ++ (c ++ d)) rest,
  append_assoc b (c ++ d) rest,
  append_assoc c d rest,
)

module _ {ahead : ℕ → ℕ → ℕ} (law : IsAhead ahead) {sort : List Tag → List Tag}
    (sorts : IsSort sort) where
  -- From a lead with the magic number and fields in their bounds, and the encodings of two headers
  -- that `Next` reads back (`IsReadable`), each at the next multiple of eight bytes, a client of
  -- `Reader` gets the lead and both headers back, and leaves what is behind them.
  pub read_package-eight_aligned :
      (l : Lead) (signature payload : Header) (s p : ℕ) (rest : Bytes) (f : Option ℕ)
      → IsLead l
      → IsReadable signature s
      → IsReadable payload p
      → read_package ahead sort (
          reader 0
            (eight_aligned 0 (put_lead l ∷ encoded signature ∷ encoded payload ∷ []) ++ rest)
            f)
        ≡ (
          ok (l, (read_header s 96 signature, read_header p (payload_offset signature) payload)),
          reader
              (payload_offset signature
                + length (padding (payload_offset signature))
                + length (encoded payload))
              rest
              f,
        )
  unfolding read_package
  read_package-eight_aligned l signature payload s p rest f is_lead is_sig is_pay =
      let o : ℕ = payload_offset signature in
      let size : 0 + 0 + length (put_lead l) ≡ 96 = omega (arith, length-put_lead l is_lead) in
      let front : eight_aligned 0 (put_lead l ∷ encoded signature ∷ encoded payload ∷ []) ++ rest
          ≡ put_lead l
            ++ (padding 96 ++ (encoded signature ++ (padding o ++ (encoded payload ++ rest)))) =
        ap
          (λ (n : ℕ).
            (put_lead l ++ eight_aligned n (encoded signature ∷ encoded payload ∷ [])) ++ rest)
          size
        ∙ regroup (put_lead l) (encoded signature) (padding o) (encoded payload) rest in
      ap (λ (x : Bytes). read_package ahead sort (reader 0 x f)) front
      ∙ rw (
        read_lead-put_lead l 0 _ f is_lead,
        next-encoded law sorts signature s 96 (padding o ++ (encoded payload ++ rest)) f is_sig,
        next-encoded law sorts payload p o rest f is_pay,
      )
