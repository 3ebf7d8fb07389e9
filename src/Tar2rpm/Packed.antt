-- ===== src/Tar2rpm/Packed.antt =====
-- A package that tar2rpm writes, read back.
use go_rpm.Reader.Data.{reader}
use go_rpm.Base.{
  ℕ, Bytes, List, length, ◌++◌, ◌≡◌, inr, ◌<◌, ◌^◌, refl, ◌∷◌, [], ◌∙◌, arith, inl, ap, ◌≤◌, subst,
  sym, none,
}
use go_rpm.Io.{Op, WriteReply, IsWriter, NeverFails, Result, ok, err}
use go_rpm.Tag.{Error, Tag}
use go_rpm.Header.{Header, new_signature_header, add_string, set_region_tag, add_string_of}
use go_rpm.Tar2rpm.{Package}
use go_rpm.Tar2rpm.Packages.{lead_name, signature_of, header_writer, write_parts, write_package}
use go_rpm.Tar2rpm.Tags.{string_tag}
use go_rpm.Header.Write.{Output}
use go_rpm.Header.WriteTo.{out, write_to-Emits}
use go_rpm.Header.Encoding.{encoded, length-encoded, IsWritable}
use go_rpm.Reader.Parts.{IsReadable, region_count-one, read_header}
use go_rpm.Tag.ReadBack.{HasNoNul, IsAhead}
use go_rpm.Header.Room.{IsOpen, IsAddable, add-IsOpen, IsOpen-IsReadable, laid-length}
use go_rpm.Io.Emits.{Emits, Succeeds, Emits-map, Succeeds-bind, Emits-of_Succeeds, Emits-bind}
use go_rpm.Tag.Numbers.{rpmtag_sha256header}
use go_rpm.Header.Layout.{data_size}
use go_rpm.Tag.Written.{
  length-c_strings, send-Succeeds, send-Emits, send_buffer-Emits, send_buffer-Succeeds,
}
use go_rpm.Header.Sort.{IsSort}
use go_rpm.Header.Many.{eight_aligned, write_headers-Emits, write_headers-Succeeds}
use go_rpm.Lead.{Lead, write_lead, put_lead, new_lead, lead_binary}
use go_rpm.Lead.RoundTrip.{IsLead, new_lead-IsLead, length-put_lead}
use go_rpm.Header.WriteOk.{write_to-encoded}
use go_rpm.Tag.Data.{send_buffer}
use go_rpm.Lead.Package.{read_package, payload_offset, read_package-eight_aligned}
use go_rpm.Io.Buffer.{buffer-IsWriter, buffer-NeverFails}

-- What the digits of a digest are, as encoding/hex documents: bytes that are not 0, two for each of the
-- sum's 32.
pub record IsDigest (digest : Bytes → Bytes) : Type 0 where
  pub digits : (b : Bytes) → HasNoNul (digest b)
  pub count : (b : Bytes) → length (digest b) ≡ 64

new_signature_header-IsOpen : IsOpen new_signature_header 62
unfolding new_signature_header set_region_tag
new_signature_header-IsOpen = record {
  laid = refl;
  readable = tt;
  wire = tt;
  is_region = inr refl;
  has_region = refl;
}

digest_tag-IsAddable :
    (v : Bytes) → HasNoNul v → length v ≡ 64 → IsAddable (string_tag rpmtag_sha256header v)
digest_tag-IsAddable v h size =
    let whole : data_size (string_tag rpmtag_sha256header v) ≡ 65 =
      length-c_strings (v ∷ []) ∙ omega arith in
    record {
      readable = record { typed = (inl refl, refl, (h, tt)); some_data = omega (arith, whole) };
      set_data = inr (omega arith);
      wire = omega arith;
    }

short :
    (hdr : Header) (region : ℕ)
    → IsReadable hdr region
    → length hdr.tags ≤ hdr.off
    → hdr.off ≤ 72
    → length (encoded hdr) < 2 ^ 32
short hdr region h few small =
    omega (arith, length-encoded hdr h.writable, region_count-one hdr region h)

-- The signature header can be read back, and its encoding is short.
signature_of-IsReadable :
    (digest : Bytes → Bytes) (pb : Bytes)
    → IsDigest digest
    → IsReadable (signature_of digest pb) 62 × (length (encoded (signature_of digest pb)) < 2 ^ 32)
unfolding signature_of add_string add_string_of new_signature_header set_region_tag
signature_of-IsReadable digest pb h =
    let t : Tag = string_tag rpmtag_sha256header (digest pb) in
    let whole : data_size t ≡ 65 = length-c_strings (digest pb ∷ []) ∙ omega (arith, h.count pb) in
    let (hdr, ran, opened, le, lt) =
      add-IsOpen t new_signature_header 62 new_signature_header-IsOpen
        (digest_tag-IsAddable (digest pb) (h.digits pb) (h.count pb)) (omega (arith, whole)) in
    let same : signature_of digest pb ≡ hdr =
      ap (λ (x : Result Error (Unit {0}) × Header). x.1) ran in
    let readable : IsReadable hdr 62 =
      IsOpen-IsReadable hdr 62 opened (omega arith) (omega (arith, whole)) in
    let few : length hdr.tags ≤ hdr.off =
      omega (arith, laid-length 0 hdr.tags hdr.off opened.laid opened.readable) in
    subst (λ (g : Header). IsReadable g 62 × (length (encoded g) < 2 ^ 32)) (sym same)
      (readable, short hdr 62 readable few (omega (arith, whole)))

module _ {S : Type 0} {io_write : Bytes → S → WriteReply S} {content : S → Bytes}
    (law : IsWriter io_write content) where
  of_output :
      (b : Bytes) (w : S) (Q : ℕ → Output S → Type 0) (P : ℕ → S → Type 0) (hdr : Header)
      (reply : Result Error ℕ × Output S)
      → Emits (out law) b (record { hdr = hdr; w = w }) Q reply
      → ((n : ℕ) (o : Output S) → Q n o → P n o.w)
      → Emits content b w P (reply.0, reply.1.w)
  of_output b w Q P hdr (ok n, o) (wrote, q) h = (wrote, h n o q)
  of_output b w Q P hdr (err e, o) e' h = e'

module _ {S : Type 0} {io_write : Bytes → S → WriteReply S} {content : S → Bytes}
    (law : IsWriter io_write content) (never : NeverFails io_write) {sort : List Tag → List Tag}
    (sorts : IsSort sort) {digest : Bytes → Bytes} (digests : IsDigest digest) where
  header_writer-Emits :
      (hdr : Header) (w : S)
      → IsWritable hdr
      → length (encoded hdr) < 2 ^ 32
      → Emits content
          (encoded hdr)
          w
          (λ n _. n ≡ length (encoded hdr))
          (header_writer digest io_write sort hdr w)
  unfolding header_writer
  header_writer-Emits hdr w h lt =
      of_output law (encoded hdr) w _ _ hdr _
        (write_to-Emits law sorts (record { hdr = hdr; w = w }) h) λ n o q. omega (arith, q.0)

  header_writer-Succeeds :
      (hdr : Header) (w : S) → IsWritable hdr → Succeeds (header_writer digest io_write sort hdr w)
  unfolding header_writer
  header_writer-Succeeds hdr w h =
      let (s', ran, _, _) = write_to-encoded law never sorts (record { hdr = hdr; w = w }) h in
      rw ran tt

  lead_writer-Emits :
      (l : Lead) (w : S)
      → IsLead l
      → Emits content (put_lead l) w (λ n _. n ≡ length (put_lead l)) (write_lead io_write l w)
  unfolding write_lead
  lead_writer-Emits l w h =
      Emits-map content (put_lead l) w _ _ (λ _. 96) _ (send-Emits law (put_lead l) w)
        λ _ _ _. sym (length-put_lead l h)

  lead_writer-Succeeds : (l : Lead) (w : S) → Succeeds (write_lead io_write l w)
  unfolding write_lead
  lead_writer-Succeeds l w = Succeeds-bind _ _ (send-Succeeds law never (put_lead l) w) λ _ _. tt

  -- The bytes of a package behind the payload header's.
  abbrev pub package_bytes : Package → Bytes → Bytes → Bytes
  package_bytes c pb payload =
      eight_aligned 0
        (put_lead (new_lead (lead_name c) lead_binary) ∷ encoded (signature_of digest pb) ∷ pb ∷ [])
      ++ payload

  write_parts-done :
      (c : Package) (pb payload : Bytes) (w : S)
      → (n : ℕ) × (w' : S) × (write_parts digest io_write sort c pb payload w ≡ (ok n, w'))
        × (content w' ≡ content w ++ package_bytes c pb payload)
  unfolding write_parts
  write_parts-done c pb payload w =
      let sig : Header = signature_of digest pb in
      let l : Lead = new_lead (lead_name c) lead_binary in
      let is_lead : IsLead l = new_lead-IsLead (lead_name c) lead_binary (omega arith) in
      let (readable, few) = signature_of-IsReadable digest pb digests in
      let writers : List (Op S Error ℕ) =
        write_lead io_write l
        ∷ header_writer digest io_write sort sig
        ∷ send_buffer io_write pb
        ∷ [] in
      let (n, w', ran, wrote, _) =
        Emits-of_Succeeds content (package_bytes c pb payload) w (λ n _. n ≡ length payload) _
          (Emits-bind content _ payload w _ _ _ _
            (write_headers-Emits law writers (put_lead l ∷ encoded sig ∷ pb ∷ []) w (
              (λ v. lead_writer-Emits l v is_lead),
              (
                (λ v. header_writer-Emits sig v readable.writable few),
                ((λ v. send_buffer-Emits law pb v), tt),
              ),
            ))
            λ _ w1 _. send_buffer-Emits law payload w1)
          (Succeeds-bind _ _
            (write_headers-Succeeds law never writers w (
              (λ v. lead_writer-Succeeds l v),
              (
                (λ v. header_writer-Succeeds sig v readable.writable),
                ((λ v. send_buffer-Succeeds law never pb v), tt),
              ),
            ))
            λ _ w1. send_buffer-Succeeds law never payload w1) in
      (n, w', ran, wrote)

  -- On an io.Writer that never fails, for a payload header that `Next` can read back (`IsReadable`)
  -- and digests of 64 digits, `main` writes a package with no error. A client of `Reader` gets from it
  -- the lead, which has the name, the version and the release, the signature header with the digest
  -- of the payload header's bytes, and the payload header, and then the payload is left.
  pub read_package-write_package :
      {ahead : ℕ → ℕ → ℕ} (aheads : IsAhead ahead) (c : Package) (hdr : Header) (payload : Bytes)
      (w : S)
      → IsReadable hdr 63
      → let sig = signature_of digest (encoded hdr) in
        (n : ℕ) × (w' : S) × (write_package digest io_write sort c hdr payload w ≡ (ok n, w'))
        × (x : Bytes) × (content w' ≡ content w ++ x)
        × (end : ℕ) × (read_package ahead sort (reader 0 x none) ≡ (
          ok (
            new_lead (lead_name c) lead_binary,
            (read_header 62 96 sig, read_header 63 (payload_offset sig) hdr),
          ),
          reader end payload none,
        ))
  unfolding write_package
  read_package-write_package aheads c hdr payload w h =
      let (s', ran, wrote, _) =
        write_to-encoded buffer-IsWriter buffer-NeverFails sorts (record { hdr = hdr; w = [] })
          h.writable in
      let (n, w', done, held) = write_parts-done c (encoded hdr) payload w in
      let is_lead : IsLead (new_lead (lead_name c) lead_binary) =
        new_lead-IsLead (lead_name c) lead_binary (omega arith) in
      let (readable, _) = signature_of-IsReadable digest (encoded hdr) digests in
      (
        n,
        w',
        rw ran (ap (λ (b : Bytes). write_parts digest io_write sort c b payload w) wrote ∙ done),
        package_bytes c (encoded hdr) payload,
        held,
        _,
        read_package-eight_aligned aheads sorts _ _ hdr 62 63 payload none is_lead readable h,
      )
