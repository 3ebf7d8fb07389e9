-- ===== src/Scpio/RoundTrip.antt =====
-- An archive that a `Writer` wrote, read back through a `Reader`.
use go_rpm.Base.{
  ℕ, ◌+◌, ◌^◌, ◌<◌, ◌≡◌, refl, arith, List, [], ◌∷◌, ◌++◌, append-nil, map, Option, true, false,
  none, subst, Bytes, length, length-append, All,
}
use go_rpm.Io.{Op, ok, pure, ◌>>=◌, ◌>>◌, WriteReply, IsWriter, NeverFails, read_full}
use go_rpm.Io.Emits.{Emits, Emits-bind, Emits-weaken, Succeeds, Succeeds-bind, Emits-of_Succeeds}
use go_rpm.Io.Streams.{read_full-append}
use go_rpm.Scpio.{Error}
use go_rpm.Scpio.Writer.{Writer, new_writer, write, write_header, close}
use go_rpm.Scpio.Written.{
  padded, record_of, out, write-Emits, write-Succeeds, write_header_or_trailer-Succeeds,
  write_header_or_trailer-Emits,
}
use go_rpm.Scpio.Reader.{Reader, on_stream, next}
use go_rpm.Scpio.Read.{reader, next-record, next-trailer}

-- An entry: the inode number of its header, and its data.
abbrev pub Entry : Type 0
Entry = ℕ × Bytes

abbrev pub entry_size : Entry → ℕ
entry_size (ino, b) = length b

-- What is in an archive from offset `o` on.
abbrev pub archive : ℕ → List Entry → Bytes
archive o [] = padded o (record_of 0 true)
archive o ((ino, b) ∷ es) =
    let head = padded o (record_of ino false) in
    head ++ (b ++ archive (o + length head + length b) es)

-- A client that reads as many entries as there are sizes, and the trailer.
unfoldable pub read_entries : List ℕ → ℕ → Op Reader Error (List Entry)
read_entries [] last = next last >> pure []
read_entries (n ∷ sizes) last = do
  ino ← next last
  b ← on_stream (read_full n)
  es ← read_entries sizes n
  pure ((ino, b) ∷ es)

module _ {S : Type 0} (io_write : Bytes → S → WriteReply S) where
  -- A client that writes entries, and closes the archive.
  unfoldable pub write_entries : List Entry → Op (Writer S) Error (Unit {0})
  write_entries [] = close io_write
  write_entries ((ino, b) ∷ es) = do write_header io_write ino; write io_write b; write_entries es

pub read_entries-archive :
    (es : List Entry) (o last : ℕ) (f : Option ℕ)
    → All (λ e. e.0 < 2 ^ 32) es
    → read_entries (map entry_size es) last (reader o (archive (o + last) es) f)
      ≡ (ok es, reader (o + last + length (archive (o + last) es)) [] f)
unfolding read_entries
read_entries-archive [] o last f h =
    rw (← append-nil (archive (o + last) [])) (rw next-trailer (rw append-nil))
read_entries-archive ((ino, b) ∷ es) o last f (hi, h) =
    let head : Bytes = padded (o + last) (record_of ino false) in
    let rest : Bytes = archive (o + last + length head + length b) es in
    let total : o + last + length head + length b + length rest
        ≡ o + last + length (head ++ (b ++ rest)) =
      omega (arith, length-append head (b ++ rest), length-append b rest) in
    rw (
      next-record ino last o _ f hi,
      read_full-append (length b) b _ f refl,
      read_entries-archive es (o + last + length head) (length b) f h,
      total,
    )

module _ {S : Type 0} {io_write : Bytes → S → WriteReply S} {content : S → Bytes}
    (law : IsWriter io_write content) where
  -- On every io.Writer: the archive where it succeeds, else a beginning of it.
  pub write_entries-Emits :
      (es : List Entry) (s : Writer S)
      → Emits
          (out law)
          (archive s.off es)
          s
          (λ _ s'. s'.off ≡ s.off + length (archive s.off es))
          (write_entries io_write es s)
  unfolding write_entries
  write_entries-Emits [] s = write_header_or_trailer-Emits law 0 true s
  write_entries-Emits ((ino, b) ∷ es) s =
      let head : Bytes = padded s.off (record_of ino false) in
      let rest : Bytes = archive (s.off + length head + length b) es in
      Emits-bind (out law) head _ s _ _ _ _ (write_header_or_trailer-Emits law ino false s)
        λ _ s1 e1. Emits-bind (out law) b _ s1 _ _ _ _ (write-Emits law b s1) λ _ s2 e2.
          let same : s2.off ≡ s.off + length head + length b = omega (arith, e2.1) in
          Emits-weaken (out law) _ s2 _ _ _
            (subst
              (λ (o : ℕ).
                Emits (out law) (archive o es) s2 (λ _ s'. s'.off ≡ s2.off + length (archive o es))
                  (write_entries io_write es s2))
              same (write_entries-Emits es s2))
            λ _ s3 e3. omega (arith, length-append head (b ++ rest), length-append b rest)

  write_entries-Succeeds :
      NeverFails io_write
      → (es : List Entry) (s : Writer S) → Succeeds (write_entries io_write es s)
  unfolding write_entries
  write_entries-Succeeds never [] s = write_header_or_trailer-Succeeds law never 0 true s
  write_entries-Succeeds never ((ino, b) ∷ es) s =
      Succeeds-bind _ _ (write_header_or_trailer-Succeeds law never ino false s) λ _ s1.
        Succeeds-bind _ _ (write-Succeeds law never b s1) λ _ s2. write_entries-Succeeds never es s2

  -- On an io.Writer that never fails, entries with inode numbers below 2 ^ 32 are written with no
  -- error, and a `Reader` that is told their sizes gives the same entries back from what was
  -- written, and reads it to its end.
  pub read_entries-write_entries :
      (never : NeverFails io_write) (es : List Entry) (w : S)
      → All (λ e. e.0 < 2 ^ 32) es
      → (s' : Writer S) × (write_entries io_write es (new_writer w) ≡ (ok tt, s'))
        × (x : Bytes) × (content s'.w ≡ content w ++ x)
        × (read_entries (map entry_size es) 0 (reader 0 x none)
            ≡ (ok es, reader (length x) [] none))
  read_entries-write_entries never es w h =
      let unpad : 0 + length (archive 0 es) ≡ length (archive 0 es) = omega arith in
      let (done, s', ran, wrote, _) =
        Emits-of_Succeeds (out law) _ (new_writer w) _ _ (write_entries-Emits es (new_writer w))
          (write_entries-Succeeds never es (new_writer w)) in
      (s', ran, archive 0 es, wrote, rw unpad at (read_entries-archive es 0 0 none h))
