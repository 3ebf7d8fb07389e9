-- ===== src/Reader/Data.antt =====
-- One round of the loop over the tags' data, over data that stand in the stream as they are written.
use go_rpm.Base.{
  zero, suc, Bytes, ℕ, Option, ◌≤◌, ◌<◌, ◌≡◌, zeros, length, ◌++◌, ◌+◌, none, ◌-◌, drop, arith,
  zeros_add, ◌∙◌, ap, drop-append_length, length-append, length-replicate, append_assoc, leb,
  take-append_length, false, true, ◌^◌, ltb, refl, ◌==◌, ==_refl,
}
use go_rpm.Reader.{
  skip_padding, Op, Reader, Error, limited, limit_reply, limit, read_data, Tag, TagData,
  tag_aligned, make, read_from,
}
use go_rpm.Io.{Op, Stream, ok}
use go_rpm.Io.Streams.{stream, front_fits, discard-append}
use go_rpm.Tag.ReadBack.{IsAhead, IsTyped, read_back, read_from-blank, blank, make-blank}
use go_rpm.Tag.{Tag, TagData}
use go_rpm.Tag.Written.{data_bytes}
use go_rpm.Tag.Read.{make, read_from}

-- A `Reader` at offset `o`, with what is still to come.
abbrev pub reader : ℕ → Bytes → Option ℕ → Reader
reader o x f = record { r = stream x f; off = o }

-- Within the padding behind some data.
drop-padding :
    (b : Bytes) (n g left : ℕ) (rest : Bytes)
    → left ≤ g
    → n ≡ length b + (g - left)
    → drop n (b ++ (zeros g ++ rest)) ≡ zeros left ++ rest
drop-padding b n g left rest h e =
    let front : zeros (g - left) ++ zeros left ≡ zeros g =
      let total : g - left + left ≡ g = omega arith in zeros_add (g - left) left ∙ ap zeros total in
    let split : b ++ (zeros g ++ rest) ≡ (b ++ zeros (g - left)) ++ (zeros left ++ rest) = rw (
      ← front,
      append_assoc (zeros (g - left)) (zeros left) rest,
      append_assoc b (zeros (g - left)) (zeros left ++ rest),
    ) in
    rw split (
      drop-append_length (b ++ zeros (g - left)) (zeros left ++ rest) n
        (omega (arith, length-append b (zeros (g - left)), length-replicate {A = ℕ} (g - left) 0)))

-- A call that leaves `left` of the `n` bytes it may read.
limit-append :
    (n : ℕ) (b rest : Bytes) (f : Option ℕ)
    → n ≡ length b
    → limit n (stream (b ++ rest) f) ≡ stream b none
limit-append n b rest f e = rw (front_fits n b rest e, take-append_length b rest n e)

-- A call that leaves `x` of the `n` bytes it may read.
limited-append :
    {A : Type 0} (n : ℕ) (b rest x : Bytes) (f : Option ℕ) (m : Op Stream Error A) (a : A)
    → n ≡ length b
    → length x ≤ n
    → m (stream b none) ≡ (ok a, stream x none)
    → limited n m (stream (b ++ rest) f)
      ≡ (ok (a, length x), stream (drop (n - length x) (b ++ rest)) f)
unfolding limited
limited-append n b rest x f m a e h ran =
    let left : n - (n - length x) ≡ length x = omega arith in
    ap (λ v. limit_reply n (stream (b ++ rest) f) (m v)) (limit-append n b rest f e)
    ∙ rw (ran, take-append_length b rest n e, ← e, left)

skip_padding-zeros :
    (o left : ℕ) (rest : Bytes) (f : Option ℕ)
    → left < 8
    → skip_padding left (reader o (zeros left ++ rest) f) ≡ (ok left, reader o rest f)
unfolding skip_padding
skip_padding-zeros o zero rest f h = refl
skip_padding-zeros o (suc n) rest f h =
    let short : leb 8 (suc n) ≡ false = ground arith in
    let fits : suc n ≡ length (zeros (suc n)) = rw length-replicate in
    let some_left : (suc n == 0) ≡ false = ground arith in
    rw (some_left, short, discard-append (suc n) (zeros (suc n)) rest f fits)

module _ {ahead : ℕ → ℕ → ℕ} (law : IsAhead ahead) where
  pub read_data-padded :
      (t : Tag) (d : TagData) (g o nt : ℕ) (rest : Bytes) (f : Option ℕ)
      → IsTyped t.head d
      → g < 8
      → tag_aligned t.head.type o ≡ true
      → nt ≡ t.head.offset + (length (data_bytes d) + g)
      → t.head.offset < nt
      → nt < 2 ^ 32
      → read_data ahead t nt (reader o (data_bytes d ++ (zeros g ++ rest)) f) ≡ (
        ok (record t { off = o; body = read_back d }),
        reader (o + (length (data_bytes d) + g)) rest f,
      )
  unfolding read_data
  read_data-padded t d g o nt rest f typed lt aligned e some_data fits =
      let (w, left, ran, le, total) = read_from-blank law t.head d g typed in
      let room : ltb t.head.offset nt ≡ true = ground arith in
      let made : make t.head t.head.offset nt ≡ ok (blank d) =
        make-blank t.head t.head.offset nt d typed (omega arith) fits in
      let nr : nt - t.head.offset ≡ w + left = omega arith in
      let pads : length (zeros left) ≡ left = rw length-replicate in
      let all : w + left ≡ length (data_bytes d ++ zeros g) =
        rw (length-append, length-replicate) total in
      let skipped : drop (w + left - length (zeros left)) (data_bytes d ++ zeros g ++ rest)
          ≡ zeros left ++ rest =
        rw (append_assoc (data_bytes d) (zeros g) rest)
          (drop-padding (data_bytes d) _ g left rest le (omega arith)) in
      rw (
        aligned,
        room,
        made,
        nr,
        ← append_assoc (data_bytes d) (zeros g) rest,
        limited-append (w + left) (data_bytes d ++ zeros g) rest (zeros left) f
            (read_from ahead (blank d)) (w, read_back d) all (omega arith) ran,
        skipped,
        pads,
        skip_padding-zeros o left rest f (omega arith),
        ==_refl (w + left),
        total,
      )
