-- ===== src/Reader.antt =====
-- read.go: `Reader`. The stream is read in sequence; offsets are Go `int`s, which count bytes that
-- exist and do not wrap. sort.Sort and the reading ahead of bufio.Reader are parameters.
pub mod Data
pub mod Loop
pub mod Tags
pub mod Numbered
pub mod Next
pub mod Parts
pub mod RoundTrip
pub mod Errors
pub mod Accepted
pub mod Loaded
pub mod Sound
pub mod Tests
mod SoundTests
use go_rpm.Io.{Result, Op, ok, err, pure, fail, ◌>>=◌, ◌>>◌, Stream, read_full, discard}
use go_rpm.Io.Binary.{uint_be}
use go_rpm.Tag.{
  TagHeader, TagData, unset, Tag, Error, err_bad_align, err_invalid_header, err_offset_oob,
  err_unexpected_eof, tag_error, offset_error, int16_type, int32_type, int64_type, header_immutable,
  header_signatures, tag_size,
}
use go_rpm.Tag.Read.{make, read_from, lift_io}
use go_rpm.Header.{rpm_header_magic, RpmHeaderPre, Header, set_region_tag}
use go_rpm.Base.{
  zero, suc, Bool, Option, Bytes, List, and_not, ℕ, bytes_eq, [], ◌-◌, take, none, ◌+◌, length,
  if◌then◌else◌, some, true, ◌∷◌, suc, false, ltb, drop, ◌==◌, leb, bit_and, ◌||◌,
}

pub record Reader : Type 0 where
  pub r : Stream
  pub off : ℕ

abbrev pub new_reader : Stream → Reader
new_reader r = record { r = r; off = 0 }

abbrev pub stream_reply : {A : Type 0} → Reader → Result Error A × Stream → Result Error A × Reader
stream_reply s (x, r) = (x, record s { r = r })

abbrev pub on_stream : {A : Type 0} → Op Stream Error A → Op Reader Error A
on_stream m s = stream_reply s (m s.r)

abbrev pub advance : ℕ → Op Reader Error (Unit {0})
advance n s = (ok tt, record s { off = s.off + n })

abbrev pub check : Bool → Error → Op Reader Error (Unit {0})
check true e = pure tt
check false e = fail e

-- `lr.N` is what was asked for less what was copied.
unfoldable pub align : Op Reader Error (Unit {0})
align s =
    let gap = and_not (s.off + 0x7) 0x7 - s.off in
    (do n ← on_stream (lift_io (discard gap)); check (gap - n == 0) err_bad_align; advance n) s

-- `r.err(e)`, and `tagError{t, e}` in it.
abbrev wrap_reply : {A : Type 0} → Result Error A × Reader → Result Error A × Reader
wrap_reply (ok a, s) = (ok a, s)
wrap_reply (err e, s) = (err (offset_error s.off e), s)

abbrev pub wrap : {A : Type 0} → Op Reader Error A → Op Reader Error A
wrap m s = wrap_reply (m s)

abbrev wrap_tag_reply : {A : Type 0} → TagHeader → Result Error A × Reader → Result Error A × Reader
wrap_tag_reply h (ok a, s) = (ok a, s)
wrap_tag_reply h (err e, s) = (err (offset_error s.off (tag_error h e)), s)

abbrev pub wrap_tag : {A : Type 0} → TagHeader → Op Reader Error A → Op Reader Error A
wrap_tag h m s = wrap_tag_reply h (m s)

-- binary.Read of a rpmHeaderPre and of a tagHeader, from their sixteen bytes.
unfoldable pub get_pre : Bytes → RpmHeaderPre
get_pre b = record {
  magic = take 8 b;
  count = uint_be (take 4 (drop 8 b));
  length = uint_be (take 4 (drop 12 b));
}

unfoldable pub get_tag_header : Bytes → TagHeader
get_tag_header b = record {
  tag = uint_be (take 4 b);
  type = uint_be (take 4 (drop 4 b));
  offset = uint_be (take 4 (drop 8 b));
  count = uint_be (take 4 (drop 12 b));
}

unfoldable pub read_pre : Op Reader Error RpmHeaderPre
read_pre = do
  b ← on_stream (lift_io (read_full 16))
  check (bytes_eq (take 8 b) rpm_header_magic) err_invalid_header
  advance tag_size
  pure (get_pre b)

abbrev pub read_tag : ℕ → TagHeader → Tag
read_tag i h = record { head = h; idx = i; off = 0; body = unset }

-- The loop of `tags` from index `i` on, with the rounds that are left.
unfoldable pub read_tags : ℕ → ℕ → ℕ → Op Reader Error (List Tag)
read_tags size zero i = pure []
read_tags size (suc rounds) i = do
  b ← on_stream (lift_io (read_full 16))
  wrap_tag (get_tag_header b) (check (leb (get_tag_header b).offset size) err_offset_oob)
  advance tag_size
  ts ← read_tags size rounds (i + 1)
  pure (read_tag i (get_tag_header b) ∷ ts)

unfoldable pub tag_aligned : ℕ → ℕ → Bool
tag_aligned type off =
    if type == int16_type
    then bit_and off 0x1 == 0
    else if type == int32_type
    then bit_and off 0x3 == 0
    else if type == int64_type
    then bit_and off 0x7 == 0
    else true

-- A stream through io.LimitedReader with `N = n`, and how the calls on it act on the stream: the
-- result comes with what is left of `N`.
abbrev pub limit : ℕ → Stream → Stream
limit n r = record {
  input = take n r.input;
  fault = if leb n (length r.input) then none else r.fault;
}

abbrev pub limit_reply :
    {A : Type 0} → ℕ → Stream → Result Error A × Stream → Result Error (A × ℕ) × Stream
limit_reply n r (ok a, v) =
    let taken = length (take n r.input) - length v.input in
    (ok (a, n - taken), record r { input = drop taken r.input })
limit_reply n r (err e, v) =
    let taken = length (take n r.input) - length v.input in
    (err e, record r { input = drop taken r.input })

unfoldable pub limited : {A : Type 0} → ℕ → Op Stream Error A → Op Stream Error (A × ℕ)
limited n m r = limit_reply n r (m (limit n r))

abbrev of_result : {A : Type 0} → Result Error A → Op Reader Error A
of_result (ok a) = pure a
of_result (err e) = fail e

-- What is left of `lr.N` is padding, and less than eight bytes of it.
unfoldable pub skip_padding : ℕ → Op Reader Error ℕ
skip_padding n =
    if n == 0
    then pure 0
    else if leb 8 n
    then fail err_unexpected_eof
    else on_stream (lift_io (discard n))

-- `w` bytes of data are counted as read.
abbrev finish_data : Tag → TagData → ℕ → Op Reader Error Tag
finish_data t body w s = (ok (record t { off = s.off; body = body }), record s { off = s.off + w })

-- `i == int(hdr.Count)-1` at the last tag.
abbrev pub data_end : ℕ → List Tag → ℕ
data_end size [] = size
data_end size (t ∷ ts) = t.head.offset

module _ (ahead : ℕ → ℕ → ℕ) where
  -- One round of the loop over the tags' data: those of `t`, which end at `nt`. The offset only
  -- moves at its end, so all its errors are wrapped at one place.
  unfoldable pub read_data : Tag → ℕ → Op Reader Error Tag
  read_data t nt s =
      let nr = nt - t.head.offset in
      wrap_tag t.head
        (do
          check (tag_aligned t.head.type s.off) err_bad_align
          check (ltb t.head.offset nt) err_offset_oob
          body ← of_result (make t.head t.head.offset nt)
          ((w, body'), n) ← on_stream (limited nr (read_from ahead body))
          dn ← skip_padding n
          check (nr == w + dn) err_unexpected_eof
          finish_data t body' (w + dn))
        s

  unfoldable pub read_all_data : ℕ → List Tag → Op Reader Error (List Tag)
  read_all_data size [] = pure []
  read_all_data size (t ∷ ts) = do
    t' ← read_data t (data_end size ts)
    ts' ← read_all_data size ts
    pure (t' ∷ ts')

-- The switch on the last tag: a region tag is taken off the list.
unfoldable pub split_region : RpmHeaderPre → List Tag → Option (List Tag × Tag) → Header
unfolding set_region_tag
split_region pre ts none = record { pre = pre; off = 0; region = none; tags = ts }
split_region pre ts (some (front, lt)) =
    let hdr : Header = record { pre = pre; off = lt.head.offset; region = none; tags = front } in
    if lt.head.tag == header_immutable || lt.head.tag == header_signatures
    then set_region_tag lt.head.tag hdr
    else record hdr { off = pre.length; tags = ts }

-- `hdr.Tags[:len(hdr.Tags)-1]` and the last tag.
abbrev pub behind_first : Tag → Option (List Tag × Tag) → Option (List Tag × Tag)
behind_first t none = some ([], t)
behind_first t (some (front, lt)) = some (t ∷ front, lt)

unfoldable pub split_last : List Tag → Option (List Tag × Tag)
split_last [] = none
split_last (t ∷ ts) = behind_first t (split_last ts)

module _ (ahead : ℕ → ℕ → ℕ) (sort : List Tag → List Tag) where
  -- A header with no tags is returned as it is.
  read_body : RpmHeaderPre → List Tag → Op Reader Error Header
  read_body pre [] = pure (split_region pre [] none)
  read_body pre (t ∷ ts) = do
    ts' ← read_all_data ahead pre.length (sort (t ∷ ts))
    pure (split_region pre ts' (split_last ts'))

  unfoldable pub next : Op Reader Error Header
  unfolding read_body
  next = do align; pre ← wrap read_pre; ts ← read_tags pre.length pre.count 0; read_body pre ts
