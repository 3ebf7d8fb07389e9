-- ===== src/Header/Write.antt =====
-- header.go: `WriteTo` and `WriteHeaders`. The io.Writer is a parameter, and so is sort.Sort, which
-- promises an order and not what it does with equal offsets.
use go_rpm.Io.{Op, Result, ok, pure, fail, ◌>>=◌, ◌>>◌, WriteReply}
use go_rpm.Io.Binary.{put_be}
use go_rpm.Tag.{Tag, Error, err_no_tags, err_invalid_offset, err_data_len, tag_size}
use go_rpm.Tag.Data.{send, write_data, write_header}
use go_rpm.Header.{u32, rpm_header_magic, RpmHeaderPre, Header, set_region, Bytes}
use go_rpm.Base.{
  [], ◌∷◌, Bytes, ℕ, List, ◌++◌, Option, if◌then◌else◌, some, none, ◌+◌, ltb, ◌==◌, ◌-◌, take, ◌*◌,
  zeros, length,
}

-- binary.Write of a rpmHeaderPre.
abbrev pub put_pre : RpmHeaderPre → Bytes
put_pre pre = pre.magic ++ (put_be 4 pre.count ++ put_be 4 pre.length)

-- A header and the writer that it is written to.
pub record Output (S : Type 0) : Type 0 where
  pub hdr : Header
  pub w : S

module _ {S : Type 0} where
  abbrev pub put_writer : {A : Type 0} → Output S → Result Error A × S → Result Error A × Output S
  put_writer s (r, w) = (r, record s { w = w })

  abbrev pub on_writer : {A : Type 0} → Op S Error A → Op (Output S) Error A
  on_writer m s = put_writer s (m s.w)

  abbrev pub set_tags : List Tag → Op (Output S) Error (Unit {0})
  set_tags tags s = (ok tt, record s { hdr = record s.hdr { tags = tags } })

module _ {S : Type 0} (io_write : Bytes → S → WriteReply S) where
  -- `zb[:n]`, `zb` being eight zeros; `cur` is the count of the bytes written so far.
  unfoldable pub pad : ℕ → ℕ → Op S Error ℕ
  pad off cur =
      if ltb off cur
      then fail err_invalid_offset
      else if ltb 8 (off - cur)
      then fail err_invalid_offset
      else send io_write (take (off - cur) (zeros 8))

  unfoldable pub write_region_header : Option Tag → Op S Error (Unit {0})
  write_region_header none = pure tt
  write_region_header (some t) = write_header io_write t.head

  unfoldable pub write_region_data : Option Tag → Op S Error ℕ
  write_region_data none = pure 0
  write_region_data (some t) = write_data io_write t.body

  unfoldable pub write_tag_headers : List Tag → Op S Error (Unit {0})
  write_tag_headers [] = pure tt
  write_tag_headers (t ∷ ts) = write_header io_write t.head >> write_tag_headers ts

  -- The loop over the tags' data.
  unfoldable pub write_tags : List Tag → ℕ → Op S Error ℕ
  write_tags [] cur = pure cur
  write_tags (t ∷ ts) cur = do
    n1 ← pad t.head.offset cur
    n2 ← write_data io_write t.body
    write_tags ts (cur + (n1 + n2))

  -- Up to the region tag's header, and what comes behind `sort.Sort`.
  unfoldable pub write_front : Option Tag → RpmHeaderPre → Op S Error (Unit {0})
  write_front region pre = send io_write (put_pre pre) >> write_region_header region

  unfoldable pub write_back : List Tag → Option Tag → RpmHeaderPre → Op S Error ℕ
  write_back tags region pre = do
    write_tag_headers tags
    cur ← write_tags tags 0
    n ← write_region_data region
    if n + cur == pre.length
        then pure (u32 (u32 (pre.count * tag_size) + pre.length + 16))
        else fail err_data_len

  module _ (sort : List Tag → List Tag) where
    unfoldable pub write_set : Header × RpmHeaderPre → Op (Output S) Error ℕ
    write_set (hdr, pre) s =
        (do
          on_writer (write_front hdr.region pre)
          set_tags (sort hdr.tags)
          on_writer (write_back (sort hdr.tags) hdr.region pre))
          (record s { hdr = hdr })

    unfoldable pub write_checked : List Tag → Op (Output S) Error ℕ
    write_checked [] s = fail err_no_tags s
    write_checked (t ∷ ts) s =
        write_set
          (set_region
            (record { magic = rpm_header_magic; count = u32 (length (t ∷ ts)); length = s.hdr.off })
            s.hdr)
          s

    -- `WriteTo`: the header's region is set and its tags are sorted, where the call comes so far.
    unfoldable pub write_to : Op (Output S) Error ℕ
    unfolding write_checked write_set
    write_to s = write_checked s.hdr.tags s
