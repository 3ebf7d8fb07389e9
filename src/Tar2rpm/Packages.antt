-- ===== src/Tar2rpm/Packages.antt =====
-- tar2rpm.go: the package that `main` writes. The buffered standard output is any io.Writer; sort.Sort
-- and the hex digits of a SHA-256 sum are parameters.
use go_rpm.Base.{ℕ, Bytes, List, codes, [], ◌∷◌}
use go_rpm.Io.{Op, WriteReply, buffer_write, after, ◌>>◌}
use go_rpm.Tag.{Error, Tag}
use go_rpm.Header.{Header, add_string, new_signature_header}
use go_rpm.Tar2rpm.{Package}
use go_rpm.Header.Write.{write_to}
use go_rpm.Header.Many.{write_headers}
use go_rpm.Text.{join}
use go_rpm.Tag.Numbers.{rpmtag_sha256header}
use go_rpm.Lead.{write_lead, new_lead, lead_binary}
use go_rpm.Tag.Data.{send_buffer}

-- The name of the lead.
abbrev pub lead_name : Package → Bytes
lead_name c = join (codes "-") (c.name ∷ c.version ∷ c.release ∷ [])

module _ (digest : Bytes → Bytes) where
  -- The signature header, with the digest of the payload header's bytes.
  unfoldable pub signature_of : Bytes → Header
  signature_of pb = (add_string rpmtag_sha256header (digest pb) new_signature_header).1

  module _ {S : Type 0} (io_write : Bytes → S → WriteReply S) (sort : List Tag → List Tag) where
    -- `WriteTo` of a header, which is not used afterwards.
    unfoldable pub header_writer : Header → Op S Error ℕ
    header_writer hdr w =
        let (r, o) = write_to io_write sort (record { hdr = hdr; w = w }) in (r, o.w)

    -- `main`, behind the payload header's bytes. The bufio.Writer before standard output, which is flushed
    -- last, is part of the io.Writer here.
    unfoldable pub write_parts : Package → Bytes → Bytes → Op S Error ℕ
    write_parts c pb payload = do
      write_headers io_write (
          write_lead io_write (new_lead (lead_name c) lead_binary)
          ∷ header_writer (signature_of pb)
          ∷ send_buffer io_write pb
          ∷ [])
      send_buffer io_write payload

    -- `main`, from the payload header and the payload on.
    unfoldable pub write_package : Package → Header → Bytes → Op S Error ℕ
    unfolding write_parts
    write_package c hdr payload w =
        let (r, pb) = write_to buffer_write sort (record { hdr = hdr; w = [] }) in
        after (λ _. write_parts c pb.w payload) (r, w)
