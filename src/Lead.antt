-- ===== src/Lead.antt =====
-- lead.go and `Reader.Lead` of read.go: the lead of an RPM file.
pub mod RoundTrip
pub mod Package
mod Tests
use go_rpm.Tag.{Error, err_invalid_lead}
use go_rpm.Io.{◌>>◌, ◌>>=◌, err, Op, WriteReply, read_full, pure}
use go_rpm.Reader.{on_stream, advance, Reader, check}
use go_rpm.Base.{Bytes, ℕ, ◌∷◌, ◌++◌, take, copy, zeros, if◌then◌else◌, [], ◌==◌, drop, bytes_eq}
use go_rpm.Io.Binary.{put_be, uint_be}
use go_rpm.Tag.Data.{send}
use go_rpm.Tag.Read.{lift_io}

-- `leadMagic`, LeadBinary and LeadSource.
abbrev pub lead_magic : Bytes
lead_magic = 0xed ∷ 0xab ∷ 0xee ∷ 0xdb ∷ []

abbrev pub lead_binary : ℕ
lead_binary = 0

abbrev pub lead_source : ℕ
lead_source = 1

-- `Lead`, less its padding: arrays are byte lists of their length.
pub record Lead : Type 0 where
  pub magic : Bytes
  pub major : ℕ
  pub minor : ℕ
  pub type : ℕ
  pub arch_num : ℕ
  pub name : Bytes
  pub os_num : ℕ
  pub signature_type : ℕ

unfoldable pub new_lead : Bytes → ℕ → Lead
new_lead name lt = record {
  magic = lead_magic;
  major = 3;
  minor = 0;
  type = lt;
  arch_num = 1;
  name = copy (zeros 66) name;
  os_num = 1;
  signature_type = 5;
}

-- The name that `leadName.MarshalJSON` shows: up to the first NUL.
unfoldable pub shown_name : Bytes → Bytes
shown_name [] = []
shown_name (b ∷ bs) = let rest = shown_name bs in if b == 0 then [] else b ∷ rest

-- What binary.Write makes of a `Lead`; the blank field is written as zeros.
abbrev pub put_lead : Lead → Bytes
put_lead l =
    l.magic
    ++ (put_be 1 l.major
        ++ (put_be 1 l.minor
            ++ (put_be 2 l.type
                ++ (put_be 2 l.arch_num
                    ++ (l.name
                        ++ (put_be 2 l.os_num ++ (put_be 2 l.signature_type ++ zeros 16)))))))

unfoldable pub get_lead : Bytes → Lead
get_lead b = record {
  magic = take 4 b;
  major = uint_be (take 1 (drop 4 b));
  minor = uint_be (take 1 (drop 5 b));
  type = uint_be (take 2 (drop 6 b));
  arch_num = uint_be (take 2 (drop 8 b));
  name = take 66 (drop 10 b);
  os_num = uint_be (take 2 (drop 76 b));
  signature_type = uint_be (take 2 (drop 78 b));
}

module _ {S : Type 0} (io_write : Bytes → S → WriteReply S) where
  unfoldable pub write_lead : Lead → Op S Error ℕ
  write_lead l = do send io_write (put_lead l); pure 96

-- `Reader.Lead`.
unfoldable pub read_lead : Op Reader Error Lead
read_lead = do
  b ← on_stream (lift_io (read_full 96))
  check (bytes_eq (get_lead b).magic lead_magic) err_invalid_lead
  advance 96
  pure (get_lead b)
