-- ===== src/Lead/RoundTrip.antt =====
-- A lead that was written, read back, and what is refused.
use go_rpm.Tag.{io, err_invalid_lead}
use go_rpm.Base.{
  zero, suc, ℕ, Bytes, zeros, Option, ◌≡◌, length, ◌<◌, ◌+◌, ◌^◌, ◌++◌, [], copy, drop, arith,
  length-append, refl, length-take, take-append_length, ◌∷◌, bytes_eq, sym, true, bytes_eq_refl,
  ◌-◌, none, take, ◌≢◌, ◌==◌, false, length-replicate, bytes_eq_ne, if◌then◌else◌, ap,
}
use go_rpm.Io.{err, ok, WriteReply, IsWriter, NeverFails, eof, unexpected_eof, after, pure}
use go_rpm.Reader.Data.{reader}
use go_rpm.Lead.{
  read_lead, new_lead, shown_name, Lead, get_lead, put_lead, put_be, lead_magic, write_lead,
}
use go_rpm.Io.Binary.{put_be, uint_be-put_be_2, uint_be}
use go_rpm.Io.Streams.{read_full-append, read_full_short}
use go_rpm.Tag.ReadBack.{HasNoNul, drop-zeros}
use go_rpm.Io.Emits.{Emits-of_Succeeds}
use go_rpm.Tag.Written.{send-Emits, send-Succeeds}

-- A lead as it can be in memory, with the magic number that `NewLead` sets.
pub record IsLead (l : Lead) : Type 0 where
  pub magic : l.magic ≡ lead_magic
  pub bytes : (l.major < 2 ^ 8) × (l.minor < 2 ^ 8)
  pub words : (l.type < 2 ^ 16) × (l.arch_num < 2 ^ 16)
  pub name : length l.name ≡ 66
  pub more_words : (l.os_num < 2 ^ 16) × (l.signature_type < 2 ^ 16)

length-drop : (n : ℕ) (b : Bytes) → length (drop n b) ≡ length b - n
length-drop zero b = omega arith
length-drop (suc n) [] = omega arith
length-drop (suc n) (x ∷ b) = omega (arith, length-drop n b)

length-copy : (dst src : Bytes) → length (copy dst src) ≡ length dst
length-copy dst src = rw (length-append, length-take, length-drop) (omega arith)

drop-append_more : (xs ys : Bytes) (n k : ℕ) → n ≡ length xs + k → drop n (xs ++ ys) ≡ drop k ys
drop-append_more [] ys n k e = rw e (let plus : 0 + k ≡ k = omega arith in rw plus)
drop-append_more (x ∷ xs) ys zero k e = absurd (omega arith)
drop-append_more (x ∷ xs) ys (suc n) k e = drop-append_more xs ys n k (omega arith)

uint_be-put_be_1 : (n : ℕ) → n < 2 ^ 8 → uint_be (put_be 1 n) ≡ n
uint_be-put_be_1 n h = omega arith

pub new_lead-IsLead : (name : Bytes) (lt : ℕ) → lt < 2 ^ 16 → IsLead (new_lead name lt)
unfolding new_lead
new_lead-IsLead name lt h = record {
  magic = refl;
  bytes = omega arith;
  words = omega arith;
  name = length-copy (zeros 66) name;
  more_words = omega arith;
}

get_lead-put_lead : (l : Lead) → IsLead l → get_lead (put_lead l) ≡ l
unfolding get_lead
get_lead-put_lead l h =
    let tail : Bytes = put_be 2 l.os_num ++ (put_be 2 l.signature_type ++ zeros 16) in
    rw (
      h.magic,
      uint_be-put_be_1 l.major h.bytes.0,
      uint_be-put_be_1 l.minor h.bytes.1,
      uint_be-put_be_2 l.type h.words.0,
      uint_be-put_be_2 l.arch_num h.words.1,
      take-append_length l.name tail 66 (sym h.name),
      drop-append_more l.name tail 66 0 (omega (arith, h.name)),
      drop-append_more l.name tail 68 2 (omega (arith, h.name)),
      uint_be-put_be_2 l.os_num h.more_words.0,
      uint_be-put_be_2 l.signature_type h.more_words.1,
    )

-- A lead is 96 bytes.
pub length-put_lead : (l : Lead) → IsLead l → length (put_lead l) ≡ 96
length-put_lead l h =
    let tail : Bytes = put_be 2 l.os_num ++ (put_be 2 l.signature_type ++ zeros 16) in
    rw (h.magic, length-append l.name tail, h.name)

pub read_lead-put_lead :
    (l : Lead) (o : ℕ) (rest : Bytes) (f : Option ℕ)
    → IsLead l
    → read_lead (reader o (put_lead l ++ rest) f) ≡ (ok l, reader (o + 96) rest f)
unfolding read_lead
read_lead-put_lead l o rest f h =
    let magic : bytes_eq l.magic lead_magic ≡ true = rw (h.magic) (bytes_eq_refl lead_magic) in
    rw (
      read_full-append 96 (put_lead l) rest f (sym (length-put_lead l h)),
      get_lead-put_lead l h,
      magic,
    )

-- The name that a new lead shows: the first 66 bytes of the name, where it has no NUL.
shown_name-zeros : (n : ℕ) → shown_name (zeros n) ≡ []
unfolding shown_name
shown_name-zeros zero = refl
shown_name-zeros (suc n) = refl

shown_name-append_zeros : (v : Bytes) (n : ℕ) → HasNoNul v → shown_name (v ++ zeros n) ≡ v
unfolding shown_name
shown_name-append_zeros [] n h = shown_name-zeros n
shown_name-append_zeros (b ∷ v) n (p, h) =
    let some_byte : (b == 0) ≡ false = ground arith in rw (some_byte, shown_name-append_zeros v n h)

HasNoNul-take : (n : ℕ) (v : Bytes) → HasNoNul v → HasNoNul (take n v)
HasNoNul-take zero v h = tt
HasNoNul-take (suc n) [] h = tt
HasNoNul-take (suc n) (b ∷ v) (p, h) = (p, HasNoNul-take n v h)

-- A name without NUL, cut to 66 bytes where it is longer, is the name that the new lead shows.
pub shown_name-new_lead :
    (name : Bytes) (lt : ℕ) → HasNoNul name → shown_name (new_lead name lt).name ≡ take 66 name
unfolding new_lead
shown_name-new_lead name lt h =
    rw (drop-zeros (length name) 66, length-replicate {A = ℕ} 66 0)
      (shown_name-append_zeros (take 66 name) (66 - length name) (HasNoNul-take 66 name h))

-- On an io.Writer that never fails, a new lead is written with no error, and `Reader.Lead` gives the
-- same lead back from what was written, and reads no more than that.
pub read_lead-write_lead :
    {S : Type 0} {io_write : Bytes → S → WriteReply S} {content : S → Bytes}
    (law : IsWriter io_write content) (never : NeverFails io_write) (name : Bytes) (lt : ℕ) (w : S)
    (o : ℕ) (rest : Bytes) (f : Option ℕ)
    → lt < 2 ^ 16
    → (w' : S) × (write_lead io_write (new_lead name lt) w ≡ (ok 96, w'))
      × (x : Bytes) × (content w' ≡ content w ++ x)
      × (read_lead (reader o (x ++ rest) f) ≡ (ok (new_lead name lt), reader (o + 96) rest f))
unfolding write_lead
read_lead-write_lead {io_write = io_write} {content = content} law never name lt w o rest f h =
    let b : Bytes = put_lead (new_lead name lt) in
    let (n, w', ran, wrote, _) =
      Emits-of_Succeeds content b w _ _ (send-Emits law b w) (send-Succeeds law never b w) in
    (
      w',
      ap (after (λ _. pure 96)) ran,
      b,
      wrote,
      read_lead-put_lead (new_lead name lt) o rest f (new_lead-IsLead name lt h),
    )

-- Bytes that do not begin with the magic number of a lead are refused.
pub read_lead_bad_magic :
    (b : Bytes) (o : ℕ) (rest : Bytes) (f : Option ℕ)
    → length b ≡ 96
    → take 4 b ≢ lead_magic
    → read_lead (reader o (b ++ rest) f) ≡ (err err_invalid_lead, reader o rest f)
unfolding read_lead get_lead
read_lead_bad_magic b o rest f h ne =
    rw (read_full-append 96 b rest f (sym h), bytes_eq_ne (take 4 b) lead_magic ne)

-- A stream of fewer than 96 bytes is refused: io.EOF where it is empty, else io.ErrUnexpectedEOF.
pub read_lead_truncated :
    (b : Bytes) (o : ℕ)
    → length b < 96
    → read_lead (reader o b none)
      ≡ (err (io (if length b == 0 then eof else unexpected_eof)), reader o [] none)
unfolding read_lead
read_lead_truncated b o h = rw (read_full_short 96 b h)
