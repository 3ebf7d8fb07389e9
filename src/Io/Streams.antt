-- ===== src/Io/Streams.antt =====
-- Reading what stands at the front of a stream.
use go_rpm.Base.{
  ℕ, ◌<◌, ◌≡◌, arith, ◌++◌, true, none, Option, Bytes, length, length-append, leb, ◌==◌,
  if◌then◌else◌, take-append_length, drop-append_length, [], false, drop_all,
}
use go_rpm.Io.Defs.{ok, Stream, read_full, discard, err, eof, unexpected_eof}

abbrev pub stream : Bytes → Option ℕ → Stream
stream x f = record { input = x; fault = f }

pub front_fits : (n : ℕ) (b rest : Bytes) → n ≡ length b → leb n (length (b ++ rest)) ≡ true
front_fits n b rest h = rw length-append (ground arith)

pub read_full-append :
    (n : ℕ) (b rest : Bytes) (f : Option ℕ)
    → n ≡ length b
    → read_full n (stream (b ++ rest) f) ≡ (ok b, stream rest f)
unfolding read_full
read_full-append n b rest f h =
    rw (front_fits n b rest h, take-append_length b rest n h, drop-append_length b rest n h)

pub discard-append :
    (n : ℕ) (b rest : Bytes) (f : Option ℕ)
    → n ≡ length b
    → discard n (stream (b ++ rest) f) ≡ (ok n, stream rest f)
unfolding discard
discard-append n b rest f h = rw (front_fits n b rest h, drop-append_length b rest n h)

pub read_full_short :
    (n : ℕ) (b : Bytes)
    → length b < n
    → read_full n (stream b none)
      ≡ (err (if length b == 0 then eof else unexpected_eof), stream [] none)
unfolding read_full
read_full_short n b h =
    let short : leb n (length b) ≡ false = ground arith in rw (short, drop_all b n (omega arith))
