-- ===== src/Io/Defs.antt =====
-- Results, operations on a state, byte streams that are read, and io.Writer as a parameter.
use go_rpm.Base.{
  ℕ, ◌≤◌, ◌≡◌, Option, none, some, ◌++◌, Bytes, length, take, drop, leb, ◌==◌, if◌then◌else◌,
}

-- Go's `(value, error)`: the value only where the error is nil.
pub data Result (E A : Type 0) : Type 0 where
  ok : A → Result E A
  err : E → Result E A

-- A method on a receiver of type `S`: its result, and the receiver afterwards.
abbrev pub Op : Type 0 → Type 0 → Type 0 → Type 0
Op S E A = S → Result E A × S

-- What follows a call: skipped where the call failed.
abbrev pub after : {S E A B : Type 0} → (A → Op S E B) → Result E A × S → Result E B × S
after f (ok a, s) = f a s
after f (err e, s) = (err e, s)

infixl 5 ◌>>=◌ ◌>>◌
abbrev pub ◌>>=◌ : {S E A B : Type 0} → Op S E A → (A → Op S E B) → Op S E B
◌>>=◌ m f s = after f (m s)

abbrev pub ◌>>◌ : {S E A B : Type 0} → Op S E A → Op S E B → Op S E B
m >> k = m >>= λ _. k

abbrev pub pure : {S E A : Type 0} → A → Op S E A
pure a s = (ok a, s)

abbrev pub fail : {S E A : Type 0} → E → Op S E A
fail e s = (err e, s)

-- io.EOF, io.ErrUnexpectedEOF, io.ErrShortWrite, and an error of the underlying reader or writer.
pub data IoError : Type 0 where
  eof unexpected_eof short_write : IoError
  failed : ℕ → IoError

-- An io.Reader that is read in sequence: the bytes still to come, and what it reports behind
-- them: io.EOF, or an error of its own.
pub record Stream : Type 0 where
  pub input : Bytes
  pub fault : Option ℕ

-- io.ReadFull of `n` bytes, which binary.Read is made of too.
unfoldable pub read_full : ℕ → Op Stream IoError Bytes
read_full n r =
    let rest : Stream = record r { input = drop n r.input } in
    if leb n (length r.input) then (ok (take n r.input), rest) else elim r.fault [
      | some k ↦ (err (failed k), rest)
      | none ↦ (err (if length r.input == 0 then eof else unexpected_eof), rest)
    ]

-- io.Copy(ioutil.Discard, lr) with `lr.N = n`: the number of bytes copied.
unfoldable pub discard : ℕ → Op Stream IoError ℕ
discard n r =
    let rest : Stream = record r { input = drop n r.input } in
    if leb n (length r.input)
    then (ok n, rest)
    else elim r.fault [ some k ↦ (err (failed k), rest) | none ↦ (ok (length r.input), rest) ]

-- What `Write` returns: the writer afterwards, the count and the error.
abbrev pub WriteReply : Type 0 → Type 0
WriteReply S = S × ℕ × Option IoError

-- The documented contract of io.Writer, `content` being all the bytes that the writer has taken:
-- it takes the first `n` bytes of its argument, at most all, and fewer only with an error.
pub record IsWriter {S : Type 0} (write : Bytes → S → WriteReply S) (content : S → Bytes)
    : Type 0 where
  pub takes : (b : Bytes) (s : S) → content (write b s).0 ≡ content s ++ take (write b s).1 b
  pub count_le : (b : Bytes) (s : S) → (write b s).1 ≤ length b
  pub count_full : (b : Bytes) (s : S) → (write b s).2 ≡ none → (write b s).1 ≡ length b

-- A writer that never fails, as bytes.Buffer documents of itself.
abbrev pub NeverFails : {S : Type 0} → (Bytes → S → WriteReply S) → Type 0
NeverFails {S} write = (b : Bytes) (s : S) → (write b s).2 ≡ none

-- bytes.Buffer as a writer.
abbrev pub buffer_write : Bytes → Bytes → WriteReply Bytes
buffer_write b s = (s ++ b, length b, none)
