-- ===== src/Header/Many.antt =====
-- header.go: `WriteHeaders`, over anything that has a `WriteTo`.
use go_rpm.Io.{◌>>=◌, WriteReply, IsWriter, Op, pure, NeverFails}
use go_rpm.Tag.Written.{send-Emits, send-Succeeds}
use go_rpm.Tag.{Error}
use go_rpm.Base.{
  length, ℕ, Bytes, List, ◌∷◌, ◌-◌, ◌≡◌, ◌%◌, ◌+◌, zeros, ◌++◌, arith, [], sym, append-nil, and_not,
  bit_and_seven, take, take-zeros, length-replicate, length-append,
}
use go_rpm.Io.Emits.{Emits, Emits-weaken, Emits-bind, Succeeds, Succeeds-bind}
use go_rpm.Tag.Data.{send}

module _ {S : Type 0} (io_write : Bytes → S → WriteReply S) where
  -- The loop, with `r` bytes counted so far.
  unfoldable pub write_headers_from : ℕ → List (Op S Error ℕ) → Op S Error ℕ
  write_headers_from r [] = pure r
  write_headers_from r (v ∷ vs) = do
    a ← send io_write (take (and_not (r + 0x7) 0x7 - r) (zeros 8))
    n ← v
    write_headers_from (r + a + n) vs

  unfoldable pub write_headers : List (Op S Error ℕ) → Op S Error ℕ
  unfolding write_headers_from
  write_headers vs = write_headers_from 0 vs

-- Encodings one behind the other, each from a multiple of eight bytes on.
abbrev pub eight_aligned : ℕ → List Bytes → Bytes
eight_aligned r [] = []
eight_aligned r (b ∷ bs) =
    let fill = (8 - r % 8) % 8 in zeros fill ++ (b ++ eight_aligned (r + fill + length b) bs)

module _ {S : Type 0} {io_write : Bytes → S → WriteReply S} {content : S → Bytes}
    (law : IsWriter io_write content) where
  -- Calls that write the encodings `bs` and return their lengths.
  abbrev pub EmitAll : List (Op S Error ℕ) → List Bytes → Type 0
  EmitAll [] [] = Unit {0}
  EmitAll [] (b ∷ bs) = ⊥
  EmitAll (v ∷ vs) [] = ⊥
  EmitAll (v ∷ vs) (b ∷ bs) =
      ((w : S) → Emits content b w (λ n _. n ≡ length b) (v w)) × EmitAll vs bs

  write_headers_from-Emits :
      (r : ℕ) (vs : List (Op S Error ℕ)) (bs : List Bytes) (w : S)
      → EmitAll vs bs
      → Emits content
          (eight_aligned r bs)
          w
          (λ n _. n ≡ r + length (eight_aligned r bs))
          (write_headers_from io_write r vs w)
  unfolding write_headers_from
  write_headers_from-Emits r [] [] w h = (sym (append-nil (content w)), omega arith)
  write_headers_from-Emits r [] (b ∷ bs) w h = absurd h
  write_headers_from-Emits r (v ∷ vs) [] w h = absurd h
  write_headers_from-Emits r (v ∷ vs) (b ∷ bs) w (p, h) =
      let fill : ℕ = (8 - r % 8) % 8 in
      let gap : and_not (r + 7) 7 - r ≡ fill = rw bit_and_seven (omega arith) in
      let cut : take (and_not (r + 7) 7 - r) (zeros 8) ≡ zeros fill =
        rw gap (take-zeros fill 8 (omega arith)) in
      rw cut (
        Emits-bind content (zeros fill) _ w _ _ _ _ (send-Emits law (zeros fill) w) λ a w1 e1.
          Emits-bind content b _ w1 _ _ _ _ (p w1) λ n w2 e2.
            let same : r + a + n ≡ r + fill + length b =
              omega (arith, length-replicate {A = ℕ} fill 0) in
            rw same (
              Emits-weaken content _ w2 _ _ _
                (write_headers_from-Emits (r + fill + length b) vs bs w2 h)
                λ m _ e. omega (
                  arith,
                  length-append (zeros fill) (b ++ eight_aligned (r + fill + length b) bs),
                  length-append b (eight_aligned (r + fill + length b) bs),
                  length-replicate {A = ℕ} fill 0,
                )))

  -- On every io.Writer, where each header's `WriteTo` writes its encoding and returns the length:
  -- `WriteHeaders` writes the encodings in sequence, each from a multiple of eight bytes on, or fails
  -- having written a beginning of that. Where it succeeds it returns the number of bytes.
  pub write_headers-Emits :
      (vs : List (Op S Error ℕ)) (bs : List Bytes) (w : S)
      → EmitAll vs bs
      → Emits content
          (eight_aligned 0 bs)
          w
          (λ n _. n ≡ length (eight_aligned 0 bs))
          (write_headers io_write vs w)
  unfolding write_headers
  write_headers-Emits vs bs w h =
      Emits-weaken content _ w _ _ _ (write_headers_from-Emits 0 vs bs w h) λ n _ e. omega arith

  -- Calls that succeed.
  abbrev pub SucceedAll : List (Op S Error ℕ) → Type 0
  SucceedAll [] = Unit {0}
  SucceedAll (v ∷ vs) = ((w : S) → Succeeds (v w)) × SucceedAll vs

  write_headers_from-Succeeds :
      NeverFails io_write
      → (r : ℕ) (vs : List (Op S Error ℕ)) (w : S) → SucceedAll vs
      → Succeeds (write_headers_from io_write r vs w)
  unfolding write_headers_from
  write_headers_from-Succeeds never r [] w h = tt
  write_headers_from-Succeeds never r (v ∷ vs) w (p, h) =
      Succeeds-bind _ _ (send-Succeeds law never _ w) λ a w1.
        Succeeds-bind _ _ (p w1) λ n w2. write_headers_from-Succeeds never (r + a + n) vs w2 h

  pub write_headers-Succeeds :
      NeverFails io_write
      → (vs : List (Op S Error ℕ)) (w : S) → SucceedAll vs
      → Succeeds (write_headers io_write vs w)
  unfolding write_headers
  write_headers-Succeeds never vs w h = write_headers_from-Succeeds never 0 vs w h
