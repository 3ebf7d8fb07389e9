-- ===== src/Io/Emits.antt =====
-- What an operation has written: all of `b` where it succeeds, with `Q` of its value and the new
-- state, and a beginning of `b` where it fails.
use go_rpm.Base.{◌≡◌, refl, sym, ap, ◌∙◌, ◌++◌, append_assoc, Bytes}
use go_rpm.Io.Defs.{Result, ok, err, Op, after, pure}

abbrev pub Emits :
    {S E A : Type 0} → (S → Bytes) → Bytes → S → (A → S → Type 0) → Result E A × S → Type 0
Emits out b s Q (ok a, s') = (out s' ≡ out s ++ b) × Q a s'
Emits out b s Q (err _, s') = (x : Bytes) × (y : Bytes) × (b ≡ x ++ y) × (out s' ≡ out s ++ x)

module _ {S E B : Type 0} (out : S → Bytes) where
  Emits-behind :
      (b c : Bytes) (s s' : S) (Q : B → S → Type 0) (r : Result E B × S)
      → out s' ≡ out s ++ b
      → Emits out c s' Q r
      → Emits out (b ++ c) s Q r
  Emits-behind b c s s' Q (ok _, _) h (e, q) =
      (e ∙ ap (λ (t : Bytes). t ++ c) h ∙ append_assoc (out s) b c, q)
  Emits-behind b c s s' Q (err _, _) h (x, y, e, o) = (
    b ++ x,
    y,
    ap (λ (t : Bytes). b ++ t) e ∙ sym (append_assoc b x y),
    o ∙ ap (λ (t : Bytes). t ++ x) h ∙ append_assoc (out s) b x,
  )

module _ {S E A : Type 0} (out : S → Bytes) where
  pub Emits-weaken :
      (b : Bytes) (s : S) (P Q : A → S → Type 0) (r : Result E A × S)
      → Emits out b s P r
      → ((a : A) (s' : S) → P a s' → Q a s')
      → Emits out b s Q r
  Emits-weaken b s P Q (ok a, s') (h, p) k = (h, k a s' p)
  Emits-weaken b s P Q (err e, s') h k = h

module _ {S E A B : Type 0} (out : S → Bytes) where
  -- One operation behind another.
  pub Emits-bind :
      (b c : Bytes) (s : S) (P : A → S → Type 0) (Q : B → S → Type 0) (r : Result E A × S)
      (f : A → Op S E B)
      → Emits out b s P r
      → ((a : A) (s' : S) → P a s' → Emits out c s' Q (f a s'))
      → Emits out (b ++ c) s Q (after f r)
  Emits-bind b c s P Q (ok a, s') f (h, p) k = Emits-behind out b c s s' Q (f a s') h (k a s' p)
  Emits-bind b c s P Q (err e, s') f (x, y, p, o) k =
      (x, y ++ c, ap (λ (t : Bytes). t ++ c) p ∙ append_assoc x y c, o)

  -- A call whose value is put through a function that writes nothing.
  pub Emits-map :
      (b : Bytes) (s : S) (P : A → S → Type 0) (Q : B → S → Type 0) (g : A → B) (r : Result E A × S)
      → Emits out b s P r
      → ((a : A) (s' : S) → P a s' → Q (g a) s')
      → Emits out b s Q (after (λ a. pure (g a)) r)
  Emits-map b s P Q g (ok a, s') (h, p) k = (h, k a s' p)
  Emits-map b s P Q g (err e, s') h k = h

-- The operation returned with no error.
abbrev pub Succeeds : {S E A : Type 0} → Result E A × S → Type 0
Succeeds (ok _, _) = Unit {0}
Succeeds (err _, _) = ⊥

module _ {S E A B : Type 0} where
  pub Succeeds-bind :
      (r : Result E A × S) (f : A → Op S E B)
      → Succeeds r
      → ((a : A) (s' : S) → Succeeds (f a s'))
      → Succeeds (after f r)
  Succeeds-bind (ok a, s') f h k = k a s'
  Succeeds-bind (err e, s') f h k = h

module _ {S E A : Type 0} (out : S → Bytes) where
  -- A successful run, with all that it wrote.
  pub Emits-of_Succeeds :
      (b : Bytes) (s : S) (Q : A → S → Type 0) (r : Result E A × S)
      → Emits out b s Q r
      → Succeeds r
      → (a : A) × (s' : S) × (r ≡ (ok a, s')) × (out s' ≡ out s ++ b) × Q a s'
  Emits-of_Succeeds b s Q (ok a, s') (h, q) _ = (a, s', refl, h, q)
  Emits-of_Succeeds b s Q (err e, s') h k = absurd k

module _ {S E A B : Type 0} (out : S → Bytes) where
  -- A call followed by one that writes nothing and succeeds.
  pub Emits-pure :
      (b : Bytes) (s : S) (P : A → S → Type 0) (Q : B → S → Type 0) (r : Result E A × S)
      (f : A → Op S E B)
      → Emits out b s P r
      → ((a : A) (s' : S) → P a s' → (c : B) × (f a s' ≡ (ok c, s')) × Q c s')
      → Emits out b s Q (after f r)
  Emits-pure b s P Q (ok a, s') f (h, p) k = let (c, e, q) = k a s' p in rw e (h, q)
  Emits-pure b s P Q (err e, s') f h k = h

  -- What a call established serves the success of the next.
  pub Succeeds-bind_of :
      (b : Bytes) (s : S) (P : A → S → Type 0) (r : Result E A × S) (f : A → Op S E B)
      → Emits out b s P r
      → Succeeds r
      → ((a : A) (s' : S) → P a s' → Succeeds (f a s'))
      → Succeeds (after f r)
  Succeeds-bind_of b s P (ok a, s') f (h, p) _ k = k a s' p
  Succeeds-bind_of b s P (err e, s') f h k' k = k'
