-- ===== src/Tag/Accepted.antt =====
-- What `make` and `ReadFrom` accept, of any stream.
use go_rpm.Base.{
  ℕ, Bytes, List, length, drop, ltb, ◌==◌, ◌≡◌, ◌≤◌, ◌-◌, ◌*◌, ◌⊎◌, refl, arith, Bool, Bool-cases,
  inl, inr, if◌then◌else◌, none, some, Option, Option-cases, suc, zero, [], ◌∷◌, ◌∙◌, ap, ◌||◌,
  length-take, length-replicate, drop_all, true, false, sym,
}
use go_rpm.Io.{Result, Op, ok, err, pure, ◌>>=◌, IoError, Stream, read_full}
use go_rpm.Io.Ensures.{Ensures, Ensures-bind, Ensures-weaken, Reads, Reads-none, read_full-Reads}
use go_rpm.Tag.{
  TagHeader, TagData, tag_bytes, tag_string, tag_uint16, tag_uint32, tag_uint64, unset, Error,
  char_type, int8_type, int16_type, int32_type, int64_type, string_type, bin_type,
  string_array_type, i18n_string_type,
}
use go_rpm.Tag.Read.{
  make, checked, lift_io, read_all, read_from, cut, cut_strings, strings_read, get_all, keep_string,
  io_reply, read_strings,
}
use go_rpm.Tag.ReadBack.{IsAhead}

-- The data are of the type and the count that the tag header tells.
abbrev pub IsCounted : TagHeader → TagData → Type 0
IsCounted h (tag_bytes b n) =
    ((h.type ≡ bin_type) ⊎ ((h.type ≡ char_type) ⊎ (h.type ≡ int8_type))) × (h.count ≡ length b)
IsCounted h (tag_string vs n) =
    ((h.type ≡ string_type) ⊎ ((h.type ≡ i18n_string_type) ⊎ (h.type ≡ string_array_type)))
    × (h.count ≡ length vs)
IsCounted h (tag_uint16 vs) = (h.type ≡ int16_type) × (h.count ≡ length vs)
IsCounted h (tag_uint32 vs) = (h.type ≡ int32_type) × (h.count ≡ length vs)
IsCounted h (tag_uint64 vs) = (h.type ≡ int64_type) × (h.count ≡ length vs)
IsCounted h unset = ⊥

-- So are those that `make` prepares: bytes are counted by what is to be read.
abbrev pub IsMade : TagHeader → TagData → Type 0
IsMade h (tag_bytes b n) =
    ((h.type ≡ bin_type) ⊎ ((h.type ≡ char_type) ⊎ (h.type ≡ int8_type))) × (h.count ≡ n) × (b ≡ [])
IsMade h d = IsCounted h d

abbrev pub Makes : TagHeader → Result Error TagData → Type 0
Makes h (ok d) = IsMade h d
Makes h (err e) = Unit {0}

checked-Makes : (h : TagHeader) (fits : Bool) (d : TagData) → IsMade h d → Makes h (checked fits d)
checked-Makes h true d p = p
checked-Makes h false d p = tt

Makes-if :
    (h : TagHeader) (t : Bool) (x y : Result Error TagData)
    → (t ≡ true → Makes h x)
    → Makes h y
    → Makes h (if t then x else y)
Makes-if h true x y f g = f refl
Makes-if h false x y f g = g

pub make-Makes : (h : TagHeader) (a b : ℕ) → Makes h (make h a b)
unfolding make
make-Makes h a b =
    Makes-if h (h.type == int16_type) _ _
      (λ e. checked-Makes h _ _ (ground arith, sym (length-replicate h.count 0)))
      (Makes-if h (h.type == int32_type) _ _
        (λ e. checked-Makes h _ _ (ground arith, sym (length-replicate h.count 0)))
        (Makes-if h (h.type == int64_type) _ _
          (λ e. checked-Makes h _ _ (ground arith, sym (length-replicate h.count 0)))
          (Makes-if h
            (h.type == string_type || h.type == i18n_string_type || h.type == string_array_type) _ _
            (λ e. checked-Makes h _ _ (ground arith, sym (length-replicate {A = Bytes} h.count [])))
            (Makes-if h (h.type == bin_type || h.type == char_type || h.type == int8_type) _ _
              (λ e. checked-Makes h _ _ (ground arith, refl, refl)) tt))))

-- One string for each slot.
abbrev Fills : List Bytes → Option (List Bytes × Bytes) → Type 0
Fills slots none = Unit {0}
Fills slots (some (vs, rest)) = length slots ≡ length vs

keep_string-Fills :
    (slot v : Bytes) (slots : List Bytes) (q : Option (List Bytes × Bytes))
    → Fills slots q
    → Fills (slot ∷ slots) (keep_string v q)
keep_string-Fills slot v slots none h = tt
keep_string-Fills slot v slots (some (vs, rest)) h = ap suc h

cut_strings-Fills : (slots : List Bytes) (b : Bytes) → Fills slots (cut_strings slots b)
unfolding cut_strings
cut_strings-Fills [] b = refl
cut_strings-Fills (slot ∷ slots) b = elim (Option-cases (cut b)) [
  | inl e ↦ rw (e, cut_strings) tt
  | inr ((v, rest), e) ↦
      rw (e, cut_strings)
        (keep_string-Fills slot v slots (cut_strings slots rest) (cut_strings-Fills slots rest))
]

length-get_all : (k n : ℕ) (b : Bytes) → length (get_all k n b) ≡ n
length-get_all k zero b = refl
length-get_all k (suc n) b = ap suc (length-get_all k n (drop k b))

ltb_not : (a b : ℕ) → ltb a b ≡ false → b ≤ a
ltb_not a b h = ground arith

-- A call of package io keeps what it ensures.
io_reply-Ensures :
    {S A : Type 0} (P : A → S → Type 0) (r : Result IoError A × S)
    → Ensures P r
    → Ensures P (io_reply r)
io_reply-Ensures P (ok a, s) h = h
io_reply-Ensures P (err e, s) h = tt

pub lift_io-Ensures :
    {S A : Type 0} (P : A → S → Type 0) (m : Op S IoError A) (s : S)
    → Ensures P (m s)
    → Ensures P (lift_io m s)
lift_io-Ensures P m s h = io_reply-Ensures P (m s) h

-- `ReadFrom` says how many bytes it read, and fills what `make` has prepared.
abbrev pub Fetches : TagHeader → Stream → ℕ × TagData → Stream → Type 0
Fetches h r (w, d) r' = Reads w r r' × IsCounted h d

read_all-Reads : (r : Stream) → Ensures (λ x r'. Reads (length x) r r') (read_all r)
unfolding read_all
read_all-Reads r = elim (Option-cases r.fault) [
  | inl sound ↦ rw sound (record {
    there = omega arith;
    left = sym (drop_all r.input (length r.input) (omega arith));
    same = refl;
  })
  | inr (k, faulty) ↦ rw faulty tt
]

module _ {ahead : ℕ → ℕ → ℕ} (law : IsAhead ahead) where
  strings_read-Fetches :
      (h : TagHeader) (slots : List Bytes) (q : Option (List Bytes × Bytes)) (r : Stream)
      → IsMade h (tag_string slots 0)
      → Fills slots q
      → Ensures (Fetches h r) (strings_read ahead q r)
  unfolding strings_read
  strings_read-Fetches h slots none r m f = tt
  strings_read-Fetches h slots (some (vs, rest)) r m f = (
    record { there = law.within _ (length r.input - length rest); left = refl; same = refl },
    (m.0, m.1 ∙ f),
  )

  -- The integers of a tag.
  ints-Fetches :
      (h : TagHeader) (n k : ℕ) (make_data : Bytes → TagData) (r : Stream)
      → ((x : Bytes) → IsCounted h (make_data x))
      → Ensures (Fetches h r) ((lift_io (read_full (n * k)) >>= λ x. pure (n * k, make_data x)) r)
  ints-Fetches h n k make_data r c =
      Ensures-bind (λ _ r'. Reads (n * k) r r') (Fetches h r) (lift_io (read_full (n * k)) r) _
        (lift_io-Ensures (λ _ r'. Reads (n * k) r r') (read_full (n * k)) r
          (Ensures-weaken _ _ (read_full (n * k) r) (read_full-Reads (n * k) r) (λ _ _ p. p.0)))
        λ x r' p. (p, c x)

  pub read_from-Fetches :
      (h : TagHeader) (d : TagData) (r : Stream)
      → IsMade h d
      → Ensures (Fetches h r) (read_from ahead d r)
  unfolding read_from read_strings
  read_from-Fetches h (tag_bytes b n) r (t, c, e) =
      Ensures-bind (λ x r'. Reads (length x) r r') (Fetches h r) (lift_io read_all r) _
        (lift_io-Ensures _ read_all r (read_all-Reads r))
        λ x r' p. elim (Bool-cases (ltb (length x) n)) [
          | inl short ↦ rw short tt
          | inr enough ↦
              rw enough
                ((p, (t, rw e (omega (arith, c, ltb_not (length x) n enough, length-take n x)))))
        ]
  read_from-Fetches h (tag_string [] n) r m = (Reads-none r, m)
  read_from-Fetches h (tag_string (v ∷ vs) n) r m =
      strings_read-Fetches h (v ∷ vs) (cut_strings (v ∷ vs) r.input) r m
        (cut_strings-Fills (v ∷ vs) r.input)
  read_from-Fetches h (tag_uint16 vs) r (t, c) =
      ints-Fetches h (length vs) 2 _ r (λ x. (t, c ∙ sym (length-get_all 2 (length vs) x)))
  read_from-Fetches h (tag_uint32 vs) r (t, c) =
      ints-Fetches h (length vs) 4 _ r (λ x. (t, c ∙ sym (length-get_all 4 (length vs) x)))
  read_from-Fetches h (tag_uint64 vs) r (t, c) =
      ints-Fetches h (length vs) 8 _ r (λ x. (t, c ∙ sym (length-get_all 8 (length vs) x)))
  read_from-Fetches h unset r m = absurd m
