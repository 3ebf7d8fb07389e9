-- ===== src/Reader/Accepted.antt =====
-- What the reader has read of any stream where it succeeds: the data of a tag.
use go_rpm.Base.{
  ℕ, length, take, leb, ltb, ◌==◌, ◌≡◌, ◌≤◌, ◌<◌, ◌+◌, ◌-◌, refl, arith, Bool, true, false,
  Bool-cases, inl, inr, ◌∙◌, ap, sym, subst, length-take,
}
use go_rpm.Io.{Result, Op, ok, err, ◌>>=◌, ◌>>◌, Stream, discard}
use go_rpm.Io.Ensures.{
  Ensures, Ensures-bind, Ensures-weaken, Reads, Reads-none, Reads-trans, discard-Reads, length-drop,
}
use go_rpm.Tag.{Tag, TagHeader, TagData, Error, err_offset_oob, err_unexpected_eof, err_bad_align}
use go_rpm.Tag.Read.{make, read_from, lift_io}
use go_rpm.Tag.ReadBack.{IsAhead}
use go_rpm.Tag.Accepted.{
  IsCounted, IsMade, Makes, make-Makes, Fetches, read_from-Fetches, lift_io-Ensures,
}
use go_rpm.Reader.{
  Reader, on_stream, stream_reply, check, of_result, limit, limit_reply, limited, skip_padding,
  read_data, tag_aligned, wrap_tag_reply, finish_data, wrap_reply,
}

-- The reader has read `n` bytes, and counted them.
pub record Steps (n : ℕ) (s s' : Reader) : Type 0 where
  pub stream : Reads n s.r s'.r
  pub counted : s'.off ≡ s.off + n

-- On the stream only, which is counted later.
abbrev pub Takes : ℕ → Reader → Reader → Type 0
Takes n s s' = Reads n s.r s'.r × (s'.off ≡ s.off)

pub on_stream-Ensures :
    {A : Type 0} (P : A → Stream → Type 0) (m : Op Stream Error A) (s : Reader)
    → Ensures P (m s.r)
    → Ensures (λ a s'. P a s'.r × (s'.off ≡ s.off)) (on_stream m s)
on_stream-Ensures P m s h = reply P s (m s.r) h
  where
    reply :
        {A : Type 0} (P : A → Stream → Type 0) (s : Reader) (r : Result Error A × Stream)
        → Ensures P r
        → Ensures (λ a s'. P a s'.r × (s'.off ≡ s.off)) (stream_reply s r)
    reply P s (ok a, r) h = (h, refl)
    reply P s (err e, r) h = tt

pub check-Ensures :
    (b : Bool) (e : Error) (s : Reader) → Ensures (λ _ s'. (b ≡ true) × (s' ≡ s)) (check b e s)
check-Ensures true e s = (refl, refl)
check-Ensures false e s = tt

pub wrap-Ensures :
    {A : Type 0} (P : A → Reader → Type 0) (r : Result Error A × Reader)
    → Ensures P r
    → Ensures P (wrap_reply r)
wrap-Ensures P (ok a, s) h = h
wrap-Ensures P (err e, s) h = tt

pub wrap_tag-Ensures :
    {A : Type 0} (P : A → Reader → Type 0) (h : TagHeader) (r : Result Error A × Reader)
    → Ensures P r
    → Ensures P (wrap_tag_reply h r)
wrap_tag-Ensures P h (ok a, s) p = p
wrap_tag-Ensures P h (err e, s) p = tt

of_result-Ensures :
    (h : TagHeader) (r : Result Error TagData) (s : Reader)
    → Makes h r
    → Ensures (λ d s'. IsMade h d × (s' ≡ s)) (of_result r s)
of_result-Ensures h (ok d) s m = (m, refl)
of_result-Ensures h (err e) s m = tt

-- A call through io.LimitedReader reads as much of the stream as of what it is let see.
limited-Ensures :
    (h : TagHeader) (n : ℕ) (m : Op Stream Error (ℕ × TagData)) (r : Stream)
    → Ensures (Fetches h (limit n r)) (m (limit n r))
    → Ensures
        (λ x r'. Reads x.0.0 r r' × (x.0.0 ≤ n) × (x.1 ≡ n - x.0.0) × IsCounted h x.0.1)
        (limited n m r)
unfolding limited
limited-Ensures h n m r p = reply (m (limit n r)) p
  where
    reply :
        (q : Result Error (ℕ × TagData) × Stream)
        → Ensures (Fetches h (limit n r)) q
        → Ensures
            (λ x r'. Reads x.0.0 r r' × (x.0.0 ≤ n) × (x.1 ≡ n - x.0.0) × IsCounted h x.0.1)
            (limit_reply n r q)
    reply (err e, v) f = tt
    reply (ok (w, d), v) (rd, c) =
        let few : w ≤ n = omega (arith, rd.there, length-take n r.input) in
        let within : w ≤ length r.input = omega (arith, rd.there, length-take n r.input) in
        let taken : length (take n r.input) - length v.input ≡ w =
          omega (arith, rd.there, ap (length {A = ℕ}) rd.left, length-drop w (take n r.input)) in
        rw taken ((record { there = within; left = refl; same = refl }, few, refl, c))

skip_padding-Ensures :
    (n : ℕ) (s : Reader) → Ensures (λ k s'. Takes k s s' × (k ≤ n)) (skip_padding n s)
unfolding skip_padding
skip_padding-Ensures n s = elim (Bool-cases (n == 0)) [
  | inl e ↦ rw e (((Reads-none s.r, refl), omega arith))
  | inr more ↦ elim (Bool-cases (leb 8 n)) [
    | inl big ↦ rw (more, big) tt
    | inr small ↦
        rw (more, small)
          (Ensures-weaken _ _ (on_stream (lift_io (discard n)) s)
            (on_stream-Ensures (λ k r'. Reads k s.r r' × (k ≤ n)) (lift_io (discard n)) s
              (lift_io-Ensures _ (discard n) s.r (discard-Reads n s.r)))
            (λ k s' p. ((p.0.0, p.1), p.0.1)))
  ]
]

-- A tag whose data are read: they lie between its offset and `nt`, are of its type and count, and
-- start where the reader was.
pub record IsReadFrom (t : Tag) (nt : ℕ) (s : Reader) (t' : Tag) (s' : Reader) : Type 0 where
  pub before : t.head.offset < nt
  pub aligned : tag_aligned t.head.type s.off ≡ true
  pub same : t'.head ≡ t.head
  pub placed : t'.off ≡ s.off
  pub counted : IsCounted t.head t'.body
  pub steps : Steps (nt - t.head.offset) s s'

ltb_lt : (a b : ℕ) → ltb a b ≡ true → a < b
ltb_lt a b h = ground arith

module _ {ahead : ℕ → ℕ → ℕ} (law : IsAhead ahead) where
  -- `read_data` behind the checks and `make`.
  abbrev rest : Tag → ℕ → TagData → Op Reader Error Tag
  rest t nt d = do
    ((w, body'), n) ← on_stream (limited (nt - t.head.offset) (read_from ahead d))
    dn ← skip_padding n
    check (nt - t.head.offset == w + dn) err_unexpected_eof
    finish_data t body' (w + dn)

  rest_of_data :
      (t : Tag) (nt : ℕ) (s : Reader) (d : TagData)
      → t.head.offset < nt
      → tag_aligned t.head.type s.off ≡ true
      → IsMade t.head d
      → Ensures (IsReadFrom t nt s) (rest t nt d s)
  rest_of_data t nt s d lt al made =
      let nr : ℕ = nt - t.head.offset in
      Ensures-bind _ (IsReadFrom t nt s) (on_stream (limited nr (read_from ahead d)) s) _
        (on_stream-Ensures _ (limited nr (read_from ahead d)) s (
          limited-Ensures t.head nr (read_from ahead d) s.r
            (read_from-Fetches law t.head d (limit nr s.r) made)))
        λ x s1 p.
          Ensures-bind _ (IsReadFrom t nt s) (skip_padding x.1 s1) _ (skip_padding-Ensures x.1 s1)
            λ dn s2 q.
              Ensures-bind _ (IsReadFrom t nt s) (check (nr == x.0.0 + dn) err_unexpected_eof s2) _
                (check-Ensures (nr == x.0.0 + dn) err_unexpected_eof s2)
                λ _ s3 c.
                  let all : x.0.0 + dn ≡ nr = equal nr (x.0.0 + dn) c.0 in
                  let here : s3.off ≡ s.off = ap (λ (u : Reader). u.off) c.1 ∙ q.0.1 ∙ p.1 in
                  let read : Reads (x.0.0 + dn) s.r s3.r =
                    subst (λ (u : Reader). Reads (x.0.0 + dn) s.r u.r) (sym c.1)
                      (Reads-trans p.0.0 q.0.0) in
                  record {
                    before = lt;
                    aligned = al;
                    same = refl;
                    placed = here;
                    counted = p.0.3;
                    steps = record {
                      stream = subst (λ (n : ℕ). Reads n s.r s3.r) all read;
                      counted = omega arith;
                    };
                  }
    where
      equal : (a b : ℕ) → (a == b) ≡ true → b ≡ a
      equal a b h = ground arith

  pub read_data-IsReadFrom :
      (t : Tag) (nt : ℕ) (s : Reader) → Ensures (IsReadFrom t nt s) (read_data ahead t nt s)
  unfolding read_data
  read_data-IsReadFrom t nt s = wrap_tag-Ensures (IsReadFrom t nt s) t.head _ (
      Ensures-bind _ (IsReadFrom t nt s) (check (tag_aligned t.head.type s.off) err_bad_align s) _
        (check-Ensures (tag_aligned t.head.type s.off) err_bad_align s)
        λ _ s1 al.
          Ensures-bind _ (IsReadFrom t nt s) (check (ltb t.head.offset nt) err_offset_oob s1) _
            (check-Ensures (ltb t.head.offset nt) err_offset_oob s1)
            λ _ s2 lt.
              Ensures-bind _ (IsReadFrom t nt s) (of_result (make t.head t.head.offset nt) s2) _
                (of_result-Ensures t.head (make t.head t.head.offset nt) s2
                  (make-Makes t.head t.head.offset nt))
                λ d s3 m.
                  subst (λ (u : Reader). Ensures (IsReadFrom t nt s) (rest t nt d u))
                    (sym (m.1 ∙ lt.1 ∙ al.1))
                    (rest_of_data t nt s d (ltb_lt t.head.offset nt lt.0) al.0 m.0))
