-- ===== src/Tar2rpm/Sound.antt =====
-- The tags of a package's configuration can be added and read back, where its texts have no NUL.
use go_rpm.Base.{
  ℕ, Bytes, List, All, ◌∷◌, [], ◌<◌, ◌^◌, ◌≢◌, ◌≡◌, arith, refl, All-mapped, All-of_append, Option,
  some, none, subst, sym, Bool-cases, inl, inr, Bool, true, false, take, drop, take-append-drop,
  ◌==◌,
}
use go_rpm.Text.{index_where}
use go_rpm.Tag.ReadBack.{HasNoNul}
use go_rpm.Tar2rpm.{Sense, is_operator, is_seen, kept, sense_flags, sense_rest}
use go_rpm.Tar2rpm.Senses.{mask, or_less, or_greater, or_equal}
use go_rpm.Tar2rpm.Tags.{sense_tags}
use go_rpm.Tar2rpm.Addable.{FitsIn, strings_tag-FitsIn, int32_tag-FitsIn}
use go_rpm.Files.RoundTrip.{map_ne}

-- A dependency that can be written: texts without NUL, and flags for which some bits are set.
record IsSoundSense (s : Sense) : Type 0 where
  pub named : HasNoNul s.name
  pub versioned : HasNoNul s.version
  pub flagged : (l : Bool) × (g : Bool) × (e : Bool) × (s.flags ≡ mask l g e)

mask-small : (l g e : Bool) → mask l g e < 2 ^ 32
mask-small l g e = ground arith

sense_rest-IsSound :
    (s name : Bytes) (l g e : Bool)
    → HasNoNul s
    → HasNoNul name
    → IsSoundSense (sense_rest s (record { name = name; version = []; flags = mask l g e }))
unfolding sense_rest
sense_rest-IsSound [] name l g e h n = record {
  named = n;
  versioned = tt;
  flagged = (l, g, e, refl);
}
sense_rest-IsSound (v ∷ s) name l g e (p, h) n = elim (Bool-cases (v == 0x3c)) [
  | inl less ↦ rw (sense_rest, less, or_less l g e) (sense_rest-IsSound s name true g e h n)
  | inr not_less ↦ elim (Bool-cases (v == 0x3e)) [
    | inl greater ↦
        rw (sense_rest, not_less, greater, or_greater l g e)
          (sense_rest-IsSound s name l true e h n)
    | inr not_greater ↦ elim (Bool-cases (v == 0x3d)) [
      | inl equal ↦
          rw (sense_rest, not_less, not_greater, equal, or_equal l g e)
            (sense_rest-IsSound s name l g true h n)
      | inr other ↦
          rw (sense_rest, not_less, not_greater, other)
            (record { named = n; versioned = (p, h); flagged = (l, g, e, refl) })
    ]
  ]
]

-- The parts of a text at any place.
cut-HasNoNul : (i : ℕ) (v : Bytes) → HasNoNul v → HasNoNul (take i v) × HasNoNul (drop i v)
cut-HasNoNul i v h =
    All-of_append (λ b. b ≢ 0) (take i v) (drop i v) (subst HasNoNul (sym (take-append-drop i v)) h)

sense_flags_at :
    (v : Bytes) (at : Option ℕ)
    → index_where is_operator v ≡ at
    → HasNoNul v
    → IsSoundSense (sense_flags v)
unfolding sense_flags
sense_flags_at v none e h =
    rw (sense_flags, e)
      (record { named = h; versioned = tt; flagged = (false, false, false, refl) })
sense_flags_at v (some i) e h =
    let (front, back) = cut-HasNoNul i v h in
    rw (sense_flags, e) (sense_rest-IsSound (drop i v) (take i v) false false false back front)

sense_flags-IsSound : (v : Bytes) → HasNoNul v → IsSoundSense (sense_flags v)
sense_flags-IsSound v h = sense_flags_at v (index_where is_operator v) refl h

kept-IsSound : (ps seen : List Bytes) → All HasNoNul ps → All IsSoundSense (kept ps seen)
unfolding kept
kept-IsSound [] seen h = tt
kept-IsSound (p ∷ ps) seen (q, h) = elim (Bool-cases (is_seen p seen)) [
  | inl old ↦ rw (kept, old) (kept-IsSound ps seen h)
  | inr new ↦
      rw (kept, new) ((sense_flags-IsSound p q, kept-IsSound ps ((sense_flags p).name ∷ seen) h))
]

kept-ne : (ps : List Bytes) → ps ≢ [] → kept ps [] ≢ []
unfolding kept is_seen
kept-ne [] h = absurd (h refl)
kept-ne (p ∷ ps) h = λ e. cc

flags-small : (s : Sense) → IsSoundSense s → s.flags < 2 ^ 32
flags-small s h = let (l, g, e, same) = h.flagged in rw same (mask-small l g e)

pub sense_tags-FitsIn :
    (flags names versions : ℕ) (ps : List Bytes)
    → flags < 2 ^ 32
    → names < 2 ^ 32
    → versions < 2 ^ 32
    → All HasNoNul ps
    → ps ≢ []
    → All FitsIn (sense_tags flags names versions (kept ps []))
sense_tags-FitsIn flags names versions ps a b c h ne =
    let ss : List Sense = kept ps [] in
    let sound : All IsSoundSense ss = kept-IsSound ps [] h in
    let some_kept : ss ≢ [] = kept-ne ps ne in
    (
      int32_tag-FitsIn flags _ a (map_ne _ ss some_kept)
          (All-mapped IsSoundSense (λ v. v < 2 ^ 32) (λ (s : Sense). s.flags) ss flags-small sound),
      (
        strings_tag-FitsIn names _ b (map_ne _ ss some_kept)
            (All-mapped IsSoundSense HasNoNul (λ (s : Sense). s.name) ss (λ s q. q.named) sound),
        (
          strings_tag-FitsIn versions _ c (map_ne _ ss some_kept) (
              All-mapped IsSoundSense HasNoNul (λ (s : Sense). s.version) ss (λ s q. q.versioned)
                sound),
          tt,
        ),
      ),
    )
