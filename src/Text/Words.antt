-- ===== src/Text/Words.antt =====
-- Words and the white space between them; where a byte is found.
use go_rpm.Base.{
  length, ℕ, Bytes, All, ◌∷◌, ◌<◌, Bool, ◌++◌, ◌≢◌, List, ◌≡◌, false, arith, [], append-nil, refl,
  true, none, append_assoc, some, ap, sym, ◌∙◌,
}
use go_rpm.Text.{trim_space, space_length, fields_from, fields, trim_left, flush, join, index_where}

-- A byte of a word in ASCII.
abbrev pub IsWordByte : ℕ → Type 0
IsWordByte b = (0x20 < b) × (b < 0x80)

pub record IsWord (v : Bytes) : Type 0 where
  pub bytes : All IsWordByte v
  pub some_byte : v ≢ []

pub space_length-word : (b : ℕ) (s : Bytes) → IsWordByte b → space_length (b ∷ s) ≡ 0
unfolding space_length
space_length-word b s h = ground arith

-- The bytes of a word go to the word.
fields_from-append :
    (word v rest : Bytes)
    → All IsWordByte v
    → fields_from 0 word (v ++ rest) ≡ fields_from 0 (word ++ v) rest
unfolding fields_from
fields_from-append word [] rest h = rw append-nil
fields_from-append word (b ∷ v) rest (p, h) =
    rw (space_length-word b (v ++ rest) p, ← append_assoc word (b ∷ []) v)
      (fields_from-append (word ++ b ∷ []) v rest h)

flush-IsWord : (v : Bytes) → IsWord v → flush v ≡ v ∷ []
flush-IsWord [] h = absurd (h.some_byte refl)
flush-IsWord (b ∷ v) h = refl

-- Words with a space between any two are taken apart again.
pub fields-join : (ws : List Bytes) → All IsWord ws → fields (join (0x20 ∷ []) ws) ≡ ws
unfolding fields fields_from join space_length
fields-join [] h = refl
fields-join (v ∷ []) (p, h) =
    ap (fields_from 0 []) (sym (append-nil v))
    ∙ fields_from-append [] v [] p.bytes
    ∙ flush-IsWord v p
fields-join (v ∷ w ∷ ws) (p, h) =
    rw (fields_from-append [] v _ p.bytes, flush-IsWord v p, fields-join (w ∷ ws) h)

-- A space in front is skipped.
pub fields_space : (s : Bytes) → fields (0x20 ∷ s) ≡ fields s
unfolding fields fields_from space_length
fields_space s = refl

pub trim_space_space : (s : Bytes) → trim_space (0x20 ∷ s) ≡ trim_space s
unfolding trim_space trim_left space_length
trim_space_space s = refl

module _ (test : ℕ → Bool) where
  pub index_where-none : (s : Bytes) → All (λ b. test b ≡ false) s → index_where test s ≡ none
  unfolding index_where
  index_where-none [] h = refl
  index_where-none (b ∷ s) (p, h) = rw (p, index_where-none s h)

  pub index_where-append :
      (v : Bytes) (b : ℕ) (rest : Bytes)
      → All (λ b. test b ≡ false) v
      → test b ≡ true
      → index_where test (v ++ b ∷ rest) ≡ some (length v)
  unfolding index_where
  index_where-append [] b rest h hit = rw hit
  index_where-append (c ∷ v) b rest (p, h) hit = rw (p, index_where-append v b rest h hit)
