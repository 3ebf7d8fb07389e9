-- ===== src/Text/Trim.antt =====
-- Lines of words, which `strings.TrimSpace` leaves as they are.
use go_rpm.Base.{
  Bytes, All, List, ◌++◌, ℕ, ◌≡◌, ap, ◌<◌, ◌≢◌, ◌∙◌, ◌∷◌, [], sym, arith, ◌≤◌, false, refl,
  append_assoc, All-append, ◌-◌, Bool-cases, ◌==◌, inl, inr,
}
use go_rpm.Text.{trim_right, join, trim_left, space_length, trim_space, is_empty}
use go_rpm.Text.Words.{IsWord, IsWordByte, space_length-word}

abbrev pub IsAscii : Bytes → Type 0
IsAscii s = All (λ b. b < 0x80) s

space_length-le : (b : ℕ) (s : Bytes) → b < 0x80 → space_length (b ∷ s) ≤ 1
unfolding space_length
space_length-le b s h = ground arith

trim_left-is_empty :
    (s : Bytes) (b : ℕ) → IsAscii s → IsWordByte b → is_empty (trim_left 0 (s ++ b ∷ [])) ≡ false
unfolding trim_left
trim_left-is_empty [] b h w = rw (space_length-word b [] w)
trim_left-is_empty (c ∷ s) b (p, h) w =
    let one : space_length (c ∷ (s ++ b ∷ [])) - 1 ≡ 0 =
      omega (arith, space_length-le c (s ++ b ∷ []) p) in
    rw one (elim (Bool-cases (space_length (c ∷ (s ++ b ∷ [])) == 0)) [
      | inl stop ↦ rw stop
      | inr go_on ↦ rw go_on (trim_left-is_empty s b h w)
    ])

trim_right_word :
    (s : Bytes) (b : ℕ) → IsAscii s → IsWordByte b → trim_right (s ++ b ∷ []) ≡ s ++ b ∷ []
unfolding trim_right
trim_right_word [] b h w = rw (trim_left-is_empty [] b tt w)
trim_right_word (c ∷ s) b (p, h) w =
    rw (trim_left-is_empty (c ∷ s) b (p, h) w, trim_right_word s b h w)

-- A text that ends with a word, split before its last byte.
pub record EndsWord (s : Bytes) : Type 0 where
  pub front : Bytes
  pub last : ℕ
  pub split : s ≡ front ++ last ∷ []
  pub ascii : IsAscii front
  pub word : IsWordByte last

EndsWord-append : (v s : Bytes) → IsAscii v → EndsWord s → EndsWord (v ++ s)
EndsWord-append v s h e = record {
  front = v ++ e.front;
  last = e.last;
  split = ap (◌++◌ v) (e.split) ∙ sym (append_assoc v e.front (e.last ∷ []));
  ascii = All-append (λ b. b < 0x80) v e.front h e.ascii;
  word = e.word;
}

IsWordByte-IsAscii : (v : Bytes) → All IsWordByte v → IsAscii v
IsWordByte-IsAscii [] h = tt
IsWordByte-IsAscii (b ∷ v) (p, h) = (omega arith, IsWordByte-IsAscii v h)

word-EndsWord : (v : Bytes) → All IsWordByte v → v ≢ [] → EndsWord v
word-EndsWord [] h some = absurd (some refl)
word-EndsWord (b ∷ []) (p, h) some = record {
  front = [];
  last = b;
  split = refl;
  ascii = tt;
  word = p;
}
word-EndsWord (b ∷ c ∷ v) (p, h) some =
    EndsWord-append (b ∷ []) (c ∷ v) (omega arith) (word-EndsWord (c ∷ v) h λ e. cc)

join-EndsWord :
    (v : Bytes) (ws : List Bytes) → All IsWord (v ∷ ws) → EndsWord (join (0x20 ∷ []) (v ∷ ws))
unfolding join
join-EndsWord v [] (p, h) = word-EndsWord v p.bytes p.some_byte
join-EndsWord v (w ∷ ws) (p, h) =
    EndsWord-append v _ (IsWordByte-IsAscii v p.bytes)
      (EndsWord-append (0x20 ∷ []) _ (omega arith) (join-EndsWord w ws h))

trim_left_word : (b : ℕ) (s : Bytes) → IsWordByte b → trim_left 0 (b ∷ s) ≡ b ∷ s
unfolding trim_left
trim_left_word b s h = rw (space_length-word b s h)

trim_left-join :
    (v : Bytes) (ws : List Bytes)
    → IsWord v
    → trim_left 0 (join (0x20 ∷ []) (v ∷ ws)) ≡ join (0x20 ∷ []) (v ∷ ws)
unfolding join
trim_left-join [] ws h = absurd (h.some_byte refl)
trim_left-join (b ∷ v) [] h = trim_left_word b v (h.bytes.0)
trim_left-join (b ∷ v) (w ∷ ws) h = trim_left_word b _ (h.bytes.0)

-- Words with a space between any two begin and end with a word.
pub trim_space-join :
    (ws : List Bytes) → All IsWord ws → trim_space (join (0x20 ∷ []) ws) ≡ join (0x20 ∷ []) ws
unfolding trim_space join trim_left trim_right
trim_space-join [] h = refl
trim_space-join (v ∷ ws) (p, h) =
    let e : EndsWord (join (0x20 ∷ []) (v ∷ ws)) = join-EndsWord v ws (p, h) in
    ap trim_right (trim_left-join v ws p)
    ∙ ap trim_right (e.split)
    ∙ trim_right_word e.front e.last e.ascii e.word
    ∙ sym (e.split)
