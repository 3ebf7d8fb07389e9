-- ===== src/Tag/Written.antt =====
-- What the data of a tag are on the wire, for `Len` and `WriteTo`.
use go_rpm.Io.{ok, WriteReply, IsWriter, NeverFails}
use go_rpm.Io.Emits.{
  Emits, Emits-bind, Emits-map, Emits-pure, Emits-weaken, Succeeds, Succeeds-bind, Succeeds-bind_of,
}
use go_rpm.Io.Binary.{length-put_be}
use go_rpm.Tag.{
  TagHeader, TagData, tag_bytes, tag_string, tag_uint16, tag_uint32, tag_uint64, unset, List, ℕ,
  Bytes,
}
use go_rpm.Tag.Data.{
  c_string, strings_len, len, put_all, put_tag_header, send, send_buffer, send_strings, write_data,
  write_header,
}
use go_rpm.Base.{
  ◌≡◌, ℕ, Bytes, List, ◌+◌, ◌⊎◌, length, [], ◌∷◌, Option-cases, ◌*◌, sym, arith, ◌++◌, inr,
  length-append, append-nil, refl, take, drop, take-append-drop, inl, ==_refl, ◌∙◌, ap, take_all,
}

-- NUL-terminated strings, one behind the other.
abbrev pub c_strings : List Bytes → Bytes
c_strings [] = []
c_strings (v ∷ vs) = c_string v ++ c_strings vs

abbrev pub data_bytes : TagData → Bytes
data_bytes (tag_bytes b count) = b
data_bytes (tag_string vs n) = c_strings vs
data_bytes (tag_uint16 vs) = put_all 2 vs
data_bytes (tag_uint32 vs) = put_all 4 vs
data_bytes (tag_uint64 vs) = put_all 8 vs
data_bytes unset = []

-- The data is there, and the length that a `tagString` caches is absent or right.
abbrev pub IsSetData : TagData → Type 0
IsSetData (tag_string vs n) = (n ≡ 0) ⊎ (n ≡ strings_len vs)
IsSetData unset = ⊥
IsSetData _ = Unit {0}

pub length-c_strings : (vs : List Bytes) → length (c_strings vs) ≡ strings_len vs
length-c_strings [] = refl
length-c_strings (v ∷ vs) = omega (
  arith,
  length-append (c_string v) (c_strings vs),
  length-append v (0 ∷ []),
  length-c_strings vs,
)

pub length-put_all : (k : ℕ) (vs : List ℕ) → length (put_all k vs) ≡ length vs * k
length-put_all k [] = omega arith
length-put_all k (v ∷ vs) = rw (length-append, length-put_be, length-put_all k vs) (grind arith)

-- `Len` is the number of bytes of the data, and keeps what they are.
pub len_lem :
    (d : TagData)
    → IsSetData d
    → (d' : TagData) × (len d ≡ ok (length (data_bytes d), d'))
      × (data_bytes d' ≡ data_bytes d)
      × IsSetData d'
unfolding len
len_lem (tag_bytes b count) h = (tag_bytes b count, refl, refl, tt)
len_lem (tag_string vs n) h =
    (tag_string vs (strings_len vs), rw (length-c_strings vs) (ground arith), refl, inr refl)
len_lem (tag_uint16 vs) h = (tag_uint16 vs, rw (length-put_all 2 vs), refl, tt)
len_lem (tag_uint32 vs) h = (tag_uint32 vs, rw (length-put_all 4 vs), refl, tt)
len_lem (tag_uint64 vs) h = (tag_uint64 vs, rw (length-put_all 8 vs), refl, tt)
len_lem unset h = absurd h

module _ {S : Type 0} {io_write : Bytes → S → WriteReply S} {content : S → Bytes}
    (law : IsWriter io_write content) where
  -- One call of `Write`: the count is that of the bytes.
  pub send-Emits : (b : Bytes) (w : S) → Emits content b w (λ n _. n ≡ length b) (send io_write b w)
  unfolding send
  send-Emits b w = elim (Option-cases (io_write b w).2) [
    | inr (e, failed) ↦
        rw (failed, send)
          (
            take (io_write b w).1 b,
            drop (io_write b w).1 b,
            sym (take-append-drop (io_write b w).1 b),
            law.takes b w,
          )
    | inl sent ↦
        let full : (io_write b w).1 ≡ length b = law.count_full b w sent in
        rw (sent, send)
          (law.takes b w ∙ ap (λ (t : Bytes). content w ++ t) (take_all b _ (omega arith)), full)
  ]

  pub send_buffer-Emits :
      (b : Bytes) (w : S) → Emits content b w (λ n _. n ≡ length b) (send_buffer io_write b w)
  unfolding send_buffer
  send_buffer-Emits [] w = (sym (append-nil (content w)), refl)
  send_buffer-Emits (x ∷ b) w =
      Emits-pure content (x ∷ b) w _ _ _ _ (send-Emits (x ∷ b) w) λ n w' e. (n, rw (e, ==_refl), e)

  send_strings-Emits :
      (vs : List Bytes) (k : ℕ) (w : S)
      → Emits content
          (c_strings vs)
          w
          (λ n _. n ≡ k + length (c_strings vs))
          (send_strings io_write vs k w)
  unfolding send_strings
  send_strings-Emits [] k w = (sym (append-nil (content w)), omega arith)
  send_strings-Emits (v ∷ vs) k w =
      Emits-bind content (c_string v) _ w _ _ _ _ (send-Emits (c_string v) w) λ n w' e.
        Emits-weaken content _ w' _ _ _ (send_strings-Emits vs (k + n) w')
          λ m _ h. omega (arith, length-append (c_string v) (c_strings vs))

  -- `WriteTo` writes the bytes of the data, and returns how many they are.
  pub write_data-Emits :
      (d : TagData) (w : S)
      → IsSetData d
      → Emits content (data_bytes d) w (λ n _. n ≡ length (data_bytes d)) (write_data io_write d w)
  unfolding write_data
  write_data-Emits (tag_bytes b count) w h = send_buffer-Emits b w
  write_data-Emits (tag_string vs n) w h =
      Emits-weaken content _ w _ _ _ (send_strings-Emits vs 0 w) λ _ _ e. omega arith
  write_data-Emits (tag_uint16 vs) w h =
      Emits-map content _ w _ _ _ _ (send-Emits (put_all 2 vs) w) λ _ _ _. sym (length-put_all 2 vs)
  write_data-Emits (tag_uint32 vs) w h =
      Emits-map content _ w _ _ _ _ (send-Emits (put_all 4 vs) w) λ _ _ _. sym (length-put_all 4 vs)
  write_data-Emits (tag_uint64 vs) w h =
      Emits-map content _ w _ _ _ _ (send-Emits (put_all 8 vs) w) λ _ _ _. sym (length-put_all 8 vs)
  write_data-Emits unset w h = absurd h

  pub write_header-Emits :
      (h : TagHeader) (w : S)
      → Emits content (put_tag_header h) w (λ _ _. Unit {0}) (write_header io_write h w)
  unfolding write_header
  write_header-Emits h w =
      Emits-map content _ w _ _ _ _ (send-Emits (put_tag_header h) w) λ _ _ _. tt

  module _ (never : NeverFails io_write) where
    pub send-Succeeds : (b : Bytes) (w : S) → Succeeds (send io_write b w)
    unfolding send
    send-Succeeds b w = rw (never b w, send) tt

    pub send_buffer-Succeeds : (b : Bytes) (w : S) → Succeeds (send_buffer io_write b w)
    unfolding send_buffer
    send_buffer-Succeeds [] w = tt
    send_buffer-Succeeds (x ∷ b) w =
        Succeeds-bind_of content (x ∷ b) w _ _ _ (send-Emits (x ∷ b) w) (send-Succeeds (x ∷ b) w)
          λ n w' e. rw (e, ==_refl) tt

    send_strings-Succeeds :
        (vs : List Bytes) (k : ℕ) (w : S) → Succeeds (send_strings io_write vs k w)
    unfolding send_strings
    send_strings-Succeeds [] k w = tt
    send_strings-Succeeds (v ∷ vs) k w =
        Succeeds-bind _ _ (send-Succeeds (c_string v) w) λ n w'. send_strings-Succeeds vs (k + n) w'

    pub write_data-Succeeds :
        (d : TagData) (w : S) → IsSetData d → Succeeds (write_data io_write d w)
    unfolding write_data
    write_data-Succeeds (tag_bytes b count) w h = send_buffer-Succeeds b w
    write_data-Succeeds (tag_string vs n) w h = send_strings-Succeeds vs 0 w
    write_data-Succeeds (tag_uint16 vs) w h =
        Succeeds-bind _ _ (send-Succeeds (put_all 2 vs) w) λ _ _. tt
    write_data-Succeeds (tag_uint32 vs) w h =
        Succeeds-bind _ _ (send-Succeeds (put_all 4 vs) w) λ _ _. tt
    write_data-Succeeds (tag_uint64 vs) w h =
        Succeeds-bind _ _ (send-Succeeds (put_all 8 vs) w) λ _ _. tt
    write_data-Succeeds unset w h = absurd h

    pub write_header-Succeeds : (h : TagHeader) (w : S) → Succeeds (write_header io_write h w)
    unfolding write_header
    write_header-Succeeds h w = Succeeds-bind _ _ (send-Succeeds (put_tag_header h) w) λ _ _. tt
