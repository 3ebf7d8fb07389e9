-- ===== src/Header/Adds.antt =====
-- Tags that are added to a header in sequence, as Files.Append and Tar2rpm do: which calls add which
-- tags, and the numbers and contents that stand in the header then.
use go_rpm.Tag.{unset, Error, Tag, TagData}
use go_rpm.Base.{
  length, ℕ, [], ◌≡◌, ◌∷◌, map, ◌++◌, refl, ap, ◌∙◌, All, sym, Bool-cases, ◌==◌, append-nil, inl,
  inr, ◌+◌, ◌*◌, append_assoc,
}
use go_rpm.Io.{◌>>◌, Op, ok, err, Result, pure, after}
use go_rpm.Header.{
  Header, add, List, tag_bytes, unset, tag_string, len, aligned_off, u32, tag_uint16, add_sized,
  tag_uint32, tag_uint64,
}
use go_rpm.Tag.Data.{len, strings_len}

-- Calls of `Add` in sequence.
unfoldable pub add_tags : List Tag → Op Header Error (Unit {0})
add_tags [] = pure tt
add_tags (t ∷ ts) = add t >> add_tags ts

-- A call that adds just these tags.
abbrev pub Adds : List Tag → Op Header Error (Unit {0}) → Type 0
Adds ts m = (hdr : Header) → m hdr ≡ add_tags ts hdr

abbrev Reply : Type 0
Reply = Result Error (Unit {0}) × Header

bind_pure : (reply : Reply) → reply ≡ after (λ _. pure tt) reply
bind_pure (ok tt, hdr) = refl
bind_pure (err e, hdr) = refl

pub Adds-none : Adds [] (pure tt)
unfolding add_tags
Adds-none hdr = refl

pub Adds-one : (t : Tag) → Adds (t ∷ []) (add t)
unfolding add_tags
Adds-one t hdr = bind_pure (add t hdr)

after-after :
    (f k : Op Header Error (Unit {0})) (reply : Reply)
    → after (λ _. k) (after (λ _. f) reply) ≡ after (λ _. f >> k) reply
after-after f k (ok tt, hdr) = refl
after-after f k (err e, hdr) = refl

after_same :
    (f k : Op Header Error (Unit {0})) (reply : Reply)
    → ((hdr : Header) → f hdr ≡ k hdr)
    → after (λ _. f) reply ≡ after (λ _. k) reply
after_same f k (ok tt, hdr) h = h hdr
after_same f k (err e, hdr) h = refl

add_tags-append :
    (ts us : List Tag) (hdr : Header) → (add_tags ts >> add_tags us) hdr ≡ add_tags (ts ++ us) hdr
unfolding add_tags
add_tags-append [] us hdr = refl
add_tags-append (t ∷ ts) us hdr =
    after-after (add_tags ts) (add_tags us) (add t hdr)
    ∙ after_same (add_tags ts >> add_tags us) (add_tags (ts ++ us)) (add t hdr)
        (λ h. add_tags-append ts us h)

pub Adds-bind :
    (ts us : List Tag) (m k : Op Header Error (Unit {0}))
    → Adds ts m
    → Adds us k
    → Adds (ts ++ us) (m >> k)
Adds-bind ts us m k h g hdr =
    rw (h hdr) (after_same k (add_tags us) (add_tags ts hdr) g ∙ add_tags-append ts us hdr)

-- Data without the count or the length that they cache.
abbrev pub content : TagData → TagData
content (tag_bytes b n) = tag_bytes b 0
content (tag_string vs n) = tag_string vs 0
content d = d

-- The numbers and the contents of tags.
abbrev pub rows : List Tag → List (ℕ × TagData)
rows ts = map (λ (t : Tag). (t.head.tag, content t.body)) ts

pub map-append {ℓ κ} :
    {A : Type ℓ} {B : Type κ} (f : A → B) (xs ys : List A) → map f (xs ++ ys) ≡ map f xs ++ map f ys
map-append f [] ys = refl
map-append f (x ∷ xs) ys = ap (◌∷◌ (f x)) (map-append f xs ys)

-- Data that `Add` takes: not nil.
abbrev pub IsGiven : TagData → Type 0
IsGiven unset = ⊥
IsGiven _ = Unit {0}

len-content :
    (d : TagData)
    → IsGiven d
    → (n : ℕ) × (d' : TagData) × (len d ≡ ok (n, d')) × (content d' ≡ content d)
unfolding len
len-content (tag_bytes b n) h = (length b, tag_bytes b n, refl, refl)
len-content (tag_string vs n) h = elim (Bool-cases (n == 0)) [
  | inl e ↦ (strings_len vs, tag_string vs (strings_len vs), rw e, refl)
  | inr e ↦ (n, tag_string vs n, rw e, refl)
]
len-content (tag_uint16 vs) h = (length vs * 2, tag_uint16 vs, refl, refl)
len-content (tag_uint32 vs) h = (length vs * 4, tag_uint32 vs, refl, refl)
len-content (tag_uint64 vs) h = (length vs * 8, tag_uint64 vs, refl, refl)
len-content unset h = absurd h

-- Added tags stand in the header with their numbers and contents, behind those that were there.
pub add_tags-rows :
    (ts : List Tag) (hdr : Header)
    → All (λ t. IsGiven t.body) ts
    → (hdr' : Header) × (add_tags ts hdr ≡ (ok tt, hdr'))
      × (rows hdr'.tags ≡ rows hdr.tags ++ rows ts)
unfolding add_tags add
add_tags-rows [] hdr h = (hdr, refl, sym (append-nil (rows hdr.tags)))
add_tags-rows (t ∷ ts) hdr (p, h) =
    let (n, d', sized, same) = len-content t.body p in
    let off : ℕ = aligned_off t.head.type hdr in
    let t' : Tag = record t { head = record t.head { offset = off }; body = d' } in
    let next : Header = record hdr { off = u32 (off + u32 n); tags = hdr.tags ++ t' ∷ [] } in
    let (hdr', ran, held) = add_tags-rows ts next h in
    let front : rows (hdr.tags ++ t' ∷ []) ≡ rows hdr.tags ++ (t.head.tag, content t.body) ∷ [] =
      map-append (λ (u : Tag). (u.head.tag, content u.body)) hdr.tags (t' ∷ [])
      ∙ ap (λ (c : TagData). rows hdr.tags ++ (t.head.tag, c) ∷ []) same in
    (
      hdr',
      rw (sized, add_sized) ran,
      held
          ∙ ap (λ (x : List (ℕ × TagData)). x ++ rows ts) front
          ∙ append_assoc (rows hdr.tags) ((t.head.tag, content t.body) ∷ []) (rows ts),
    )
