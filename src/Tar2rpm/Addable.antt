-- ===== src/Tar2rpm/Addable.antt =====
-- Which tags of a package can be added and read back: those whose data are in their bounds and not
-- empty, while they fit a header.
use go_rpm.Base.{
  length, ℕ, Bytes, List, All, ◌∷◌, [], ◌<◌, ◌^◌, ◌≢◌, ◌≡◌, arith, inl, inr, refl, ◌*◌,
}
use go_rpm.Tag.{Tag, int16_type, tag_uint16}
use go_rpm.Tag.Data.{strings_len, put_all}
use go_rpm.Tag.ReadBack.{HasNoNul, length-le-strings_len}
use go_rpm.Tag.Written.{c_strings, length-c_strings, length-put_all}
use go_rpm.Header.{new_tag, u32}
use go_rpm.Header.Layout.{data_size}
use go_rpm.Header.Room.{IsAddable, room}
use go_rpm.Files.Appended.{strings_tag, int32_tag, int64_tag}
use go_rpm.Tar2rpm.Tags.{string_tag}

-- A tag that can be added and read back if its data are not too large.
abbrev pub FitsIn : Tag → Type 0
FitsIn t = data_size t < 2 ^ 32 → IsAddable t

pub All-FitsIn : (ts : List Tag) → All FitsIn ts → room ts < 2 ^ 32 → All IsAddable ts
All-FitsIn [] h lt = tt
All-FitsIn (t ∷ ts) (p, h) lt = (p (omega arith), All-FitsIn ts h (omega arith))

length-pos : {A : Type 0} (xs : List A) → xs ≢ [] → 0 < length xs
length-pos [] h = absurd (h refl)
length-pos (x ∷ xs) h = omega arith

pub string_tag-FitsIn : (t : ℕ) (v : Bytes) → t < 2 ^ 32 → HasNoNul v → FitsIn (string_tag t v)
string_tag-FitsIn t v small h lt =
    let size : length (c_strings (v ∷ [])) ≡ strings_len (v ∷ []) = length-c_strings (v ∷ []) in
    record {
      readable = record { typed = (inl refl, refl, (h, tt)); some_data = omega (arith, size) };
      set_data = inr (omega arith);
      wire = (small, omega arith, omega arith);
    }

pub strings_tag-FitsIn :
    (t : ℕ) (vs : List Bytes) → t < 2 ^ 32 → vs ≢ [] → All HasNoNul vs → FitsIn (strings_tag t vs)
strings_tag-FitsIn t vs small ne h lt =
    let size : length (c_strings vs) ≡ strings_len vs = length-c_strings vs in
    let few : u32 (length vs) ≡ length vs = omega (arith, length-le-strings_len vs) in
    record {
      readable = record {
        typed = (inr (inr refl), few, h);
        some_data = omega (arith, length-le-strings_len vs, length-pos vs ne);
      };
      set_data = inl refl;
      wire = (small, omega arith, omega arith);
    }

pub int16_tag-FitsIn :
    (t : ℕ) (vs : List ℕ)
    → t < 2 ^ 32
    → vs ≢ []
    → All (λ v. v < 2 ^ 16) vs
    → FitsIn (new_tag t int16_type (u32 (length vs)) (tag_uint16 vs))
int16_tag-FitsIn t vs small ne h lt =
    let size : length (put_all 2 vs) ≡ length vs * 2 = length-put_all 2 vs in
    let few : u32 (length vs) ≡ length vs = omega arith in
    record {
      readable = record { typed = (refl, few, h); some_data = omega (arith, length-pos vs ne) };
      set_data = tt;
      wire = (small, omega arith, omega arith);
    }

pub int32_tag-FitsIn :
    (t : ℕ) (vs : List ℕ)
    → t < 2 ^ 32
    → vs ≢ []
    → All (λ v. v < 2 ^ 32) vs
    → FitsIn (int32_tag t vs)
int32_tag-FitsIn t vs small ne h lt =
    let size : length (put_all 4 vs) ≡ length vs * 4 = length-put_all 4 vs in
    let few : u32 (length vs) ≡ length vs = omega arith in
    record {
      readable = record { typed = (refl, few, h); some_data = omega (arith, length-pos vs ne) };
      set_data = tt;
      wire = (small, omega arith, omega arith);
    }

pub int64_tag-FitsIn :
    (t : ℕ) (vs : List ℕ)
    → t < 2 ^ 32
    → vs ≢ []
    → All (λ v. v < 2 ^ 64) vs
    → FitsIn (int64_tag t vs)
int64_tag-FitsIn t vs small ne h lt =
    let size : length (put_all 8 vs) ≡ length vs * 8 = length-put_all 8 vs in
    let few : u32 (length vs) ≡ length vs = omega arith in
    record {
      readable = record { typed = (refl, few, h); some_data = omega (arith, length-pos vs ne) };
      set_data = tt;
      wire = (small, omega arith, omega arith);
    }
