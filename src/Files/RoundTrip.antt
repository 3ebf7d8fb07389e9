-- ===== src/Files/RoundTrip.antt =====
-- A file index appended to a header, and found again: in the header itself, and in what is read of
-- the bytes that it is written as.
use go_rpm.Tag.{
  unset, Error, Tag, TagData, tag_bytes, tag_string, tag_uint16, tag_uint32, tag_uint64,
}
use go_rpm.Base.{
  length, ℕ, List, Bytes, All, ◌≡◌, ◌∷◌, ◌≢◌, [], ◌≤◌, ◌∙◌, map, ◌++◌, refl, ◌^◌, ap, sym, arith,
  ◌+◌, Option, ◌<◌, subst,
}
use go_rpm.Io.{ok, Result}
use go_rpm.Header.{Header, set_region_tag}
use go_rpm.Files.{FileIndex, File, new_file_index, add, add_all, values}
use go_rpm.Files.Append.{append, file_index_header}
use go_rpm.Reader.{next}
use go_rpm.Reader.Data.{reader}
use go_rpm.Reader.Next.{padding}
use go_rpm.Header.Adds.{rows, add_tags-rows, IsGiven, map-append, content}
use go_rpm.Files.Found.{IsPlain, IsOtherTag, index_tags-other, index_rows-file_tags}
use go_rpm.Files.Appended.{index_tags-rows, file_tags, index_rows, file_tags-Adds}
use go_rpm.Files.Added.{IsIndexOf, add_all-IsIndexOf}
use go_rpm.Reader.Loop.{found, numbered}
use go_rpm.Tag.ReadBack.{IsAhead, read_back}
use go_rpm.Header.Sort.{IsSort}
use go_rpm.Header.Room.{IsAddable, IsOpen, room, add_tags-IsOpen, IsOpen-IsReadable}
use go_rpm.Header.Encoding.{encoded}
use go_rpm.Reader.Parts.{IsReadable, read_header, data_start}
use go_rpm.Reader.RoundTrip.{next-encoded}

pub given : (f : FileIndex) → All (λ t. IsGiven t.body) (file_tags f)
given f = (tt, (tt, (tt, (tt, (tt, (tt, (tt, (tt, (tt, (tt, (tt, (tt, (tt, tt)))))))))))))

-- What `FileIndexHeader` finds in a header goes by the numbers and the contents of its tags.
file_index_header-rows :
    (hdr hdr' : Header)
    → rows hdr'.tags ≡ rows hdr.tags
    → file_index_header hdr' ≡ file_index_header hdr
unfolding file_index_header
file_index_header-rows hdr hdr' same =
    index_tags-rows hdr'.tags new_file_index
    ∙ ap (λ (rs : List (ℕ × TagData)). index_rows rs new_file_index) same
    ∙ sym (index_tags-rows hdr.tags new_file_index)

-- A header whose tags are others and then those of an index.
pub file_index_header-tags :
    (f : FileIndex) (ts : List Tag) (hdr : Header)
    → IsPlain f
    → All IsOtherTag ts
    → rows hdr.tags ≡ rows (ts ++ file_tags f)
    → file_index_header hdr ≡ ok f
unfolding file_index_header
file_index_header-tags f ts hdr plain other same =
    index_tags-rows hdr.tags new_file_index
    ∙ ap (λ (rs : List (ℕ × TagData)). index_rows rs new_file_index) same
    ∙ sym (index_tags-rows (ts ++ file_tags f) new_file_index)
    ∙ index_tags-other ts (file_tags f) new_file_index other
    ∙ index_tags-rows (file_tags f) new_file_index
    ∙ index_rows-file_tags f plain

pub file_index_header-append :
    (f : FileIndex) (hdr : Header)
    → IsPlain f
    → All IsOtherTag hdr.tags
    → (hdr' : Header) × (append f hdr ≡ (ok tt, hdr')) × (file_index_header hdr' ≡ ok f)
file_index_header-append f hdr plain other =
    let (hdr', ran, held) = add_tags-rows (file_tags f) hdr (given f) in
    let same : rows hdr'.tags ≡ rows (hdr.tags ++ file_tags f) =
      held ∙ sym (map-append _ hdr.tags (file_tags f)) in
    (
      hdr',
      file_tags-Adds f plain.files hdr ∙ ran,
      file_index_header-tags f hdr.tags hdr' plain other same,
    )

-- Adding a file leaves alone what `IsPlain` is about.
record IsAdding (f : FileIndex) : Type 0 where
  pub unset_columns : (f.dev ≡ []) × (f.ino ≡ []) × (f.size ≡ [])
  pub unset_total : f.rpmsize ≡ 0

add_all-IsAdding :
    (split : Bytes → Bytes × Bytes) (rs : List File) (f : FileIndex)
    → IsAdding f
    → IsAdding (add_all split rs f)
unfolding add_all add
add_all-IsAdding split [] f h = h
add_all-IsAdding split (r ∷ rs) f h =
    add_all-IsAdding split rs (add split r f)
      (record { unset_columns = h.unset_columns; unset_total = h.unset_total })

empty : {A : Type 0} (xs : List A) → length xs ≡ 0 → xs ≡ []
empty [] e = refl
empty (x ∷ xs) e = absurd (omega arith)

pub map_ne : {A B : Type 0} (g : A → B) (xs : List A) → xs ≢ [] → map g xs ≢ []
map_ne g [] h e = h refl
map_ne g (x ∷ xs) h e = cc

pub add_all-IsPlain :
    (split : Bytes → Bytes × Bytes) (rs : List File)
    → rs ≢ []
    → length rs ≤ 2 ^ 32
    → IsPlain (add_all split rs new_file_index)
add_all-IsPlain split rs ne le =
    let f : FileIndex = add_all split rs new_file_index in
    let h : IsIndexOf split rs f = add_all-IsIndexOf split rs le in
    let a : IsAdding f =
      add_all-IsAdding split rs new_file_index
        (record { unset_columns = (refl, refl, refl); unset_total = refl }) in
    record {
      files = record {
        named = λ e. ne (empty rs (sym h.lengths.1 ∙ ap length e));
        sized = λ e. map_ne _ rs ne (sym h.sizes ∙ ap values e);
      };
      dirs = h.dirs;
      unset_columns = a.unset_columns;
      unset_total = a.unset_total;
    }

-- Files are added to a new index, at least one and at most 2 ^ 32, and the index is appended to a
-- header in which no tag has the number of a column. Then `FileIndexHeader` gives the same index back.
pub file_index_header-add_all :
    (split : Bytes → Bytes × Bytes) (rs : List File) (hdr : Header)
    → rs ≢ []
    → length rs ≤ 2 ^ 32
    → All IsOtherTag hdr.tags
    → let f = add_all split rs new_file_index in
      (hdr' : Header) × (append f hdr ≡ (ok tt, hdr')) × (file_index_header hdr' ≡ ok f)
file_index_header-add_all split rs hdr ne le other =
    file_index_header-append (add_all split rs new_file_index) hdr (add_all-IsPlain split rs ne le)
      other

rows-numbered : (i : ℕ) (ts : List Tag) → rows (numbered i ts) ≡ rows ts
rows-numbered i [] = refl
rows-numbered i (t ∷ ts) = ap (◌∷◌ (t.head.tag, content t.body)) (rows-numbered (i + 1) ts)

read_back-content : (d : TagData) → content (read_back d) ≡ content d
read_back-content (tag_bytes b n) = refl
read_back-content (tag_string vs n) = refl
read_back-content (tag_uint16 vs) = refl
read_back-content (tag_uint32 vs) = refl
read_back-content (tag_uint64 vs) = refl
read_back-content unset = refl

rows-found : (base : ℕ) (ts : List Tag) → rows (map (found base) ts) ≡ rows ts
rows-found base [] = refl
rows-found base (t ∷ ts) = rw (read_back-content t.body, rows-found base ts)

-- What is found in a header is found in what is read of it.
pub file_index_header-read_header :
    (hdr : Header) (region o : ℕ)
    → file_index_header (read_header region o hdr) ≡ file_index_header hdr
unfolding set_region_tag
file_index_header-read_header hdr region o =
    file_index_header-rows hdr (read_header region o hdr)
      (rows-found (data_start o hdr) (numbered 1 hdr.tags) ∙ rows-numbered 1 hdr.tags)

module _ {ahead : ℕ → ℕ → ℕ} (law : IsAhead ahead) {sort : List Tag → List Tag}
    (sorts : IsSort sort) where
  -- A plain index, with columns that can be written, is appended to an open header with room for it
  -- and no tag with the number of a column. Then `Next` reads a header from its encoding, and
  -- `FileIndexHeader` of that gives the same index back.
  pub file_index_header-next :
      (f : FileIndex) (hdr : Header) (region o : ℕ) (rest : Bytes) (fault : Option ℕ)
      → IsPlain f
      → All IsAddable (file_tags f)
      → IsOpen hdr region
      → All IsOtherTag hdr.tags
      → hdr.off + room (file_tags f) + 16 < 2 ^ 32
      → (built : Header) × (got : Header) × (append f hdr ≡ (ok tt, built))
        × (next ahead sort (reader o (padding o ++ (encoded built ++ rest)) fault)
            ≡ (ok got, reader (o + length (padding o) + length (encoded built)) rest fault))
        × (file_index_header got ≡ ok f)
  file_index_header-next f hdr region o rest fault plain add_ok opened other fits =
      let (built, ran, held) = file_index_header-append f hdr plain other in
      let (built', ran', opened', le, lt) =
        add_tags-IsOpen (file_tags f) hdr region opened add_ok (omega arith) in
      let same : built' ≡ built =
        ap (λ (x : Result Error (Unit {0}) × Header). x.1)
          (sym ran' ∙ sym (file_tags-Adds f plain.files hdr) ∙ ran) in
      let readable : IsReadable built region =
        subst (λ (h : Header). IsReadable h region) same
          (IsOpen-IsReadable built' region opened' (omega arith) (omega arith)) in
      (
        built,
        read_header region o built,
        ran,
        next-encoded law sorts built region o rest fault readable,
        file_index_header-read_header built region o ∙ held,
      )
