-- ===== src/Tar2rpm/Indexed.antt =====
-- The payload and the file index that `index` makes of a tar archive.
use go_rpm.Scpio.Read
use go_rpm.Scpio.Written.{
  out, write-Emits, write-Succeeds, write_header_or_trailer-Emits, write_header_or_trailer-Succeeds,
  padded, record_of,
}
use go_rpm.Base.{
  length, ℕ, Bytes, List, ◌≡◌, if◌then◌else◌, none, ◌∷◌, ◌++◌, ◌+◌, ◌==◌, [], Bool-cases, arith,
  inr, ap, sym, append-nil, inl, true, refl, All, ◌<◌, length-append, ◌^◌, ◌∙◌, append_assoc, false,
  ◌%◌, map,
}
use go_rpm.Io.{Result, WriteReply, IsWriter, NeverFails, ok, err}
use go_rpm.Scpio.Writer.{Writer, write_header, new_writer}
use go_rpm.Tag.{Error}
use go_rpm.Files.{File, FileIndex, add, add_all, new_file_index}
use go_rpm.Tar2rpm.Index.{
  TarEntry, copy_pieces, copy_data, index_entries, index, file_of, concat, type_reg,
}
use go_rpm.Scpio.RoundTrip.{Entry, archive, read_entries, entry_size, read_entries-archive}
use go_rpm.Scpio.Read.{reader}
use go_rpm.Io.Emits.{Emits-of_Succeeds}
use go_rpm.Files.Mode

-- What an entry puts into the payload.
abbrev pub data_of : TarEntry → Bytes
data_of e = if e.typeflag == type_reg then concat e.pieces else []

-- The payload's entries, numbered from `i` on.
abbrev pub entries_of : ℕ → List TarEntry → List Entry
entries_of i [] = []
entries_of i (e ∷ es) = (i, data_of e) ∷ entries_of (i + 1) es

-- An entry that can be packed: its mode is taken, and the data of a regular file are all there.
pub record IsPackable (e : TarEntry) : Type 0 where
  pub taken : (v : ℕ) × (Mode.mode e.mode ≡ ok v)
  pub complete : (e.typeflag ≡ type_reg) → (e.fault ≡ none) × (e.size ≡ length (concat e.pieces))

abbrev pub mode_of : Result Error ℕ → ℕ
mode_of (ok v) = v
mode_of (err x) = 0

module _ {S : Type 0} {io_write : Bytes → S → WriteReply S} {content : S → Bytes}
    (law : IsWriter io_write content) (never : NeverFails io_write) (digest : Bytes → Bytes) where
  copy_pieces-done :
      (bs : List Bytes) (n : ℕ) (s : Writer S)
      → (s' : Writer S) × (copy_pieces io_write digest bs none n s
          ≡ (ok (n + length (concat bs)), s'))
        × (content s'.w ≡ content s.w ++ concat bs)
        × (s'.off ≡ s.off + length (concat bs))
  unfolding copy_pieces
  copy_pieces-done [] n s =
      let same : n ≡ n + 0 = omega arith in
      (s, ap (λ (k : ℕ). (ok k, s)) same, sym (append-nil (content s.w)), omega arith)
  copy_pieces-done (b ∷ bs) n s =
      let (m, s1, ran, wrote, (_, off)) =
        Emits-of_Succeeds (out law) b s _ _ (write-Emits law b s) (write-Succeeds law never b s) in
      let (s2, ran2, wrote2, off2) = copy_pieces-done bs (n + length b) s1 in
      let total : n + length b + length (concat bs) ≡ n + length (b ++ concat bs) =
        omega (arith, length-append b (concat bs)) in
      (
        s2,
        rw ran ran2 ∙ ap (λ (k : ℕ). (ok k, s2)) total,
        wrote2
            ∙ ap (λ (x : Bytes). x ++ concat bs) wrote
            ∙ append_assoc (content s.w) b (concat bs),
        omega (arith, length-append b (concat bs)),
      )

  -- The digest in the file index: of regular files only.
  abbrev pub sum_of : TarEntry → Bytes
  sum_of e = if e.typeflag == type_reg then digest (concat e.pieces) else []

  copy_data-done :
      (e : TarEntry) (s : Writer S)
      → IsPackable e
      → (s' : Writer S) × (copy_data io_write digest e s ≡ (ok (sum_of e), s'))
        × (content s'.w ≡ content s.w ++ data_of e)
        × (s'.off ≡ s.off + length (data_of e))
  unfolding copy_data
  copy_data-done e s p = elim (Bool-cases (e.typeflag == type_reg)) [
    | inr other ↦ rw other (s, refl, sym (append-nil (content s.w)), omega arith)
    | inl regular ↦
        let (sound, full) = p.complete (ground arith) in
        let (s1, ran, wrote, off) = copy_pieces-done e.pieces 0 s in
        let size : (0 + length (concat e.pieces) == e.size) ≡ true = ground arith in
        rw (regular, sound, ran, size) (s1, refl, wrote, off)
  ]

  module _ (path_join : Bytes → Bytes → Bytes) (split : Bytes → Bytes × Bytes) where
    -- The files of the entries.
    abbrev pub files_of : List TarEntry → List File
    files_of [] = []
    files_of (e ∷ es) =
        file_of io_write digest path_join split e (mode_of (Mode.mode e.mode)) (sum_of e)
        ∷ files_of es

    index_entries-step :
        (e : TarEntry) (es : List TarEntry) (i : ℕ) (idx : FileIndex) (s s1 s2 : Writer S) (v : ℕ)
        (sum : Bytes)
        → Mode.mode e.mode ≡ ok v
        → write_header io_write i s ≡ (ok tt, s1)
        → copy_data io_write digest e s1 ≡ (ok sum, s2)
        → index_entries io_write digest path_join split (e ∷ es) none i idx s
          ≡ index_entries io_write digest path_join split es none
              ((i + 1) % 2 ^ 32)
              (add split (file_of io_write digest path_join split e v sum) idx)
              s2
    unfolding index_entries
    index_entries-step e es i idx s s1 s2 v sum taken ran ran2 =
        rw (taken, index_entries) (rw ran (rw ran2 refl))

    index_entries-done :
        (es : List TarEntry) (i : ℕ) (idx : FileIndex) (s : Writer S)
        → All IsPackable es
        → i + length es < 2 ^ 32
        → (s' : Writer S) × (index_entries io_write digest path_join split es none i idx s
            ≡ (ok (add_all split (files_of es) idx), s'))
          × (content s'.w ≡ content s.w ++ archive s.off (entries_of i es))
    unfolding index_entries add_all
    index_entries-done [] i idx s h lt =
        let (_, s1, ran, wrote, _) =
          Emits-of_Succeeds (out law) _ s _ _ (write_header_or_trailer-Emits law 0 true s)
            (write_header_or_trailer-Succeeds law never 0 true s) in
        (s1, rw ran refl, wrote)
    index_entries-done (e ∷ es) i idx s (p, h) lt =
        let (v, taken) = p.taken in
        let (_, s1, ran, wrote, off) =
          Emits-of_Succeeds (out law) _ s _ _ (write_header_or_trailer-Emits law i false s)
            (write_header_or_trailer-Succeeds law never i false s) in
        let (s2, ran2, wrote2, off2) = copy_data-done e s1 p in
        let next : (i + 1) % 2 ^ 32 ≡ i + 1 = omega arith in
        let m : ℕ = mode_of (Mode.mode e.mode) in
        let taken' : Mode.mode e.mode ≡ ok m = taken ∙ ap ok (sym (ap mode_of taken)) in
        let idx' : FileIndex =
          add split (file_of io_write digest path_join split e m (sum_of e)) idx in
        let (s3, ran3, wrote3) = index_entries-done es (i + 1) idx' s2 h (omega arith) in
        let head : Bytes = padded s.off (record_of i false) in
        let rest : ℕ → Bytes = λ o. archive o (entries_of (i + 1) es) in
        let place : s2.off ≡ s.off + length head + length (data_of e) = omega arith in
        (
          s3,
          index_entries-step e es i idx s s1 s2 m (sum_of e) taken' ran ran2
              ∙ ap (λ (j : ℕ). index_entries io_write digest path_join split es none j idx' s2) next
              ∙ ran3,
          wrote3
              ∙ ap (λ (o : ℕ). content s2.w ++ rest o) place
              ∙ ap (λ (x : Bytes). x ++ rest (s.off + length head + length (data_of e)))
                  (wrote2 ∙ ap (λ (x : Bytes). x ++ data_of e) wrote)
              ∙ append_assoc (content s.w ++ head) (data_of e) _
              ∙ append_assoc (content s.w) head _,
        )

    All-numbered :
        (i : ℕ) (es : List TarEntry)
        → i + length es < 2 ^ 32
        → All (λ e. e.0 < 2 ^ 32) (entries_of i es)
    All-numbered i [] lt = tt
    All-numbered i (e ∷ es) lt = (omega arith, All-numbered (i + 1) es (omega arith))

    -- On an io.Writer that never fails, `index` of fewer than 2 ^ 32 entries that can be packed
    -- succeeds. The index is that of the files of the entries, in order, and a `Reader` of package
    -- scpio that is told the sizes of their data gives back the numbers from 0 on and the data, and
    -- reads what was written to its end.
    pub index-read_entries :
        (es : List TarEntry) (w : S)
        → All IsPackable es
        → length es < 2 ^ 32
        → (s' : Writer S) × (index io_write digest path_join split es none (new_writer w)
            ≡ (ok (add_all split (files_of es) new_file_index), s'))
          × (x : Bytes) × (content s'.w ≡ content w ++ x)
          × (read_entries (map entry_size (entries_of 0 es)) 0 (Read.reader 0 x none)
              ≡ (ok (entries_of 0 es), Read.reader (length x) [] none))
    unfolding index
    index-read_entries es w h lt =
        let (s', ran, wrote) =
          index_entries-done es 0 new_file_index (new_writer w) h (omega arith) in
        let unpad : 0 + length (archive 0 (entries_of 0 es))
            ≡ length (archive 0 (entries_of 0 es)) =
          omega arith in
        (
          s',
          ran,
          archive 0 (entries_of 0 es),
          wrote,
          rw unpad at
              (read_entries-archive (entries_of 0 es) 0 0 none (All-numbered 0 es (omega arith))),
        )
