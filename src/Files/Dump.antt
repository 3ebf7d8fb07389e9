-- ===== src/Files/Dump.antt =====
-- files.go: `Dump`, with its checks and its panics. The text of a row as fmt prints it, path.Join, and
-- the tabwriter, which is an io.Writer with `Flush`, are parameters.
use go_rpm.Base.{
  length, ℕ, Bytes, List, get_elem?, if◌then◌else◌, ◌∷◌, ◌++◌, Option, [], codes, ◌==◌, some, ◌+◌,
  none,
}
use go_rpm.Io.{Op, Result, IoError, WriteReply, ok, err, pure, fail, ◌>>=◌, ◌>>◌}
use go_rpm.Tag.Data.{send}
use go_rpm.Tag.Read.{lift_io}
use go_rpm.Tag.{Error, index_out_of_range, err_file_index}
use go_rpm.Files.{FileIndex, fsize, def, not_u32, checked_lengths, first_mismatch, root_user}
use go_rpm.Files.Mode.{os_mode}
use go_rpm.Files.Letters.{hex_encode}

-- The values of a row, in the order in which they are printed.
pub record Row : Type 0 where
  pub verify : Bytes
  pub flags : Bytes
  pub digest : Bytes
  pub mode : ℕ
  pub user : Bytes
  pub group : Bytes
  pub size : ℕ
  pub mtime : ℕ
  pub path : Bytes

-- `xs[i]`, which panics out of bounds.
abbrev pub element : {A : Type 0} → Option A → Result Error A
element none = err index_out_of_range
element (some a) = ok a

-- An element of a column of the receiver.
abbrev pub column : {A : Type 0} → (FileIndex → List A) → ℕ → Op FileIndex Error A
column xs i f = (element (get_elem? (xs f) i), f)

-- "-".
abbrev pub dash : Bytes
dash = codes "-"

-- What stands behind the path of a link.
unfoldable pub arrow : Bytes → Bytes
arrow [] = []
arrow (b ∷ l) = codes " -> " ++ b ∷ l

-- A row of these values and the size of the file.
abbrev pub dumped : ℕ → ℕ → Bytes → ℕ → Bytes → Bytes → ℕ → Bytes → ℕ → Op FileIndex Error Row
dumped verify flags digest mode user group mtime path i f = (
  ok (record {
    verify = hex_encode (not_u32 verify);
    flags = hex_encode flags;
    digest = def digest [] dash;
    mode = os_mode mode;
    user = def user root_user dash;
    group = def group root_user dash;
    size = fsize i f;
    mtime = mtime;
    path = path;
  }),
  f,
)

abbrev of_result : {S A : Type 0} → Result Error A → Op S Error A
of_result (ok a) = pure a
of_result (err e) = fail e

module _ (path_join : Bytes → Bytes → Bytes) where
  unfoldable pub file : ℕ → Op FileIndex Error Bytes
  unfolding arrow
  file i = do
    d ← column (λ f. f.dir_indexes) i
    n ← column (λ f. f.name) i
    l ← column (λ f. f.linkto) i
    s ← column (λ f. f.dir_names.s) d
    pure (path_join s n ++ arrow l)

  unfoldable pub dump_index : ℕ → Op FileIndex Error Row
  unfolding file
  dump_index i = do
    verify ← column (λ f. f.verify) i
    flags ← column (λ f. f.flags) i
    digest ← column (λ f. f.digest) i
    mode ← column (λ f. f.mode) i
    user ← column (λ f. f.user) i
    group ← column (λ f. f.group) i
    mtime ← column (λ f. f.mtime) i
    path ← file i
    dumped verify flags digest mode user group mtime path i

  -- The loop over the names, from place `i` on.
  unfoldable pub dump_rows : List Bytes → ℕ → Op FileIndex Error (List Row)
  unfolding dump_index
  dump_rows [] i = pure []
  dump_rows (n ∷ ns) i = do row ← dump_index i; rows ← dump_rows ns (i + 1); pure (row ∷ rows)

  -- What `Dump` shows, its error or its panic, whatever the writers do.
  unfoldable pub shown : Op FileIndex Error (List Row)
  unfolding dump_rows
  shown f =
      if length f.name == 0
      then (ok [], f)
      else elim (first_mismatch (length f.name) (checked_lengths f)) [
        | some i ↦ (err (err_file_index i), f)
        | none ↦ dump_rows f.name 0 f
      ]

  module _ (line : Row → Bytes) {T : Type 0} (tab_write : Bytes → T → WriteReply T)
      (flush : Op T IoError (Unit {0})) where
    -- The loop over the names, each row of which is written as it is made.
    unfoldable pub write_rows : FileIndex → List Bytes → ℕ → Op T Error (Unit {0})
    write_rows f [] i = pure tt
    write_rows f (n ∷ ns) i = do
      row ← of_result (dump_index i f).0
      send tab_write (line row)
      write_rows f ns (i + 1)

    -- `Dump`, on a new tabwriter.
    unfoldable pub dump : FileIndex → Op T Error (Unit {0})
    unfolding write_rows
    dump f =
        if length f.name == 0
        then pure tt
        else elim (first_mismatch (length f.name) (checked_lengths f)) [
          | some i ↦ fail (err_file_index i)
          | none ↦ write_rows f f.name 0 >> lift_io flush
        ]
