-- ===== src/Tar2rpm/Index.antt =====
-- tar2rpm.go: `index`, from a tar archive to the payload and the file index. path.Join, and the
-- hex digits of a SHA-256 sum, are parameters, and a tar.Reader is the entries that it gives.
use go_rpm.Base.{
  ℕ, Bytes, List, Option, some, ◌∷◌, if◌then◌else◌, ◌==◌, [], ◌+◌, ◌++◌, length, ◌%◌, none, ◌^◌,
}
use go_rpm.Io.{Op, Result, WriteReply, pure, fail, ◌>>=◌, ◌>>◌, ok, err}
use go_rpm.Scpio.Writer.{Writer, write, write_header, close}
use go_rpm.Tag.{Error}
use go_rpm.Files.{File, FileIndex, add, new_file_index}
use go_rpm.Scpio
use go_rpm.Files.Mode

pub data IndexError : Type 0 where
  tar_failed : ℕ → IndexError
  mode_refused : Error → IndexError
  not_written : Scpio.Error → IndexError
  size_mismatch : ℕ → ℕ → IndexError

-- A tar.Header with the data behind it, as io.Copy reads them piece by piece, and the error behind
-- those. `mod_time` is in seconds, modulo 2 ^ 64.
pub record TarEntry : Type 0 where
  pub name : Bytes
  pub linkname : Bytes
  pub mod_time : ℕ
  pub size : ℕ
  pub mode : ℕ
  pub typeflag : ℕ
  pub pieces : List Bytes
  pub fault : Option ℕ

-- tar.TypeReg.
abbrev pub type_reg : ℕ
type_reg = 0x30

-- What reaches the hash.
abbrev pub concat : List Bytes → Bytes
concat [] = []
concat (b ∷ bs) = b ++ concat bs

abbrev pub lift_reply : {S A : Type 0} → Result Scpio.Error A × S → Result IndexError A × S
lift_reply (ok a, s) = (ok a, s)
lift_reply (err e, s) = (err (not_written e), s)

-- A call of the archive writer within `index`.
abbrev pub lift : {S A : Type 0} → Op S Scpio.Error A → Op S IndexError A
lift m s = lift_reply (m s)

module _ {S : Type 0} (io_write : Bytes → S → WriteReply S) (digest : Bytes → Bytes) where
  -- io.Copy to the archive, with `n` bytes copied so far.
  unfoldable pub copy_pieces : List Bytes → Option ℕ → ℕ → Op (Writer S) IndexError ℕ
  copy_pieces [] (some k) n = fail (tar_failed k)
  copy_pieces [] none n = pure n
  copy_pieces (b ∷ bs) fault n = do lift (write io_write b); copy_pieces bs fault (n + length b)

  -- The data of a regular file, and its digest.
  unfoldable pub copy_data : TarEntry → Op (Writer S) IndexError Bytes
  unfolding copy_pieces
  copy_data e =
      if e.typeflag == type_reg
      then (do
        n ← copy_pieces e.pieces e.fault 0
        if n == e.size then pure (digest (concat e.pieces)) else fail (size_mismatch n e.size))
      else pure []

  module _ (path_join : Bytes → Bytes → Bytes) (split : Bytes → Bytes × Bytes) where
    abbrev pub file_of : TarEntry → ℕ → Bytes → File
    file_of e mode sum = record {
      name = path_join (0x2f ∷ []) e.name;
      user = [];
      group = [];
      mode = mode;
      link_to = e.linkname;
      m_time = e.mod_time % 2 ^ 32;
      digest = sum;
      no_verify = 0;
      size = e.size;
      flags = 0;
    }

    -- The loop, with the error of the tar.Reader behind the entries.
    unfoldable pub index_entries :
        List TarEntry → Option ℕ → ℕ → FileIndex → Op (Writer S) IndexError FileIndex
    unfolding copy_data
    index_entries [] (some k) i idx = fail (tar_failed k)
    index_entries [] none i idx = lift (close io_write) >> pure idx
    index_entries (e ∷ es) fault i idx = elim (Mode.mode e.mode) [
      | err x ↦ fail (mode_refused x)
      | ok mode ↦ do
        lift (write_header io_write i)
        sum ← copy_data e
        index_entries es fault ((i + 1) % 2 ^ 32) (add split (file_of e mode sum) idx)
    ]

    unfoldable pub index : List TarEntry → Option ℕ → Op (Writer S) IndexError FileIndex
    unfolding index_entries
    index es fault = index_entries es fault 0 new_file_index
