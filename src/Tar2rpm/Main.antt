-- ===== src/Tar2rpm/Main.antt =====
-- tar2rpm.go: `main`, from the configuration and the tar archive to the package. The buffered standard
-- output is any io.Writer; the SHA-256 digits, path.Join, filepath.Split and sort.Sort are parameters.
use go_rpm.Base.{ℕ, Bytes, List, Option, []}
use go_rpm.Io.{Op, Result, WriteReply, buffer_write, ok, err}
use go_rpm.Tag.{Error, Tag}
use go_rpm.Header.{Header, new_payload_header}
use go_rpm.Files.{FileIndex}
use go_rpm.Scpio.Writer.{Writer, new_writer}
use go_rpm.Tar2rpm.{Package}
use go_rpm.Tar2rpm.Build.{build_header}
use go_rpm.Tar2rpm.Index.{TarEntry, IndexError, index}
use go_rpm.Tar2rpm.Packages.{write_package}

-- What `main` ends with where it does not write a package.
pub data MainError : Type 0 where
  not_indexed : IndexError → MainError
  not_packed : Error → MainError

abbrev packed : {S : Type 0} → Result Error ℕ × S → Result MainError ℕ × S
packed (ok n, w) = (ok n, w)
packed (err e, w) = (err (not_packed e), w)

module _ (digest : Bytes → Bytes) {S : Type 0} (io_write : Bytes → S → WriteReply S)
    (sort : List Tag → List Tag) where
  -- `main`, with the payload header that was built.
  write_built : Package → Bytes → Result Error (Unit {0}) × Header → Op S MainError ℕ
  write_built c payload (ok u, hdr) w = packed (write_package digest io_write sort c hdr payload w)
  write_built c payload (err e, hdr) w = (err (not_packed e), w)

  -- `main`, with the file index and the payload.
  write_indexed : Package → Result IndexError FileIndex × Writer Bytes → Op S MainError ℕ
  unfolding write_built
  write_indexed c (ok idx, s) w =
      write_built c s.w (build_header c (digest s.w) idx new_payload_header) w
  write_indexed c (err e, s) w = (err (not_indexed e), w)

  -- `main`, with its configuration and the entries of the tar archive. The tags of the configuration
  -- are added with the others: nothing else reads the header in between.
  unfoldable pub make_package :
      (Bytes → Bytes → Bytes)
      → (Bytes → Bytes × Bytes)
      → Package
      → List TarEntry
      → Option ℕ
      → Op S MainError ℕ
  unfolding write_indexed
  make_package path_join split c es fault w =
      write_indexed c (index buffer_write digest path_join split es fault (new_writer [])) w
