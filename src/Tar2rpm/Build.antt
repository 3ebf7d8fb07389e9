-- ===== src/Tar2rpm/Build.antt =====
-- tar2rpm.go: the payload header that `main` builds.
use go_rpm.Base.{Bytes, codes, ◌∷◌, []}
use go_rpm.Io.{Op, ◌>>◌}
use go_rpm.Tag.{Error}
use go_rpm.Header.{Header, add_string, add_int32, add_string_array}
use go_rpm.Files.{FileIndex}
use go_rpm.Tar2rpm.{Package, append}
use go_rpm.Tag.Numbers.{
  rpmtag_headeri18ntable, rpmtag_encoding, rpmtag_payloadformat, rpmtag_os, rpmtag_buildtime,
  rpmtag_payloaddigestalgo, hash_sha256, rpmtag_filedigestalgo, rpmtag_payloaddigest,
}
use go_rpm.Files.Append

-- The tags that every package has, with the digest of the payload.
unfoldable pub add_fixed : Bytes → Op Header Error (Unit {0})
add_fixed digest = do
  add_string_array rpmtag_headeri18ntable (codes "C" ∷ [])
  add_string rpmtag_encoding (codes "utf-8")
  add_string rpmtag_payloadformat (codes "cpio")
  add_string rpmtag_os (codes "linux")
  add_int32 rpmtag_buildtime (0 ∷ [])
  add_int32 rpmtag_payloaddigestalgo (hash_sha256 ∷ [])
  add_int32 rpmtag_filedigestalgo (hash_sha256 ∷ [])
  add_string_array rpmtag_payloaddigest (digest ∷ [])

-- `main`, from the configuration to the index of the files, on a new header.
unfoldable pub build_header : Package → Bytes → FileIndex → Op Header Error (Unit {0})
unfolding add_fixed
build_header c digest idx = do append c; add_fixed digest; Append.append idx
