-- ===== src/Tar2rpm/Built.antt =====
-- What stands in the payload header of a package that tar2rpm builds.
use go_rpm.Base.{
  length, ℕ, Bytes, List, All, arith, [], codes, Bool-cases, ◌++◌, ◌==◌, ◌∷◌, inl, inr, ◌≢◌, ◌≤◌,
  ◌^◌, ◌≡◌, All-append, ◌∙◌, ap, sym, append_assoc,
}
use go_rpm.Io.{ok}
use go_rpm.Tag.{Tag}
use go_rpm.Header.{
  Header, new_payload_header, add_string_array, add_string, add_string_of, add_int32,
}
use go_rpm.Tar2rpm.{Package}
use go_rpm.Tar2rpm.Tags.{
  package_tags, append-Adds, string_tag, optional, script_tags, required_tags,
}
use go_rpm.Files.{FileIndex, File, add_all, new_file_index}
use go_rpm.Files.Append.{file_index_header}
use go_rpm.Tar2rpm.Build.{add_fixed, build_header}
use go_rpm.Files.Appended.{strings_tag, int32_tag, Adds-next, HasFiles, file_tags, file_tags-Adds}
use go_rpm.Header.Adds.{IsGiven, Adds, Adds-one, rows, add_tags-rows, Adds-bind, add_tags}
use go_rpm.Files.Found.{IsOtherTag, IsPlain}
use go_rpm.Tag.Numbers.{
  rpmtag_headeri18ntable, rpmtag_prein, rpmtag_preinprog, rpmtag_postin, rpmtag_encoding,
  rpmtag_postinprog, rpmtag_payloadformat, rpmtag_os, rpmtag_buildtime, rpmtag_payloaddigestalgo,
  hash_sha256, rpmtag_filedigestalgo, rpmtag_payloaddigest,
}
use go_rpm.Files.RoundTrip.{add_all-IsPlain, given, file_index_header-tags}

-- The tags that every package has.
abbrev pub fixed_tags : Bytes → List Tag
fixed_tags digest =
    strings_tag rpmtag_headeri18ntable (codes "C" ∷ [])
    ∷ string_tag rpmtag_encoding (codes "utf-8")
    ∷ string_tag rpmtag_payloadformat (codes "cpio")
    ∷ string_tag rpmtag_os (codes "linux")
    ∷ int32_tag rpmtag_buildtime (0 ∷ [])
    ∷ int32_tag rpmtag_payloaddigestalgo (hash_sha256 ∷ [])
    ∷ int32_tag rpmtag_filedigestalgo (hash_sha256 ∷ [])
    ∷ strings_tag rpmtag_payloaddigest (digest ∷ [])
    ∷ []

add_fixed-Adds : (digest : Bytes) → Adds (fixed_tags digest) (add_fixed digest)
unfolding add_fixed add_string_array add_string add_string_of add_int32
add_fixed-Adds digest = Adds-next _ _ _ (
    Adds-next _ _ _ (
      Adds-next _ _ _
        (Adds-next _ _ _ (Adds-next _ _ _ (Adds-next _ _ _ (Adds-next _ _ _ (Adds-one _)))))))

-- Given data under a number that is no column's.
abbrev IsPlainTag : Tag → Type 0
IsPlainTag t = IsGiven t.body × IsOtherTag t

optional-IsPlainTag :
    (t : ℕ) (v : Bytes) (ts : List Tag)
    → IsOtherTag (string_tag t [])
    → All IsPlainTag ts
    → All IsPlainTag (optional t v ++ ts)
optional-IsPlainTag t [] ts other h = h
optional-IsPlainTag t (b ∷ v) ts other h = ((tt, other), h)

script-IsPlainTag :
    (t p : ℕ) (text prog : Bytes) (ts : List Tag)
    → IsOtherTag (string_tag t [])
    → IsOtherTag (string_tag p [])
    → All IsPlainTag ts
    → All IsPlainTag (script_tags t p (record { text = text; prog = prog }) ++ ts)
script-IsPlainTag t p [] prog ts o o' h = h
script-IsPlainTag t p (b ∷ v) prog ts o o' h = ((tt, o), ((tt, o'), h))

required_tags-IsPlainTag : (ps : List Bytes) → All IsPlainTag (required_tags ps)
required_tags-IsPlainTag ps = elim (Bool-cases (length ps == 0)) [
  | inl e ↦ rw e tt
  | inr e ↦ rw e ((tt, ground arith), ((tt, ground arith), ((tt, ground arith), tt)))
]

package_tags-IsPlainTag : (c : Package) → All IsPlainTag (package_tags c)
package_tags-IsPlainTag c = optional-IsPlainTag _ c.name _ (ground arith) (
    optional-IsPlainTag _ c.version _ (ground arith) (
      optional-IsPlainTag _ c.release _ (ground arith) (
        optional-IsPlainTag _ c.arch _ (ground arith) (
          optional-IsPlainTag _ c.license _ (ground arith) (
            optional-IsPlainTag _ c.url _ (ground arith) (
              optional-IsPlainTag _ c.bug_url _ (ground arith) (
                optional-IsPlainTag _ c.packager _ (ground arith) (
                  optional-IsPlainTag _ c.vendor _ (ground arith) (
                    optional-IsPlainTag _ c.summary _ (ground arith) (
                      optional-IsPlainTag _ c.description _ (ground arith) (
                        script-IsPlainTag rpmtag_prein rpmtag_preinprog c.pre_install.text
                          c.pre_install.prog _ (ground arith) (ground arith)
                          (script-IsPlainTag rpmtag_postin rpmtag_postinprog c.post_install.text
                            c.post_install.prog _ (ground arith) (ground arith)
                            (
                              (tt, ground arith),
                              (
                                (tt, ground arith),
                                ((tt, ground arith), required_tags-IsPlainTag c.requires),
                              ),
                            )))))))))))))

All-weaken_to :
    {A : Type 0} (P Q : A → Type 0) (xs : List A) → ((x : A) → P x → Q x) → All P xs → All Q xs
All-weaken_to P Q [] f h = tt
All-weaken_to P Q (x ∷ xs) f (p, h) = (f x p, All-weaken_to P Q xs f h)

fixed_tags-IsPlainTag : (digest : Bytes) → All IsPlainTag (fixed_tags digest)
fixed_tags-IsPlainTag digest = (
  (tt, ground arith),
  (
    (tt, ground arith),
    (
      (tt, ground arith),
      (
        (tt, ground arith),
        ((tt, ground arith), ((tt, ground arith), ((tt, ground arith), ((tt, ground arith), tt)))),
      ),
    ),
  ),
)

-- `main` adds just the tags of the configuration, those that every package has, and those of the
-- file index.
pub build_header-Adds :
    (c : Package) (digest : Bytes) (f : FileIndex)
    → HasFiles f
    → Adds ((package_tags c ++ fixed_tags digest) ++ file_tags f) (build_header c digest f)
unfolding build_header
build_header-Adds c digest f h hdr =
    Adds-bind (package_tags c) (fixed_tags digest ++ file_tags f) _ _ (append-Adds c)
      (Adds-bind (fixed_tags digest) (file_tags f) _ _ (add_fixed-Adds digest) (file_tags-Adds f h))
      hdr
    ∙ ap (λ (ts : List Tag). add_tags ts hdr)
        (sym (append_assoc (package_tags c) (fixed_tags digest) (file_tags f)))

-- The payload header of a package with files, at least one and at most 2 ^ 32, has the tags of the
-- configuration, then those that every package has, then those of the file index, and
-- `FileIndexHeader` finds the index in it.
pub file_index_header-build_header :
    (c : Package) (digest : Bytes) (split : Bytes → Bytes × Bytes) (rs : List File)
    → rs ≢ []
    → length rs ≤ 2 ^ 32
    → let f = add_all split rs new_file_index in
      (hdr : Header) × (build_header c digest f new_payload_header ≡ (ok tt, hdr))
      × (rows hdr.tags ≡ rows ((package_tags c ++ fixed_tags digest) ++ file_tags f))
      × (file_index_header hdr ≡ ok f)
unfolding new_payload_header
file_index_header-build_header c digest split rs ne le =
    let f : FileIndex = add_all split rs new_file_index in
    let plain : IsPlain f = add_all-IsPlain split rs ne le in
    let front : List Tag = package_tags c ++ fixed_tags digest in
    let plain_tags : All IsPlainTag front =
      All-append IsPlainTag (package_tags c) (fixed_tags digest) (package_tags-IsPlainTag c)
        (fixed_tags-IsPlainTag digest) in
    let (hdr, ran, held) = add_tags-rows (front ++ file_tags f) new_payload_header (
      All-append (λ t. IsGiven t.body) front (file_tags f)
        (All-weaken_to IsPlainTag (λ t. IsGiven t.body) front (λ t h. h.0) plain_tags) (given f)) in
    (
      hdr,
      build_header-Adds c digest f plain.files new_payload_header ∙ ran,
      held,
      file_index_header-tags f front hdr plain
          (All-weaken_to IsPlainTag IsOtherTag front (λ t h. h.1) plain_tags) held,
    )
