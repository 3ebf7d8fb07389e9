-- ===== src/Tar2rpm/Tags.antt =====
-- tar2rpm.go: the tags that a package's configuration adds to a header.
use go_rpm.Base.{
  length, ℕ, Bytes, List, ◌∷◌, ◌++◌, [], map, ◌+◌, Bool-cases, if◌then◌else◌, ◌==◌, inl, inr,
}
use go_rpm.Tag.Numbers.{
  rpmtag_postinprog, rpmtag_name, rpmtag_requireflags, rpmtag_requirename, rpmtag_version,
  rpmtag_release, rpmtag_requireversion, rpmtag_arch, rpmtag_license, rpmtag_url, rpmtag_bugurl,
  rpmtag_packager, rpmtag_vendor, rpmtag_summary, rpmtag_description, rpmtag_prein,
  rpmtag_preinprog, rpmtag_postin, rpmtag_provideflags, rpmtag_providename, rpmtag_provideversion,
}
use go_rpm.Io.{Op, ◌>>◌}
use go_rpm.Tag.{Error, Tag, string_type, tag_string}
use go_rpm.Header.{Header, new_tag, add_int32, add_string, add_string_of, add_string_array}
use go_rpm.Tar2rpm.{
  add, append, provides, requires, Package, Sense, rpmtag_name, Script, add_script, add_senses,
  kept, with_self,
}
use go_rpm.Config.{Script}
use go_rpm.Header.Adds.{Adds, Adds-bind, Adds-none, Adds-one}
use go_rpm.Files.Appended.{int32_tag, strings_tag}

-- A tag of one string.
abbrev pub string_tag : ℕ → Bytes → Tag
string_tag t v = new_tag t string_type 1 (tag_string (v ∷ []) (length v + 1))

-- The tag of a string that is not empty.
abbrev pub optional : ℕ → Bytes → List Tag
optional t [] = []
optional t (b ∷ v) = string_tag t (b ∷ v) ∷ []

abbrev pub script_tags_of : Bytes → List Tag → List Tag
script_tags_of [] ts = []
script_tags_of (b ∷ v) ts = ts

abbrev pub script_tags : ℕ → ℕ → Script → List Tag
script_tags t prog s = script_tags_of s.text (string_tag t s.text ∷ string_tag prog s.prog ∷ [])

abbrev pub sense_tags : ℕ → ℕ → ℕ → List Sense → List Tag
sense_tags flags names versions ss =
    int32_tag flags (map (λ (s : Sense). s.flags) ss)
    ∷ strings_tag names (map (λ (s : Sense). s.name) ss)
    ∷ strings_tag versions (map (λ (s : Sense). s.version) ss)
    ∷ []

abbrev pub required_tags : List Bytes → List Tag
required_tags ps =
    if length ps == 0
    then []
    else sense_tags rpmtag_requireflags rpmtag_requirename rpmtag_requireversion (kept ps [])

-- The tags of a package, in order.
abbrev pub package_tags : Package → List Tag
package_tags c =
    optional rpmtag_name c.name
    ++ (optional rpmtag_version c.version
        ++ (optional rpmtag_release c.release
            ++ (optional rpmtag_arch c.arch
                ++ (optional rpmtag_license c.license
                    ++ (optional rpmtag_url c.url
                        ++ (optional rpmtag_bugurl c.bug_url
                            ++ (optional rpmtag_packager c.packager
                                ++ (optional rpmtag_vendor c.vendor
                                    ++ (optional rpmtag_summary c.summary
                                        ++ (optional rpmtag_description c.description
                                            ++ (script_tags rpmtag_prein rpmtag_preinprog
                                                  c.pre_install
                                                ++ (script_tags rpmtag_postin rpmtag_postinprog
                                                      c.post_install
                                                    ++ (sense_tags rpmtag_provideflags
                                                          rpmtag_providename rpmtag_provideversion
                                                          (kept (with_self c).provides [])
                                                        ++ required_tags c.requires)))))))))))))

add-Adds : (t : ℕ) (v : Bytes) → Adds (optional t v) (add t v)
unfolding add add_string add_string_of
add-Adds t [] = Adds-none
add-Adds t (b ∷ v) = Adds-one (string_tag t (b ∷ v))

script_tags-Adds :
    (t prog : ℕ) (text p : Bytes)
    → Adds
        (script_tags t prog (record { text = text; prog = p }))
        (add_script t prog (record { text = text; prog = p }))
unfolding add_script add_string add_string_of
script_tags-Adds t prog [] p = Adds-none
script_tags-Adds t prog (b ∷ v) p =
    Adds-bind (string_tag t (b ∷ v) ∷ []) (string_tag prog p ∷ []) _ _ (Adds-one _) (Adds-one _)

senses-Adds :
    (flags names versions : ℕ) (ss : List Sense)
    → Adds (sense_tags flags names versions ss) (add_senses flags names versions ss)
unfolding add_int32 add_string_array
senses-Adds flags names versions ss = Adds-bind (int32_tag flags _ ∷ []) _ _ _ (Adds-one _) (
    Adds-bind (strings_tag names _ ∷ []) (strings_tag versions _ ∷ []) _ _ (Adds-one _)
      (Adds-one _))

requires-Adds : (c : Package) → Adds (required_tags c.requires) (requires c)
unfolding requires
requires-Adds c hdr = elim (Bool-cases (length c.requires == 0)) [
  | inl e ↦ rw e (Adds-none hdr)
  | inr e ↦ rw e (
      senses-Adds rpmtag_requireflags rpmtag_requirename rpmtag_requireversion (kept c.requires [])
        hdr)
]

provides-Adds :
    (c : Package)
    → Adds
        (sense_tags rpmtag_provideflags rpmtag_providename rpmtag_provideversion
          (kept (with_self c).provides []))
        (provides c)
unfolding provides
provides-Adds c = senses-Adds rpmtag_provideflags rpmtag_providename rpmtag_provideversion _

-- A string that may be absent, and then more.
then-Adds :
    (t : ℕ) (v : Bytes) (ts : List Tag) (k : Op Header Error (Unit {0}))
    → Adds ts k
    → Adds (optional t v ++ ts) (add t v >> k)
then-Adds t v ts k h = Adds-bind (optional t v) ts (add t v) k (add-Adds t v) h

-- `append` adds just the package's tags, in order.
pub append-Adds : (c : Package) → Adds (package_tags c) (append c)
unfolding append
append-Adds c = then-Adds _ c.name _ _ (
    then-Adds _ c.version _ _ (
      then-Adds _ c.release _ _ (
        then-Adds _ c.arch _ _ (
          then-Adds _ c.license _ _ (
            then-Adds _ c.url _ _ (
              then-Adds _ c.bug_url _ _ (
                then-Adds _ c.packager _ _ (
                  then-Adds _ c.vendor _ _ (
                    then-Adds _ c.summary _ _ (
                      then-Adds _ c.description _ _ (
                        Adds-bind _ _ _ _
                          (script_tags-Adds rpmtag_prein rpmtag_preinprog c.pre_install.text
                            c.pre_install.prog)
                          (Adds-bind _ _ _ _
                            (script_tags-Adds rpmtag_postin rpmtag_postinprog c.post_install.text
                              c.post_install.prog)
                            (Adds-bind _ _ _ _ (provides-Adds c) (requires-Adds c))))))))))))))
