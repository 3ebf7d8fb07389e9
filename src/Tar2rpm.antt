-- ===== src/Tar2rpm.antt =====
-- cmd/tar2rpm/tar2rpm.go: the configuration of a package as tags of its header.
pub mod Senses
pub mod Kept
pub mod Tags
pub mod Build
pub mod Built
pub mod Packages
pub mod Packed
pub mod Addable
pub mod Columns
pub mod Sound
pub mod Configured
pub mod Main
pub mod Readable
pub mod EndToEnd
pub mod Index
pub mod Indexed
pub mod Tests
pub mod EndTests
use go_rpm.Base.{length}
use go_rpm.Base.{
  ℕ, Bytes, List, bit_or, Option, if◌then◌else◌, Bool, ◌++◌, ◌∷◌, [], some, map, false, length,
  ◌==◌, ◌||◌, bytes_eq, none, true, drop, take,
}
use go_rpm.Io.{Op, pure, ◌>>◌}
use go_rpm.Tag.{Error}
use go_rpm.Header.{Header, add_string, add_int32, add_string_array}
use go_rpm.Config.{Script}
use go_rpm.Tag.Numbers.{
  rpmtag_provideflags, rpmtag_name, rpmtag_providename, rpmtag_version, rpmtag_requireflags,
  sense_less, rpmtag_release, rpmtag_provideversion, rpmtag_requirename, sense_greater, rpmtag_arch,
  sense_any, sense_equal, rpmtag_requireversion, rpmtag_license, rpmtag_url, rpmtag_bugurl,
  rpmtag_packager, rpmtag_vendor, rpmtag_summary, rpmtag_description, rpmtag_prein,
  rpmtag_preinprog, rpmtag_postin, rpmtag_postinprog,
}
use go_rpm.Text.{index_where, is_empty}

-- `Config`.
pub record Package : Type 0 where
  pub name : Bytes
  pub version : Bytes
  pub release : Bytes
  pub arch : Bytes
  pub license : Bytes
  pub url : Bytes
  pub bug_url : Bytes
  pub packager : Bytes
  pub vendor : Bytes
  pub summary : Bytes
  pub description : Bytes
  pub provides : List Bytes
  pub requires : List Bytes
  pub pre_install : Script
  pub post_install : Script

pub record Sense : Type 0 where
  pub name : Bytes
  pub version : Bytes
  pub flags : ℕ

abbrev pub is_operator : ℕ → Bool
is_operator b = b == 0x3c || (b == 0x3e || b == 0x3d)

-- The switch in `senseFlags`: the flag of an operator.
abbrev pub flag_of : ℕ → Option ℕ
flag_of v =
    if v == 0x3c
    then some sense_less
    else if v == 0x3e
    then some sense_greater
    else if v == 0x3d
    then some sense_equal
    else none

-- The loop in `senseFlags`. Operators are ASCII, so that it stops at the same byte as over runes.
unfoldable pub sense_rest : Bytes → Sense → Sense
sense_rest [] r = r
sense_rest (v ∷ s) r = elim (flag_of v) [
  | some flag ↦ sense_rest s (record r { flags = bit_or r.flags flag })
  | none ↦ record r { version = v ∷ s }
]

unfoldable pub sense_flags : Bytes → Sense
unfolding sense_rest
sense_flags value = elim (index_where is_operator value) [
  | none ↦ record { name = value; version = []; flags = sense_any }
  | some i ↦ sense_rest (drop i value) (record { name = take i value; version = []; flags = 0 })
]

-- A lookup in the map of names.
unfoldable pub is_seen : Bytes → List Bytes → Bool
is_seen p [] = false
is_seen p (n ∷ ns) = let more = is_seen p ns in if bytes_eq n p then true else more

-- The loop in `provides` and in `requires`, with the names seen so far: what it keeps.
unfoldable pub kept : List Bytes → List Bytes → List Sense
unfolding sense_flags is_seen
kept [] seen = []
kept (p ∷ ps) seen = elim (is_seen p seen) [
  | true ↦ kept ps seen
  | false ↦ let s : Sense = sense_flags p in s ∷ kept ps (s.name ∷ seen)
]

-- The three tags of the senses.
abbrev pub add_senses : ℕ → ℕ → ℕ → List Sense → Op Header Error (Unit {0})
add_senses flags names versions ss = do
  add_int32 flags (map (λ (s : Sense). s.flags) ss)
  add_string_array names (map (λ (s : Sense). s.name) ss)
  add_string_array versions (map (λ (s : Sense). s.version) ss)

-- What a package provides of itself.
abbrev pub self_provided : Package → Bytes
self_provided c = c.name ++ (0x3d ∷ (c.version ++ (0x2d ∷ c.release)))

-- `provides` appends to `Provides` of its receiver.
abbrev pub with_self : Package → Package
with_self c = record c { provides = c.provides ++ self_provided c ∷ [] }

unfoldable pub provides : Package → Op Header Error (Unit {0})
provides c =
    add_senses rpmtag_provideflags rpmtag_providename rpmtag_provideversion
      (kept (with_self c).provides [])

unfoldable pub requires : Package → Op Header Error (Unit {0})
requires c =
    if length c.requires == 0
    then pure tt
    else add_senses rpmtag_requireflags rpmtag_requirename rpmtag_requireversion
        (kept c.requires [])

unfoldable pub add : ℕ → Bytes → Op Header Error (Unit {0})
add t v = if is_empty v then pure tt else add_string t v

-- The tags of an install script.
unfoldable pub add_script : ℕ → ℕ → Script → Op Header Error (Unit {0})
add_script t prog s =
    if is_empty s.text then pure tt else do add_string t s.text; add_string prog s.prog

unfoldable pub append : Package → Op Header Error (Unit {0})
unfolding add add_script provides requires
append c = do
  add rpmtag_name c.name
  add rpmtag_version c.version
  add rpmtag_release c.release
  add rpmtag_arch c.arch
  add rpmtag_license c.license
  add rpmtag_url c.url
  add rpmtag_bugurl c.bug_url
  add rpmtag_packager c.packager
  add rpmtag_vendor c.vendor
  add rpmtag_summary c.summary
  add rpmtag_description c.description
  add_script rpmtag_prein rpmtag_preinprog c.pre_install
  add_script rpmtag_postin rpmtag_postinprog c.post_install
  provides c
  requires c
