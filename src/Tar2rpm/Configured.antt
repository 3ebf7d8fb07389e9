-- ===== src/Tar2rpm/Configured.antt =====
-- The payload header of a package whose configuration and files have no NUL in their texts can be
-- written and read, while there is room for its tags.
use go_rpm.Base.{
  length, ℕ, Bytes, List, All, ◌∷◌, [], ◌<◌, ◌^◌, ◌+◌, ◌≢◌, ◌≡◌, arith, ◌++◌, codes, All-append,
  Bool-cases, inl, inr, ◌==◌, false,
}
use go_rpm.Tag.{Tag}
use go_rpm.Tag.ReadBack.{HasNoNul}
use go_rpm.Tag.Numbers.{
  rpmtag_prein, rpmtag_preinprog, rpmtag_postin, rpmtag_postinprog, hash_sha256,
  rpmtag_provideflags, rpmtag_providename, rpmtag_provideversion,
}
use go_rpm.Header.Room.{room}
use go_rpm.Tag.Written.{length-c_strings}
use go_rpm.Tar2rpm.{Package, kept, with_self, self_provided}
use go_rpm.Tar2rpm.Tags.{optional, script_tags, required_tags, package_tags, sense_tags}
use go_rpm.Tar2rpm.Built.{fixed_tags}
use go_rpm.Tar2rpm.Addable.{FitsIn, string_tag-FitsIn, strings_tag-FitsIn, int32_tag-FitsIn}
use go_rpm.Tar2rpm.Sound.{sense_tags-FitsIn}

-- A configuration with no NUL in its texts.
pub record IsSoundPackage (c : Package) : Type 0 where
  pub named : HasNoNul c.name
  pub versioned : HasNoNul c.version × HasNoNul c.release
  pub texts :
      HasNoNul c.arch
      × HasNoNul c.license
      × HasNoNul c.url
      × HasNoNul c.bug_url
      × HasNoNul c.packager
      × HasNoNul c.vendor
      × HasNoNul c.summary
      × HasNoNul c.description
  pub scripts :
      HasNoNul c.pre_install.text
      × HasNoNul c.pre_install.prog
      × HasNoNul c.post_install.text
      × HasNoNul c.post_install.prog
  pub senses : All HasNoNul c.provides × All HasNoNul c.requires

optional-FitsIn :
    (t : ℕ) (v : Bytes) (ts : List Tag)
    → t < 2 ^ 32
    → HasNoNul v
    → All FitsIn ts
    → All FitsIn (optional t v ++ ts)
optional-FitsIn t [] ts small n h = h
optional-FitsIn t (b ∷ v) ts small n h = (string_tag-FitsIn t (b ∷ v) small n, h)

script-FitsIn :
    (t p : ℕ) (text prog : Bytes) (ts : List Tag)
    → t < 2 ^ 32
    → p < 2 ^ 32
    → HasNoNul text
    → HasNoNul prog
    → All FitsIn ts
    → All FitsIn (script_tags t p (record { text = text; prog = prog }) ++ ts)
script-FitsIn t p [] prog ts a b n m h = h
script-FitsIn t p (c ∷ v) prog ts a b n m h =
    (string_tag-FitsIn t (c ∷ v) a n, (string_tag-FitsIn p prog b m, h))

some_length : (ps : List Bytes) → (length ps == 0) ≡ false → ps ≢ []
some_length [] h = absurd (ground arith)
some_length (p ∷ ps) h = λ e. cc

required_tags-FitsIn : (ps : List Bytes) → All HasNoNul ps → All FitsIn (required_tags ps)
required_tags-FitsIn ps h = elim (Bool-cases (length ps == 0)) [
  | inl e ↦ rw e tt
  | inr e ↦
      rw e
        (sense_tags-FitsIn _ _ _ ps (omega arith) (omega arith) (omega arith) h (some_length ps e))
]

self_provided-HasNoNul : (c : Package) → IsSoundPackage c → HasNoNul (self_provided c)
self_provided-HasNoNul c s =
    All-append _ c.name _ s.named
      (omega arith, All-append _ c.version _ s.versioned.0 (omega arith, s.versioned.1))

append_ne : (ps : List Bytes) (p : Bytes) → ps ++ p ∷ [] ≢ []
append_ne [] p = λ e. cc
append_ne (q ∷ ps) p = λ e. cc

pub package_tags-FitsIn : (c : Package) → IsSoundPackage c → All FitsIn (package_tags c)
package_tags-FitsIn c s = optional-FitsIn _ c.name _ (omega arith) s.named (
    optional-FitsIn _ c.version _ (omega arith) s.versioned.0 (
      optional-FitsIn _ c.release _ (omega arith) s.versioned.1 (
        optional-FitsIn _ c.arch _ (omega arith) s.texts.0 (
          optional-FitsIn _ c.license _ (omega arith) s.texts.1 (
            optional-FitsIn _ c.url _ (omega arith) s.texts.2 (
              optional-FitsIn _ c.bug_url _ (omega arith) s.texts.3 (
                optional-FitsIn _ c.packager _ (omega arith) s.texts.4 (
                  optional-FitsIn _ c.vendor _ (omega arith) s.texts.5 (
                    optional-FitsIn _ c.summary _ (omega arith) s.texts.6 (
                      optional-FitsIn _ c.description _ (omega arith) s.texts.7 (
                        script-FitsIn rpmtag_prein rpmtag_preinprog c.pre_install.text
                          c.pre_install.prog _ (omega arith) (omega arith) s.scripts.0 s.scripts.1
                          (script-FitsIn rpmtag_postin rpmtag_postinprog c.post_install.text
                            c.post_install.prog _ (omega arith) (omega arith) s.scripts.2
                            s.scripts.3
                            (All-append FitsIn
                              (sense_tags rpmtag_provideflags rpmtag_providename
                                rpmtag_provideversion (kept (with_self c).provides []))
                              (required_tags c.requires)
                              (sense_tags-FitsIn rpmtag_provideflags rpmtag_providename
                                rpmtag_provideversion (with_self c).provides (omega arith)
                                (omega arith) (omega arith)
                                (All-append HasNoNul c.provides (self_provided c ∷ []) s.senses.0
                                  (self_provided-HasNoNul c s, tt))
                                (append_ne c.provides (self_provided c)))
                              (required_tags-FitsIn c.requires s.senses.1))))))))))))))

-- The tags that every package has, with a digest of 64 digits.
pub fixed_tags-FitsIn : (digest : Bytes) → HasNoNul digest → All FitsIn (fixed_tags digest)
fixed_tags-FitsIn digest h = (
  strings_tag-FitsIn _ (codes "C" ∷ []) (omega arith) (λ e. cc) (omega arith),
  (
    string_tag-FitsIn _ (codes "utf-8") (omega arith) (omega arith),
    (
      string_tag-FitsIn _ (codes "cpio") (omega arith) (omega arith),
      (
        string_tag-FitsIn _ (codes "linux") (omega arith) (omega arith),
        (
          int32_tag-FitsIn _ (0 ∷ []) (omega arith) (λ e. cc) (omega arith),
          (
            int32_tag-FitsIn _ (hash_sha256 ∷ []) (omega arith) (λ e. cc) (omega arith),
            (
              int32_tag-FitsIn _ (hash_sha256 ∷ []) (omega arith) (λ e. cc) (omega arith),
              (strings_tag-FitsIn _ (digest ∷ []) (omega arith) (λ e. cc) (h, tt), tt),
            ),
          ),
        ),
      ),
    ),
  ),
)

-- Room for them.
abbrev pub fixed_room : ℕ
fixed_room = 152

pub room-fixed_tags : (digest : Bytes) → length digest ≡ 64 → room (fixed_tags digest) ≡ fixed_room
room-fixed_tags digest h = omega (arith, length-c_strings (digest ∷ []))

pub room-append : (ts us : List Tag) → room (ts ++ us) ≡ room ts + room us
room-append [] us = omega arith
room-append (t ∷ ts) us = omega (arith, room-append ts us)
