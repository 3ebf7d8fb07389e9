-- ===== src/Tag/Format.antt =====
-- tag.go: `string`, how a tag is shown. The texts that fmt, strconv and hex.Dumper make
-- are parameters.
use go_rpm.Base.{
  ℕ, Bytes, Bool, List, Option, none, some, [], ◌∷◌, ◌++◌, ◌==◌, if◌then◌else◌, codes,
}
use go_rpm.Tag.Names.{find_name, type_string}
use go_rpm.Tag.{
  Tag, char_type, int8_type, int16_type, int32_type, int64_type, string_type, bin_type,
  string_array_type, i18n_string_type,
}

-- `decimal`, `wide`, `signed` and `hex` are the verbs %d, %4d, %+4d and
-- %x of a number, `hex_bytes` and `hex_list` %x of a slice, and `quote` is %q. `hex_dump` is what a
-- hex.Dumper that is not closed has written of the bytes that it was given.
pub record Format : Type 0 where
  pub decimal : ℕ → Bytes
  pub wide : ℕ → Bytes
  pub signed : ℕ → Bytes
  pub hex : ℕ → Bytes
  pub hex_bytes : Bytes → Bytes
  pub hex_list : List ℕ → Bytes
  pub quote : Bytes → Bytes
  pub hex_dump : Bytes → Bytes

-- `sigTagString`.
abbrev pub sig_names : List (ℕ × Bytes)
sig_names =
    (1000, codes "RPMSIGTAG_SIZE")
    ∷ (1001, codes "RPMSIGTAG_LEMD5_1")
    ∷ (1002, codes "RPMSIGTAG_PGP")
    ∷ (1003, codes "RPMSIGTAG_LEMD5_2")
    ∷ (1004, codes "RPMSIGTAG_MD5")
    ∷ (1005, codes "RPMSIGTAG_GPG")
    ∷ (1006, codes "RPMSIGTAG_PGP5")
    ∷ (1007, codes "RPMSIGTAG_PAYLOADSIZE")
    ∷ (1008, codes "RPMSIGTAG_RESERVEDSPACE")
    ∷ (264, codes "RPMSIGTAG_BADSHA1_1")
    ∷ (265, codes "RPMSIGTAG_BADSHA1_2")
    ∷ (267, codes "RPMSIGTAG_DSA")
    ∷ (271, codes "RPMSIGTAG_LONGARCHIVESIZE")
    ∷ (270, codes "RPMSIGTAG_LONGSIZE")
    ∷ (268, codes "RPMSIGTAG_RSA")
    ∷ (269, codes "RPMSIGTAG_SHA1")
    ∷ (273, codes "RPMSIGTAG_SHA256")
    ∷ (274, codes "RPMSIGTAG_FILESIGNATURES")
    ∷ (275, codes "RPMSIGTAG_FILESIGNATURELENGTH")
    ∷ []

module _ (fm : Format) where
  -- The switch on the type.
  unfoldable pub type_text : ℕ → Bytes
  type_text t =
      if t == int8_type
      then codes "int8"
      else if t == int16_type
      then codes "int16"
      else if t == int32_type
      then codes "int32"
      else if t == int64_type
      then codes "int64"
      else if t == char_type
      then codes "char"
      else if t == bin_type
      then codes "bin"
      else if t == i18n_string_type
      then codes "i18n"
      else if t == string_type
      then codes "str"
      else if t == string_array_type
      then codes "[]str"
      else codes "unknown(0x" ++ (fm.hex t ++ codes ")")

  abbrev pub sig_name : Bool → ℕ → Bytes → Bytes
  sig_name sig t s = if sig then elim (find_name t sig_names) [ some v ↦ v | none ↦ s ] else s

  -- The name of a tag: in a signature header, that of a signature's tag where it has one.
  unfoldable pub name_text : Bool → ℕ → Option Bytes
  name_text sig t = elim (type_string fm.decimal t) [
    | none ↦ none
    | some s ↦ some (sig_name sig t s)
  ]

  abbrev pub shown : Tag → Bytes → Bytes
  shown t s =
      s
      ++ (codes ", "
          ++ (fm.decimal t.head.tag
              ++ (codes ", "
                  ++ (fm.decimal t.head.count
                      ++ (codes ", 0x"
                          ++ (fm.hex t.head.offset ++ (codes ", " ++ type_text t.head.type)))))))

  unfoldable pub show : Bool → Tag → Option Bytes
  unfolding name_text type_text
  show sig t = elim (name_text sig t.head.tag) [ none ↦ none | some s ↦ some (shown t s) ]
