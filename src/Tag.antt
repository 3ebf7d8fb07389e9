-- ===== src/Tag.antt =====
-- tag.go, types.gen.go: tags, their data, and the types of the data. Go strings and byte slices are
-- byte lists; a TagType, a uint16, a uint32 and a uint64 are numbers below 2 ^ 16, 2 ^ 32, 2 ^ 64.
pub mod Data
pub mod Written
pub mod Read
pub mod ReadBack
pub mod Accepted
pub mod Names
pub mod Named
pub mod Format
pub mod Dump
pub mod Rows
pub mod Dumped
pub mod DumpOk
pub mod DumpTests
mod NameTests
pub mod Getters
pub mod Numbers
use go_rpm.Base.{ℕ, List, Bytes}
use go_rpm.Io.{IoError}

-- RPM_CHAR_TYPE and so on.
abbrev pub char_type : ℕ
char_type = 1

abbrev pub int8_type : ℕ
int8_type = 2

abbrev pub int16_type : ℕ
int16_type = 3

abbrev pub int32_type : ℕ
int32_type = 4

abbrev pub int64_type : ℕ
int64_type = 5

abbrev pub string_type : ℕ
string_type = 6

abbrev pub bin_type : ℕ
bin_type = 7

abbrev pub string_array_type : ℕ
string_array_type = 8

abbrev pub i18n_string_type : ℕ
i18n_string_type = 9

-- HEADER_SIGNATURES and HEADER_IMMUTABLE.
abbrev pub header_signatures : ℕ
header_signatures = 62

abbrev pub header_immutable : ℕ
header_immutable = 63

abbrev pub tag_size : ℕ
tag_size = 16

pub record TagHeader : Type 0 where
  pub tag : ℕ
  pub type : ℕ
  pub offset : ℕ
  pub count : ℕ

-- What a `tagData` holds: `*tagBytes` with its buffer and count, `*tagString` with its strings and
-- the length that it caches, the integer slices, and a nil interface.
pub data TagData : Type 0 where
  tag_bytes : Bytes → ℕ → TagData
  tag_string : List Bytes → ℕ → TagData
  tag_uint16 : List ℕ → TagData
  tag_uint32 : List ℕ → TagData
  tag_uint64 : List ℕ → TagData
  unset : TagData

pub record Tag : Type 0 where
  pub head : TagHeader
  pub idx : ℕ
  pub off : ℕ
  pub body : TagData

-- The errors of package rpm. `tag_error` and `offset_error` wrap another error; `nil_dereference` and
-- `index_out_of_range` are no error values but panics.
pub data Error : Type 0 where
  err_tag_type err_tag_size err_invalid_offset err_no_tags err_data_len : Error
  err_invalid_lead err_bad_align err_invalid_header err_unexpected_eof err_offset_oob : Error
  err_invalid_file_mode nil_dereference index_out_of_range : Error
  io : IoError → Error
  tag_error : TagHeader → Error → Error
  offset_error : ℕ → Error → Error
  err_file_index : ℕ → Error
