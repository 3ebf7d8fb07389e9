-- ===== src/Files/HeaderTests.antt =====
-- Runs of FileIndexHeader, and its round trips at concrete inputs.
use go_rpm.Reader.{next}
use go_rpm.Reader.Data.{reader}
use go_rpm.Reader.Next.{padding}
use go_rpm.Tag.Data.{len}
use go_rpm.Base.{
  ◌+◌, length, ◌∷◌, bytes_eq, codes, arith, ◌≡◌, [], refl, none, ◌^◌, All, inr, inl, ◌<◌, ◌++◌,
}
use go_rpm.Files.Append.{append, file_index_header}
use go_rpm.Header.{add_string, Header, new_payload_header, set_region_tag, new_tag}
use go_rpm.Files.{add_all, new_file_index, find, FileIndex}
use go_rpm.Io.{ok, err}
use go_rpm.Header.Room.{IsAddable, IsOpen, room}
use go_rpm.Tag.{index_out_of_range, tag_uint32}
use go_rpm.Files.Appended.{file_tags}
use go_rpm.Files.RoundTrip.{file_index_header-add_all, add_all-IsPlain, file_index_header-next}
use go_rpm.Reader.Tests.{take_all_ahead, take_all_ahead-IsAhead}
use go_rpm.Files.Found.{IsPlain, IsOtherTag}
use go_rpm.Header.Insertion.{insertion_sort, insertion_sort-IsSort}
use go_rpm.Header.Encoding.{encoded}
use go_rpm.Files.WrongType.{file_index_header-wrong_type}
use go_rpm.Tag.{nil_dereference}
use go_rpm.Files.Panics.{file_index_header-panics}
use go_rpm.Files.Tests.{files, split_path}

abbrev no_size : Header
no_size = record new_payload_header {
  tags = new_tag 1000 4 0 (tag_uint32 []) ∷ new_tag 1009 4 0 (tag_uint32 []) ∷ [];
}

file_index_header-panics_example : file_index_header no_size ≡ err index_out_of_range
file_index_header-panics_example =
    file_index_header-panics no_size (new_tag 1000 4 0 (tag_uint32 []) ∷ []) []
      (new_tag 1009 4 0 (tag_uint32 [])) refl (ground arith, tt) (inl (refl, refl))

-- Names of files that are numbers.
abbrev odd_names : Header
odd_names = record new_payload_header {
  tags = new_tag 1000 4 0 (tag_uint32 []) ∷ new_tag 1117 4 1 (tag_uint32 (7 ∷ [])) ∷ [];
}

file_index_header-wrong_type_example : file_index_header odd_names ≡ err nil_dereference
file_index_header-wrong_type_example =
    file_index_header-wrong_type odd_names (new_tag 1000 4 0 (tag_uint32 []) ∷ []) []
      (new_tag 1117 4 1 (tag_uint32 (7 ∷ []))) nil_dereference refl (ground arith, tt)
      (inl (inr (inl refl), (λ h. h), refl))

abbrev other_header : Header
other_header = (add_string 1000 (codes "n") new_payload_header).1

file_index_header-add_all_example :
    let f = add_all split_path files new_file_index in
    (hdr' : Header) × (append f other_header ≡ (ok tt, hdr')) × (file_index_header hdr' ≡ ok f)
unfolding add_string new_payload_header len
file_index_header-add_all_example =
    file_index_header-add_all split_path files other_header (λ e. cc) (omega arith)
      (ground arith, tt)

abbrev small_index : FileIndex
small_index = add_all split_path files new_file_index

small_index-IsAddable : All IsAddable (file_tags small_index)
unfolding add_all find bytes_eq
small_index-IsAddable = (
  record {
    readable = record { typed = (inr (inr refl), refl, omega arith); some_data = omega arith };
    set_data = inl refl;
    wire = omega arith;
  },
  (
    record {
      readable = record { typed = (inr (inr refl), refl, omega arith); some_data = omega arith };
      set_data = inl refl;
      wire = omega arith;
    },
    (
      record {
        readable = record { typed = (inr (inr refl), refl, omega arith); some_data = omega arith };
        set_data = inl refl;
        wire = omega arith;
      },
      (
        record {
          readable = record {
            typed = (inr (inr refl), refl, omega arith);
            some_data = omega arith;
          };
          set_data = inl refl;
          wire = omega arith;
        },
        (
          record {
            readable = record {
              typed = (inr (inr refl), refl, omega arith);
              some_data = omega arith;
            };
            set_data = inl refl;
            wire = omega arith;
          },
          (
            record {
              readable = record {
                typed = (inr (inr refl), refl, omega arith);
                some_data = omega arith;
              };
              set_data = inl refl;
              wire = omega arith;
            },
            (
              record {
                readable = record { typed = (refl, refl, omega arith); some_data = omega arith };
                set_data = tt;
                wire = omega arith;
              },
              (
                record {
                  readable = record { typed = (refl, refl, omega arith); some_data = omega arith };
                  set_data = tt;
                  wire = omega arith;
                },
                (
                  record {
                    readable = record {
                      typed = (refl, refl, omega arith);
                      some_data = omega arith;
                    };
                    set_data = tt;
                    wire = omega arith;
                  },
                  (
                    record {
                      readable = record {
                        typed = (refl, refl, omega arith);
                        some_data = omega arith;
                      };
                      set_data = tt;
                      wire = omega arith;
                    },
                    (
                      record {
                        readable = record {
                          typed = (refl, refl, omega arith);
                          some_data = omega arith;
                        };
                        set_data = tt;
                        wire = omega arith;
                      },
                      (
                        record {
                          readable = record {
                            typed = (refl, refl, omega arith);
                            some_data = omega arith;
                          };
                          set_data = tt;
                          wire = omega arith;
                        },
                        (
                          record {
                            readable = record {
                              typed = (refl, refl, omega arith);
                              some_data = omega arith;
                            };
                            set_data = tt;
                            wire = omega arith;
                          },
                          tt,
                        ),
                      ),
                    ),
                  ),
                ),
              ),
            ),
          ),
        ),
      ),
    ),
  ),
)

small_index-IsPlain : IsPlain small_index
small_index-IsPlain = add_all-IsPlain split_path files (λ e. cc) (omega arith)

new_header-IsOpen : IsOpen new_payload_header 63
unfolding new_payload_header set_region_tag
new_header-IsOpen = record {
  laid = refl;
  readable = tt;
  wire = tt;
  is_region = inl refl;
  has_region = refl;
}

new_header-IsOther : All IsOtherTag new_payload_header.tags
unfolding new_payload_header
new_header-IsOther = tt

small_index-room : new_payload_header.off + room (file_tags small_index) + 16 < 2 ^ 32
unfolding new_payload_header set_region_tag add_all find bytes_eq
small_index-room = omega arith

file_index_header-next_example :
    (built : Header) × (got : Header) × (append small_index new_payload_header ≡ (ok tt, built))
    × (next take_all_ahead insertion_sort (reader 97 (padding 97 ++ (encoded built ++ 1 ∷ [])) none)
        ≡ (ok got, reader (97 + length (padding 97) + length (encoded built)) (1 ∷ []) none))
    × (file_index_header got ≡ ok small_index)
file_index_header-next_example =
    file_index_header-next take_all_ahead-IsAhead insertion_sort-IsSort small_index
      new_payload_header 63 97 (1 ∷ []) none small_index-IsPlain small_index-IsAddable
      new_header-IsOpen new_header-IsOther small_index-room
