-- ===== src/Config/Tests.antt =====
-- Runs of the configuration reader, and its theorems at concrete inputs.
use go_rpm.Config.Load.{Entry, apply_all, IsEntry, written, one_line, block, heredoc}
use go_rpm.Io.{ok, err}
use go_rpm.Base.{
  List, Bytes, All, ◌++◌, [], codes, ◌∷◌, none, ◌≢◌, bytes_eq, arith, ◌≡◌, refl, some,
}
use go_rpm.Text.{string_index, join, trim_space, starts_with, trim_left, trim_right, space_length}
use go_rpm.Config.{
  load_config, Loading, scan1, Script, Loaders, find_loader, str, set_loader, heredoc_mark, slice,
  out_of_fuel, script, program,
}
use go_rpm.Config.Values.{scanner}
use go_rpm.Text.Words.{IsWordByte, IsWord}
use go_rpm.Config.Ends.{scan1-comment, load_config-ends}
use go_rpm.Config.Scan.{load_config-written}

-- Joins two paths, where neither needs cleaning.
abbrev slash_join : Bytes → Bytes → Bytes
slash_join a b = a ++ 0x2f ∷ b

abbrev no_script : Script
no_script = record { text = []; prog = [] }

abbrev loaders : Loaders
loaders =
    (codes "name", str (codes "package"))
    ∷ (codes "requires", slice [])
    ∷ (codes "preinstall", script no_script)
    ∷ []

abbrev entries : List Entry
entries =
    record { key = codes "name"; prog = none; setting = one_line (codes "foo bar") }
    ∷ record {
      key = codes "requires";
      prog = none;
      setting = block ((codes "a>=1" ∷ codes "b" ∷ []) ∷ (codes "cd" ∷ []) ∷ []);
    }
    ∷ record {
      key = codes "preinstall";
      prog = some (codes "bash");
      setting = heredoc (codes "EOF") (codes "echo # hi" ∷ codes "exit" ∷ []);
    }
    ∷ record { key = codes "name"; prog = none; setting = one_line (codes "baz") }
    ∷ []

abbrev loaded : Loaders
loaded =
    (codes "name", str (codes "baz"))
    ∷ (codes "requires", slice (codes "a>=1" ∷ codes "b" ∷ codes "cd" ∷ []))
    ∷ (
      codes "preinstall",
      script (record { text = codes "echo # hi\nexit"; prog = codes "/bin/bash" }),
    )
    ∷ []

entries-apply_all : apply_all slash_join entries loaders ≡ some loaded
unfolding apply_all find_loader set_loader bytes_eq join program
entries-apply_all = refl

abbrev word : (v : Bytes) → All IsWordByte v → v ≢ [] → IsWord v
word v h ne = record { bytes = h; some_byte = ne }

baz_trimmed : trim_space (codes "baz") ≡ codes "baz"
unfolding trim_space trim_left trim_right space_length
baz_trimmed = refl

foo_trimmed : trim_space (codes "foo bar") ≡ codes "foo bar"
unfolding trim_space trim_left trim_right space_length
foo_trimmed = refl

foo_unmarked : string_index heredoc_mark (codes "foo bar") ≡ none
unfolding string_index starts_with
foo_unmarked = refl

baz_unmarked : string_index heredoc_mark (codes "baz") ≡ none
unfolding string_index starts_with
baz_unmarked = refl

entries-IsEntry : All IsEntry entries
unfolding join
entries-IsEntry = (
  record { key = ground arith; prog = tt; setting = (ground arith, foo_trimmed, foo_unmarked) },
  (
    record {
      key = ground arith;
      prog = tt;
      setting = (
        (
          (
            (word (codes "a>=1") (omega arith) (λ e. cc), ground arith),
            ((word (codes "b") (omega arith) (λ e. cc), ground arith), tt),
          ),
          λ e. cc,
        ),
        ((((word (codes "cd") (omega arith) (λ e. cc), ground arith), tt), λ e. cc), tt),
      );
    },
    (
      record {
        key = ground arith;
        prog = ground arith;
        setting = (ground arith, λ e. cc, (λ e. cc, (λ e. cc, tt)));
      },
      (
        record {
          key = ground arith;
          prog = tt;
          setting = (ground arith, baz_trimmed, baz_unmarked);
        },
        tt,
      ),
    ),
  ),
)

load_config-written_example :
    load_config slash_join loaders (scanner (written entries))
    ≡ (ok tt, record { m = loaded; sc = scanner [] })
load_config-written_example =
    load_config-written slash_join entries loaders loaded entries-IsEntry entries-apply_all

load_config-ends_example :
    (load_config slash_join loaders (scanner (codes "requires {" ∷ codes "a" ∷ []))).0
    ≢ err out_of_fuel
load_config-ends_example =
    load_config-ends slash_join loaders (scanner (codes "requires {" ∷ codes "a" ∷ []))

abbrev start : Loading
start = record { m = loaders; sc = scanner [] }

scan1-comment_example :
    scan1 slash_join (codes "name foo " ++ 0x23 ∷ codes " a comment") start
    ≡ scan1 slash_join (codes "name foo ") start
scan1-comment_example =
    scan1-comment slash_join (codes "name foo ") (codes " a comment") start (ground arith)
