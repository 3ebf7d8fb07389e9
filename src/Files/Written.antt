-- ===== src/Files/Written.antt =====
-- What `Dump` writes, on a tabwriter whose `Write` never fails.
use go_rpm.Base.{Bytes, List, [], ◌∷◌, ◌++◌, ◌≡◌, ◌⊎◌}
use go_rpm.Io.{Result, Op, WriteReply, IsWriter, NeverFails, IoError, ok, err}
use go_rpm.Tag.{Error}
use go_rpm.Tag.Read.{lift_io}
use go_rpm.Files.Dump.{Row}

-- The text of rows.
abbrev pub lines : (Row → Bytes) → List Row → Bytes
lines line [] = []
lines line (r ∷ rs) = line r ++ lines line rs

module _ (path_join : Bytes → Bytes → Bytes) (line : Row → Bytes) {T : Type 0}
    {tab_write : Bytes → T → WriteReply T} {content : T → Bytes} (law : IsWriter tab_write content)
    (never : NeverFails tab_write) (flush : Op T IoError (Unit {0})) where
  -- The loop that writes rows ends as the one that makes them, and has written all of them where that
  -- gives them.
  abbrev Writes : T → Result Error (List Row) → Result Error (Unit {0}) × T → Type 0
  Writes t (ok rows) r = (t' : T) × (r ≡ (ok tt, t')) × (content t' ≡ content t ++ lines line rows)
  Writes t (err e) r = r.0 ≡ err e

  -- `Dump` as far as the tabwriter's `Flush`.
  abbrev Dumps : T → Result Error (List Row) → Result Error (Unit {0}) × T → Type 0
  Dumps t (ok rows) r =
      (t' : T) × (content t' ≡ content t ++ lines line rows)
      × ((r ≡ lift_io flush t') ⊎ ((rows ≡ []) × (r ≡ (ok tt, t))))
  Dumps t (err e) r = r.0 ≡ err e
