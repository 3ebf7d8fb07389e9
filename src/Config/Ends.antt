-- ===== src/Config/Ends.antt =====
-- The loop of `loadconfig` ends, whatever the lines are; and comments change nothing.
use go_rpm.Base.{
  zero, suc, length, ℕ, List, Bytes, ◌≤◌, arith, ◌≢◌, ◌∷◌, inl, [], inr, ◌<◌, Bool-cases, Option,
  some, none, take, drop, ◌+◌, All, ◌==◌, ◌≡◌, false, ◌++◌, take-append_length, take_all, refl,
}
use go_rpm.Io.{ok, err, Result, after}
use go_rpm.Config.{
  load_str, read_block, Scanner, read_to, Result, Loaded, load_heredoc, ConfigError, sc_err,
  out_of_fuel, string_index, scan_entry, scan1, load_slice, load_config, load_lines, Loading,
  Loaders, into, load_found, load, Loader, heredoc_mark, index_byte, is_empty, set_loader, str,
  slice, uncommented, script_prog, trim_space, script, index_where, fields, scan_failed, is_blank,
  find_loader,
}
use go_rpm.Text.{string_index, index_byte, is_empty, index_where, fields, trim_space}
use go_rpm.Text.Words.{index_where-append, index_where-none}

-- A call that leaves at most `n` lines, or fails for a reason of its own.
abbrev EndsResult : {A : Type 0} → (A → Scanner) → ℕ → Result ConfigError (Unit {0}) × A → Type 0
EndsResult sc n (ok x, s) = length (sc s).lines ≤ n
EndsResult sc n (err e, s) = e ≢ out_of_fuel

abbrev EndsLoaded : {A : Type 0} → ℕ → Loaded A → Type 0
EndsLoaded = EndsResult (λ x. x.1)

read_to-le : (e : Bytes) (ls : List Bytes) → length (read_to e ls).1 ≤ length ls
unfolding read_to
read_to-le e [] = omega arith
read_to-le e (l ∷ ls) = ground (arith, read_to-le e ls)

read_block-le : (ls : List Bytes) → length (read_block ls).1 ≤ length ls
unfolding read_block
read_block-le [] = omega arith
read_block-le (l ∷ ls) = ground (arith, read_block-le ls)

sc_err-Ends :
    {A : Type 0} (a : A) (sc : Scanner) (n : ℕ)
    → length sc.lines ≤ n
    → EndsLoaded n (sc_err sc, (a, sc))
sc_err-Ends a sc n h =
    elim (sc.fault (length sc.lines))
      as (λ o. EndsLoaded n (elim o [ none ↦ ok tt | some k ↦ err (scan_failed k) ], (a, sc))) [
        | none ↦ h
        | some k ↦ λ e. cc
      ]

ends_ne : {A : Type 0} (n : ℕ) (r : Loaded A) → EndsLoaded n r → r.0 ≢ err out_of_fuel
ends_ne n (ok x, s) h = λ e. cc
ends_ne n (err x, s) h = λ e. h (cc)

load_heredoc-Ends :
    (e old : Bytes) (sc : Scanner) → EndsLoaded (length sc.lines) (load_heredoc e old sc)
unfolding load_heredoc
load_heredoc-Ends [] old sc = λ e. cc
load_heredoc-Ends (b ∷ e) old sc =
    sc_err-Ends _ (record sc { lines = (read_to (b ∷ e) sc.lines).1 }) (length sc.lines)
      (read_to-le (b ∷ e) sc.lines)

load_str-Ends :
    (value old : Bytes) (sc : Scanner) → EndsLoaded (length sc.lines) (load_str value old sc)
unfolding load_str
load_str-Ends value old sc =
    elim (string_index heredoc_mark value)
      as (λ o. EndsLoaded (length sc.lines) (elim o [
        | none ↦ (ok tt, (trim_space value, sc))
        | some i ↦ load_heredoc (drop (i + 2) value) old sc
      ])) [ none ↦ omega arith | some i ↦ load_heredoc-Ends (drop (i + 2) value) old sc ]

load_slice-Ends :
    (value : Bytes) (old : List Bytes) (sc : Scanner)
    → EndsLoaded (length sc.lines) (load_slice value old sc)
unfolding load_slice
load_slice-Ends value old sc =
    let sc' : Scanner = record sc { lines = (read_block sc.lines).1 } in
    elim (index_byte 0x7b value)
      as (λ o. EndsLoaded (length sc.lines) (elim o [
        | none ↦ (ok tt, (fields value, sc))
        | some i ↦ (sc_err sc', ((read_block sc.lines).0, sc'))
      ])) [
        | none ↦ omega arith
        | some i ↦ sc_err-Ends _ sc' (length sc.lines) (read_block-le sc.lines)
      ]

into-Ends :
    {A B : Type 0} (f : A → B) (n : ℕ) (r : Loaded A) → EndsLoaded n r → EndsLoaded n (into f r)
into-Ends f n (ok x, s) h = h
into-Ends f n (err e, s) h = h

load-Ends :
    (value : Bytes) (ld : Loader) (sc : Scanner) → EndsLoaded (length sc.lines) (load value ld sc)
unfolding load
load-Ends value (str s) sc = into-Ends str _ (load_str value s sc) (load_str-Ends value s sc)
load-Ends value (slice vs) sc =
    into-Ends slice _ (load_slice value vs sc) (load_slice-Ends value vs sc)
load-Ends value (script s) sc =
    into-Ends (λ x. script (record s { text = x })) _ (load_str value s.text sc)
      (load_str-Ends value s.text sc)

abbrev EndsLoading : ℕ → Result ConfigError (Unit {0}) × Loading → Type 0
EndsLoading = EndsResult (λ s. s.sc)

put_loaded :
    (k : Bytes) (m : Loaders) (n : ℕ) (r : Loaded Loader)
    → EndsLoaded n r
    → EndsLoading n (r.0, record { m = set_loader k r.1.0 m; sc = r.1.1 })
put_loaded k m n (ok x, s) h = h
put_loaded k m n (err e, s) h = h

load_found-Ends :
    (k value : Bytes) (o : Option Loader) (s : Loading)
    → EndsLoading (length s.sc.lines) (load_found k value o s)
unfolding load_found
load_found-Ends k value none s = λ e. cc
load_found-Ends k value (some ld) s =
    put_loaded k s.m (length s.sc.lines) (load value ld s.sc) (load-Ends value ld s.sc)

module _ (path_join : Bytes → Bytes → Bytes) where
  scan_entry-Ends :
      (l : Bytes) (o : Option ℕ) (s : Loading)
      → EndsLoading (length s.sc.lines) (scan_entry path_join l o s)
  unfolding scan_entry
  scan_entry-Ends l none s = λ e. cc
  scan_entry-Ends l (some i) s =
      let (k, m) = script_prog path_join (take i l) s.m in
      load_found-Ends k (drop i l) (find_loader k m) (record s { m = m })

  scan1-Ends : (l : Bytes) (s : Loading) → EndsLoading (length s.sc.lines) (scan1 path_join l s)
  unfolding scan1
  scan1-Ends l s = elim (Bool-cases (is_empty (uncommented l))) [
    | inl empty ↦ rw empty (omega arith)
    | inr some_text ↦
        rw some_text (scan_entry-Ends (uncommented l) (index_where is_blank (uncommented l)) s)
  ]

  after-Ends :
      (fuel n : ℕ) (r : Result ConfigError (Unit {0}) × Loading)
      → EndsLoading n r
      → n < fuel
      → ((s : Loading)
          → length s.sc.lines < fuel
          → (load_lines path_join fuel s).0 ≢ err out_of_fuel)
      → (after (λ _. load_lines path_join fuel) r).0 ≢ err out_of_fuel
  after-Ends fuel n (ok x, s) h lt go_on = go_on s (omega arith)
  after-Ends fuel n (err e, s) h lt go_on = λ same. h (cc)

  load_lines-ends :
      (fuel : ℕ) (m : Loaders) (ls : List Bytes) (fault : ℕ → Option ℕ)
      → length ls < fuel
      → (load_lines path_join fuel (record { m = m; sc = record { lines = ls; fault = fault } })).0
        ≢ err out_of_fuel
  unfolding load_lines
  load_lines-ends zero m ls fault lt = absurd (omega arith)
  load_lines-ends (suc fuel) m [] fault lt =
      let sc : Scanner = record { lines = []; fault = fault } in
      ends_ne 0 (sc_err sc, (m, sc)) (sc_err-Ends m sc 0 (omega arith))
  load_lines-ends (suc fuel) m (l ∷ ls) fault lt =
      let s : Loading = record { m = m; sc = record { lines = ls; fault = fault } } in
      after-Ends fuel (length ls) (scan1 path_join l s) (scan1-Ends l s) (omega arith)
        λ s' lt'. load_lines-ends fuel s'.m s'.sc.lines s'.sc.fault lt'

  -- Whatever the lines and the loaders are, `loadconfig` ends: as many rounds as there are lines, and
  -- one more, are enough.
  pub load_config-ends :
      (m : Loaders) (sc : Scanner) → (load_config path_join m sc).0 ≢ err out_of_fuel
  unfolding load_config
  load_config-ends m sc = load_lines-ends (suc (length sc.lines)) m sc.lines sc.fault (omega arith)

  -- A comment changes nothing: a line with no "#" is scanned as the same line with a comment behind
  -- it, up to where the comment begins.
  pub scan1-comment :
      (l comment : Bytes) (s : Loading)
      → All (λ b. (b == 0x23) ≡ false) l
      → scan1 path_join (l ++ 0x23 ∷ comment) s ≡ scan1 path_join l s
  unfolding scan1 uncommented
  scan1-comment l comment s h = rw (
    index_where-append (λ b. b == 0x23) l 0x23 comment h refl,
    index_where-none (λ b. b == 0x23) l h,
    take-append_length l (0x23 ∷ comment) (length l) refl,
    take_all l (length l) (omega arith),
  )
