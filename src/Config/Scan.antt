-- ===== src/Config/Scan.antt =====
-- `scan1` and `loadconfig` over entries that are written line by line.
use go_rpm.Config.Load.{
  IsWithout, IsProg, IsWritten, key_text, assign, prog_of, first_line, more_lines, Setting,
  one_line, heredoc, words, block, Entry, IsEntry, apply, apply_all, written, put,
}
use mathlib.Core.Option.{some-injective}
use go_rpm.Base.{
  All-map, zero, suc, length, Bytes, Option, ◌∷◌, [], List, ◌≡◌, some, none, ◌++◌, ℕ, ◌==◌, drop,
  take, ◌+◌, drop-append_length, sym, append_assoc, ap, ◌∙◌, take-append_length, length-append,
  refl, false, All, All-append, take_all, arith, ◌<◌, suc, Option-cases, inl, inr,
}
use go_rpm.Io.{ok}
use go_rpm.Config.{
  kp, Loader, load, index_byte, script, program, str, slice, prog_loader, scan1, Loaders, is_empty,
  uncommented, scan_entry, Loading, find_loader, is_blank, set_loader, script_prog, load_found,
  index_where, load_lines, load_config,
}
use go_rpm.Config.Values.{
  scanner, load_str-one_line, load_str-heredoc, load_slice-words, load_slice-block,
  find_loader-set_loader, set_loader-set_loader, IsWithout-join,
}
use go_rpm.Text.Words.{index_where-none, index_where-append}
use go_rpm.Text.{index_byte, is_empty, index_where}

-- A loader once its program is set.
abbrev with_prog : (Bytes → Bytes → Bytes) → Bytes → Loader → Loader
with_prog path_join p (script s) = script (record s { prog = program path_join p })
with_prog path_join p ld = ld

-- Each way to write a value sets it.
load-assign :
    (path_join : Bytes → Bytes → Bytes) (p : Option Bytes) (st : Setting) (ld ld' : Loader)
    (rest : List Bytes)
    → IsWritten st
    → assign path_join p st ld ≡ some ld'
    → load
        (0x20 ∷ first_line st)
        (with_prog path_join (prog_of p) ld)
        (scanner (more_lines st ++ rest))
      ≡ (ok tt, (ld', scanner rest))
unfolding load
load-assign path_join p (one_line v) (str old) ld' rest h e =
    rw (load_str-one_line v old rest h, some-injective _ _ e)
load-assign path_join p (one_line v) (script s) ld' rest h e =
    rw (load_str-one_line v s.text rest h, some-injective _ _ e)
load-assign path_join p (heredoc m ls) (str old) ld' rest h e =
    rw (load_str-heredoc m old ls rest h, some-injective _ _ e)
load-assign path_join p (heredoc m ls) (script s) ld' rest h e =
    rw (load_str-heredoc m s.text ls rest h, some-injective _ _ e)
load-assign path_join p (words ws) (slice old) ld' rest h e =
    rw (load_slice-words ws old rest h, some-injective _ _ e)
load-assign path_join p (block wss) (slice old) ld' rest h e =
    rw (load_slice-block wss old rest h, some-injective _ _ e)
load-assign path_join p (one_line v) (slice old) ld' rest h e = cc
load-assign path_join p (heredoc m ls) (slice old) ld' rest h e = cc
load-assign path_join p (words ws) (str old) ld' rest h e = cc
load-assign path_join p (words ws) (script s) ld' rest h e = cc
load-assign path_join p (block wss) (str old) ld' rest h e = cc
load-assign path_join p (block wss) (script s) ld' rest h e = cc

-- The key and the program in a line.
kp_found :
    (key : Bytes) (i j : ℕ)
    → index_byte 0x28 key ≡ some i
    → index_byte 0x29 (drop i key) ≡ some j
    → kp key ≡ (take i key, drop (i + 1) (take (i + j) key))
unfolding kp
kp_found key i j e d = rw (e, kp) (rw d)

kp_plain : (key : Bytes) → index_byte 0x28 key ≡ none → kp key ≡ (key, [])
unfolding kp
kp_plain key e = rw (e, kp)

kp-key_text :
    (k : Bytes) (p : Option Bytes)
    → IsWithout (0x23 ∷ 0x20 ∷ 0x9 ∷ 0x28 ∷ []) k
    → IsProg p
    → kp (key_text k p) ≡ (k, prog_of p)
kp-key_text k none h hp =
    kp_plain k (index_where-none (λ b. b == 0x28) k (All-map (λ b q. q.1.1.1.0) k h))
kp-key_text k (some p) h hp =
    let key : Bytes = key_text k (some p) in
    let tail : Bytes = 0x28 ∷ (p ++ 0x29 ∷ []) in
    let back : drop (length k) key ≡ tail = drop-append_length k tail (length k) refl in
    let open_at : index_byte 0x28 key ≡ some (length k) =
      index_where-append (λ b. b == 0x28) k 0x28 (p ++ 0x29 ∷ []) (All-map (λ b q. q.1.1.1.0) k h)
        refl in
    let close_at : index_byte 0x29 (drop (length k) key) ≡ some (length (0x28 ∷ p)) = rw back (
      index_where-append (λ b. b == 0x29) (0x28 ∷ p) 0x29 [] (refl, All-map (λ b q. q.1.1.1.0) p hp)
        refl) in
    let split : key ≡ (k ++ 0x28 ∷ p) ++ 0x29 ∷ [] = sym (append_assoc k (0x28 ∷ p) (0x29 ∷ [])) in
    let inner : take (length k + length (0x28 ∷ p)) key ≡ k ++ 0x28 ∷ p =
      ap (take (length k + length (0x28 ∷ p))) split
      ∙ take-append_length (k ++ 0x28 ∷ p) (0x29 ∷ []) _ (sym (length-append k (0x28 ∷ p))) in
    let rest : drop (length k + 1) (k ++ 0x28 ∷ p) ≡ p =
      ap (drop (length k + 1)) (sym (append_assoc k (0x28 ∷ []) p))
      ∙ drop-append_length (k ++ 0x28 ∷ []) p (length k + 1) (sym (length-append k (0x28 ∷ []))) in
    kp_found key (length k) (length (0x28 ∷ p)) open_at close_at
    ∙ rw (take-append_length k tail (length k) refl, inner, rest)

prog_loader-found :
    (path_join : Bytes → Bytes → Bytes) (k p : Bytes) (ld : Loader) (m : Loaders)
    → find_loader k m ≡ some ld
    → (find_loader k (prog_loader path_join k p (some ld) m) ≡ some (with_prog path_join p ld))
      × ((x : Loader) → set_loader k x (prog_loader path_join k p (some ld) m) ≡ set_loader k x m)
unfolding prog_loader
prog_loader-found path_join k p (str old) m e = (e, λ x. refl)
prog_loader-found path_join k p (slice old) m e = (e, λ x. refl)
prog_loader-found path_join k p (script s) m e =
    (find_loader-set_loader k (script s) _ m e, λ x. set_loader-set_loader k x _ m)

is_empty-append : (v rest : Bytes) (b : ℕ) → is_empty (v ++ b ∷ rest) ≡ false
is_empty-append [] rest b = refl
is_empty-append (c ∷ v) rest b = refl

-- No comment in a written line, and no blank in its key.
abbrev IsClear : Bytes → Type 0
IsClear v = All (λ b. (b == 0x23) ≡ false) v

abbrev IsKeyByte : ℕ → Type 0
IsKeyByte b = ((b == 0x23) ≡ false) × (is_blank b ≡ false)

key_text-IsKeyByte :
    (k : Bytes) (p : Option Bytes)
    → IsWithout (0x23 ∷ 0x20 ∷ 0x9 ∷ 0x28 ∷ []) k
    → IsProg p
    → All IsKeyByte (key_text k p)
key_text-IsKeyByte k none h hp = All-map (λ b q. (q.0, rw (q.1.0, q.1.1.0))) k h
key_text-IsKeyByte k (some p) h hp =
    All-append IsKeyByte k (0x28 ∷ (p ++ 0x29 ∷ []))
      (All-map (λ b q. (q.0, rw (q.1.0, q.1.1.0))) k h)
      (
        (refl, refl),
        All-append IsKeyByte p (0x29 ∷ []) (All-map (λ b q. (q.0, rw (q.1.0, q.1.1.0))) p hp)
            ((refl, refl), tt),
      )

first_line-IsClear : (st : Setting) → IsWritten st → IsClear (first_line st)
first_line-IsClear (one_line v) h = All-map (λ b q. q.0) v h.0
first_line-IsClear (heredoc e ls) h = (refl, (refl, All-map (λ b q. q.0) e h.0))
first_line-IsClear (words ws) h =
    IsWithout-join 0x23 ws refl (All-map (λ w p. All-map (λ b q. q.0) w p.1) ws h)
first_line-IsClear (block wss) h = (refl, tt)

abbrev line_of : Entry → Bytes
line_of e = key_text e.key e.prog ++ 0x20 ∷ first_line e.setting

uncommented-line_of : (e : Entry) → IsEntry e → uncommented (line_of e) ≡ line_of e
unfolding uncommented
uncommented-line_of e h =
    let clear : IsClear (line_of e) =
      All-append (λ b. (b == 0x23) ≡ false) (key_text e.key e.prog) (0x20 ∷ first_line e.setting)
        (All-map (λ b q. q.0) (key_text e.key e.prog)
          (key_text-IsKeyByte e.key e.prog h.key h.prog))
        (refl, first_line-IsClear e.setting h.setting) in
    rw (index_where-none (λ b. b == 0x23) (line_of e) clear)
      (take_all (line_of e) (length (line_of e)) (omega arith))

abbrev pub state : Loaders → List Bytes → Loading
state m ls = record { m = m; sc = scanner ls }

module _ (path_join : Bytes → Bytes → Bytes) where
  scan1-found :
      (e : Entry) (ld ld' : Loader) (m : Loaders) (rest : List Bytes)
      → IsEntry e
      → find_loader e.key m ≡ some ld
      → assign path_join e.prog e.setting ld ≡ some ld'
      → scan1 path_join (line_of e) (state m (more_lines e.setting ++ rest))
        ≡ (ok tt, state (set_loader e.key ld' m) rest)
  unfolding scan1 scan_entry script_prog load_found
  scan1-found e ld ld' m rest h found assigned =
      let key : Bytes = key_text e.key e.prog in
      let value : Bytes = 0x20 ∷ first_line e.setting in
      let blank : index_where is_blank (line_of e) ≡ some (length key) =
        index_where-append is_blank key 0x20 (first_line e.setting)
          (All-map (λ b q. q.1) key (key_text-IsKeyByte e.key e.prog h.key h.prog)) refl in
      let (found', same) = prog_loader-found path_join e.key (prog_of e.prog) ld m found in
      rw (
        uncommented-line_of e h,
        is_empty-append key (first_line e.setting) 0x20,
        blank,
        take-append_length key value (length key) refl,
        drop-append_length key value (length key) refl,
        kp-key_text e.key e.prog h.key h.prog,
        found,
        found',
        load-assign path_join e.prog e.setting ld ld' rest h.setting assigned,
        same ld',
      )

  pub scan1-apply :
      (e : Entry) (m m' : Loaders) (rest : List Bytes)
      → IsEntry e
      → apply path_join e m ≡ some m'
      → scan1 path_join (line_of e) (state m (more_lines e.setting ++ rest))
        ≡ (ok tt, state m' rest)
  scan1-apply e m m' rest h applied = elim (Option-cases (find_loader e.key m)) [
    | inl none_found ↦ absurd (let no : none ≡ some m' = rw none_found at applied in cc)
    | inr (ld, found) ↦
        let applied' : put path_join e.key m (assign path_join e.prog e.setting ld) ≡ some m' =
          rw found at applied in
        elim (Option-cases (assign path_join e.prog e.setting ld)) [
          | inl unfit ↦ absurd (let no : none ≡ some m' = rw unfit at applied' in cc)
          | inr (ld', fit) ↦
              let set : some (set_loader e.key ld' m) ≡ some m' = rw fit at applied' in
              scan1-found e ld ld' m rest h found fit
              ∙ ap (λ (x : Loaders). (ok tt, state x rest)) (some-injective _ _ set)
        ]
  ]

  -- The result is the same for all fuel that covers the lines.
  pub load_lines-written :
      (fuel : ℕ) (es : List Entry) (m m' : Loaders)
      → All IsEntry es
      → apply_all path_join es m ≡ some m'
      → length (written es) < fuel
      → load_lines path_join fuel (state m (written es)) ≡ (ok tt, state m' [])
  unfolding load_lines apply_all
  load_lines-written zero es m m' h applied lt = absurd (omega arith)
  load_lines-written (suc fuel) [] m m' h applied lt =
      ap (λ (x : Loaders). (ok tt, state x [])) (some-injective _ _ applied)
  load_lines-written (suc fuel) (e ∷ es) m m' (p, h) applied lt =
      elim (Option-cases (apply path_join e m)) [
        | inl unfit ↦ absurd (let no : none ≡ some m' = rw (unfit, apply_all) at applied in cc)
        | inr (m1, fit) ↦ rw (scan1-apply e m m1 (written es) p fit) (
            load_lines-written fuel es m1 m' h (rw (fit, apply_all) at applied)
              (omega (arith, length-append (more_lines e.setting) (written es))))
      ]

  -- A configuration file is written entry by entry (`written`), each entry as one line, as words, as
  -- a block of words or as a here document, where no text has a comment, blank or bracket that would
  -- be taken as such (`IsEntry`), no line of a here document is its end mark, and each key is that of
  -- a value that can hold its setting. Its lines are loaded with no error and to their end, and
  -- set just what the entries say, the later over the earlier.
  pub load_config-written :
      (es : List Entry) (m m' : Loaders)
      → All IsEntry es
      → apply_all path_join es m ≡ some m'
      → load_config path_join m (scanner (written es)) ≡ (ok tt, record { m = m'; sc = scanner [] })
  unfolding load_config
  load_config-written es m m' h applied =
      load_lines-written (suc (length (written es))) es m m' h applied (omega arith)
