-- ===== src/Files/Mode.antt =====
-- files.go: `Mode` and `osMode`, between the modes of package os and those of rpm.
use go_rpm.Base.{
  ℕ, bit_and, bit_or, ◌<◌, ◌≢◌, ◌*◌, ◌^◌, ◌/◌, if◌then◌else◌, ◌≡◌, ◌+◌, ◌==◌, ◌%◌, ◌≤◌, ◌⊎◌, arith,
  bit_and_nine_ones, bit_or-shifted, Bool-cases, ◌∙◌, inl, ap, sym, inr,
}
use go_rpm.Io.{Result, ok, err}
use go_rpm.Tag.{Error, err_invalid_file_mode}

abbrev pub type_dir : ℕ
type_dir = 4

abbrev pub type_regular : ℕ
type_regular = 8

abbrev pub type_symlink : ℕ
type_symlink = 10

-- os.ModeDir, os.ModeSymlink, os.ModePerm, and os.ModeType: these and named pipe, socket, device,
-- character device and irregular.
abbrev pub mode_dir : ℕ
mode_dir = 2 ^ 31

abbrev pub mode_symlink : ℕ
mode_symlink = 2 ^ 27

abbrev pub mode_perm : ℕ
mode_perm = 0x1ff

abbrev pub mode_type : ℕ
mode_type = 2 ^ 31 + 2 ^ 27 + 2 ^ 25 + 2 ^ 24 + 2 ^ 26 + 2 ^ 21 + 2 ^ 19

abbrev with_perm : ℕ → ℕ → ℕ
with_perm r m = bit_or (r * 2 ^ 12 % 2 ^ 16) (bit_and m mode_perm % 2 ^ 16)

unfoldable pub mode : ℕ → Result Error ℕ
mode m =
    let t = bit_and m mode_type in
    if t == 0
    then ok (with_perm type_regular m)
    else if t == mode_dir
    then ok (with_perm type_dir m)
    else if t == mode_symlink
    then ok (with_perm type_symlink m)
    else err err_invalid_file_mode

abbrev os_type : ℕ → ℕ
os_type k = if k == type_dir then mode_dir else if k == type_symlink then mode_symlink else 0

unfoldable pub os_mode : ℕ → ℕ
os_mode m = bit_or (os_type (m / 2 ^ 12)) (bit_and m mode_perm)

-- The modes that `Mode` does not take: of a type that is none of the three.
abbrev pub IsOddMode : ℕ → Type 0
IsOddMode m =
    (bit_and m mode_type ≢ 0)
    × (bit_and m mode_type ≢ mode_dir)
    × (bit_and m mode_type ≢ mode_symlink)

-- The mode `v` is 16 bits wide and stands for the type and the permissions of `m`.
abbrev pub Stands : ℕ → ℕ → Type 0
Stands m v = (v < 2 ^ 16) × (os_mode v ≡ bit_and m mode_type + m % 2 ^ 9)

with_perm-sum : (r m : ℕ) → r < 16 → with_perm r m ≡ r * 2 ^ 12 + m % 2 ^ 9
with_perm-sum r m h =
    let low : bit_and m mode_perm % 2 ^ 16 ≡ m % 2 ^ 9 = omega (arith, bit_and_nine_ones m) in
    let high : r * 2 ^ 12 % 2 ^ 16 ≡ r * 2 ^ 12 = omega arith in
    rw (low, high) (bit_or-shifted 12 r (m % 2 ^ 9) (omega arith))

-- What `osMode` makes of it, by the type.
os_mode-with_perm :
    (r a k m : ℕ)
    → r < 16
    → os_type r ≡ a * 2 ^ k
    → 2 ^ 9 ≤ 2 ^ k
    → os_mode (with_perm r m) ≡ os_type r + m % 2 ^ 9
unfolding os_mode
os_mode-with_perm r a k m small of_type wide =
    let v : ℕ = r * 2 ^ 12 + m % 2 ^ 9 in
    let top : v / 2 ^ 12 ≡ r = omega arith in
    let low : bit_and v mode_perm ≡ m % 2 ^ 9 = omega (arith, bit_and_nine_ones v) in
    rw (with_perm-sum r m small, top, low, of_type) (bit_or-shifted k a (m % 2 ^ 9) (omega arith))

with_perm-Stands :
    (r a k m : ℕ)
    → r < 16
    → os_type r ≡ a * 2 ^ k
    → 2 ^ 9 ≤ 2 ^ k
    → bit_and m mode_type ≡ os_type r
    → Stands m (with_perm r m)
with_perm-Stands r a k m small of_type wide same = (
  rw (with_perm-sum r m small) (omega arith),
  os_mode-with_perm r a k m small of_type wide ∙ ap (λ (t : ℕ). t + m % 2 ^ 9) (sym same),
)

-- `Mode` fails on the modes of other types than the three, and maps any other to a mode of 16 bits
-- that `osMode` maps back: to the same type and the same permissions.
pub mode-os_mode :
    (m : ℕ)
    → (IsOddMode m × (mode m ≡ err err_invalid_file_mode))
      ⊎ ((v : ℕ) × (mode m ≡ ok v) × Stands m v)
unfolding mode
mode-os_mode m = elim (Bool-cases (bit_and m mode_type == 0)) [
  | inl e ↦ inr (
    with_perm type_regular m,
    rw e,
    with_perm-Stands type_regular 0 9 m (omega arith) (omega arith) (omega arith) (ground arith),
  )
  | inr ne ↦ elim (Bool-cases (bit_and m mode_type == mode_dir)) [
    | inl e ↦ inr (
      with_perm type_dir m,
      rw (ne, e),
      with_perm-Stands type_dir 1 31 m (omega arith) (omega arith) (omega arith) (ground arith),
    )
    | inr ne' ↦ elim (Bool-cases (bit_and m mode_type == mode_symlink)) [
      | inl e ↦ inr (
        with_perm type_symlink m,
        rw (ne, ne', e),
        with_perm-Stands type_symlink 1 27 m (omega arith) (omega arith) (omega arith)
            (ground arith),
      )
      | inr ne'' ↦
          inl ((λ e. ground arith, λ e. ground arith, λ e. ground arith), rw (ne, ne', ne''))
    ]
  ]
]
