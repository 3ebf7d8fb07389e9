-- ===== src/Files.antt =====
-- files.go: the file index of a package. filepath.Split is a parameter; Go strings are byte lists,
-- and a Go map is an association list.
pub mod Paths
pub mod Added
pub mod Append
pub mod Appended
pub mod Found
pub mod RoundTrip
pub mod Mode
pub mod Letters
pub mod Dump
pub mod Dumped
pub mod Panics
pub mod WrongType
pub mod Written
pub mod Tests
mod HeaderTests
use go_rpm.Base.{
  Option, Bytes, ℕ, [], List, ◌++◌, ◌∷◌, if◌then◌else◌, none, length, ◌^◌, some, codes, bytes_eq,
  ◌==◌, suc, ◌-◌, ltb, get_or, ◌+◌, ◌%◌,
}
use go_rpm.Header.{u32}

-- `prefixMap`.
pub record PrefixMap : Type 0 where
  pub s : List Bytes
  pub m : List (Bytes × ℕ)

abbrev pub new_prefix_map : PrefixMap
new_prefix_map = record { s = []; m = [] }

-- `p.m[d]`.
unfoldable pub find : Bytes → List (Bytes × ℕ) → Option ℕ
find d [] = none
find d ((k, i) ∷ m) = let more = find d m in if bytes_eq k d then some i else more

-- "/".
abbrev pub root_dir : Bytes
root_dir = 0x2f ∷ []

unfoldable pub def : Bytes → Bytes → Bytes → Bytes
def a b d = if bytes_eq a b then d else a

unfoldable pub index_found : Bytes → Bytes → Option ℕ → PrefixMap → (Bytes × ℕ) × PrefixMap
index_found f d (some i) p = ((f, i), p)
index_found f d none p =
    let i = length p.m in ((f, i), record { s = p.s ++ d ∷ []; m = p.m ++ (d, i) ∷ [] })

pub record File : Type 0 where
  pub name : Bytes
  pub user : Bytes
  pub group : Bytes
  pub mode : ℕ
  pub link_to : Bytes
  pub m_time : ℕ
  pub digest : Bytes
  pub no_verify : ℕ
  pub size : ℕ
  pub flags : ℕ

-- A slice of which the code tests whether it is nil, which is `none`.
abbrev pub values : Option (List ℕ) → List ℕ
values none = []
values (some vs) = vs

pub record FileIndex : Type 0 where
  pub dir_names : PrefixMap
  pub dir_indexes : List ℕ
  pub name : List Bytes
  pub user : List Bytes
  pub group : List Bytes
  pub dev : List ℕ
  pub ino : List ℕ
  pub mtime : List ℕ
  pub mode : List ℕ
  pub linkto : List Bytes
  pub digest : List Bytes
  pub flags : List ℕ
  pub verify : List ℕ
  pub size : List ℕ
  pub lsize : Option (List ℕ)
  pub rpmsize : ℕ
  pub rpmlsize : ℕ

abbrev pub new_file_index : FileIndex
new_file_index = record {
  dir_names = new_prefix_map;
  dir_indexes = [];
  name = [];
  user = [];
  group = [];
  dev = [];
  ino = [];
  mtime = [];
  mode = [];
  linkto = [];
  digest = [];
  flags = [];
  verify = [];
  size = [];
  lsize = none;
  rpmsize = 0;
  rpmlsize = 0;
}

-- "root".
abbrev pub root_user : Bytes
root_user = codes "root"

-- `^v` of a uint32.
abbrev pub not_u32 : ℕ → ℕ
not_u32 v = 2 ^ 32 - 1 - v

module _ (split : Bytes → Bytes × Bytes) where
  unfoldable pub index : Bytes → PrefixMap → (Bytes × ℕ) × PrefixMap
  unfolding index_found def
  index file p =
      let (d, f) = split file in let dir = def d [] root_dir in index_found f dir (find dir p.m) p

  unfoldable pub add : File → FileIndex → FileIndex
  unfolding index def
  add r f =
      let ((name, di), dirs) = index r.name f.dir_names in
      record f {
        dir_names = dirs;
        dir_indexes = f.dir_indexes ++ u32 di ∷ [];
        name = f.name ++ name ∷ [];
        mode = f.mode ++ r.mode ∷ [];
        mtime = f.mtime ++ r.m_time ∷ [];
        verify = f.verify ++ not_u32 r.no_verify ∷ [];
        linkto = f.linkto ++ r.link_to ∷ [];
        digest = f.digest ++ r.digest ∷ [];
        flags = f.flags ++ r.flags ∷ [];
        user = f.user ++ def r.user [] root_user ∷ [];
        group = f.group ++ def r.group [] root_user ∷ [];
        lsize = some (values f.lsize ++ r.size ∷ []);
        rpmlsize = (f.rpmlsize + r.size) % 2 ^ 64;
      }

  -- A client that adds files in sequence.
  unfoldable pub add_all : List File → FileIndex → FileIndex
  unfolding add
  add_all [] f = f
  add_all (r ∷ rs) f = add_all rs (add r f)

-- `fsize`, of an index that is not negative.
unfoldable pub fsize : ℕ → FileIndex → ℕ
fsize i f =
    if ltb i (length (values f.lsize))
    then get_or (values f.lsize) i 0
    else if ltb i (length f.size)
    then get_or f.size i 0
    else 0

-- The lengths that `Dump` compares, in its order.
abbrev pub checked_lengths : FileIndex → List ℕ
checked_lengths f =
    length f.verify
    ∷ length f.flags
    ∷ length f.digest
    ∷ length f.user
    ∷ length f.group
    ∷ length f.mtime
    ∷ length f.dir_indexes
    ∷ length f.linkto
    ∷ []

-- The place of the first length that is not `n`, as in the error of `Dump`.
abbrev one_more : Option ℕ → Option ℕ
one_more none = none
one_more (some i) = some (suc i)

unfoldable pub first_mismatch : ℕ → List ℕ → Option ℕ
first_mismatch n [] = none
first_mismatch n (v ∷ vs) =
    let more = first_mismatch n vs in if v == n then one_more more else some 0
