-- ===== src/Xattrs.antt =====
-- The extended attributes of a mount session, internal/fuse/xattr.go: a map from paths to maps
-- from names to values. The order in which Go walks a map is the order of the list; a rename is
-- taken to walk the paths that were there when it began.
pub mod Forget
use mathlib.Core.List.{foldl}
use livegit.Prelude.{
  ℕ, ◌+◌, Bool, true, false, not, ◌||◌, Option, none, some, List, [], ◌∷◌, ◌++◌, map, Bytes, ◌==◌,
  bytes_eq, length, drop, if◌then◌else◌, ltb, lookup, insert, delete,
}
use livegit.Prefix.{under_prefix}
use livegit.Paths.{rel}

abbrev pub Attrs : Type 0
Attrs = List (Bytes × Bytes)

abbrev pub Store : Type 0
Store = List (Bytes × Attrs)

-- s.m[rel], where a missing map is empty
unfoldable pub attrs_of : Bytes → Store → Attrs
attrs_of p s = elim (lookup p s) [ none ↦ [] | some attrs ↦ attrs ]

unfoldable pub set_attr : Bytes → Bytes → Bytes → Store → Store
set_attr p attr value s = insert p (insert attr value (attrs_of p s)) s

unfoldable pub get_attr : Bytes → Bytes → Store → Option Bytes
get_attr p attr s = lookup attr (attrs_of p s)

unfoldable pub list_attrs : Bytes → Store → List Bytes
list_attrs p s = map (λ e. e.0) (attrs_of p s)

unfoldable pub remove_attr : Bytes → Bytes → Store → Store × Bool
remove_attr p attr s = elim (get_attr p attr s) [
  | none ↦ (s, false)
  | some _ ↦ (insert p (delete attr (attrs_of p s)) s, true)
]

-- The path or one below it.
unfoldable pub at_or_under : Bytes → Bytes → Bool
at_or_under dir p = p == dir || under_prefix p dir

unfoldable pub forget_path : Bytes → Store → Bytes × Attrs → Store
forget_path dir s e = if at_or_under dir e.0 then delete e.0 s else s

-- `forget`
unfoldable pub forget : Bytes → Store → Store
forget dir s = foldl (forget_path dir) s s

unfoldable pub rename_path : Bytes → Bytes → Store → Bytes × Attrs → Store
rename_path old new s e =
    if e.0 == old
    then insert new e.1 (delete e.0 s)
    else if under_prefix e.0 old
    then insert (new ++ drop (length old) e.0) e.1 (delete e.0 s)
    else s

-- `rename`
unfoldable pub rename : Bytes → Bytes → Store → Store
rename old new s = foldl (rename_path old new) s s

-- What a call of the file system answers.
pub data Errno : Type 0 where
  success no_attr out_of_range : Errno

-- `Getxattr` with room for `room` bytes: how long the value is, the answer, and what is copied.
unfoldable pub getxattr : Bytes → Bytes → ℕ → Store → ℕ × Errno × Bytes
getxattr p attr room s = elim (get_attr p attr s) [
  | none ↦ (0, no_attr, [])
  | some value ↦
      if ltb room (length value)
      then (length value, out_of_range, [])
      else (length value, success, value)
]

-- The names one after the other, each ended by a zero.
unfoldable pub joined : List Bytes → Bytes
joined [] = []
joined (name ∷ names) = name ++ 0 ∷ joined names

unfoldable pub names_size : List Bytes → ℕ
names_size [] = 0
names_size (name ∷ names) = length name + 1 + names_size names

unfoldable pub listxattr : Bytes → ℕ → Store → ℕ × Errno × Bytes
listxattr p room s =
    let names = list_attrs p s in
    let size = names_size names in
    if ltb room size then (size, out_of_range, []) else (size, success, joined names)

unfoldable pub setxattr : Bytes → Bytes → Bytes → Store → Store × Errno
setxattr p attr value s = (set_attr p attr value s, success)

unfoldable pub removexattr : Bytes → Bytes → Store → Store × Errno
removexattr p attr s =
    let (s', done) = remove_attr p attr s in (s', if done then success else no_attr)

unfoldable pub xattr_rename : Bytes → Bytes → Store → Store
xattr_rename old new s = rename (rel old) (rel new) s

unfoldable pub xattr_forget : Bytes → Store → Store
xattr_forget p s = forget (rel p) s
