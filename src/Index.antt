-- ===== src/Index.antt =====
-- The metadata index, internal/fuse/index.go. The two Go maps are association lists; the snapshot
-- file is the list of entries in it. Sizes, times and modes are never negative.
mod Samples
pub mod Tree
pub mod Replace
pub mod Under
pub mod Remove
pub mod Calls
use mathlib.Core.List.{foldl}
use Prim.Native.Nat.{bit_xor}
use livegit.Prelude.{
  ℕ, zero, suc, ◌+◌, ◌*◌, ◌/◌, ◌%◌, ◌^◌, Bool, true, false, not, ◌&&◌, ◌||◌, Option, none, some,
  List, [], ◌∷◌, ◌++◌, map, Bytes, ◌==◌, bytes_eq, nat_eq, length, filter, any, if◌then◌else◌, ltb,
  eqb, has, add, discard, lookup, insert, delete,
}
use livegit.Paths.{rel, parent_rel, base}

pub record Entry : Type 0 where
  pub rel : Bytes
  pub is_dir : Bool
  pub size : ℕ
  pub mod_time : ℕ
  pub mode : ℕ
  pub hash : Bytes
  pub have_content : Bool

-- internal/proto/messages.go
pub record TreeEntry : Type 0 where
  pub rel : Bytes
  pub is_dir : Bool
  pub size : ℕ
  pub mod_time : ℕ
  pub mode : ℕ
  pub hash : Bytes

pub record DirEntry : Type 0 where
  pub name : Bytes
  pub is_dir : Bool
  pub size : ℕ
  pub mode : ℕ

abbrev pub Entries : Type 0
Entries = List (Bytes × Entry)

abbrev pub Children : Type 0
Children = List (Bytes × List Bytes)

pub record Index : Type 0 where
  pub entries : Entries
  pub children : Children
  pub dirty : Bool
  pub last_fp : ℕ
  pub snapshot : List Entry

-- ix.children[p], where a missing set is empty
unfoldable pub kids : Bytes → Children → List Bytes
kids p children = elim (lookup p children) [ none ↦ [] | some s ↦ s ]

-- ix.children[p][k] = true, on a set made where it is missing
unfoldable pub link : Bytes → Bytes → Children → Children
unfolding kids
link p k children = insert p (add k (kids p children)) children

-- The directory entry that stands for a missing ancestor; 0o755 is 493.
abbrev pub ancestor : Bytes → Entry
ancestor p = record {
  rel = p;
  is_dir = true;
  size = 0;
  mod_time = 0;
  mode = 493;
  hash = [];
  have_content = false;
}

unfoldable pub add_missing : Bytes → Entries → Entries
add_missing p entries = elim (lookup p entries) [
  | none ↦ insert p (ancestor p) entries
  | some _ ↦ entries
]

-- `ensureAncestors`, from the parent `p` on. A parent is shorter than its child.
unfoldable pub ensure_ancestors : ℕ → Bytes → Index → Index
unfolding add_missing link
ensure_ancestors zero p ix = ix
ensure_ancestors (suc fuel) p ix =
    let rest = ensure_ancestors fuel (parent_rel p) (record ix {
      entries = add_missing p ix.entries;
      children = link (parent_rel p) p ix.children;
    }) in
    if p == [] then ix else rest

unfoldable pub known_content : Bytes → Entries → Bool
known_content k entries = elim (lookup k entries) [ none ↦ false | some prev ↦ prev.have_content ]

-- `putLocked`, on an entry whose path is `k`
unfoldable pub put_at : Bytes → Entry → Index → Index
unfolding ensure_ancestors known_content link
put_at k e ix =
    let e' = record e { rel = k; have_content = e.have_content || known_content k ix.entries } in
    let ix' =
      ensure_ancestors (length k) (parent_rel k) (record ix { entries = insert k e' ix.entries }) in
    record ix' { children = link (parent_rel k) k ix'.children }

unfoldable pub put_locked : Entry → Index → Index
unfolding put_at
put_locked e ix = if rel e.rel == [] then ix else put_at (rel e.rel) e ix

-- `Put`
unfoldable pub put : Entry → Index → Index
unfolding put_locked
put e ix = record (put_locked e ix) { dirty = true }

-- delete(set, rel), where there is a set
unfoldable pub unlink : Bytes → Bytes → Children → Children
unlink p k children = elim (lookup p children) [
  | none ↦ children
  | some s ↦ insert p (discard k s) children
]

-- `removeLocked`; a child is longer than its parent, so the subtree has fewer levels than fuel.
unfoldable pub remove_locked : ℕ → Bytes → Index → Index
unfolding kids unlink
remove_locked zero k ix = ix
remove_locked (suc fuel) k ix =
    let below = foldl (λ i c. remove_locked fuel c i) ix (kids k ix.children) in
    record below {
      entries = delete k below.entries;
      children = unlink (parent_rel k) k (delete k below.children);
    }

-- The length of the longest path in the index, with room for the level of `k` itself.
unfoldable pub levels : Entries → ℕ
levels [] = 1
levels ((k, e) ∷ entries) = length k + levels entries

-- `Remove`
unfoldable pub remove : Bytes → Index → Index
unfolding remove_locked levels
remove k ix = record (remove_locked (levels ix.entries) (rel k) ix) { dirty = true }

-- `Get`
unfoldable pub get : Bytes → Index → Option Entry
get k ix = lookup (rel k) ix.entries

-- `SetHaveContent`
unfoldable pub set_have_content : Bytes → Bool → Index → Index
set_have_content k have ix = elim (lookup (rel k) ix.entries) [
  | none ↦ ix
  | some e ↦ record ix { entries = insert (rel k) (record e { have_content = have }) ix.entries }
]

-- a < b on Go strings
unfoldable pub bytes_lt : Bytes → Bytes → Bool
bytes_lt _ [] = false
bytes_lt [] (y ∷ ys) = true
bytes_lt (x ∷ xs) (y ∷ ys) = ltb x y || (eqb x y && bytes_lt xs ys)

unfoldable pub insert_sorted : DirEntry → List DirEntry → List DirEntry
insert_sorted d [] = d ∷ []
insert_sorted d (x ∷ xs) = if bytes_lt x.name d.name then x ∷ insert_sorted d xs else d ∷ x ∷ xs

unfoldable pub dir_entries : Entries → List Bytes → List DirEntry
unfolding insert_sorted
dir_entries entries [] = []
dir_entries entries (c ∷ cs) =
    let rest = dir_entries entries cs in
    elim (lookup c entries) [
      | none ↦ rest
      | some e ↦
          insert_sorted (record { name = base c; is_dir = e.is_dir; size = e.size; mode = e.mode })
            rest
    ]

-- `Children`
unfoldable pub children_of : Bytes → Index → List DirEntry
unfolding dir_entries kids
children_of k ix = dir_entries ix.entries (kids (rel k) ix.children)

-- `Len`
unfoldable pub len : Index → ℕ
len ix = length ix.entries

-- hash/fnv, New64a
unfoldable pub fnv_write : ℕ → Bytes → ℕ
fnv_write = foldl (λ h b. bit_xor h b * 1099511628211 % 2 ^ 64)

-- binary.LittleEndian.PutUint64, for the given number of bytes
unfoldable pub little_endian : ℕ → ℕ → Bytes
little_endian zero v = []
little_endian (suc n) v = v % 256 ∷ little_endian n (v / 256)

abbrev from_tree : TreeEntry → Entry
from_tree t = record {
  rel = rel t.rel;
  is_dir = t.is_dir;
  size = t.size;
  mod_time = t.mod_time;
  mode = t.mode;
  hash = t.hash;
  have_content = false;
}

unfoldable pub fingerprint : ℕ → TreeEntry → ℕ
unfolding fnv_write little_endian
fingerprint h t = fnv_write h (
    rel t.rel
    ++ 0
      ∷ (if t.is_dir then 1 else 0)
      ∷ (little_endian 8 t.size ++ little_endian 8 t.mod_time ++ little_endian 8 t.mode))

-- One round of the loop of `Replace`, with the entries of the old index.
unfoldable pub replace_step : Entries → Index → TreeEntry → Index
unfolding put_locked known_content
replace_step old ix t =
    put_locked (record (from_tree t) { have_content = known_content (rel t.rel) old }) ix

-- `SaveSnapshot`; the write is atomic and its failure leaves the old file.
unfoldable pub save_snapshot : Bool → Index → Index
save_snapshot written ix =
    if not ix.dirty
    then ix
    else if written
    then record ix { dirty = false; snapshot = map (λ p. p.1) ix.entries }
    else record ix { dirty = false }

-- `Replace`
unfoldable pub replace : Bool → List TreeEntry → Index → Index
unfolding replace_step fingerprint save_snapshot
replace written tree ix =
    let ix' = foldl (replace_step ix.entries) (record ix { entries = []; children = [] }) tree in
    let fp = foldl fingerprint 14695981039346656037 tree in
    save_snapshot written
      (if fp == ix.last_fp then ix' else record ix' { last_fp = fp; dirty = true })

-- `NewIndex` and `loadSnapshot`
unfoldable pub new_index : List Entry → Index
unfolding put_locked
new_index snapshot =
    record (foldl (λ ix e. put_locked (record e { have_content = false }) ix)
      (record { entries = []; children = []; dirty = false; last_fp = 0; snapshot = snapshot })
      snapshot) { dirty = false }
