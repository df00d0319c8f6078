-- ===== src/Watch.antt =====
-- Source's watcher, internal/agent/watcher.go: what an event of the file system makes it announce,
-- and which directories it watches. The ignore matcher is a parameter.
pub mod Shown
mod Samples
use livegit.Prelude.{
  ℕ, Bool, true, false, not, ◌&&◌, ◌||◌, Option, none, some, List, [], ◌∷◌, ◌++◌, Bytes,
  if◌then◌else◌,
}
use livegit.Paths.{PathMapper, remote_to_rel}
use livegit.Backend.{Invalidation}

-- An event of fsnotify, with the operations that are set in it.
pub record Event : Type 0 where
  pub name : Bytes
  pub create : Bool
  pub removed : Bool
  pub renamed : Bool

-- What os.Stat answers of a name.
pub record FileInfo : Type 0 where
  pub is_dir : Bool
  pub size : ℕ
  pub mod_time : ℕ
  pub perm : ℕ

abbrev pub is_dir_at : Option FileInfo → Bool
is_dir_at none = false
is_dir_at (some info) = info.is_dir

abbrev hash_or_empty : Option Bytes → Bytes
hash_or_empty none = []
hash_or_empty (some h) = h

-- The announcement of a path, from its metadata and the hash of its content.
unfoldable pub announced : Bytes → Option FileInfo → Option Bytes → Event → Invalidation
announced p info hash ev =
    let bare : Invalidation = record {
      rel = p;
      deleted = false;
      is_dir = is_dir_at info;
      size = 0;
      mode = 0;
      hash = [];
      mod_time = 0;
    } in
    if ev.removed || ev.renamed then record bare { deleted = true } else elim info [
      | none ↦ bare
      | some i ↦
          if i.is_dir then record bare { mod_time = i.mod_time; mode = i.perm } else record bare {
            mod_time = i.mod_time;
            mode = i.perm;
            size = i.size;
            hash = hash_or_empty hash;
          }
    ]

module _ (matches : Bytes → Bool → Bool) where
  -- `handle`: what is announced, if anything, and the directory that is watched from then on, if
  -- there is one.
  unfoldable pub handle :
      PathMapper → Option FileInfo → Option Bytes → Event → Option Invalidation × Option Bytes
  unfolding announced
  handle m info hash ev = elim (remote_to_rel m ev.name) [
    | none ↦ (none, none)
    | some p ↦ if matches p (is_dir_at info) then (none, none) else (
      some (announced p info hash ev),
      if is_dir_at info && ev.create then some ev.name else none,
    )
  ]

-- The directories under a path, and of a list of them.
mutual
  pub data DirTree : Type 0 where
    dir_tree : Bytes → DirTrees → DirTree

  pub data DirTrees : Type 0 where
    no_dirs : DirTrees
    more_dirs : DirTree → DirTrees → DirTrees

abbrev unless_ignored : (Bytes → Bool → Bool) → Option Bytes → Bool
unless_ignored matches none = false
unless_ignored matches (some p) = matches p true

-- `addRecursive`: the directories that are watched; fsnotify may decline some.
unfoldable mutual
  pub add_recursive : (Bytes → Bool → Bool) → PathMapper → DirTree → List Bytes
  add_recursive matches m (dir_tree path below) =
      let rest = add_each matches m below in
      if unless_ignored matches (remote_to_rel m path) then [] else path ∷ rest

  pub add_each : (Bytes → Bool → Bool) → PathMapper → DirTrees → List Bytes
  add_each matches m no_dirs = []
  add_each matches m (more_dirs t ts) = add_recursive matches m t ++ add_each matches m ts
