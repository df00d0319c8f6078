-- ===== src/Changes.antt =====
-- Renames and changes of attributes, internal/fuse/backend.go, between the journal, the index and the
-- cache of the backend. What Materialize brings and what the system calls answer is given.
pub mod Moves
pub mod OnSource
mod Samples
use mathlib.Core.List.{foldl, reverse}
use livegit.Prelude.{
  ℕ, zero, suc, ◌+◌, ◌%◌, Bool, true, false, not, ◌&&◌, ◌||◌, Option, none, some, List, [], ◌∷◌,
  ◌++◌, map, Bytes, ◌==◌, bytes_eq, length, drop, if◌then◌else◌, lookup, insert, delete,
}
use livegit.Prefix.{slash, has_path_prefix}
use livegit.Paths.{rel}
use livegit.Journal.{JournalEntry, Journal, AppendIo, op_write, append, pending_for_dir}
use livegit.Index.{Entry, Index, DirEntry, put, remove, get, children_of}
use livegit.Backend.{
  Backend, Cache, CachedFile, new_entry, local_entry, ignores, mark_dir, record_delete,
}

-- What Materialize brings: the file and the index entry that the download puts, if it goes well
abbrev pub Materialized : Type 0
Materialized = Option (CachedFile × Entry)

-- The answers on the way of one file; `mkdir_ok` and `move_ok` are those of the file system.
pub record MoveIo : Type 0 where
  pub fetched : Materialized
  pub mkdir_ok : Bool
  pub move_ok : Bool
  pub write_io : AppendIo
  pub delete_io : AppendIo

-- The content of a path, from the cache or from Source
unfoldable pub materialize : Materialized → Bytes → Backend → Backend × Option CachedFile
materialize fetched p b = elim (lookup p b.cache) [
  | some f ↦ (b, some f)
  | none ↦ elim fetched [
    | none ↦ (b, none)
    | some (f, e) ↦ (record b { cache = insert p f b.cache; index = put e b.index }, some f)
  ]
]

-- The destination's file is removed, and the source's renamed to it.
unfoldable pub move_cached : Bool → Bytes → Bytes → CachedFile → Backend → Backend
move_cached move_ok p q f b =
    if move_ok
    then record b { cache = insert q f (delete p (delete q b.cache)) }
    else record b { cache = delete q b.cache }

unfoldable pub and_delete : AppendIo → ℕ → Bytes → Backend × Bool → Backend × Bool
and_delete io now p (b, ok) =
    let deleted = record_delete io now p b in if ok then deleted else (b, false)

-- The paths below a directory, directories with their modes in the order of the walk; a path below
-- is longer, so the subtree has fewer levels than fuel.
unfoldable pub walk : ℕ → Index → Bytes → List (Bytes × ℕ) × List Bytes
walk zero ix p = ([], [])
walk (suc fuel) ix p =
    foldl
      (λ found c.
        let below = rel (p ++ slash ∷ c.name) in
        let (dirs, files) = walk fuel ix below in
        if c.is_dir
        then (found.0 ++ (below, c.mode) ∷ dirs, found.1 ++ files)
        else (found.0, found.1 ++ below ∷ []))
      ([], []) (children_of p ix)

-- Where a path below `p` goes
unfoldable pub target : Bytes → Bytes → Bytes → Bytes
target p q child = rel (q ++ slash ∷ drop (suc (length p)) child)

unfoldable pub delete_dirs : (Bytes → MoveIo) → ℕ → List (Bytes × ℕ) → Backend → Backend × Bool
delete_dirs io now [] b = (b, true)
delete_dirs io now ((d, mode) ∷ dirs) b =
    let (b', ok) = record_delete (io d).delete_io now d b in
    let rest = delete_dirs io now dirs b' in if ok then rest else (b', false)

module _ (matches : Bytes → Bool) where
  -- The journal and the index learn of the destination, unless it is ignored.
  unfoldable pub record_moved : AppendIo → ℕ → Bytes → CachedFile → Backend → Backend × Bool
  record_moved io now q f b =
      let (journal, answer) = append io (new_entry q op_write f.mode now) b.journal in
      if ignores matches q then (b, true) else elim answer [
        | none ↦ (record b { journal = journal }, false)
        | some _ ↦ (record b { journal = journal; index = put (local_entry q f now) b.index }, true)
      ]

  unfoldable pub move_file :
      MoveIo → ℕ → Bytes → Bytes → Backend × Option CachedFile → Backend × Bool
  move_file io now p q (b, none) = (b, false)
  move_file io now p q (b, some f) =
      let moved = move_cached io.move_ok p q f b in
      if not io.mkdir_ok
      then (b, false)
      else if not io.move_ok
      then (moved, false)
      else and_delete io.delete_io now p (record_moved io.write_io now q f moved)

  -- `recordRenameFile`, on canonical paths
  unfoldable pub record_rename_file : MoveIo → ℕ → Bytes → Bytes → Backend → Backend × Bool
  record_rename_file io now p q b = move_file io now p q (materialize io.fetched p b)

  unfoldable pub move_files :
      (Bytes → MoveIo) → ℕ → Bytes → Bytes → List Bytes → Backend → Backend × Bool
  move_files io now p q [] b = (b, true)
  move_files io now p q (f ∷ files) b =
      let (b', ok) = record_rename_file (io f) now f (target p q f) b in
      let rest = move_files io now p q files b' in if ok then rest else (b', false)

  -- `recordRenameDir`; 0o755 is 493.
  unfoldable pub record_rename_dir :
      (Bytes → MoveIo) → ℕ → ℕ → Bytes → Bytes → Backend → Backend × Bool
  record_rename_dir io fuel now p q b =
      let (dirs, files) = walk fuel b.index p in
      let made =
        foldl (λ b' d. mark_dir matches (io d.0).write_io now (target p q d.0) d.1 b')
          (mark_dir matches (io q).write_io now q 493 b) dirs in
      let (moved, ok) = move_files io now p q files made in
      let (cleared, ok') = delete_dirs io now (reverse dirs) moved in
      let gone = record_delete (io p).delete_io now p cleared in
      if not ok then (moved, false) else if not ok' then (cleared, false) else gone
