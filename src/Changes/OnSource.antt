-- ===== src/Changes/OnSource.antt =====
-- `RecordRename` and `applyLocalRename` of internal/fuse/backend.go: a rename that Source does, mirrored
-- here. The extended attributes are not part of the state. What Source answers, and what the backend is
-- after FlushBarrier, is given.
use mathlib.Core.List.{foldl}
use livegit.Prelude.{
  ℕ, zero, suc, Bool, true, not, ◌&&◌, ◌||◌, none, some, List, [], ◌∷◌, ◌++◌, map, Bytes, ◌==◌,
  bytes_eq, length, drop, if◌then◌else◌, delete,
}
use livegit.Prefix.{slash, has_path_prefix}
use livegit.Paths.{rel}
use livegit.Journal.{pending_for_dir}
use livegit.Index.{Index, put, remove, get, children_of}
use livegit.Backend.{Backend, Cache}
use livegit.Attributes.{is_dir_at}
use livegit.Changes.{MoveIo, record_rename_file, record_rename_dir}

-- Where a cached path goes when `p` becomes `q`, itself or with all below it
unfoldable pub moved_key : Bytes → Bytes → Bytes → Bytes
moved_key p q k = if k == p then q else if has_path_prefix k p then q ++ drop (length p) k else k

-- Every path of the subtree with its new name, a directory before what is in it
unfoldable pub moved_paths : ℕ → Index → Bytes → Bytes → List (Bytes × Bytes)
moved_paths zero ix p q = []
moved_paths (suc fuel) ix p q =
    foldl
      (λ list c.
        list ++ moved_paths fuel ix (rel (p ++ slash ∷ c.name)) (rel (q ++ slash ∷ c.name)))
      ((p, q) ∷ []) (children_of p ix)

unfoldable pub put_moved : Index → Bytes × Bytes → Index
put_moved ix (p, q) = elim (get p ix) [ none ↦ ix | some e ↦ put (record e { rel = q }) ix ]

-- The cached bytes move with one rename, which may fail; the index is registered again.
unfoldable pub apply_local_rename : Bool → Bool → ℕ → Bytes → Bytes → Backend → Backend
apply_local_rename mkdir_ok move_ok fuel p q b =
    let cleared = delete q b.cache in
    let cache : Cache =
      if not mkdir_ok
      then b.cache
      else if not move_ok
      then cleared
      else map (λ (k, f). (moved_key p q k, f)) cleared in
    let list = moved_paths fuel b.index p q in
    record b { cache = cache; index = remove p (foldl put_moved b.index list) }

-- What Source and the file system answer, and the backend after the barrier
pub record RenameIo : Type 0 where
  pub online : Bool
  pub after_barrier : Backend
  pub ack_ok : Bool
  pub mkdir_ok : Bool
  pub move_ok : Bool
  pub each : Bytes → MoveIo

module _ (matches : Bytes → Bool) where
  unfoldable pub rename_by_journal :
      RenameIo → ℕ → ℕ → Bool → Bytes → Bytes → Backend → Backend × Bool
  rename_by_journal io fuel now is_dir p q b =
      if is_dir
      then record_rename_dir matches io.each fuel now p q b
      else record_rename_file matches (io.each p) now p q b

  unfoldable pub rename_flushed : RenameIo → ℕ → ℕ → Bool → Bytes → Bytes → Backend → Backend × Bool
  rename_flushed io fuel now is_dir p q b =
      if not (pending_for_dir p b.journal) && io.ack_ok
      then (apply_local_rename io.mkdir_ok io.move_ok fuel p q b, true)
      else rename_by_journal io fuel now is_dir p q b

  -- `RecordRename`
  unfoldable pub record_rename : RenameIo → ℕ → ℕ → Bytes → Bytes → Backend → Backend × Bool
  record_rename io fuel now old new b =
      let p = rel old in
      let q = rel new in
      let is_dir = is_dir_at (get p b.index) in
      if p == [] || p == q
      then (b, true)
      else if not io.online
      then rename_by_journal io fuel now is_dir p q b
      else if pending_for_dir p b.journal && is_dir
      then rename_flushed io fuel now is_dir p q io.after_barrier
      else rename_flushed io fuel now is_dir p q b
