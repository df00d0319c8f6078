-- ===== src/Backend.antt =====
-- The backend, internal/fuse/backend.go and internal/fuse/invalidate.go, between its journal, its
-- index and the cache of file contents. The cache holds a file for each path; removing one never
-- fails. The ignore matcher is a parameter. A tree sync is two steps, since other calls may come
-- between the request and the answer.
pub mod Keeps
pub mod Records
mod Samples
use mathlib.Core.List.{foldl}
use livegit.Prelude.{
  ℕ, ◌+◌, ◌%◌, Bool, true, false, not, ◌&&◌, ◌||◌, Option, none, some, List, [], ◌∷◌, ◌++◌, map,
  Bytes, codes, ◌==◌, bytes_eq, nat_eq, length, filter, if◌then◌else◌, ltb, lookup, insert, delete,
}
use livegit.Paths.{rel, base}
use livegit.Journal.{
  JournalOp, JournalEntry, Journal, AppendIo, CompactIo, op_write, op_create, op_delete, op_mkdir,
  is_write, append, has_pending, drop_entries, select_rels,
}
use livegit.Index.{Entry, TreeEntry, Index, put, remove, get, set_have_content, replace, len}
use livegit.Trees.{Fetched}

-- A file of the cache, as `Stat` sees it.
pub record CachedFile : Type 0 where
  pub size : ℕ
  pub mode : ℕ

abbrev pub Cache : Type 0
Cache = List (Bytes × CachedFile)

pub record Backend : Type 0 where
  pub journal : Journal
  pub index : Index
  pub cache : Cache
  pub tree_digest : Bytes
  pub force_tree : Bool
  pub synced : Bool

-- internal/proto/messages.go
pub record Invalidation : Type 0 where
  pub rel : Bytes
  pub deleted : Bool
  pub is_dir : Bool
  pub size : ℕ
  pub mode : ℕ
  pub hash : Bytes
  pub mod_time : ℕ

unfoldable pub is_delete : JournalOp → Bool
is_delete op_delete = true
is_delete _ = false

-- os.Remove(b.cachePath(rel)), on a canonical path
unfoldable pub drop_cached : Bytes → Backend → Backend
drop_cached p b = record b { cache = delete p b.cache }

-- The cached copy is dropped, and the index knows.
unfoldable pub drop_content : Bytes → Backend → Backend
drop_content p b = record b { cache = delete p b.cache; index = set_have_content p false b.index }

-- The index entry of a change on Source.
abbrev pub invalidated : Invalidation → Entry
invalidated inv = record {
  rel = rel inv.rel;
  is_dir = inv.is_dir;
  size = inv.size;
  mod_time = inv.mod_time;
  mode = inv.mode;
  hash = inv.hash;
  have_content = false;
}

-- !had || prev.Hash != inv.Hash
unfoldable pub hash_differs : Bytes → Option Entry → Bool
hash_differs hash none = true
hash_differs hash (some prev) = not (prev.hash == hash)

-- `Invalidate`
unfoldable pub invalidate : Invalidation → Backend → Backend
invalidate inv b =
    let p = rel inv.rel in
    let waiting = has_pending p b.journal in
    let removed = record b { index = remove p b.index } in
    let changed = record b { index = put (invalidated inv) b.index } in
    if inv.deleted
    then (if waiting then removed else drop_cached p removed)
    else if not inv.is_dir && (not waiting && hash_differs inv.hash (get p b.index))
    then drop_content p changed
    else changed

-- What SyncTree takes before it asks Source: the queue, and the digest that it says it holds.
unfoldable pub sync_start : Backend → Backend × (List JournalEntry × Bytes)
sync_start b = (
  record b { force_tree = false },
  (b.journal.pending, if b.force_tree then [] else b.tree_digest),
)

-- kept[je.Rel] = e, for the queued paths that are in the index
unfoldable pub keep_entry : Index → List (Bytes × Entry) → JournalEntry → List (Bytes × Entry)
keep_entry ix kept e =
    if is_delete e.op
    then kept
    else elim (get e.rel ix) [ none ↦ kept | some x ↦ insert e.rel x kept ]

-- Content that Source changed, of a file with no queued work.
unfoldable pub is_stale : Backend → TreeEntry → Bool
is_stale b e = elim (get (rel e.rel) b.index) [
  | none ↦ false
  | some old ↦
      not e.is_dir
      && (old.have_content
          && ((not (old.size == e.size) || not (old.mod_time == e.mod_time))
              && not (has_pending (rel e.rel) b.journal)))
]

-- The queued work on top of Source's tree.
unfoldable pub restore_entry : List (Bytes × Entry) → Index → JournalEntry → Index
restore_entry kept ix e =
    if is_delete e.op
    then remove e.rel ix
    else elim (lookup e.rel kept) [ none ↦ ix | some x ↦ put x ix ]

unfoldable pub drop_stale : List TreeEntry → Backend → Backend
drop_stale entries b = foldl (λ x e. drop_content (rel e.rel) x) b entries

-- The rest of SyncTree once Source's tree is there: `taken` is what sync_start took, and `written`
-- whether the index's snapshot could be written. False is an error.
unfoldable pub sync_finish : Bool → List JournalEntry → Option Fetched → Backend → Backend × Bool
sync_finish written taken none b = (b, false)
sync_finish written taken (some t) b =
    let queued = taken ++ b.journal.pending in
    let kept = foldl (keep_entry b.index) [] queued in
    let stale = filter (is_stale b) t.entries in
    let index = foldl (restore_entry kept) (replace written t.entries b.index) queued in
    let b' = drop_stale stale (record b { index = index }) in
    if t.unchanged
    then (b, true)
    else if length t.entries == 0 && ltb 0 (len b.index)
    then (b, false)
    else (record b' { tree_digest = t.digest; synced = true }, true)

-- The cache loses the copy of a dropped write.
unfoldable pub drop_entry : Backend → JournalEntry → Backend
drop_entry b e = if is_write e.op then drop_content (rel e.rel) b else b

-- `DropPending`
unfoldable pub drop_pending : CompactIo → List Bytes → Backend → Backend × ℕ
drop_pending io rels b =
    let (journal, rest) = drop_entries io (select_rels rels) b.journal in
    let b' = foldl drop_entry (record b { journal = journal }) rest.0 in
    (record b' { force_tree = true }, length rest.0)

-- An entry of the journal as the Record functions make it, before `Append` numbers it.
abbrev pub new_entry : Bytes → JournalOp → ℕ → ℕ → JournalEntry
new_entry p op mode now = record {
  seq = 0;
  rel = p;
  op = op;
  base_hash = [];
  mod_time = now;
  mode = mode;
  ts = now;
}

-- The index entry of a local file.
abbrev pub local_entry : Bytes → CachedFile → ℕ → Entry
local_entry p f now = record {
  rel = p;
  is_dir = false;
  size = f.size;
  mod_time = now;
  mode = f.mode;
  hash = [];
  have_content = true;
}

module _ (matches : Bytes → Bool) where
  unfoldable pub ignores : Bytes → Bool
  ignores p = base p == codes ".DS_Store" || matches (rel p)

  -- The part of RecordWrite that has the file's metadata; a new path is a create.
  unfoldable pub write_entry : AppendIo → ℕ → Bytes → CachedFile → Backend → Backend × Bool
  write_entry io now p f b =
      let op : JournalOp = elim (get p b.index) [ none ↦ op_create | some _ ↦ op_write ] in
      let (journal, answer) = append io (new_entry p op f.mode now) b.journal in
      elim answer [
        | none ↦ (record b { journal = journal }, false)
        | some _ ↦ (record b { journal = journal; index = put (local_entry p f now) b.index }, true)
      ]

  -- `RecordWrite`
  unfoldable pub record_write : AppendIo → ℕ → Bytes → Backend → Backend × Bool
  record_write io now path b =
      let p = rel path in
      if ignores p
      then (b, true)
      else elim (lookup p b.cache) [ none ↦ (b, false) | some f ↦ write_entry io now p f b ]

  -- `markLiveNew`; 0o777 is 511 and 0o644 is 420.
  unfoldable pub mark_live_new : ℕ → Bytes → ℕ → Backend → Backend
  mark_live_new now path mode b =
      let p = rel path in
      let perm = if mode % 512 == 0 then 420 else mode % 512 in
      if ignores p
      then b
      else record b { index = put (local_entry p (record { size = 0; mode = perm }) now) b.index }

  -- `markDir`, which goes on when the journal cannot take the entry; 0o755 is 493.
  unfoldable pub mark_dir : AppendIo → ℕ → Bytes → ℕ → Backend → Backend
  mark_dir io now path mode b =
      let p = rel path in
      let perm = if mode % 512 == 0 then 493 else mode % 512 in
      let entry : Entry = record {
        rel = p;
        is_dir = true;
        size = 0;
        mod_time = now;
        mode = perm;
        hash = [];
        have_content = false;
      } in
      let (journal, answer) = append io (new_entry p op_mkdir perm now) b.journal in
      if ignores p then b else record b { journal = journal; index = put entry b.index }

-- `RecordDelete`, but for the extended attributes
unfoldable pub record_delete : AppendIo → ℕ → Bytes → Backend → Backend × Bool
record_delete io now path b =
    let p = rel path in
    let (journal, answer) = append io (new_entry p op_delete 0 now) b.journal in
    elim answer [
      | none ↦ (record b { journal = journal }, false)
      | some _ ↦
          (record b { journal = journal; cache = delete p b.cache; index = remove p b.index }, true)
    ]
