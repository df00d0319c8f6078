-- ===== src/Nodes/Samples.antt =====
-- A file that is open for writing.
use livegit.Prelude.{
  Bool, ◌≡◌, refl, arith, true, false, none, some, [], ◌∷◌, Bytes, codes, bytes_eq, bytes_beq,
  nat_eq, lookup, insert, delete,
}
use livegit.Paths.{rel, base, has_prefix}
use livegit.Journal.{append_done, append, has_pending}
use livegit.Backend.{Backend, CachedFile, ignores, record_write, write_entry, record_delete}
use livegit.Fetch.{fetch_active}
use livegit.Fetch.Gate.{no_fetches}
use livegit.Changes.{
  MoveIo, record_rename_file, move_file, materialize, move_cached, record_moved, and_delete,
}
use livegit.Evict.{SweepIo, hidden, evict_once}
use livegit.Nodes.{Handle, eio, fill_attr}
use livegit.Nodes.Handles.{
  WriteAtIo, Session, writes, releases, step, run, journal_if_dirty, write_at, handle_write,
  release_at,
}
use livegit.Nodes.Edits.{write-queued}
use livegit.Nodes.Unsaved.{evict_once-unflushed, record_rename_file-unflushed}

abbrev file : CachedFile
file = record { size = 9; mode = 420 }

abbrev one_file : Backend
one_file = record {
  journal = record {
    disk = [];
    is_open = true;
    pending = [];
    parked = [];
    next_seq = 1;
    woken = false;
  };
  index = record { entries = []; children = []; dirty = false; last_fp = 0; snapshot = [] };
  cache = (codes "a", file) ∷ [];
  tree_digest = [];
  force_tree = false;
  synced = true;
}

abbrev clean_a : Handle
clean_a = record { rel = codes "a"; writable = true; fetch = none; dirty = false }

abbrev dirty_a : Handle
dirty_a = record clean_a { dirty = true }

abbrev two_open : Session
two_open = record {
  backend = one_file;
  running = no_fetches;
  handles = (1, clean_a) ∷ (2, clean_a) ∷ [];
}

abbrev write_12 : WriteAtIo
write_12 = record { error = none; stands_at = some (codes "a"); extent = 12 }

abbrev nothing_ignored : Bytes → Bool
nothing_ignored p = false

-- The write goes through one file, the other is closed first.
write-queued_example :
    has_pending
      (rel (codes "a"))
      (step nothing_ignored (releases 1 append_done 8) (
        run nothing_ignored
          (releases 2 append_done 7 ∷ [])
          (step nothing_ignored (writes 1 write_12) two_open).0)).0.backend.journal
    ≡ true
unfolding step run journal_if_dirty record_write write_entry append lookup insert delete rel
    bytes_beq ignores base write_at handle_write release_at
write-queued_example =
    write-queued nothing_ignored 1 clean_a write_12 two_open (releases 2 append_done 7 ∷ [])
      (releases 1 append_done 8) refl refl ((λ e. omega (arith, e)), tt) refl refl refl

abbrev sweep : SweepIo
sweep = record { now = 9000; atime = λ p. 7; info_ok = λ p. true; remove_ok = λ p. true }

evict_once-unflushed_example :
    ((evict_once sweep no_fetches 0 5 one_file).1.cache ≡ [])
    × ((journal_if_dirty nothing_ignored append_done 8 dirty_a
          (evict_once sweep no_fetches 0 5 one_file).1).1
        ≡ eio)
    × ((journal_if_dirty nothing_ignored append_done 8 dirty_a
          (evict_once sweep no_fetches 0 5 one_file).1).0.1.journal
        ≡ one_file.journal)
unfolding rel bytes_beq ignores base hidden has_pending fetch_active lookup has_prefix
evict_once-unflushed_example =
    evict_once-unflushed nothing_ignored append_done 8 dirty_a sweep no_fetches 5 file one_file refl
      refl refl refl (omega arith, omega arith) refl refl refl

abbrev move : MoveIo
move = record {
  fetched = none;
  mkdir_ok = true;
  move_ok = true;
  write_io = append_done;
  delete_io = append_done;
}

abbrev renamed : Backend
renamed = (record_rename_file nothing_ignored move 8 (codes "a") (codes "b") one_file).0

record_rename_file-unflushed_example :
    (lookup (codes "b") renamed.cache ≡ some file)
    × ((journal_if_dirty nothing_ignored append_done 8 dirty_a renamed).1 ≡ eio)
    × ((journal_if_dirty nothing_ignored append_done 8 dirty_a renamed).0.1 ≡ renamed)
unfolding rel bytes_beq lookup ignores base record_rename_file move_file materialize move_cached
    record_moved and_delete record_delete append
record_rename_file-unflushed_example =
    record_rename_file-unflushed nothing_ignored append_done move 8 (codes "b") dirty_a file
      one_file refl (λ e. ground (arith, e)) refl (refl, refl) refl refl

-- A directory with no mode is shown with the usual one.
shown_dir :
    (fill_attr (record { exists = true; is_dir = true; size = 0; mod_time = 0; mode = 0 })).perm
    ≡ 493
unfolding fill_attr
shown_dir = refl
