-- ===== src/Changes/Samples.antt =====
-- The renaming of a file that was edited and is queued.
use livegit.Prelude.{
  Bool, true, false, ◌≡◌, ◌≢◌, refl, ◌⊎◌, arith, some, none, [], ◌∷◌, Bytes, codes, bytes_eq,
  bytes_beq, lookup,
}
use livegit.Paths.{rel}
use livegit.Journal.{JournalEntry, op_write, append_done}
use livegit.Backend.{Backend, CachedFile}
use livegit.Changes.{MoveIo, record_rename_file}
use livegit.Changes.Moves.{record_rename_file-IsKept}

abbrev write_a : JournalEntry
write_a = record {
  seq = 1;
  rel = codes "a";
  op = op_write;
  base_hash = [];
  mod_time = 1;
  mode = 420;
  ts = 1;
}

abbrev file : CachedFile
file = record { size = 3; mode = 420 }

abbrev edited : Backend
edited = record {
  journal = record {
    disk = [];
    is_open = true;
    pending = write_a ∷ [];
    parked = [];
    next_seq = 1;
    woken = false;
  };
  index = record { entries = []; children = []; dirty = false; last_fp = 0; snapshot = [] };
  cache = (codes "a", file) ∷ [];
  tree_digest = [];
  force_tree = false;
  synced = true;
}

abbrev io : MoveIo
io = record {
  fetched = none;
  mkdir_ok = true;
  move_ok = true;
  write_io = append_done;
  delete_io = append_done;
}

abbrev stuck : MoveIo
stuck = record {
  fetched = none;
  mkdir_ok = true;
  move_ok = false;
  write_io = append_done;
  delete_io = append_done;
}

abbrev nothing_ignored : Bytes → Bool
nothing_ignored p = false

different : codes "a" ≢ codes "b"
different = λ e. ground (arith, e)

record_rename_file-IsKept_example :
    (lookup
        (codes "a")
        (record_rename_file nothing_ignored stuck 8 (codes "a") (codes "b") edited).0.cache
      ≡ some file)
    ⊎ (lookup
          (codes "b")
          (record_rename_file nothing_ignored stuck 8 (codes "a") (codes "b") edited).0.cache
        ≡ some file)
unfolding rel bytes_beq lookup
record_rename_file-IsKept_example =
    record_rename_file-IsKept (codes "a") (codes "b") file nothing_ignored stuck 8 edited different
      refl refl
