-- ===== src/Backend/Samples.antt =====
-- A backend with one unflushed edit.
use livegit.Prelude.{
  Bool, true, false, ◌≡◌, refl, arith, Option, some, [], ◌∷◌, Bytes, codes, bytes_eq, bytes_beq,
  lookup,
}
use livegit.Journal.{JournalEntry, op_write, has_pending}
use livegit.Index.{new_index, TreeEntry}
use livegit.Trees.{Fetched}
use livegit.Backend.{Backend, CachedFile, Invalidation, invalidate, sync_finish}
use livegit.Backend.Keeps.{sync_finish-keeps, invalidate-keeps}
use livegit.Backend.Records.{Ready}

abbrev write_a : JournalEntry
write_a = record {
  seq = 1;
  rel = codes "a";
  op = op_write;
  base_hash = [];
  mod_time = 1;
  mode = 420;
  ts = 1;
}

abbrev file : CachedFile
file = record { size = 3; mode = 420 }

abbrev edited : Backend
edited = record {
  journal = record {
    disk = [];
    is_open = true;
    pending = write_a ∷ [];
    parked = [];
    next_seq = 1;
    woken = false;
  };
  index = new_index [];
  cache = (codes "a", file) ∷ (codes "b", file) ∷ [];
  tree_digest = [];
  force_tree = false;
  synced = false;
}

abbrev source_a : TreeEntry
source_a = record { rel = codes "a"; is_dir = false; size = 9; mod_time = 5; mode = 420; hash = [] }

abbrev fetched : Option Fetched
fetched = some (record { entries = source_a ∷ []; digest = codes "d"; unchanged = false })

abbrev changed_a : Invalidation
changed_a = record {
  rel = codes "a";
  deleted = true;
  is_dir = false;
  size = 9;
  mode = 420;
  hash = codes "h";
  mod_time = 5;
}

a_waits : has_pending (codes "a") edited.journal ≡ true
unfolding has_pending bytes_beq
a_waits = refl

sync_finish-keeps_example :
    lookup (codes "a") (sync_finish true [] fetched edited).0.cache
    ≡ lookup (codes "a") edited.cache
sync_finish-keeps_example = sync_finish-keeps edited (codes "a") a_waits true [] fetched

invalidate-keeps_example :
    lookup (codes "a") (invalidate changed_a edited).cache ≡ lookup (codes "a") edited.cache
invalidate-keeps_example = invalidate-keeps edited (codes "a") a_waits changed_a

edited-Ready : Ready edited.journal
edited-Ready = (refl, omega arith)

abbrev nothing_ignored : Bytes → Bool
nothing_ignored _ = false
