-- ===== src/Evict/Samples.antt =====
-- A cache of two files, of which one was edited.
use livegit.Prelude.{
  ◌≤◌, ◌≡◌, ◌⊎◌, refl, arith, true, false, some, [], ◌∷◌, Bytes, codes, bytes_eq, bytes_beq, lookup,
  delete,
}
use livegit.Paths.{rel, base, has_prefix}
use livegit.Journal.{JournalEntry, op_write, has_pending}
use livegit.Backend.{Backend, CachedFile, drop_content}
use livegit.Fetch.{fetch_active}
use livegit.Fetch.Gate.{no_fetches}
use livegit.Evict.{contains, age_staging, SweepIo, hidden, can_evict, evict_once, cache_usage}
use livegit.Evict.Usage.{IsKept}
use livegit.Evict.Pass.{Keeps, evict_once-Keeps}
use livegit.Evict.Bounded.{evict_once-Fits}

abbrev write_a : JournalEntry
write_a = record {
  seq = 1;
  rel = codes "a";
  op = op_write;
  base_hash = [];
  mod_time = 1;
  mode = 420;
  ts = 1;
}

abbrev file : CachedFile
file = record { size = 9; mode = 420 }

abbrev edited : Backend
edited = record {
  journal = record {
    disk = [];
    is_open = true;
    pending = write_a ∷ [];
    parked = [];
    next_seq = 1;
    woken = false;
  };
  index = record { entries = []; children = []; dirty = false; last_fp = 0; snapshot = [] };
  cache = (codes "a", file) ∷ (codes "b", file) ∷ [];
  tree_digest = [];
  force_tree = false;
  synced = true;
}

abbrev sweep : SweepIo
sweep = record { now = 9000; atime = λ p. 7; info_ok = λ p. true; remove_ok = λ p. true }

evict_once-Keeps_example :
    Keeps sweep no_fetches (codes "a") edited (evict_once sweep no_fetches 10 5 edited).1
unfolding has_pending bytes_beq contains base has_prefix
evict_once-Keeps_example = evict_once-Keeps sweep no_fetches (codes "a") edited 10 5 refl refl

edited-IsKept : IsKept edited.cache
unfolding rel bytes_beq
edited-IsKept = ((refl, (refl, tt)), (((λ e. ground (arith, e)), tt), (tt, tt)))

evict_once-Fits_example :
    (cache_usage sweep (evict_once sweep no_fetches 10 5 edited).1 ≤ 5)
    ⊎ ((q : Bytes) (g : CachedFile)
        → lookup q (evict_once sweep no_fetches 10 5 edited).1.cache ≡ some g
        → (hidden sweep q ≡ true) ⊎ (can_evict sweep no_fetches edited.journal q ≡ false))
evict_once-Fits_example = evict_once-Fits sweep no_fetches 10 5 edited (omega arith) edited-IsKept

-- The file that was not edited is evicted, and the cache stays above its cap.
edited_swept : (evict_once sweep no_fetches 10 5 edited).1.cache ≡ (codes "a", file) ∷ []
unfolding evict_once age_staging contains hidden has_pending bytes_beq rel fetch_active lookup base
    has_prefix drop_content delete
edited_swept = refl
