-- ===== src/Attributes/Samples.antt =====
-- A file of three bytes is cut to two and made executable.
use livegit.Prelude.{Bool, true, false, some, none, [], ◌∷◌, Bytes, codes, bytes_eq}
use livegit.Journal.{append_done}
use livegit.Backend.{Backend, CachedFile}
use livegit.Attributes.{SetRequest, SetIo}

abbrev file : CachedFile
file = record { size = 3; mode = 420 }

abbrev backend : Backend
backend = record {
  journal = record {
    disk = [];
    is_open = true;
    pending = [];
    parked = [];
    next_seq = 1;
    woken = false;
  };
  index = record { entries = []; children = []; dirty = false; last_fp = 0; snapshot = [] };
  cache = (codes "a", file) ∷ [];
  tree_digest = [];
  force_tree = false;
  synced = true;
}

abbrev io : SetIo
io = record {
  fetched = none;
  truncate_ok = true;
  chmod_ok = true;
  mod_time = 5;
  append_io = append_done;
}

abbrev request : SetRequest
request = record { size = some 2; mode = some 493; mtime = none }

abbrev nothing_ignored : Bytes → Bool
nothing_ignored p = false
