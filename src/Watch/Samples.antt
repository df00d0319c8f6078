-- ===== src/Watch/Samples.antt =====
-- A file that is written on Source while Ghost holds an old copy.
use livegit.Prelude.{
  Bool, true, false, ◌≡◌, refl, arith, none, some, [], ◌∷◌, Bytes, codes, bytes_eq, bytes_beq,
  lookup,
}
use livegit.Paths.{
  PathMapper, new_path_mapper, rel, rel_to_remote, remote_to_rel, clean_slash, has_prefix,
  trim_prefix,
}
use livegit.Paths.Mapper.{IsRoot}
use livegit.Journal.{has_pending}
use livegit.Index.{get}
use livegit.Backend.{Backend, hash_differs}
use livegit.Watch.{Event, FileInfo, handle, dir_tree, no_dirs, more_dirs, add_recursive}
use livegit.Watch.Shown.{shown, after_event, handle-shown}

abbrev mapper : PathMapper
mapper = new_path_mapper (codes "/me/w") (codes "/srv/w")

mapper-IsRoot : IsRoot mapper.remote_root
unfolding new_path_mapper clean_slash bytes_beq
mapper-IsRoot = (refl, ground arith, ground arith)

abbrev nothing : Bytes → Bool → Bool
nothing p d = false

abbrev written : Event
written = record {
  name = rel_to_remote mapper (codes "a/b");
  create = false;
  removed = false;
  renamed = false;
}

abbrev new_info : FileInfo
new_info = record { is_dir = false; size = 5; mod_time = 9; perm = 420 }

abbrev holds_old : Backend
holds_old = record {
  journal = record {
    disk = [];
    is_open = true;
    pending = [];
    parked = [];
    next_seq = 0;
    woken = false;
  };
  index = record { entries = []; children = []; dirty = false; last_fp = 0; snapshot = [] };
  cache = (codes "a/b", record { size = 3; mode = 420 }) ∷ [];
  tree_digest = [];
  force_tree = false;
  synced = true;
}

handle-shown_example :
    (get
        (rel (codes "a/b"))
        (after_event
          (handle nothing mapper (some new_info) (some (codes "h")) written).0
          holds_old).index
      ≡ some (shown (rel (codes "a/b")) new_info (codes "h") false))
    × (lookup
          (rel (codes "a/b"))
          (after_event
            (handle nothing mapper (some new_info) (some (codes "h")) written).0
            holds_old).cache
        ≡ none)
unfolding rel bytes_beq has_pending hash_differs get lookup
handle-shown_example =
    handle-shown nothing mapper (codes "a/b") new_info (codes "h") written holds_old mapper-IsRoot
      refl refl (λ e. ground (arith, e)) refl refl refl refl

watched :
    add_recursive
      (λ p d. bytes_beq p (codes "b"))
      mapper
      (dir_tree (codes "/srv/w") (
        more_dirs
          (dir_tree (codes "/srv/w/b") no_dirs)
          (more_dirs (dir_tree (codes "/srv/w/c") no_dirs) no_dirs)))
    ≡ codes "/srv/w" ∷ codes "/srv/w/c" ∷ []
unfolding add_recursive remote_to_rel new_path_mapper clean_slash rel bytes_beq has_prefix
    trim_prefix
watched = refl
