-- ===== src/Cli/Samples.antt =====
-- A queue of two writes, dropped by way of the mount and without it, and caches that are cleared.
use livegit.Prelude.{
  split_on, ℕ, true, false, ◌≡◌, refl, arith, none, some, [], ◌∷◌, List, Bytes, codes, bytes_eq,
  bytes_beq, length, lookup, has,
}
use livegit.Prefix.{has_path_prefix}
use livegit.Ignore.{trim_space}
use livegit.Journal.{
  ends, JournalEntry, Journal, entry, op_write, append_done, compact_done, append, signal, coalesce,
  drop_entries, select_rels, load, open_journal, has_pending,
}
use livegit.Journal.History.{here, next, appends}
use livegit.Backend.{Backend, Cache}
use livegit.Evict.{trim_suffix}
use livegit.Cli.{
  SignalIo, ClearIo, readable, take_requests, requests, drop_by_mount, drop_offline, clear_command,
  resolve_pending_args, top_dir,
}
use livegit.Cli.Drop.{drop_by_mount-drop_offline, drop_by_mount-blank}
use livegit.Cli.Clear.{clear_command-kept}

abbrev a_write : ℕ → Bytes → JournalEntry
a_write n p = record {
  seq = n;
  rel = p;
  op = op_write;
  base_hash = [];
  mod_time = 1;
  mode = 420;
  ts = 1;
}

abbrev two_writes : List JournalEntry
two_writes = a_write 1 (codes "a/b") ∷ a_write 2 (codes "c") ∷ []

abbrev two_cached : Cache
two_cached =
    (codes "a/b", record { size = 3; mode = 420 })
    ∷ (codes "c", record { size = 4; mode = 420 })
    ∷ []

abbrev mounted : Backend
mounted = record {
  journal = record {
    disk = entry (a_write 1 (codes "a/b")) ∷ entry (a_write 2 (codes "c")) ∷ [];
    is_open = true;
    pending = two_writes;
    parked = [];
    next_seq = 2;
    woken = false;
  };
  index = record { entries = []; children = []; dirty = false; last_fp = 0; snapshot = [] };
  cache = two_cached;
  tree_digest = [];
  force_tree = false;
  synced = true;
}

abbrev goes_well : SignalIo
goes_well = record { handles = true; written = true; signalled = true; acked = true }

abbrev clears : ClearIo
clears = record { info_ok = λ p. true; remove_ok = λ p. true }

drop_by_mount-drop_offline_example :
    drop_offline compact_done (codes "a" ∷ []) mounted.journal.disk mounted.cache ≡ (
      (
        (drop_by_mount goes_well compact_done none (codes "a" ∷ []) mounted).0.journal.disk,
        (drop_by_mount goes_well compact_done none (codes "a" ∷ []) mounted).0.cache,
      ),
      (1, true),
    )
unfolding drop_by_mount take_requests requests split_on trim_space load bytes_beq has_path_prefix
    coalesce drop_entries select_rels
drop_by_mount-drop_offline_example =
    drop_by_mount-drop_offline goes_well (codes "a" ∷ []) mounted (((refl, tt), refl, refl), tt)
      refl refl

drop_by_mount-blank_example :
    ((drop_by_mount goes_well compact_done none (codes " " ∷ []) mounted).0.journal.pending ≡ [])
    × (2 ≡ length mounted.journal.pending)
unfolding drop_by_mount take_requests requests split_on trim_space bytes_beq drop_entries
    select_rels
drop_by_mount-blank_example = drop_by_mount-blank goes_well (codes " ") mounted (refl, tt) refl refl

abbrev one_queued : Journal
one_queued = (append append_done (a_write 0 (codes "c")) (open_journal [])).0

clear_command-kept_example :
    lookup (codes "c") (clear_command clears (readable one_queued.disk) two_cached).left
    ≡ lookup (codes "c") two_cached
unfolding open_journal load append signal coalesce has_pending trim_suffix bytes_beq ends
clear_command-kept_example =
    clear_command-kept clears one_queued (codes "c") two_cached
      (next here (appends append_done (a_write 0 (codes "c")) (open_journal []) (omega arith) refl))
      refl refl

-- A file whose name ends in `.lg-tmp` goes, though its edit is queued.
staging_name :
    (clear_command clears
      (readable (entry (a_write 1 (codes "c.lg-tmp")) ∷ []))
      ((codes "c.lg-tmp", record { size = 3; mode = 420 }) ∷ [])).removed
    ≡ 1
unfolding clear_command trim_suffix bytes_beq has
staging_name = refl

in_mount :
    resolve_pending_args
      (codes "/m/a")
      (codes "/m")
      (record { rel = codes "a/b"; op = op_write } ∷ [])
      (codes "b" ∷ [])
    ≡ some (codes "a/b" ∷ [])
unfolding resolve_pending_args bytes_beq
in_mount = refl

first_part : top_dir (codes "a/b/c") ≡ codes "a/"
unfolding top_dir
first_part = refl
