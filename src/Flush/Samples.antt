-- ===== src/Flush/Samples.antt =====
-- Flushes of a small queue.
use livegit.Prelude.{
  ◌+◌, List, ℕ, suc, ◌<◌, arith, Bool, true, false, some, none, [], ◌∷◌, Bytes, codes, bytes_eq,
  nat_eq, has,
}
use livegit.Journal.{append_done, JournalEntry, op_write, op_mkdir, compact_done, entry}
use livegit.Index.{new_index}
use livegit.Remote.{no_ack}
use livegit.Flush.{Meanwhile, SourceRpc, Ghost, FlushIo, no_failure, flush_entry, drain}
use livegit.Flush.Progress.{left, Acked, flush_entry-Acked}
use livegit.Flush.Drain.{Ended, drain-Ended}

-- A Source that counts its calls, makes directories and refuses files.
abbrev refuses : SourceRpc ℕ
refuses = record {
  online = λ _. true;
  write = λ _ n. (suc n, some no_ack);
  write_file = λ _ _ n. (suc n, none);
  delete = λ _ n. (suc n, none);
}

abbrev nothing_ignored : Bytes → Bool
nothing_ignored _ = false

abbrev make_d : JournalEntry
make_d = record {
  seq = 1;
  rel = codes "d";
  op = op_mkdir;
  base_hash = [];
  mod_time = 1;
  mode = 493;
  ts = 1;
}

abbrev write_a : JournalEntry
write_a = record {
  seq = 2;
  rel = codes "a";
  op = op_write;
  base_hash = [];
  mod_time = 1;
  mode = 420;
  ts = 1;
}

abbrev ghost : Ghost ℕ
ghost = record {
  journal = record {
    disk = entry make_d ∷ entry write_a ∷ [];
    is_open = true;
    pending = make_d ∷ write_a ∷ [];
    parked = [];
    next_seq = 2;
    woken = false;
  };
  index = new_index [];
  cache = (codes "a", record { content = codes "x"; mtime = 1 }) ∷ [];
  source = 0;
}

abbrev io : JournalEntry → FlushIo
io _ = record { stat_ok = true; compact = compact_done }

two_left : left ghost.journal + 1 < 4
unfolding left has
two_left = omega arith

flush_entry-Acked_example :
    Acked refuses nothing_ignored
      (io make_d)
      make_d
      ghost
      (flush_entry refuses nothing_ignored (io make_d) make_d ghost)
flush_entry-Acked_example = flush_entry-Acked refuses nothing_ignored (io make_d) make_d ghost

-- While the directory is made, the file is written again.
abbrev written_again : List Meanwhile
written_again = record { before = []; during = (append_done, write_a) ∷ [] } ∷ []

drain-Ended_example :
    let r = drain refuses nothing_ignored 4 written_again io no_failure ghost in
    Ended refuses nothing_ignored io r.0 r.2
drain-Ended_example =
    drain-Ended refuses nothing_ignored io 4 written_again no_failure ghost two_left
