-- ===== src/Run/Samples.antt =====
-- A command with flags, a barrier that passes at its second round, and patterns.
use livegit.Prelude.{
  split_on, Bool, true, false, ◌≡◌, ◌≢◌, refl, inl, inr, arith, none, some, [], ◌∷◌, ◌++◌, Bytes,
  codes, bytes_eq, bytes_beq,
}
use livegit.Prefix.{has_path_prefix}
use livegit.Journal.{
  ends, write_line, Journal, JournalEntry, op_write, append, append_done, ack, compact_done,
  compact, coalesce, open_journal, scan_pending_dir,
}
use livegit.Journal.History.{Reach, here, next, appends, acks}
use livegit.Shellq.Unquote.{words, between}
use livegit.Run.{Poll, RunCallsIo, flush_barrier, dashes, detach_flag, serve_patterns, join_commas}
use livegit.Run.Words.{run_words, run_words-dashes}
use livegit.Run.Barrier.{Found, flush_barrier-Found, flush_barrier-ends}

abbrev goes_well : RunCallsIo
goes_well = record {
  loaded = true;
  authenticated = true;
  online = true;
  ended = ((false, 0), true);
  job_started = true;
  local_code = (false, 0);
}

run_words-dashes_example :
    (line : Bytes) × (run_words goes_well []
        ((detach_flag ∷ []) ++ dashes ∷ codes "echo" ∷ codes "it's" ∷ [])
      ≡ some line)
    × (words between [] [] line ≡ some (codes "echo" ∷ codes "it's" ∷ []))
run_words-dashes_example =
    run_words-dashes goes_well [] (detach_flag ∷ []) (codes "echo") (codes "it's" ∷ [])
      (inr (inl refl), tt) refl refl refl

abbrev edit : JournalEntry
edit = record {
  seq = 0;
  rel = codes "d/b";
  op = op_write;
  base_hash = [];
  mod_time = 1;
  mode = 420;
  ts = 1;
}

abbrev edited : Journal
edited = (append append_done edit (open_journal [])).0

abbrev flushed : Journal
flushed = (ack compact_done 1 edited).0

abbrev poll : Journal → Bool → Poll
poll j late = record { journal = j; readable = true; late = late; online = true }

edited-Reach : Reach (open_journal []) edited
edited-Reach = next here (
    appends append_done edit (open_journal []) (unfold open_journal in omega arith)
      (unfold open_journal ends in refl))

flush_barrier-Found_example : Found (codes "d") (poll edited false ∷ poll flushed false ∷ [])
unfolding flush_barrier scan_pending_dir append ack open_journal bytes_beq has_path_prefix compact
    coalesce write_line
flush_barrier-Found_example =
    flush_barrier-Found (codes "d") (poll edited false ∷ poll flushed false ∷ [])
      (edited-Reach, (next edited-Reach (acks compact_done 1 edited), tt)) refl

flush_barrier-ends_example : flush_barrier (codes "d") (poll edited true ∷ []) ≢ none
flush_barrier-ends_example = flush_barrier-ends (codes "d") (poll edited true ∷ []) refl

-- A pattern with a comma is handed on as two.
comma_pattern : serve_patterns (join_commas (codes "a,b" ∷ [])) ≡ codes "a" ∷ codes "b" ∷ []
unfolding serve_patterns join_commas bytes_beq split_on
comma_pattern = refl
