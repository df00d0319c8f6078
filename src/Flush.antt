-- ===== src/Flush.antt =====
-- The flush worker, internal/fuse/flush.go: `flushEntry`, the draining loop of `RunFlush` and
-- `FlushAll`. Source is a state behind the calls of `SourceRPC`, whose answers are its own; the
-- ignore matcher is a parameter. Logging, timers and the wait between two drains are left out.
pub mod Progress
pub mod Appends
pub mod Drain
mod Samples
use livegit.Prelude.{
  ℕ, zero, suc, ◌+◌, Bool, true, false, not, ◌&&◌, ◌||◌, Option, none, some, List, [], ◌∷◌, Bytes,
  codes, ◌==◌, bytes_eq, nat_eq, length, if◌then◌else◌, leb, lookup,
}
use livegit.Paths.{rel, base}
use livegit.Journal.{
  JournalEntry, Journal, AppendIo, append, CompactIo, op_mkdir, op_delete, op_write, op_create, ack,
  peek, park,
}
use livegit.Index.{Index, Entry, put}
use livegit.Remote.{WriteReq, WriteAck}
use livegit.Upload.{LocalFile, flush_req}

-- internal/proto/messages.go
pub record DelReq : Type 0 where
  pub rel : Bytes
  pub base_hash : Bytes

pub record DelAck : Type 0 where
  pub ok : Bool
  pub conflict : Bool

-- The calls of `SourceRPC` that the worker makes, on a state of Source and of the link to it.
pub record SourceRpc (R : Type 0) : Type 0 where
  pub online : R → Bool
  pub write : WriteReq → R → R × Option WriteAck
  pub write_file : WriteReq → LocalFile → R → R × Option WriteAck
  pub delete : DelReq → R → R × Option DelAck

-- The backend's parts that the worker touches. The cache holds a file for each path.
pub record Ghost (R : Type 0) : Type 0 where
  pub journal : Journal
  pub index : Index
  pub cache : List (Bytes × LocalFile)
  pub source : R

-- How `os.Stat` of the cached file and the journal's compaction go.
pub record FlushIo : Type 0 where
  pub stat_ok : Bool
  pub compact : CompactIo

-- Consecutive failures of one entry: flushParkAfter of them and it is parked.
pub record Failing : Type 0 where
  pub seq : ℕ
  pub count : ℕ

abbrev pub no_failure : Failing
no_failure = record { seq = 0; count = 0 }

abbrev pub flush_park_after : ℕ
flush_park_after = 5

-- What other goroutines append to the journal in a round of the drain: before `Peek`, and from there
-- to what the round does to the journal. A round's other calls do not look at the journal.
pub record Meanwhile : Type 0 where
  pub before : List (AppendIo × JournalEntry)
  pub during : List (AppendIo × JournalEntry)

unfoldable pub append_all : List (AppendIo × JournalEntry) → Journal → Journal
append_all [] j = j
append_all ((io, e) ∷ appends) j = append_all appends (append io e j).0

abbrev pub meanwhile : {R : Type 0} → List (AppendIo × JournalEntry) → Ghost R → Ghost R
meanwhile appends g = record g { journal = append_all appends g.journal }

-- How a loop ends; `out_of_fuel` is no end of the code's.
pub data Outcome : Type 0 where
  drained offline failed out_of_fuel : Outcome

abbrev pub mkdir_req : JournalEntry → WriteReq
mkdir_req e = record (flush_req e.rel e.mod_time e.mode) { is_dir = true }

abbrev pub delete_req : JournalEntry → DelReq
delete_req e = record { rel = e.rel; base_hash = e.base_hash }

abbrev pub write_req : JournalEntry → WriteReq
write_req e = record (flush_req e.rel e.mod_time e.mode) { base_hash = e.base_hash }

module _ {R : Type 0} (source : SourceRpc R) (matches : Bytes → Bool) where
  -- `ignored` of internal/fuse/backend.go
  unfoldable pub ignored : Bytes → Bool
  ignored p = base p == codes ".DS_Store" || matches (rel p)

  -- b.journal.Ack(e.Seq)
  unfoldable pub ack_entry : FlushIo → JournalEntry → Ghost R → Ghost R × Bool
  ack_entry io e g =
      let (journal, done) = ack io.compact e.seq g.journal in (record g { journal = journal }, done)

  unfoldable pub flush_mkdir : FlushIo → JournalEntry → Ghost R → Ghost R × Bool
  flush_mkdir io e g =
      let (r, answer) = source.write (mkdir_req e) g.source in
      elim answer [
        | none ↦ (record g { source = r }, false)
        | some _ ↦ ack_entry io e (record g { source = r })
      ]

  -- Source may decline; the entry goes all the same.
  unfoldable pub flush_delete : FlushIo → JournalEntry → Ghost R → Ghost R × Bool
  flush_delete io e g =
      let (r, answer) = source.delete (delete_req e) g.source in
      elim answer [
        | none ↦ (record g { source = r }, false)
        | some _ ↦ ack_entry io e (record g { source = r })
      ]

  -- The index learns the hash that Source answered.
  unfoldable pub record_hash : JournalEntry → LocalFile → WriteAck → Index → Index
  record_hash e f answer ix =
      if not (answer.new_hash == [])
      then put
          (record {
            rel = e.rel;
            is_dir = false;
            size = length f.content;
            mod_time = e.mod_time;
            mode = e.mode;
            hash = answer.new_hash;
            have_content = true;
          })
          ix
      else ix

  unfoldable pub flush_write : FlushIo → JournalEntry → LocalFile → Ghost R → Ghost R × Bool
  flush_write io e f g =
      let (r, answer) = source.write_file (write_req e) f g.source in
      elim answer [
        | none ↦ (record g { source = r }, false)
        | some a ↦ ack_entry io e (record g { source = r; index = record_hash e f a g.index })
      ]

  -- A file that is gone from the cache takes its entry with it.
  unfoldable pub flush_cached : FlushIo → JournalEntry → Ghost R → Ghost R × Bool
  flush_cached io e g = if not io.stat_ok then (g, false) else elim (lookup (rel e.rel) g.cache) [
    | none ↦ ack_entry io e g
    | some f ↦ flush_write io e f g
  ]

  -- `flushEntry`; false is an error.
  unfoldable pub flush_entry : FlushIo → JournalEntry → Ghost R → Ghost R × Bool
  flush_entry io e g = if ignored e.rel then ack_entry io e g else elim e.op [
    | op_mkdir ↦ flush_mkdir io e g
    | op_delete ↦ flush_delete io e g
    | _ ↦ flush_cached io e g
  ]

  unfoldable pub count_failure : JournalEntry → Failing → Failing
  count_failure e f = record { seq = e.seq; count = if e.seq == f.seq then f.count + 1 else 1 }

  unfoldable pub clear_failure : JournalEntry → Failing → Failing
  clear_failure e f = if e.seq == f.seq then no_failure else f

  -- What a round does after the flush of the head: on to the next, or the head is parked, or wait.
  unfoldable pub after_drain :
      (Failing → Ghost R → Ghost R × Failing × Outcome)
      → JournalEntry
      → Failing
      → Ghost R × Bool
      → Ghost R × Failing × Outcome
  after_drain rest e f (g, true) = rest (clear_failure e f) g
  after_drain rest e f (g, false) =
      if leb flush_park_after (count_failure e f).count
      then rest no_failure (record g { journal = park e.seq g.journal })
      else (g, count_failure e f, failed)

  unfoldable pub drain_head :
      (Failing → Ghost R → Ghost R × Failing × Outcome)
      → (JournalEntry → FlushIo)
      → List (AppendIo × JournalEntry)
      → Failing
      → Ghost R
      → Option JournalEntry
      → Ghost R × Failing × Outcome
  drain_head rest io during f g none = (g, f, drained)
  drain_head rest io during f g (some e) =
      if not (source.online g.source)
      then (g, f, offline)
      else after_drain rest e f (flush_entry (io e) e (meanwhile during g))

  -- The inner loop of `RunFlush`, which ends in `failed` where it waits for the next wake, with what is
  -- appended in its rounds. Every round takes an entry out of the queue or parks it.
  unfoldable pub drain :
      ℕ
      → List Meanwhile
      → (JournalEntry → FlushIo)
      → Failing
      → Ghost R
      → Ghost R × Failing × Outcome
  drain zero rounds io f g = (g, f, out_of_fuel)
  drain (suc fuel) [] io f g = drain_head (drain fuel [] io) io [] f g (peek g.journal)
  drain (suc fuel) (round ∷ rounds) io f g =
      let g' = meanwhile round.before g in
      drain_head (drain fuel rounds io) io round.during f g' (peek g'.journal)

  -- An error ends `FlushAll`.
  unfoldable pub after_flush : (Ghost R → Ghost R × Outcome) → Ghost R × Bool → Ghost R × Outcome
  after_flush rest (g, true) = rest g
  after_flush rest (g, false) = (g, failed)

  unfoldable pub flush_head :
      (Ghost R → Ghost R × Outcome)
      → (JournalEntry → FlushIo)
      → Ghost R
      → Option JournalEntry
      → Ghost R × Outcome
  flush_head rest io g none = (g, drained)
  flush_head rest io g (some e) = after_flush rest (flush_entry (io e) e g)

  -- `FlushAll`
  unfoldable pub flush_all : ℕ → (JournalEntry → FlushIo) → Ghost R → Ghost R × Outcome
  flush_all zero io g = (g, out_of_fuel)
  flush_all (suc fuel) io g = flush_head (flush_all fuel io) io g (peek g.journal)
