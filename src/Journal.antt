-- ===== src/Journal.antt =====
-- The write journal, internal/fuse/journal.go. A method takes the state and returns it with its
-- result; what the file system does comes in as an argument.
-- The log is a list of lines: JSON text of a record is the record, and a line that
-- `json.Unmarshal` refuses is `torn`. A write that fails may leave text without its newline at the
-- end, `part` of a record's text or the text of all of it, and the next write goes on in that
-- line: two such texts on one line are no JSON. Times and modes are what the caller passes, never negative.
pub mod Coalesce
pub mod Order
pub mod Replay
pub mod History
pub mod Queue
pub mod Refine
pub mod Barrier
pub mod Fused
mod Samples
use livegit.Prelude.{
  ℕ, suc, ◌+◌, ◌%◌, ◌^◌, Bool, true, false, not, ◌&&◌, ◌||◌, Option, none, some, List, [], ◌∷◌,
  ◌++◌, map, arith, Bytes, ◌==◌, bytes_eq, nat_eq, bytes_beq, length, filter, any, if◌then◌else◌,
  ltb, has, add, discard,
}
use mathlib.Core.List.{foldl}
use livegit.Prefix.{has_path_prefix}

-- A `JournalOp` is a string, and a log may hold one that no constant names.
pub data JournalOp : Type 0 where
  op_write op_delete op_create op_mkdir : JournalOp
  op_other : Bytes → JournalOp

pub record JournalEntry : Type 0 where
  pub seq : ℕ
  pub rel : Bytes
  pub op : JournalOp
  pub base_hash : Bytes
  pub mod_time : ℕ
  pub mode : ℕ
  pub ts : ℕ

pub data Line : Type 0 where
  blank torn part : Line
  entry unended : JournalEntry → Line

pub is_ended : Line → Bool
is_ended part = false
is_ended (unended e) = false
is_ended _ = true

-- Whether nothing stands behind the last newline of the file.
unfoldable pub ends : List Line → Bool
unfolding is_ended
ends [] = true
ends (x ∷ []) = is_ended x
ends (x ∷ y ∷ xs) = ends (y ∷ xs)

-- What is in the line when the text is written behind a text without a newline.
pub fused : Line → Line
unfolding is_ended
fused l = if is_ended l then torn else part

-- A write with O_APPEND
unfoldable pub write_line : List Line → Line → List Line
unfolding is_ended fused
write_line [] l = l ∷ []
write_line (x ∷ []) l = if is_ended x then x ∷ l ∷ [] else fused l ∷ []
write_line (x ∷ y ∷ xs) l = x ∷ write_line (y ∷ xs) l

-- `woken` is the pulse waiting in the channel `notify`, which holds one.
pub record Journal : Type 0 where
  pub disk : List Line
  pub is_open : Bool
  pub pending : List JournalEntry
  pub parked : List ℕ
  pub next_seq : ℕ
  pub woken : Bool

-- e.Op == OpWrite || e.Op == OpCreate
unfoldable pub is_write : JournalOp → Bool
is_write op_write = true
is_write op_create = true
is_write _ = false

unfoldable pub coalesce : JournalEntry → List JournalEntry → List JournalEntry
unfolding is_write
coalesce e pending =
    if not (is_write e.op)
    then pending
    else filter (λ p. not (p.rel == e.rel && is_write p.op)) pending

-- What `load` keeps of the lines read so far.
pub record Loaded : Type 0 where
  pub pending : List JournalEntry
  pub next_seq : ℕ

unfoldable pub load_entry : Loaded → JournalEntry → Loaded
load_entry l e = record {
  pending = coalesce e l.pending ++ e ∷ [];
  next_seq = if ltb l.next_seq e.seq then e.seq else l.next_seq;
}

unfoldable pub load_line : Loaded → Line → Loaded
unfolding load_entry
load_line l blank = l
load_line l torn = l
load_line l part = l
load_line l (entry e) = load_entry l e
load_line l (unended e) = load_entry l e

unfoldable pub load : List Line → Loaded
unfolding load_line
load = foldl load_line (record { pending = []; next_seq = 0 })

-- `OpenJournal` on a log that can be read and opened.
unfoldable pub open_journal : List Line → Journal
unfolding load
open_journal disk = record {
  disk = disk;
  is_open = true;
  pending = (load disk).pending;
  parked = [];
  next_seq = (load disk).next_seq;
  woken = false;
}

unfoldable pub signal : Journal → Journal
signal j = record j { woken = true }

-- How the file answers an append: a failed write leaves nothing, part of the text or all of it but
-- the newline, and a failed sync may leave the line.
pub data AppendIo : Type 0 where
  append_done append_write_failed append_part_written append_unended append_sync_failed : AppendIo

-- `none` is an error. The sequence number is taken before the write, whatever becomes of it.
append_numbered : AppendIo → JournalEntry → Journal → Journal × Option ℕ
append_numbered append_write_failed e j = (j, none)
append_numbered append_part_written e j = (record j { disk = write_line j.disk part }, none)
append_numbered append_unended e j = (record j { disk = write_line j.disk (unended e) }, none)
append_numbered append_sync_failed e j = (record j { disk = write_line j.disk (entry e) }, none)
append_numbered append_done e j = (
  signal
      (record j { disk = write_line j.disk (entry e); pending = coalesce e j.pending ++ e ∷ [] }),
  some e.seq,
)

unfoldable pub append : AppendIo → JournalEntry → Journal → Journal × Option ℕ
unfolding append_numbered signal
append io e j =
    let seq = (j.next_seq + 1) % 2 ^ 64 in
    append_numbered (if j.is_open then io else append_write_failed) (record e { seq = seq })
      (record j { next_seq = seq })

-- Wake
unfoldable pub wake : Journal → Journal
unfolding signal
wake j = signal j

unfoldable pub peek_pending : List ℕ → List JournalEntry → Option JournalEntry
peek_pending parked [] = none
peek_pending parked (e ∷ es) = if not (has e.seq parked) then some e else peek_pending parked es

unfoldable pub peek : Journal → Option JournalEntry
unfolding peek_pending
peek j = peek_pending j.parked j.pending

-- How the file system answers a compaction.
pub data CompactIo : Type 0 where
  compact_done compact_tmp_failed compact_rename_failed compact_reopen_failed : CompactIo

-- The result says whether it went well. The old file is closed before the rename.
unfoldable pub compact : CompactIo → Journal → Journal × Bool
compact compact_done j = (record j { disk = map entry j.pending; is_open = true }, true)
compact compact_tmp_failed j = (j, false)
compact compact_rename_failed j = (record j { is_open = false }, false)
compact compact_reopen_failed j = (record j { disk = map entry j.pending; is_open = false }, false)

unfoldable pub ack : CompactIo → ℕ → Journal → Journal × Bool
ack io seq j = compact io (record j { pending = filter (λ e. not (e.seq == seq)) j.pending })

-- relDir == "" || e.Rel == relDir || hasPathPrefix(e.Rel, relDir)
unfoldable pub targets : Bytes → JournalEntry → Bool
targets dir e = dir == [] || (e.rel == dir || has_path_prefix e.rel dir)

unfoldable pub pending_for_dir : Bytes → Journal → Bool
unfolding targets
pending_for_dir dir j = any (λ e. not (has e.seq j.parked) && targets dir e) j.pending

abbrev pub pending_snapshot : Journal → List JournalEntry
pending_snapshot j = j.pending

unfoldable pub pending_count : Journal → ℕ
pending_count j = length j.pending

unfoldable pub has_pending : Bytes → Journal → Bool
has_pending rel j = any (λ e. e.rel == rel) j.pending

-- `ScanPendingDir`: the same question asked of the file, by a process that has no journal.
unfoldable pub scan_pending_dir : List Line → Bytes → Bool
unfolding targets
scan_pending_dir [] dir = false
scan_pending_dir (entry e ∷ lines) dir = targets dir e || scan_pending_dir lines dir
scan_pending_dir (unended e ∷ lines) dir = targets dir e || scan_pending_dir lines dir
scan_pending_dir (_ ∷ lines) dir = scan_pending_dir lines dir

unfoldable pub park : ℕ → Journal → Journal
park seq j = record j { parked = add seq j.parked }

unfoldable pub parked_count : Journal → ℕ
parked_count j = length j.parked

unfoldable pub select_rels : List Bytes → JournalEntry → Bool
select_rels [] e = true
select_rels (r ∷ rels) e = any (λ r'. e.rel == r' || has_path_prefix e.rel r') (r ∷ rels)

-- The loop of `Drop`: the entries dropped, those kept, and the parked numbers that are left.
pub record Dropping : Type 0 where
  pub dropped : List JournalEntry
  pub kept : List JournalEntry
  pub parked : List ℕ

pub drop_loop : (JournalEntry → Bool) → List JournalEntry → Dropping → Dropping
drop_loop match [] d = d
drop_loop match (e ∷ es) d = drop_loop match es (
    if match e
    then record d { dropped = d.dropped ++ e ∷ []; parked = discard e.seq d.parked }
    else record d { kept = d.kept ++ e ∷ [] })

-- The entries dropped, and whether the log was compacted.
unfoldable pub drop_entries :
    CompactIo → (JournalEntry → Bool) → Journal → Journal × (List JournalEntry × Bool)
unfolding drop_loop compact
drop_entries io match j =
    let d = drop_loop match j.pending (record { dropped = []; kept = []; parked = j.parked }) in
    let (j', done) = compact io (record j { pending = d.kept; parked = d.parked }) in
    (j', (d.dropped, done))

-- The file is closed and stays so.
unfoldable pub close : Journal → Journal
close j = record j { is_open = false }
