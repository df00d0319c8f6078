-- ===== src/Cli.antt =====
-- The commands on the write queue and the cache: internal/cli/pending.go, internal/cli/cache.go and
-- `pendingEntries` of internal/cli/status.go, with `takeRequests` and the answer to SIGUSR2 of
-- internal/fuse/mount.go. A command runs beside the mount or without one, on the same files.
pub mod Requests
pub mod Drop
pub mod Clear
mod Samples
use mathlib.Core.List.{foldl}
use livegit.Prelude.{
  split_on, ℕ, ◌+◌, Bool, true, false, not, ◌&&◌, ◌||◌, Option, none, some, List, [], ◌∷◌, ◌++◌,
  map, Bytes, codes, ◌==◌, bytes_eq, eqb, ltb, if◌then◌else◌, length, drop, any, filter, lookup,
  delete, has,
}
use livegit.Prefix.{slash, head_is}
use livegit.Paths.{dot, dotdot, rel, trim, clean, join_path, has_prefix}
use livegit.Journal.{
  JournalOp, JournalEntry, Journal, Line, blank, torn, part, entry, unended, CompactIo, is_write,
  open_journal, drop_entries, select_rels,
}
use livegit.Backend.{Backend, CachedFile, Cache, drop_pending}
use livegit.Evict.{tmp_suffix, trim_suffix}
use livegit.Ignore.{trim_space}

-- `pendingEntry`
pub record PendingEntry : Type 0 where
  pub rel : Bytes
  pub op : JournalOp

-- What reading the journal's file meets.
pub data JournalFile : Type 0 where
  absent unreadable : JournalFile
  readable : List Line → JournalFile

unfoldable pub line_entries : List Line → List PendingEntry
line_entries [] = []
line_entries (blank ∷ lines) = line_entries lines
line_entries (torn ∷ lines) = line_entries lines
line_entries (part ∷ lines) = line_entries lines
line_entries (entry e ∷ lines) = record { rel = e.rel; op = e.op } ∷ line_entries lines
line_entries (unended e ∷ lines) = record { rel = e.rel; op = e.op } ∷ line_entries lines

-- `pendingEntries`; none is an error.
unfoldable pub pending_entries : JournalFile → Option (List PendingEntry)
unfolding line_entries
pending_entries absent = some []
pending_entries unreadable = none
pending_entries (readable lines) = some (line_entries lines)

-- filepath.Abs
unfoldable pub abs_path : Bytes → Bytes → Bytes
unfolding join_path clean head_is
abs_path cwd arg = if head_is slash arg then clean arg else join_path cwd arg

-- filepath.Rel(mount, abs) where it does not start with `..`, for a clean mount directory
unfoldable pub under_mount : Bytes → Bytes → Option Bytes
unfolding has_prefix
under_mount mount abs =
    let dir = if mount == slash ∷ [] then slash ∷ [] else mount ++ slash ∷ [] in
    let under = drop (length dir) abs in
    if abs == mount
    then some dot
    else if not (has_prefix abs dir) || has_prefix under dotdot
    then none
    else some under

-- The path that an argument means
unfoldable pub normal_arg : Bytes → Bytes → Bytes → Bytes
unfolding under_mount abs_path trim
normal_arg cwd mount arg = elim (under_mount mount (abs_path cwd arg)) [
  | none ↦ trim arg
  | some under ↦ trim under
]

-- The entry is at the path or under it.
abbrev pub is_under : Bytes → PendingEntry → Bool
is_under norm p = p.rel == norm || has_prefix p.rel (norm ++ slash ∷ [])

unfoldable pub resolve_arg : Bytes → Bytes → List PendingEntry → Bytes → Option Bytes
unfolding normal_arg has_prefix
resolve_arg cwd mount pend arg =
    let norm = normal_arg cwd mount arg in
    if norm == [] || norm == dot then none else if any (is_under norm) pend then some norm else none

abbrev pub with_path : Option Bytes → Option (List Bytes) → Option (List Bytes)
with_path none rels = none
with_path (some norm) none = none
with_path (some norm) (some rels) = some (norm ∷ rels)

-- `resolvePendingArgs`; none is an error.
unfoldable pub resolve_pending_args :
    Bytes → Bytes → List PendingEntry → List Bytes → Option (List Bytes)
unfolding resolve_arg
resolve_pending_args cwd mount pend [] = some []
resolve_pending_args cwd mount pend (arg ∷ args) =
    with_path (resolve_arg cwd mount pend arg) (resolve_pending_args cwd mount pend args)

-- `topDir`
unfoldable pub top_name : Bytes → Bytes
top_name [] = []
top_name (c ∷ s) = let rest = top_name s in if eqb c slash then slash ∷ [] else c ∷ rest

unfoldable pub top_dir : Bytes → Bytes
unfolding top_name head_is
top_dir p = if head_is slash p then p else top_name p

abbrev pub line_break : ℕ
line_break = 10

-- The text of a request file, a path a line
unfoldable pub request_text : List Bytes → Bytes
request_text [] = []
request_text (r ∷ rels) = r ++ line_break ∷ request_text rels

unfoldable pub requests : List Bytes → List Bytes
unfolding trim_space
requests [] = []
requests (line ∷ lines) =
    let rest = requests lines in if trim_space line == [] then rest else trim_space line ∷ rest

-- `takeRequests`, from the file if it can be read
unfoldable pub take_requests : Option Bytes → List Bytes
unfolding requests
take_requests none = []
take_requests (some text) = requests (split_on line_break text)

-- How a drop by way of the mount goes: whether the mount knows the signal, the request can be
-- written, the signal is delivered, and the answer is there in time.
pub record SignalIo : Type 0 where
  pub handles : Bool
  pub written : Bool
  pub signalled : Bool
  pub acked : Bool

-- The request file that the mount finds: `--all` writes none, and an old one may be there.
abbrev pub request_file : Option Bytes → List Bytes → Option Bytes
request_file old [] = old
request_file old (r ∷ rels) = some (request_text (r ∷ rels))

-- `dropPending` with a mount that runs; none is an error.
unfoldable pub drop_by_mount :
    SignalIo → CompactIo → Option Bytes → List Bytes → Backend → Backend × Option ℕ
unfolding take_requests request_text drop_pending
drop_by_mount sio io old rels b =
    if not sio.handles || (ltb 0 (length rels) && not sio.written || not sio.signalled)
    then (b, none)
    else let (b', n) = drop_pending io (take_requests (request_file old rels)) b in
      (b', if sio.acked then some n else none)

-- The cached copy of a dropped edit is removed, whether it is there or not.
unfoldable pub drop_copy : Cache → JournalEntry → Cache
drop_copy c e = if is_write e.op then delete (rel e.rel) c else c

-- What follows the journal's answer
unfoldable pub after_drop :
    Journal × (List JournalEntry × Bool) → Cache → (List Line × Cache) × (ℕ × Bool)
unfolding drop_copy
after_drop (j, (dropped, done)) c =
    if not done
    then ((j.disk, c), (length dropped, false))
    else ((j.disk, foldl drop_copy c dropped), (length dropped, true))

-- `dropPending` without a mount, on the journal's file and the cache: the number of entries that
-- were dropped, and whether it went well.
unfoldable pub drop_offline :
    CompactIo → List Bytes → List Line → Cache → (List Line × Cache) × (ℕ × Bool)
unfolding after_drop
drop_offline io rels lines c =
    after_drop (drop_entries io (select_rels rels) (open_journal lines)) c

-- Whether a cached file's metadata can be had, and os.Remove of it goes well.
pub record ClearIo : Type 0 where
  pub info_ok : Bytes → Bool
  pub remove_ok : Bytes → Bool

-- What `clearCache` counts, and the files that it leaves.
pub record Cleared : Type 0 where
  pub removed : ℕ
  pub freed : ℕ
  pub kept : ℕ
  pub left : Cache

-- `clearCache`, with the paths of the queue
unfoldable pub clear_cache : ClearIo → List Bytes → Cache → Cleared
unfolding trim_suffix
clear_cache io pending [] = record { removed = 0; freed = 0; kept = 0; left = [] }
clear_cache io pending ((p, f) ∷ files) =
    let rest = clear_cache io pending files in
    if has (trim_suffix p tmp_suffix) pending
    then record rest { kept = rest.kept + 1; left = (p, f) ∷ rest.left }
    else if io.info_ok p && io.remove_ok p
    then record rest { removed = rest.removed + 1; freed = rest.freed + f.size }
    else record rest { left = (p, f) ∷ rest.left }

-- `lg cache clear`
unfoldable pub clear_command : ClearIo → JournalFile → Cache → Cleared
unfolding clear_cache pending_entries
clear_command io file c = elim (pending_entries file) [
  | none ↦ clear_cache io [] c
  | some pend ↦ clear_cache io (map (λ e. e.rel) pend) c
]
