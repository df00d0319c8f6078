-- ===== src/Nodes/Handles.antt =====
-- Open files, `lgHandle` of internal/fuse/node.go: an edit that was written is queued by the time that
-- its file is closed.
use livegit.Prelude.{
  ℕ, Bool, true, false, not, Option, none, some, List, Bytes, nat_eq, if◌then◌else◌, ltb, lookup,
  insert, delete, bytes_eq,
}
use mathlib.Core.List.{foldl}
use livegit.Journal.{AppendIo}
use livegit.Backend.{Backend, CachedFile, record_write}
use livegit.Attributes.{with_cached}
use livegit.Fetch.{Fetches, Wait, returns, blocks, reader_gone, update}
use livegit.Nodes.{Errno, ok, eio, eintr, os_errno, Handle}

-- A round of `Read` over a download, by the time the kernel's request is done or not; none is to wait.
unfoldable pub read_answer : Bool → Wait → Option Errno
read_answer ctx_done blocks = none
read_answer ctx_done (returns none) = some ok
read_answer ctx_done (returns (some e)) = some (if ctx_done then eintr else eio)

-- How os.File.WriteAt goes, and where the open file stands now: a rename may have moved it, and a
-- removed file is nowhere. `extent` is the offset and the length together.
pub record WriteAtIo : Type 0 where
  pub error : Option ℕ
  pub stands_at : Option Bytes
  pub extent : ℕ

abbrev pub grown : ℕ → CachedFile → CachedFile
grown extent f = record f { size = if ltb f.size extent then extent else f.size }

unfoldable pub write_bytes : WriteAtIo → Backend → Backend
write_bytes io b = elim io.stands_at [
  | none ↦ b
  | some p ↦ elim (lookup p b.cache) [ none ↦ b | some f ↦ with_cached p (grown io.extent f) b ]
]

-- `Write`
unfoldable pub handle_write : WriteAtIo → Handle → Backend → (Handle × Backend) × Errno
unfolding write_bytes
handle_write io h b = elim io.error [
  | some e ↦ ((h, b), os_errno e)
  | none ↦ ((record h { dirty = true }, write_bytes io b), ok)
]

module _ (matches : Bytes → Bool) where
  -- `journalIfDirty`, which is `Flush`
  unfoldable pub journal_if_dirty : AppendIo → ℕ → Handle → Backend → (Handle × Backend) × Errno
  journal_if_dirty io now h b =
      let (b', done) = record_write matches io now h.rel b in
      if not h.dirty
      then ((h, b), ok)
      else ((record h { dirty = false }, b'), if done then ok else eio)

-- `releaseFetchReader`, at once
unfoldable pub leave_fetch : Option ℕ → Fetches → Fetches
leave_fetch none running = running
leave_fetch (some id) running = update id reader_gone running

-- The backend, the downloads and the open files.
pub record Session : Type 0 where
  pub backend : Backend
  pub running : Fetches
  pub handles : List (ℕ × Handle)

-- What happens on the mount: a call on an open file, one that opens a file, and any other call or
-- goroutine, which may leave the backend and the downloads as it likes.
pub data Event : Type 0 where
  opens : ℕ → Handle → Event
  writes : ℕ → WriteAtIo → Event
  flushes releases : ℕ → AppendIo → ℕ → Event
  others : Backend → Fetches → Event

module _ (matches : Bytes → Bool) where
  unfoldable pub write_at : WriteAtIo → ℕ → Option Handle → Session → Session × Errno
  write_at io i none s = (s, ok)
  write_at io i (some h) s =
      let ((h', b), answer) = handle_write io h s.backend in
      (record s { backend = b; handles = insert i h' s.handles }, answer)

  unfoldable pub flush_at : AppendIo → ℕ → ℕ → Option Handle → Session → Session × Errno
  flush_at io now i none s = (s, ok)
  flush_at io now i (some h) s =
      let ((h', b), answer) = journal_if_dirty matches io now h s.backend in
      (record s { backend = b; handles = insert i h' s.handles }, answer)

  -- `Release`
  unfoldable pub release_at : AppendIo → ℕ → ℕ → Option Handle → Session → Session × Errno
  release_at io now i none s = (s, ok)
  release_at io now i (some h) s =
      let ((h', b), answer) = journal_if_dirty matches io now h s.backend in
      (
        record {
          backend = b;
          running = leave_fetch h.fetch s.running;
          handles = delete i s.handles;
        },
        answer,
      )

  unfoldable pub step : Event → Session → Session × Errno
  step (opens i h) s = (record s { handles = insert i h s.handles }, ok)
  step (writes i io) s = write_at io i (lookup i s.handles) s
  step (flushes i io now) s = flush_at io now i (lookup i s.handles) s
  step (releases i io now) s = release_at io now i (lookup i s.handles) s
  step (others b running) s = (record s { backend = b; running = running }, ok)

  unfoldable pub run : List Event → Session → Session
  unfolding step
  run es s = foldl (λ x e. (step e x).0) s es
