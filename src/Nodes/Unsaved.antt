-- ===== src/Nodes/Unsaved.antt =====
-- Edits that a flush cannot find: internal/fuse/node.go together with internal/fuse/cache.go and the
-- rename of internal/fuse/backend.go.
use livegit.Prelude.{
  bytes_beq_refl, ℕ, ◌+◌, ◌<◌, ◌≡◌, ◌≢◌, refl, ap, ◌∙◌, Bool, true, false, ◌||◌, arith, none, some,
  [], ◌∷◌, Bytes, ◌==◌, bytes_eq, nat_eq, lookup, delete, leb,
}
use livegit.Paths.{rel}
use livegit.Journal.{AppendIo, has_pending}
use livegit.Backend.{Backend, CachedFile, ignores, record_write, drop_content}
use livegit.Fetch.{Fetches, fetch_active}
use livegit.Evict.{
  Scanned, SweepIo, hidden, can_evict, evict_once, aged, age_staging, drop_idle, enforce_cap,
  cap_step, cap_pass, sort_by_atime, scan_cache, scan_total,
}
use livegit.Evict.Pass.{cap_step_lem, without}
use livegit.Changes.{MoveIo, record_rename_file}
use livegit.Changes.Moves.{record_rename_file-IsMoved}
use livegit.Nodes.{eio, Handle}
use livegit.Nodes.Handles.{journal_if_dirty}

-- A flush whose file is no longer in the cache is answered by EIO, queues nothing, and leaves the
-- file as one that has nothing to queue.
unflushed :
    (matches : Bytes → Bool) (io : AppendIo) (now : ℕ) (h : Handle) (b : Backend)
    → h.dirty ≡ true
    → ignores matches (rel h.rel) ≡ false
    → lookup (rel h.rel) b.cache ≡ none
    → let r = journal_if_dirty matches io now h b in
      (r.1 ≡ eio) × (r.0.1 ≡ b) × (r.0.0.dirty ≡ false)
unfolding journal_if_dirty record_write
unflushed matches io now h b dirty shown gone =
    rw (dirty, record_write, shown, gone) (refl, refl, refl)

module _ (sweep : SweepIo) (running : Fetches) (p : Bytes) (f : CachedFile) (b : Backend)
    (name : rel p ≡ p) (only : b.cache ≡ (p, f) ∷ []) (seen : hidden sweep p ≡ false) where
  abbrev scanned : Scanned
  scanned = record { rel = p; size = f.size; atime = sweep.atime p }

  scan_only : drop_idle sweep running 0 b ≡ (scanned ∷ [], (f.size + 0, b))
  unfolding drop_idle scan_cache scan_total
  scan_only = rw (only, scan_cache, seen, name) refl

  enforce_cap-only :
      (limit : ℕ)
      → 0 < limit
      → limit < f.size
      → can_evict sweep running b.journal p ≡ true
      → (enforce_cap sweep running limit (scanned ∷ [], (f.size + 0, b))).1 ≡ drop_content p b
  unfolding enforce_cap cap_pass sort_by_atime
  enforce_cap-only limit pos large goes =
      let over : leb (f.size + 0) limit ≡ false = ground arith in
      let some_cap : (limit == 0) ≡ false = ground arith in
      let went : cap_step sweep running scanned (f.size + 0, b) ≡ without scanned (f.size + 0, b) =
        cap_step_lem sweep running scanned (f.size + 0, b) ∙ rw goes refl in
      rw (some_cap, over) (ap (λ s. s.1) went)

  evict_once-only :
      (limit : ℕ)
      → 0 < limit
      → limit < f.size
      → can_evict sweep running b.journal p ≡ true
      → (evict_once sweep running 0 limit b).1 ≡ drop_content p b
  unfolding evict_once age_staging
  evict_once-only limit pos large goes =
      ap (λ w. (enforce_cap sweep running limit (aged sweep running 0 w)).1) scan_only
      ∙ enforce_cap-only limit pos large goes

-- A sweep without an idle limit takes the only file of a cache that is larger than the cap, though it
-- is open and was written to, if nothing is queued for it, it is not being downloaded, its name does
-- not contain `.lg-tmp`, its metadata can be had and it can be removed: if its path is canonical and
-- not ignored, its flush is then answered by EIO and queues nothing.
pub evict_once-unflushed :
    (matches : Bytes → Bool) (io : AppendIo) (now : ℕ) (h : Handle) (sweep : SweepIo)
    (running : Fetches) (limit : ℕ) (f : CachedFile) (b : Backend)
    → rel h.rel ≡ h.rel
    → h.dirty ≡ true
    → ignores matches h.rel ≡ false
    → b.cache ≡ (h.rel, f) ∷ []
    → (0 < limit) × (limit < f.size)
    → hidden sweep h.rel ≡ false
    → sweep.remove_ok h.rel ≡ true
    → (has_pending h.rel b.journal || fetch_active h.rel running) ≡ false
    → let b' = (evict_once sweep running 0 limit b).1 in
      (b'.cache ≡ [])
      × ((journal_if_dirty matches io now h b').1 ≡ eio)
      × ((journal_if_dirty matches io now h b').0.1.journal ≡ b.journal)
evict_once-unflushed matches io now h sweep running limit f b name dirty shown only cap seen
      removable free =
    let goes : can_evict sweep running b.journal h.rel ≡ true =
      unfold can_evict in rw (free, removable) refl in
    let left = evict_once-only sweep running h.rel f b name only seen limit cap.0 cap.1 goes in
    let gone : (drop_content h.rel b).cache ≡ [] =
      unfold drop_content delete in rw (only, delete, bytes_beq_refl h.rel) refl in
    let absent : lookup (rel h.rel) (drop_content h.rel b).cache ≡ none =
      ap (lookup (rel h.rel)) gone ∙ (unfold lookup in refl) in
    let (answer, kept, clean) =
      unflushed matches io now h (drop_content h.rel b) dirty (rw name shown) absent in
    rw left (gone, answer, ap (λ x. x.journal) kept ∙ (unfold drop_content in refl))

-- Once a file is renamed, a flush of what was written to it through a file that was opened by the old
-- name is answered by EIO and queues nothing, though the bytes are in the cache under the new name,
-- if the names are different, neither is ignored, the old one is canonical, and the renaming goes
-- well.
pub record_rename_file-unflushed :
    (matches : Bytes → Bool) (io : AppendIo) (move : MoveIo) (now : ℕ) (q : Bytes) (h : Handle)
    (f : CachedFile) (b : Backend)
    → rel h.rel ≡ h.rel
    → h.rel ≢ q
    → h.dirty ≡ true
    → (ignores matches h.rel ≡ false) × (ignores matches q ≡ false)
    → lookup h.rel b.cache ≡ some f
    → (record_rename_file matches move now h.rel q b).1 ≡ true
    → let b' = (record_rename_file matches move now h.rel q b).0 in
      (lookup q b'.cache ≡ some f)
      × ((journal_if_dirty matches io now h b').1 ≡ eio)
      × ((journal_if_dirty matches io now h b').0.1 ≡ b')
record_rename_file-unflushed matches io move now q h f b name ne dirty shown found fine =
    let moved =
      record_rename_file-IsMoved h.rel q f matches move now b ne name shown.1 found fine in
    let (answer, kept, clean) =
      unflushed matches io now h (record_rename_file matches move now h.rel q b).0 dirty
        (rw name (shown.0)) (rw name (moved.2)) in
    (moved.1, answer, kept)
