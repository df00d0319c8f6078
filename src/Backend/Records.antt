-- ===== src/Backend/Records.antt =====
-- What RecordWrite and RecordDelete of internal/fuse/backend.go leave behind.
use livegit.Prelude.{
  ℕ, ◌+◌, ◌^◌, ◌<◌, Bool, true, false, not, ◌≡◌, ◌≢◌, refl, ap, sym, ◌∙◌, arith, none, some, [],
  Bytes, ◌==◌, bytes_eq, bytes_beq_iff, any, any-append, Bool-cases, Option-cases, inl, inr, ◌⊎◌,
  ◌%◌, filter, if◌then◌else◌, lookup, lookup-delete,
}
use livegit.Paths.{rel}
use livegit.Paths.Canonical.{rel_lem}
use livegit.Journal.{
  JournalEntry, JournalOp, Journal, AppendIo, append, append_done, append_write_failed,
  append_part_written, append_unended, append_sync_failed, coalesce, has_pending, op_write,
  op_create, op_delete,
}
use livegit.Journal.Coalesce.{supersedes}
use livegit.Journal.Queue.{append_lem}
use livegit.Index.{get}
use livegit.Index.Tree.{get-put}
use livegit.Backend.{
  Backend, CachedFile, new_entry, local_entry, ignores, write_entry, record_write, record_delete,
}

-- The journal can take an entry.
abbrev pub Ready : Journal → Type 0
Ready j = (j.is_open ≡ true) × (j.next_seq + 1 < 2 ^ 64)

pub has_pending-append :
    (e : JournalEntry) (j : Journal) → Ready j → has_pending e.rel (append append_done e j).0 ≡ true
unfolding has_pending
has_pending-append e j (ready, fits) =
    let added = append_lem e j ready fits in
    ap (any (λ x. x.rel == e.rel)) added.1
    ∙ any-append _ (filter (λ p. not (supersedes (record e { seq = j.next_seq + 1 }) p)) j.pending)
        _
    ∙ ground (arith, bytes_beq_iff e.rel e.rel)

-- An append that is answered with a number has queued its entry, however the file is.
pub append-queued :
    (io : AppendIo) (e : JournalEntry) (j : Journal) {n : ℕ}
    → (append io e j).1 ≡ some n
    → has_pending e.rel (append io e j).0 ≡ true
unfolding append has_pending coalesce
append-queued append_write_failed e j h = elim (Bool-cases j.is_open) [ inl o ↦ cc | inr o ↦ cc ]
append-queued append_part_written e j h = elim (Bool-cases j.is_open) [ inl o ↦ cc | inr o ↦ cc ]
append-queued append_unended e j h = elim (Bool-cases j.is_open) [ inl o ↦ cc | inr o ↦ cc ]
append-queued append_sync_failed e j h = elim (Bool-cases j.is_open) [ inl o ↦ cc | inr o ↦ cc ]
append-queued append_done e j h = elim (Bool-cases j.is_open) [
  | inl o ↦ rw o (
      any-append (λ x. x.rel == e.rel)
        (coalesce (record e { seq = (j.next_seq + 1) % 2 ^ 64 }) j.pending) _
      ∙ ground (arith, bytes_beq_iff e.rel e.rel))
  | inr o ↦ cc
]

-- What is recorded without an error is queued, if it is not ignored.
pub record_write-queued :
    (matches : Bytes → Bool) (io : AppendIo) (now : ℕ) (path : Bytes) (b : Backend)
    → (record_write matches io now path b).1 ≡ true
    → (ignores matches (rel path) ≡ true)
      ⊎ (has_pending (rel path) (record_write matches io now path b).0.journal ≡ true)
unfolding record_write write_entry
record_write-queued matches io now path b h = elim (Bool-cases (ignores matches (rel path))) [
  | inl i ↦ inl i
  | inr i ↦ elim (Option-cases (lookup (rel path) b.cache)) [
    | inl n ↦ cc (simp (i, n) at h)
    | inr (f, c) ↦
        let op : JournalOp = elim (get (rel path) b.index) [
          | none ↦ op_create
          | some _ ↦ op_write
        ] in
        let e : JournalEntry = new_entry (rel path) op f.mode now in
        elim (Option-cases (append io e b.journal).1) [
          | inl n ↦ cc (rw (record_write, write_entry, i, c, n) at h)
          | inr (n, a) ↦
              inr (rw (i, record_write, c, write_entry, a) (append-queued io e b.journal a))
        ]
  ]
]

module _ (now : ℕ) (path : Bytes) (b : Backend) (ready : Ready b.journal) where
  write_entry_lem :
      (matches : Bytes → Bool) (f : CachedFile)
      → rel path ≢ []
      → ((write_entry matches append_done now (rel path) f b).1 ≡ true)
        × (has_pending (rel path) (write_entry matches append_done now (rel path) f b).0.journal
            ≡ true)
        × (get (rel path) (write_entry matches append_done now (rel path) f b).0.index
            ≡ some (local_entry (rel path) f now))
        × ((write_entry matches append_done now (rel path) f b).0.cache ≡ b.cache)
  unfolding write_entry
  write_entry_lem matches f ne =
      let again : rel (rel path) ≡ rel path = (rel_lem path).2 in
      let op : JournalOp = elim (get (rel path) b.index) [ none ↦ op_create | some _ ↦ op_write ] in
      let e : JournalEntry = new_entry (rel path) op f.mode now in
      let answered : (append append_done e b.journal).1 ≡ some (b.journal.next_seq + 1) =
        (append_lem e b.journal ready.0 ready.1).0 in
      rw (write_entry, answered)
        (
          refl,
          has_pending-append e b.journal ready,
          (get-put (local_entry (rel path) f now) b.index (λ z. ne (sym again ∙ z))).0
              ∙ ap (λ p. some (local_entry p f now)) again,
          refl,
        )

  -- With a journal that takes the entry, recording the write of a cached file whose path is not
  -- ignored queues work for that path, makes the index show the file as it is in the cache, and
  -- leaves the cache as it was, if the path is not the root.
  pub record_write_lem :
      (matches : Bytes → Bool) (f : CachedFile)
      → rel path ≢ []
      → ignores matches (rel path) ≡ false
      → lookup (rel path) b.cache ≡ some f
      → let r = record_write matches append_done now path b in
        (r.1 ≡ true)
        × (has_pending (rel path) r.0.journal ≡ true)
        × (get (rel path) r.0.index ≡ some (local_entry (rel path) f now))
        × (r.0.cache ≡ b.cache)
  unfolding record_write
  record_write_lem matches f ne shown cached = simp (shown, cached) (write_entry_lem matches f ne)

  -- With a journal that takes the entry, recording a delete queues work for the path and takes
  -- its bytes, and no other path's, out of the cache.
  pub record_delete_lem :
      let r = record_delete append_done now path b in
      (r.1 ≡ true)
      × (has_pending (rel path) r.0.journal ≡ true)
      × ((q : Bytes) → lookup q r.0.cache ≡ (if rel path == q then none else lookup q b.cache))
  unfolding record_delete
  record_delete_lem =
      let e : JournalEntry = new_entry (rel path) op_delete 0 now in
      let answered : (append append_done e b.journal).1 ≡ some (b.journal.next_seq + 1) =
        (append_lem e b.journal ready.0 ready.1).0 in
      rw (record_delete, answered)
        (refl, has_pending-append e b.journal ready, λ q. lookup-delete (rel path) q b.cache)
