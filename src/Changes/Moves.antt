-- ===== src/Changes/Moves.antt =====
-- The content of a file whose name changes, `recordRenameFile` of internal/fuse/backend.go.
use livegit.Prelude.{
  bytes_beq_refl, ℕ, Bool, true, false, none, some, List, [], ◌∷◌, ◌++◌, Bytes, bytes_eq, bytes_beq,
  bytes_beq_iff, lookup, delete, lookup-insert, lookup-delete, append_assoc, ◌≡◌, ◌≢◌, refl, ap,
  ◌∙◌, ◌⊎◌, inl, inr, Bool-cases, Option-cases, arith,
}
use livegit.Paths.{rel}
use livegit.Journal.{JournalEntry, AppendIo, op_write, op_delete, append, coalesce, is_write}
use livegit.Journal.Queue.{numbered, append-answered}
use livegit.Backend.{Backend, CachedFile, new_entry, ignores, record_delete}
use livegit.Changes.{
  MoveIo, Materialized, materialize, move_cached, record_moved, and_delete, move_file,
  record_rename_file,
}

module _ (p q : Bytes) (f : CachedFile) where
  -- The bytes are at one of the two names.
  abbrev IsKept : Backend → Type 0
  IsKept b = (lookup p b.cache ≡ some f) ⊎ (lookup q b.cache ≡ some f)

  differs : p ≢ q → (bytes_beq p q ≡ false) × (bytes_beq q p ≡ false)
  differs ne = (ground (arith, ne, bytes_beq_iff p q), ground (arith, ne, bytes_beq_iff q p))

  materialize-found :
      (fetched : Materialized) (b : Backend)
      → lookup p b.cache ≡ some f
      → materialize fetched p b ≡ (b, some f)
  unfolding materialize
  materialize-found fetched b h = rw (materialize, h) refl

  moved-found : (b : Backend) → lookup q (move_cached true p q f b).cache ≡ some f
  unfolding move_cached
  moved-found b =
      let same : bytes_beq q q ≡ true = bytes_beq_refl q in
      rw (lookup-insert q q f (delete p (delete q b.cache)), same) refl

  unmoved-found :
      (b : Backend)
      → p ≢ q
      → lookup p b.cache ≡ some f
      → lookup p (move_cached false p q f b).cache ≡ some f
  unfolding move_cached
  unmoved-found b ne h = rw (lookup-delete q p b.cache, (differs ne).1) h

  record_moved-cache :
      (matches : Bytes → Bool) (io : AppendIo) (now : ℕ) (b : Backend)
      → (record_moved matches io now q f b).0.cache ≡ b.cache
  unfolding record_moved
  record_moved-cache matches io now b = elim (Bool-cases (ignores matches q)) [
    | inl i ↦ rw i refl
    | inr i ↦ elim (Option-cases (append io (new_entry q op_write f.mode now) b.journal).1) [
      | inl n ↦ rw (i, n) refl
      | inr (seq, n) ↦ rw (i, n) refl
    ]
  ]

  record_delete-found :
      (io : AppendIo) (now : ℕ) (b : Backend)
      → p ≢ q
      → rel p ≡ p
      → lookup q (record_delete io now p b).0.cache ≡ lookup q b.cache
  unfolding record_delete
  record_delete-found io now b ne canonical =
      elim (Option-cases (append io (new_entry (rel p) op_delete 0 now) b.journal).1) [
        | inl n ↦ rw (record_delete, n) refl
        | inr (seq, n) ↦
            rw (record_delete, n, canonical) (rw (lookup-delete p q b.cache, (differs ne).0) refl)
      ]

  and_delete-found :
      (io : AppendIo) (now : ℕ) (b : Backend) (ok : Bool)
      → p ≢ q
      → rel p ≡ p
      → lookup q b.cache ≡ some f
      → lookup q (and_delete io now p (b, ok)).0.cache ≡ some f
  unfolding and_delete
  and_delete-found io now b true ne canonical h = record_delete-found io now b ne canonical ∙ h
  and_delete-found io now b false ne canonical h = h

  move_file-IsKept :
      (matches : Bytes → Bool) (io : MoveIo) (now : ℕ) (b : Backend)
      → p ≢ q
      → rel p ≡ p
      → lookup p b.cache ≡ some f
      → IsKept (move_file matches io now p q (b, some f)).0
  unfolding move_file
  move_file-IsKept matches io now b ne canonical h = elim (Bool-cases io.mkdir_ok) [
    | inr m ↦ rw m (inl h)
    | inl m ↦ elim (Bool-cases io.move_ok) [
      | inr v ↦ rw (m, v) (inl (unmoved-found b ne h))
      | inl v ↦
          let moved = record_moved matches io.write_io now q f (move_cached true p q f b) in
          let found : lookup q moved.0.cache ≡ some f =
            ap (lookup q) (record_moved-cache matches io.write_io now (move_cached true p q f b))
            ∙ moved-found b in
          rw (m, v) (inr (and_delete-found io.delete_io now moved.0 moved.1 ne canonical found))
    ]
  ]

  -- Whatever fails in the renaming of a file whose bytes are in the cache, they are still there, at the old
  -- name or at the new one, if the names are different and the old one is canonical.
  pub record_rename_file-IsKept :
      (matches : Bytes → Bool) (io : MoveIo) (now : ℕ) (b : Backend)
      → p ≢ q
      → rel p ≡ p
      → lookup p b.cache ≡ some f
      → IsKept (record_rename_file matches io now p q b).0
  unfolding record_rename_file
  record_rename_file-IsKept matches io now b ne canonical h =
      rw (materialize-found io.fetched b h) (move_file-IsKept matches io now b ne canonical h)

  -- What the journal is left with: the write of the new name, then the delete of the old one.
  abbrev pub IsQueued : List JournalEntry → List JournalEntry → Type 0
  IsQueued before after =
      (w : JournalEntry) × (d : JournalEntry) × (after ≡ coalesce w before ++ (w ∷ d ∷ []))
      × (w.rel ≡ q)
      × (w.op ≡ op_write)
      × (d.rel ≡ p)
      × (d.op ≡ op_delete)

  moved-queued :
      (matches : Bytes → Bool) (io : AppendIo) (now : ℕ) (b : Backend)
      → ignores matches q ≡ false
      → (record_moved matches io now q f b).1 ≡ true
      → let w = numbered (new_entry q op_write f.mode now) b.journal in
        (record_moved matches io now q f b).0.journal.pending
        ≡ coalesce w b.journal.pending ++ w ∷ []
  unfolding record_moved
  moved-queued matches io now b i h =
      elim (Option-cases (append io (new_entry q op_write f.mode now) b.journal).1) [
        | inl n ↦ ground (arith, simp (i, n) at h)
        | inr (seq, n) ↦
            rw (i, n) (append-answered io (new_entry q op_write f.mode now) b.journal seq n)
      ]

  delete-queued :
      (io : AppendIo) (now : ℕ) (b : Backend)
      → rel p ≡ p
      → (record_delete io now p b).1 ≡ true
      → let d = numbered (new_entry (rel p) op_delete 0 now) b.journal in
        ((record_delete io now p b).0.journal.pending ≡ b.journal.pending ++ d ∷ [])
        × (lookup p (record_delete io now p b).0.cache ≡ none)
  unfolding record_delete coalesce is_write
  delete-queued io now b canonical h =
      elim (Option-cases (append io (new_entry (rel p) op_delete 0 now) b.journal).1) [
        | inl n ↦ ground (arith, simp (record_delete, n) at h)
        | inr (seq, n) ↦
            let same : bytes_beq (rel p) p ≡ true = (bytes_beq_iff (rel p) p).1 canonical in
            rw (record_delete, n)
              (
                append-answered io (new_entry (rel p) op_delete 0 now) b.journal seq n,
                rw (lookup-delete (rel p) p b.cache, same) refl,
              )
      ]

  -- What a rename that goes well leaves
  abbrev pub IsMoved : List JournalEntry → Backend → Type 0
  IsMoved before b =
      IsQueued before b.journal.pending × (lookup q b.cache ≡ some f) × (lookup p b.cache ≡ none)

  move_file-IsMoved :
      (matches : Bytes → Bool) (io : MoveIo) (now : ℕ) (b : Backend)
      → p ≢ q
      → rel p ≡ p
      → ignores matches q ≡ false
      → (move_file matches io now p q (b, some f)).1 ≡ true
      → IsMoved b.journal.pending (move_file matches io now p q (b, some f)).0
  unfolding move_file and_delete move_cached
  move_file-IsMoved matches io now b ne canonical i h =
      let moved = record_moved matches io.write_io now q f (move_cached true p q f b) in
      elim (Bool-cases io.mkdir_ok) [
        | inr m ↦ ground (arith, simp m at h)
        | inl m ↦ elim (Bool-cases io.move_ok) [
          | inr v ↦ ground (arith, simp (m, v) at h)
          | inl v ↦ elim (Bool-cases moved.1) [
            | inr k ↦ ground (arith, simp (m, v, k) at h)
            | inl k ↦
                let w : JournalEntry = numbered (new_entry q op_write f.mode now) b.journal in
                let d : JournalEntry =
                  numbered (new_entry (rel p) op_delete 0 now) moved.0.journal in
                let found : lookup q moved.0.cache ≡ some f =
                  ap (lookup q)
                    (record_moved-cache matches io.write_io now (move_cached true p q f b))
                  ∙ moved-found b in
                let (queued, gone) =
                  delete-queued io.delete_io now moved.0 canonical (simp (m, v, k) at h) in
                rw (m, v, k)
                  (
                    (
                      w,
                      d,
                      queued
                          ∙ ap (λ l. l ++ d ∷ [])
                              (moved-queued matches io.write_io now (move_cached true p q f b) i k)
                          ∙ append_assoc (coalesce w b.journal.pending) (w ∷ []) (d ∷ []),
                      refl,
                      refl,
                      canonical,
                      refl,
                    ),
                    record_delete-found io.delete_io now moved.0 ne canonical ∙ found,
                    gone,
                  )
          ]
        ]
      ]

  -- A rename of a file that goes well moves its bytes to the new name, and queues the write of
  -- the new name and then the delete of the old one, behind all that was queued and is not
  -- superseded, if the bytes are in the cache, the names are different, the old one is canonical and the new
  -- one is not ignored.
  pub record_rename_file-IsMoved :
      (matches : Bytes → Bool) (io : MoveIo) (now : ℕ) (b : Backend)
      → p ≢ q
      → rel p ≡ p
      → ignores matches q ≡ false
      → lookup p b.cache ≡ some f
      → (record_rename_file matches io now p q b).1 ≡ true
      → IsMoved b.journal.pending (record_rename_file matches io now p q b).0
  unfolding record_rename_file
  record_rename_file-IsMoved matches io now b ne canonical i h ok =
      rw (materialize-found io.fetched b h) (
        move_file-IsMoved matches io now b ne canonical i
          (simp (materialize-found io.fetched b h) at ok))
