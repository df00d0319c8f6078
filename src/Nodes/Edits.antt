-- ===== src/Nodes/Edits.antt =====
-- An edit that was written through an open file of the mount, internal/fuse/node.go, and what its
-- closing says.
use livegit.Prelude.{
  ℕ, ◌≡◌, ◌≢◌, refl, sym, ap, ◌∙◌, inl, inr, ◌⊎◌, Bool, true, false, arith, Option, none, some,
  List, [], ◌∷◌, Bytes, ◌==◌, nat_eq, Bool-cases, Option-cases, lookup, insert, lookup-insert,
  lookup-delete, eqb_iff, All,
}
use livegit.Paths.{rel}
use livegit.Journal.{AppendIo, has_pending}
use livegit.Backend.{Backend, ignores, record_write}
use livegit.Backend.Records.{record_write-queued}
use livegit.Nodes.{ok, Handle}
use livegit.Nodes.Handles.{
  WriteAtIo, Event, Session, opens, writes, flushes, releases, others, write_at, flush_at,
  release_at, handle_write, journal_if_dirty, step, run,
}

-- The call neither opens, flushes nor closes this file.
abbrev pub Spares : ℕ → Event → Type 0
Spares i (opens k h) = k ≢ i
Spares i (writes k io) = Unit {0}
Spares i (flushes k io now) = k ≢ i
Spares i (releases k io now) = k ≢ i
Spares i (others b running) = Unit {0}

other : (k i : ℕ) → k ≢ i → (k == i) ≡ false
other k i ne = ground arith

self : (i : ℕ) → (i == i) ≡ true
self i = ground arith

module _ (matches : Bytes → Bool) (i : ℕ) (p : Bytes) where
  -- The files once the one at `k` is another.
  abbrev Has : List (ℕ × Handle) → Type 0
  Has handles = (h : Handle) × (lookup i handles ≡ some h) × (h.rel ≡ p) × (h.dirty ≡ true)

  insert-Has :
      (k : ℕ) (h : Handle) (handles : List (ℕ × Handle))
      → k ≢ i
      → Has handles
      → Has (insert k h handles)
  insert-Has k h handles ne (g, found, here, dirty) =
      (g, lookup-insert k i h handles ∙ rw (other k i ne) found, here, dirty)

  -- A file that is dirtied has its path still.
  dirtied-Has :
      (k : ℕ) (h : Handle) (handles : List (ℕ × Handle))
      → lookup k handles ≡ some h
      → Has handles
      → Has (insert k (record h { dirty = true }) handles)
  dirtied-Has k h handles at (g, found, here, dirty) = elim (Bool-cases (k == i)) [
    | inl e ↦
        let same : h.rel ≡ p =
          ground (arith, at, found, here, ap (λ n. lookup n handles) ((eqb_iff k i).0 e)) in
        (record h { dirty = true }, lookup-insert k i _ handles ∙ rw e refl, same, refl)
    | inr e ↦ (g, lookup-insert k i _ handles ∙ rw e found, here, dirty)
  ]

  same-Has :
      (k : ℕ) (h : Handle) (handles : List (ℕ × Handle))
      → lookup k handles ≡ some h
      → Has handles
      → Has (insert k h handles)
  same-Has k h handles at (g, found, here, dirty) = (
    g,
    lookup-insert k i h handles ∙ elim (Bool-cases (k == i)) [
      | inl e ↦ rw e (sym at ∙ ap (λ n. lookup n handles) ((eqb_iff k i).0 e) ∙ found)
      | inr e ↦ rw e found
    ],
    here,
    dirty,
  )

  write_at-Has :
      (io : WriteAtIo) (k : ℕ) (o : Option Handle) (s : Session)
      → lookup k s.handles ≡ o
      → Has s.handles
      → Has (write_at matches io k o s).0.handles
  unfolding write_at handle_write
  write_at-Has io k none s at d = d
  write_at-Has io k (some h) s at d = elim (Option-cases io.error) [
    | inr (e, failed) ↦ rw (failed, write_at, handle_write) (same-Has k h s.handles at d)
    | inl fine ↦ rw (fine, write_at, handle_write) (dirtied-Has k h s.handles at d)
  ]

  flush_at-Has :
      (io : AppendIo) (now k : ℕ) (o : Option Handle) (s : Session)
      → k ≢ i
      → Has s.handles
      → Has (flush_at matches io now k o s).0.handles
  unfolding flush_at
  flush_at-Has io now k none s ne d = d
  flush_at-Has io now k (some h) s ne d = insert-Has k _ s.handles ne d

  release_at-Has :
      (io : AppendIo) (now k : ℕ) (o : Option Handle) (s : Session)
      → k ≢ i
      → Has s.handles
      → Has (release_at matches io now k o s).0.handles
  unfolding release_at
  release_at-Has io now k none s ne d = d
  release_at-Has io now k (some h) s ne (g, found, here, dirty) =
      (g, lookup-delete k i s.handles ∙ rw (other k i ne) found, here, dirty)

  step-Has :
      (e : Event) (s : Session) → Spares i e → Has s.handles → Has (step matches e s).0.handles
  unfolding step
  step-Has (opens k h) s ne d = insert-Has k h s.handles ne d
  step-Has (writes k io) s ne d = write_at-Has io k (lookup k s.handles) s refl d
  step-Has (flushes k io now) s ne d = flush_at-Has io now k (lookup k s.handles) s ne d
  step-Has (releases k io now) s ne d = release_at-Has io now k (lookup k s.handles) s ne d
  step-Has (others b running) s ne d = d

  run-Has :
      (es : List Event) (s : Session)
      → All (Spares i) es
      → Has s.handles
      → Has (run matches es s).handles
  unfolding run
  run-Has [] s sp d = d
  run-Has (e ∷ es) s (n, sp) d = run-Has es (step matches e s).0 sp (step-Has e s n d)

  -- A closing that says that all went well has queued the path.
  abbrev IsQueued : Backend → Type 0
  IsQueued b = (ignores matches (rel p) ≡ true) ⊎ (has_pending (rel p) b.journal ≡ true)

  journal_if_dirty-IsQueued :
      (io : AppendIo) (now : ℕ) (h : Handle) (b : Backend)
      → h.rel ≡ p
      → h.dirty ≡ true
      → (journal_if_dirty matches io now h b).1 ≡ ok
      → IsQueued (journal_if_dirty matches io now h b).0.1
  unfolding journal_if_dirty
  journal_if_dirty-IsQueued io now h b here dirty fine =
      elim (Bool-cases (record_write matches io now h.rel b).1) [
        | inl t ↦ rw (← here, dirty) (record_write-queued matches io now h.rel b t)
        | inr t ↦ cc (rw (dirty, journal_if_dirty, t) at fine)
      ]

  flush_at-IsQueued :
      (io : AppendIo) (now : ℕ) (s : Session)
      → Has s.handles
      → (flush_at matches io now i (lookup i s.handles) s).1 ≡ ok
      → IsQueued (flush_at matches io now i (lookup i s.handles) s).0.backend
  unfolding flush_at
  flush_at-IsQueued io now s (h, found, here, dirty) fine =
      rw (found, flush_at)
        (journal_if_dirty-IsQueued io now h s.backend here dirty (rw (found, flush_at) at fine))

  release_at-IsQueued :
      (io : AppendIo) (now : ℕ) (s : Session)
      → Has s.handles
      → (release_at matches io now i (lookup i s.handles) s).1 ≡ ok
      → IsQueued (release_at matches io now i (lookup i s.handles) s).0.backend
  unfolding release_at
  release_at-IsQueued io now s (h, found, here, dirty) fine =
      rw (found, release_at)
        (journal_if_dirty-IsQueued io now h s.backend here dirty (rw (found, release_at) at fine))

-- The call flushes or closes this file.
abbrev pub Closes : ℕ → Event → Type 0
Closes i (opens k h) = ⊥
Closes i (writes k io) = ⊥
Closes i (flushes k io now) = k ≡ i
Closes i (releases k io now) = k ≡ i
Closes i (others b running) = ⊥

written-Has :
    (matches : Bytes → Bool) (i : ℕ) (h : Handle) (io : WriteAtIo) (s : Session)
    → lookup i s.handles ≡ some h
    → (step matches (writes i io) s).1 ≡ ok
    → Has matches i h.rel (step matches (writes i io) s).0.handles
unfolding step write_at handle_write
written-Has matches i h io s found fine = elim (Option-cases io.error) [
  | inr (e, failed) ↦ cc (rw (found, write_at, failed, handle_write) at fine)
  | inl good ↦
      rw (found, write_at, good, handle_write)
        (
          record h { dirty = true },
          lookup-insert i i (record h { dirty = true }) s.handles ∙ rw (self i) refl,
          refl,
          refl,
        )
]

closed-IsQueued :
    (matches : Bytes → Bool) (i : ℕ) (p : Bytes) (e : Event) (s : Session)
    → Has matches i p s.handles
    → Closes i e
    → (step matches e s).1 ≡ ok
    → IsQueued matches i p (step matches e s).0.backend
unfolding step
closed-IsQueued matches i p (opens k h) s d c fine = absurd c
closed-IsQueued matches i p (writes k io) s d c fine = absurd c
closed-IsQueued matches i p (flushes k io now) s d c fine =
    rw c (flush_at-IsQueued matches i p io now s d (rw c at fine))
closed-IsQueued matches i p (releases k io now) s d c fine =
    rw c (release_at-IsQueued matches i p io now s d (rw c at fine))
closed-IsQueued matches i p (others b running) s d c fine = absurd c

-- A write through an open file that is answered without an error is queued for Source, under the
-- path that the file was opened by, when the next flush or close of that file is answered without
-- one, whatever other files, calls and goroutines do to the backend meanwhile, if the path is not
-- ignored.
pub write-queued :
    (matches : Bytes → Bool) (i : ℕ) (h : Handle) (io : WriteAtIo) (s : Session) (es : List Event)
    (e : Event)
    → lookup i s.handles ≡ some h
    → (step matches (writes i io) s).1 ≡ ok
    → All (Spares i) es
    → Closes i e
    → (step matches e (run matches es (step matches (writes i io) s).0)).1 ≡ ok
    → ignores matches (rel h.rel) ≡ false
    → has_pending
        (rel h.rel)
        (step matches e (run matches es (step matches (writes i io) s).0)).0.backend.journal
      ≡ true
write-queued matches i h io s es e found written spared closes fine shown =
    let d = written-Has matches i h io s found written in
    let q =
      closed-IsQueued matches i h.rel e _
        (run-Has matches i h.rel es (step matches (writes i io) s).0 spared d) closes fine in
    ground (arith, q)
