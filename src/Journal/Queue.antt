-- ===== src/Journal/Queue.antt =====
-- What each method answers, and what it leaves in the queue and in the file.
use livegit.Prelude.{
  ℕ, ◌+◌, ◌%◌, ◌^◌, ◌<◌, ◌≡◌, refl, ◌∙◌, ap, Bool, true, false, not, ◌&&◌, List, [], ◌∷◌, ◌++◌,
  arith, inl, inr, Bool-cases, any, has, discard, has-discard, none, some, ◌==◌, nat_eq, bytes_eq,
  filter, All, Pairwise-filter, ◌⊎◌,
}
use livegit.Journal.{
  JournalEntry, Journal, AppendIo, append_write_failed, append_part_written, append_unended,
  append_sync_failed, ends, coalesce, append_done, compact_done, load, open_journal, peek,
  peek_pending, signal, append, append_numbered, compact, ack, drop_entries, Dropping, drop_loop,
}
use livegit.Journal.Coalesce.{IsCoalesced, supersedes, coalesce-eq-filter}
use livegit.Journal.Replay.{pending-load-write_line, load-map_entry}
use livegit.Journal.History.{drop_loop_lem}

-- What the file of `j` replays to.
abbrev pub stored : Journal → List JournalEntry
stored j = (open_journal j.disk).pending

-- With an open file and a write that goes well, an append takes the next number, moves the entry
-- to the end in the place of what it supersedes, in the queue and, where the file ends with a newline, in its replay, and
-- wakes the worker.
pub append_lem :
    (e : JournalEntry) (j : Journal)
    → j.is_open ≡ true
    → j.next_seq + 1 < 2 ^ 64
    → let (j', answer) = append append_done e j in
      let e' = record e { seq = j.next_seq + 1 } in
      (answer ≡ some (j.next_seq + 1))
      × (j'.pending ≡ filter (λ p. not (supersedes e' p)) j.pending ++ e' ∷ [])
      × (ends j.disk ≡ true → stored j' ≡ filter (λ p. not (supersedes e' p)) (stored j) ++ e' ∷ [])
      × (j'.woken ≡ true)
unfolding append append_numbered signal open_journal
append_lem e j o fits =
    let same : (j.next_seq + 1) % 2 ^ 64 ≡ j.next_seq + 1 = omega arith in
    let e' : JournalEntry = record e { seq = j.next_seq + 1 } in
    rw (o, same)
      (
        refl,
        ap (λ l. l ++ e' ∷ []) (coalesce-eq-filter e' j.pending),
        λ ended.
            pending-load-write_line j.disk e' ended
            ∙ ap (λ l. l ++ e' ∷ []) (coalesce-eq-filter e' (load j.disk).pending),
        refl,
      )

-- The entry as `Append` numbers it
abbrev pub numbered : JournalEntry → Journal → JournalEntry
numbered e j = record e { seq = (j.next_seq + 1) % 2 ^ 64 }

append_numbered-answered :
    (io : AppendIo) (e : JournalEntry) (j : Journal) (n : ℕ)
    → (append_numbered io e j).1 ≡ some n
    → (append_numbered io e j).0.pending ≡ coalesce e j.pending ++ e ∷ []
unfolding append_numbered signal
append_numbered-answered append_done e j n h = refl
append_numbered-answered append_write_failed e j n h = ground (arith, h)
append_numbered-answered append_part_written e j n h = ground (arith, h)
append_numbered-answered append_unended e j n h = ground (arith, h)
append_numbered-answered append_sync_failed e j n h = ground (arith, h)

-- An append that is answered by a number has put its entry at the end.
pub append-answered :
    (io : AppendIo) (e : JournalEntry) (j : Journal) (n : ℕ)
    → (append io e j).1 ≡ some n
    → (append io e j).0.pending ≡ coalesce (numbered e j) j.pending ++ numbered e j ∷ []
unfolding append
append-answered io e j n h = append_numbered-answered _ _ _ n h

-- The queue is as it was, or has the entry at its end in the place of what it supersedes.
abbrev pub Pushed : JournalEntry → Journal → Journal → Type 0
Pushed e j k =
    (k.parked ≡ j.parked)
    × ((k.pending ≡ j.pending)
        ⊎ ((kept : JournalEntry → Bool) × (k.pending ≡ filter kept j.pending ++ e ∷ [])))

append_numbered-Pushed :
    (io : AppendIo) (e : JournalEntry) (j : Journal) → Pushed e j (append_numbered io e j).0
unfolding append_numbered signal
append_numbered-Pushed append_done e j = (
  refl,
  inr ((λ p. not (supersedes e p)), ap (λ l. l ++ e ∷ []) (coalesce-eq-filter e j.pending)),
)
append_numbered-Pushed append_write_failed e j = (refl, inl refl)
append_numbered-Pushed append_part_written e j = (refl, inl refl)
append_numbered-Pushed append_unended e j = (refl, inl refl)
append_numbered-Pushed append_sync_failed e j = (refl, inl refl)

-- However the file answers, an append changes the queue in one of the two ways.
pub append-Pushed :
    (io : AppendIo) (e : JournalEntry) (j : Journal) → Pushed (numbered e j) j (append io e j).0
unfolding append
append-Pushed io e j = append_numbered-Pushed _ _ _

-- An acknowledgement whose compaction goes well takes the entry out of the queue and nothing
-- else, and the file replays to exactly that queue.
pub ack_lem :
    (seq : ℕ) (j : Journal)
    → IsCoalesced j.pending
    → let (j', done) = ack compact_done seq j in
      (done ≡ true)
      × (j'.pending ≡ filter (λ e. not (e.seq == seq)) j.pending)
      × (stored j' ≡ j'.pending)
unfolding ack compact open_journal
ack_lem seq j h =
    (refl, refl, load-map_entry _ (Pairwise-filter (λ p e. supersedes e p ≡ false) _ j.pending h))

drop_loop-parked :
    (match : JournalEntry → Bool) (n : ℕ) (es : List JournalEntry) (d : Dropping)
    → has n (drop_loop match es d).parked
      ≡ (has n d.parked && not (any (λ e. match e && e.seq == n) es))
unfolding drop_loop
drop_loop-parked match n [] d = ground arith
drop_loop-parked match n (e ∷ es) d = elim (Bool-cases (match e)) [
  | inl p ↦
      rw (p, drop_loop)
        (ground (
          arith,
          drop_loop-parked match n es
              (record d { dropped = d.dropped ++ e ∷ []; parked = discard e.seq d.parked }),
          has-discard e.seq n d.parked,
        ))
  | inr p ↦
      rw (p, drop_loop)
        (ground (arith, drop_loop-parked match n es (record d { kept = d.kept ++ e ∷ [] })))
]

-- A drop whose compaction goes well hands back the entries that match, in order, leaves the
-- others in order, in the queue and in the file, and forgets that the dropped ones were parked.
pub drop_entries_lem :
    (match : JournalEntry → Bool) (j : Journal)
    → IsCoalesced j.pending
    → let (j', (dropped, done)) = drop_entries compact_done match j in
      (done ≡ true)
      × (dropped ≡ filter match j.pending)
      × (j'.pending ≡ filter (λ e. not (match e)) j.pending)
      × (stored j' ≡ j'.pending)
      × ((n : ℕ)
          → has n j'.parked ≡ (has n j.parked && not (any (λ e. match e && e.seq == n) j.pending)))
unfolding drop_entries compact open_journal
drop_entries_lem match j h =
    let start : Dropping = record { dropped = []; kept = []; parked = j.parked } in
    let (k, m) = drop_loop_lem match j.pending start in
    (
      refl,
      m,
      k,
      load-map_entry _ (rw k (Pairwise-filter (λ p e. supersedes e p ≡ false) _ j.pending h)),
      λ n. drop_loop-parked match n j.pending start,
    )

peek_pending_lem :
    (parked : List ℕ) (es : List JournalEntry)
    → ((peek_pending parked es ≡ none) × All (λ e. has e.seq parked ≡ true) es)
      ⊎ ((e : JournalEntry) × (front : List JournalEntry) × (back : List JournalEntry)
          × (peek_pending parked es ≡ some e)
          × (es ≡ front ++ e ∷ back)
          × All (λ x. has x.seq parked ≡ true) front
          × (has e.seq parked ≡ false))
unfolding peek_pending
peek_pending_lem parked [] = inl (refl, tt)
peek_pending_lem parked (x ∷ es) = elim (Bool-cases (has x.seq parked)) [
  | inl p ↦ elim (peek_pending_lem parked es) [
    | inl (n, all) ↦ inl (rw p n, (p, all))
    | inr (e, front, back, s, split, all, free) ↦
        inr (e, x ∷ front, back, rw p s, ap (λ l. x ∷ l) split, (p, all), free)
  ]
  | inr p ↦ inr (x, [], es, rw p, refl, tt, p)
]

-- `Peek` finds the oldest entry that is not parked, or finds nothing where all are parked.
pub peek_lem :
    (j : Journal)
    → ((peek j ≡ none) × All (λ e. has e.seq j.parked ≡ true) j.pending)
      ⊎ ((e : JournalEntry) × (front : List JournalEntry) × (back : List JournalEntry) × (peek j
            ≡ some e)
          × (j.pending ≡ front ++ e ∷ back)
          × All (λ x. has x.seq j.parked ≡ true) front
          × (has e.seq j.parked ≡ false))
unfolding peek
peek_lem j = peek_pending_lem j.parked j.pending
