-- ===== src/Journal/History.antt =====
-- Any sequence of calls, with any failure of the file system and any restart in between.
use livegit.Prelude.{
  ℕ, ◌+◌, ◌%◌, ◌^◌, ◌≤◌, ◌<◌, ◌≡◌, refl, ◌∙◌, sym, Bool, true, not, ◌||◌, List, [], ◌∷◌, ◌++◌,
  arith, map, inl, inr, Bool-cases, append_assoc, append-nil, any, discard, ◌==◌, nat_eq, bytes_eq,
  bytes_beq_iff, Bytes, filter,
}
use livegit.Journal.{
  JournalEntry, Journal, Line, entry, AppendIo, append_done, append_write_failed,
  append_part_written, append_unended, append_sync_failed, part, unended, ends, load_line,
  CompactIo, compact_done, compact_tmp_failed, compact_rename_failed, compact_reopen_failed, load,
  open_journal, coalesce, append, append_numbered, compact, ack, park, wake, signal, close,
  drop_entries, Dropping, drop_loop, has_pending,
}
use livegit.Journal.Coalesce.{supersedes, coalesce-eq-filter}
use livegit.Journal.Order.{IsQueue, IsQueue-filter, IsQueue-push, IsQueue-raise}
use livegit.Journal.Replay.{
  pending-load-snoc, load-snoc, write_line-ended, load-map_entry, load-IsBounded,
}

-- One call. An append that wraps the 64-bit counter is no step, nor is one that finds the file
-- ending in a text without its newline. A crash in the middle of a write is an append that leaves
-- a part, and a restart.
pub data Step : Journal → Journal → Type 0 where
  appends :
      (io : AppendIo) (e : JournalEntry) (j : Journal)
      → j.next_seq + 1 < 2 ^ 64
      → ends j.disk ≡ true
      → Step j (append io e j).0
  acks : (io : CompactIo) (seq : ℕ) (j : Journal) → Step j (ack io seq j).0
  drops :
      (io : CompactIo) (match : JournalEntry → Bool) (j : Journal)
      → Step j (drop_entries io match j).0
  parks : (seq : ℕ) (j : Journal) → Step j (park seq j)
  wakes : (j : Journal) → Step j (wake j)
  closes : (j : Journal) → Step j (close j)
  restarts : (j : Journal) → Step j (open_journal j.disk)

pub data Reach (j : Journal) : Journal → Type 0 where
  here : Reach j j
  next : {k l : Journal} → Reach j k → Step k l → Reach j l

-- A queue and the file behind it: both are in order, and the file forgets no path of the queue.
pub record IsSound (n : ℕ) (pending : List JournalEntry) (disk : List Line) : Type 0 where
  pub queue : IsQueue n pending
  pub stored : IsQueue n (load disk).pending
  pub covers :
      (rel : Bytes)
      → any (λ e. e.rel == rel) pending ≡ true
      → any (λ e. e.rel == rel) (load disk).pending ≡ true

names-filter :
    (rel : Bytes) (p : JournalEntry → Bool) (ps : List JournalEntry)
    → any (λ e. e.rel == rel) (filter p ps) ≡ true
    → any (λ e. e.rel == rel) ps ≡ true
names-filter rel p [] h = h
names-filter rel p (e ∷ ps) h = ground (arith, names-filter rel p ps)

names-push_filter :
    (rel : Bytes) (e : JournalEntry) (ps : List JournalEntry)
    → any (λ x. x.rel == rel) (filter (λ p. not (supersedes e p)) ps ++ e ∷ [])
      ≡ (any (λ x. x.rel == rel) ps || e.rel == rel)
unfolding supersedes
names-push_filter rel e [] = ground arith
names-push_filter rel e (p ∷ ps) = ground (
  arith,
  names-push_filter rel e ps,
  bytes_beq_iff p.rel e.rel,
  bytes_beq_iff p.rel rel,
  bytes_beq_iff e.rel rel,
)

-- The new entry names whatever the entries that it takes the place of have named.
pub names-push :
    (rel : Bytes) (e : JournalEntry) (ps : List JournalEntry)
    → any (λ x. x.rel == rel) (coalesce e ps ++ e ∷ [])
      ≡ (any (λ x. x.rel == rel) ps || e.rel == rel)
names-push rel e ps = rw coalesce-eq-filter (names-push_filter rel e ps)

module _ {n : ℕ} {ps : List JournalEntry} {disk : List Line} where
  pushed :
      (e : JournalEntry)
      → n < e.seq
      → IsSound n ps disk
      → IsSound e.seq (coalesce e ps ++ e ∷ []) (disk ++ entry e ∷ [])
  pushed e lt h = record {
    queue = IsQueue-push e lt h.queue;
    stored = rw pending-load-snoc (IsQueue-push e lt h.stored);
    covers = λ rel.
        rw (pending-load-snoc, names-push rel e)
          (ground (arith, h.covers rel, names-push rel e (load disk).pending));
  }

  pub raised : (m : ℕ) → n ≤ m → IsSound n ps disk → IsSound m ps disk
  raised m le h = record {
    queue = IsQueue-raise le h.queue;
    stored = IsQueue-raise le h.stored;
    covers = h.covers;
  }

  -- The file may hold an entry that the queue does not.
  logged :
      (e : JournalEntry) → n < e.seq → IsSound n ps disk → IsSound e.seq ps (disk ++ entry e ∷ [])
  logged e lt h = record {
    queue = IsQueue-raise (omega arith) h.queue;
    stored = rw pending-load-snoc (IsQueue-push e lt h.stored);
    covers = λ rel.
        rw (pending-load-snoc, names-push rel e)
          (ground (arith, h.covers rel, names-push rel e (load disk).pending));
  }

  -- The file may end in part of a record, which is no record.
  part_left : IsSound n ps disk → IsSound n ps (disk ++ part ∷ [])
  part_left h =
      let same : load (disk ++ part ∷ []) ≡ load disk = rw load-snoc (unfold load_line in refl) in
      record {
        queue = h.queue;
        stored = rw same h.stored;
        covers = λ rel k. rw same (h.covers rel k);
      }

  -- The newline is not needed to read a record.
  unended_left :
      (e : JournalEntry) → n < e.seq → IsSound n ps disk → IsSound e.seq ps (disk ++ unended e ∷ [])
  unended_left e lt h =
      let same : load (disk ++ unended e ∷ []) ≡ load (disk ++ entry e ∷ []) =
        rw (load-snoc disk (unended e), load-snoc disk (entry e)) (unfold load_line in refl) in
      let old = logged e lt h in
      record {
        queue = old.queue;
        stored = rw same old.stored;
        covers = λ rel k. rw same (old.covers rel k);
      }

  -- The queue may lose entries that the file keeps.
  filtered : (p : JournalEntry → Bool) → IsSound n ps disk → IsSound n (filter p ps) disk
  filtered p h = record {
    queue = IsQueue-filter p h.queue;
    stored = h.stored;
    covers = λ rel k. h.covers rel (names-filter rel p ps k);
  }

compacted : {n : ℕ} {ps : List JournalEntry} → IsQueue n ps → IsSound n ps (map entry ps)
compacted {ps} h = record {
  queue = h;
  stored = rw (load-map_entry ps h.coalesced) h;
  covers = λ rel k. rw (load-map_entry ps h.coalesced) k;
}

abbrev pub Sound : Journal → Type 0
Sound j = IsSound j.next_seq j.pending j.disk

compact-Sound : (io : CompactIo) (j : Journal) → Sound j → Sound (compact io j).0
unfolding compact
compact-Sound compact_done j h = compacted h.queue
compact-Sound compact_tmp_failed j h = h
compact-Sound compact_rename_failed j h = h
compact-Sound compact_reopen_failed j h = compacted h.queue

append_numbered-Sound :
    (io : AppendIo) (e : JournalEntry) (j : Journal) (n : ℕ)
    → n < e.seq
    → e.seq ≡ j.next_seq
    → ends j.disk ≡ true
    → IsSound n j.pending j.disk
    → Sound (append_numbered io e j).0
unfolding append_numbered signal
append_numbered-Sound append_done e j n lt eq ended h =
    rw (write_line-ended j.disk (entry e) ended, ← eq) (pushed e lt h)
append_numbered-Sound append_write_failed e j n lt eq ended h = raised j.next_seq (omega arith) h
append_numbered-Sound append_part_written e j n lt eq ended h =
    rw (write_line-ended j.disk part ended) (raised j.next_seq (omega arith) (part_left h))
append_numbered-Sound append_unended e j n lt eq ended h =
    rw (write_line-ended j.disk (unended e) ended, ← eq) (unended_left e lt h)
append_numbered-Sound append_sync_failed e j n lt eq ended h =
    rw (write_line-ended j.disk (entry e) ended, ← eq) (logged e lt h)

pub drop_loop_lem :
    (match : JournalEntry → Bool) (es : List JournalEntry) (d : Dropping)
    → ((drop_loop match es d).kept ≡ d.kept ++ filter (λ e. not (match e)) es)
      × ((drop_loop match es d).dropped ≡ d.dropped ++ filter match es)
unfolding drop_loop
drop_loop_lem match [] d = (sym (append-nil d.kept), sym (append-nil d.dropped))
drop_loop_lem match (e ∷ es) d = elim (Bool-cases (match e)) [
  | inl p ↦
      let (k, m) =
        drop_loop_lem match es
          (record d { dropped = d.dropped ++ e ∷ []; parked = discard e.seq d.parked }) in
      rw (p, drop_loop) (k, m ∙ append_assoc d.dropped (e ∷ []) (filter match es))
  | inr p ↦
      let (k, m) = drop_loop_lem match es (record d { kept = d.kept ++ e ∷ [] }) in
      rw (p, drop_loop) (k ∙ append_assoc d.kept (e ∷ []) (filter (λ x. not (match x)) es), m)
]

-- Every call, however the file system answers it, and every restart keeps the queue in the order
-- of its numbers with one write a path at most, in memory and in what the file replays to, and
-- the file still names every path that the queue names, as long as the 64-bit counter does not wrap
-- and no append finds the file ending in a text that a failed write left without its newline.
pub Step-Sound : {j k : Journal} → Step j k → Sound j → Sound k
unfolding append
Step-Sound (appends io e j fits ended) h =
    append_numbered-Sound _ (record e { seq = (j.next_seq + 1) % 2 ^ 64 })
      (record j { next_seq = (j.next_seq + 1) % 2 ^ 64 }) j.next_seq (omega arith) refl ended h
Step-Sound (acks io seq j) h = unfold ack in compact-Sound io _ (filtered _ h)
Step-Sound (drops io match j) h =
    unfold drop_entries in
    compact-Sound io _ (
      rw (drop_loop_lem match j.pending (record { dropped = []; kept = []; parked = j.parked })).0
        (filtered _ h))
Step-Sound (parks seq j) h = unfold park in h
Step-Sound (wakes j) h = unfold wake in h
Step-Sound (closes j) h = unfold close in h
Step-Sound (restarts j) h =
    unfold open_journal in
    let q : IsQueue (load j.disk).next_seq (load j.disk).pending = record {
      ordered = h.stored.ordered;
      bounded = load-IsBounded j.disk;
      coalesced = h.stored.coalesced;
    } in
    record { queue = q; stored = q; covers = λ rel k. k }

pub Reach-Sound : {j k : Journal} → Reach j k → Sound j → Sound k
Reach-Sound here h = h
Reach-Sound (next r s) h = Step-Sound s (Reach-Sound r h)

pub Sound-empty : Sound (open_journal [])
unfolding open_journal load
Sound-empty =
    let q : IsQueue 0 [] = record { ordered = tt; bounded = tt; coalesced = tt } in
    record { queue = q; stored = q; covers = λ rel k. k }

-- Whatever calls, failed writes among them, and restarts a journal has seen since its file was empty,
-- a path with queued work still has queued work when the journal is opened from its file again, as
-- long as the 64-bit counter has not wrapped and no append has found the file ending in a text that
-- a failed write left without its newline.
pub has_pending-open_journal :
    (j : Journal) (rel : Bytes)
    → Reach (open_journal []) j
    → has_pending rel j ≡ true
    → has_pending rel (open_journal j.disk) ≡ true
unfolding has_pending
has_pending-open_journal j rel r k = unfold open_journal in (Reach-Sound r Sound-empty).covers rel k
