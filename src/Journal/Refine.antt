-- ===== src/Journal/Refine.antt =====
-- What a journal promises while its file answers: a queue in order, which calls and restarts change
-- as an abstract queue changes.
use livegit.Prelude.{
  ◌⊎◌, ℕ, ◌+◌, ◌^◌, ◌<◌, ◌≡◌, refl, sym, ◌∙◌, ap, Bool, true, false, not, ◌&&◌, ◌||◌, Option, some,
  none, List, [], ◌∷◌, ◌++◌, arith, any, has, has-add, nat_eq, bytes_eq, ◌==◌, filter, All, All-map,
}
use livegit.Journal.{
  JournalEntry, Journal, append_done, compact_done, load, open_journal, peek, ends, is_ended,
  append, append_numbered, signal, ack, compact, drop_entries, park, wake,
}
use livegit.Journal.Coalesce.{supersedes}
use livegit.Journal.History.{appends, acks, drops, restarts, Sound, Step-Sound, Sound-empty}
use livegit.Journal.Queue.{stored, append_lem, ack_lem, drop_entries_lem, peek_lem}
use livegit.Journal.Replay.{write_line-ended, ends-snoc, ends-map_entry}

-- The entries in order, and which numbers are set aside
pub record Queue : Type 0 where
  pub entries : List JournalEntry
  pub is_parked : ℕ → Bool

abbrev pub no_entries : Queue
no_entries = record { entries = []; is_parked = λ n. false }

-- A call, by its argument: only an append's number is the journal's own.
pub data Call : Type 0 where
  call_append : JournalEntry → Call
  call_ack : ℕ → Call
  call_drop : (JournalEntry → Bool) → Call
  call_park : ℕ → Call
  call_wake call_restart : Call

-- What a call does to a queue: an appended entry, with a number above all of the queue, goes to
-- the end in the place of what it supersedes; the acknowledged entry leaves the queue; so do
-- those that a drop asks for, which are no longer set aside; one is set aside; a restart forgets
-- what was.
pub data QueueStep (q q' : Queue) : Call → Type 0 where
  pushed :
      (e : JournalEntry) (n : ℕ)
      → All (λ p. p.seq < n) q.entries
      → q'.entries
        ≡ filter (λ p. not (supersedes (record e { seq = n }) p)) q.entries
          ++ record e { seq = n } ∷ []
      → ((m : ℕ) → q'.is_parked m ≡ q.is_parked m)
      → QueueStep q q' (call_append e)
  acknowledged :
      (seq : ℕ)
      → q'.entries ≡ filter (λ e. not (e.seq == seq)) q.entries
      → ((n : ℕ) → q'.is_parked n ≡ q.is_parked n)
      → QueueStep q q' (call_ack seq)
  dropped :
      (match : JournalEntry → Bool)
      → q'.entries ≡ filter (λ e. not (match e)) q.entries
      → ((n : ℕ)
          → q'.is_parked n ≡ (q.is_parked n && not (any (λ e. match e && e.seq == n) q.entries)))
      → QueueStep q q' (call_drop match)
  set_aside :
      (seq : ℕ)
      → q'.entries ≡ q.entries
      → ((n : ℕ) → q'.is_parked n ≡ (seq == n || q.is_parked n))
      → QueueStep q q' (call_park seq)
  woken :
      q'.entries ≡ q.entries → ((n : ℕ) → q'.is_parked n ≡ q.is_parked n) → QueueStep q q' call_wake
  restarted :
      q'.entries ≡ q.entries → ((n : ℕ) → q'.is_parked n ≡ false) → QueueStep q q' call_restart

-- What the calls, the last first, make of an empty queue.
pub data QueueReach : List Call → Queue → Type 0 where
  queue_start : QueueReach [] no_entries
  queue_next :
      {calls : List Call} {c : Call} {q q' : Queue}
      → QueueReach calls q
      → QueueStep q q' c
      → QueueReach (c ∷ calls) q'

abbrev pub queue_of : Journal → Queue
queue_of j = record { entries = j.pending; is_parked = λ n. has n j.parked }

-- A call of the journal whose writes go well
abbrev pub run_call : Call → Journal → Journal
run_call (call_append e) j = (append append_done e j).0
run_call (call_ack seq) j = (ack compact_done seq j).0
run_call (call_drop match) j = (drop_entries compact_done match j).0
run_call (call_park seq) j = park seq j
run_call call_wake j = wake j
run_call call_restart j = open_journal j.disk

-- The journal after the calls, the last first. No call wraps the counter.
pub data Called : List Call → Journal → Type 0 where
  call_none : Called [] (open_journal [])
  call_more :
      {calls : List Call} {j : Journal} (c : Call)
      → Called calls j
      → j.next_seq + 1 < 2 ^ 64
      → Called (c ∷ calls) (run_call c j)

-- The file is open, ends with a newline and replays to the queue.
abbrev IsSynced : Journal → Type 0
IsSynced j = (j.is_open ≡ true) × (ends j.disk ≡ true) × (stored j ≡ j.pending) × Sound j

append-kept :
    (e : JournalEntry) (j : Journal)
    → j.is_open ≡ true
    → ends j.disk ≡ true
    → let j' = (append append_done e j).0 in
      (j'.parked ≡ j.parked) × (j'.is_open ≡ true) × (ends j'.disk ≡ true)
unfolding append append_numbered signal is_ended
append-kept e j o h = rw o (refl, refl, rw (write_line-ended j.disk _ h) (ends-snoc j.disk _))

ack-kept :
    (seq : ℕ) (j : Journal)
    → let j' = (ack compact_done seq j).0 in
      (j'.parked ≡ j.parked) × (j'.is_open ≡ true) × (ends j'.disk ≡ true)
unfolding ack compact
ack-kept seq j = (refl, refl, ends-map_entry _)

drop-kept :
    (match : JournalEntry → Bool) (j : Journal)
    → let j' = (drop_entries compact_done match j).0 in (j'.is_open ≡ true) × (ends j'.disk ≡ true)
unfolding drop_entries compact
drop-kept match j = (refl, ends-map_entry _)

-- A restart finds nothing set aside, and the same file.
restart-kept :
    (j : Journal)
    → ((open_journal j.disk).parked ≡ [])
      × ((open_journal j.disk).is_open ≡ true)
      × ((open_journal j.disk).disk ≡ j.disk)
unfolding open_journal
restart-kept j = (refl, refl, refl)

run_call-IsSynced :
    (c : Call) (j : Journal)
    → j.next_seq + 1 < 2 ^ 64
    → IsSynced j
    → QueueStep (queue_of j) (queue_of (run_call c j)) c × IsSynced (run_call c j)
unfolding has
run_call-IsSynced (call_append e) j fits (o, ended, s, sound) =
    let (answer, pending, replay, signalled) = append_lem e j o fits in
    let (parked, still_open, still_ended) = append-kept e j o ended in
    let e' : JournalEntry = record e { seq = j.next_seq + 1 } in
    (
      pushed e (j.next_seq + 1) (All-map j.pending (λ p k. omega (arith, k)) sound.queue.bounded)
          pending (λ n. ap (has n) parked),
      (
        still_open,
        still_ended,
        replay ended ∙ ap (λ l. filter (λ p. not (supersedes e' p)) l ++ e' ∷ []) s ∙ sym pending,
        Step-Sound (appends append_done e j fits ended) sound,
      ),
    )
run_call-IsSynced (call_ack seq) j fits (o, ended, s, sound) =
    let (done, pending, replay) = ack_lem seq j sound.queue.coalesced in
    let (parked, still_open, still_ended) = ack-kept seq j in
    (
      acknowledged seq pending (λ n. ap (has n) parked),
      (still_open, still_ended, replay, Step-Sound (acks compact_done seq j) sound),
    )
run_call-IsSynced (call_drop match) j fits (o, ended, s, sound) =
    let (done, given, pending, replay, parked) = drop_entries_lem match j sound.queue.coalesced in
    let (still_open, still_ended) = drop-kept match j in
    (
      dropped match pending parked,
      (still_open, still_ended, replay, Step-Sound (drops compact_done match j) sound),
    )
run_call-IsSynced (call_park seq) j fits (o, ended, s, sound) =
    unfold park in (set_aside seq refl (λ n. has-add seq n j.parked), (o, ended, s, sound))
run_call-IsSynced call_wake j fits (o, ended, s, sound) =
    unfold wake in unfold signal in (woken refl (λ n. refl), (o, ended, s, sound))
run_call-IsSynced call_restart j fits (o, ended, s, sound) =
    let (parked, is_open, disk) = restart-kept j in
    (
      restarted s (λ n. ap (has n) parked),
      (
        is_open,
        rw disk ended,
        ap (λ d. (open_journal d).pending) disk,
        Step-Sound (restarts j) sound,
      ),
    )

Called-IsSynced :
    {calls : List Call} {j : Journal} → Called calls j → QueueReach calls (queue_of j) × IsSynced j
unfolding open_journal load has ends
Called-IsSynced call_none = (queue_start, (refl, refl, refl, Sound-empty))
Called-IsSynced (call_more c called fits) =
    let (reach, synced) = Called-IsSynced called in
    let (step, synced') = run_call-IsSynced c _ fits synced in (queue_next reach step, synced')

-- The answer is the first entry that is not set aside, or all are.
abbrev pub IsOldest : Queue → Option JournalEntry → Type 0
IsOldest q answer =
    ((answer ≡ none) × All (λ e. q.is_parked e.seq ≡ true) q.entries)
    ⊎ ((e : JournalEntry) × (front : List JournalEntry) × (back : List JournalEntry) × (answer
          ≡ some e)
        × (q.entries ≡ front ++ e ∷ back)
        × All (λ x. q.is_parked x.seq ≡ true) front
        × (q.is_parked e.seq ≡ false))

-- After any appends, acknowledgements, drops, parkings, wakes and restarts since its file was empty,
-- a journal's queue is one that the same calls make of an abstract queue, which knows no file, its
-- file replays to that queue, and `Peek` answers the first entry that is not set aside, or nothing
-- where all are, if every write of the file goes well and the 64-bit counter does not wrap.
pub Called-QueueReach :
    (calls : List Call) (j : Journal)
    → Called calls j
    → QueueReach calls (queue_of j)
      × (stored j ≡ (queue_of j).entries)
      × IsOldest (queue_of j) (peek j)
Called-QueueReach calls j called =
    let (reach, synced) = Called-IsSynced called in (reach, synced.2, peek_lem j)
