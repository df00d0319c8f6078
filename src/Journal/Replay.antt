-- ===== src/Journal/Replay.antt =====
-- What `load` makes of the log that the methods write.
use livegit.Prelude.{
  true, ◌≤◌, ◌≡◌, refl, ◌∙◌, List, [], ◌∷◌, ◌++◌, arith, map, append_assoc, append-nil, nat_eq,
  if◌then◌else◌, All-append, All-filter, All-map, ltb,
}
use mathlib.Core.List.{foldl, foldl-append}
use livegit.Journal.{
  JournalEntry, Line, blank, torn, part, entry, unended, is_ended, ends, write_line, Loaded,
  load_entry, load_line, load, coalesce,
}
use livegit.Journal.Coalesce.{IsCoalesced, coalesce-eq-filter, coalesce-id}
use livegit.Journal.Order.{IsBounded}

-- One more line in the log is one more step of the replay.
pub load-snoc : (disk : List Line) (l : Line) → load (disk ++ l ∷ []) ≡ load_line (load disk) l
unfolding load
load-snoc disk l = rw foldl-append

pub pending-load-snoc :
    (disk : List Line) (e : JournalEntry)
    → (load (disk ++ entry e ∷ [])).pending ≡ coalesce e (load disk).pending ++ e ∷ []
pending-load-snoc disk e = rw load-snoc (unfold load_line in unfold load_entry in refl)

-- Behind a newline a write is a line of its own.
pub write_line-ended :
    (disk : List Line) (l : Line) → ends disk ≡ true → write_line disk l ≡ disk ++ l ∷ []
unfolding write_line ends
write_line-ended [] l h = refl
write_line-ended (x ∷ []) l h = rw h refl
write_line-ended (x ∷ y ∷ xs) l h = rw (write_line-ended (y ∷ xs) l h) refl

pub pending-load-write_line :
    (disk : List Line) (e : JournalEntry)
    → ends disk ≡ true
    → (load (write_line disk (entry e))).pending ≡ coalesce e (load disk).pending ++ e ∷ []
pending-load-write_line disk e h = rw (write_line-ended disk (entry e) h) (pending-load-snoc disk e)

pub ends-snoc : (disk : List Line) (l : Line) → ends (disk ++ l ∷ []) ≡ is_ended l
unfolding ends
ends-snoc [] l = refl
ends-snoc (x ∷ []) l = refl
ends-snoc (x ∷ y ∷ xs) l = ends-snoc (y ∷ xs) l

pub ends-map_entry : (ps : List JournalEntry) → ends (map entry ps) ≡ true
unfolding ends is_ended
ends-map_entry [] = refl
ends-map_entry (e ∷ []) = refl
ends-map_entry (e ∷ f ∷ ps) = ends-map_entry (f ∷ ps)

replay-map :
    (l : Loaded) (ps : List JournalEntry)
    → IsCoalesced (l.pending ++ ps)
    → (foldl load_line l (map entry ps)).pending ≡ l.pending ++ ps
unfolding load_line load_entry
replay-map l [] h = rw append-nil
replay-map l (e ∷ ps) h =
    let same : coalesce e l.pending ≡ l.pending = coalesce-id l.pending e ps h in
    let split : (coalesce e l.pending ++ e ∷ []) ++ ps ≡ l.pending ++ e ∷ ps =
      rw (same, append_assoc) in
    replay-map (load_line l (entry e)) ps (rw split h) ∙ split

-- A compacted log replays to the queue that it was written from.
pub load-map_entry : (ps : List JournalEntry) → IsCoalesced ps → (load (map entry ps)).pending ≡ ps
unfolding load
load-map_entry ps h = replay-map (record { pending = []; next_seq = 0 }) ps h

-- Whatever the log holds, what is loaded has no number above the one to go on from.
load_entry-IsBounded :
    (l : Loaded) (e : JournalEntry)
    → IsBounded l.next_seq l.pending
    → IsBounded (load_entry l e).next_seq (load_entry l e).pending
unfolding load_entry
load_entry-IsBounded l e h =
    All-append (λ a. a.seq ≤ (if ltb l.next_seq e.seq then e.seq else l.next_seq))
      (coalesce e l.pending) (e ∷ [])
      (rw coalesce-eq-filter (
        All-filter (λ a. a.seq ≤ (if ltb l.next_seq e.seq then e.seq else l.next_seq)) _ l.pending
          (All-map l.pending (λ a k. ground arith) h)))
      (ground arith, tt)

load_line-IsBounded :
    (l : Loaded) (x : Line)
    → IsBounded l.next_seq l.pending
    → IsBounded (load_line l x).next_seq (load_line l x).pending
unfolding load_line
load_line-IsBounded l blank h = h
load_line-IsBounded l torn h = h
load_line-IsBounded l part h = h
load_line-IsBounded l (entry e) h = load_entry-IsBounded l e h
load_line-IsBounded l (unended e) h = load_entry-IsBounded l e h

foldl-IsBounded :
    (l : Loaded) (xs : List Line)
    → IsBounded l.next_seq l.pending
    → IsBounded (foldl load_line l xs).next_seq (foldl load_line l xs).pending
foldl-IsBounded l [] h = h
foldl-IsBounded l (x ∷ xs) h = foldl-IsBounded (load_line l x) xs (load_line-IsBounded l x h)

pub load-IsBounded : (disk : List Line) → IsBounded (load disk).next_seq (load disk).pending
unfolding load
load-IsBounded disk = foldl-IsBounded (record { pending = []; next_seq = 0 }) disk tt
