-- ===== src/Journal/Order.antt =====
-- The queue is in the order of its sequence numbers, and holds one write a path at most.
use livegit.Prelude.{
  ℕ, ◌≤◌, ◌<◌, ◌≡◌, Bool, false, List, [], ◌∷◌, ◌++◌, arith, nat_eq, filter, All, All-append,
  All-filter, All-map, Pairwise, Pairwise-snoc, Pairwise-filter,
}
use livegit.Journal.{JournalEntry, coalesce}
use livegit.Journal.Coalesce.{IsCoalesced, supersedes, coalesce-eq-filter, coalesce-IsCoalesced}

abbrev pub IsOrdered : List JournalEntry → Type 0
IsOrdered = Pairwise (λ a b. a.seq < b.seq)

abbrev pub IsBounded : ℕ → List JournalEntry → Type 0
IsBounded n = All (λ e. e.seq ≤ n)

-- A queue that the journal may hold when `n` was the last number given out.
pub record IsQueue (n : ℕ) (pending : List JournalEntry) : Type 0 where
  pub ordered : IsOrdered pending
  pub bounded : IsBounded n pending
  pub coalesced : IsCoalesced pending

pub IsQueue-filter :
    {n : ℕ} {ps : List JournalEntry} (p : JournalEntry → Bool)
    → IsQueue n ps
    → IsQueue n (filter p ps)
IsQueue-filter {ps} p h = record {
  ordered = Pairwise-filter (λ a b. a.seq < b.seq) p ps h.ordered;
  bounded = All-filter (λ e. e.seq ≤ _) p ps h.bounded;
  coalesced = Pairwise-filter (λ p e. supersedes e p ≡ false) p ps h.coalesced;
}

-- A new entry with a larger number goes to the end, in the place of what it supersedes.
pub IsQueue-push :
    {n : ℕ} {ps : List JournalEntry} (e : JournalEntry)
    → n < e.seq
    → IsQueue n ps
    → IsQueue e.seq (coalesce e ps ++ e ∷ [])
IsQueue-push {n} {ps} e lt h =
    let kept : IsQueue n (coalesce e ps) = rw coalesce-eq-filter (IsQueue-filter _ h) in
    record {
      ordered =
          Pairwise-snoc (λ a b. a.seq < b.seq) (coalesce e ps) e kept.ordered
            (All-map (coalesce e ps) (λ a k. omega arith) kept.bounded);
      bounded =
          All-append (λ a. a.seq ≤ e.seq) (coalesce e ps) (e ∷ [])
            (All-map (coalesce e ps) (λ a k. omega arith) kept.bounded) (omega arith);
      coalesced = coalesce-IsCoalesced e ps h.coalesced;
    }

pub IsQueue-raise : {m n : ℕ} {ps : List JournalEntry} → m ≤ n → IsQueue m ps → IsQueue n ps
IsQueue-raise {ps} le h = record {
  ordered = h.ordered;
  bounded = All-map ps (λ a k. omega arith) h.bounded;
  coalesced = h.coalesced;
}
