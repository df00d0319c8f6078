-- ===== src/Journal/Coalesce.antt =====
-- What `coalesceLocked` does to the queue.
use livegit.Prelude.{
  ◌≡◌, refl, ◌∙◌, ap, Bool, true, false, not, ◌&&◌, List, [], ◌∷◌, ◌++◌, arith, ◌==◌, bytes_eq,
  filter, All, All-filter_self, All-map, Pairwise, Pairwise-snoc, Pairwise-filter,
}
use livegit.Journal.{JournalEntry, is_write, coalesce}

-- The later entry takes the place of the earlier one.
unfoldable pub supersedes : JournalEntry → JournalEntry → Bool
supersedes e p = is_write e.op && (p.rel == e.rel && is_write p.op)

pub coalesce-eq-filter :
    (e : JournalEntry) (ps : List JournalEntry)
    → coalesce e ps ≡ filter (λ p. not (supersedes e p)) ps
unfolding coalesce supersedes
coalesce-eq-filter e [] = ground arith
coalesce-eq-filter e (p ∷ ps) = ground (arith, coalesce-eq-filter e ps)

-- No entry behind another takes its place.
abbrev pub IsCoalesced : List JournalEntry → Type 0
IsCoalesced = Pairwise (λ p e. supersedes e p ≡ false)

not-true : (b : Bool) → not b ≡ true → b ≡ false
not-true true h = ground arith
not-true false h = refl

pub coalesce-IsCoalesced :
    (e : JournalEntry) (ps : List JournalEntry)
    → IsCoalesced ps
    → IsCoalesced (coalesce e ps ++ e ∷ [])
coalesce-IsCoalesced e ps h = rw coalesce-eq-filter (
    Pairwise-snoc (λ p q. supersedes q p ≡ false) (filter (λ p. not (supersedes e p)) ps) e
      (Pairwise-filter (λ p q. supersedes q p ≡ false) (λ p. not (supersedes e p)) ps h)
      (All-map _ (λ p k. not-true _ k) (All-filter_self (λ p. not (supersedes e p)) ps)))

filter-id :
    (e : JournalEntry) (ps : List JournalEntry)
    → All (λ p. supersedes e p ≡ false) ps
    → filter (λ p. not (supersedes e p)) ps ≡ ps
filter-id e [] h = refl
filter-id e (p ∷ ps) h = rw h.0 (ap (λ l. p ∷ l) (filter-id e ps h.1))

-- In a coalesced list an entry supersedes nothing before it.
All-before :
    (ps : List JournalEntry) (e : JournalEntry) (qs : List JournalEntry)
    → IsCoalesced (ps ++ e ∷ qs)
    → All (λ p. supersedes e p ≡ false) ps
All-before [] e qs h = tt
All-before (p ∷ ps) e qs h = (All-at ps e qs h.0, All-before ps e qs h.1)
  where
    All-at :
        (ps : List JournalEntry) (e : JournalEntry) (qs : List JournalEntry)
        → All (λ x. supersedes x p ≡ false) (ps ++ e ∷ qs)
        → supersedes e p ≡ false
    All-at [] e qs k = k.0
    All-at (x ∷ ps) e qs k = All-at ps e qs k.1

-- An entry that supersedes nothing before it leaves the list as it is.
pub coalesce-id :
    (ps : List JournalEntry) (e : JournalEntry) (qs : List JournalEntry)
    → IsCoalesced (ps ++ e ∷ qs)
    → coalesce e ps ≡ ps
coalesce-id ps e qs h = coalesce-eq-filter e ps ∙ filter-id e ps (All-before ps e qs h)
