-- ===== src/Run/Barrier.antt =====
-- The barrier before a command, `flushBarrier` of internal/cli/run.go, against the mount's journal.
use livegit.Prelude.{
  ◌≡◌, ◌≢◌, inl, inr, ◌⊎◌, true, false, arith, none, some, List, [], ◌∷◌, Bytes, any, All,
  Bool-cases,
}
use livegit.Journal.{Journal, scan_pending_dir, pending_for_dir, open_journal}
use livegit.Journal.History.{Reach}
use livegit.Journal.Barrier.{pending_for_dir→scan}
use livegit.Run.{Poll, drained, flush_barrier}

-- One of the rounds found the journal without work for the directory.
abbrev pub Found : Bytes → List Poll → Type 0
Found dir [] = ⊥
Found dir (p ∷ polls) = (pending_for_dir dir p.journal ≡ false) ⊎ Found dir polls

not_pending :
    (j : Journal) (dir : Bytes)
    → Reach (open_journal []) j
    → scan_pending_dir j.disk dir ≡ false
    → pending_for_dir dir j ≡ false
not_pending j dir r idle = elim (Bool-cases (pending_for_dir dir j)) [
  | inl p ↦ let seen = pending_for_dir→scan j dir r p in cc (seen, idle)
  | inr e ↦ e
]

-- Whatever calls the mount's journal sees between the rounds, a barrier that passes has met a moment
-- in which the mount itself had no work left for the directory, as long as the journal's 64-bit
-- counter has not wrapped and no append has found the journal's file ending in a text that a failed
-- write left without its newline.
pub flush_barrier-Found :
    (dir : Bytes) (polls : List Poll)
    → All (λ p. Reach (open_journal []) p.journal) polls
    → flush_barrier dir polls ≡ some drained
    → Found dir polls
unfolding flush_barrier
flush_barrier-Found dir [] r h = cc
flush_barrier-Found dir (p ∷ polls) (reach, r) h =
    elim (Bool-cases (scan_pending_dir p.journal.disk dir)) [
      | inr e ↦ inl (not_pending p.journal dir reach e)
      | inl e ↦ inr (flush_barrier-Found dir polls r (ground (arith, h, e)))
    ]

-- The barrier answers by the first round after its deadline.
pub flush_barrier-ends :
    (dir : Bytes) (polls : List Poll)
    → any (λ p. p.late) polls ≡ true
    → flush_barrier dir polls ≢ none
unfolding flush_barrier
flush_barrier-ends dir [] late e = ground (arith, late)
flush_barrier-ends dir (p ∷ polls) late e = ground (arith, late, e, flush_barrier-ends dir polls)
