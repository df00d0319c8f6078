-- ===== src/Flush/Drain.antt =====
-- The loops of internal/fuse/flush.go end, and how.
use livegit.Prelude.{
  ◌+◌, length, List, [], ◌∷◌, ℕ, zero, suc, ◌<◌, Bool, true, false, ◌≡◌, ◌≢◌, refl, inl, inr, arith,
  Option, none, some, Bytes, nat_eq, leb, Bool-cases,
}
use livegit.Journal.{AppendIo, JournalEntry, ack, park, peek}
use livegit.Flush.{
  Meanwhile, append_all, meanwhile, SourceRpc, Ghost, FlushIo, Failing, Outcome, drained,
  out_of_fuel, no_failure, flush_park_after, flush_entry, count_failure, clear_failure, after_drain,
  drain_head, drain, after_flush, flush_head, flush_all,
}
use livegit.Flush.Appends.{left-append_all, left-ack_all, left-park_all}
use livegit.Flush.Progress.{left, left-ack, left-park-le, flush_entry-Acked}

module _ {R : Type 0} (source : SourceRpc R) (matches : Bytes → Bool)
    (io : JournalEntry → FlushIo) where
  -- A loop has come to an end of its own; where it says that it drained, nothing is left to do.
  abbrev pub Ended : Ghost R → Outcome → Type 0
  Ended g o = (o ≢ out_of_fuel) × (o ≡ drained → peek g.journal ≡ none)

  left-done :
      (e : JournalEntry) (g : Ghost R)
      → peek g.journal ≡ some e
      → (flush_entry source matches (io e) e g).1 ≡ true
      → left (flush_entry source matches (io e) e g).0.journal < left g.journal
  left-done e g p done = elim (flush_entry-Acked source matches (io e) e g) [
    | inl (unsettled, (f, same)) ↦ absurd (ground (arith, done, f))
    | inr (settled, (d, acked)) ↦ rw acked (left-ack (io e).compact e g.journal p)
  ]

  -- A round that flushes the entry at the head, or gives it up, leaves less to do than there was with
  -- what is appended beside it.
  left-done_all :
      (e : JournalEntry) (g : Ghost R) (appends : List (AppendIo × JournalEntry))
      → peek g.journal ≡ some e
      → (flush_entry source matches (io e) e (meanwhile appends g)).1 ≡ true
      → left (flush_entry source matches (io e) e (meanwhile appends g)).0.journal
        < left g.journal + length appends
  left-done_all e g appends p done =
      elim (flush_entry-Acked source matches (io e) e (meanwhile appends g)) [
        | inl (unsettled, (f, same)) ↦ absurd (ground (arith, done, f))
        | inr (settled, (d, acked)) ↦ rw acked (left-ack_all e g.journal appends p (io e).compact)
      ]

  left-given_up :
      (e : JournalEntry) (g : Ghost R) (appends : List (AppendIo × JournalEntry))
      → peek g.journal ≡ some e
      → left (park e.seq (flush_entry source matches (io e) e (meanwhile appends g)).0.journal)
        < left g.journal + length appends
  left-given_up e g appends p =
      elim (flush_entry-Acked source matches (io e) e (meanwhile appends g)) [
        | inl (unsettled, (f, same)) ↦ rw same (left-park_all e g.journal appends p)
        | inr (settled, (d, acked)) ↦
            let k = append_all appends g.journal in
            rw acked (
              omega (
                arith,
                left-ack_all e g.journal appends p (io e).compact,
                left-park-le e.seq (ack (io e).compact e.seq k).0,
              ))
      ]

  after_flush-Ended :
      (rest : Ghost R → Ghost R × Outcome) (r : Ghost R × Bool)
      → (r.1 ≡ true → Ended (rest r.0).0 (rest r.0).1)
      → Ended (after_flush source matches rest r).0 (after_flush source matches rest r).1
  unfolding after_flush
  after_flush-Ended rest (g, true) h = h refl
  after_flush-Ended rest (g, false) h = (λ w. ground (arith, w), λ d. absurd (ground (arith, d)))

  flush_head-Ended :
      (rest : Ghost R → Ghost R × Outcome) (g : Ghost R) (o : Option JournalEntry)
      → peek g.journal ≡ o
      → ((g' : Ghost R) → left g'.journal < left g.journal → Ended (rest g').0 (rest g').1)
      → Ended (flush_head source matches rest io g o).0 (flush_head source matches rest io g o).1
  unfolding flush_head
  flush_head-Ended rest g none p ih = (λ w. ground (arith, w), λ _. p)
  flush_head-Ended rest g (some e) p ih =
      after_flush-Ended rest (flush_entry source matches (io e) e g)
        (λ done. ih _ (left-done e g p done))

  -- `FlushAll` comes to an end, whatever Source answers, in a round for each entry that is not
  -- parked and one more; where it ends without an error, `Peek` finds nothing.
  pub flush_all-Ended :
      (fuel : ℕ) (g : Ghost R)
      → left g.journal < fuel
      → Ended (flush_all source matches fuel io g).0 (flush_all source matches fuel io g).1
  unfolding flush_all
  flush_all-Ended zero g enough = absurd (omega (arith, enough))
  flush_all-Ended (suc fuel) g enough =
      flush_head-Ended (flush_all source matches fuel io) g (peek g.journal) refl
        (λ g' less. flush_all-Ended fuel g' (omega (arith, less, enough)))

  abbrev EndedDrain : Ghost R × Failing × Outcome → Type 0
  EndedDrain r = Ended r.0 r.2

  after_drain-Ended :
      (rest : Failing → Ghost R → Ghost R × Failing × Outcome) (e : JournalEntry) (f : Failing)
      (r : Ghost R × Bool)
      → (r.1 ≡ true → EndedDrain (rest (clear_failure source matches e f) r.0))
      → EndedDrain (rest no_failure (record r.0 { journal = park e.seq r.0.journal }))
      → EndedDrain (after_drain source matches rest e f r)
  unfolding after_drain
  after_drain-Ended rest e f (g, true) h k = h refl
  after_drain-Ended rest e f (g, false) h k =
      elim (Bool-cases (leb flush_park_after (count_failure source matches e f).count)) [
        | inl often ↦ simp often k
        | inr seldom ↦ simp seldom (λ w. ground (arith, w), λ d. absurd (ground (arith, d)))
      ]

  drain_head-Ended :
      (rest : Failing → Ghost R → Ghost R × Failing × Outcome)
      (during : List (AppendIo × JournalEntry)) (f : Failing) (g : Ghost R)
      (o : Option JournalEntry)
      → peek g.journal ≡ o
      → ((f' : Failing) (g' : Ghost R)
          → left g'.journal < left g.journal + length during
          → EndedDrain (rest f' g'))
      → EndedDrain (drain_head source matches rest io during f g o)
  unfolding drain_head
  drain_head-Ended rest during f g none p ih = (λ w. ground (arith, w), λ _. p)
  drain_head-Ended rest during f g (some e) p ih = elim (Bool-cases (source.online g.source)) [
    | inr off ↦ simp off (λ w. ground (arith, w), λ d. absurd (ground (arith, d)))
    | inl on ↦ simp on (
        after_drain-Ended rest e f (flush_entry source matches (io e) e (meanwhile during g))
          (λ done. ih _ _ (left-done_all e g during p done)) (ih _ _ (left-given_up e g during p)))
  ]

  -- How many appends there are
  abbrev pub appended : List Meanwhile → ℕ
  appended [] = 0
  appended (round ∷ rounds) = length round.before + length round.during + appended rounds

  -- The worker's drain comes to an end, whatever Source answers, however the entries fail and
  -- whatever is appended in between, in a round for each entry that is not parked, one for each
  -- append, and one more; where it says that it drained, `Peek` finds nothing.
  pub drain-Ended :
      (fuel : ℕ) (rounds : List Meanwhile) (f : Failing) (g : Ghost R)
      → left g.journal + appended rounds < fuel
      → let r = drain source matches fuel rounds io f g in Ended r.0 r.2
  unfolding drain
  drain-Ended zero rounds f g enough = absurd (omega (arith, enough))
  drain-Ended (suc fuel) [] f g enough =
      drain_head-Ended (drain source matches fuel [] io) [] f g (peek g.journal) refl
        (λ f' g' less. drain-Ended fuel [] f' g' (omega (arith, less, enough)))
  drain-Ended (suc fuel) (round ∷ rounds) f g enough =
      let g0 = meanwhile round.before g in
      drain_head-Ended (drain source matches fuel rounds io) round.during f g0 (peek g0.journal)
        refl
        (λ f' g' less.
          drain-Ended fuel rounds f' g'
            (omega (arith, less, enough, left-append_all round.before g.journal)))
