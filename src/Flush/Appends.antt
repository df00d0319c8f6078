-- ===== src/Flush/Appends.antt =====
-- How much the worker has to do once others have appended to the journal, internal/fuse/flush.go
-- beside internal/fuse/journal.go.
use livegit.Prelude.{
  ℕ, ◌+◌, ◌≤◌, ◌<◌, ◌≡◌, refl, sym, ap, inl, inr, Bool, true, not, ◌&&◌, arith, some, List, [], ◌∷◌,
  ◌++◌, ◌==◌, nat_eq, length, filter, Bool-cases, has, add, has-add,
}
use livegit.Journal.{JournalEntry, Journal, AppendIo, CompactIo, append, ack, park, peek}
use livegit.Journal.Queue.{numbered, Pushed, append-Pushed}
use livegit.Flush.{append_all}
use livegit.Flush.Progress.{left, left_of, others, left-others, ack-pending, ack-parked}

-- A new entry at the end, in the place of others, is one more at most.
length-push :
    (test kept : JournalEntry → Bool) (e : JournalEntry) (ps : List JournalEntry)
    → length (filter test (filter kept ps ++ e ∷ [])) ≤ length (filter test ps) + 1
length-push test kept e [] = elim (Bool-cases (test e)) [
  | inl t ↦ rw t (omega arith)
  | inr t ↦ rw t (omega arith)
]
length-push test kept e (p ∷ ps) =
    let rest : length (filter test (filter kept ps ++ e ∷ [])) ≤ length (filter test ps) + 1 =
      length-push test kept e ps in
    elim (Bool-cases (kept p)) [
      | inl k ↦ elim (Bool-cases (test p)) [
        | inl t ↦ simp (k, t) (omega (arith, rest))
        | inr t ↦ simp (k, t) rest
      ]
      | inr k ↦ elim (Bool-cases (test p)) [
        | inl t ↦ simp (k, t) (omega (arith, rest))
        | inr t ↦ simp (k, t) rest
      ]
    ]

module _ (test : List ℕ → JournalEntry → Bool) where
  -- The entries of the queue that pass
  abbrev pub passing : Journal → ℕ
  passing j = length (filter (test j.parked) j.pending)

  passing-Pushed : (e : JournalEntry) (j k : Journal) → Pushed e j k → passing k ≤ passing j + 1
  passing-Pushed e j k (parked, inl same) = rw (parked, same) (omega arith)
  passing-Pushed e j k (parked, inr (kept, pushed)) =
      rw (parked, pushed) (length-push (test j.parked) kept e j.pending)

  passing-append :
      (io : AppendIo) (e : JournalEntry) (j : Journal) → passing (append io e j).0 ≤ passing j + 1
  passing-append io e j = passing-Pushed (numbered e j) j (append io e j).0 (append-Pushed io e j)

  pub passing-append_all :
      (appends : List (AppendIo × JournalEntry)) (j : Journal)
      → passing (append_all appends j) ≤ passing j + length appends
  unfolding append_all
  passing-append_all [] j = omega arith
  passing-append_all ((io, e) ∷ appends) j =
      omega (arith, passing-append_all appends (append io e j).0, passing-append io e j)

pub left-append_all :
    (appends : List (AppendIo × JournalEntry)) (j : Journal)
    → left (append_all appends j) ≤ left j + length appends
unfolding left
left-append_all appends j = passing-append_all (λ parked e. not (has e.seq parked)) appends j

-- An entry that waits and is another
abbrev is_other : ℕ → List ℕ → JournalEntry → Bool
is_other seq parked e = not (e.seq == seq) && not (has e.seq parked)

-- What is left but for an entry
abbrev pub left_but : ℕ → Journal → ℕ
left_but seq = passing (is_other seq)

filter-is_other :
    (seq : ℕ) (parked : List ℕ) (es : List JournalEntry)
    → filter (is_other seq parked) es ≡ left_of parked (others seq es)
filter-is_other seq parked [] = refl
filter-is_other seq parked (e ∷ es) = elim (Bool-cases (e.seq == seq)) [
  | inl s ↦ simp s (filter-is_other seq parked es)
  | inr s ↦ elim (Bool-cases (has e.seq parked)) [
    | inl h ↦ simp (s, h) (filter-is_other seq parked es)
    | inr h ↦ simp (s, h) (ap (λ l. e ∷ l) (filter-is_other seq parked es))
  ]
]

left_but-peek : (e : JournalEntry) (j : Journal) → peek j ≡ some e → left_but e.seq j < left j
unfolding left peek
left_but-peek e j p =
    rw (filter-is_other e.seq j.parked j.pending) (left-others e j.parked j.pending p)

left_of-add :
    (seq : ℕ) (parked : List ℕ) (es : List JournalEntry)
    → length (left_of (add seq parked) es) ≤ length (filter (is_other seq parked) es)
left_of-add seq parked [] = omega arith
left_of-add seq parked (e ∷ es) =
    let rest : length (left_of (add seq parked) es) ≤ length (filter (is_other seq parked) es) =
      left_of-add seq parked es in
    elim (Bool-cases (is_other seq parked e)) [
      | inl o ↦ elim (Bool-cases (has e.seq (add seq parked))) [
        | inl k ↦ simp (o, k) (omega (arith, rest))
        | inr k ↦ simp (o, k) (omega (arith, rest))
      ]
      | inr o ↦
          let k : has e.seq (add seq parked) ≡ true = ground (arith, has-add seq e.seq parked, o) in
          simp (o, k) rest
    ]

-- Whatever is appended after `Peek`, acknowledging or parking what it found leaves less to do than
-- there was with all that is appended.
module _ (e : JournalEntry) (j : Journal) (appends : List (AppendIo × JournalEntry))
    (p : peek j ≡ some e) where
  others_left : left_but e.seq (append_all appends j) < left j + length appends
  others_left = omega (arith, left_but-peek e j p, passing-append_all (is_other e.seq) appends j)

  pub left-ack_all :
      (io : CompactIo) → left (ack io e.seq (append_all appends j)).0 < left j + length appends
  unfolding left
  left-ack_all io =
      let k = append_all appends j in
      let same : length (left_of k.parked (others e.seq k.pending)) ≡ left_but e.seq k =
        ap length (sym (filter-is_other e.seq k.parked k.pending)) in
      rw (ack-pending io e.seq k, ack-parked io e.seq k) (omega (arith, same, others_left))

  pub left-park_all : left (park e.seq (append_all appends j)) < left j + length appends
  unfolding left park
  left-park_all =
      let k = append_all appends j in
      omega (arith, left_of-add e.seq k.parked k.pending, others_left)
