-- ===== src/Journal/Barrier.antt =====
-- The two forms of the flush barrier, and the selection of paths.
use livegit.Prelude.{
  ℕ, ◌+◌, ◌%◌, ◌^◌, ◌≤◌, ◌<◌, ◌≡◌, refl, ◌∙◌, Bool, true, false, not, ◌&&◌, ◌||◌, List, [], ◌∷◌,
  ◌++◌, arith, inl, inr, ◌⊎◌, ◌↔◌, Bool-cases, any, has, ◌==◌, nat_eq, bytes_eq, bytes_beq_iff,
  eqb_iff, Bytes, filter,
}
use mathlib.Core.List.{foldl}
use livegit.Prefix.{has_path_prefix, has_path_prefix_iff, Below}
use livegit.Journal.{
  JournalEntry, Journal, Line, blank, torn, part, entry, unended, load_entry, append_done, load,
  load_line, Loaded, open_journal, is_write, parked_count, coalesce, append, append_numbered,
  signal, pending_for_dir, scan_pending_dir, targets, select_rels,
}
use livegit.Journal.Coalesce.{supersedes, coalesce-eq-filter}
use livegit.Journal.History.{Reach, Reach-Sound, Sound-empty}

-- The entry's path is one of the paths or lies below one.
abbrev pub Selected : List Bytes → Bytes → Type 0
Selected [] rel = ⊥
Selected (r ∷ rels) rel = (rel ≡ r) ⊎ ((r ≡ []) ⊎ Below rel r) ⊎ Selected rels rel

module _ (e : JournalEntry) where
  abbrev below_any : List Bytes → Bool
  below_any rels = any (λ r. e.rel == r || has_path_prefix e.rel r) rels

  below_any_iff : (rels : List Bytes) → (below_any rels ≡ true) ↔ Selected rels e.rel
  below_any_iff [] = (λ h. absurd (ground arith), λ h. absurd h)
  below_any_iff (r ∷ rels) = (
    λ h. elim (Bool-cases (e.rel == r)) [
      | inl p ↦ inl ((bytes_beq_iff e.rel r).0 p)
      | inr p ↦ elim (Bool-cases (has_path_prefix e.rel r)) [
        | inl q ↦ inr (inl ((has_path_prefix_iff e.rel r).0 q))
        | inr q ↦ inr (inr ((below_any_iff rels).0 (ground arith)))
      ]
    ],
    λ s. elim s [
      | inl p ↦ rw ((bytes_beq_iff e.rel r).1 p)
      | inr (inl q) ↦ ground (arith, (has_path_prefix_iff e.rel r).1 q)
      | inr (inr q) ↦ ground (arith, (below_any_iff rels).1 q)
    ],
  )

  -- A list of paths selects exactly the entries at or under one of them, and the empty list
  -- selects every entry.
  pub select_rels_iff :
      (rels : List Bytes) → (select_rels rels e ≡ true) ↔ ((rels ≡ []) ⊎ Selected rels e.rel)
  unfolding select_rels
  select_rels_iff [] = (λ _. inl refl, λ _. refl)
  select_rels_iff (r ∷ rels) = (
    λ h. inr ((below_any_iff (r ∷ rels)).0 h),
    λ s. elim s [ inl p ↦ absurd (ground arith) | inr q ↦ (below_any_iff (r ∷ rels)).1 q ],
  )

-- Whether the question `targets dir` is answered yes by some entry's path.
abbrev at_dir : Bytes → List JournalEntry → Bool
at_dir dir es = any (targets dir) es

targets-same_rel :
    (dir : Bytes) (p q : JournalEntry) → q.rel ≡ p.rel → targets dir q ≡ targets dir p
unfolding targets
targets-same_rel dir p q e = rw e

at_dir-same_rel :
    (dir : Bytes) (p : JournalEntry) (qs : List JournalEntry)
    → targets dir p ≡ true
    → any (λ e. e.rel == p.rel) qs ≡ true
    → at_dir dir qs ≡ true
at_dir-same_rel dir p [] t k = absurd (ground arith)
at_dir-same_rel dir p (q ∷ qs) t k = elim (Bool-cases (q.rel == p.rel)) [
  | inl m ↦ rw (targets-same_rel dir p q ((bytes_beq_iff q.rel p.rel).0 m) ∙ t)
  | inr m ↦ ground (arith, at_dir-same_rel dir p qs t)
]

-- If every path of one list stands in another, so does every yes.
at_dir-covers :
    (dir : Bytes) (ps qs : List JournalEntry)
    → ((rel : Bytes) → any (λ e. e.rel == rel) ps ≡ true → any (λ e. e.rel == rel) qs ≡ true)
    → at_dir dir ps ≡ true
    → at_dir dir qs ≡ true
at_dir-covers dir [] qs c h = absurd (ground arith)
at_dir-covers dir (p ∷ ps) qs c h = elim (Bool-cases (targets dir p)) [
  | inl t ↦ at_dir-same_rel dir p qs t (c p.rel (rw ((bytes_beq_iff p.rel p.rel).1 refl)))
  | inr t ↦ at_dir-covers dir ps qs (λ rel k. c rel (ground (arith, k))) (ground arith)
]

at_dir-filter :
    (dir : Bytes) (p : JournalEntry → Bool) (es more : List JournalEntry)
    → at_dir dir (filter p es ++ more) ≡ true
    → (at_dir dir es || at_dir dir more) ≡ true
at_dir-filter dir p [] more h = h
at_dir-filter dir p (e ∷ es) more h = ground (arith, at_dir-filter dir p es more)

-- What is loaded stands in a line that the scan passes.
foldl-scan :
    (dir : Bytes) (l : Loaded) (xs : List Line)
    → at_dir dir (foldl load_line l xs).pending ≡ true
    → (at_dir dir l.pending || scan_pending_dir xs dir) ≡ true
unfolding load_line load_entry scan_pending_dir
foldl-scan dir l [] h = ground arith
foldl-scan dir l (blank ∷ xs) h = foldl-scan dir l xs h
foldl-scan dir l (torn ∷ xs) h = foldl-scan dir l xs h
foldl-scan dir l (part ∷ xs) h = foldl-scan dir l xs h
foldl-scan dir l (entry e ∷ xs) h = ground (
  arith,
  foldl-scan dir (load_line l (entry e)) xs h,
  coalesce-eq-filter e l.pending,
  at_dir-filter dir (λ p. not (supersedes e p)) l.pending (e ∷ []),
)
foldl-scan dir l (unended e ∷ xs) h = ground (
  arith,
  foldl-scan dir (load_line l (unended e)) xs h,
  coalesce-eq-filter e l.pending,
  at_dir-filter dir (λ p. not (supersedes e p)) l.pending (e ∷ []),
)

at_dir-pending :
    (dir : Bytes) (parked : List ℕ) (ps : List JournalEntry)
    → any (λ e. not (has e.seq parked) && targets dir e) ps ≡ true
    → at_dir dir ps ≡ true
at_dir-pending dir parked [] h = h
at_dir-pending dir parked (p ∷ ps) h = ground (arith, at_dir-pending dir parked ps)

-- Whatever has happened to a journal since its file was empty, where its own barrier still waits
-- for a directory, the scan of its file by another process reports work there as well, as long as
-- the 64-bit counter has not wrapped and no append has found the file ending in a text that a
-- failed write left without its newline.
pub pending_for_dir→scan :
    (j : Journal) (dir : Bytes)
    → Reach (open_journal []) j
    → pending_for_dir dir j ≡ true
    → scan_pending_dir j.disk dir ≡ true
unfolding pending_for_dir
pending_for_dir→scan j dir r h =
    foldl-scan dir (record { pending = []; next_seq = 0 }) j.disk
      (unfold load in
        at_dir-covers dir j.pending _ (Reach-Sound r Sound-empty).covers
          (at_dir-pending dir j.parked j.pending h))

-- A parked write that a new write of its path takes the place of leaves the queue, and is still
-- counted as parked where no entry of the queue is.
pub parked_count-append :
    (p e : JournalEntry) (j : Journal)
    → j.is_open ≡ true
    → j.pending ≡ p ∷ []
    → j.parked ≡ p.seq ∷ []
    → p.seq ≤ j.next_seq
    → j.next_seq + 1 < 2 ^ 64
    → p.rel ≡ e.rel
    → is_write p.op ≡ true
    → is_write e.op ≡ true
    → let j' = (append append_done e j).0 in
      (parked_count j' ≡ 1) × (any (λ x. has x.seq j'.parked) j'.pending ≡ false)
unfolding append append_numbered signal parked_count coalesce has
parked_count-append p e j o q k le fits same wp we =
    let n : (j.next_seq + 1) % 2 ^ 64 ≡ j.next_seq + 1 = omega arith in
    rw (o, n, q, k, we) (ground (arith, bytes_beq_iff p.rel e.rel, eqb_iff p.seq (j.next_seq + 1)))
