-- ===== src/Flush/Progress.antt =====
-- What one call of `flushEntry`, internal/fuse/flush.go, does to the queue, and how much of the
-- queue is left to do.
use mathlib.Core.Path.{subst}
use livegit.Remote.{WriteAck}
use livegit.Prelude.{
  Option, none, sym, ap, ◌∙◌, ℕ, ◌≤◌, ◌<◌, Bool, true, false, not, ◌≡◌, refl, ◌∙◌, ◌⊎◌, inl, inr,
  arith, some, List, [], ◌∷◌, Bytes, ◌==◌, bytes_eq, nat_eq, length, filter, Bool-cases,
  Option-cases, has, add, has-add, lookup,
}
use livegit.Paths.{rel}
use livegit.Journal.{
  JournalEntry, JournalOp, Journal, CompactIo, compact_done, compact_tmp_failed,
  compact_rename_failed, compact_reopen_failed, op_write, op_delete, op_create, op_mkdir, op_other,
  ack, compact, park, peek, peek_pending,
}
use livegit.Upload.{LocalFile}
use livegit.Flush.{
  DelAck, SourceRpc, Ghost, FlushIo, ignored, mkdir_req, delete_req, write_req, ack_entry,
  flush_mkdir, flush_delete, flush_write, flush_cached, flush_entry,
}

-- The entries that wait and are not parked.
abbrev pub left_of : List ℕ → List JournalEntry → List JournalEntry
left_of parked es = filter (λ e. not (has e.seq parked)) es

unfoldable pub left : Journal → ℕ
left j = length (left_of j.parked j.pending)

abbrev pub others : ℕ → List JournalEntry → List JournalEntry
others seq es = filter (λ e. not (e.seq == seq)) es

others-le :
    (seq : ℕ) (parked : List ℕ) (es : List JournalEntry)
    → length (left_of parked (others seq es)) ≤ length (left_of parked es)
others-le seq parked [] = omega arith
others-le seq parked (e ∷ es) =
    let rest : length (left_of parked (others seq es)) ≤ length (left_of parked es) =
      others-le seq parked es in
    elim (Bool-cases (e.seq == seq)) [
      | inl s ↦ elim (Bool-cases (has e.seq parked)) [
        | inl h ↦ simp (s, h) rest
        | inr h ↦ simp (s, h) (omega (arith, rest))
      ]
      | inr s ↦ elim (Bool-cases (has e.seq parked)) [
        | inl h ↦ simp (s, h) rest
        | inr h ↦ simp (s, h) (omega (arith, rest))
      ]
    ]

parked-le :
    (seq : ℕ) (parked : List ℕ) (es : List JournalEntry)
    → length (left_of (add seq parked) es) ≤ length (left_of parked es)
parked-le seq parked [] = omega arith
parked-le seq parked (e ∷ es) =
    let rest : length (left_of (add seq parked) es) ≤ length (left_of parked es) =
      parked-le seq parked es in
    elim (Bool-cases (has e.seq parked)) [
      | inl h ↦ elim (Bool-cases (has e.seq (add seq parked))) [
        | inl k ↦ simp (h, k) rest
        | inr k ↦ absurd (ground (arith, has-add seq e.seq parked, h, k))
      ]
      | inr h ↦ elim (Bool-cases (has e.seq (add seq parked))) [
        | inl k ↦ simp (h, k) (omega (arith, rest))
        | inr k ↦ simp (h, k) (omega (arith, rest))
      ]
    ]

-- Taking the head of the queue out leaves less to do.
pub left-others :
    (e : JournalEntry) (parked : List ℕ) (es : List JournalEntry)
    → peek_pending parked es ≡ some e
    → length (left_of parked (others e.seq es)) < length (left_of parked es)
unfolding peek_pending
left-others e parked [] p = absurd (ground arith)
left-others e parked (x ∷ es) p = elim (Bool-cases (has x.seq parked)) [
  | inl h ↦
      let rest : length (left_of parked (others e.seq es)) < length (left_of parked es) =
        left-others e parked es (ground (arith, p, h)) in
      elim (Bool-cases (x.seq == e.seq)) [ inl s ↦ simp (s, h) rest | inr s ↦ simp (s, h) rest ]
  | inr h ↦
      let same : (x.seq == e.seq) ≡ true = ground (arith, p, h) in
      simp (h, same) (omega (arith, others-le e.seq parked es))
]

pub ack-pending :
    (io : CompactIo) (seq : ℕ) (j : Journal) → (ack io seq j).0.pending ≡ others seq j.pending
unfolding ack compact
ack-pending compact_done seq j = refl
ack-pending compact_tmp_failed seq j = refl
ack-pending compact_rename_failed seq j = refl
ack-pending compact_reopen_failed seq j = refl

pub ack-parked : (io : CompactIo) (seq : ℕ) (j : Journal) → (ack io seq j).0.parked ≡ j.parked
unfolding ack compact
ack-parked compact_done seq j = refl
ack-parked compact_tmp_failed seq j = refl
ack-parked compact_rename_failed seq j = refl
ack-parked compact_reopen_failed seq j = refl

pub left-ack :
    (io : CompactIo) (e : JournalEntry) (j : Journal)
    → peek j ≡ some e
    → left (ack io e.seq j).0 < left j
unfolding left peek
left-ack io e j p =
    rw (ack-pending io e.seq j, ack-parked io e.seq j) (left-others e j.parked j.pending p)

pub left-park-le : (seq : ℕ) (j : Journal) → left (park seq j) ≤ left j
unfolding left park
left-park-le seq j = parked-le seq j.parked j.pending

abbrev file_or : LocalFile → Option LocalFile → LocalFile
file_or f none = f
file_or f (some h) = h

module _ {R : Type 0} (source : SourceRpc R) (matches : Bytes → Bool) (io : FlushIo)
    (e : JournalEntry) (g : Ghost R) where
  -- Source answered, for each kind of entry: to a content, or none is left in the cache.
  abbrev Sent : JournalOp → Type 0
  Sent op_mkdir = (a : WriteAck) × ((source.write (mkdir_req e) g.source).1 ≡ some a)
  Sent op_delete = (a : DelAck) × ((source.delete (delete_req e) g.source).1 ≡ some a)
  Sent _ =
      (io.stat_ok ≡ true)
      × ((lookup (rel e.rel) g.cache ≡ none)
          ⊎ ((f : LocalFile) × (a : WriteAck) × (lookup (rel e.rel) g.cache ≡ some f)
              × ((source.write_file (write_req e) f g.source).1 ≡ some a)))

  -- The entry is of an ignored path, or was sent.
  abbrev pub Settled : Type 0
  Settled = (ignored source matches e.rel ≡ true) ⊎ Sent e.op

  -- The entry is not settled and the journal is as it was, or it is and was acknowledged.
  abbrev AckedIf : Type 0 → Ghost R × Bool → Type 0
  AckedIf Done r =
      ((Done → ⊥) × ((r.1 ≡ false) × (r.0.journal ≡ g.journal)))
      ⊎ (Done
          × ((r.1 ≡ (ack io.compact e.seq g.journal).1)
              × (r.0.journal ≡ (ack io.compact e.seq g.journal).0)))

  abbrev pub Acked : Ghost R × Bool → Type 0
  Acked = AckedIf Settled

  none-some : {A : Type 0} {o : Option A} {a : A} → o ≡ none → o ≡ some a → ⊥
  none-some n s = cc (n, s)

  flush_mkdir-Acked : AckedIf (Sent op_mkdir) (flush_mkdir source matches io e g)
  unfolding flush_mkdir ack_entry
  flush_mkdir-Acked = elim (Option-cases (source.write (mkdir_req e) g.source).1) [
    | inl n ↦ inl (λ (a, s). none-some n s, rw (flush_mkdir, n) (refl, refl))
    | inr (a, s) ↦ inr ((a, s), rw (flush_mkdir, s) (refl, refl))
  ]

  flush_delete-Acked : AckedIf (Sent op_delete) (flush_delete source matches io e g)
  unfolding flush_delete ack_entry
  flush_delete-Acked = elim (Option-cases (source.delete (delete_req e) g.source).1) [
    | inl n ↦ inl (λ (a, s). none-some n s, rw (flush_delete, n) (refl, refl))
    | inr (a, s) ↦ inr ((a, s), rw (flush_delete, s) (refl, refl))
  ]

  same_file : {f h : LocalFile} {o : Option LocalFile} → o ≡ some f → o ≡ some h → h ≡ f
  same_file {f} s t = sym (ap (file_or f) t) ∙ ap (file_or f) s

  flush_write-Acked :
      (f : LocalFile)
      → io.stat_ok ≡ true
      → lookup (rel e.rel) g.cache ≡ some f
      → AckedIf (Sent op_write) (flush_write source matches io e f g)
  unfolding flush_write ack_entry
  flush_write-Acked f ok found =
      elim (Option-cases (source.write_file (write_req e) f g.source).1) [
        | inl n ↦ inl (
          λ (_, s). elim s [
            | inl gone ↦ none-some gone found
            | inr (h, a, t, sent) ↦ none-some n (
                ap (λ x. (source.write_file (write_req e) x g.source).1) (sym (same_file found t))
                ∙ sent)
          ],
          rw (flush_write, n) (refl, refl),
        )
        | inr (a, s) ↦ inr ((ok, inr (f, a, found, s)), rw (flush_write, s) (refl, refl))
      ]

  flush_cached-Acked : AckedIf (Sent op_write) (flush_cached source matches io e g)
  unfolding flush_cached ack_entry
  flush_cached-Acked = elim (Bool-cases io.stat_ok) [
    | inr n ↦ inl (λ (y, _). ground (arith, n, y), simp n (refl, refl))
    | inl y ↦ elim (Option-cases (lookup (rel e.rel) g.cache)) [
      | inl n ↦ inr ((y, inl n), simp (y, n) (refl, refl))
      | inr (f, s) ↦
          let step : flush_cached source matches io e g ≡ flush_write source matches io e f g =
            simp (y, s) refl in
          subst (AckedIf (Sent op_write)) (sym step) (flush_write-Acked f y s)
    ]
  ]

  abbrev flush_op : JournalOp → Ghost R × Bool
  flush_op op = elim op [
    | op_mkdir ↦ flush_mkdir source matches io e g
    | op_delete ↦ flush_delete source matches io e g
    | _ ↦ flush_cached source matches io e g
  ]

  flush_op-Acked : (op : JournalOp) → AckedIf (Sent op) (flush_op op)
  flush_op-Acked op_mkdir = flush_mkdir-Acked
  flush_op-Acked op_delete = flush_delete-Acked
  flush_op-Acked op_write = flush_cached-Acked
  flush_op-Acked op_create = flush_cached-Acked
  flush_op-Acked (op_other o) = flush_cached-Acked

  weaken :
      (r : Ghost R × Bool) → ignored source matches e.rel ≡ false → AckedIf (Sent e.op) r → Acked r
  weaken r n (inl (unsent, rest)) =
      inl (λ s. elim s [ inl y ↦ ground (arith, n, y) | inr sent ↦ unsent sent ], rest)
  weaken r n (inr (sent, rest)) = inr (inr sent, rest)

  -- An entry is acknowledged, and no other with it, exactly if its path is ignored, Source answered
  -- the call for it, or it is neither a mkdir nor a delete and its file is found to be gone from the
  -- cache; else the flush fails and leaves the journal as it was.
  pub flush_entry-Acked : Acked (flush_entry source matches io e g)
  unfolding flush_entry ack_entry
  flush_entry-Acked = elim (Bool-cases (ignored source matches e.rel)) [
    | inl y ↦ inr (inl y, rw y (refl, refl))
    | inr n ↦
        let step : flush_entry source matches io e g ≡ flush_op e.op = rw (flush_entry, n) refl in
        subst Acked (sym step) (weaken (flush_op e.op) n (flush_op-Acked e.op))
  ]
