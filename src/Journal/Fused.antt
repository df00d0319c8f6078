-- ===== src/Journal/Fused.antt =====
-- An append behind a text that no newline ends, internal/fuse/journal.go.
use livegit.Prelude.{
  ◌+◌, ◌%◌, ◌^◌, ◌≡◌, refl, ap, ◌∙◌, true, false, arith, some, List, [], ◌∷◌, ◌++◌, nat_eq,
  bytes_eq, bytes_beq_refl,
}
use livegit.Journal.{
  JournalEntry, Journal, Line, torn, entry, is_ended, ends, fused, write_line, load, load_line,
  open_journal, append, append_numbered, append_done, signal, has_pending,
}
use livegit.Journal.History.{names-push}
use livegit.Journal.Replay.{load-snoc}

-- The lines but the last
abbrev pub but_last : List Line → List Line
but_last [] = []
but_last (x ∷ []) = []
but_last (x ∷ y ∷ xs) = x ∷ but_last (y ∷ xs)

write_line-fused :
    (disk : List Line) (e : JournalEntry)
    → ends disk ≡ false
    → write_line disk (entry e) ≡ but_last disk ++ torn ∷ []
unfolding write_line ends is_ended fused
write_line-fused [] e h = cc
write_line-fused (x ∷ []) e h = rw h refl
write_line-fused (x ∷ y ∷ xs) e h = ap (λ l. x ∷ l) (write_line-fused (y ∷ xs) e h)

load-fused :
    (disk : List Line) (e : JournalEntry)
    → ends disk ≡ false
    → load (write_line disk (entry e)) ≡ load (but_last disk)
load-fused disk e h =
    ap load (write_line-fused disk e h)
    ∙ load-snoc (but_last disk) torn
    ∙ (unfold load_line in refl)

-- Where the file of an open journal ends in a text without its newline, an append whose write and
-- sync go well is answered with its number and queues its entry, and yet the file holds neither the
-- entry nor what the text stood for: opened again, it gives the queue of the lines before that text.
pub append-but_last :
    (e : JournalEntry) (j : Journal)
    → j.is_open ≡ true
    → ends j.disk ≡ false
    → let (j', answer) = append append_done e j in
      (answer ≡ some ((j.next_seq + 1) % 2 ^ 64))
      × (has_pending e.rel j' ≡ true)
      × ((open_journal j'.disk).pending ≡ (open_journal (but_last j.disk)).pending)
unfolding append append_numbered signal has_pending open_journal
append-but_last e j o h = rw o (
  refl,
  names-push e.rel _ j.pending ∙ rw (bytes_beq_refl e.rel) (ground arith),
  ap (λ l. l.pending) (load-fused j.disk _ h),
)
