-- ===== src/Journal/Samples.antt =====
-- The journal at small inputs.
use livegit.Prelude.{
  ◌+◌, ◌%◌, ◌^◌, List, true, ◌≡◌, refl, some, [], ◌∷◌, arith, codes, bytes_eq, nat_eq, bytes_beq,
  has, add,
}
use livegit.Journal.Fused.{but_last, append-but_last}
use livegit.Journal.{
  append_part_written, ends, write_line, JournalEntry, Journal, op_write, op_delete, append,
  append_done, compact_tmp_failed, ack, open_journal, load, has_pending, park, peek, coalesce,
  append_numbered, signal, entry, torn,
}
use livegit.Journal.Coalesce.{IsCoalesced}
use livegit.Journal.History.{
  Reach, here, next, appends, acks, Sound, Step-Sound, Reach-Sound, Sound-empty,
  has_pending-open_journal,
}
use livegit.Journal.Queue.{stored}
use livegit.Journal.Refine.{
  QueueReach, queue_of, Called, Call, call_none, call_more, call_append, call_park, IsOldest,
  Called-QueueReach,
}

abbrev write_a : JournalEntry
write_a = record {
  seq = 0;
  rel = codes "a";
  op = op_write;
  base_hash = [];
  mod_time = 7;
  mode = 420;
  ts = 7;
}

abbrev delete_b : JournalEntry
delete_b = record {
  seq = 0;
  rel = codes "d/b";
  op = op_delete;
  base_hash = [];
  mod_time = 8;
  mode = 0;
  ts = 8;
}

abbrev empty : Journal
empty = open_journal []

abbrev one : Journal
one = (append append_done write_a empty).0

abbrev two : Journal
two = (append append_done delete_b one).0

Reach-one : Reach empty one
Reach-one = next here (
    appends append_done write_a empty (unfold open_journal load in omega arith)
      (unfold open_journal in unfold ends in refl))

Reach-two : Reach empty two
Reach-two = next Reach-one (
    appends append_done delete_b one
      (unfold append append_numbered signal open_journal load in omega arith)
      (unfold append append_numbered signal open_journal load write_line ends in refl))

writes_coalesce :
    (append append_done write_a two).0.pending
    ≡ record delete_b { seq = 2 } ∷ record write_a { seq = 3 } ∷ []
unfolding append open_journal load coalesce bytes_beq
writes_coalesce = refl

torn_lines :
    (open_journal
      (torn ∷ entry (record write_a { seq = 5 }) ∷ entry (record write_a { seq = 9 }) ∷ [])).pending
    ≡ record write_a { seq = 9 } ∷ []
unfolding open_journal coalesce bytes_beq
torn_lines = refl

has_pending-open_journal_example : has_pending (codes "d/b") (open_journal two.disk) ≡ true
has_pending-open_journal_example =
    has_pending-open_journal two (codes "d/b") Reach-two
      (unfold has_pending append open_journal load coalesce bytes_beq in refl)

Step-Sound_example : Sound (ack compact_tmp_failed 1 two).0
Step-Sound_example = Step-Sound (acks compact_tmp_failed 1 two) (Reach-Sound Reach-two Sound-empty)

two-IsCoalesced : IsCoalesced two.pending
two-IsCoalesced = (Reach-Sound Reach-two Sound-empty).queue.coalesced

parked_is_skipped : peek (park 1 two) ≡ some (record delete_b { seq = 2 })
unfolding peek park append open_journal load coalesce add has
parked_is_skipped = refl

abbrev parked_write : Journal
parked_write = park 1 one

abbrev calls : List Call
calls = call_park 1 ∷ call_append delete_b ∷ call_append write_a ∷ []

Called-parked : Called calls (park 1 two)
Called-parked =
    call_more (call_park 1)
      (call_more (call_append delete_b)
        (call_more (call_append write_a) call_none (unfold open_journal load in omega arith))
        (unfold append append_numbered signal open_journal load in omega arith))
      (unfold append append_numbered signal open_journal load in omega arith)

Called-QueueReach_example :
    QueueReach calls (queue_of (park 1 two))
    × (stored (park 1 two) ≡ (queue_of (park 1 two)).entries)
    × IsOldest (queue_of (park 1 two)) (peek (park 1 two))
Called-QueueReach_example = Called-QueueReach calls (park 1 two) Called-parked

-- A write that broke off, and an append after it
abbrev broken_off : Journal
broken_off = (append append_part_written write_a empty).0

append-but_last_example :
    let (j', answer) = append append_done delete_b broken_off in
    (answer ≡ some ((broken_off.next_seq + 1) % 2 ^ 64))
    × (has_pending (codes "d/b") j' ≡ true)
    × ((open_journal j'.disk).pending ≡ (open_journal (but_last broken_off.disk)).pending)
unfolding append append_numbered signal open_journal ends write_line
append-but_last_example = append-but_last delete_b broken_off refl refl
