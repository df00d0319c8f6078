-- ===== src/Cli/Drop.antt =====
-- A drop by way of the mount and a drop without one, internal/cli/pending.go.
use mathlib.Core.List.{foldl}
use livegit.Prelude.{
  IsWithout, ℕ, ◌≡◌, refl, sym, ap, ◌∙◌, Bool, true, not, arith, none, some, Option, List, [], ◌∷◌,
  Bytes, bytes_eq, All, length, map, filter,
}
use livegit.Ignore.{trim_space}
use livegit.Journal.{
  JournalEntry, Journal, Line, entry, CompactIo, compact_done, compact, load, open_journal,
  drop_entries, select_rels,
}
use livegit.Journal.History.{drop_loop_lem}
use livegit.Backend.{Backend, Cache, drop_pending, drop_entry, drop_content}
use livegit.Cli.{
  SignalIo, line_break, take_requests, request_file, drop_by_mount, drop_copy, after_drop,
  drop_offline,
}
use livegit.Cli.Requests.{IsPlain, take_requests-request_text, take_requests-blank}

-- What a drop leaves of a queue, and its file and number of entries when compaction goes well.
abbrev left_of : List Bytes → List JournalEntry → List JournalEntry
left_of rels es = filter (λ e. not (select_rels rels e)) es

drop_entries-done :
    (rels : List Bytes) (j : Journal)
    → ((drop_entries compact_done (select_rels rels) j).0.disk ≡ map entry (left_of rels j.pending))
      × ((drop_entries compact_done (select_rels rels) j).0.pending ≡ left_of rels j.pending)
      × ((drop_entries compact_done (select_rels rels) j).1
          ≡ (filter (select_rels rels) j.pending, true))
unfolding drop_entries compact
drop_entries-done rels j =
    let (k, d) =
      drop_loop_lem (select_rels rels) j.pending
        (record { dropped = []; kept = []; parked = j.parked }) in
    (rw k refl, k, ap (λ x. (x, true)) d)

cache-drop_entry : (b : Backend) (e : JournalEntry) → (drop_entry b e).cache ≡ drop_copy b.cache e
unfolding drop_entry drop_copy drop_content
cache-drop_entry b e = ground arith

cache-foldl :
    (es : List JournalEntry) (b : Backend) (c : Cache)
    → b.cache ≡ c
    → (foldl drop_entry b es).cache ≡ foldl drop_copy c es
cache-foldl [] b c same = same
cache-foldl (e ∷ es) b c same =
    cache-foldl es (drop_entry b e) (drop_copy c e)
      (cache-drop_entry b e ∙ ap (λ x. drop_copy x e) same)

journal-drop_entry : (b : Backend) (e : JournalEntry) → (drop_entry b e).journal ≡ b.journal
unfolding drop_entry drop_content
journal-drop_entry b e = ground arith

journal-foldl : (es : List JournalEntry) (b : Backend) → (foldl drop_entry b es).journal ≡ b.journal
journal-foldl [] b = refl
journal-foldl (e ∷ es) b = journal-foldl es (drop_entry b e) ∙ journal-drop_entry b e

module _ (rels : List Bytes) (b : Backend) where
  -- What a drop by the mount's backend leaves
  abbrev Dropped : Backend × ℕ → Type 0
  Dropped r =
      (r.0.journal.disk ≡ map entry (left_of rels b.journal.pending))
      × (r.0.journal.pending ≡ left_of rels b.journal.pending)
      × (r.0.cache ≡ foldl drop_copy b.cache (filter (select_rels rels) b.journal.pending))
      × (r.1 ≡ length (filter (select_rels rels) b.journal.pending))

  drop_pending-Dropped : Dropped (drop_pending compact_done rels b)
  unfolding drop_pending
  drop_pending-Dropped =
      let (disk, pending, rest) = drop_entries-done rels b.journal in
      let (j, ds) = drop_entries compact_done (select_rels rels) b.journal in
      let same = journal-foldl ds.0 (record b { journal = j }) in
      (
        ap (λ x. x.disk) same ∙ disk,
        ap (λ x. x.pending) same ∙ pending,
        cache-foldl ds.0 (record b { journal = j }) b.cache refl
            ∙ ap (λ x. foldl drop_copy b.cache x.0) rest,
        ap (λ x. length x.0) rest,
      )

none_left : (es : List JournalEntry) → left_of [] es ≡ []
unfolding select_rels
none_left [] = refl
none_left (e ∷ es) = none_left es

all_taken : (es : List JournalEntry) → filter (select_rels []) es ≡ es
unfolding select_rels
all_taken [] = refl
all_taken (e ∷ es) = ap (λ x. e ∷ x) (all_taken es)

after_drop_lem :
    (x : Journal × (List JournalEntry × Bool)) (c : Cache) (lines : List Line)
    (es : List JournalEntry)
    → x.0.disk ≡ lines
    → x.1 ≡ (es, true)
    → after_drop x c ≡ ((lines, foldl drop_copy c es), (length es, true))
unfolding after_drop
after_drop_lem (j, rest) c lines es disk e = rw (e, after_drop, disk) refl

drop_offline_lem :
    (rels : List Bytes) (lines : List Line) (c : Cache)
    → drop_offline compact_done rels lines c ≡ (
      (
        map entry (left_of rels (load lines).pending),
        foldl drop_copy c (filter (select_rels rels) (load lines).pending),
      ),
      (length (filter (select_rels rels) (load lines).pending), true),
    )
unfolding drop_offline open_journal
drop_offline_lem rels lines c =
    let (disk, pending, rest) = drop_entries-done rels (open_journal lines) in
    after_drop_lem (drop_entries compact_done (select_rels rels) (open_journal lines)) c _ _ disk
      rest

asked : (rels : List Bytes) → All IsPlain rels → take_requests (request_file none rels) ≡ rels
unfolding take_requests
asked [] h = refl
asked (r ∷ rels) h = take_requests-request_text (r ∷ rels) h

answered :
    (sio : SignalIo) (io : CompactIo) (old : Option Bytes) (rels : List Bytes) (b : Backend) {n : ℕ}
    → (drop_by_mount sio io old rels b).1 ≡ some n
    → ((drop_by_mount sio io old rels b).0
        ≡ (drop_pending io (take_requests (request_file old rels)) b).0)
      × ((drop_pending io (take_requests (request_file old rels)) b).1 ≡ n)
unfolding drop_by_mount
answered sio io old rels b h = ground (arith, h)

-- A drop that the running mount answers and a drop without the mount leave the same queue in the
-- journal's file and the same cached copies, and count the same entries, if the queue is that in its
-- file, the file is compacted, no old request is there, and no path given is empty, holds a line
-- break, or starts or ends with white space.
pub drop_by_mount-drop_offline :
    (sio : SignalIo) (rels : List Bytes) (b : Backend) {n : ℕ}
    → All IsPlain rels
    → (load b.journal.disk).pending ≡ b.journal.pending
    → (drop_by_mount sio compact_done none rels b).1 ≡ some n
    → drop_offline compact_done rels b.journal.disk b.cache ≡ (
      (
        (drop_by_mount sio compact_done none rels b).0.journal.disk,
        (drop_by_mount sio compact_done none rels b).0.cache,
      ),
      (n, true),
    )
drop_by_mount-drop_offline sio rels b plain same h =
    let (after, count) = answered sio compact_done none rels b h in
    let (disk, pending, cache, number) = drop_pending-Dropped rels b in
    drop_offline_lem rels b.journal.disk b.cache
    ∙ rw (same, after, asked rels plain, ← count, asked rels plain, disk, cache, number) refl

-- The mount takes a drop of one path that is made of white space alone, once it answers, as a drop
-- of the whole queue, whatever else is queued.
pub drop_by_mount-blank :
    (sio : SignalIo) (r : Bytes) (b : Backend) {n : ℕ}
    → IsWithout line_break r
    → trim_space r ≡ []
    → (drop_by_mount sio compact_done none (r ∷ []) b).1 ≡ some n
    → ((drop_by_mount sio compact_done none (r ∷ []) b).0.journal.pending ≡ [])
      × (n ≡ length b.journal.pending)
drop_by_mount-blank sio r b whole blank h =
    let (after, count) = answered sio compact_done none (r ∷ []) b h in
    let (disk, pending, cache, number) = drop_pending-Dropped [] b in
    (
      ap (λ x. x.journal.pending)
            (after
              ∙ ap (λ q. (drop_pending compact_done q b).0) (take_requests-blank r whole blank))
          ∙ pending
          ∙ none_left b.journal.pending,
      sym count
          ∙ ap (λ q. (drop_pending compact_done q b).1) (take_requests-blank r whole blank)
          ∙ number
          ∙ ap length (all_taken b.journal.pending),
    )
