-- ===== src/Cli/Clear.antt =====
-- What `lg cache clear` keeps and removes, internal/cli/cache.go.
use mathlib.Core.List.{foldl}
use livegit.Prelude.{
  ◌≡◌, refl, ap, ◌∙◌, inl, inr, Bool, true, false, ◌&&◌, ◌||◌, arith, none, List, [], ◌∷◌, Bytes,
  ◌==◌, bytes_eq, bytes_beq_iff, any, Bool-cases, map, lookup, has,
}
use livegit.Journal.{
  JournalEntry, Journal, Line, blank, torn, part, entry, unended, load_entry, Loaded, load_line,
  load, open_journal, has_pending,
}
use livegit.Journal.History.{Reach, Reach-Sound, Sound-empty, names-push}
use livegit.Backend.{Cache}
use livegit.Evict.{tmp_suffix, trim_suffix}
use livegit.Cli.{
  readable, unreadable, line_entries, pending_entries, ClearIo, clear_cache, clear_command,
}

-- The paths that the lines of the journal's file name
abbrev named : List Line → List Bytes
named lines = map (λ e. e.rel) (line_entries lines)

abbrev queues : Bytes → List JournalEntry → Bool
queues p es = any (λ e. e.rel == p) es

-- What is replayed from the lines is named by them.
named-foldl :
    (p : Bytes) (lines : List Line) (l : Loaded)
    → queues p (foldl load_line l lines).pending ≡ true
    → (queues p l.pending || has p (named lines)) ≡ true
unfolding load_line load_entry line_entries has
named-foldl p [] l h = ground (arith, h)
named-foldl p (blank ∷ lines) l h = named-foldl p lines l h
named-foldl p (torn ∷ lines) l h = named-foldl p lines l h
named-foldl p (part ∷ lines) l h = named-foldl p lines l h
named-foldl p (entry e ∷ lines) l h =
    ground (arith, named-foldl p lines (load_line l (entry e)) h, names-push p e l.pending)
named-foldl p (unended e ∷ lines) l h =
    ground (arith, named-foldl p lines (load_line l (unended e)) h, names-push p e l.pending)

named-load :
    (p : Bytes) (lines : List Line)
    → queues p (load lines).pending ≡ true
    → has p (named lines) ≡ true
unfolding load
named-load p lines h = named-foldl p lines (record { pending = []; next_seq = 0 }) h

module _ (io : ClearIo) (pending : List Bytes) (p : Bytes) where
  clear_cache-kept :
      (c : Cache)
      → has (trim_suffix p tmp_suffix) pending ≡ true
      → lookup p (clear_cache io pending c).left ≡ lookup p c
  unfolding clear_cache lookup
  clear_cache-kept [] h = refl
  clear_cache-kept ((q, f) ∷ c) h = elim (Bool-cases (q == p)) [
    | inl e ↦
        let at : has (trim_suffix q tmp_suffix) pending ≡ true =
          ap (λ s. has (trim_suffix s tmp_suffix) pending) ((bytes_beq_iff q p).0 e) ∙ h in
        rw (at, clear_cache, e, lookup) refl
    | inr e ↦ ground (arith, e, clear_cache-kept c h)
  ]

  clear_cache-gone :
      (c : Cache)
      → has (trim_suffix p tmp_suffix) pending ≡ false
      → (io.info_ok p && io.remove_ok p) ≡ true
      → lookup p (clear_cache io pending c).left ≡ none
  unfolding clear_cache lookup
  clear_cache-gone [] h ok = refl
  clear_cache-gone ((q, f) ∷ c) h ok = elim (Bool-cases (q == p)) [
    | inl e ↦
        let same : q ≡ p = (bytes_beq_iff q p).0 e in
        let at : has (trim_suffix q tmp_suffix) pending ≡ false =
          ap (λ s. has (trim_suffix s tmp_suffix) pending) same ∙ h in
        let goes : (io.info_ok q && io.remove_ok q) ≡ true =
          ap (λ s. io.info_ok s && io.remove_ok s) same ∙ ok in
        ground (arith, at, goes, clear_cache-gone c h ok)
    | inr e ↦ ground (arith, e, clear_cache-gone c h ok)
  ]

-- Whatever calls the journal has seen since its file was empty, `lg cache clear` leaves the cached
-- bytes of each path that has queued work, if the journal's file can be read and the path does not
-- end in `.lg-tmp`, as long as the 64-bit counter has not wrapped and no append has found the file
-- ending in a text that a failed write left without its newline.
pub clear_command-kept :
    (io : ClearIo) (j : Journal) (p : Bytes) (c : Cache)
    → Reach (open_journal []) j
    → has_pending p j ≡ true
    → trim_suffix p tmp_suffix ≡ p
    → lookup p (clear_command io (readable j.disk) c).left ≡ lookup p c
unfolding clear_command pending_entries has_pending
clear_command-kept io j p c r queued plain = clear_cache-kept io (named j.disk) p c (
    ap (λ s. has s (named j.disk)) plain
    ∙ named-load p j.disk ((Reach-Sound r Sound-empty).covers p queued))

-- Where the journal's file is there and cannot be read, `lg cache clear` removes the cached bytes of
-- every path that it can remove, whatever is queued.
pub clear_command-unreadable :
    (io : ClearIo) (p : Bytes) (c : Cache)
    → (io.info_ok p && io.remove_ok p) ≡ true
    → lookup p (clear_command io unreadable c).left ≡ none
unfolding clear_command pending_entries has
clear_command-unreadable io p c ok = clear_cache-gone io [] p c refl ok
