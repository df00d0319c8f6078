-- ===== src/Backend/Keeps.antt =====
-- A change on Source never takes the cached bytes of a path with queued work, internal/fuse/backend.go
-- and internal/fuse/invalidate.go.
use livegit.Prelude.{
  bytes_beq_ne, Bool, true, not, ◌&&◌, ◌≡◌, ◌≢◌, refl, ap, ◌∙◌, inl, inr, arith, Option, none, some,
  List, [], ◌∷◌, Bytes, ◌==◌, bytes_eq, nat_eq, length, filter, All, ltb, Bool-cases, lookup,
  lookup-delete,
}
use livegit.Paths.{rel}
use livegit.Journal.{JournalEntry, has_pending}
use livegit.Index.{TreeEntry, get, len}
use livegit.Trees.{Fetched}
use livegit.Backend.{
  Backend, Invalidation, drop_cached, drop_content, hash_differs, invalidate, is_stale, drop_stale,
  sync_finish,
}

cache-drop_content :
    (p q : Bytes) (b : Backend) → p ≢ q → lookup q (drop_content p b).cache ≡ lookup q b.cache
unfolding drop_content
cache-drop_content p q b ne = lookup-delete p q b.cache ∙ rw (bytes_beq_ne p q ne)

cache-drop_cached :
    (p q : Bytes) (b : Backend) → p ≢ q → lookup q (drop_cached p b).cache ≡ lookup q b.cache
unfolding drop_cached
cache-drop_cached p q b ne = lookup-delete p q b.cache ∙ rw (bytes_beq_ne p q ne)

cache-drop_stale :
    (q : Bytes) (entries : List TreeEntry) (b : Backend)
    → All (λ e. rel e.rel ≢ q) entries
    → lookup q (drop_stale entries b).cache ≡ lookup q b.cache
unfolding drop_stale
cache-drop_stale q [] b h = refl
cache-drop_stale q (e ∷ entries) b (ne, h) =
    cache-drop_stale q entries (drop_content (rel e.rel) b) h
    ∙ cache-drop_content (rel e.rel) q b ne

module _ (b : Backend) (q : Bytes) (waiting : has_pending q b.journal ≡ true) where
  stale-other : (e : TreeEntry) → is_stale b e ≡ true → rel e.rel ≢ q
  unfolding is_stale
  stale-other e stale same =
      let here : has_pending (rel e.rel) b.journal ≡ true =
        ap (λ p. has_pending p b.journal) same ∙ waiting in
      ground (arith, stale, here)

  stale-All : (entries : List TreeEntry) → All (λ e. rel e.rel ≢ q) (filter (is_stale b) entries)
  stale-All [] = _
  stale-All (e ∷ entries) = elim (Bool-cases (is_stale b e)) [
    | inl s ↦ rw s (stale-other e s, stale-All entries)
    | inr s ↦ rw s (stale-All entries)
  ]

  -- Whatever tree Source sends and whatever was queued when it was asked, a sync leaves the
  -- cached bytes of a path with queued work.
  pub sync_finish-keeps :
      (written : Bool) (taken : List JournalEntry) (answer : Option Fetched)
      → lookup q (sync_finish written taken answer b).0.cache ≡ lookup q b.cache
  unfolding sync_finish
  sync_finish-keeps written taken none = refl
  sync_finish-keeps written taken (some t) = elim (Bool-cases t.unchanged) [
    | inl u ↦ simp u
    | inr u ↦ elim (Bool-cases (length t.entries == 0 && ltb 0 (len b.index))) [
      | inl empty ↦ simp (u, empty)
      | inr full ↦
          simp (u, full)
            (cache-drop_stale q (filter (is_stale b) t.entries) _ (stale-All t.entries))
    ]
  ]

  -- Whatever change Source announces, the cached bytes of a path with queued work stay.
  pub invalidate-keeps : (inv : Invalidation) → lookup q (invalidate inv b).cache ≡ lookup q b.cache
  unfolding invalidate
  invalidate-keeps inv = elim (Bool-cases (has_pending (rel inv.rel) b.journal)) [
    | inl w ↦ elim (Bool-cases inv.deleted) [
      | inl d ↦ simp (d, w)
      | inr d ↦ elim (Bool-cases inv.is_dir) [ inl k ↦ simp (d, w, k) | inr k ↦ simp (d, w, k) ]
    ]
    | inr w ↦
        let other : rel inv.rel ≢ q =
          λ same. ground (arith, w, ap (λ p. has_pending p b.journal) same ∙ waiting) in
        elim (Bool-cases inv.deleted) [
          | inl d ↦ simp (d, w) (cache-drop_cached (rel inv.rel) q _ other)
          | inr d ↦
              elim (Bool-cases
                (not inv.is_dir && (true && hash_differs inv.hash (get (rel inv.rel) b.index)))) [
                  | inl k ↦ simp (d, w, k) (cache-drop_content (rel inv.rel) q _ other)
                  | inr k ↦ simp (d, w, k)
                ]
        ]
  ]
