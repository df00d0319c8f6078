-- ===== src/Evict/Sort.antt =====
-- Sorting the files of a sweep by their access times, internal/fuse/cache.go: it keeps what holds of
-- every file, and loses none.
use livegit.Prelude.{
  ◌≡◌, ◌≢◌, refl, sym, ◌∙◌, inl, inr, ◌||◌, arith, List, [], ◌∷◌, Bytes, ◌==◌, bytes_eq, Bool-cases,
  All, has, ltb,
}
use livegit.Evict.{Scanned, insert_by_atime, sort_by_atime}
use livegit.Evict.Usage.{paths}
use livegit.Evict.Scan.{Distinct}

module _ (P : Scanned → Type 0) where
  insert-All :
      (f : Scanned) (files : List Scanned) → P f → All P files → All P (insert_by_atime f files)
  unfolding insert_by_atime
  insert-All f [] p h = (p, tt)
  insert-All f (g ∷ files) p h = elim (Bool-cases (ltb g.atime f.atime)) [
    | inl e ↦ rw e (h.0, insert-All f files p h.1)
    | inr e ↦ rw e (p, h)
  ]

  pub sort-All : (files : List Scanned) → All P files → All P (sort_by_atime files)
  unfolding sort_by_atime
  sort-All [] h = tt
  sort-All (f ∷ files) h = insert-All f (sort_by_atime files) h.0 (sort-All files h.1)

insert-Distinct :
    (f : Scanned) (files : List Scanned)
    → All (λ g. f.rel ≢ g.rel) files
    → Distinct files
    → Distinct (insert_by_atime f files)
unfolding insert_by_atime
insert-Distinct f [] n h = (tt, tt)
insert-Distinct f (g ∷ files) n h = elim (Bool-cases (ltb g.atime f.atime)) [
  | inl e ↦ rw e (insert-All _ f files (λ x. n.0 (sym x)) h.0, insert-Distinct f files n.1 h.1)
  | inr e ↦ rw e (n, h)
]

pub sort-Distinct : (files : List Scanned) → Distinct files → Distinct (sort_by_atime files)
unfolding sort_by_atime
sort-Distinct [] h = tt
sort-Distinct (f ∷ files) h =
    insert-Distinct f (sort_by_atime files) (sort-All _ files h.0) (sort-Distinct files h.1)

has-insert :
    (f : Scanned) (files : List Scanned) (q : Bytes)
    → has q (paths (insert_by_atime f files)) ≡ (f.rel == q || has q (paths files))
unfolding insert_by_atime has
has-insert f [] q = refl
has-insert f (g ∷ files) q = elim (Bool-cases (ltb g.atime f.atime)) [
  | inl e ↦ rw e (ground (arith, has-insert f files q))
  | inr e ↦ rw e refl
]

pub has-sort :
    (files : List Scanned) (q : Bytes) → has q (paths (sort_by_atime files)) ≡ has q (paths files)
unfolding sort_by_atime has
has-sort [] q = refl
has-sort (f ∷ files) q = has-insert f (sort_by_atime files) q ∙ rw (has-sort files q) refl
