-- ===== src/Evict/Usage.antt =====
-- How many bytes the cache holds, and what a removed file takes away, internal/fuse/cache.go.
use livegit.Prelude.{
  bytes_beq_ne, ℕ, ◌+◌, ◌≡◌, ◌≢◌, refl, sym, ap, ◌∙◌, inl, inr, true, false, arith, some, List, [],
  ◌∷◌, map, Bytes, ◌==◌, bytes_eq, bytes_beq_iff, if◌then◌else◌, Bool-cases, All, Pairwise, lookup,
  delete, has,
}
use livegit.Paths.{rel}
use livegit.Backend.{CachedFile, Cache}
use livegit.Evict.{Scanned, SweepIo, hidden, scan_cache, scan_total}

-- A cache whose paths are canonical and each there once.
abbrev pub IsKept : Cache → Type 0
IsKept c = All (λ e. rel e.0 ≡ e.0) c × Pairwise (λ x y. x.0 ≢ y.0) c

-- The visible bytes.
unfoldable pub usage : SweepIo → Cache → ℕ
usage io [] = 0
usage io ((p, f) ∷ c) = (if hidden io p then 0 else f.size) + usage io c

pub scan_total-scan_cache : (io : SweepIo) (c : Cache) → scan_total (scan_cache io c) ≡ usage io c
unfolding scan_total scan_cache usage
scan_total-scan_cache io [] = refl
scan_total-scan_cache io ((p, f) ∷ c) = elim (Bool-cases (hidden io p)) [
  | inl h ↦ rw h (omega (arith, scan_total-scan_cache io c))
  | inr h ↦ rw h (omega (arith, scan_total-scan_cache io c))
]

delete-absent : (k : Bytes) (c : Cache) → All (λ e. k ≢ e.0) c → delete k c ≡ c
unfolding delete
delete-absent k [] h = refl
delete-absent k ((p, f) ∷ c) (ne, h) =
    rw (delete-absent k c h, bytes_beq_ne p k (λ e. ne (sym e))) refl

pub usage-delete :
    (io : SweepIo) (k : Bytes) (f : CachedFile) (c : Cache)
    → Pairwise (λ x y. x.0 ≢ y.0) c
    → lookup k c ≡ some f
    → hidden io k ≡ false
    → usage io c ≡ usage io (delete k c) + f.size
unfolding usage delete lookup
usage-delete io k f [] once found seen = cc
usage-delete io k f ((p, g) ∷ c) (new, once) found seen = elim (Bool-cases (p == k)) [
  | inl e ↦
      let here : p ≡ k = (bytes_beq_iff p k).0 e in
      let size : g.size ≡ f.size = ground (arith, e, found) in
      let at : hidden io p ≡ false = ap (hidden io) here ∙ seen in
      let gone : delete k c ≡ c = rw (← here) (delete-absent p c new) in
      rw e (rw gone (rw at (omega (arith, size))))
  | inr e ↦
      let below : lookup k c ≡ some f = ground (arith, e, found) in
      rw e (omega (arith, usage-delete io k f c once below seen))
]

delete-All :
    (P : Bytes × CachedFile → Type 0) (k : Bytes) (c : Cache) → All P c → All P (delete k c)
unfolding delete
delete-All P k [] h = tt
delete-All P k ((p, f) ∷ c) h = elim (Bool-cases (p == k)) [
  | inl e ↦ rw e (delete-All _ k c h.1)
  | inr e ↦ rw e (h.0, delete-All _ k c h.1)
]

delete-Pairwise :
    (k : Bytes) (c : Cache)
    → Pairwise (λ x y. x.0 ≢ y.0) c
    → Pairwise (λ x y. x.0 ≢ y.0) (delete k c)
unfolding delete
delete-Pairwise k [] h = tt
delete-Pairwise k ((p, f) ∷ c) h = elim (Bool-cases (p == k)) [
  | inl e ↦ rw e (delete-Pairwise k c h.1)
  | inr e ↦ rw e (delete-All _ k c h.0, delete-Pairwise k c h.1)
]

pub delete-IsKept : (k : Bytes) (c : Cache) → IsKept c → IsKept (delete k c)
delete-IsKept k c h = (delete-All _ k c h.0, delete-Pairwise k c h.1)

-- The paths of scanned files.
abbrev pub paths : List Scanned → List Bytes
paths = map (λ f. f.rel)

-- Every visible file of the cache is found by the scan.
pub has-scan_cache :
    (io : SweepIo) (k : Bytes) (f : CachedFile) (c : Cache)
    → IsKept c
    → lookup k c ≡ some f
    → hidden io k ≡ false
    → has k (paths (scan_cache io c)) ≡ true
unfolding scan_cache lookup has
has-scan_cache io k f [] kept found seen = cc
has-scan_cache io k f ((p, g) ∷ c) ((named, names), (new, once)) found seen =
    elim (Bool-cases (p == k)) [
      | inl e ↦
          let here : p ≡ k = (bytes_beq_iff p k).0 e in
          let at : hidden io p ≡ false = ap (hidden io) here ∙ seen in rw at (rw (named, e) refl)
      | inr e ↦
          let below = has-scan_cache io k f c (names, once) (simp e at found) seen in
          elim (Bool-cases (hidden io p)) [
            | inl h ↦ rw h below
            | inr h ↦ rw h (rw below (ground arith))
          ]
    ]

-- What the scan says of a file is so.
abbrev pub IsListed : SweepIo → Cache → Scanned → Type 0
IsListed io c f =
    (hidden io f.rel ≡ false)
    × (rel f.rel ≡ f.rel)
    × ((g : CachedFile) × (lookup f.rel c ≡ some g) × (g.size ≡ f.size))
