-- ===== src/Evict/Scan.antt =====
-- What `scanCache` of internal/fuse/cache.go finds: each visible file, once.
use livegit.Prelude.{
  bytes_beq_ne, bytes_beq_refl, ◌≡◌, ◌≢◌, refl, ap, ◌∙◌, inl, inr, some, List, [], ◌∷◌, Bytes,
  bytes_eq, Bool-cases, All, Pairwise, lookup,
}
use livegit.Paths.{rel}
use livegit.Backend.{CachedFile, Cache}
use livegit.Evict.{Scanned, SweepIo, hidden, scan_cache}
use livegit.Evict.Usage.{IsKept, IsListed}

-- No file is listed twice.
abbrev pub Distinct : List Scanned → Type 0
Distinct = Pairwise (λ f g. f.rel ≢ g.rel)

abbrev IsHeld : Cache → Bytes × CachedFile → Type 0
IsHeld c e = lookup e.0 c ≡ some e.1

held-cons :
    (p : Bytes) (f : CachedFile) (c d : Cache)
    → All (λ e. p ≢ e.0) d
    → All (IsHeld c) d
    → All (IsHeld ((p, f) ∷ c)) d
unfolding lookup
held-cons p f c [] ne h = tt
held-cons p f c (e ∷ d) (n, ne) (found, h) =
    (rw (bytes_beq_ne p e.0 n) found, held-cons p f c d ne h)

held : (c : Cache) → Pairwise (λ x y. x.0 ≢ y.0) c → All (IsHeld c) c
unfolding lookup
held [] h = tt
held ((p, f) ∷ c) (new, once) = (rw (bytes_beq_refl p) refl, held-cons p f c c new (held c once))

module _ (io : SweepIo) where
  scan-other :
      (p : Bytes) (c : Cache)
      → All (λ e. rel e.0 ≡ e.0) c
      → All (λ e. p ≢ e.0) c
      → All (λ f. p ≢ f.rel) (scan_cache io c)
  unfolding scan_cache
  scan-other p [] names ne = tt
  scan-other p ((q, f) ∷ c) (n, names) (d, ne) = elim (Bool-cases (hidden io q)) [
    | inl h ↦ rw h (scan-other p c names ne)
    | inr h ↦ rw h (λ e. d (e ∙ n), scan-other p c names ne)
  ]

  pub scan_cache-Distinct : (c : Cache) → IsKept c → Distinct (scan_cache io c)
  unfolding scan_cache
  scan_cache-Distinct [] k = tt
  scan_cache-Distinct ((p, f) ∷ c) ((n, names), (new, once)) = elim (Bool-cases (hidden io p)) [
    | inl h ↦ rw h (scan_cache-Distinct c (names, once))
    | inr h ↦ rw h (rw n (scan-other p c names new), scan_cache-Distinct c (names, once))
  ]

  scan-IsListed :
      (c d : Cache)
      → All (λ e. rel e.0 ≡ e.0) d
      → All (IsHeld c) d
      → All (IsListed io c) (scan_cache io d)
  unfolding scan_cache
  scan-IsListed c [] names h = tt
  scan-IsListed c ((p, f) ∷ d) (n, names) (found, h) = elim (Bool-cases (hidden io p)) [
    | inl x ↦ rw x (scan-IsListed c d names h)
    | inr x ↦ rw x (
      (ap (hidden io) n ∙ x, ap rel n, (f, ap (λ q. lookup q c) n ∙ found, refl)),
      scan-IsListed c d names h,
    )
  ]

  pub scan_cache-IsListed : (c : Cache) → IsKept c → All (IsListed io c) (scan_cache io c)
  scan_cache-IsListed c k = scan-IsListed c c k.0 (held c k.1)
