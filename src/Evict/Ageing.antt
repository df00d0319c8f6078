-- ===== src/Evict/Ageing.antt =====
-- What the loop over the staging leaves, `EvictOnce` of internal/fuse/cache.go.
use livegit.Prelude.{
  ℕ, ◌-◌, ◌*◌, ◌≡◌, refl, sym, ap, ◌∙◌, inl, inr, Bool, true, false, not, arith, none, some, [],
  ◌∷◌, Bytes, ◌==◌, bytes_eq, nat_eq, bytes_beq_iff, if◌then◌else◌, Bool-cases, lookup, filter,
  All-filter, Pairwise-filter, ◌≢◌,
}
use livegit.Paths.{rel, base}
use livegit.Backend.{CachedFile, Cache}
use livegit.Fetch.{Fetches}
use livegit.Evict.{SweepIo, tmp_suffix, contains, hidden, is_stale, age_staging}
use livegit.Evict.Usage.{usage, IsKept}

-- A filter on the paths of a cache
lookup-filter_path :
    (test : Bytes → Bool) (q : Bytes) (c : Cache)
    → lookup q (filter (λ e. test e.0) c) ≡ (if test q then lookup q c else none)
unfolding lookup
lookup-filter_path test q [] = ground arith
lookup-filter_path test q ((p, f) ∷ c) = elim (Bool-cases (p == q)) [
  | inl e ↦
      let same : test p ≡ test q = ap test ((bytes_beq_iff p q).0 e) in
      elim (Bool-cases (test q)) [
        | inl t ↦ rw (same ∙ t, t, e) refl
        | inr t ↦ rw (same ∙ t, t) (lookup-filter_path test q c ∙ rw t refl)
      ]
  | inr e ↦ elim (Bool-cases (test p)) [
    | inl t ↦ rw (t, e) (lookup-filter_path test q c)
    | inr t ↦ rw (t, e) (lookup-filter_path test q c)
  ]
]

usage-filter_path :
    (io : SweepIo) (test : Bytes → Bool) (c : Cache)
    → ((p : Bytes) → test p ≡ false → hidden io p ≡ true)
    → usage io (filter (λ e. test e.0) c) ≡ usage io c
unfolding usage
usage-filter_path io test [] h = refl
usage-filter_path io test ((p, f) ∷ c) h = elim (Bool-cases (test p)) [
  | inl t ↦ rw (t, usage-filter_path io test c h) refl
  | inr t ↦ rw (t, h p t) (omega (arith, usage-filter_path io test c h))
]

module _ (io : SweepIo) (running : Fetches) (idle_min : ℕ) where
  -- A path whose name does not hold `.lg-tmp` is passed over.
  not_staging :
      (p : Bytes)
      → contains (base p) tmp_suffix ≡ false
      → (cutoff : ℕ) → is_stale io running cutoff p ≡ false
  unfolding is_stale
  not_staging p plain cutoff = rw plain refl

  pub lookup-age_staging :
      (q : Bytes) (c : Cache)
      → contains (base q) tmp_suffix ≡ false
      → lookup q (age_staging io running idle_min c) ≡ lookup q c
  unfolding age_staging
  lookup-age_staging q c plain = elim (Bool-cases (idle_min == 0)) [
    | inl e ↦ rw e refl
    | inr e ↦
        let cutoff = io.now - idle_min * 60 in
        rw e (
          lookup-filter_path (λ p. not (is_stale io running cutoff p)) q c
          ∙ rw (not_staging q plain cutoff) refl)
  ]

  -- What is left was there.
  pub found-age_staging :
      (q : Bytes) (g : CachedFile) (c : Cache)
      → lookup q (age_staging io running idle_min c) ≡ some g
      → lookup q c ≡ some g
  unfolding age_staging
  found-age_staging q g c h = elim (Bool-cases (idle_min == 0)) [
    | inl e ↦ simp e at h
    | inr e ↦
        let cutoff = io.now - idle_min * 60 in
        let h' =
          sym (lookup-filter_path (λ p. not (is_stale io running cutoff p)) q c) ∙ simp e at h in
        elim (Bool-cases (is_stale io running cutoff q)) [
          | inl t ↦ cc (simp t at h')
          | inr t ↦ simp t at h'
        ]
  ]

  stale-hidden :
      (cutoff : ℕ) (p : Bytes) → not (is_stale io running cutoff p) ≡ false → hidden io p ≡ true
  unfolding is_stale hidden
  stale-hidden cutoff p h = ground (arith, h)

  -- The sweep does not count what the loop removes.
  pub usage-age_staging : (c : Cache) → usage io (age_staging io running idle_min c) ≡ usage io c
  unfolding age_staging
  usage-age_staging c = elim (Bool-cases (idle_min == 0)) [
    | inl e ↦ rw e refl
    | inr e ↦
        let cutoff = io.now - idle_min * 60 in
        rw e
          (usage-filter_path io (λ p. not (is_stale io running cutoff p)) c (stale-hidden cutoff))
  ]

  pub age_staging-IsKept : (c : Cache) → IsKept c → IsKept (age_staging io running idle_min c)
  unfolding age_staging
  age_staging-IsKept c h = elim (Bool-cases (idle_min == 0)) [
    | inl e ↦ rw e h
    | inr e ↦
        rw e (All-filter (λ x. rel x.0 ≡ x.0) _ c h.0, Pairwise-filter (λ x y. x.0 ≢ y.0) _ c h.1)
  ]
