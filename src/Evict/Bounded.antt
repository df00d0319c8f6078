-- ===== src/Evict/Bounded.antt =====
-- A sweep ends under the cap, or with nothing left that it may take, internal/fuse/cache.go.
use livegit.Prelude.{
  bytes_beq_ne, ℕ, ◌-◌, ◌*◌, ◌≤◌, ◌<◌, ◌≡◌, ◌≢◌, refl, sym, ◌∙◌, inl, inr, ◌⊎◌, true, false, ◌&&◌,
  ◌||◌, arith, none, some, List, [], ◌∷◌, Bytes, ◌==◌, bytes_eq, bytes_beq_iff, nat_eq, Bool-cases,
  All, All-map, lookup, lookup-delete, has, if◌then◌else◌, ltb, leb,
}
use livegit.Journal.{Journal}
use livegit.Backend.{Backend, CachedFile, drop_content}
use livegit.Fetch.{Fetches}
use livegit.Evict.{
  Scanned, SweepIo, Swept, hidden, can_evict, idle_step, idle_pass, cap_step, cap_pass, scan_cache,
  contains, tmp_suffix, aged, scan_total, sort_by_atime, enforce_cap, drop_idle, evict_once,
  cache_usage,
}
use livegit.Evict.Usage.{
  IsKept, IsListed, usage, usage-delete, delete-IsKept, paths, has-scan_cache,
  scan_total-scan_cache,
}
use livegit.Evict.Scan.{Distinct, scan_cache-Distinct, scan_cache-IsListed}
use livegit.Evict.Ageing.{
  lookup-age_staging, found-age_staging, usage-age_staging, age_staging-IsKept,
}
use livegit.Paths.{base}
use livegit.Evict.Sort.{sort-All, sort-Distinct, has-sort}
use livegit.Evict.Pass.{without, idle_step_lem, cap_step_lem}

lookup-without :
    (f : Scanned) (s : Swept) (q : Bytes)
    → lookup q (without f s).1.cache ≡ (if f.rel == q then none else lookup q s.1.cache)
unfolding drop_content
lookup-without f s q = lookup-delete f.rel q s.1.cache

found-without :
    (f : Scanned) (s : Swept) (q : Bytes) (g : CachedFile)
    → lookup q (without f s).1.cache ≡ some g
    → (f.rel ≢ q) × (lookup q s.1.cache ≡ some g)
found-without f s q g h =
    let e = sym (lookup-without f s q) ∙ h in
    elim (Bool-cases (f.rel == q)) [
      | inl t ↦ cc (simp t at e)
      | inr t ↦ (λ x. ground (arith, t, bytes_beq_iff f.rel q), simp t at e)
    ]

unhidden : (io : SweepIo) (p : Bytes) → hidden io p ≡ false → contains (base p) tmp_suffix ≡ false
unfolding hidden
unhidden io p seen = ground (arith, seen)

module _ (io : SweepIo) (running : Fetches) (j : Journal) where
  -- The count is right, for a cache whose paths are canonical and each there once.
  abbrev IsExact : Swept → Type 0
  IsExact s = (s.1.journal ≡ j) × IsKept s.1.cache × (s.0 ≡ usage io s.1.cache)

  abbrev AreListed : List Scanned → Swept → Type 0
  AreListed files s = All (IsListed io s.1.cache) files

  without-IsExact :
      (f : Scanned) (s : Swept) → IsListed io s.1.cache f → IsExact s → IsExact (without f s)
  unfolding drop_content
  without-IsExact f s (seen, name, (g, found, size)) (same_j, kept, exact) =
      let less = usage-delete io f.rel g s.1.cache kept.1 found seen in
      (same_j, delete-IsKept f.rel s.1.cache kept, omega (arith, less, exact, size))

  without-IsListed :
      (f g : Scanned) (s : Swept)
      → f.rel ≢ g.rel
      → IsListed io s.1.cache g
      → IsListed io (without f s).1.cache g
  without-IsListed f g s ne (seen, name, (h, found, size)) =
      (seen, name, (h, lookup-without f s g.rel ∙ rw (bytes_beq_ne f.rel g.rel ne) found, size))

  without-AreListed :
      (f : Scanned) (s : Swept) (files : List Scanned)
      → All (λ g. f.rel ≢ g.rel) files
      → AreListed files s
      → AreListed files (without f s)
  without-AreListed f s [] ne h = tt
  without-AreListed f s (g ∷ files) (n, ne) (l, h) =
      (without-IsListed f g s n l, without-AreListed f s files ne h)

  -- The idle pass leaves a right count, and lists each visible file that is left.
  abbrev Passed : List Scanned → Swept → List Scanned × Swept → Type 0
  Passed files s r =
      IsExact r.1
      × AreListed r.0 r.1
      × Distinct r.0
      × ((f : Scanned) → All (λ g. f.rel ≢ g.rel) files → All (λ g. f.rel ≢ g.rel) r.0)
      × ((f : Scanned)
          → All (λ g. f.rel ≢ g.rel) files
          → IsListed io s.1.cache f
          → IsListed io r.1.1.cache f)
      × ((q : Bytes) (g : CachedFile)
          → lookup q r.1.1.cache ≡ some g
          → (lookup q s.1.cache ≡ some g) × (has q (paths files) ≡ true → has q (paths r.0) ≡ true))

  idle_pass-Passed :
      (cutoff : ℕ) (files : List Scanned) (s : Swept)
      → IsExact s
      → AreListed files s
      → Distinct files
      → Passed files s (idle_pass io running cutoff files s)
  unfolding idle_pass has
  idle_pass-Passed cutoff [] s x l d = (x, tt, tt, λ f ne. tt, λ f ne h. h, λ q g h. (h, λ e. e))
  idle_pass-Passed cutoff (f ∷ files) s x (lf, l) (df, d) =
      elim (Bool-cases (ltb f.atime cutoff && can_evict io running s.1.journal f.rel)) [
        | inl e ↦
            let step : idle_step io running cutoff f s ≡ (true, without f s) =
              rw (idle_step_lem io running f cutoff s, e) refl in
            let (x', l', d', only, stay, back) =
              idle_pass-Passed cutoff files (without f s) (without-IsExact f s lf x)
                (without-AreListed f s files df l) d in
            rw step (
              x',
              l',
              d',
              λ g ne. only g ne.1,
              λ g ne h. stay g ne.1 (without-IsListed f g s (λ y. ne.0 (sym y)) h),
              λ q g h.
                  let (found, more) = back q g h in
                  let (ne, was) = found-without f s q g found in
                  (was, λ t. more (simp (bytes_beq_ne f.rel q ne) at t)),
            )
        | inr e ↦
            let step : idle_step io running cutoff f s ≡ (false, s) =
              rw (idle_step_lem io running f cutoff s, e) refl in
            let (x', l', d', only, stay, back) = idle_pass-Passed cutoff files s x l d in
            rw step (
              x',
              (stay f df lf, l'),
              (only f df, d'),
              λ g ne. (ne.0, only g ne.1),
              λ g ne h. stay g ne.1 h,
              λ q g h. ((back q g h).0, λ t. ground (arith, (back q g h).1, t)),
            )
      ]

  -- A visible file of the cache is listed or must stay.
  abbrev Covered : List Scanned → Swept → Type 0
  Covered files s =
      (q : Bytes) (g : CachedFile)
      → lookup q s.1.cache ≡ some g
      → (hidden io q ≡ true) ⊎ (has q (paths files) ≡ true) ⊎ (can_evict io running j q ≡ false)

  -- Under the cap, or every visible file must stay.
  abbrev Fits : ℕ → Swept → Type 0
  Fits limit s =
      (usage io s.1.cache ≤ limit)
      ⊎ ((q : Bytes) (g : CachedFile)
          → lookup q s.1.cache ≡ some g
          → (hidden io q ≡ true) ⊎ (can_evict io running j q ≡ false))

  cap_pass-Fits :
      (limit : ℕ) (files : List Scanned) (s : Swept)
      → IsExact s
      → AreListed files s
      → Distinct files
      → Covered files s
      → Fits limit (cap_pass io running limit files s)
  unfolding cap_pass has
  cap_pass-Fits limit [] s x l d c = inr (λ q g h. ground (arith, c q g h))
  cap_pass-Fits limit (f ∷ files) s x (lf, l) (df, d) c = elim (Bool-cases (leb s.0 limit)) [
    | inl e ↦ rw e (inl (rw (← x.2) (ground (arith, e))))
    | inr e ↦ rw e (elim (Bool-cases (can_evict io running s.1.journal f.rel)) [
      | inl t ↦
          let step : cap_step io running f s ≡ without f s =
            rw (cap_step_lem io running f s, t) refl in
          rw step (
            cap_pass-Fits limit files (without f s) (without-IsExact f s lf x)
              (without-AreListed f s files df l) d
              (λ q g h.
                let (ne, was) = found-without f s q g h in
                simp (bytes_beq_ne f.rel q ne) at (c q g was)))
      | inr t ↦
          let step : cap_step io running f s ≡ s = rw (cap_step_lem io running f s, t) refl in
          let stays : can_evict io running j f.rel ≡ false = rw (← x.0) t in
          rw step (
            cap_pass-Fits limit files s x l d (λ q g h. elim (Bool-cases (f.rel == q)) [
              | inl y ↦ inr (inr (rw (← (bytes_beq_iff f.rel q).0 y) stays))
              | inr y ↦ simp y at (c q g h)
            ]))
    ])
  ]

  drop_idle-start :
      (idle_min : ℕ) (b : Backend)
      → b.journal ≡ j
      → IsKept b.cache
      → let r = drop_idle io running idle_min b in
        IsExact r.1 × AreListed r.0 r.1 × Distinct r.0 × Covered r.0 r.1
  unfolding drop_idle
  drop_idle-start idle_min b same_j kept =
      let files = scan_cache io b.cache in
      let start : Swept = (scan_total files, b) in
      let x : IsExact start = (same_j, kept, scan_total-scan_cache io b.cache) in
      let l = scan_cache-IsListed io b.cache kept in
      let d = scan_cache-Distinct io b.cache kept in
      let all : (q : Bytes) (g : CachedFile)
          → lookup q b.cache ≡ some g
          → (hidden io q ≡ true) ⊎ (has q (paths files) ≡ true) =
        λ q g h. elim (Bool-cases (hidden io q)) [
          | inl y ↦ inl y
          | inr y ↦ inr (has-scan_cache io q g b.cache kept h y)
        ] in
      elim (Bool-cases (idle_min == 0)) [
        | inl e ↦ rw e (x, l, d, λ q g h. ground (arith, all q g h))
        | inr e ↦
            let (x', l', d', only, stay, back) =
              idle_pass-Passed (io.now - idle_min * 60) files start x l d in
            rw e (x', l', d', λ q g h. ground (arith, back q g h, all q g (back q g h).0))
      ]

  -- The loop over the staging touches nothing that is listed or counted.
  aged-Covered :
      (idle_min : ℕ) (w : List Scanned × Swept)
      → IsExact w.1
      → AreListed w.0 w.1
      → Covered w.0 w.1
      → let w' = aged io running idle_min w in
        IsExact w'.1 × AreListed w'.0 w'.1 × Covered w'.0 w'.1
  aged-Covered idle_min (files, (total, b)) (same_j, kept, exact) l c = (
    (
      same_j,
      age_staging-IsKept io running idle_min b.cache kept,
      exact ∙ sym (usage-age_staging io running idle_min b.cache),
    ),
    All-map files
        (λ f (seen, name, (g, found, size)). (
          seen,
          name,
          (
            g,
            lookup-age_staging io running idle_min f.rel b.cache (unhidden io f.rel seen) ∙ found,
            size,
          ),
        ))
        l,
    λ q g h. c q g (found-age_staging io running idle_min q g b.cache h),
  )

  enforce_cap-Fits :
      (limit : ℕ) (w : List Scanned × Swept)
      → 0 < limit
      → IsExact w.1
      → AreListed w.0 w.1
      → Distinct w.0
      → Covered w.0 w.1
      → Fits limit (enforce_cap io running limit w)
  unfolding enforce_cap
  enforce_cap-Fits limit w pos x l d c = elim (Bool-cases (limit == 0 || leb w.1.0 limit)) [
    | inl e ↦ rw e (inl (rw (← x.2) (ground (arith, e))))
    | inr e ↦ rw e (
        cap_pass-Fits limit (sort_by_atime w.0) w.1 x (sort-All _ w.0 l) (sort-Distinct w.0 d)
          (λ q g h. rw has-sort (c q g h)))
  ]

-- A sweep over a cache with a cap ends with the cache within it, or with nothing in it but what has
-- queued work, is being downloaded or cannot be removed, and what the sweep does not see: staging,
-- and files whose metadata cannot be had; if the paths in the cache are canonical, each there once.
pub evict_once-Fits :
    (io : SweepIo) (running : Fetches) (idle_min limit : ℕ) (b : Backend)
    → 0 < limit
    → IsKept b.cache
    → let b' = (evict_once io running idle_min limit b).1 in
      (cache_usage io b' ≤ limit)
      ⊎ ((q : Bytes) (g : CachedFile)
          → lookup q b'.cache ≡ some g
          → (hidden io q ≡ true) ⊎ (can_evict io running b.journal q ≡ false))
unfolding evict_once cache_usage
evict_once-Fits io running idle_min limit b pos kept =
    let (x, l, d, c) = drop_idle-start io running b.journal idle_min b refl kept in
    let w = drop_idle io running idle_min b in
    let (x', l', c') = aged-Covered io running b.journal idle_min w x l c in
    rw scan_total-scan_cache
      (enforce_cap-Fits io running b.journal limit (aged io running idle_min w) pos x' l' d c')
