-- ===== src/Evict/Pass.antt =====
-- What a sweep never takes, internal/fuse/cache.go.
use livegit.Prelude.{
  bytes_beq_ne, ℕ, ◌-◌, ◌*◌, ◌≡◌, ◌≢◌, refl, ap, ◌∙◌, inl, inr, true, false, ◌&&◌, ◌||◌, arith,
  List, [], ◌∷◌, Bytes, ◌==◌, bytes_eq, nat_eq, if◌then◌else◌, Bool-cases, lookup, lookup-delete,
  ltb, leb,
}
use livegit.Journal.{has_pending}
use livegit.Backend.{Backend, drop_content}
use livegit.Fetch.{Fetches, fetch_active}
use livegit.Evict.{
  Scanned, SweepIo, Swept, can_evict, evict, idle_step, idle_pass, cap_step, cap_pass, scan_cache,
  contains, tmp_suffix, aged, scan_total, sort_by_atime, enforce_cap, drop_idle, evict_once,
}
use livegit.Evict.Ageing.{lookup-age_staging}
use livegit.Paths.{base}

-- The state once a file went.
abbrev pub without : Scanned → Swept → Swept
without f s = (s.0 - f.size, drop_content f.rel s.1)

module _ (io : SweepIo) (running : Fetches) (f : Scanned) where
  pub evict_lem :
      (b : Backend)
      → evict io running f b ≡ (
          if can_evict io running b.journal f.rel then (drop_content f.rel b, true) else (b, false))
  unfolding evict can_evict
  evict_lem b = elim (Bool-cases (has_pending f.rel b.journal || fetch_active f.rel running)) [
    | inl e ↦ rw (evict, can_evict, e) refl
    | inr e ↦ elim (Bool-cases (io.remove_ok f.rel)) [
      | inl r ↦ rw (evict, can_evict, e, r) refl
      | inr r ↦ rw (evict, can_evict, e, r) refl
    ]
  ]

  pub idle_step_lem :
      (cutoff : ℕ) (s : Swept)
      → idle_step io running cutoff f s ≡ (
          if ltb f.atime cutoff && can_evict io running s.1.journal f.rel
          then (true, without f s)
          else (false, s))
  unfolding idle_step
  idle_step_lem cutoff (total, b) = rw (evict_lem b) (ground arith)

  pub cap_step_lem :
      (s : Swept)
      → cap_step io running f s
        ≡ (if can_evict io running s.1.journal f.rel then without f s else s)
  unfolding cap_step
  cap_step_lem (total, b) = rw (evict_lem b) (ground arith)

journal-drop_content : (p : Bytes) (b : Backend) → (drop_content p b).journal ≡ b.journal
unfolding drop_content
journal-drop_content p b = refl

cache-drop_content :
    (p q : Bytes) (b : Backend) → p ≢ q → lookup q (drop_content p b).cache ≡ lookup q b.cache
unfolding drop_content
cache-drop_content p q b ne = lookup-delete p q b.cache ∙ rw (bytes_beq_ne p q ne)

module _ (io : SweepIo) (running : Fetches) (q : Bytes) (b : Backend) where
  -- The journal is as it was, and so are the bytes of the path.
  abbrev pub Keeps : Backend → Type 0
  Keeps b' = (b'.journal ≡ b.journal) × (lookup q b'.cache ≡ lookup q b.cache)

  module _ (stays : can_evict io running b.journal q ≡ false) where
    without-Keeps :
        (f : Scanned) (s : Swept)
        → can_evict io running s.1.journal f.rel ≡ true
        → Keeps s.1
        → Keeps (without f s).1
    without-Keeps f s goes (j, c) =
        let other : f.rel ≢ q = λ e. ground (
          arith,
          stays,
          goes,
          ap (can_evict io running b.journal) e,
          ap (λ x. can_evict io running x f.rel) j,
        ) in
        (journal-drop_content f.rel s.1 ∙ j, cache-drop_content f.rel q s.1 other ∙ c)

    idle_step-Keeps :
        (cutoff : ℕ) (f : Scanned) (s : Swept)
        → Keeps s.1
        → Keeps (idle_step io running cutoff f s).1.1
    idle_step-Keeps cutoff f s k =
        rw idle_step_lem
          (elim (Bool-cases (ltb f.atime cutoff && can_evict io running s.1.journal f.rel)) [
            | inl e ↦ rw e (without-Keeps f s (ground arith) k)
            | inr e ↦ rw e k
          ])

    idle_pass-Keeps :
        (cutoff : ℕ) (files : List Scanned) (s : Swept)
        → Keeps s.1
        → Keeps (idle_pass io running cutoff files s).1.1
    unfolding idle_pass
    idle_pass-Keeps cutoff [] s k = k
    idle_pass-Keeps cutoff (f ∷ files) s k =
        idle_pass-Keeps cutoff files (idle_step io running cutoff f s).1
          (idle_step-Keeps cutoff f s k)

    cap_step-Keeps : (f : Scanned) (s : Swept) → Keeps s.1 → Keeps (cap_step io running f s).1
    cap_step-Keeps f s k =
        rw cap_step_lem (elim (Bool-cases (can_evict io running s.1.journal f.rel)) [
          | inl e ↦ rw e (without-Keeps f s e k)
          | inr e ↦ rw e k
        ])

    cap_pass-Keeps :
        (limit : ℕ) (files : List Scanned) (s : Swept)
        → Keeps s.1
        → Keeps (cap_pass io running limit files s).1
    unfolding cap_pass
    cap_pass-Keeps limit [] s k = k
    cap_pass-Keeps limit (f ∷ files) s k = elim (Bool-cases (leb s.0 limit)) [
      | inl e ↦ rw e k
      | inr e ↦ rw e (cap_pass-Keeps limit files (cap_step io running f s) (cap_step-Keeps f s k))
    ]

    enforce_cap-Keeps :
        (limit : ℕ) (w : List Scanned × Swept)
        → Keeps w.1.1
        → Keeps (enforce_cap io running limit w).1
    unfolding enforce_cap
    enforce_cap-Keeps limit w k = elim (Bool-cases (limit == 0 || leb w.1.0 limit)) [
      | inl e ↦ rw e k
      | inr e ↦ rw e (cap_pass-Keeps limit (sort_by_atime w.0) w.1 k)
    ]

    drop_idle-Keeps : (idle_min : ℕ) → Keeps (drop_idle io running idle_min b).1.1
    unfolding drop_idle
    drop_idle-Keeps idle_min =
        let files = scan_cache io b.cache in
        let start : Swept = (scan_total files, b) in
        elim (Bool-cases (idle_min == 0)) [
          | inl e ↦ rw e (refl, refl)
          | inr e ↦ rw e (idle_pass-Keeps (io.now - idle_min * 60) files start (refl, refl))
        ]

  -- Whatever is idle and however full the cache is, a sweep leaves the bytes of a path that has
  -- queued work or is being downloaded, if the path's last name does not contain `.lg-tmp`, and the
  -- journal.
  pub evict_once-Keeps :
      (idle_min limit : ℕ)
      → (has_pending q b.journal || fetch_active q running) ≡ true
      → contains (base q) tmp_suffix ≡ false
      → Keeps (evict_once io running idle_min limit b).1
  unfolding evict_once
  evict_once-Keeps idle_min limit held plain =
      let stays : can_evict io running b.journal q ≡ false = unfold can_evict in rw held refl in
      let idle = drop_idle-Keeps stays idle_min in
      let w = drop_idle io running idle_min b in
      enforce_cap-Keeps stays limit (aged io running idle_min w)
        (idle.0, lookup-age_staging io running idle_min q w.1.1.cache plain ∙ idle.1)
