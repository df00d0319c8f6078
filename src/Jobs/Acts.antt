-- ===== src/Jobs/Acts.antt =====
-- What an action on a job changes, internal/agent/jobs.go.
use mathlib.Core.Path.{subst}
use livegit.Prelude.{
  sym, ap, true, false, ◌≡◌, refl, inl, inr, ◌⊎◌, some, Bytes, codes, ◌==◌, bytes_eq, Bool-cases,
  Option-cases, delete,
}
use livegit.Jobs.{
  JobMeta, JobDirs, Host, ActIo, Code, exit_code, read_meta, alive, is_job_id, remove_job, act_on,
  act,
}

module _ (host : Host) (io : ActIo) (id action : Bytes) (jobs : JobDirs) where
  -- The job has ended: its exit code is there, or it is not alive.
  abbrev pub Ended : JobMeta → Type 0
  Ended meta = ((code : Code) × (exit_code id jobs ≡ some code)) ⊎ (alive host meta ≡ false)

  -- Nothing is changed, or a job that has ended is removed.
  abbrev pub OnlyEnded : JobDirs → Type 0
  OnlyEnded after =
      (after ≡ jobs)
      ⊎ ((meta : JobMeta) × (after ≡ delete id jobs)
          × (read_meta id jobs ≡ some meta)
          × ((action == codes "rm") ≡ true)
          × Ended meta)

  remove_job-OnlyEnded :
      (meta : JobMeta)
      → read_meta id jobs ≡ some meta
      → (action == codes "rm") ≡ true
      → OnlyEnded (remove_job host io id meta jobs).0
  unfolding remove_job
  remove_job-OnlyEnded meta known rm = elim (Option-cases (exit_code id jobs)) [
    | inl n ↦ elim (Bool-cases (alive host meta)) [
      | inl a ↦ inl (rw (n, remove_job, a) refl)
      | inr a ↦ elim (Bool-cases io.remove_ok) [
        | inl r ↦ inr (meta, rw (n, remove_job, a, r) refl, known, rm, inr a)
        | inr r ↦ inl (rw (n, remove_job, a, r) refl)
      ]
    ]
    | inr (code, e) ↦ elim (Bool-cases io.remove_ok) [
      | inl r ↦ inr (meta, rw (e, remove_job, r) refl, known, rm, inl (code, e))
      | inr r ↦ inl (rw (e, remove_job, r) refl)
    ]
  ]

  act_on-OnlyEnded :
      (meta : JobMeta)
      → read_meta id jobs ≡ some meta
      → OnlyEnded (act_on host io id action meta jobs).0
  unfolding act_on
  act_on-OnlyEnded meta known = elim (Bool-cases (action == codes "kill")) [
    | inl k ↦ elim (Option-cases (exit_code id jobs)) [
      | inl n ↦ inl (rw (k, act_on, n) refl)
      | inr (code, e) ↦ inl (rw (k, act_on, e) refl)
    ]
    | inr k ↦ elim (Bool-cases (action == codes "rm")) [
      | inl r ↦
          let step : act_on host io id action meta jobs ≡ remove_job host io id meta jobs =
            rw (k, r) refl in
          subst OnlyEnded (sym (ap (λ x. x.0) step)) (remove_job-OnlyEnded meta known r)
      | inr r ↦ inl (rw (k, r) refl)
    ]
  ]

  -- An action leaves the jobs as they are, or it removes one that has ended: the action is `rm`, the
  -- job of that name is known, and its exit code is there or it is not alive.
  pub act-OnlyEnded : OnlyEnded (act host io id action jobs).0
  unfolding act
  act-OnlyEnded = elim (Bool-cases (is_job_id id)) [
    | inr i ↦ inl (rw i refl)
    | inl i ↦ elim (Option-cases (read_meta id jobs)) [
      | inl n ↦ inl (rw (i, act, n) refl)
      | inr (meta, known) ↦
          let step : act host io id action jobs ≡ act_on host io id action meta jobs =
            rw (i, act, known) refl in
          subst OnlyEnded (sym (ap (λ x. x.0) step)) (act_on-OnlyEnded meta known)
    ]
  ]
