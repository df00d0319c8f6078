-- ===== src/Jobs/Known.antt =====
-- A job that was started is known to every later agent, internal/agent/jobs.go.
use mathlib.Core.Path.{subst}
use livegit.Prelude.{
  sym, bytes_beq_refl, ℕ, ◌/◌, ◌%◌, ◌<◌, true, ◌&&◌, ◌||◌, ◌≡◌, refl, ap, ◌∙◌, inl, inr, arith,
  none, some, [], ◌∷◌, Bytes, codes, ◌==◌, bytes_eq, nat_eq, leb, if◌then◌else◌, lookup, insert,
  delete, List, ltb, ◌⊎◌, bytes_beq_iff, lookup-insert, bytes_beq, Bool-cases, Option-cases,
}
use livegit.Ignore.{trim_space}
use livegit.Jobs.{
  JobMeta, JobDir, JobDirs, JobInfo, JobState, Host, ActIo, Acted, Code, running, dead, finished,
  still_running, removed, remove_failed, insert_job, list_names, list_jobs, atoi, is_job_id,
  read_meta, exit_code, alive, state_of_job, act, act_on, remove_job,
}
use livegit.Jobs.Start.{
  StartIo, hex_digit, hex_encode, start_nohup, launch, with_runner, write_meta, launched, start_as,
  start,
}

is_hex :
    (c : ℕ)
    → c < 16
    → ((leb b'0' (hex_digit c) && leb (hex_digit c) b'9')
        || (leb b'a' (hex_digit c) && leb (hex_digit c) b'f'))
      ≡ true
is_hex c h = ground arith

-- Four random bytes make a number that is accepted.
pub is_job_id-hex_encode :
    (a b c d : ℕ)
    → a < 256
    → b < 256
    → c < 256
    → d < 256
    → is_job_id (hex_encode (a ∷ b ∷ c ∷ d ∷ [])) ≡ true
unfolding is_job_id hex_encode
is_job_id-hex_encode a b c d ha hb hc hd =
    rw
      (
        is_hex (a / 16) (omega arith),
        is_hex (a % 16) (omega arith),
        is_hex (b / 16) (omega arith),
        is_hex (b % 16) (omega arith),
        is_hex (c / 16) (omega arith),
        is_hex (c % 16) (omega arith),
        is_hex (d / 16) (omega arith),
        is_hex (d % 16) (omega arith),
      )
      refl

launch-id :
    (io : StartIo) (meta m : JobMeta) (note : Bytes)
    → launch io meta ≡ some (m, note)
    → (m.id ≡ meta.id) × (m.cmd ≡ meta.cmd)
unfolding launch start_nohup
launch-id io meta m note h = ground arith

-- The entry is in a list.
abbrev pub IsIn : JobInfo → List JobInfo → Type 0
IsIn j [] = ⊥
IsIn j (k ∷ ks) = (j ≡ k) ⊎ IsIn j ks

-- The runner of a job writes the file of its exit code.
abbrev pub exits : Bytes → Bytes → JobDirs → JobDirs
exits id text jobs = elim (lookup id jobs) [
  | none ↦ jobs
  | some d ↦ insert id (record d { exit = some text }) jobs
]

abbrev pub rm : Host → ActIo → Bytes → JobDirs → JobDirs × Acted
rm host aio id = act host aio id (codes "rm")

abbrev pub info_of : JobMeta → JobState → JobInfo
info_of m s = record { id = m.id; cmd = m.cmd; state = s; started = m.started; mode = m.mode }

-- The directory goes if os.RemoveAll lets it.
abbrev pub taken_away : ActIo → Bytes → JobDirs → JobDirs × Acted
taken_away aio id jobs = if aio.remove_ok then (delete id jobs, removed) else (jobs, remove_failed)

-- What each agent knows of a job whose exit code is not written
abbrev pub Unfinished : Host → ActIo → Bytes → JobMeta → JobDirs → Type 0
Unfinished host aio id m after =
    IsIn (info_of m (if alive host m then running else dead)) (list_jobs host after)
    × (rm host aio id after
        ≡ (if alive host m then (after, still_running) else taken_away aio id after))

-- What it knows once the code is written, whether the job's process is there or not
abbrev pub Finished : Host → ActIo → Bytes → JobMeta → JobDirs → Type 0
Finished host aio id m after =
    (text : Bytes) (code : Code)
    → atoi (trim_space text) ≡ some code
    → IsIn (info_of m (finished code)) (list_jobs host (exits id text after))
      × (rm host aio id (exits id text after) ≡ taken_away aio id (exits id text after))

-- What each agent knows of a job from its start on.
abbrev pub Known : Bytes → JobDirs → Host → ActIo → Bytes → JobDirs → Type 0
Known id jobs host aio cmd after =
    (m : JobMeta) × (m.id ≡ id)
    × (m.cmd ≡ cmd)
    × Unfinished host aio id m after
    × Finished host aio id m after
    × ((k : Bytes) → lookup k after ≡ (if id == k then lookup id after else lookup k jobs))

IsIn-insert_job : (j : JobInfo) (ks : List JobInfo) → IsIn j (insert_job j ks)
unfolding insert_job
IsIn-insert_job j [] = inl refl
IsIn-insert_job j (k ∷ ks) = elim (Bool-cases (ltb k.started j.started)) [
  | inl e ↦ rw e (inr (IsIn-insert_job j ks))
  | inr e ↦ rw e (inl refl)
]

insert_job-IsIn : (i j : JobInfo) (ks : List JobInfo) → IsIn i ks → IsIn i (insert_job j ks)
unfolding insert_job
insert_job-IsIn i j [] h = absurd h
insert_job-IsIn i j (k ∷ ks) h = elim (Bool-cases (ltb k.started j.started)) [
  | inl e ↦ rw e (elim h [ inl y ↦ inl y | inr y ↦ inr (insert_job-IsIn i j ks y) ])
  | inr e ↦ rw e (inr h)
]

-- A job whose identity can be read is listed where its name is in the directory.
list_names-IsIn :
    (host : Host) (id : Bytes) (m : JobMeta) (jobs names : JobDirs) (d : JobDir)
    → read_meta id jobs ≡ some m
    → lookup id names ≡ some d
    → IsIn (info_of m (state_of_job host m jobs)) (list_names host jobs names)
unfolding list_names lookup
list_names-IsIn host id m jobs [] d known found = cc
list_names-IsIn host id m jobs ((name, d') ∷ names) d known found = elim (Bool-cases (name == id)) [
  | inl e ↦
      let same : read_meta name jobs ≡ some m =
        ap (λ k. read_meta k jobs) ((bytes_beq_iff name id).0 e) ∙ known in
      let step : list_names host jobs ((name, d') ∷ names)
          ≡ insert_job (info_of m (state_of_job host m jobs)) (list_names host jobs names) =
        rw (list_names, same) refl in
      subst (IsIn (info_of m (state_of_job host m jobs))) (sym step)
        (IsIn-insert_job (info_of m (state_of_job host m jobs)) (list_names host jobs names))
  | inr e ↦
      let below = list_names-IsIn host id m jobs names d known (simp e at found) in
      elim (Option-cases (read_meta name jobs)) [
        | inl n ↦
            let step : list_names host jobs ((name, d') ∷ names) ≡ list_names host jobs names =
              rw (list_names, n) refl in
            subst (IsIn (info_of m (state_of_job host m jobs))) (sym step) below
        | inr (m', s) ↦
            let step : list_names host jobs ((name, d') ∷ names)
                ≡ insert_job (info_of m' (state_of_job host m' jobs)) (list_names host jobs names) =
              rw (list_names, s) refl in
            subst (IsIn (info_of m (state_of_job host m jobs))) (sym step) (
              insert_job-IsIn (info_of m (state_of_job host m jobs))
                (info_of m' (state_of_job host m' jobs)) (list_names host jobs names) below)
      ]
]

-- A directory with the identity of a job
module _ (id : Bytes) (m : JobMeta) (d : JobDir) (jobs : JobDirs) (host : Host) (aio : ActIo)
    (valid : is_job_id id ≡ true) (own : m.id ≡ id) (found : lookup id jobs ≡ some d)
    (named : d.meta ≡ some m) where
  read_meta-found : read_meta id jobs ≡ some m
  unfolding read_meta
  read_meta-found = rw (valid, found) named

  listed : IsIn (info_of m (state_of_job host m jobs)) (list_jobs host jobs)
  unfolding list_jobs
  listed = list_names-IsIn host id m jobs jobs d read_meta-found found

  rm-remove_job : rm host aio id jobs ≡ remove_job host aio id m jobs
  unfolding act act_on bytes_beq
  rm-remove_job = rw (valid, read_meta-found) refl

  state-none :
      exit_code id jobs ≡ none → state_of_job host m jobs ≡ (if alive host m then running else dead)
  unfolding state_of_job
  state-none code =
      let own_code : exit_code m.id jobs ≡ none = ap (λ k. exit_code k jobs) own ∙ code in
      rw (state_of_job, own_code) refl

  state-some :
      (code : Code) → exit_code id jobs ≡ some code → state_of_job host m jobs ≡ finished code
  unfolding state_of_job
  state-some code known =
      let own_code : exit_code m.id jobs ≡ some code = ap (λ k. exit_code k jobs) own ∙ known in
      rw (state_of_job, own_code) refl

  remove-none :
      exit_code id jobs ≡ none
      → remove_job host aio id m jobs
        ≡ (if alive host m then (jobs, still_running) else taken_away aio id jobs)
  unfolding remove_job
  remove-none code = rw (remove_job, code) refl

  remove-some :
      (code : Code)
      → exit_code id jobs ≡ some code
      → remove_job host aio id m jobs ≡ taken_away aio id jobs
  unfolding remove_job
  remove-some code known = rw (remove_job, known) refl

  listed_as :
      (s : JobState) → state_of_job host m jobs ≡ s → IsIn (info_of m s) (list_jobs host jobs)
  listed_as s e = subst (λ x. IsIn (info_of m x) (list_jobs host jobs)) e listed

  -- Without an exit code the host is asked.
  unfinished : d.exit ≡ none → Unfinished host aio id m jobs
  unfolding exit_code
  unfinished unwritten =
      let code : exit_code id jobs ≡ none = rw (exit_code, found, unwritten) refl in
      (listed_as _ (state-none code), rm-remove_job ∙ remove-none code)

  ended :
      (text : Bytes) (code : Code)
      → d.exit ≡ some text
      → atoi (trim_space text) ≡ some code
      → IsIn (info_of m (finished code)) (list_jobs host jobs)
        × (rm host aio id jobs ≡ taken_away aio id jobs)
  unfolding exit_code
  ended text code written parsed =
      let known : exit_code id jobs ≡ some code = rw (exit_code, found, written) parsed in
      (listed_as _ (state-some code known), rm-remove_job ∙ remove-some code known)

module _ (id text : Bytes) (jobs : JobDirs) where
  -- The job's directory before and after its identity is written
  abbrev bare : JobDir
  bare = record { meta = none; exit = none; runner = some text }

  abbrev with_job : JobMeta → JobDirs
  with_job m =
      insert id (record { meta = some m; exit = none; runner = some text }) (insert id bare jobs)

  write_meta-fresh :
      (m : JobMeta)
      → lookup id jobs ≡ none
      → m.id ≡ id
      → write_meta true m (with_runner id text jobs) ≡ with_job m
  unfolding write_meta
  write_meta-fresh m fresh own =
      let runner : with_runner id text jobs ≡ insert id bare jobs = rw (fresh, with_runner) refl in
      let found : lookup m.id (insert id bare jobs) ≡ some bare =
        rw own (lookup-insert id id bare jobs ∙ rw (bytes_beq_refl id) refl) in
      ap (write_meta true m) runner
      ∙ rw (write_meta, found)
          (ap (λ k. insert k (record bare { meta = some m }) (insert id bare jobs)) own)

  found_job :
      (m : JobMeta) (k : Bytes)
      → lookup k (with_job m) ≡ (
          if id == k
          then some (record { meta = some m; exit = none; runner = some text })
          else lookup k jobs)
  found_job m k = lookup-insert id k _ (insert id bare jobs) ∙ elim (Bool-cases (id == k)) [
    | inl e ↦ rw e refl
    | inr e ↦ rw e (lookup-insert id k bare jobs ∙ rw e refl)
  ]

  module _ (m : JobMeta) (own : m.id ≡ id) where
    abbrev its_dir : JobDir
    its_dir = record { meta = some m; exit = none; runner = some text }

    found_self : lookup id (with_job m) ≡ some its_dir
    found_self = found_job m id ∙ rw (bytes_beq_refl id) refl

    with_job-Finished :
        (host : Host) (aio : ActIo) → is_job_id id ≡ true → Finished host aio id m (with_job m)
    with_job-Finished host aio valid exit code parsed =
        let after : JobDirs = insert id (record its_dir { exit = some exit }) (with_job m) in
        let same : exits id exit (with_job m) ≡ after = rw (exits, found_self) refl in
        let at : lookup id after ≡ some (record its_dir { exit = some exit }) =
          lookup-insert id id _ (with_job m) ∙ rw (bytes_beq_refl id) refl in
        rw same (
          ended id m (record its_dir { exit = some exit }) after host aio valid own at refl exit
            code refl parsed)

    with_job-Known :
        (host : Host) (aio : ActIo)
        → is_job_id id ≡ true
        → Known id jobs host aio m.cmd (with_job m)
    with_job-Known host aio valid = (
      m,
      own,
      refl,
      unfinished id m its_dir (with_job m) host aio valid own found_self refl refl,
      with_job-Finished host aio valid,
      λ k. found_job m k ∙ rw found_self refl,
    )

  launched-Known :
      (host : Host) (aio : ActIo) (io : StartIo) (meta : JobMeta) {r : JobInfo × Bytes}
      → is_job_id id ≡ true
      → meta.id ≡ id
      → lookup id jobs ≡ none
      → io.meta_ok ≡ true
      → (launched io id (launch io meta) (with_runner id text jobs)).1 ≡ some r
      → Known id jobs host aio meta.cmd
          (launched io id (launch io meta) (with_runner id text jobs)).0
  unfolding launched
  launched-Known host aio io meta valid own fresh written h = elim (Option-cases (launch io meta)) [
    | inl n ↦ cc (rw (launched, n) at h)
    | inr ((m, note), l) ↦
        let (same_id, same_cmd) = launch-id io meta m note l in
        let after : (launched io id (launch io meta) (with_runner id text jobs)).0 ≡ with_job m =
          rw (launched, l, written) (write_meta-fresh m fresh (same_id ∙ own)) in
        rw (after, ← same_cmd) (with_job-Known m (same_id ∙ own) host aio valid)
  ]

-- A job whose start is answered without an error, and whose identity could be written, is known to
-- every later agent under its number: it is listed, as running while it is alive and as dead else
-- until its exit code is written, and as finished with that code from then on; `rm` declines it and
-- leaves its directory while it is alive without a code, and else removes the directory if that is
-- possible; and no other job is touched, if the random bytes name no job that is there.
pub start-Known :
    (host : Host) (aio : ActIo) (io : StartIo) (root dir cmd cwd : Bytes) (a b c d : ℕ)
    (jobs : JobDirs) {r : JobInfo × Bytes}
    → io.random ≡ some (a ∷ b ∷ c ∷ d ∷ [])
    → (a < 256) × (b < 256) × (c < 256) × (d < 256)
    → lookup (hex_encode (a ∷ b ∷ c ∷ d ∷ [])) jobs ≡ none
    → io.meta_ok ≡ true
    → (start io root dir cmd cwd jobs).1 ≡ some r
    → Known (hex_encode (a ∷ b ∷ c ∷ d ∷ [])) jobs host aio cmd (start io root dir cmd cwd jobs).0
unfolding start start_as
start-Known host aio io root dir cmd cwd a b c d jobs random bytes fresh written h =
    let valid = is_job_id-hex_encode a b c d bytes.0 bytes.1 bytes.2 bytes.3 in
    let meta : JobMeta = record {
      id = hex_encode (a ∷ b ∷ c ∷ d ∷ []);
      cmd = cmd;
      mode = [];
      unit = [];
      pid = 0;
      started = io.now;
    } in
    elim (Bool-cases (trim_space cmd == [])) [
      | inl e ↦ cc (simp e at h)
      | inr e ↦ elim (Bool-cases io.mkdir_ok) [
        | inr k ↦ cc (rw (e, start, random, k) at h)
        | inl k ↦ elim (Bool-cases io.write_ok) [
          | inr w ↦ cc (rw (e, start, random, k, w) at h)
          | inl w ↦
              rw (e, start, random, k, w)
                (launched-Known _ _ jobs host aio io meta valid refl fresh written
                  (rw (e, start, random, k, w) at h))
        ]
      ]
    ]
