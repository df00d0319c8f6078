-- ===== src/Jobs.antt =====
-- Detached jobs, internal/agent/jobs.go and `resolveDir` of internal/agent/exec.go. The jobs directory
-- is a map from names to what stands there; systemd, the processes and the random numbers are given.
pub mod Start
pub mod Acts
pub mod Known
pub mod Tail
mod Samples
use livegit.Prelude.{
  ℕ, ◌+◌, ◌-◌, ◌*◌, ◌^◌, Bool, true, false, not, ◌&&◌, ◌||◌, Option, none, some, List, [], ◌∷◌,
  ◌++◌, map, Bytes, codes, ◌==◌, bytes_eq, nat_eq, eqb, ltb, leb, length, take, if◌then◌else◌,
  lookup, insert, delete,
}
use livegit.Prefix.{slash}
use livegit.Paths.{dot, join_path, has_prefix}
use livegit.Ignore.{trim_space}

-- `jobMeta`
pub record JobMeta : Type 0 where
  pub id : Bytes
  pub cmd : Bytes
  pub mode : Bytes
  pub unit : Bytes
  pub pid : ℕ
  pub started : ℕ

-- The files of a job's directory: meta.json as it is read back, and the bytes of the others.
pub record JobDir : Type 0 where
  pub meta : Option JobMeta
  pub exit : Option Bytes
  pub runner : Option Bytes

abbrev pub JobDirs : Type 0
JobDirs = List (Bytes × JobDir)

-- What of the host a call sees: whether a unit is active, and a process is there.
pub record Host : Type 0 where
  pub unit_active : Bytes → Bool
  pub process_there : ℕ → Bool

abbrev pub systemd : Bytes
systemd = codes "systemd"

abbrev pub nohup : Bytes
nohup = codes "nohup"

abbrev pub is_digit : ℕ → Bool
is_digit c = leb b'0' c && leb c b'9'

unfoldable pub all_bytes : (ℕ → Bool) → Bytes → Bool
all_bytes test [] = true
all_bytes test (c ∷ s) = test c && all_bytes test s

-- `isJobID`
unfoldable pub is_job_id : Bytes → Bool
unfolding all_bytes
is_job_id s = length s == 8 && all_bytes (λ c. is_digit c || (leb b'a' c && leb c b'f')) s

-- An int: negative or not, and its absolute value
abbrev pub Code : Type 0
Code = Bool × ℕ

-- The value of digits, after those read so far
unfoldable pub digits_value : ℕ → Bytes → ℕ
digits_value read [] = read
digits_value read (c ∷ s) = digits_value (10 * read + (c - b'0')) s

unfoldable pub unsigned : Bool → Bytes → Option Code
unfolding digits_value all_bytes
unsigned negative s =
    let n = digits_value 0 s in
    if s == [] || not (all_bytes is_digit s)
    then none
    else if ltb n (2 ^ 63) || (negative && n == 2 ^ 63)
    then some (negative, n)
    else none

-- strconv.Atoi
unfoldable pub atoi : Bytes → Option Code
unfolding unsigned
atoi [] = none
atoi (c ∷ s) =
    if c == b'-'
    then unsigned true s
    else if c == b'+'
    then unsigned false s
    else unsigned false (c ∷ s)

-- `exitCode`
unfoldable pub exit_code : Bytes → JobDirs → Option Code
unfolding atoi trim_space
exit_code id jobs = elim (lookup id jobs) [
  | none ↦ none
  | some d ↦ elim d.exit [ none ↦ none | some b ↦ atoi (trim_space b) ]
]

-- `readMeta`
unfoldable pub read_meta : Bytes → JobDirs → Option JobMeta
read_meta id jobs =
    if not (is_job_id id) then none else elim (lookup id jobs) [ none ↦ none | some d ↦ d.meta ]

-- `alive`
unfoldable pub alive : Host → JobMeta → Bool
alive host meta =
    if meta.mode == systemd
    then host.unit_active meta.unit
    else ltb 0 meta.pid && host.process_there meta.pid

pub data JobState : Type 0 where
  running dead : JobState
  finished : Code → JobState

-- internal/proto/messages.go, the state with its code
pub record JobInfo : Type 0 where
  pub id : Bytes
  pub cmd : Bytes
  pub state : JobState
  pub started : ℕ
  pub mode : Bytes

unfoldable pub state_of_job : Host → JobMeta → JobDirs → JobState
unfolding exit_code alive
state_of_job host meta jobs = elim (exit_code meta.id jobs) [
  | some code ↦ finished code
  | none ↦ if alive host meta then running else dead
]

-- sort.Slice by the time of start; jobs of one second come in any order, here that of the directory.
unfoldable pub insert_job : JobInfo → List JobInfo → List JobInfo
insert_job j [] = j ∷ []
insert_job j (k ∷ ks) = if ltb k.started j.started then k ∷ insert_job j ks else j ∷ k ∷ ks

-- What `list` makes of the names in the directory
unfoldable pub list_names : Host → JobDirs → JobDirs → List JobInfo
unfolding insert_job
list_names host jobs [] = []
list_names host jobs ((name, d) ∷ names) =
    let rest = list_names host jobs names in
    elim (read_meta name jobs) [
      | none ↦ rest
      | some meta ↦
          insert_job
            (record {
              id = meta.id;
              cmd = meta.cmd;
              state = state_of_job host meta jobs;
              started = meta.started;
              mode = meta.mode;
            })
            rest
    ]

-- `list`
unfoldable pub list_jobs : Host → JobDirs → List JobInfo
unfolding list_names
list_jobs host jobs = list_names host jobs jobs

-- The answers of `act`
pub data Acted : Type 0 where
  invalid_id no_such_job still_running unknown_action stop_failed no_pid remove_failed : Acted
  already_finished stopped signalled removed : Acted

-- How systemctl stop and os.RemoveAll go
pub record ActIo : Type 0 where
  pub stop_ok : Bool
  pub remove_ok : Bool

-- `kill`
unfoldable pub kill_job : ActIo → JobMeta → Acted
kill_job io meta =
    if meta.mode == systemd
    then (if io.stop_ok then stopped else stop_failed)
    else if meta.pid == 0
    then no_pid
    else signalled

-- The `rm` of `act`
unfoldable pub remove_job : Host → ActIo → Bytes → JobMeta → JobDirs → JobDirs × Acted
remove_job host io id meta jobs = elim (exit_code id jobs) [
  | none ↦
      if alive host meta
      then (jobs, still_running)
      else if io.remove_ok
      then (delete id jobs, removed)
      else (jobs, remove_failed)
  | some code ↦ if io.remove_ok then (delete id jobs, removed) else (jobs, remove_failed)
]

unfoldable pub act_on : Host → ActIo → Bytes → Bytes → JobMeta → JobDirs → JobDirs × Acted
unfolding remove_job kill_job
act_on host io id action meta jobs =
    if action == codes "kill"
    then elim (exit_code id jobs) [
      | some code ↦ (jobs, already_finished)
      | none ↦ (jobs, kill_job io meta)
    ]
    else if action == codes "rm"
    then remove_job host io id meta jobs
    else (jobs, unknown_action)

-- `act`
unfoldable pub act : Host → ActIo → Bytes → Bytes → JobDirs → JobDirs × Acted
act host io id action jobs =
    if not (is_job_id id) then (jobs, invalid_id) else elim (read_meta id jobs) [
      | none ↦ (jobs, no_such_job)
      | some meta ↦ act_on host io id action meta jobs
    ]
