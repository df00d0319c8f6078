-- ===== src/Jobs/Start.antt =====
-- Starting a detached job, `start` of internal/agent/jobs.go, with its numbers and its directory.
use livegit.Prelude.{
  ℕ, ◌+◌, ◌-◌, ◌/◌, ◌%◌, Bool, not, ◌&&◌, ◌||◌, Option, none, some, List, [], ◌∷◌, ◌++◌, Bytes,
  codes, ◌==◌, bytes_eq, nat_eq, ltb, leb, length, take, if◌then◌else◌, lookup, insert, delete,
}
use livegit.Prefix.{slash}
use livegit.Paths.{dot, join_path, has_prefix}
use livegit.Shellq.{quote}
use livegit.Ignore.{trim_space}
use livegit.Jobs.{JobMeta, JobDirs, JobInfo, running, systemd, nohup}

abbrev pub hex_digit : ℕ → ℕ
hex_digit n = if ltb n 10 then b'0' + n else b'a' + (n - 10)

-- hex.EncodeToString
unfoldable pub hex_encode : Bytes → Bytes
hex_encode [] = []
hex_encode (c ∷ s) = hex_digit (c / 16) ∷ hex_digit (c % 16) ∷ hex_encode s

-- `resolveDir`: a path that escapes the root is the root.
unfoldable pub resolve_dir : Bytes → Bytes → Bytes
resolve_dir root p =
    let abs = join_path root p in
    if p == [] || p == dot
    then root
    else if not (abs == root) && not (has_prefix abs (root ++ slash ∷ []))
    then root
    else abs

-- `truncate`; the last sign is an ellipsis of three bytes.
unfoldable pub truncate : Bytes → ℕ → Bytes
truncate s n = if leb (length s) n then s else take (n - 1) s ++ 226 ∷ 128 ∷ 166 ∷ []

-- What stands before the first line break
unfoldable pub before_break : Bytes → Bytes
before_break [] = []
before_break (c ∷ s) = let rest = before_break s in if c == 10 then [] else c ∷ rest

-- `firstLine`
unfoldable pub first_line : Bytes → Bytes
first_line s = before_break (trim_space s)

-- `joinNotes`
unfoldable pub join_notes : Bytes → Bytes → Bytes
join_notes a b = if a == [] then b else if b == [] then a else a ++ codes "; " ++ b

unfoldable pub concat : List Bytes → Bytes
concat [] = []
concat (s ∷ ss) = s ++ concat ss

abbrev line_break : Bytes
line_break = 10 ∷ []

-- The wrapper that runs the command and leaves its exit code
unfoldable pub script : Bytes → Bytes → Bytes → Bytes → Bytes → Bytes
unfolding concat
script abs root cmd exit log = concat (
    codes "#!/bin/sh"
    ∷ line_break
    ∷ codes "cd "
    ∷ quote abs
    ∷ codes " 2>/dev/null || cd "
    ∷ quote root
    ∷ codes " || exit 1"
    ∷ line_break
    ∷ codes "{ sh -lc "
    ∷ quote cmd
    ∷ codes "; echo $? > "
    ∷ quote exit
    ∷ codes "; } > "
    ∷ quote log
    ∷ codes " 2>&1"
    ∷ line_break
    ∷ [])

-- What the host answers a start: four random bytes, the system calls, systemd-run with its output
-- where it fails, and the process that nohup starts.
pub record StartIo : Type 0 where
  pub random : Option Bytes
  pub mkdir_ok : Bool
  pub write_ok : Bool
  pub force_nohup : Bool
  pub linger_note : Bytes
  pub systemd_ok : Bool
  pub systemd_error : Option Bytes
  pub nohup_pid : Option ℕ
  pub meta_ok : Bool
  pub now : ℕ

-- `startNohup`
unfoldable pub start_nohup : StartIo → JobMeta → Option JobMeta
start_nohup io meta = elim io.nohup_pid [
  | none ↦ none
  | some p ↦ some (record meta { mode = nohup; pid = p })
]

abbrev with_note : Bytes → Option JobMeta → Option (JobMeta × Bytes)
with_note note none = none
with_note note (some meta) = some (meta, note)

abbrev unavailable_note : Bytes
unavailable_note =
    codes "systemd --user unavailable on Source; job started detached via nohup "
    ++ 226
      ∷ 128
      ∷ (148 ∷ codes " run `loginctl enable-linger` there for it to survive a full logout")

-- The launch by systemd or by nohup, with the note for the user
unfoldable pub launch : StartIo → JobMeta → Option (JobMeta × Bytes)
unfolding start_nohup first_line
launch io meta =
    if not io.force_nohup && io.systemd_ok
    then elim io.systemd_error [
      | none ↦ some (record meta { mode = systemd; unit = codes "lg-job-" ++ meta.id }, [])
      | some out ↦
          with_note
            (codes "systemd-run --user failed ("
              ++ (first_line out ++ codes "); launched via nohup instead"))
            (start_nohup io meta)
    ]
    else with_note unavailable_note (start_nohup io meta)

-- The job's directory when its runner is written
abbrev pub with_runner : Bytes → Bytes → JobDirs → JobDirs
with_runner id text jobs = elim (lookup id jobs) [
  | none ↦ insert id (record { meta = none; exit = none; runner = some text }) jobs
  | some d ↦ insert id (record d { runner = some text }) jobs
]

-- `writeMeta`
unfoldable pub write_meta : Bool → JobMeta → JobDirs → JobDirs
write_meta written meta jobs = elim (lookup meta.id jobs) [
  | none ↦ jobs
  | some d ↦ if written then insert meta.id (record d { meta = some meta }) jobs else jobs
]

-- The end of `start`
unfoldable pub launched :
    StartIo → Bytes → Option (JobMeta × Bytes) → JobDirs → JobDirs × Option (JobInfo × Bytes)
unfolding write_meta
launched io id none jobs = (delete id jobs, none)
launched io id (some (meta, warn)) jobs = (
  write_meta io.meta_ok meta jobs,
  some (
    record { id = id; cmd = meta.cmd; state = running; started = meta.started; mode = meta.mode },
    join_notes warn (if io.force_nohup then [] else io.linger_note),
  ),
)

unfoldable pub start_as :
    StartIo → Bytes → Bytes → Bytes → Bytes → Bytes → JobDirs → JobDirs × Option (JobInfo × Bytes)
unfolding launch launched
start_as io root dir cmd cwd id jobs =
    let job = join_path dir id in
    let text =
      script (resolve_dir root cwd) root cmd (join_path job (codes "exit"))
        (join_path job (codes "log")) in
    let meta : JobMeta = record {
      id = id;
      cmd = cmd;
      mode = [];
      unit = [];
      pid = 0;
      started = io.now;
    } in
    if not io.mkdir_ok
    then (jobs, none)
    else if not io.write_ok
    then (delete id jobs, none)
    else launched io id (launch io meta) (with_runner id text jobs)

-- `start`, with the remote root and the directory of jobs; none is an error.
unfoldable pub start :
    StartIo → Bytes → Bytes → Bytes → Bytes → JobDirs → JobDirs × Option (JobInfo × Bytes)
unfolding start_as hex_encode
start io root dir cmd cwd jobs = if trim_space cmd == [] then (jobs, none) else elim io.random [
  | none ↦ (jobs, none)
  | some bytes ↦ start_as io root dir cmd cwd (hex_encode bytes) jobs
]
