-- ===== src/Run.antt =====
-- `lg run`, internal/cli/run.go: its arguments, the barrier before a command, and where it runs. The
-- ignore patterns that the agent is started with are those of `remoteAgentCmd` of
-- internal/transport/dial.go and of internal/cli/serve.go.
pub mod Words
pub mod Barrier
mod Samples
use livegit.Prelude.{
  split_on, ℕ, Bool, true, false, not, ◌&&◌, ◌||◌, Option, none, some, List, [], ◌∷◌, ◌++◌, Bytes,
  codes, ◌==◌, bytes_eq, nat_eq, eqb, if◌then◌else◌, length, drop,
}
use livegit.Prefix.{slash}
use livegit.Paths.{PathMapper, rel, clean, has_prefix}
use livegit.Journal.{Journal, scan_pending_dir}
use livegit.Shellq.{join_quoted, quote}
use livegit.Jobs.{Code}

-- The leading flags of `lg run`
pub record RunFlags : Type 0 where
  pub local_fallback : Bool
  pub detach : Bool

abbrev pub no_flags : RunFlags
no_flags = record { local_fallback = false; detach = false }

abbrev pub fallback_flag : Bytes
fallback_flag = codes "--local-fallback"

abbrev pub detach_flag : Bytes
detach_flag = codes "--detach"

abbrev pub short_flag : Bytes
short_flag = codes "-d"

abbrev pub dashes : Bytes
dashes = codes "--"

unfoldable pub run_flags : RunFlags → List Bytes → RunFlags × List Bytes
run_flags flags [] = (flags, [])
run_flags flags (a ∷ args) =
    let fallback = run_flags (record flags { local_fallback = true }) args in
    let detached = run_flags (record flags { detach = true }) args in
    if a == fallback_flag
    then fallback
    else if a == detach_flag || a == short_flag
    then detached
    else (flags, a ∷ args)

-- `stripDashes`
unfoldable pub strip_dashes : List Bytes → List Bytes
strip_dashes [] = []
strip_dashes (a ∷ args) = if a == dashes then args else a ∷ args

unfoldable pub with_command : RunFlags → List Bytes → Option (RunFlags × List Bytes)
with_command flags [] = none
with_command flags (a ∷ words) = some (flags, a ∷ words)

-- What `newRunCmd` makes of its arguments; none is the error of usage.
unfoldable pub parse_run : List Bytes → Option (RunFlags × List Bytes)
unfolding run_flags strip_dashes with_command
parse_run args =
    let parsed = run_flags no_flags args in with_command parsed.0 (strip_dashes parsed.1)

-- `LocalToRel` of internal/config/paths.go; none is an error.
unfoldable pub local_to_rel : PathMapper → Bytes → Option Bytes
unfolding clean has_prefix rel
local_to_rel m path =
    let abs = clean path in
    let dir = if m.local_root == slash ∷ [] then slash ∷ [] else m.local_root ++ slash ∷ [] in
    if abs == m.local_root
    then some []
    else if has_prefix abs dir
    then some (rel (drop (length dir) abs))
    else none

-- `relDirOf`
unfoldable pub rel_dir_of : PathMapper → Bytes → Bytes
rel_dir_of m cwd = if cwd == [] then [] else elim (local_to_rel m cwd) [ none ↦ [] | some p ↦ p ]

-- What one round of `flushBarrier` meets: the journal whose file it reads, if it can, and whether
-- the deadline has passed and the client is online.
pub record Poll : Type 0 where
  pub journal : Journal
  pub readable : Bool
  pub late : Bool
  pub online : Bool

pub data BarrierAnswer : Type 0 where
  drained read_failed timed_out offline : BarrierAnswer

-- `flushBarrier`; none is that it still waits after these rounds.
unfoldable pub flush_barrier : Bytes → List Poll → Option BarrierAnswer
flush_barrier dir [] = none
flush_barrier dir (p ∷ polls) =
    let rest = flush_barrier dir polls in
    if not p.readable
    then some read_failed
    else if not (scan_pending_dir p.journal.disk dir)
    then some drained
    else if p.late
    then some timed_out
    else if not p.online
    then some offline
    else rest

-- Where a command ends up: in a shell on Source, as a job there, on this machine, or nowhere.
pub data Ran : Type 0 where
  nowhere : Ran
  on_source as_job : Bytes → Bytes → Ran
  locally : List Bytes → Ran

-- How the calls of `runRemote` go: the configuration, the ssh connection, being online in time, and
-- how the command ends on Source, as a job, or here.
pub record RunCallsIo : Type 0 where
  pub loaded : Bool
  pub authenticated : Bool
  pub online : Bool
  pub ended : Code × Bool
  pub job_started : Bool
  pub local_code : Code

abbrev failed : Code
failed = (false, 1)

-- An error never ends with code 0.
unfoldable pub code_of : Code × Bool → Code
code_of (code, fine) = if not fine && code.1 == 0 then failed else code

-- `runRemote` of internal/cli/run.go, in a directory; an answer of the barrier that is no success
-- is printed only.
unfoldable pub run_command : RunCallsIo → Bytes → RunFlags × List Bytes → Ran × Code
unfolding code_of
run_command io dir (flags, args) =
    let line = join_quoted args in
    if not io.loaded || (not flags.local_fallback && not io.authenticated)
    then (nowhere, failed)
    else if not io.online
    then (if flags.local_fallback then (locally args, io.local_code) else (nowhere, failed))
    else if flags.detach
    then (as_job line dir, if io.job_started then (false, 0) else failed)
    else (on_source line dir, code_of io.ended)

abbrev pub comma : ℕ
comma = b','

-- strings.Join(patterns, ",")
unfoldable pub join_commas : List Bytes → Bytes
join_commas [] = []
join_commas (p ∷ []) = p
join_commas (p ∷ q ∷ ps) = p ++ comma ∷ join_commas (q ∷ ps)

-- The patterns that `lg serve` hands to the agent
unfoldable pub serve_patterns : Bytes → List Bytes
serve_patterns ignore = if ignore == [] then [] else split_on comma ignore

-- `remoteAgentCmd`
unfoldable pub remote_agent_cmd : Bytes → Bytes → List Bytes → Bytes
unfolding join_commas
remote_agent_cmd bin root patterns =
    let cmd =
      codes "PATH=\"$HOME/.local/bin:$PATH\" "
      ++ (bin ++ (codes " serve --remote-root " ++ quote root)) in
    if join_commas patterns == []
    then cmd
    else cmd ++ (codes " --ignore " ++ quote (join_commas patterns))
