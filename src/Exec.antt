-- ===== src/Exec.antt =====
-- One command on Source: the hub of internal/agent/exec.go and `RunRemote` of internal/shell/run.go.
-- A token is the number in it; a control endpoint and a pty are numbers too. The bytes that pass
-- between the terminal and the pty are left out.
pub mod Pairing
pub mod Unstarted
mod Samples
use livegit.Prelude.{
  ℕ, ◌+◌, ◌%◌, ◌^◌, Bool, true, false, not, ◌&&◌, ◌||◌, Option, none, some, List, [], ◌∷◌, ◌++◌,
  Bytes, codes, ◌==◌, bytes_eq, nat_eq, if◌then◌else◌, lookup, insert, delete,
}
use livegit.Jobs.{Code}

-- internal/proto/messages.go
pub record ExecReq : Type 0 where
  pub cmd : Bytes
  pub cwd : Bytes
  pub cols : ℕ
  pub rows : ℕ
  pub term : Bytes

-- `execSession`; its token is the key that it is found by.
pub record ExecSession : Type 0 where
  pub cmd : Bytes
  pub cwd : Bytes
  pub cols : ℕ
  pub rows : ℕ
  pub term : Bytes
  pub ctl : ℕ
  pub pt : Option ℕ

-- `execHub`, with the token that each control endpoint holds, and what was pushed to the endpoints,
-- the last first.
pub record ExecHub : Type 0 where
  pub wait : List (ℕ × ExecSession)
  pub seq : ℕ
  pub tokens : List (ℕ × ℕ)
  pub pushed : List (ℕ × Code)

abbrev pub new_exec_hub : ExecHub
new_exec_hub = record { wait = []; seq = 0; tokens = []; pushed = [] }

abbrev pub default_term : Bytes
default_term = codes "xterm-256color"

-- The session of a request
unfoldable pub new_session : ℕ → ExecReq → ExecSession
new_session ctl req = record {
  cmd = req.cmd;
  cwd = req.cwd;
  cols = req.cols;
  rows = req.rows;
  term = if req.term == [] then default_term else req.term;
  ctl = ctl;
  pt = none;
}

-- The ExecReq of `serveControl`, on an endpoint: the hub, and the token of the answer.
unfoldable pub exec_req : ℕ → ExecReq → ExecHub → ExecHub × ℕ
unfolding new_session
exec_req ctl req h =
    let t = (h.seq + 1) % 2 ^ 64 in
    (
      record h {
        seq = t;
        tokens = insert ctl t h.tokens;
        wait = insert t (new_session ctl req) h.wait;
      },
      t,
    )

-- The Resize of `serveControl`: the pty that is resized, if there is one.
unfoldable pub resize : ℕ → ExecHub → Option ℕ
resize ctl h = elim (lookup ctl h.tokens) [
  | none ↦ none
  | some t ↦ elim (lookup t h.wait) [ none ↦ none | some s ↦ s.pt ]
]

-- `finish`; no endpoint is a nil one, to which nothing is pushed.
unfoldable pub finish : ℕ → Code → Option ℕ → ExecHub → ExecHub
finish t code none h = record h { wait = delete t h.wait }
finish t code (some ctl) h = record h { wait = delete t h.wait; pushed = (ctl, code) ∷ h.pushed }

-- What becomes of a data stream: its token is unknown, its command cannot be started, or it runs.
pub data Begun : Type 0 where
  unknown_token start_failed : Begun
  runs : ExecSession → Begun

-- `serveData` up to the bridge, with the pty that pty.Start gives, if it gives one.
unfoldable pub begin_data : Option ℕ → ℕ → ExecHub → ExecHub × Begun
unfolding finish
begin_data pty t h = elim (lookup t h.wait) [
  | none ↦ (h, unknown_token)
  | some s ↦ elim pty [
    | none ↦ (finish t (false, 127) none h, start_failed)
    | some p ↦ (record h { wait = insert t (record s { pt = some p }) h.wait }, runs s)
  ]
]

-- How cmd.Wait answers.
pub data Waited : Type 0 where
  waited_ok waited_failed : Waited
  waited_exit : Code → Waited

-- `exitCode` of internal/agent/exec.go
unfoldable pub wait_code : Waited → Code
wait_code waited_ok = (false, 0)
wait_code waited_failed = (false, 1)
wait_code (waited_exit code) = code

-- `serveData` after the bridge
unfoldable pub end_data : Waited → ℕ → ExecSession → ExecHub → ExecHub
unfolding finish wait_code
end_data w t s h = finish t (wait_code w) (some s.ctl) h

-- The exit code that was last pushed to an endpoint
unfoldable pub exit_pushed : ℕ → List (ℕ × Code) → Option Code
exit_pushed ctl [] = none
exit_pushed ctl ((c, code) ∷ older) = if c == ctl then some code else exit_pushed ctl older

-- How the calls of the client go: the two streams, the request with its token, and the token line.
pub record RunIo : Type 0 where
  pub opened : Bool
  pub answered : Bool
  pub written : Bool

-- `RunRemote`, with the exit code that its endpoint was pushed in time: the code, and whether
-- there is no error.
unfoldable pub run_remote : RunIo → Option Code → Code × Bool
run_remote io exit =
    if not io.opened || (not io.answered || not io.written)
    then ((false, 1), false)
    else elim exit [ none ↦ ((false, 0), true) | some code ↦ (code, true) ]
