-- ===== src/Exec/Unstarted.antt =====
-- A command that cannot be started, and one that has run, as the user's terminal is answered.
use livegit.Prelude.{
  ℕ, ◌≡◌, refl, ◌∙◌, true, false, none, some, nat_eq, eqb_iff, lookup, lookup-insert,
}
use livegit.Exec.{
  ExecReq, ExecHub, new_session, exec_req, finish, start_failed, begin_data, exit_pushed, RunIo,
  run_remote,
}

abbrev pub all_well : RunIo
all_well = record { opened = true; answered = true; written = true }

asked_session :
    (ctl : ℕ) (req : ExecReq) (h : ExecHub)
    → lookup (exec_req ctl req h).1 (exec_req ctl req h).0.wait ≡ some (new_session ctl req)
unfolding exec_req
asked_session ctl req h =
    let t = (exec_req ctl req h).1 in
    lookup-insert t t (new_session ctl req) h.wait ∙ rw ((eqb_iff t t).1 refl) refl

-- A command whose pty cannot be started is reported as a success: nothing is pushed to the endpoint
-- that asked for it, and the run ends with code 0 and without an error, if nothing was pushed to it
-- before.
pub run_remote-unstarted :
    (ctl : ℕ) (req : ExecReq) (h : ExecHub)
    → exit_pushed ctl h.pushed ≡ none
    → ((begin_data none (exec_req ctl req h).1 (exec_req ctl req h).0).1 ≡ start_failed)
      × (run_remote all_well (
            exit_pushed ctl
              (begin_data none (exec_req ctl req h).1 (exec_req ctl req h).0).0.pushed)
          ≡ ((false, 0), true))
unfolding begin_data
run_remote-unstarted ctl req h fresh =
    let found = asked_session ctl req h in
    (
      rw (found, begin_data) refl,
      rw (found, begin_data) (unfold finish exec_req in rw fresh (unfold run_remote in refl)),
    )
