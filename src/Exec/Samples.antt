-- ===== src/Exec/Samples.antt =====
-- Two commands on one hub, one of them in a directory that is not there.
use livegit.Prelude.{
  true, false, ◌≡◌, refl, arith, inl, inr, none, some, [], ◌∷◌, codes, bytes_eq, nat_eq, lookup,
  insert,
}
use livegit.Exec.{
  ExecReq, new_exec_hub, new_session, exec_req, begin_data, start_failed, end_data, resize,
  waited_exit, wait_code, exit_pushed, run_remote,
}
use livegit.Exec.Unstarted.{all_well, run_remote-unstarted}
use livegit.Exec.Pairing.{Motion, Reach, asks, begins, here, next, Reach-told}

abbrev make : ExecReq
make = record { cmd = codes "make"; cwd = codes "a"; cols = 80; rows = 24; term = [] }

abbrev ls : ExecReq
ls = record { cmd = codes "ls"; cwd = []; cols = 0; rows = 0; term = codes "dumb" }

abbrev asked_make : Motion
asked_make = record {
  hub = (exec_req 7 make new_exec_hub).0;
  issued = ((exec_req 7 make new_exec_hub).1, (7, codes "make")) ∷ [];
  running = [];
}

abbrev asked_both : Motion
asked_both = record {
  hub = (exec_req 8 ls asked_make.hub).0;
  issued = ((exec_req 8 ls asked_make.hub).1, (8, codes "ls")) ∷ asked_make.issued;
  running = [];
}

abbrev make_runs : Motion
make_runs = record {
  hub = (begin_data (some 3) 1 asked_both.hub).0;
  issued = asked_both.issued;
  running = (1, new_session 7 make) ∷ [];
}

make_runs-Reach : Reach make_runs
unfolding exec_req begin_data lookup insert
make_runs-Reach =
    next (next (next here (asks 7 make (omega arith))) (asks 8 ls (omega arith)))
      (begins (some 3) 1)

Reach-told_example :
    (codes "make" ≡ codes "make")
    × ((end_data (waited_exit (false, 2)) 1 (new_session 7 make) make_runs.hub).pushed
        ≡ (7, wait_code (waited_exit (false, 2))) ∷ make_runs.hub.pushed)
    × (lookup 1 (end_data (waited_exit (false, 2)) 1 (new_session 7 make) make_runs.hub).wait
        ≡ none)
unfolding exec_req new_session
Reach-told_example =
    Reach-told (waited_exit (false, 2)) 1 7 (new_session 7 make) (codes "make") make_runs-Reach
      (inl refl) (inr (inl refl))

run_remote-unstarted_example :
    ((begin_data none (exec_req 7 make new_exec_hub).1 (exec_req 7 make new_exec_hub).0).1
      ≡ start_failed)
    × (run_remote all_well (
          exit_pushed 7
            (begin_data none
              (exec_req 7 make new_exec_hub).1
              (exec_req 7 make new_exec_hub).0).0.pushed)
        ≡ ((false, 0), true))
run_remote-unstarted_example = run_remote-unstarted 7 make new_exec_hub (unfold exit_pushed in refl)

resized : resize 7 make_runs.hub ≡ some 3
unfolding resize exec_req begin_data lookup insert
resized = refl
