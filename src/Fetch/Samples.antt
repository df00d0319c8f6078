-- ===== src/Fetch/Samples.antt =====
-- A download in the background and one for a user.
use livegit.Prelude.{true, false, not, ◌&&◌, some, ◌≡◌, codes, any, bytes_eq}
use livegit.Fetch.{Fetches, StartIo, background, start_fetch, must_wait}
use livegit.Fetch.Gate.{Reachable, reach_start, reach_step, starts, no_fetches, must_wait_lem}

abbrev io : StartIo
io = record { cached = false; online = true; mkdir_ok = true; open_ok = true; size = some 9 }

abbrev one : Fetches
one = (start_fetch io (codes "a") true no_fetches).0

abbrev two : Fetches
two = (start_fetch io (codes "b") false one).0

two-Reachable : Reachable two
two-Reachable =
    reach_step (reach_step reach_start (starts io (codes "a") true no_fetches))
      (starts io (codes "b") false one)

must_wait_lem_example :
    must_wait 0 two
    ≡ (background 0 two.states && any (λ a. not (background a.1 two.states)) two.fetches)
must_wait_lem_example = must_wait_lem 0 two two-Reachable
