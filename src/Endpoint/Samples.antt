-- ===== src/Endpoint/Samples.antt =====
-- Two calls, of which the first has its response on its way.
use livegit.Prelude.{arith, true, false, [], ◌≡◌, ◌||◌, refl}
use livegit.Codec.{Frame}
use livegit.Endpoint.{Endpoint, new_endpoint, register, take_response, set_slot}
use livegit.Endpoint.Calls.{
  Reachable, reach_start, reach_step, registers, takes, is_own, Reachable-matching,
}
use livegit.Endpoint.Waiting.{is_found, Reachable-found}

abbrev response : Frame
response = record { kind = 100; req_id = 1; body = [] }

abbrev two : Endpoint
two = register (register new_endpoint)

abbrev taken : Endpoint
taken = take_response response two

taken-Reachable : Reachable taken
unfolding register
taken-Reachable =
    reach_step
      (reach_step (reach_step reach_start (registers new_endpoint (omega arith)))
        (registers (register new_endpoint) (omega arith)))
      (takes response two refl)

Reachable-matching_example :
    ((taken.slots 1).misused ≡ false) × (is_own 1 (taken.slots 1).held ≡ true)
Reachable-matching_example = Reachable-matching taken 1 taken-Reachable

Reachable-found_example : (taken.closed || is_found 1 (taken.slots 1) taken.delivering) ≡ true
unfolding take_response register set_slot
Reachable-found_example = Reachable-found taken 1 taken-Reachable refl
