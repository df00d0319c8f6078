-- ===== src/Endpoint.antt =====
-- The calls of one connection, internal/transport/endpoint.go: which are listed as pending, what is in
-- their channels, and what any order of the goroutines does. Each function is what one of them
-- does under the lock, or with one channel. Calls are told apart by their numbers.
pub mod Calls
pub mod Waiting
mod Samples
use livegit.Prelude.{
  ℕ, zero, suc, ◌+◌, ◌%◌, ◌^◌, Bool, true, false, not, ◌&&◌, ◌||◌, Option, none, some, List, [],
  ◌∷◌, Bytes, eqb, if◌then◌else◌,
}
use livegit.Codec.{Frame}

-- internal/proto/messages.go
abbrev pub type_err : ℕ
type_err = 3

-- A call: whether its goroutine waits, whether it is in `pending`, and its channel of capacity one:
-- the frame in it, whether it is closed, and whether it was sent to or closed where that blocks or
-- panics.
pub record Slot : Type 0 where
  pub waiting : Bool
  pub listed : Bool
  pub held : Option Frame
  pub is_closed : Bool
  pub misused : Bool

abbrev pub no_slot : Slot
no_slot = record {
  waiting = false;
  listed = false;
  held = none;
  is_closed = false;
  misused = false;
}

-- `delivering` is the frame that `Serve` is about to send to its call, and `sweeping` says that a
-- shutdown has yet to close the channels of the calls.
pub record Endpoint : Type 0 where
  pub next_id : ℕ
  pub slots : ℕ → Slot
  pub delivering : Option Frame
  pub closed : Bool
  pub sweeping : Bool
  pub close_err : Option Bytes

-- `NewEndpoint`
abbrev pub new_endpoint : Endpoint
new_endpoint = record {
  next_id = 0;
  slots = λ id. no_slot;
  delivering = none;
  closed = false;
  sweeping = false;
  close_err = none;
}

-- A write to the map, or to the channel, of one call
unfoldable pub set_slot : ℕ → Slot → (ℕ → Slot) → ℕ → Slot
set_slot id slot slots j = if eqb id j then slot else slots j

unfoldable pub is_full : Option Frame → Bool
is_full none = false
is_full (some f) = true

-- ch <- f
unfoldable pub send : Frame → Slot → Slot
send f s =
    if s.is_closed || is_full s.held
    then record s { misused = true }
    else record s { held = some f }

-- close(ch)
unfoldable pub close_channel : Slot → Slot
close_channel s = if s.is_closed then record s { misused = true } else record s { is_closed = true }

-- The start of `Call`: its number, of 64 bits, and its place in `pending`
unfoldable pub register : Endpoint → Endpoint
register e =
    let id = (e.next_id + 1) % 2 ^ 64 in
    record e {
      next_id = id;
      slots = set_slot id (record no_slot { waiting = true; listed = true }) e.slots;
    }

-- `Call` after a send that failed, or when its context is done
unfoldable pub give_up : ℕ → Endpoint → Endpoint
give_up id e = record e {
  slots = set_slot id (record (e.slots id) { waiting = false; listed = false }) e.slots;
}

-- `Serve` with a frame, under the lock; a frame that is no response goes to the handler.
unfoldable pub take_response : Frame → Endpoint → Endpoint
take_response f e = record e {
  slots = set_slot f.req_id (record (e.slots f.req_id) { listed = false }) e.slots;
  delivering = if (e.slots f.req_id).listed && not (eqb f.req_id 0) then some f else none;
}

-- `Serve`, the send
unfoldable pub deliver : Frame → Endpoint → Endpoint
deliver f e = record e {
  slots = set_slot f.req_id (send f (e.slots f.req_id)) e.slots;
  delivering = none;
}

-- `shutdown`, up to the lock; only the first counts.
unfoldable pub begin_shutdown : Option Bytes → Endpoint → Endpoint
begin_shutdown err e =
    if e.closed then e else record e { closed = true; sweeping = true; close_err = err }

abbrev pub swept : Slot → Slot
swept s = if s.listed then record (close_channel s) { listed = false } else s

-- `shutdown`, the loop over `pending`
unfoldable pub sweep : Endpoint → Endpoint
sweep e = record e { slots = λ id. swept (e.slots id); sweeping = false }

-- What `Call` answers: a frame, the error in one, or that the endpoint is closed
pub data Answer : Type 0 where
  answered : Frame → Answer
  error_frame : Frame → Answer
  closed_error : Answer

unfoldable pub answer_of : Frame → Answer
answer_of f = if eqb f.kind type_err then error_frame f else answered f

-- The receive from the channel: a frame first, then that it is closed, else it waits.
unfoldable pub receive : Slot → Option Answer
receive s = elim s.held [
  | some f ↦ some (answer_of f)
  | none ↦ if s.is_closed then some closed_error else none
]

-- The end of `Call` by its channel
unfoldable pub returned : ℕ → Endpoint → Endpoint
returned id e = record e {
  slots = set_slot id (record (e.slots id) { waiting = false; held = none }) e.slots;
}

-- The end of `Call` as the endpoint is closed
unfoldable pub abandoned : ℕ → Endpoint → Endpoint
abandoned id e = record e { slots = set_slot id (record (e.slots id) { waiting = false }) e.slots }
