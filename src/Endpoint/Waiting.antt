-- ===== src/Endpoint/Waiting.antt =====
-- A call of internal/transport/endpoint.go that waits is found by its response.
use livegit.Prelude.{
  ℕ, ◌+◌, ◌%◌, ◌^◌, Bool, true, false, ◌||◌, Option, none, some, Bytes, eqb, eqb_iff, ◌≡◌, refl,
  sym, inl, inr, Bool-cases, arith,
}
use livegit.Codec.{Frame}
use livegit.Endpoint.{
  Slot, Endpoint, set_slot, is_full, send, register, give_up, take_response, deliver,
  begin_shutdown, sweep, receive, answer_of, returned, abandoned,
}
use livegit.Endpoint.Calls.{
  Step, registers, gives_up, takes, delivers, shuts_down, sweeps, returns, abandons, Reachable,
  reach_start, reach_step, IsIdle, IsSafe, send-IsIdle, Reachable-IsSafe,
}

-- The frame that `Serve` is about to send is for this call.
abbrev pub is_for : ℕ → Option Frame → Bool
is_for id none = false
is_for id (some f) = eqb f.req_id id

-- The call is pending, its response is on its way, or it is in the channel.
abbrev pub is_found : ℕ → Slot → Option Frame → Bool
is_found id s delivering = s.listed || (is_full s.held || is_for id delivering)

abbrev IsWaiting : ℕ → Bool → Option Frame → Slot → Type 0
IsWaiting id closed delivering s = s.waiting ≡ true → (closed || is_found id s delivering) ≡ true

abbrev IsAwake : Endpoint → Type 0
IsAwake e =
    (e.sweeping ≡ true → e.closed ≡ true)
    × ((id : ℕ) → IsWaiting id e.closed e.delivering (e.slots id))

-- A change of one slot
set_slot-IsWaiting :
    (id : ℕ) (s : Slot) (slots : ℕ → Slot) (closed : Bool) (delivering : Option Frame)
    → IsWaiting id closed delivering s
    → ((j : ℕ) → eqb id j ≡ false → IsWaiting j closed delivering (slots j))
    → (j : ℕ) → IsWaiting j closed delivering (set_slot id s slots j)
unfolding set_slot
set_slot-IsWaiting id s slots closed delivering h all j = elim (Bool-cases (eqb id j)) [
  | inl e ↦ rw e (rw (sym ((eqb_iff id j).0 e)) h)
  | inr e ↦ rw e (all j e)
]

taken_found :
    (f : Frame) (e : Endpoint)
    → IsSafe e
    → e.delivering ≡ none
    → IsWaiting f.req_id e.closed e.delivering (e.slots f.req_id)
    → IsWaiting f.req_id e.closed
        (take_response f e).delivering
        (record (e.slots f.req_id) { listed = false })
unfolding take_response
taken_found f e safe d old w = elim (Bool-cases (e.slots f.req_id).listed) [
  | inl l ↦
      let pos = ((safe.slot f.req_id).numbered l).0 in
      let other : eqb f.req_id 0 ≡ false = ground (arith, pos) in simp (l, other) (ground arith)
  | inr l ↦ simp l (ground (arith, simp (l, d) at (old w)))
]

takes-IsAwake :
    (f : Frame) (e : Endpoint)
    → e.delivering ≡ none
    → IsSafe e
    → IsAwake e
    → IsAwake (take_response f e)
takes-IsAwake f e d safe (s, h) = (
  unfold take_response in s,
  unfold take_response in
      set_slot-IsWaiting f.req_id _ e.slots e.closed _ (taken_found f e safe d (h f.req_id))
        (λ j k w. ground (arith, simp d at (h j w))),
)

delivers-IsAwake :
    (f : Frame) (e : Endpoint)
    → e.delivering ≡ some f
    → IsSafe e
    → IsAwake e
    → IsAwake (deliver f e)
unfolding deliver is_full
delivers-IsAwake f e d safe (s, h) = (
  s,
  set_slot-IsWaiting f.req_id _ e.slots e.closed none
      (λ w. rw (send-IsIdle f (e.slots f.req_id) (safe.carried f d).0) (ground arith))
      (λ j k w. ground (arith, simp (d, k) at (h j w))),
)

shuts_down-IsAwake :
    (err : Option Bytes) (e : Endpoint) → IsAwake e → IsAwake (begin_shutdown err e)
unfolding begin_shutdown
shuts_down-IsAwake err e (s, h) = elim (Bool-cases e.closed) [
  | inl c ↦ simp c ((λ k. refl), (λ id w. refl))
  | inr c ↦ simp c ((λ k. refl), (λ id w. refl))
]

Step-IsAwake : {e e' : Endpoint} → Step e e' → IsSafe e → IsAwake e → IsAwake e'
unfolding register give_up deliver begin_shutdown sweep returned abandoned
Step-IsAwake (registers e fits) safe (s, h) = (
  s,
  set_slot-IsWaiting ((e.next_id + 1) % 2 ^ 64) _ e.slots e.closed e.delivering (λ w. ground arith)
      (λ j k. h j),
)
Step-IsAwake (gives_up id e w) safe (s, h) =
    (s, set_slot-IsWaiting id _ e.slots e.closed e.delivering (λ w. ground (arith, w)) (λ j k. h j))
Step-IsAwake (takes f e d) safe (s, h) = takes-IsAwake f e d safe (s, h)
Step-IsAwake (delivers f e d) safe (s, h) = delivers-IsAwake f e d safe (s, h)
Step-IsAwake (shuts_down err e) safe (s, h) = shuts_down-IsAwake err e (s, h)
Step-IsAwake (sweeps e k) safe (s, h) = (λ l. ground (arith, l), λ id w. rw (s k) refl)
Step-IsAwake (returns id a e w r) safe (s, h) =
    (s, set_slot-IsWaiting id _ e.slots e.closed e.delivering (λ w. ground (arith, w)) (λ j k. h j))
Step-IsAwake (abandons id e w c) safe (s, h) =
    (s, set_slot-IsWaiting id _ e.slots e.closed e.delivering (λ w. ground (arith, w)) (λ j k. h j))

Reachable-IsAwake : {e : Endpoint} → Reachable e → IsAwake e
Reachable-IsAwake reach_start = (λ k. ground (arith, k), λ id w. ground (arith, w))
Reachable-IsAwake (reach_step r s) = Step-IsAwake s (Reachable-IsSafe r) (Reachable-IsAwake r)

set_slot-same : (id : ℕ) (s : Slot) (slots : ℕ → Slot) → set_slot id s slots id ≡ s
unfolding set_slot
set_slot-same id s slots = let same : eqb id id ≡ true = ground arith in rw same refl

receive-deliver :
    (f : Frame) (e : Endpoint)
    → IsIdle (e.slots f.req_id)
    → receive ((deliver f e).slots f.req_id) ≡ some (answer_of f)
unfolding deliver receive
receive-deliver f e idle =
    rw
      (
        set_slot-same f.req_id (send f (e.slots f.req_id)) e.slots,
        send-IsIdle f (e.slots f.req_id) idle,
      )
      refl

-- Whatever the goroutines of a connection do, in whatever order, a call that waits is not lost: it
-- is pending, or its response is on its way or in its channel, or the connection is closed, as long
-- as the 64-bit counter of the calls has not wrapped.
pub Reachable-found :
    (e : Endpoint) (id : ℕ)
    → Reachable e
    → (e.slots id).waiting ≡ true
    → (e.closed || is_found id (e.slots id) e.delivering) ≡ true
Reachable-found e id r w = (Reachable-IsAwake r).1 id w
