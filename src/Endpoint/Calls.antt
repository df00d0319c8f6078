-- ===== src/Endpoint/Calls.antt =====
-- What holds of the calls of internal/transport/endpoint.go in every order of the goroutines.
use livegit.Prelude.{
  ℕ, suc, ◌+◌, ◌%◌, ◌^◌, ◌<◌, ◌≤◌, Bool, true, false, not, ◌&&◌, Option, none, some, Bytes, eqb,
  eqb_iff, if◌then◌else◌, ◌≡◌, refl, sym, ap, inl, inr, Bool-cases, arith,
}
use livegit.Codec.{Frame}
use livegit.Endpoint.{
  Slot, Endpoint, new_endpoint, no_slot, set_slot, is_full, send, close_channel, register, give_up,
  take_response, deliver, begin_shutdown, swept, sweep, receive, Answer, returned, abandoned,
}

-- One step of a goroutine. There is one `Serve`, and a call ends once. A call that wraps the 64-bit
-- counter is no step.
pub data Step : Endpoint → Endpoint → Type 0 where
  registers : (e : Endpoint) → e.next_id + 1 < 2 ^ 64 → Step e (register e)
  gives_up : (id : ℕ) (e : Endpoint) → (e.slots id).waiting ≡ true → Step e (give_up id e)
  takes : (f : Frame) (e : Endpoint) → e.delivering ≡ none → Step e (take_response f e)
  delivers : (f : Frame) (e : Endpoint) → e.delivering ≡ some f → Step e (deliver f e)
  shuts_down : (err : Option Bytes) (e : Endpoint) → Step e (begin_shutdown err e)
  sweeps : (e : Endpoint) → e.sweeping ≡ true → Step e (sweep e)
  returns :
      (id : ℕ) (a : Answer) (e : Endpoint)
      → (e.slots id).waiting ≡ true
      → receive (e.slots id) ≡ some a
      → Step e (returned id e)
  abandons :
      (id : ℕ) (e : Endpoint)
      → (e.slots id).waiting ≡ true
      → e.closed ≡ true
      → Step e (abandoned id e)

pub data Reachable : Endpoint → Type 0 where
  reach_start : Reachable new_endpoint
  reach_step : {e e' : Endpoint} → Reachable e → Step e e' → Reachable e'

-- No channel is misused, a frame in one is for its call, and that of a listed call is as it was made.
pub record IsSlot (next id : ℕ) (s : Slot) : Type 0 where
  pub used_well : s.misused ≡ false
  pub matching : (f : Frame) → s.held ≡ some f → f.req_id ≡ id
  pub unsent : s.listed ≡ true → s.held ≡ none
  pub unclosed : s.listed ≡ true → s.is_closed ≡ false
  pub numbered : s.listed ≡ true → (0 < id) × (id ≤ next)

-- The call of a frame on its way is listed no more, and has room for it.
pub record IsIdle (s : Slot) : Type 0 where
  pub unlisted : s.listed ≡ false
  pub room : s.held ≡ none
  pub still_open : s.is_closed ≡ false

pub record IsSafe (e : Endpoint) : Type 0 where
  pub slot : (id : ℕ) → IsSlot e.next_id id (e.slots id)
  pub carried :
      (f : Frame) → e.delivering ≡ some f → IsIdle (e.slots f.req_id) × (f.req_id ≤ e.next_id)

abbrev frame_or : Frame → Option Frame → Frame
frame_or f none = f
frame_or f (some g) = g

abbrev id_or : ℕ → Option Frame → ℕ
id_or id none = id
id_or id (some g) = g.req_id

unlisted_not_listed : {s : Slot} {P : Type 0} → IsIdle s → s.listed ≡ true → P
unlisted_not_listed i l = ground (arith, i.unlisted, l)

set_slot-IsSlot :
    (next id : ℕ) (s : Slot) (slots : ℕ → Slot)
    → IsSlot next id s
    → ((j : ℕ) → IsSlot next j (slots j))
    → (j : ℕ) → IsSlot next j (set_slot id s slots j)
unfolding set_slot
set_slot-IsSlot next id s slots h all j = elim (Bool-cases (eqb id j)) [
  | inl e ↦ rw e (rw (sym ((eqb_iff id j).0 e)) h)
  | inr e ↦ rw e (all j)
]

set_slot-IsIdle :
    (id j : ℕ) (s : Slot) (slots : ℕ → Slot)
    → (id ≡ j → IsIdle s)
    → IsIdle (slots j)
    → IsIdle (set_slot id s slots j)
unfolding set_slot
set_slot-IsIdle id j s slots h old = elim (Bool-cases (eqb id j)) [
  | inl e ↦ rw e (h ((eqb_iff id j).0 e))
  | inr e ↦ rw e old
]

slot-raise : (next id : ℕ) (s : Slot) → IsSlot next id s → IsSlot (suc next) id s
slot-raise next id s h = record {
  used_well = h.used_well;
  matching = h.matching;
  unsent = h.unsent;
  unclosed = h.unclosed;
  numbered = λ l. let (pos, le) = h.numbered l in (pos, omega (arith, le));
}

register_lem :
    (e : Endpoint)
    → e.next_id + 1 < 2 ^ 64
    → register e ≡ record e {
      next_id = suc e.next_id;
      slots = set_slot (suc e.next_id) (record no_slot { waiting = true; listed = true }) e.slots;
    }
unfolding register
register_lem e fits =
    let same : (e.next_id + 1) % 2 ^ 64 ≡ suc e.next_id = omega arith in rw same refl

register-IsSafe : (e : Endpoint) → e.next_id + 1 < 2 ^ 64 → IsSafe e → IsSafe (register e)
register-IsSafe e fits h = rw (register_lem e fits) (record {
  slot =
      set_slot-IsSlot (suc e.next_id) (suc e.next_id) _ e.slots
        (record {
          used_well = refl;
          matching = λ f k. ground (arith, k);
          unsent = λ l. refl;
          unclosed = λ l. refl;
          numbered = λ l. (omega arith, omega arith);
        })
        (λ id. slot-raise e.next_id id (e.slots id) (h.slot id));
  carried = λ f d.
      let (idle, le) = h.carried f d in
      (
        set_slot-IsIdle (suc e.next_id) f.req_id _ e.slots (λ same. ground (arith, same, le)) idle,
        omega (arith, le),
      );
})

-- A change of one slot that keeps it well, and keeps it idle where a frame is on its way to it
change-IsSafe :
    (id : ℕ) (s : Slot) (e : Endpoint)
    → IsSlot e.next_id id s
    → (IsIdle (e.slots id) → IsIdle s)
    → IsSafe e
    → IsSafe (record e { slots = set_slot id s e.slots })
change-IsSafe id s e well idle h = record {
  slot = set_slot-IsSlot e.next_id id s e.slots well h.slot;
  carried = λ f d.
      let (old, le) = h.carried f d in
      (set_slot-IsIdle id f.req_id s e.slots (λ same. idle (rw same old)) old, le);
}

give_up-IsSafe : (id : ℕ) (e : Endpoint) → IsSafe e → IsSafe (give_up id e)
unfolding give_up
give_up-IsSafe id e h =
    let old = h.slot id in
    change-IsSafe id (record (e.slots id) { waiting = false; listed = false }) e
      (record {
        used_well = old.used_well;
        matching = old.matching;
        unsent = λ l. ground (arith, l);
        unclosed = λ l. ground (arith, l);
        numbered = λ l. ground (arith, l);
      })
      (λ i. record { unlisted = refl; room = i.room; still_open = i.still_open }) h

returned-IsSafe : (id : ℕ) (e : Endpoint) → IsSafe e → IsSafe (returned id e)
unfolding returned
returned-IsSafe id e h =
    let old = h.slot id in
    change-IsSafe id (record (e.slots id) { waiting = false; held = none }) e
      (record {
        used_well = old.used_well;
        matching = λ f k. ground (arith, k);
        unsent = λ l. refl;
        unclosed = old.unclosed;
        numbered = old.numbered;
      })
      (λ i. record { unlisted = i.unlisted; room = refl; still_open = i.still_open }) h

abandoned-IsSafe : (id : ℕ) (e : Endpoint) → IsSafe e → IsSafe (abandoned id e)
unfolding abandoned
abandoned-IsSafe id e h =
    let old = h.slot id in
    change-IsSafe id (record (e.slots id) { waiting = false }) e
      (record {
        used_well = old.used_well;
        matching = old.matching;
        unsent = old.unsent;
        unclosed = old.unclosed;
        numbered = old.numbered;
      })
      (λ i. record { unlisted = i.unlisted; room = i.room; still_open = i.still_open }) h

pub send-IsIdle : (f : Frame) (s : Slot) → IsIdle s → send f s ≡ record s { held = some f }
unfolding send is_full
send-IsIdle f s i = simp (i.still_open, i.room) refl

sent :
    (f : Frame) (s : Slot) (next : ℕ)
    → IsIdle s
    → IsSlot next f.req_id s
    → IsSlot next f.req_id (send f s)
sent f s next i old = rw (send-IsIdle f s i) (record {
  used_well = old.used_well;
  matching = λ g k. ap (λ (o : Option Frame). id_or f.req_id o) (sym k);
  unsent = λ l. unlisted_not_listed i l;
  unclosed = old.unclosed;
  numbered = old.numbered;
})

deliver-IsSafe :
    (f : Frame) (e : Endpoint) → e.delivering ≡ some f → IsSafe e → IsSafe (deliver f e)
unfolding deliver
deliver-IsSafe f e d h =
    let (idle, le) = h.carried f d in
    record {
      slot =
          set_slot-IsSlot e.next_id f.req_id _ e.slots
            (sent f (e.slots f.req_id) e.next_id idle (h.slot f.req_id)) h.slot;
      carried = λ g k. ground (arith, k);
    }

taken_slot :
    (next id : ℕ) (s : Slot) → IsSlot next id s → IsSlot next id (record s { listed = false })
taken_slot next id s old = record {
  used_well = old.used_well;
  matching = old.matching;
  unsent = λ l. ground (arith, l);
  unclosed = λ l. ground (arith, l);
  numbered = λ l. ground (arith, l);
}

-- The slot is that of a listed call.
pub taken-IsIdle :
    (f : Frame) (e : Endpoint)
    → IsSafe e
    → (e.slots f.req_id).listed ≡ true
    → IsIdle ((take_response f e).slots f.req_id)
unfolding take_response set_slot
taken-IsIdle f e h l =
    let same : eqb f.req_id f.req_id ≡ true = ground arith in
    rw same (record {
      unlisted = refl;
      room = (h.slot f.req_id).unsent l;
      still_open = (h.slot f.req_id).unclosed l;
    })

take-carried :
    (f g : Frame) (e : Endpoint)
    → IsSafe e
    → (take_response f e).delivering ≡ some g
    → ((e.slots f.req_id).listed ≡ true) × (f ≡ g)
unfolding take_response
take-carried f g e h d = elim (Bool-cases ((e.slots f.req_id).listed && not (eqb f.req_id 0))) [
  | inl c ↦ (ground (arith, c), ap (frame_or f) (simp c at d))
  | inr c ↦ ground (arith, ap is_full (simp c at d))
]

take_response-IsSafe : (f : Frame) (e : Endpoint) → IsSafe e → IsSafe (take_response f e)
take_response-IsSafe f e h = record {
  slot =
      unfold take_response in
      set_slot-IsSlot e.next_id f.req_id _ e.slots
        (taken_slot e.next_id f.req_id (e.slots f.req_id) (h.slot f.req_id)) h.slot;
  carried = λ g d.
      let (l, same) = take-carried f g e h d in
      rw (sym same)
        (taken-IsIdle f e h l, unfold take_response in ((h.slot f.req_id).numbered l).1);
}

swept-unlisted : (s : Slot) → s.listed ≡ false → swept s ≡ s
swept-unlisted s l = unswept s.listed s l
  where
    unswept :
        (b : Bool) (s : Slot)
        → b ≡ false
        → (if b then record (close_channel s) { listed = false } else s) ≡ s
    unswept b s l = rw l refl

swept_slot : (next id : ℕ) (s : Slot) → IsSlot next id s → IsSlot next id (swept s)
unfolding close_channel
swept_slot next id s old = elim (Bool-cases s.listed) [
  | inl l ↦
      simp (l, old.unclosed l)
        (record {
          used_well = old.used_well;
          matching = old.matching;
          unsent = λ k. ground (arith, k);
          unclosed = λ k. ground (arith, k);
          numbered = λ k. ground (arith, k);
        })
  | inr l ↦ rw (swept-unlisted s l) old
]

sweep-IsSafe : (e : Endpoint) → IsSafe e → IsSafe (sweep e)
unfolding sweep
sweep-IsSafe e h = record {
  slot = λ id. swept_slot e.next_id id (e.slots id) (h.slot id);
  carried = λ f d.
      let (idle, le) = h.carried f d in
      (rw (swept-unlisted (e.slots f.req_id) idle.unlisted) idle, le);
}

begin_shutdown-IsSafe :
    (err : Option Bytes) (e : Endpoint) → IsSafe e → IsSafe (begin_shutdown err e)
unfolding begin_shutdown
begin_shutdown-IsSafe err e h = elim (Bool-cases e.closed) [
  | inl c ↦ simp c (record { slot = h.slot; carried = h.carried })
  | inr c ↦ simp c (record { slot = h.slot; carried = h.carried })
]

pub Step-IsSafe : {e e' : Endpoint} → Step e e' → IsSafe e → IsSafe e'
Step-IsSafe (registers e fits) h = register-IsSafe e fits h
Step-IsSafe (gives_up id e w) h = give_up-IsSafe id e h
Step-IsSafe (takes f e d) h = take_response-IsSafe f e h
Step-IsSafe (delivers f e d) h = deliver-IsSafe f e d h
Step-IsSafe (shuts_down err e) h = begin_shutdown-IsSafe err e h
Step-IsSafe (sweeps e s) h = sweep-IsSafe e h
Step-IsSafe (returns id a e w r) h = returned-IsSafe id e h
Step-IsSafe (abandons id e w c) h = abandoned-IsSafe id e h

pub Reachable-IsSafe : {e : Endpoint} → Reachable e → IsSafe e
Reachable-IsSafe reach_start = record {
  slot = λ id. record {
    used_well = refl;
    matching = λ f k. ground (arith, k);
    unsent = λ l. refl;
    unclosed = λ l. refl;
    numbered = λ l. ground (arith, l);
  };
  carried = λ f d. ground (arith, d);
}
Reachable-IsSafe (reach_step r s) = Step-IsSafe s (Reachable-IsSafe r)

abbrev pub is_own : ℕ → Option Frame → Bool
is_own id none = true
is_own id (some f) = eqb f.req_id id

own :
    (id : ℕ) (held : Option Frame)
    → ((f : Frame) → held ≡ some f → f.req_id ≡ id)
    → is_own id held ≡ true
own id none h = refl
own id (some f) h = (eqb_iff f.req_id id).1 (h f refl)

-- Whatever the goroutines of a connection do, in whatever order: no channel is sent to where it is
-- full or closed, and none is closed twice; and a frame in a call's channel has the call's number, as
-- long as the 64-bit counter of the calls has not wrapped.
pub Reachable-matching :
    (e : Endpoint) (id : ℕ)
    → Reachable e
    → ((e.slots id).misused ≡ false) × (is_own id (e.slots id).held ≡ true)
Reachable-matching e id r =
    let safe = (Reachable-IsSafe r).slot id in
    (safe.used_well, own id (e.slots id).held safe.matching)
