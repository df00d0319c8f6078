-- ===== src/Fetch/Join.antt =====
-- Requests for one path share a download of internal/fuse/fetch.go.
use livegit.Prelude.{
  bytes_beq_refl, ℕ, Bool, true, false, ◌&&◌, Option, none, some, Bytes, bytes_eq, bytes_beq,
  nat_eq, eqb, lookup, lookup-insert, ◌≡◌, refl, sym, ap, ◌∙◌, inl, inr, Bool-cases, arith,
}
use livegit.Paths.{rel}
use livegit.Fetch.{
  new_fetch_state, Fetches, StartIo, Started, fetching, present, refused, state_of, update,
  background, promoted, join_fetch, launch, start_absent, start_running, start_fetch, must_wait,
  size_or_zero,
}
use livegit.Fetch.Count.{background-insert}

-- What a user is given is found at the path, and is not in the background.
abbrev IsJoined : Bytes → ℕ → Fetches → Type 0
IsJoined p id b = (lookup p b.fetches ≡ some id) × (background id b.states ≡ false)

join-IsJoined :
    (p : Bytes) (id : ℕ) (b : Fetches)
    → lookup p b.fetches ≡ some id
    → IsJoined p id (join_fetch false id b)
unfolding join_fetch update
join-IsJoined p id b found = elim (Bool-cases (background id b.states)) [
  | inl e ↦
      let same : eqb id id ≡ true = ground arith in
      rw e
        (found, rw (background-insert id id (promoted (state_of id b.states)) b.states, same) refl)
  | inr e ↦ rw e (found, e)
]

launch-IsJoined :
    (size : Option ℕ) (p : Bytes) (b : Fetches) → IsJoined p b.next (launch size p false b)
unfolding launch
launch-IsJoined size p b =
    let path : bytes_beq p p ≡ true = bytes_beq_refl p in
    let same : eqb b.next b.next ≡ true = ground arith in
    (
      rw (lookup-insert p p b.next b.fetches, path) refl,
      rw
          (
            background-insert b.next b.next (record new_fetch_state { total = size_or_zero size })
                b.states,
            same,
          )
          refl,
    )

abbrev number : Started → ℕ
number (fetching id) = id
number _ = 0

number_inj : {j id : ℕ} → fetching j ≡ fetching id → j ≡ id
number_inj e = ap number e

not_refused : {id : ℕ} {P : Type 0} → refused ≡ fetching id → P
not_refused e = ground (arith, e)

not_present : {id : ℕ} {P : Type 0} → present ≡ fetching id → P
not_present e = ground (arith, e)

absent-IsJoined :
    (io : StartIo) (p : Bytes) (id : ℕ) (b : Fetches)
    → (start_absent io p false b).1 ≡ fetching id
    → IsJoined p id (start_absent io p false b).0
unfolding start_absent
absent-IsJoined io p id b h = elim (Bool-cases (io.online && (io.mkdir_ok && io.open_ok))) [
  | inl e ↦
      let started : start_absent io p false b ≡ (launch io.size p false b, fetching b.next) =
        ground (arith, e) in
      let same : b.next ≡ id = number_inj (sym (ap (λ a. a.1) started) ∙ h) in
      rw (started, sym same) (launch-IsJoined io.size p b)
  | inr e ↦
      let kept : (start_absent io p false b).1 ≡ refused = ground (arith, e) in
      not_refused (sym kept ∙ h)
]

running-IsJoined :
    (io : StartIo) (p : Bytes) (id : ℕ) (b : Fetches) (running : Option ℕ)
    → lookup p b.fetches ≡ running
    → (start_running io p false b running).1 ≡ fetching id
    → IsJoined p id (start_running io p false b running).0
unfolding start_running
running-IsJoined io p id b none e h = absent-IsJoined io p id b h
running-IsJoined io p id b (some j) e h = rw (sym (number_inj h)) (join-IsJoined p j b e)

start_fetch-IsJoined :
    (io : StartIo) (path : Bytes) (id : ℕ) (b : Fetches)
    → (start_fetch io path false b).1 ≡ fetching id
    → IsJoined (rel path) id (start_fetch io path false b).0
unfolding start_fetch
start_fetch-IsJoined io path id b h = elim (Bool-cases io.cached) [
  | inl c ↦ not_present (simp c at h)
  | inr c ↦
      simp c (running-IsJoined io (rel path) id b (lookup (rel path) b.fetches) refl (simp c at h))
]

-- A user who is given a download does not wait for others, and the next to ask for its path is
-- given the same, in the background or not, while the content is not in the cache.
pub start_fetch-twice :
    (io io' : StartIo) (path : Bytes) (id : ℕ) (bg : Bool) (b : Fetches)
    → (start_fetch io path false b).1 ≡ fetching id
    → io'.cached ≡ false
    → (must_wait id (start_fetch io path false b).0 ≡ false)
      × ((start_fetch io' path bg (start_fetch io path false b).0).1 ≡ fetching id)
unfolding start_fetch start_running must_wait
start_fetch-twice io io' path id bg b h absent =
    let joined : IsJoined (rel path) id (start_fetch io path false b).0 =
      start_fetch-IsJoined io path id b h in
    (rw joined.1 refl, rw (absent, joined.0) refl)
