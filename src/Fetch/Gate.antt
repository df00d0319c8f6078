-- ===== src/Fetch/Gate.antt =====
-- Which downloads of internal/fuse/fetch.go wait, whatever happens to them in whatever order.
use livegit.Prelude.{
  ℕ, suc, ◌+◌, Bool, true, not, ◌&&◌, Option, none, some, [], ◌∷◌, ◌++◌, All-append, Pairwise-snoc,
  Bytes, bytes_eq, bytes_beq, bytes_beq_iff, nat_eq, eqb, if◌then◌else◌, ltb, leb, lookup, insert,
  delete, All, All-map, Pairwise, any, ◌≡◌, ◌≢◌, refl, sym, ap, ◌∙◌, inl, inr, Bool-cases,
  Option-cases, arith,
}
use livegit.Paths.{rel}
use livegit.Fetch.{
  FetchError, FetchState, new_fetch_state, Fetches, StartIo, state_of, update, background,
  reader_added, reader_gone, advanced, promoted, canceled_state, join_fetch, launch, start_absent,
  start_running, start_fetch, run_end, finish, must_wait, cancel_id, cancel_all, abandon, unread,
  abandon_tail, size_or_zero, cancel_fetch, cancel_fetches,
}
use livegit.Fetch.Count.{
  Running, States, users, Apart, Below, users-same, users-fresh, users-promoted, users-delete,
  background-insert,
}

-- What holds at all times.
abbrev pub IsCounted : Fetches → Type 0
IsCounted b =
    (b.normal_fetches ≡ users b.states b.fetches)
    × Pairwise Apart b.fetches
    × All (Below b.next) b.fetches

-- What any number of goroutines do under the locks, one after the other. A download ends once,
-- while it is in the table.
pub data Step : Fetches → Fetches → Type 0 where
  starts :
      (io : StartIo) (path : Bytes) (bg : Bool) (b : Fetches) → Step b (start_fetch io path bg b).0
  ends : (p : Bytes) (id : ℕ) (b : Fetches) → lookup p b.fetches ≡ some id → Step b (run_end p id b)
  finishes : (id : ℕ) (err : Option FetchError) (b : Fetches) → Step b (finish id err b)
  advances : (id n : ℕ) (b : Fetches) → Step b (update id (advanced n) b)
  opens : (id : ℕ) (b : Fetches) → Step b (update id reader_added b)
  releases : (id : ℕ) (b : Fetches) → Step b (update id reader_gone b)
  abandons : (id : ℕ) (b : Fetches) → Step b (abandon id b)
  cancels : (path : Bytes) (b : Fetches) → Step b (cancel_fetch path b).0
  cancels_all : (b : Fetches) → Step b (cancel_fetches b).0

abbrev pub no_fetches : Fetches
no_fetches = record { fetches = []; states = []; next = 0; normal_fetches = 0 }

pub data Reachable : Fetches → Type 0 where
  reach_start : Reachable no_fetches
  reach_step : {b b' : Fetches} → Reachable b → Step b b' → Reachable b'

All-Apart :
    (p : Bytes) (next : ℕ) (running : Running)
    → All (λ a. a.0 ≢ p) running
    → All (Below next) running
    → All (λ a. Apart a (p, next)) running
All-Apart p next [] h k = tt
All-Apart p next (a ∷ running) h k = ((h.0, ground (arith, k.0)), All-Apart p next running h.1 k.1)

update-IsCounted :
    (id : ℕ) (change : FetchState → FetchState) (b : Fetches)
    → ((st : FetchState) → (change st).bg ≡ st.bg)
    → IsCounted b
    → IsCounted (update id change b)
unfolding update background
update-IsCounted id change b keeps h = (
  h.0
      ∙ sym (
          users-same id (change (state_of id b.states)) b.states b.fetches
            (keeps (state_of id b.states))),
  h.1,
  h.2,
)

join-IsCounted :
    (p : Bytes) (bg : Bool) (id : ℕ) (b : Fetches)
    → lookup p b.fetches ≡ some id
    → IsCounted b
    → IsCounted (join_fetch bg id b)
unfolding join_fetch update
join-IsCounted p bg id b found h = elim (Bool-cases (not bg && background id b.states)) [
  | inl e ↦
      let back : background id b.states ≡ true = ground (arith, e) in
      let more : users (insert id (promoted (state_of id b.states)) b.states) b.fetches
          ≡ suc (users b.states b.fetches) =
        users-promoted p id (promoted (state_of id b.states)) b.states b.fetches h.1 found back
          refl in
      rw e (omega (arith, more, h.0), h.1, h.2)
  | inr e ↦ rw e h
]

insert-absent :
    (p : Bytes) (id : ℕ) (running : Running)
    → lookup p running ≡ none
    → insert p id running ≡ running ++ (p, id) ∷ []
unfolding lookup insert
insert-absent p id [] h = refl
insert-absent p id ((q, j) ∷ running) h = elim (Bool-cases (bytes_beq q p)) [
  | inl e ↦ ground (arith, h, e)
  | inr e ↦ rw (e, insert-absent p id running (simp e at h))
]

lookup-absent :
    (p : Bytes) (running : Running) → lookup p running ≡ none → All (λ a. a.0 ≢ p) running
unfolding lookup
lookup-absent p [] h = tt
lookup-absent p ((q, j) ∷ running) h = elim (Bool-cases (bytes_beq q p)) [
  | inl e ↦ ground (arith, h, e)
  | inr e ↦ (ground (arith, e, bytes_beq_iff q p), lookup-absent p running (simp e at h))
]

users-snoc :
    (p : Bytes) (id : ℕ) (states : States) (running : Running)
    → users states (running ++ (p, id) ∷ [])
      ≡ (if background id states then 0 else 1) + users states running
unfolding users
users-snoc p id states [] = refl
users-snoc p id states ((q, j) ∷ running) = omega (arith, users-snoc p id states running)

launch-IsCounted :
    (size : Option ℕ) (p : Bytes) (bg : Bool) (b : Fetches)
    → lookup p b.fetches ≡ none
    → IsCounted b
    → IsCounted (launch size p bg b)
unfolding launch
launch-IsCounted size p bg b absent h =
    let st : FetchState = record new_fetch_state { total = size_or_zero size; bg = bg } in
    let old : users (insert b.next st b.states) b.fetches ≡ users b.states b.fetches =
      users-fresh b.next st b.states b.fetches (All-map b.fetches (λ a l. ground (arith, l)) h.2) in
    let same : eqb b.next b.next ≡ true = ground arith in
    let mine : background b.next (insert b.next st b.states) ≡ bg =
      rw (background-insert b.next b.next st b.states, same) refl in
    let apart : All (λ a. Apart a (p, b.next)) b.fetches =
      All-Apart p b.next b.fetches (lookup-absent p b.fetches absent) h.2 in
    rw (insert-absent p b.next b.fetches absent) (
      rw (users-snoc p b.next (insert b.next st b.states) b.fetches, mine, old)
          (ground (arith, h.0)),
      Pairwise-snoc Apart b.fetches (p, b.next) h.1 apart,
      All-append (Below (suc b.next)) b.fetches ((p, b.next) ∷ [])
          (All-map b.fetches (λ a l. omega (arith, l)) h.2) (omega arith, tt),
    )

All-delete :
    (P : Bytes × ℕ → Type 0) (p : Bytes) (running : Running)
    → All P running
    → All P (delete p running)
unfolding delete
All-delete P p [] h = tt
All-delete P p ((q, j) ∷ running) h = elim (Bool-cases (bytes_beq q p)) [
  | inl e ↦ rw e (All-delete P p running h.1)
  | inr e ↦ rw e (h.0, All-delete P p running h.1)
]

Pairwise-delete :
    (p : Bytes) (running : Running) → Pairwise Apart running → Pairwise Apart (delete p running)
unfolding delete
Pairwise-delete p [] h = tt
Pairwise-delete p ((q, j) ∷ running) h = elim (Bool-cases (bytes_beq q p)) [
  | inl e ↦ rw e (Pairwise-delete p running h.1)
  | inr e ↦ rw e (All-delete (Apart (q, j)) p running h.0, Pairwise-delete p running h.1)
]

run_end-IsCounted :
    (p : Bytes) (id : ℕ) (b : Fetches)
    → lookup p b.fetches ≡ some id
    → IsCounted b
    → IsCounted (run_end p id b)
unfolding run_end
run_end-IsCounted p id b found h = (
  ground (arith, users-delete p id b.states b.fetches h.1 found, h.0),
  Pairwise-delete p b.fetches h.1,
  All-delete (Below b.next) p b.fetches h.2,
)

cancel_all-IsCounted :
    (running : Running) (b : Fetches) → IsCounted b → IsCounted (cancel_all running b)
unfolding cancel_all
cancel_all-IsCounted [] b h = h
cancel_all-IsCounted ((p, id) ∷ running) b h =
    cancel_all-IsCounted running (update id canceled_state b)
      (update-IsCounted id canceled_state b (λ st. refl) h)

absent-IsCounted :
    (io : StartIo) (p : Bytes) (bg : Bool) (b : Fetches)
    → lookup p b.fetches ≡ none
    → IsCounted b
    → IsCounted (start_absent io p bg b).0
unfolding start_absent
absent-IsCounted io p bg b absent h = elim (Bool-cases (io.online && (io.mkdir_ok && io.open_ok))) [
  | inl e ↦
      let started : (start_absent io p bg b).0 ≡ launch io.size p bg b = ground (arith, e) in
      rw started (launch-IsCounted io.size p bg b absent h)
  | inr e ↦ let kept : (start_absent io p bg b).0 ≡ b = ground (arith, e) in rw kept h
]

cancel_id-IsCounted :
    (running : Option ℕ) (b : Fetches) → IsCounted b → IsCounted (cancel_id running b)
unfolding cancel_id
cancel_id-IsCounted none b h = h
cancel_id-IsCounted (some id) b h = update-IsCounted id canceled_state b (λ st. refl) h

abandon-IsCounted : (id : ℕ) (b : Fetches) → IsCounted b → IsCounted (abandon id b)
unfolding abandon
abandon-IsCounted id b h = elim (Bool-cases (unread (state_of id b.states))) [
  | inl u ↦
      elim (Bool-cases (
        ltb 0 (state_of id b.states).total
        && leb (state_of id b.states).total ((state_of id b.states).progress + abandon_tail))) [
          | inl e ↦ rw (u, e) h
          | inr e ↦ rw (u, e) (update-IsCounted id canceled_state b (λ st. refl) h)
        ]
  | inr u ↦ rw u h
]

start-IsCounted :
    (io : StartIo) (path : Bytes) (bg : Bool) (b : Fetches)
    → IsCounted b
    → IsCounted (start_fetch io path bg b).0
unfolding start_fetch start_running start_absent
start-IsCounted io path bg b h = elim (Bool-cases io.cached) [
  | inl c ↦ rw c h
  | inr c ↦ elim (Option-cases (lookup (rel path) b.fetches)) [
    | inl e ↦ rw (c, e) (absent-IsCounted io (rel path) bg b e h)
    | inr (id, e) ↦ rw (c, e) (join-IsCounted (rel path) bg id b e h)
  ]
]

pub step-IsCounted : {b b' : Fetches} → Step b b' → IsCounted b → IsCounted b'
unfolding finish abandon cancel_fetch cancel_fetches
step-IsCounted (starts io path bg b) h = start-IsCounted io path bg b h
step-IsCounted (ends p id b found) h = run_end-IsCounted p id b found h
step-IsCounted (finishes id err b) h = update-IsCounted id _ b (λ st. refl) h
step-IsCounted (advances id n b) h = update-IsCounted id _ b (λ st. refl) h
step-IsCounted (opens id b) h = update-IsCounted id _ b (λ st. refl) h
step-IsCounted (releases id b) h = update-IsCounted id _ b (λ st. refl) h
step-IsCounted (abandons id b) h = abandon-IsCounted id b h
step-IsCounted (cancels path b) h = cancel_id-IsCounted (lookup (rel path) b.fetches) b h
step-IsCounted (cancels_all b) h = cancel_all-IsCounted b.fetches b h

pub Reachable-IsCounted : {b : Fetches} → Reachable b → IsCounted b
unfolding users
Reachable-IsCounted reach_start = (refl, tt, tt)
Reachable-IsCounted (reach_step r s) = step-IsCounted s (Reachable-IsCounted r)

users-any :
    (states : States) (running : Running)
    → ltb 0 (users states running) ≡ any (λ a. not (background a.1 states)) running
unfolding users
users-any states [] = refl
users-any states ((p, id) ∷ running) = ground (arith, users-any states running)

-- A download waits at a chunk exactly when it is in the background and some running download is
-- not, whatever was started, joined, read, canceled and ended before, and in whatever order.
pub must_wait_lem :
    (id : ℕ) (b : Fetches)
    → Reachable b
    → must_wait id b
      ≡ (background id b.states && any (λ a. not (background a.1 b.states)) b.fetches)
unfolding must_wait
must_wait_lem id b r =
    ap (λ k. background id b.states && k)
      (ap (λ n. ltb 0 n) (Reachable-IsCounted r).0 ∙ users-any b.states b.fetches)
