-- ===== src/Fetch.antt =====
-- The running downloads, internal/fuse/fetch.go: which paths have one, who reads it, and which of
-- them wait. A state that openers and the download share is found by its number. Each function is
-- what happens while its lock is held.
pub mod Count
pub mod Gate
pub mod Join
mod Samples
use livegit.Prelude.{
  ℕ, zero, suc, ◌+◌, ◌-◌, Bool, true, false, not, ◌&&◌, ◌||◌, Option, none, some, List, [], ◌∷◌,
  map, Bytes, bytes_eq, nat_eq, eqb, if◌then◌else◌, ltb, leb, length, lookup, insert, delete,
}
use livegit.Paths.{rel}

pub data FetchError : Type 0 where
  not_exist : FetchError
  canceled : FetchError
  failed : FetchError

-- `readers` is the difference of the last two.
pub record FetchState : Type 0 where
  pub progress : ℕ
  pub finished : Bool
  pub error : Option FetchError
  pub total : ℕ
  pub stopped : Bool
  pub bg : Bool
  pub opened : ℕ
  pub released : ℕ

abbrev pub new_fetch_state : FetchState
new_fetch_state = record {
  progress = 0;
  finished = false;
  error = none;
  total = 0;
  stopped = false;
  bg = false;
  opened = 0;
  released = 0;
}

-- The part of the backend that `fetchMu` guards, and the states it points to.
pub record Fetches : Type 0 where
  pub fetches : List (Bytes × ℕ)
  pub states : List (ℕ × FetchState)
  pub next : ℕ
  pub normal_fetches : ℕ

unfoldable pub state_of : ℕ → List (ℕ × FetchState) → FetchState
state_of id states = elim (lookup id states) [ none ↦ new_fetch_state | some st ↦ st ]

unfoldable pub update : ℕ → (FetchState → FetchState) → Fetches → Fetches
update id change b = record b { states = insert id (change (state_of id b.states)) b.states }

unfoldable pub background : ℕ → List (ℕ × FetchState) → Bool
background id states = (state_of id states).bg

abbrev pub reader_added : FetchState → FetchState
reader_added st = record st { opened = suc st.opened }

abbrev pub reader_gone : FetchState → FetchState
reader_gone st = record st { released = suc st.released }

unfoldable pub unread : FetchState → Bool
unread st = eqb st.opened st.released && not st.finished

-- `dropReader`, the state and whether the fetch is now abandoned
unfoldable pub drop_reader : FetchState → FetchState × Bool
drop_reader st = (reader_gone st, unread (reader_gone st))

abbrev pub advanced : ℕ → FetchState → FetchState
advanced n st = record st { progress = st.progress + n }

abbrev pub ended : Option FetchError → FetchState → FetchState
ended err st = record st { finished = true; error = err }

abbrev pub promoted : FetchState → FetchState
promoted st = record st { bg = false }

abbrev pub canceled_state : FetchState → FetchState
canceled_state st = record st { stopped = true }

-- What a reader finds that needs so many bytes, or all of them.
pub data Wait : Type 0 where
  returns : Option FetchError → Wait
  blocks : Wait

unfoldable pub has_bytes : Option ℕ → ℕ → Bool
has_bytes none progress = false
has_bytes (some need) progress = leb need progress

-- One round of `wait`, by the time its context is done or not.
unfoldable pub wait : Bool → Option ℕ → FetchState → Wait
wait ctx_done need st =
    if st.finished
    then returns st.error
    else if has_bytes need st.progress
    then returns none
    else if ctx_done
    then returns (some canceled)
    else blocks

-- What `StartFetch` finds on the disk, on the connection and in the index.
pub record StartIo : Type 0 where
  pub cached : Bool
  pub online : Bool
  pub mkdir_ok : Bool
  pub open_ok : Bool
  pub size : Option ℕ

pub data Started : Type 0 where
  present : Started
  fetching : ℕ → Started
  refused : Started

unfoldable pub join_fetch : Bool → ℕ → Fetches → Fetches
join_fetch bg id b =
    let b' = update id promoted b in
    if not bg && background id b.states
    then record b' { normal_fetches = suc b.normal_fetches }
    else b

abbrev pub size_or_zero : Option ℕ → ℕ
size_or_zero none = 0
size_or_zero (some n) = n

unfoldable pub launch : Option ℕ → Bytes → Bool → Fetches → Fetches
launch size p bg b = record {
  fetches = insert p b.next b.fetches;
  states = insert b.next (record new_fetch_state { total = size_or_zero size; bg = bg }) b.states;
  next = suc b.next;
  normal_fetches = if bg then b.normal_fetches else suc b.normal_fetches;
}

unfoldable pub start_absent : StartIo → Bytes → Bool → Fetches → Fetches × Started
start_absent io p bg b =
    if not io.online
    then (b, refused)
    else if not io.mkdir_ok
    then (b, refused)
    else if not io.open_ok
    then (b, refused)
    else (launch io.size p bg b, fetching b.next)

unfoldable pub start_running : StartIo → Bytes → Bool → Fetches → Option ℕ → Fetches × Started
start_running io p bg b none = start_absent io p bg b
start_running io p bg b (some id) = (join_fetch bg id b, fetching id)

-- `StartFetch`
unfoldable pub start_fetch : StartIo → Bytes → Bool → Fetches → Fetches × Started
start_fetch io path bg b =
    if io.cached
    then (b, present)
    else start_running io (rel path) bg b (lookup (rel path) b.fetches)

-- The part of `runFetch` under the lock; a fetch that is counted is there to be counted off.
unfoldable pub run_end : Bytes → ℕ → Fetches → Fetches
run_end p id b = record b {
  fetches = delete p b.fetches;
  normal_fetches = if background id b.states then b.normal_fetches else b.normal_fetches - 1;
}

-- The rest of `runFetch`
unfoldable pub finish : ℕ → Option FetchError → Fetches → Fetches
finish id err b = update id (λ st. ended err (canceled_state st)) b

-- Whether a round of `waitTurn` waits
unfoldable pub must_wait : ℕ → Fetches → Bool
must_wait id b = background id b.states && ltb 0 b.normal_fetches

unfoldable pub cancel_id : Option ℕ → Fetches → Fetches
cancel_id none b = b
cancel_id (some id) b = update id canceled_state b

-- `CancelFetch`
unfoldable pub cancel_fetch : Bytes → Fetches → Fetches × Bool
cancel_fetch path b =
    let running = lookup (rel path) b.fetches in
    (cancel_id running b, elim running [ none ↦ false | some _ ↦ true ])

unfoldable pub cancel_all : List (Bytes × ℕ) → Fetches → Fetches
cancel_all [] b = b
cancel_all ((p, id) ∷ running) b = cancel_all running (update id canceled_state b)

-- `CancelFetches`
unfoldable pub cancel_fetches : Fetches → Fetches × ℕ
cancel_fetches b = (cancel_all b.fetches b, length b.fetches)

-- 16 MiB
abbrev pub abandon_tail : ℕ
abandon_tail = 16777216

-- The part of `releaseFetchReader` after the grace period
unfoldable pub abandon : ℕ → Fetches → Fetches
abandon id b =
    let st = state_of id b.states in
    if not (unread st)
    then b
    else if ltb 0 st.total && leb st.total (st.progress + abandon_tail)
    then b
    else update id canceled_state b

-- `fetchActive`
unfoldable pub fetch_active : Bytes → Fetches → Bool
fetch_active p b = elim (lookup p b.fetches) [ none ↦ false | some _ ↦ true ]
