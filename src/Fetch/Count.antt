-- ===== src/Fetch/Count.antt =====
-- How many of the running downloads of internal/fuse/fetch.go were asked for by a user, when one
-- of them changes.
use livegit.Prelude.{
  ℕ, suc, ◌+◌, ◌<◌, Bool, true, false, some, List, [], ◌∷◌, Bytes, bytes_eq, bytes_beq,
  bytes_beq_iff, nat_eq, eqb, eqb_iff, if◌then◌else◌, lookup, insert, delete, lookup-insert, All,
  All-map, Pairwise, ◌≡◌, ◌≢◌, refl, sym, ap, inl, inr, Bool-cases, arith,
}
use livegit.Fetch.{FetchState, state_of, background}

abbrev pub Running : Type 0
Running = List (Bytes × ℕ)

abbrev pub States : Type 0
States = List (ℕ × FetchState)

-- The downloads that are not in the background.
unfoldable pub users : States → Running → ℕ
users states [] = 0
users states ((p, id) ∷ running) = (if background id states then 0 else 1) + users states running

-- Two downloads are of different paths and have different states.
abbrev pub Apart : Bytes × ℕ → Bytes × ℕ → Type 0
Apart a b = (a.0 ≢ b.0) × (a.1 ≢ b.1)

abbrev pub Below : ℕ → Bytes × ℕ → Type 0
Below next a = a.1 < next

state_of-insert :
    (id j : ℕ) (st : FetchState) (states : States)
    → state_of j (insert id st states) ≡ (if eqb id j then st else state_of j states)
unfolding state_of
state_of-insert id j st states = ground (arith, lookup-insert id j st states)

pub background-insert :
    (id j : ℕ) (st : FetchState) (states : States)
    → background j (insert id st states) ≡ (if eqb id j then st.bg else background j states)
unfolding background
background-insert id j st states =
    state_bg (eqb id j) st (state_of j states) (state_of-insert id j st states)
  where
    state_bg :
        (same : Bool) (st st' : FetchState) {found : FetchState}
        → found ≡ (if same then st else st')
        → found.bg ≡ (if same then st.bg else st'.bg)
    state_bg true st st' e = ap (λ s. s.bg) e
    state_bg false st st' e = ap (λ s. s.bg) e

-- A change that leaves a download where it was, in the background or not.
pub users-same :
    (id : ℕ) (st : FetchState) (states : States) (running : Running)
    → st.bg ≡ background id states
    → users (insert id st states) running ≡ users states running
unfolding users
users-same id st states [] h = refl
users-same id st states ((p, j) ∷ running) h = elim (Bool-cases (eqb id j)) [
  | inl e ↦ rw (
    background-insert id j st states,
    e,
    h,
    (eqb_iff id j).0 e,
    users-same id st states running h,
  )
  | inr e ↦ rw (background-insert id j st states, e, users-same id st states running h)
]

pub users-fresh :
    (id : ℕ) (st : FetchState) (states : States) (running : Running)
    → All (λ a. id ≢ a.1) running
    → users (insert id st states) running ≡ users states running
unfolding users
users-fresh id st states [] h = refl
users-fresh id st states ((p, j) ∷ running) h =
    let other : eqb id j ≡ false = ground (arith, h.0) in
    rw (background-insert id j st states, other, users-fresh id st states running h.1)

pub All-found :
    (P : ℕ → Type 0) (p : Bytes) (id : ℕ) (running : Running)
    → All (λ a. P a.1) running
    → lookup p running ≡ some id
    → P id
unfolding lookup
All-found P p id [] h found = ground (arith, found)
All-found P p id ((q, j) ∷ running) h found = elim (Bool-cases (bytes_beq q p)) [
  | inl e ↦ let same : j ≡ id = ground (arith, found, e) in rw (sym same) h.0
  | inr e ↦
      let later : lookup p running ≡ some id = ground (arith, found, e) in
      All-found P p id running h.1 later
]

pub users-promoted :
    (p : Bytes) (id : ℕ) (st : FetchState) (states : States) (running : Running)
    → Pairwise Apart running
    → lookup p running ≡ some id
    → background id states ≡ true
    → st.bg ≡ false
    → users (insert id st states) running ≡ suc (users states running)
unfolding users lookup
users-promoted p id st states [] apart found bg h = ground (arith, found)
users-promoted p id st states ((q, j) ∷ running) apart found bg h =
    elim (Bool-cases (bytes_beq q p)) [
      | inl e ↦
          let same : j ≡ id = ground (arith, found, e) in
          let rest : users (insert id st states) running ≡ users states running =
            users-fresh id st states running
              (rw (sym same) (All-map running (λ a k. k.1) apart.0)) in
          let one : eqb id id ≡ true = ground arith in
          rw (same, background-insert id id st states, one, h, bg, rest) (omega arith)
      | inr e ↦
          let later : lookup p running ≡ some id = ground (arith, found, e) in
          let other : eqb id j ≡ false =
            let differ : j ≢ id =
              All-found (λ k. j ≢ k) p id running (All-map running (λ a k. k.1) apart.0) later in
            ground (arith, differ) in
          rw (background-insert id j st states, other)
            (omega (arith, users-promoted p id st states running apart.1 later bg h))
    ]

delete-absent :
    (p : Bytes) (running : Running) → All (λ a. p ≢ a.0) running → delete p running ≡ running
unfolding delete
delete-absent p [] h = refl
delete-absent p ((q, j) ∷ running) h =
    let other : bytes_beq q p ≡ false = ground (arith, h.0, bytes_beq_iff q p) in
    rw (other, delete-absent p running h.1)

pub users-delete :
    (p : Bytes) (id : ℕ) (states : States) (running : Running)
    → Pairwise Apart running
    → lookup p running ≡ some id
    → users states running
      ≡ (if background id states then 0 else 1) + users states (delete p running)
unfolding users lookup delete
users-delete p id states [] apart found = ground (arith, found)
users-delete p id states ((q, j) ∷ running) apart found = elim (Bool-cases (bytes_beq q p)) [
  | inl e ↦
      let same : j ≡ id = ground (arith, found, e) in
      let path : q ≡ p = (bytes_beq_iff q p).0 e in
      rw (e, same, delete-absent p running (rw (sym path) (All-map running (λ a k. k.0) apart.0)))
  | inr e ↦
      let later : lookup p running ≡ some id = ground (arith, found, e) in
      rw e (omega (arith, users-delete p id states running apart.1 later))
]
