-- ===== src/Exec/Pairing.antt =====
-- The hub through every order of its goroutines: whose exit code goes where.
use livegit.Prelude.{
  ℕ, ◌+◌, ◌%◌, ◌^◌, ◌≤◌, ◌<◌, ◌≡◌, ◌⊎◌, refl, sym, ap, ◌∙◌, inl, inr, arith, Option, none, some,
  List, [], ◌∷◌, nat_eq, ◌==◌, eqb_iff, Bool-cases, Option-cases, lookup, insert, delete,
  lookup-insert, lookup-delete, All, All-map, Pairwise, Bytes,
}
use mathlib.Core.Path.{subst}
use livegit.Exec.{
  ExecReq, ExecSession, ExecHub, new_exec_hub, new_session, exec_req, finish, Begun, runs,
  unknown_token, start_failed, begin_data, Waited, wait_code, end_data,
}

-- The tokens that were answered, with the endpoints and the commands that they were given for.
abbrev pub Issued : Type 0
Issued = List (ℕ × (ℕ × Bytes))

-- A hub in motion: the answers given so far, and the commands that run.
pub record Motion : Type 0 where
  pub hub : ExecHub
  pub issued : Issued
  pub running : List (ℕ × ExecSession)

abbrev pub In : {A : Type 0} → A → List A → Type 0
In a [] = ⊥
In a (x ∷ xs) = (a ≡ x) ⊎ In a xs

abbrev pub start_motion : Motion
start_motion = record { hub = new_exec_hub; issued = []; running = [] }

abbrev running_after : ℕ → Begun → List (ℕ × ExecSession) → List (ℕ × ExecSession)
running_after t (runs s) older = (t, s) ∷ older
running_after t unknown_token older = older
running_after t start_failed older = older

-- A step of a control stream, or of a data stream up to its bridge or after it. The counter is 64
-- bits wide, and a request that wraps it is no step.
pub data Step (m : Motion) : Motion → Type 0 where
  asks :
      (ctl : ℕ) (req : ExecReq)
      → m.hub.seq + 1 < 2 ^ 64
      → Step m (record {
        hub = (exec_req ctl req m.hub).0;
        issued = ((exec_req ctl req m.hub).1, (ctl, req.cmd)) ∷ m.issued;
        running = m.running;
      })
  begins :
      (pty : Option ℕ) (t : ℕ)
      → Step m (record m {
        hub = (begin_data pty t m.hub).0;
        running = running_after t (begin_data pty t m.hub).1 m.running;
      })
  ends :
      (w : Waited) (t : ℕ) (s : ExecSession)
      → In (t, s) m.running
      → Step m (record m { hub = end_data w t s m.hub })

pub data Reach : Motion → Type 0 where
  here : Reach start_motion
  next : {m k : Motion} → Reach m → Step m k → Reach k

-- The session is of the endpoint and the command that the token was given for.
abbrev pub IsAsked : Issued → ℕ → ExecSession → Type 0
IsAsked issued t s = In (t, (s.ctl, s.cmd)) issued

-- No token was given twice, and none is above the counter.
abbrev pub IsCounted : ℕ → Issued → Type 0
IsCounted n issued = All (λ e. e.0 ≤ n) issued × Pairwise (λ x y. y.0 < x.0) issued

In-All : {A : Type 0} (P : A → Type 0) (a : A) (xs : List A) → All P xs → In a xs → P a
In-All P a [] h i = absurd i
In-All P a (x ∷ xs) h (inl e) = subst P (sym e) h.0
In-All P a (x ∷ xs) h (inr i) = In-All P a xs h.1 i

In-once :
    (t : ℕ) (a b : ℕ × Bytes) (issued : Issued)
    → Pairwise (λ x y. y.0 < x.0) issued
    → In (t, a) issued
    → In (t, b) issued
    → a ≡ b
In-once t a b [] h i k = absurd i
In-once t a b (x ∷ xs) h (inl e) (inl f) = ap (λ y. y.1) (e ∙ sym f)
In-once t a b (x ∷ xs) h (inl e) (inr k) =
    let less : t < x.0 = In-All (λ y. y.0 < x.0) (t, b) xs h.0 k in
    absurd (omega (arith, less, ap (λ y. y.0) e))
In-once t a b (x ∷ xs) h (inr i) (inl f) =
    let less : t < x.0 = In-All (λ y. y.0 < x.0) (t, a) xs h.0 i in
    absurd (omega (arith, less, ap (λ y. y.0) f))
In-once t a b (x ∷ xs) h (inr i) (inr k) = In-once t a b xs h.1 i k

-- The sessions that wait or run are those that were asked for.
pub record IsPaired (m : Motion) : Type 0 where
  pub waits : (t : ℕ) (s : ExecSession) → lookup t m.hub.wait ≡ some s → IsAsked m.issued t s
  pub live : (t : ℕ) (s : ExecSession) → In (t, s) m.running → IsAsked m.issued t s
  pub counted : IsCounted m.hub.seq m.issued

some-same : {A : Type 0} (a b : A) → some a ≡ some b → a ≡ b
some-same a b h = cc

asks-waits :
    (ctl : ℕ) (req : ExecReq) (h : ExecHub) (issued : Issued)
    → ((t : ℕ) (s : ExecSession) → lookup t h.wait ≡ some s → IsAsked issued t s)
    → (t : ℕ) (s : ExecSession) → lookup t (exec_req ctl req h).0.wait ≡ some s
    → IsAsked (((exec_req ctl req h).1, (ctl, req.cmd)) ∷ issued) t s
unfolding exec_req new_session
asks-waits ctl req h issued known t s found =
    let n = (h.seq + 1) % 2 ^ 64 in
    let split = sym (lookup-insert n t (new_session ctl req) h.wait) ∙ found in
    elim (Bool-cases (n == t)) [
      | inl e ↦
          let own : new_session ctl req ≡ s = some-same (new_session ctl req) s (rw e at split) in
          inl (
            ap (λ x. (x, (s.ctl, s.cmd))) (sym ((eqb_iff n t).0 e))
            ∙ ap (λ x. (n, (x.ctl, x.cmd))) (sym own))
      | inr e ↦ inr (known t s (rw e at split))
    ]

asks-IsCounted :
    (ctl : ℕ) (req : ExecReq) (h : ExecHub) (issued : Issued)
    → h.seq + 1 < 2 ^ 64
    → IsCounted h.seq issued
    → IsCounted (exec_req ctl req h).0.seq (((exec_req ctl req h).1, (ctl, req.cmd)) ∷ issued)
unfolding exec_req
asks-IsCounted ctl req h issued fits (under, once) = (
  (omega arith, All-map issued (λ e k. omega (arith, k)) under),
  (All-map issued (λ e k. omega (arith, k)) under, once),
)

-- A data stream that begins leaves the sessions of the endpoints and commands that they had.
begins-waits :
    (pty : Option ℕ) (t : ℕ) (h : ExecHub) (issued : Issued)
    → ((u : ℕ) (s : ExecSession) → lookup u h.wait ≡ some s → IsAsked issued u s)
    → (u : ℕ) (s : ExecSession) → lookup u (begin_data pty t h).0.wait ≡ some s
    → IsAsked issued u s
unfolding begin_data finish
begins-waits pty t h issued known u s found = elim (Option-cases (lookup t h.wait)) [
  | inl n ↦ known u s (rw (n, begin_data) at found)
  | inr (r, k) ↦ elim (Option-cases pty) [
    | inl n ↦
        let gone : lookup u (delete t h.wait) ≡ some s = rw (k, begin_data, n, finish) at found in
        let split = sym (lookup-delete t u h.wait) ∙ gone in
        elim (Bool-cases (t == u)) [
          | inl e ↦ cc (rw e at split)
          | inr e ↦ known u s (rw e at split)
        ]
    | inr (p, q) ↦
        let there : lookup u (insert t (record r { pt = some p }) h.wait) ≡ some s =
          rw (k, begin_data, q) at found in
        let split = sym (lookup-insert t u (record r { pt = some p }) h.wait) ∙ there in
        elim (Bool-cases (t == u)) [
          | inl e ↦
              let own : record r { pt = some p } ≡ s =
                some-same (record r { pt = some p }) s (rw e at split) in
              let at : lookup u h.wait ≡ some r =
                ap (λ x. lookup x h.wait) (sym ((eqb_iff t u).0 e)) ∙ k in
              subst (λ x. In (u, (x.ctl, x.cmd)) issued) own (known u r at)
          | inr e ↦ known u s (rw e at split)
        ]
  ]
]

begins-live :
    (pty : Option ℕ) (t : ℕ) (h : ExecHub) (issued : Issued) (older : List (ℕ × ExecSession))
    → ((u : ℕ) (s : ExecSession) → lookup u h.wait ≡ some s → IsAsked issued u s)
    → ((u : ℕ) (s : ExecSession) → In (u, s) older → IsAsked issued u s)
    → (u : ℕ) (s : ExecSession) → In (u, s) (running_after t (begin_data pty t h).1 older)
    → IsAsked issued u s
unfolding begin_data
begins-live pty t h issued older known live u s i = elim (Option-cases (lookup t h.wait)) [
  | inl n ↦ live u s (rw (n, begin_data) at i)
  | inr (r, k) ↦ elim (Option-cases pty) [
    | inl n ↦ live u s (rw (k, begin_data, n) at i)
    | inr (p, q) ↦
        let there : In (u, s) ((t, r) ∷ older) = rw (k, begin_data, q) at i in
        elim there [
          | inl e ↦ subst (λ x. IsAsked issued x.0 x.1) (sym e) (known t r k)
          | inr j ↦ live u s j
        ]
  ]
]

begins-seq : (pty : Option ℕ) (t : ℕ) (h : ExecHub) → (begin_data pty t h).0.seq ≡ h.seq
unfolding begin_data finish
begins-seq pty t h = ground arith

Step-IsPaired : {m k : Motion} → Step m k → IsPaired m → IsPaired k
Step-IsPaired {m} (asks ctl req fits) h = record {
  waits = asks-waits ctl req m.hub m.issued h.waits;
  live = λ t s i. inr (h.live t s i);
  counted = asks-IsCounted ctl req m.hub m.issued fits h.counted;
}
Step-IsPaired {m} (begins pty t) h = record {
  waits = begins-waits pty t m.hub m.issued h.waits;
  live = begins-live pty t m.hub m.issued m.running h.waits h.live;
  counted = rw (begins-seq pty t m.hub) h.counted;
}
Step-IsPaired {m} (ends w t s i) h =
    unfold end_data finish in
    record {
      waits = λ u r found.
          let split = sym (lookup-delete t u m.hub.wait) ∙ found in
          elim (Bool-cases (t == u)) [
            | inl e ↦ cc (rw e at split)
            | inr e ↦ h.waits u r (rw e at split)
          ];
      live = h.live;
      counted = h.counted;
    }

Reach-IsPaired : {m : Motion} → Reach m → IsPaired m
Reach-IsPaired here = record {
  waits = λ t s found. absurd (unfold lookup in ground (arith, found));
  live = λ t s i. absurd i;
  counted = (tt, tt);
}
Reach-IsPaired (next r s) = Step-IsPaired s (Reach-IsPaired r)

-- In whatever order control streams and data streams are served, a command that runs is the one
-- that its token was given for, and when it ends its exit code is pushed once, to the endpoint that
-- asked for it, and its session is forgotten, as long as the 64-bit counter has not wrapped.
pub Reach-told :
    {m : Motion} (w : Waited) (t ctl : ℕ) (s : ExecSession) (cmd : Bytes)
    → Reach m
    → In (t, s) m.running
    → In (t, (ctl, cmd)) m.issued
    → (s.cmd ≡ cmd)
      × ((end_data w t s m.hub).pushed ≡ (ctl, wait_code w) ∷ m.hub.pushed)
      × (lookup t (end_data w t s m.hub).wait ≡ none)
unfolding end_data finish
Reach-told {m} w t ctl s cmd r alive given =
    let h = Reach-IsPaired r in
    let same : (s.ctl, s.cmd) ≡ (ctl, cmd) =
      In-once t (s.ctl, s.cmd) (ctl, cmd) m.issued h.counted.1 (h.live t s alive) given in
    (
      ap (λ x. x.1) same,
      ap (λ x. (x.0, wait_code w) ∷ m.hub.pushed) same,
      lookup-delete t t m.hub.wait ∙ rw ((eqb_iff t t).1 refl) refl,
    )
