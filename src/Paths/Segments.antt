-- ===== src/Paths/Segments.antt =====
-- Paths taken apart at their slashes and put together again.
use mathlib.Core.List.{foldl, foldl-append}
use livegit.Prelude.{
  ℕ, Bool, false, ◌≡◌, ◌≢◌, refl, ◌∙◌, ap, sym, inl, inr, List, [], ◌∷◌, ◌++◌, arith, Bytes, ◌==◌,
  bytes_eq, bytes_beq, bytes_beq_iff, eqb, eqb_iff, All, Bool-cases,
}
use livegit.Prefix.{slash, head_is}
use livegit.Paths.{
  backslash, in_head, split, join, to_slash, trim_left, trim_right, trim, clean_step,
}

-- Neither separator occurs.
abbrev pub IsPlain : Bytes → Type 0
IsPlain = All (λ c. (c ≢ slash) × (c ≢ backslash))

abbrev pub NoBackslash : Bytes → Type 0
NoBackslash = All (λ c. c ≢ backslash)

pub to_slash-NoBackslash : (p : Bytes) → NoBackslash (to_slash p)
unfolding to_slash
to_slash-NoBackslash [] = tt
to_slash-NoBackslash (c ∷ p) = (ground arith, to_slash-NoBackslash p)

pub to_slash-id : (p : Bytes) → NoBackslash p → to_slash p ≡ p
unfolding to_slash
to_slash-id [] h = refl
to_slash-id (c ∷ p) h = ground (arith, to_slash-id p h.1)

in_head-IsPlain :
    (c : ℕ) (ss : List Bytes)
    → (c ≢ slash) × (c ≢ backslash)
    → All IsPlain ss
    → All IsPlain (in_head c ss)
in_head-IsPlain c [] k h = ((k, tt), tt)
in_head-IsPlain c (s ∷ ss) k h = ((k, h.0), h.1)

pub split-IsPlain : (p : Bytes) → NoBackslash p → All IsPlain (split p)
unfolding split
split-IsPlain [] h = (tt, tt)
split-IsPlain (c ∷ p) h = elim (Bool-cases (eqb c slash)) [
  | inl e ↦ rw e (tt, split-IsPlain p h.1)
  | inr e ↦ rw e (
      in_head-IsPlain c (split p) (λ q. ground (arith, eqb_iff c slash), h.0) (split-IsPlain p h.1))
]

split-plain : (s : Bytes) → IsPlain s → split s ≡ s ∷ []
unfolding split
split-plain [] h = refl
split-plain (c ∷ s) h = ground (arith, split-plain s h.1, eqb_iff c slash)

split-append : (s t : Bytes) → IsPlain s → split (s ++ slash ∷ t) ≡ s ∷ split t
unfolding split
split-append [] t h = refl
split-append (c ∷ s) t h = ground (arith, split-append s t h.1, eqb_iff c slash)

-- Splitting undoes joining, where the parts hold no separator.
pub split-join :
    (s : Bytes) (ss : List Bytes) → All IsPlain (s ∷ ss) → split (join (s ∷ ss)) ≡ s ∷ ss
unfolding join
split-join s [] h = split-plain s h.0
split-join s (t ∷ ss) h = split-append s (join (t ∷ ss)) h.0 ∙ ap (λ l. s ∷ l) (split-join t ss h.1)

module _ (rooted : Bool) where
  abbrev pub run : List Bytes → List Bytes → List Bytes
  run = foldl (clean_step rooted)

  pub step-empty : (out : List Bytes) → clean_step rooted out [] ≡ out
  unfolding clean_step bytes_beq
  step-empty out = refl

  run-trim_left : (out : List Bytes) (s : Bytes) → run out (split (trim_left s)) ≡ run out (split s)
  unfolding trim_left split
  run-trim_left out [] = refl
  run-trim_left out (c ∷ s) = elim (Bool-cases (eqb c slash)) [
    | inl e ↦ rw e (run-trim_left out s ∙ ap (λ o. run o (split s)) (sym (step-empty out)))
    | inr e ↦ rw e (rw e)
  ]

-- What `trim_right` cuts off are empty segments at the end.
abbrev AllEmpty : List Bytes → Type 0
AllEmpty = All (λ s. s ≡ [])

pub split-shape : (s : Bytes) → (t : Bytes) × (ts : List Bytes) × (split s ≡ t ∷ ts)
unfolding split
split-shape [] = ([], [], refl)
split-shape (c ∷ s) = elim (Bool-cases (eqb c slash)) [
  | inl e ↦ ([], split s, rw e)
  | inr e ↦ let (t, ts, q) = split-shape s in (c ∷ t, ts, rw (e, q))
]

pub in_head-append :
    (c : ℕ) (s : Bytes) (es : List Bytes) → in_head c (split s ++ es) ≡ in_head c (split s) ++ es
in_head-append c s es = let (t, ts, q) = split-shape s in rw q

split-trim_right :
    (s : Bytes) → (es : List Bytes) × (split s ≡ split (trim_right s) ++ es) × AllEmpty es
unfolding split trim_right
split-trim_right [] = ([], refl, tt)
split-trim_right (c ∷ s) =
    let (es, q, all) = split-trim_right s in
    elim (Bool-cases (eqb c slash)) [
      | inl e ↦ elim (Bool-cases (trim_right s == [])) [
        | inl z ↦
            let empty : trim_right s ≡ [] = (bytes_beq_iff (trim_right s) []).0 z in
            ([] ∷ es, rw (z, e, q, empty), (refl, all))
        | inr z ↦ (es, rw (z, e) (ap (λ l. [] ∷ l) q), all)
      ]
      | inr e ↦ (es, plain e es q, all)
    ]
  where
    plain :
        eqb c slash ≡ false
        → (es : List Bytes) → split s ≡ split (trim_right s) ++ es
        → split (c ∷ s) ≡ split (trim_right (c ∷ s)) ++ es
    plain e es q = elim (Bool-cases (trim_right s == [])) [
      | inl z ↦ rw (z, e) (rw e (ap (in_head c) q ∙ in_head-append c (trim_right s) es))
      | inr z ↦ rw (z, e) (ap (in_head c) q ∙ in_head-append c (trim_right s) es)
    ]

run-AllEmpty : (rooted : Bool) (out es : List Bytes) → AllEmpty es → run rooted out es ≡ out
run-AllEmpty rooted out [] h = refl
run-AllEmpty rooted out (s ∷ es) h = rw (h.0, step-empty) (run-AllEmpty rooted out es h.1)

-- Slashes at either end of a path make no difference to its segments.
pub run-trim :
    (rooted : Bool) (out : List Bytes) (s : Bytes)
    → run rooted out (split (trim s)) ≡ run rooted out (split s)
unfolding trim
run-trim rooted out s =
    let (es, q, all) = split-trim_right (trim_left s) in
    sym (rw (q, foldl-append) (run-AllEmpty rooted _ es all)) ∙ run-trim_left rooted out s

trim_left-head : (s : Bytes) → head_is slash (trim_left s) ≡ false
unfolding trim_left head_is
trim_left-head [] = refl
trim_left-head (c ∷ s) = ground (arith, trim_left-head s)

trim_right-head : (s : Bytes) → head_is slash s ≡ false → head_is slash (trim_right s) ≡ false
unfolding trim_right head_is
trim_right-head [] h = refl
trim_right-head (c ∷ s) h = ground arith

pub trim-head : (s : Bytes) → head_is slash (trim s) ≡ false
unfolding trim
trim-head s = trim_right-head (trim_left s) (trim_left-head s)
