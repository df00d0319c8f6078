-- ===== src/Ignore/Subtree.antt =====
-- Paths below an ignored directory, for `Match` of internal/config/ignore.go.
use mathlib.Core.List.{foldl}
use livegit.Prelude.{
  ℕ, zero, suc, ◌+◌, ◌-◌, ◌≤◌, ◌<◌, Bool, true, false, List, [], ◌∷◌, ◌++◌, Bytes, ◌==◌, bytes_eq,
  bytes_beq, length, take, drop, ltb, eqb, eqb_iff, All, ◌≡◌, refl, ap, inl, inr, Bool-cases,
  length-append, take-append, arith,
}
use livegit.Prefix.{slash}
use livegit.Paths.{split, join, rel}
use livegit.Paths.Below.{split-below, join-split, length-split}
use livegit.Ignore.{
  Rule, Matcher, any_from, glob_match, matches, matches_as_parent, match_step, match_path,
}

-- A test that holds of one of the numbers holds of one of more numbers, where it implies another.
any_from_mono :
    (test test' : ℕ → Bool) (i count count' : ℕ)
    → ((j : ℕ) → i ≤ j → j < i + count → test j ≡ true → test' j ≡ true)
    → count ≤ count'
    → any_from test i count ≡ true
    → any_from test' i count' ≡ true
unfolding any_from
any_from_mono test test' i zero count' imp le h = ground (arith, h)
any_from_mono test test' i (suc count) zero imp le h = ground (arith, le)
any_from_mono test test' i (suc count) (suc count') imp le h = elim (Bool-cases (test i)) [
  | inl e ↦ rw (imp i (omega arith) (omega arith) e)
  | inr e ↦
      let more : any_from test (suc i) count ≡ true = ground (arith, h, e) in
      let rest : any_from test' (suc i) count' ≡ true =
        any_from_mono test test' (suc i) count count'
          (λ j l u. imp j (omega (arith, l)) (omega (arith, u))) (omega (arith, le)) more in
      ground (arith, rest)
]

any_from-hit :
    (test : ℕ → Bool) (i count k : ℕ)
    → i ≤ k
    → k < i + count
    → test k ≡ true
    → any_from test i count ≡ true
unfolding any_from
any_from-hit test i zero k le lt h = ground (arith, le, lt)
any_from-hit test i (suc count) k le lt h = elim (Bool-cases (eqb i k)) [
  | inl e ↦ rw ((eqb_iff i k).0 e, h)
  | inr e ↦
      let later : suc i ≤ k = ground (arith, e, le) in
      let rest : any_from test (suc i) count ≡ true =
        any_from-hit test (suc i) count k later (omega (arith, lt)) h in
      ground (arith, rest)
]

take-prefix : (i : ℕ) (xs ys : List Bytes) → i ≤ length xs → take i (xs ++ ys) ≡ take i xs
take-prefix zero xs ys h = refl
take-prefix (suc i) [] ys h = ground (arith, h)
take-prefix (suc i) (x ∷ xs) ys h = ap (λ l. x ∷ l) (take-prefix i xs ys (omega (arith, h)))

below-nonempty : (d x : Bytes) → (d ++ slash ∷ x) == [] ≡ false
unfolding bytes_beq
below-nonempty [] x = refl
below-nonempty (c ∷ d) x = refl

-- The tests of the ancestors, and of the runs of segments, are among those of a longer path.
module _ (test : Bytes → Bool) (xs ys : List Bytes) where
  ancestors-below :
      any_from (λ i. test (join (take i xs))) 1 (length xs) ≡ true
      → any_from (λ i. test (join (take i (xs ++ ys)))) 1 (length (xs ++ ys)) ≡ true
  ancestors-below =
      any_from_mono _ _ 1 (length xs) (length (xs ++ ys))
        (λ i l u h. rw (take-prefix i xs ys (omega (arith, u))) h)
        (omega (arith, length-append xs ys))

  runs-below :
      any_from
          (λ i. any_from (λ j. test (join (drop i (take j xs)))) (suc i) (length xs - i))
          0
          (length xs)
        ≡ true
      → any_from
          (λ i.
            any_from
              (λ j. test (join (drop i (take j (xs ++ ys)))))
              (suc i)
              (length (xs ++ ys) - i))
          0
          (length (xs ++ ys))
        ≡ true
  runs-below =
      any_from_mono _ _ 0 (length xs) (length (xs ++ ys))
        (λ i l u.
          any_from_mono _ _ (suc i) (length xs - i) (length (xs ++ ys) - i)
            (λ j l' u' h. rw (take-prefix j xs ys (omega (arith, u, u'))) h)
            (omega (arith, length-append xs ys)))
        (omega (arith, length-append xs ys))

module _ (path_match : Bytes → Bytes → Bool) where
  matches-below :
      (r : Rule) (d x : Bytes)
      → matches path_match r d ≡ true
      → matches path_match r (d ++ slash ∷ x) ≡ true
  unfolding matches
  matches-below r d x h = elim (Bool-cases r.anchored) [
    | inl e ↦ rw (split-below d x) (
        simp e
          (ancestors-below (glob_match path_match r.pattern) (split d) (split x) (simp e at h)))
    | inr e ↦
        rw (split-below d x)
          (simp e (runs-below (glob_match path_match r.pattern) (split d) (split x) (simp e at h)))
  ]

  parent-below :
      (r : Rule) (d x : Bytes)
      → matches path_match r d ≡ true
      → matches_as_parent path_match r (d ++ slash ∷ x) ≡ true
  unfolding matches_as_parent
  parent-below r d x h =
      let long : length (split d ++ split x) ≡ length (split d) + length (split x) =
        length-append (split d) (split x) in
      let two : ltb (length (split d ++ split x)) 2 ≡ false =
        ground (arith, long, length-split d, length-split x) in
      rw (split-below d x, two)
        (any_from-hit _ 1 (length (split d ++ split x) - 1) (length (split d)) (length-split d)
          (omega (arith, long, length-split d, length-split x))
          (rw (take-append (split d) (split x), join-split d) h))

  -- What ignores the directory ignores what is below it, whatever was found before.
  step-below :
      (r : Rule) (d x : Bytes) (is_dir ignored ignored' : Bool)
      → r.negate ≡ false
      → (ignored ≡ true → ignored' ≡ true)
      → match_step path_match d true ignored r ≡ true
      → match_step path_match (d ++ slash ∷ x) is_dir ignored' r ≡ true
  unfolding match_step
  step-below r d x is_dir ignored ignored' n imp h = elim (Bool-cases (matches path_match r d)) [
    | inl e ↦ simp (matches-below r d x e, parent-below r d x e, n) (ground arith)
    | inr e ↦ ground (arith, h, e, imp, n)
  ]

  steps-below :
      (m : Matcher) (d x : Bytes) (is_dir ignored ignored' : Bool)
      → All (λ r. r.negate ≡ false) m
      → (ignored ≡ true → ignored' ≡ true)
      → foldl (match_step path_match d true) ignored m ≡ true
      → foldl (match_step path_match (d ++ slash ∷ x) is_dir) ignored' m ≡ true
  steps-below [] d x is_dir ignored ignored' n imp h = imp h
  steps-below (r ∷ m) d x is_dir ignored ignored' n imp h =
      steps-below m d x is_dir _ _ n.1 (step-below r d x is_dir ignored ignored' n.0 imp) h

  -- Where no rule has a `!` and a directory is ignored, every path below it is ignored, if both
  -- paths are canonical.
  pub match_path-below :
      (m : Matcher) (d x : Bytes) (is_dir : Bool)
      → All (λ r. r.negate ≡ false) m
      → rel d ≡ d
      → rel (d ++ slash ∷ x) ≡ d ++ slash ∷ x
      → match_path path_match m d true ≡ true
      → match_path path_match m (d ++ slash ∷ x) is_dir ≡ true
  unfolding match_path
  match_path-below m d x is_dir n canonical below h = elim (Bool-cases (d == [])) [
    | inl e ↦ ground (arith, simp (canonical, e) at h)
    | inr e ↦
        rw (below, below-nonempty d x)
          (steps-below m d x is_dir false false n (λ i. i) (simp (canonical, e) at h))
  ]
