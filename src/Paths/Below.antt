-- ===== src/Paths/Below.antt =====
-- The segments of a path below a directory: strings.Split and strings.Join on the two parts.
use livegit.Prelude.{
  ℕ, ◌<◌, List, [], ◌∷◌, ◌++◌, Bytes, eqb, eqb_iff, length, ◌≡◌, refl, sym, ap, ◌∙◌, inl, inr,
  Bool-cases, arith,
}
use livegit.Prefix.{slash}
use livegit.Paths.{split, join, in_head}
use livegit.Paths.Segments.{in_head-append, split-shape}

pub split-below : (d x : Bytes) → split (d ++ slash ∷ x) ≡ split d ++ split x
unfolding split
split-below [] x = refl
split-below (c ∷ d) x = elim (Bool-cases (eqb c slash)) [
  | inl e ↦ rw e (ap (λ l. [] ∷ l) (split-below d x))
  | inr e ↦ rw e (ap (in_head c) (split-below d x) ∙ in_head-append c d (split x))
]

join-one : (s : Bytes) → join (s ∷ []) ≡ s
unfolding join
join-one s = refl

join-cons : (c : ℕ) (t : Bytes) (ts : List Bytes) → join ((c ∷ t) ∷ ts) ≡ c ∷ join (t ∷ ts)
unfolding join
join-cons c t [] = refl
join-cons c t (u ∷ ts) = refl

join-slash : (s : Bytes) → join ([] ∷ split s) ≡ slash ∷ join (split s)
unfolding join
join-slash s = let (t, ts, q) = split-shape s in rw q refl

join-in_head : (c : ℕ) (s : Bytes) → join (in_head c (split s)) ≡ c ∷ join (split s)
join-in_head c s = let (t, ts, q) = split-shape s in rw q (join-cons c t ts)

pub join-split : (p : Bytes) → join (split p) ≡ p
unfolding split
join-split [] = join-one []
join-split (c ∷ p) = elim (Bool-cases (eqb c slash)) [
  | inl e ↦ rw (e, join-slash p, join-split p) (ap (λ b. b ∷ p) (sym ((eqb_iff c slash).0 e)))
  | inr e ↦ rw (e, join-in_head c p, join-split p)
]

pub length-split : (p : Bytes) → 0 < length (split p)
length-split p = let (t, ts, q) = split-shape p in rw q (omega arith)
