-- ===== src/Paths/Canonical.antt =====
-- `Rel` gives every path one name.
use mathlib.Core.List.{reverse, foldl-append, reverse-append}
use livegit.Prelude.{
  false, ◌||◌, ◌≡◌, ◌≢◌, refl, ◌∙◌, ap, sym, inl, inr, List, [], ◌∷◌, arith, Bytes, ◌==◌, bytes_eq,
  bytes_beq, bytes_beq_iff, if◌then◌else◌, All, All-map, All-append, Bool-cases,
}
use livegit.Prefix.{slash, head_is}
use livegit.Paths.{
  backslash, dot, dotdot, split, join, to_slash, trim, trim_slash, back, clean_step, clean,
  rel_trimmed, rel_cleaned, rel,
}
use livegit.Paths.Segments.{
  IsPlain, NoBackslash, trim-head, to_slash-NoBackslash, to_slash-id, split-IsPlain, split-join,
  run, run-trim,
}

-- An element that `clean` keeps: it names something, and `..` stands behind `..` only.
abbrev pub IsElement : Bytes → List Bytes → Type 0
IsElement s before = IsPlain s × (s ≢ []) × (s ≢ dot) × (s ≡ dotdot → All (λ t. t ≡ dotdot) before)

-- Elements, last first.
abbrev pub IsStack : List Bytes → Type 0
IsStack [] = Unit
IsStack (s ∷ out) = IsElement s out × IsStack out

dot-ne : (dotdot ≢ []) × (dotdot ≢ dot)
dot-ne = (λ e. ground arith, λ e. ground arith)

back-IsStack : (out : List Bytes) → IsStack out → IsStack (back false out)
unfolding back
back-IsStack [] h = ((omega arith, dot-ne.0, dot-ne.1, λ _. tt), tt)
back-IsStack (t ∷ out) h = elim (Bool-cases (t == dotdot)) [
  | inl e ↦
      let same : t ≡ dotdot = (bytes_beq_iff t dotdot).0 e in
      rw e ((omega arith, dot-ne.0, dot-ne.1, λ _. (same, h.0.3 same)), h)
  | inr e ↦ rw e h.1
]

step-IsStack :
    (out : List Bytes) (s : Bytes) → IsPlain s → IsStack out → IsStack (clean_step false out s)
unfolding clean_step
step-IsStack out s p h = elim (Bool-cases (s == [] || s == dot)) [
  | inl e ↦ rw e h
  | inr e ↦ elim (Bool-cases (s == dotdot)) [
    | inl d ↦ rw (e, d) (back-IsStack out h)
    | inr d ↦
        rw (e, d)
          (
            (
              p,
              λ q. ground (arith, bytes_beq_iff s []),
              λ q. ground (arith, bytes_beq_iff s dot),
              λ q. ground (arith, bytes_beq_iff s dotdot),
            ),
            h,
          )
  ]
]

run-IsStack :
    (out segs : List Bytes) → All IsPlain segs → IsStack out → IsStack (run false out segs)
run-IsStack out [] k h = h
run-IsStack out (s ∷ segs) k h =
    run-IsStack (clean_step false out s) segs k.1 (step-IsStack out s k.0 h)

-- A kept element is pushed when it is met again.
push : (out : List Bytes) (s : Bytes) → IsElement s out → clean_step false out s ≡ s ∷ out
unfolding clean_step back
push [] s h =
    ground (arith, bytes_beq_iff s [], bytes_beq_iff s dot, bytes_beq_iff s dotdot, h.1, h.2)
push (t ∷ out) s h = elim (Bool-cases (s == dotdot)) [
  | inl d ↦
      let same : s ≡ dotdot = (bytes_beq_iff s dotdot).0 d in
      ground (
        arith,
        bytes_beq_iff s [],
        bytes_beq_iff s dot,
        (bytes_beq_iff t dotdot).1 (h.3 same).0,
        h.1,
        h.2,
      )
  | inr d ↦ ground (arith, bytes_beq_iff s [], bytes_beq_iff s dot, h.1, h.2)
]

pub run-reverse : (out : List Bytes) → IsStack out → run false [] (reverse out) ≡ out
run-reverse [] h = refl
run-reverse (s ∷ out) h =
    rw (reverse-append (s ∷ []) out, foldl-append, run-reverse out h.1) (push out s h.0)

-- What `IsElement` says of the element alone.
abbrev pub IsProper : Bytes → Type 0
IsProper s = IsPlain s × (s ≢ []) × (s ≢ dot)

pub IsProper-reverse : (out : List Bytes) → IsStack out → All IsProper (reverse out)
IsProper-reverse [] h = tt
IsProper-reverse (s ∷ out) h = rw (reverse-append (s ∷ []) out) (
    All-append IsProper (reverse out) (s ∷ []) (IsProper-reverse out h.1)
      ((h.0.0, h.0.1, h.0.2), tt))

pub join-head : (segs : List Bytes) → All IsProper segs → head_is slash (join segs) ≡ false
unfolding join head_is
join-head [] h = refl
join-head ([] ∷ segs) h = absurd (h.0.1 refl)
join-head ((c ∷ s) ∷ []) h = ground (arith, h.0.0.0.0)
join-head ((c ∷ s) ∷ t ∷ segs) h = ground (arith, h.0.0.0.0)

pub join-ne-dot : (segs : List Bytes) → All IsProper segs → join segs ≢ dot
unfolding join
join-ne-dot [] h e = ground arith
join-ne-dot (s ∷ []) h e = h.0.2 e
join-ne-dot ([] ∷ t ∷ segs) h e = h.0.1 refl
join-ne-dot ((c ∷ []) ∷ t ∷ segs) h e = ground arith
join-ne-dot ((c ∷ d ∷ s) ∷ t ∷ segs) h e = ground arith

-- The elements that `rel` makes of a path, last first.
abbrev pub elements : Bytes → List Bytes
elements p = run false [] (split (to_slash p))

elements-IsStack : (p : Bytes) → IsStack (elements p)
elements-IsStack p =
    run-IsStack [] (split (to_slash p)) (split-IsPlain (to_slash p) (to_slash-NoBackslash p)) tt

-- The elements joined.
abbrev pub body : Bytes → Bytes
body q = join (reverse (run false [] (split q)))

pub clean-relative :
    (q : Bytes)
    → head_is slash q ≡ false
    → (q == []) ≡ false
    → clean q ≡ (if body q == [] then dot else body q)
unfolding clean
clean-relative q h n = rw (n, h)

trim_slash-id : (b : Bytes) → head_is slash b ≡ false → trim_slash b ≡ b
unfolding trim_slash head_is
trim_slash-id [] h = refl
trim_slash-id (c ∷ b) h = rw h

rel_trimmed-special : (rel_trimmed [] ≡ body []) × (rel_trimmed dot ≡ body dot)
unfolding rel_trimmed bytes_beq clean
rel_trimmed-special = (refl, refl)

rel_cleaned-dot : rel_cleaned dot ≡ []
unfolding rel_cleaned trim_slash bytes_beq
rel_cleaned-dot = refl

rel_cleaned-id : (b : Bytes) → head_is slash b ≡ false → b ≢ dot → rel_cleaned b ≡ b
unfolding rel_cleaned
rel_cleaned-id b h ne = rw (trim_slash-id b h) (ground (arith, bytes_beq_iff b dot))

rel_cleaned-eq-body :
    (q : Bytes)
    → head_is slash q ≡ false
    → head_is slash (body q) ≡ false
    → body q ≢ dot
    → (q == []) ≡ false
    → rel_cleaned (clean q) ≡ body q
rel_cleaned-eq-body q h k ne z = elim (Bool-cases (body q == [])) [
  | inl b ↦
      ap rel_cleaned (rw (clean-relative q h z, b))
      ∙ rel_cleaned-dot
      ∙ sym ((bytes_beq_iff (body q) []).0 b)
  | inr b ↦ ap rel_cleaned (rw (clean-relative q h z, b)) ∙ rel_cleaned-id (body q) k ne
]

rel_trimmed-eq-body :
    (q : Bytes)
    → head_is slash q ≡ false
    → head_is slash (body q) ≡ false
    → body q ≢ dot
    → rel_trimmed q ≡ body q
unfolding rel_trimmed
rel_trimmed-eq-body q h k ne = elim (Bool-cases (q == [])) [
  | inl z ↦ rw ((bytes_beq_iff q []).0 z) rel_trimmed-special.0
  | inr z ↦ elim (Bool-cases (q == dot)) [
    | inl d ↦ rw ((bytes_beq_iff q dot).0 d) rel_trimmed-special.1
    | inr d ↦ rw (z, d) (rel_cleaned-eq-body q h k ne z)
  ]
]

-- The trimming and the special cases of `rel` come to the elements, joined.
pub rel-eq-join : (p : Bytes) → rel p ≡ join (reverse (elements p))
unfolding rel
rel-eq-join p =
    let q : Bytes = trim (to_slash p) in
    let same : body q ≡ join (reverse (elements p)) =
      ap (λ l. join (reverse l)) (run-trim false [] (to_slash p)) in
    let proper : All IsProper (reverse (elements p)) =
      IsProper-reverse (elements p) (elements-IsStack p) in
    rel_trimmed-eq-body q (trim-head (to_slash p)) (rw same (join-head _ proper))
      (λ e. join-ne-dot _ proper (sym same ∙ e))
    ∙ same

-- A path that `Rel` gives: elements joined by slashes, none empty, none `.`, none with a separator
-- in it, and `..` at the front only. The elements are listed last first.
abbrev pub IsCanonical : Bytes → Type 0
IsCanonical p = (out : List Bytes) × IsStack out × (p ≡ join (reverse out))

pub rel-IsCanonical : (p : Bytes) → IsCanonical (rel p)
rel-IsCanonical p = (elements p, elements-IsStack p, rel-eq-join p)

join-NoBackslash : (segs : List Bytes) → All IsPlain segs → NoBackslash (join segs)
unfolding join
join-NoBackslash [] h = tt
join-NoBackslash (s ∷ []) h = All-map s (λ c k. k.1) h.0
join-NoBackslash (s ∷ t ∷ segs) h =
    All-append (λ c. c ≢ backslash) s (slash ∷ join (t ∷ segs)) (All-map s (λ c k. k.1) h.0)
      ((λ e. ground arith), join-NoBackslash (t ∷ segs) h.1)

pub run-split-join :
    (segs : List Bytes) → All IsPlain segs → run false [] (split (join segs)) ≡ run false [] segs
run-split-join [] h = unfold join split clean_step bytes_beq in refl
run-split-join (s ∷ segs) h = ap (run false []) (split-join s segs h)

pub elements-join : (out : List Bytes) → IsStack out → elements (join (reverse out)) ≡ out
elements-join out h =
    let plain : All IsPlain (reverse out) =
      All-map (reverse out) (λ s k. k.0) (IsProper-reverse out h) in
    rw (to_slash-id _ (join-NoBackslash (reverse out) plain))
      (run-split-join (reverse out) plain ∙ run-reverse out h)

-- What `Rel` gives is canonical, a canonical path is left as it is, and so normalising twice is
-- normalising once.
pub rel_lem :
    (p : Bytes) → IsCanonical (rel p) × (IsCanonical p → rel p ≡ p) × (rel (rel p) ≡ rel p)
rel_lem p = (rel-IsCanonical p, fixed p, fixed (rel p) (rel-IsCanonical p))
  where
    fixed : (q : Bytes) → IsCanonical q → rel q ≡ q
    fixed q (out, h, e) =
        rel-eq-join q ∙ ap (λ l. join (reverse l)) (ap elements e ∙ elements-join out h) ∙ sym e

pub rel-IsProper : (p : Bytes) → (segs : List Bytes) × (rel p ≡ join segs) × All IsProper segs
rel-IsProper p =
    (reverse (elements p), rel-eq-join p, IsProper-reverse (elements p) (elements-IsStack p))
