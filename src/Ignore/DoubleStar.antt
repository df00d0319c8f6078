-- ===== src/Ignore/DoubleStar.antt =====
-- What `doubleStarMatch` of internal/config/ignore.go finds, against the patterns' meaning.
use livegit.Prelude.{
  Bool, true, false, List, [], ◌∷◌, ◌++◌, Bytes, ◌==◌, bytes_eq, bytes_beq_iff, bytes_beq, ◌≡◌,
  refl, sym, ◌↔◌, inl, inr, Bool-cases, arith,
}
use livegit.Ignore.{double_star, double_star_match}

module _ (path_match : Bytes → Bytes → Bool) where
  -- Each segment of the pattern takes one of the path's, and `**` takes as many as it likes.
  pub data Spans : List Bytes → List Bytes → Type 0 where
    spans_end : Spans [] []
    spans_many :
        (taken : List Bytes) {pat name : List Bytes}
        → Spans pat name
        → Spans (double_star ∷ pat) (taken ++ name)
    spans_one :
        {p n : Bytes} {pat name : List Bytes}
        → p == double_star ≡ false
        → path_match p n ≡ true
        → Spans pat name
        → Spans (p ∷ pat) (n ∷ name)

  match-many :
      (taken pat name : List Bytes)
      → double_star_match path_match pat name ≡ true
      → double_star_match path_match (double_star ∷ pat) (taken ++ name) ≡ true
  unfolding double_star_match bytes_beq
  match-many [] pat [] h = h
  match-many [] pat (n ∷ name) h = rw h
  match-many (t ∷ taken) pat name h = ground (arith, match-many taken pat name h)

  one_more :
      (n : Bytes) {pat name : List Bytes}
      → Spans (double_star ∷ pat) name
      → Spans (double_star ∷ pat) (n ∷ name)
  unfolding bytes_beq
  one_more n (spans_many taken s) = spans_many (n ∷ taken) s
  one_more n (spans_one e m s) = ground (arith, e)

  pub match→Spans :
      (pat name : List Bytes) → double_star_match path_match pat name ≡ true → Spans pat name
  unfolding double_star_match
  match→Spans [] [] h = spans_end
  match→Spans [] (n ∷ name) h = ground (arith, h)
  match→Spans (p ∷ pat) [] h = elim (Bool-cases (p == double_star)) [
    | inl e ↦
        let rest : double_star_match path_match pat [] ≡ true = ground (arith, h, e) in
        rw ((bytes_beq_iff p double_star).0 e) (spans_many [] (match→Spans pat [] rest))
    | inr e ↦ ground (arith, h, e)
  ]
  match→Spans (p ∷ pat) (n ∷ name) h = elim (Bool-cases (p == double_star)) [
    | inl e ↦
        rw ((bytes_beq_iff p double_star).0 e)
          (elim (Bool-cases (double_star_match path_match pat (n ∷ name))) [
            | inl z ↦ spans_many [] (match→Spans pat (n ∷ name) z)
            | inr z ↦
                let one_segment : double_star_match path_match (p ∷ pat) name ≡ true =
                  ground (arith, h, e, z) in
                one_more n (
                  match→Spans (double_star ∷ pat) name
                    (rw (sym ((bytes_beq_iff p double_star).0 e)) one_segment))
          ])
    | inr e ↦
        let parts : (path_match p n ≡ true) × (double_star_match path_match pat name ≡ true) =
          ground (arith, h, e) in
        spans_one e parts.0 (match→Spans pat name parts.1)
  ]

  pub Spans→match :
      (pat name : List Bytes) → Spans pat name → double_star_match path_match pat name ≡ true
  unfolding double_star_match
  Spans→match _ _ spans_end = refl
  Spans→match _ _ (spans_many taken {pat} {name} s) =
      match-many taken pat name (Spans→match pat name s)
  Spans→match _ _ (spans_one {p} {n} {pat} {name} e m s) = rw (e, m) (Spans→match pat name s)

  -- Segments of a pattern match segments of a path exactly when the path falls into parts, one for
  -- each segment of the pattern: for `**` any number of segments, else one that matches it alone.
  pub double_star_match_iff :
      (pat name : List Bytes) → (double_star_match path_match pat name ≡ true) ↔ Spans pat name
  double_star_match_iff pat name = (match→Spans pat name, Spans→match pat name)
