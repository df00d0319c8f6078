-- ===== src/Index/Remove.antt =====
-- Removing a path with what lies below it, `Remove` of internal/fuse/index.go.
use mathlib.Core.List.{foldl}
use livegit.Prelude.{
  bytes_beq_refl, ℕ, zero, suc, ◌+◌, ◌<◌, Bool, true, false, not, ◌&&◌, ◌≡◌, ◌≢◌, refl, ap, sym,
  ◌∙◌, inl, inr, ◌⊎◌, arith, List, [], ◌∷◌, Bytes, ◌==◌, bytes_eq, bytes_beq_iff, length,
  Bool-cases, has, lookup, delete, lookup-delete,
}
use mathlib.Core.Path.{subst}
use livegit.Paths.{rel, parent_rel}
use livegit.Paths.Canonical.{IsCanonical, rel_lem}
use livegit.Paths.Parent.{parent_rel_lem}
use livegit.Index.{Entries, Index, kids, unlink, remove_locked, levels, remove}
use livegit.Index.Tree.{present, IsTree}
use livegit.Index.Under.{
  Under, self, Under-length, Under-parent, Under-child, Under-present, present-delete, kids-delete,
  kids-unlink,
}

-- What a removal does to an index: it stays a tree, and loses exactly the paths of `U`.
pub record IsCut (U : Bytes → Type 0) (ix ix' : Index) : Type 0 where
  pub tree : IsTree ix'
  pub kept : (j : Bytes) → (U j → ⊥) → lookup j ix'.entries ≡ lookup j ix.entries
  pub gone : (j : Bytes) → U j → present j ix'.entries ≡ false
  pub fewer : (j : Bytes) → present j ix'.entries ≡ true → present j ix.entries ≡ true

-- The path is under one of these.
abbrev UnderAny : List Bytes → Bytes → Type 0
UnderAny [] j = ⊥
UnderAny (c ∷ cs) j = Under c j ⊎ UnderAny cs j

UnderAny-has : (cs : List Bytes) (c j : Bytes) → has c cs ≡ true → Under c j → UnderAny cs j
unfolding has
UnderAny-has [] c j h u = absurd (ground arith)
UnderAny-has (d ∷ cs) c j h u = elim (Bool-cases (d == c)) [
  | inl e ↦ inl (subst (λ x. Under x j) (sym ((bytes_beq_iff d c).0 e)) u)
  | inr e ↦ inr (UnderAny-has cs c j (ground arith) u)
]

-- Every entry is shorter than this many bytes below `k`.
abbrev IsShort : ℕ → Bytes → Entries → Type 0
IsShort n k entries = (j : Bytes) → present j entries ≡ true → length j < length k + n

absent : (b c : Bool) → (b ≡ true → c ≡ true) → c ≡ false → b ≡ false
absent true c h e = sym (h refl) ∙ e
absent false c h e = refl

module _ (n : ℕ)
    (cut : (c : Bytes) (ix : Index)
      → IsTree ix
      → IsCanonical c
      → IsShort n c ix.entries
      → IsCut (Under c) ix (remove_locked n c ix)) where
  each-IsCut :
      (cs : List Bytes) (ix : Index)
      → IsTree ix
      → ((c : Bytes) → has c cs ≡ true → IsCanonical c × IsShort n c ix.entries)
      → IsCut (UnderAny cs) ix (foldl (λ i c. remove_locked n c i) ix cs)
  unfolding has
  each-IsCut [] ix t h = record {
    tree = t;
    kept = λ j no. refl;
    gone = λ j u. absurd u;
    fewer = λ j p. p;
  }
  each-IsCut (c ∷ cs) ix t h =
      let (canonical, short) = h c (rw (bytes_beq_refl c) refl) in
      let first = cut c ix t canonical short in
      let rest = each-IsCut cs (remove_locked n c ix) first.tree (λ d l.
        let (canonical', short') = h d (rw l (ground arith)) in
        (canonical', λ j p. short' j (first.fewer j p))) in
      record {
        tree = rest.tree;
        kept = λ j no. rest.kept j (λ u. no (inr u)) ∙ first.kept j (λ u. no (inl u));
        gone = λ j u. elim u [
          | inl v ↦ absent _ _ (rest.fewer j) (first.gone j v)
          | inr v ↦ rest.gone j v
        ];
        fewer = λ j p. first.fewer j (rest.fewer j p);
      }

module _ (k : Bytes) (ix mid : Index) (t : IsTree ix)
    (cut : IsCut (UnderAny (kids k ix.children)) ix mid) where
  -- No child of the path is left.
  childless : (j : Bytes) → present j mid.entries ≡ true → parent_rel j ≡ k → ⊥
  childless j there up =
      let child : has j (kids k ix.children) ≡ true =
        ap (λ p. has j (kids p ix.children)) (sym up) ∙ t.listed j (cut.fewer j there) in
      let lost = cut.gone j (UnderAny-has (kids k ix.children) j j child self) in cc (there, lost)

  abbrev cut_off : Index
  cut_off = record mid {
    entries = delete k mid.entries;
    children = unlink (parent_rel k) k (delete k mid.children);
  }

  stays :
      (j : Bytes)
      → present j mid.entries ≡ true
      → (k == j) ≡ false
      → present j (delete k mid.entries) ≡ true
  stays j there other = present-delete k j mid.entries ∙ rw (other, there) refl

  left :
      (j : Bytes)
      → present j (delete k mid.entries) ≡ true
      → (present j mid.entries ≡ true) × ((k == j) ≡ false)
  left j p = ground (arith, present-delete k j mid.entries)

  elsewhere : (j : Bytes) → present j mid.entries ≡ true → (k == parent_rel j) ≡ false
  elsewhere j there = elim (Bool-cases (k == parent_rel j)) [
    | inl e ↦ absurd (childless j there (sym ((bytes_beq_iff k (parent_rel j)).0 e)))
    | inr e ↦ e
  ]

  kids-cut_off :
      (p j : Bytes)
      → has j (kids p (unlink (parent_rel k) k (delete k mid.children)))
        ≡ (not (parent_rel k == p && k == j) && (not (k == p) && has j (kids p mid.children)))
  unfolding has
  kids-cut_off p j =
      kids-unlink (parent_rel k) k p j (delete k mid.children)
      ∙ rw (kids-delete k p mid.children)
          (elim (Bool-cases (k == p)) [ inl e ↦ rw e (ground arith) | inr e ↦ rw e refl ])

  cut_off-IsTree : IsTree cut_off
  cut_off-IsTree = record {
    named = λ j p. cut.tree.named j (left j p).0;
    rooted = λ j p. elim (cut.tree.rooted j (left j p).0) [
      | inl top ↦ inl top
      | inr up ↦ inr (stays (parent_rel j) up (elsewhere j (left j p).0))
    ];
    listed = λ j p.
        rw (kids-cut_off, (left j p).1, elsewhere j (left j p).0, cut.tree.listed j (left j p).0)
          (ground arith);
    real = λ p j l.
        let (up, there) = cut.tree.real p j (ground (arith, kids-cut_off p j)) in
        (
          up,
          stays j there (elim (Bool-cases (k == j)) [
            | inl e ↦
                let at : (parent_rel k == p) ≡ true =
                  (bytes_beq_iff (parent_rel k) p).1
                    (ap parent_rel ((bytes_beq_iff k j).0 e) ∙ up) in
                absurd (ground (arith, kids-cut_off p j))
            | inr e ↦ e
          ]),
        );
  }

  cut_off-IsCut : IsCut (Under k) ix cut_off
  unfolding has
  cut_off-IsCut = record {
    tree = cut_off-IsTree;
    kept = λ j no.
        let other : (k == j) ≡ false = elim (Bool-cases (k == j)) [
          | inl e ↦ absurd (no (subst (Under k) ((bytes_beq_iff k j).0 e) self))
          | inr e ↦ e
        ] in
        (lookup-delete k j mid.entries ∙ rw other refl)
        ∙ cut.kept j (λ u. no (Under-any (kids k ix.children) j (λ c l. (t.real k c l)) u));
    gone = λ j u. elim (Under-child u) [
      | inl same ↦ present-delete k j mid.entries ∙ rw (same, bytes_beq_refl k) refl
      | inr (c, up, ne, v) ↦ absent _ _ (λ p. (left j p).0) (lost j c up ne v)
    ];
    fewer = λ j p. cut.fewer j (left j p).0;
  }
    where
      Under-any :
          (cs : List Bytes) (j : Bytes)
          → ((c : Bytes) → has c cs ≡ true → (parent_rel c ≡ k) × (present c ix.entries ≡ true))
          → UnderAny cs j
          → Under k j
      Under-any [] j h u = absurd u
      Under-any (c ∷ cs) j h (inl u) =
          let (up, there) = h c (rw (bytes_beq_refl c) refl) in
          Under-parent k u (t.named c there).0 (t.named c there).1 up
      Under-any (c ∷ cs) j h (inr u) = Under-any cs j (λ d l. h d (rw l (ground arith))) u

      lost : (j c : Bytes) → parent_rel c ≡ k → c ≢ [] → Under c j → present j mid.entries ≡ false
      lost j c up ne v = elim (Bool-cases (present j ix.entries)) [
        | inl there ↦
            let above = Under-present ix.entries ix.children t v ne there in
            let child : has c (kids k ix.children) ≡ true =
              ap (λ p. has c (kids p ix.children)) (sym up) ∙ t.listed c above in
            cut.gone j (UnderAny-has (kids k ix.children) c j child v)
        | inr away ↦ absent _ _ (cut.fewer j) away
      ]

remove_locked-IsCut :
    (n : ℕ) (k : Bytes) (ix : Index)
    → IsTree ix
    → IsCanonical k
    → IsShort n k ix.entries
    → IsCut (Under k) ix (remove_locked n k ix)
unfolding remove_locked
remove_locked-IsCut zero k ix t canonical short = record {
  tree = t;
  kept = λ j no. refl;
  gone = λ j u. elim (Bool-cases (present j ix.entries)) [
    | inl p ↦ let less = short j p in absurd (omega (arith, less, Under-length u))
    | inr e ↦ e
  ];
  fewer = λ j p. p;
}
remove_locked-IsCut (suc n) k ix t canonical short =
    cut_off-IsCut k ix (foldl (λ i c. remove_locked n c i) ix (kids k ix.children)) t (
      each-IsCut n (remove_locked-IsCut n) (kids k ix.children) ix t (λ c l.
        let (up, there) = t.real k c l in
        let (own, ne) = t.named c there in
        let longer : length k < length c = rw (← up) (parent_rel_lem c own ne).1 in
        (own, λ j p. let less = short j p in omega (arith, less, longer))))

short-levels :
    (entries : Entries) (j : Bytes) → present j entries ≡ true → length j < levels entries
unfolding levels present lookup
short-levels [] j p = absurd (ground arith)
short-levels ((k, e) ∷ entries) j p = elim (Bool-cases (k == j)) [
  | inl s ↦ rw (← (bytes_beq_iff k j).0 s) (omega (arith, positive entries))
  | inr s ↦ omega (arith, short-levels entries j (rw (s, present) at p))
]
  where
    positive : (m : Entries) → 0 < levels m
    positive [] = omega arith
    positive ((k, e) ∷ m) = omega (arith, positive m)

-- Removing a path from an index that is a tree leaves a tree, without the path and whatever is under
-- it by way of parents, and with every other entry as it was.
pub remove-IsCut : (p : Bytes) (ix : Index) → IsTree ix → IsCut (Under (rel p)) ix (remove p ix)
unfolding remove
remove-IsCut p ix t =
    let c =
      remove_locked-IsCut (levels ix.entries) (rel p) ix t (rel_lem p).0
        (λ j q. let less = short-levels ix.entries j q in omega (arith, less)) in
    record { tree = c.tree; kept = c.kept; gone = c.gone; fewer = c.fewer }
