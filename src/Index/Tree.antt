-- ===== src/Index/Tree.antt =====
-- The index is a tree: every entry is a child of its parent, and every parent is an entry.
use livegit.Prelude.{
  bytes_beq_ne, bytes_beq_refl, ℕ, zero, suc, ◌≤◌, Bool, true, false, ◌&&◌, ◌||◌, ◌≡◌, ◌≢◌, ap, sym,
  ◌∙◌, inl, inr, ◌⊎◌, arith, none, some, List, [], ◌∷◌, Bytes, ◌==◌, bytes_eq, bytes_beq_iff,
  if◌then◌else◌, length, Bool-cases, has, has-add, lookup, insert, lookup-insert, Option-cases,
}
use livegit.Paths.{rel, parent_rel}
use livegit.Paths.Canonical.{IsCanonical, rel_lem}
use livegit.Paths.Parent.{parent_rel_lem}
use livegit.Index.{
  Entry, Entries, Children, Index, kids, link, ancestor, add_missing, ensure_ancestors,
  known_content, put_at, put_locked, put, get,
}

-- A path has an entry.
unfoldable pub present : Bytes → Entries → Bool
present k entries = elim (lookup k entries) [ none ↦ false | some _ ↦ true ]

pub present-insert :
    (k j : Bytes) (e : Entry) (m : Entries) → present j (insert k e m) ≡ (k == j || present j m)
unfolding present
present-insert k j e m = rw (lookup-insert, present) (ground arith)

pub present-add_missing :
    (p j : Bytes) (m : Entries) → present j (add_missing p m) ≡ (p == j || present j m)
unfolding add_missing
present-add_missing p j m = elim (Option-cases (lookup p m)) [
  | inl n ↦ rw (n, add_missing) (present-insert p j (ancestor p) m)
  | inr (e, s) ↦ rw (s, add_missing) (ground (arith, bytes_beq_iff p j, here s))
]
  where
    here : {e : Entry} → lookup p m ≡ some e → p ≡ j → present j m ≡ true
    here s q = rw (← q) (unfold present in rw (s, present))

pub kids-insert :
    (p q : Bytes) (s : List Bytes) (ch : Children)
    → kids q (insert p s ch) ≡ (if p == q then s else kids q ch)
unfolding kids
kids-insert p q s ch = rw (lookup-insert, kids) (ground arith)

pub kids-link :
    (p k q j : Bytes) (ch : Children)
    → has j (kids q (link p k ch)) ≡ ((p == q && k == j) || has j (kids q ch))
unfolding link
kids-link p k q j ch = rw kids-insert (elim (Bool-cases (p == q)) [
  | inl e ↦ rw e (has-add k j (kids p ch) ∙ rw ((bytes_beq_iff p q).0 e))
  | inr e ↦ rw e
])

-- What holds on the way: `q` may be a parent that has no entry yet, and `new` may be listed nowhere.
record IsOpen (q new : Bytes) (entries : Entries) (children : Children) : Type 0 where
  named : (k : Bytes) → present k entries ≡ true → IsCanonical k × (k ≢ [])
  rooted :
      (k : Bytes)
      → present k entries ≡ true
      → (parent_rel k ≡ []) ⊎ (present (parent_rel k) entries ≡ true) ⊎ (parent_rel k ≡ q)
  listed :
      (k : Bytes)
      → present k entries ≡ true
      → (has k (kids (parent_rel k) children) ≡ true) ⊎ (k ≡ new)
  real :
      (p k : Bytes)
      → has k (kids p children) ≡ true
      → (parent_rel k ≡ p) × (present k entries ≡ true)

-- Every path of the index is canonical and not the root, its parent is the root or in the index,
-- it is listed under its parent, and only such paths are listed.
pub record IsLinked (entries : Entries) (children : Children) : Type 0 where
  pub named : (k : Bytes) → present k entries ≡ true → IsCanonical k × (k ≢ [])
  pub rooted :
      (k : Bytes)
      → present k entries ≡ true
      → (parent_rel k ≡ []) ⊎ (present (parent_rel k) entries ≡ true)
  pub listed : (k : Bytes) → present k entries ≡ true → has k (kids (parent_rel k) children) ≡ true
  pub real :
      (p k : Bytes)
      → has k (kids p children) ≡ true
      → (parent_rel k ≡ p) × (present k entries ≡ true)

abbrev pub IsTree : Index → Type 0
IsTree ix = IsLinked ix.entries ix.children

and_left : (a b : Bool) → (a && b) ≡ true → a ≡ true
and_left a b h = ground arith

and_right : (a b : Bool) → (a && b) ≡ true → b ≡ true
and_right a b h = ground arith

module _ {q new : Bytes} {entries : Entries} {children : Children} where
  -- One round of `ensure_ancestors`.
  step-IsOpen :
      IsCanonical q
      → q ≢ []
      → IsOpen q new entries children
      → IsOpen (parent_rel q) new (add_missing q entries) (link (parent_rel q) q children)
  step-IsOpen c ne h = record {
    named = λ k p. elim (Bool-cases (q == k)) [
      | inl e ↦ let same : q ≡ k = (bytes_beq_iff q k).0 e in rw (← same) (c, ne)
      | inr e ↦ h.named k (old k e p)
    ];
    rooted = λ k p. elim (Bool-cases (q == k)) [
      | inl e ↦ inr (inr (ap parent_rel (sym ((bytes_beq_iff q k).0 e))))
      | inr e ↦ elim (h.rooted k (old k e p)) [
        | inl r ↦ inl r
        | inr (inl r) ↦ inr (inl (kept (parent_rel k) r))
        | inr (inr r) ↦ inr (inl (rw (r, present-add_missing, bytes_beq_refl q)))
      ]
    ];
    listed = λ k p. elim (Bool-cases (q == k)) [
      | inl e ↦
          let same : q ≡ k = (bytes_beq_iff q k).0 e in
          inl (rw (← same, kids-link, bytes_beq_refl q, bytes_beq_refl (parent_rel q)))
      | inr e ↦ elim (h.listed k (old k e p)) [
        | inl l ↦ inl (rw (kids-link, l) (ground arith))
        | inr n ↦ inr n
      ]
    ];
    real = λ p k l. elim (Bool-cases (parent_rel q == p && q == k)) [
      | inl e ↦
          let up : (parent_rel q == p) ≡ true = and_left (parent_rel q == p) (q == k) e in
          let same : (q == k) ≡ true = and_right (parent_rel q == p) (q == k) e in
          (
            ap parent_rel (sym ((bytes_beq_iff q k).0 same))
                ∙ (bytes_beq_iff (parent_rel q) p).0 up,
            ground (arith, present-add_missing q k entries),
          )
      | inr e ↦
          let (up, there) = h.real p k (ground (arith, kids-link (parent_rel q) q p k children)) in
          (up, kept k there)
    ];
  }
    where
      old :
          (k : Bytes)
          → (q == k) ≡ false
          → present k (add_missing q entries) ≡ true
          → present k entries ≡ true
      old k e p = ground (arith, present-add_missing q k entries)

      kept : (k : Bytes) → present k entries ≡ true → present k (add_missing q entries) ≡ true
      kept k p = ground (arith, present-add_missing q k entries)

ensure_ancestors-IsOpen :
    (fuel : ℕ) (q : Bytes) (new : Bytes) (ix : Index)
    → IsCanonical q
    → length q ≤ fuel
    → IsOpen q new ix.entries ix.children
    → let ix' = ensure_ancestors fuel q ix in IsOpen [] new ix'.entries ix'.children
unfolding ensure_ancestors
ensure_ancestors-IsOpen zero [] new ix c le h = h
ensure_ancestors-IsOpen zero (x ∷ q) new ix c le h = absurd (omega arith)
ensure_ancestors-IsOpen (suc fuel) q new ix c le h = elim (Bool-cases (q == [])) [
  | inl e ↦ rw e (rw (← (bytes_beq_iff q []).0 e) h)
  | inr e ↦
      let ne : q ≢ [] = λ z. ground (arith, bytes_beq_iff q []) in
      let (up, shorter) = parent_rel_lem q c ne in
      rw e (ensure_ancestors-IsOpen fuel (parent_rel q) new _ up (omega arith) (step-IsOpen c ne h))
]

lookup-add_missing :
    (p j : Bytes) (x : Entry) (m : Entries)
    → lookup j m ≡ some x
    → lookup j (add_missing p m) ≡ some x
unfolding add_missing
lookup-add_missing p j x m h = elim (Option-cases (lookup p m)) [
  | inl n ↦
      rw (n, add_missing) (lookup-insert p j (ancestor p) m ∙ rw (bytes_beq_ne p j (other n)) h)
  | inr (e, s) ↦ rw (s, add_missing) h
]
  where
    other : lookup p m ≡ none → p ≢ j
    other n s = cc (n, h, s)

-- What is present stays present.
pub present-ensure_ancestors :
    (fuel : ℕ) (q j : Bytes) (ix : Index)
    → present j ix.entries ≡ true
    → present j (ensure_ancestors fuel q ix).entries ≡ true
unfolding ensure_ancestors
present-ensure_ancestors zero q j ix h = h
present-ensure_ancestors (suc fuel) q j ix h = elim (Bool-cases (q == [])) [
  | inl e ↦ rw e h
  | inr e ↦ rw e (
      present-ensure_ancestors fuel (parent_rel q) j _
        (unfold add_missing in rw (present-add_missing q j ix.entries, h) (ground arith)))
]

-- The start of `put_at`: the new entry is there, and listed nowhere.
insert-IsOpen :
    (k : Bytes) (e : Entry) (ix : Index)
    → IsCanonical k
    → k ≢ []
    → IsTree ix
    → IsOpen (parent_rel k) k (insert k e ix.entries) ix.children
insert-IsOpen k e ix c ne t = record {
  named = λ j p. elim (Bool-cases (k == j)) [
    | inl s ↦ let same : k ≡ j = (bytes_beq_iff k j).0 s in rw (← same) (c, ne)
    | inr s ↦ t.named j (old j s p)
  ];
  rooted = λ j p. elim (Bool-cases (k == j)) [
    | inl s ↦ inr (inr (ap parent_rel (sym ((bytes_beq_iff k j).0 s))))
    | inr s ↦ elim (t.rooted j (old j s p)) [
      | inl r ↦ inl r
      | inr r ↦ inr (inl (kept (parent_rel j) r))
    ]
  ];
  listed = λ j p. elim (Bool-cases (k == j)) [
    | inl s ↦ inr (sym ((bytes_beq_iff k j).0 s))
    | inr s ↦ inl (t.listed j (old j s p))
  ];
  real = λ p j l. ((t.real p j l).0, kept j (t.real p j l).1);
}
  where
    old :
        (j : Bytes)
        → (k == j) ≡ false
        → present j (insert k e ix.entries) ≡ true
        → present j ix.entries ≡ true
    old j s p = ground (arith, present-insert k j e ix.entries)

    kept : (j : Bytes) → present j ix.entries ≡ true → present j (insert k e ix.entries) ≡ true
    kept j p = ground (arith, present-insert k j e ix.entries)

-- The end of `put_at`: with the new entry listed, nothing is missing.
link-IsTree :
    (k : Bytes) (ix : Index)
    → present k ix.entries ≡ true
    → IsOpen [] k ix.entries ix.children
    → IsTree (record ix { children = link (parent_rel k) k ix.children })
link-IsTree k ix there h = record {
  named = h.named;
  rooted = λ j p. elim (h.rooted j p) [ inl r ↦ inl r | inr (inl r) ↦ inr r | inr (inr r) ↦ inl r ];
  listed = λ j p. elim (h.listed j p) [
    | inl l ↦ rw (kids-link, l) (ground arith)
    | inr n ↦ rw (n, kids-link, bytes_beq_refl (parent_rel k), bytes_beq_refl k)
  ];
  real = λ p j l. elim (Bool-cases (parent_rel k == p && k == j)) [
    | inl e ↦
        let up : (parent_rel k == p) ≡ true = and_left (parent_rel k == p) (k == j) e in
        let same : k ≡ j = (bytes_beq_iff k j).0 (and_right (parent_rel k == p) (k == j) e) in
        (ap parent_rel (sym same) ∙ (bytes_beq_iff (parent_rel k) p).0 up, rw (← same) there)
    | inr e ↦ h.real p j (ground (arith, kids-link (parent_rel k) k p j ix.children))
  ];
}

put_at-IsTree :
    (k : Bytes) (e : Entry) (ix : Index)
    → IsCanonical k
    → k ≢ []
    → IsTree ix
    → IsTree (put_at k e ix)
unfolding put_at
put_at-IsTree k e ix c ne t =
    let (up, shorter) = parent_rel_lem k c ne in
    let e' : Entry = record e {
      rel = k;
      have_content = e.have_content || known_content k ix.entries;
    } in
    let start : Index = record ix { entries = insert k e' ix.entries } in
    link-IsTree k (ensure_ancestors (length k) (parent_rel k) start)
      (present-ensure_ancestors (length k) (parent_rel k) k start
        (present-insert k k e' ix.entries ∙ rw (bytes_beq_refl k)))
      (ensure_ancestors-IsOpen (length k) (parent_rel k) k start up (omega arith)
        (insert-IsOpen k e' ix c ne t))

pub put_locked-IsTree : (e : Entry) (ix : Index) → IsTree ix → IsTree (put_locked e ix)
unfolding put_locked
put_locked-IsTree e ix t = elim (Bool-cases (rel e.rel == [])) [
  | inl z ↦ rw z t
  | inr z ↦ rw z (
      put_at-IsTree (rel e.rel) e ix (rel_lem e.rel).0
        (λ q. ground (arith, bytes_beq_iff (rel e.rel) [])) t)
]

-- `Put` keeps the index a tree, whatever entry it is given: the missing ancestors are made, up to
-- the root, and listed.
pub put-IsTree : (e : Entry) (ix : Index) → IsTree ix → IsTree (put e ix)
put-IsTree e ix t = unfold put in put_locked-IsTree e ix t

lookup-ensure_ancestors :
    (fuel : ℕ) (q j : Bytes) (x : Entry) (ix : Index)
    → lookup j ix.entries ≡ some x
    → lookup j (ensure_ancestors fuel q ix).entries ≡ some x
unfolding ensure_ancestors
lookup-ensure_ancestors zero q j x ix h = h
lookup-ensure_ancestors (suc fuel) q j x ix h = elim (Bool-cases (q == [])) [
  | inl e ↦ rw e h
  | inr e ↦
      rw e
        (lookup-ensure_ancestors fuel (parent_rel q) j x _ (lookup-add_missing q j x ix.entries h))
]

-- After `Put` of an entry, `Get` of its path gives it, with the content flag kept where it was set
-- before, and every other path that had an entry has the same one.
pub get-put :
    (e : Entry) (ix : Index)
    → rel e.rel ≢ []
    → (get e.rel (put e ix)
        ≡ some (record e {
          rel = rel e.rel;
          have_content = e.have_content || known_content (rel e.rel) ix.entries;
        }))
      × ((j : Bytes) (x : Entry)
          → rel j ≢ rel e.rel
          → get j ix ≡ some x
          → get j (put e ix) ≡ some x)
unfolding get put put_locked put_at
get-put e ix ne =
    let k : Bytes = rel e.rel in
    let e' : Entry = record e {
      rel = k;
      have_content = e.have_content || known_content k ix.entries;
    } in
    rw (bytes_beq_ne k [] ne) (
      lookup-ensure_ancestors (length k) (parent_rel k) k e' _
          (lookup-insert k k e' ix.entries ∙ rw (bytes_beq_refl k)),
      λ j x other h. lookup-ensure_ancestors (length k) (parent_rel k) (rel j) x _ (
          lookup-insert k (rel j) e' ix.entries
          ∙ rw (bytes_beq_ne k (rel j) (λ s. other (sym s))) h),
    )
