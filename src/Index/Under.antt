-- ===== src/Index/Under.antt =====
-- What lies under a path by way of parents, and what deleting changes in the maps of
-- internal/fuse/index.go.
use livegit.Prelude.{
  ◌≤◌, true, false, not, ◌&&◌, ◌≡◌, ◌≢◌, refl, ap, sym, ◌∙◌, inl, inr, ◌⊎◌, arith, none, some, List,
  [], Bytes, ◌==◌, bytes_eq, bytes_beq_iff, if◌then◌else◌, length, Bool-cases, has, has-discard,
  lookup, delete, lookup-delete, Option-cases,
}
use mathlib.Core.Path.{subst}
use livegit.Paths.{parent_rel}
use livegit.Paths.Canonical.{IsCanonical}
use livegit.Paths.Parent.{parent_rel_lem}
use livegit.Index.{Entries, Children, kids, unlink}
use livegit.Index.Tree.{present, kids-insert, IsLinked}

-- The path is `k`, or `k` is above it by way of parents.
pub data Under (k : Bytes) : Bytes → Type 0 where
  self : Under k k
  below : (j : Bytes) → IsCanonical j → j ≢ [] → Under k (parent_rel j) → Under k j

pub Under-length : {k j : Bytes} → Under k j → length k ≤ length j
Under-length self = omega arith
Under-length (below j c ne u) = omega (arith, Under-length u, (parent_rel_lem j c ne).1)

pub Under-parent :
    {c j : Bytes} (k : Bytes) → Under c j → IsCanonical c → c ≢ [] → parent_rel c ≡ k → Under k j
Under-parent {c} k self canonical ne up = below c canonical ne (subst (Under k) (sym up) self)
Under-parent k (below j d ne u) canonical some_path up =
    below j d ne (Under-parent k u canonical some_path up)

-- A path under another one is that path, or under a child of it.
pub Under-child :
    {k j : Bytes} → Under k j → (j ≡ k) ⊎ ((c : Bytes) × (parent_rel c ≡ k) × (c ≢ []) × Under c j)
Under-child self = inl refl
Under-child (below j d ne u) = elim (Under-child u) [
  | inl same ↦ inr (j, same, ne, self)
  | inr (c, up, some_path, v) ↦ inr (c, up, some_path, below j d ne v)
]

pub Under-root : {c : Bytes} (j : Bytes) → Under c j → j ≡ [] → c ≡ []
Under-root j self empty = empty
Under-root j (below i d ne u) empty = absurd (ne empty)

-- What is above an entry is an entry.
pub Under-present :
    {c j : Bytes} (entries : Entries) (children : Children)
    → IsLinked entries children
    → Under c j
    → c ≢ []
    → present j entries ≡ true
    → present c entries ≡ true
Under-present entries children t self ne there = there
Under-present entries children t (below j d some_path u) ne there = elim (t.rooted j there) [
  | inl top ↦ absurd (ne (Under-root (parent_rel j) u top))
  | inr up ↦ Under-present entries children t u ne up
]

pub present-delete :
    (k j : Bytes) (m : Entries) → present j (delete k m) ≡ (if k == j then false else present j m)
unfolding present
present-delete k j m = rw (lookup-delete, present) (ground arith)

pub kids-delete :
    (k q : Bytes) (ch : Children) → kids q (delete k ch) ≡ (if k == q then [] else kids q ch)
unfolding kids
kids-delete k q ch = rw (lookup-delete, kids) (ground arith)

kids-absent : (p : Bytes) (ch : Children) → lookup p ch ≡ none → kids p ch ≡ []
unfolding kids
kids-absent p ch n = rw (n, kids) refl

kids-found : (p : Bytes) (s : List Bytes) (ch : Children) → lookup p ch ≡ some s → kids p ch ≡ s
unfolding kids
kids-found p s ch h = rw (h, kids) refl

pub kids-unlink :
    (p k q j : Bytes) (ch : Children)
    → has j (kids q (unlink p k ch)) ≡ (not (p == q && k == j) && has j (kids q ch))
unfolding unlink
kids-unlink p k q j ch = elim (Option-cases (lookup p ch)) [
  | inl n ↦
      rw (n, unlink)
        (elim (Bool-cases (p == q)) [
          | inl e ↦
              let empty : kids q ch ≡ [] =
                ap (λ x. kids x ch) (sym ((bytes_beq_iff p q).0 e)) ∙ kids-absent p ch n in
              rw empty (unfold has in ground arith)
          | inr e ↦ rw e refl
        ])
  | inr (s, h) ↦
      rw (h, unlink)
        (elim (Bool-cases (p == q)) [
          | inl e ↦
              let set : kids q ch ≡ s =
                ap (λ x. kids x ch) (sym ((bytes_beq_iff p q).0 e)) ∙ kids-found p s ch h in
              rw (kids-insert, e, set) (has-discard k j s)
          | inr e ↦ rw (kids-insert, e) refl
        ])
]
