-- ===== src/Index/Calls.antt =====
-- Every sequence of calls on an index, internal/fuse/index.go.
use livegit.Prelude.{
  Bool, true, false, ◌≡◌, refl, sym, ap, ◌∙◌, inl, inr, arith, List, [], Bytes, ◌==◌, bytes_eq,
  bytes_beq_iff, Bool-cases, Option-cases, lookup, insert,
}
use livegit.Paths.{rel}
use livegit.Index.{
  Entry, TreeEntry, Index, put, remove, set_have_content, replace, save_snapshot, new_index,
}
use livegit.Index.Tree.{present, present-insert, IsLinked, IsTree, put-IsTree}
use livegit.Index.Replace.{replace-IsTree, save_snapshot-maps}
use livegit.Index.Remove.{remove-IsCut}

-- One call that changes the index; writing the snapshot may fail.
pub data Step (ix : Index) : Index → Type 0 where
  puts : (e : Entry) → Step ix (put e ix)
  removes : (p : Bytes) → Step ix (remove p ix)
  marks : (p : Bytes) (have : Bool) → Step ix (set_have_content p have ix)
  replaces : (written : Bool) (tree : List TreeEntry) → Step ix (replace written tree ix)
  saves : (written : Bool) → Step ix (save_snapshot written ix)

-- What calls make of the index that is loaded from a snapshot file.
pub data Reach (snapshot : List Entry) : Index → Type 0 where
  loaded : Reach snapshot (new_index snapshot)
  next : {ix ix' : Index} → Reach snapshot ix → Step ix ix' → Reach snapshot ix'

-- A new entry at a path that has one changes nothing of the tree.
insert-IsLinked :
    (k : Bytes) (e : Entry) (ix : Index)
    → present k ix.entries ≡ true
    → IsTree ix
    → IsLinked (insert k e ix.entries) ix.children
insert-IsLinked k e ix there t = record {
  named = λ j p. t.named j (old j p);
  rooted = λ j p. elim (t.rooted j (old j p)) [ inl top ↦ inl top | inr up ↦ inr (new _ up) ];
  listed = λ j p. t.listed j (old j p);
  real = λ p j l. ((t.real p j l).0, new j (t.real p j l).1);
}
  where
    old : (j : Bytes) → present j (insert k e ix.entries) ≡ true → present j ix.entries ≡ true
    old j p = elim (Bool-cases (k == j)) [
      | inl s ↦ ap (λ x. present x ix.entries) (sym ((bytes_beq_iff k j).0 s)) ∙ there
      | inr s ↦ ground (arith, present-insert k j e ix.entries)
    ]

    new : (j : Bytes) → present j ix.entries ≡ true → present j (insert k e ix.entries) ≡ true
    new j p = present-insert k j e ix.entries ∙ rw p (ground arith)

set_have_content-IsTree :
    (p : Bytes) (have : Bool) (ix : Index) → IsTree ix → IsTree (set_have_content p have ix)
unfolding set_have_content
set_have_content-IsTree p have ix t = elim (Option-cases (lookup (rel p) ix.entries)) [
  | inl n ↦ rw (n, set_have_content) t
  | inr (e, s) ↦
      rw (s, set_have_content)
        (insert-IsLinked (rel p) (record e { have_content = have }) ix
          (unfold present in rw (s, present) refl) t)
]

Step-IsTree : {ix ix' : Index} → Step ix ix' → IsTree ix → IsTree ix'
Step-IsTree {ix} (puts e) t = put-IsTree e ix t
Step-IsTree {ix} (removes p) t = (remove-IsCut p ix t).tree
Step-IsTree {ix} (marks p have) t = set_have_content-IsTree p have ix t
Step-IsTree {ix} (replaces written tree) t = (replace-IsTree written tree [] ix).0
Step-IsTree {ix} (saves written) t =
    rw ((save_snapshot-maps written ix).0, (save_snapshot-maps written ix).1) t

-- Whatever the snapshot file holds and whatever calls follow, every path of the index is canonical
-- and not the root, its parent is the root or in the index, it is listed under its parent, and only
-- such paths are listed.
pub Reach-IsTree : {snapshot : List Entry} {ix : Index} → Reach snapshot ix → IsTree ix
Reach-IsTree {snapshot} loaded = (replace-IsTree false [] snapshot (new_index snapshot)).1
Reach-IsTree (next r s) = Step-IsTree s (Reach-IsTree r)
