-- ===== src/Index/Replace.antt =====
-- Building the index from a whole tree, and from the snapshot file.
use mathlib.Core.List.{foldl}
use livegit.Prelude.{
  ℕ, Bool, true, false, ◌≡◌, refl, ◌∙◌, arith, List, [], ◌∷◌, ◌==◌, nat_eq, bytes_eq, if◌then◌else◌,
  lookup, has,
}
use livegit.Index.{
  Entry, TreeEntry, Entries, Index, kids, put_locked, replace_step, replace, fingerprint,
  save_snapshot, new_index,
}
use livegit.Index.Tree.{IsTree, IsLinked, present, put_locked-IsTree}

IsTree-empty : IsLinked [] []
unfolding present lookup kids has
IsTree-empty = record {
  named = λ k p. cc;
  rooted = λ k p. cc;
  listed = λ k p. cc;
  real = λ p k l. cc;
}

replace-loop :
    (old : Entries) (tree : List TreeEntry) (ix : Index)
    → IsTree ix
    → IsTree (foldl (replace_step old) ix tree)
replace-loop old [] ix t = t
replace-loop old (e ∷ tree) ix t =
    replace-loop old tree (replace_step old ix e) (unfold replace_step in put_locked-IsTree _ ix t)

pub save_snapshot-maps :
    (written : Bool) (ix : Index)
    → ((save_snapshot written ix).entries ≡ ix.entries)
      × ((save_snapshot written ix).children ≡ ix.children)
unfolding save_snapshot
save_snapshot-maps written ix = ground arith

marked :
    (b : Bool) (fp : ℕ) (ix : Index)
    → ((if b then ix else record ix { last_fp = fp; dirty = true }).entries ≡ ix.entries)
      × ((if b then ix else record ix { last_fp = fp; dirty = true }).children ≡ ix.children)
marked true fp ix = (refl, refl)
marked false fp ix = (refl, refl)

-- What the index holds after `Replace`: the entries of the tree, put one after another.
abbrev rebuilt : List TreeEntry → Index → Index
rebuilt tree ix = foldl (replace_step ix.entries) (record ix { entries = []; children = [] }) tree

replace-maps :
    (written : Bool) (tree : List TreeEntry) (ix : Index)
    → ((replace written tree ix).entries ≡ (rebuilt tree ix).entries)
      × ((replace written tree ix).children ≡ (rebuilt tree ix).children)
replace-maps written tree ix =
    let b : Bool = foldl fingerprint 14695981039346656037 tree == ix.last_fp in
    let (e, c) = marked b (foldl fingerprint 14695981039346656037 tree) (rebuilt tree ix) in
    unfold replace in ((save_snapshot-maps written _).0 ∙ e, (save_snapshot-maps written _).1 ∙ c)

-- Whatever tree Source sends, and whatever stands in the snapshot file, the index built from it is
-- a tree.
pub replace-IsTree :
    (written : Bool) (tree : List TreeEntry) (snapshot : List Entry) (ix : Index)
    → IsTree (replace written tree ix) × IsTree (new_index snapshot)
replace-IsTree written tree snapshot ix = (
  rw ((replace-maps written tree ix).0, (replace-maps written tree ix).1)
      (replace-loop ix.entries tree (record ix { entries = []; children = [] }) IsTree-empty),
  unfold new_index in load_loop snapshot _ IsTree-empty,
)
  where
    load_loop :
        (es : List Entry) (i : Index)
        → IsTree i
        → IsTree (foldl (λ x e. put_locked (record e { have_content = false }) x) i es)
    load_loop [] i t = t
    load_loop (e ∷ es) i t = load_loop es _ (put_locked-IsTree _ i t)
