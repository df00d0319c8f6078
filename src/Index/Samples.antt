-- ===== src/Index/Samples.antt =====
-- The index at a small tree.
use livegit.Prelude.{false, ◌≡◌, refl, [], Bytes, codes, bytes_beq, lookup, insert, delete, add}
use livegit.Paths.{rel, parent_rel, base}
use livegit.Index.{Entry, TreeEntry, Index, new_index, put, remove, len}
use livegit.Index.Tree.{IsTree}
use livegit.Index.Replace.{replace-IsTree}
use livegit.Index.Under.{Under}
use livegit.Index.Remove.{IsCut, remove-IsCut}
use livegit.Index.Calls.{loaded, next, puts, removes, Reach-IsTree}

abbrev file : Bytes → Entry
file p = record {
  rel = p;
  is_dir = false;
  size = 3;
  mod_time = 1;
  mode = 420;
  hash = codes "h";
  have_content = false;
}

abbrev empty : Index
empty = new_index []

abbrev deep : Index
deep = put (file (codes "./a/b/c")) empty

abbrev source_file : TreeEntry
source_file = record {
  rel = codes "a/x";
  is_dir = false;
  size = 9;
  mod_time = 5;
  mode = 420;
  hash = codes "k";
}

empty-IsTree : IsTree empty
empty-IsTree =
    (replace-IsTree false [] []
      (record { entries = []; children = []; dirty = false; last_fp = 0; snapshot = [] })).1

made : len deep ≡ 3
unfolding put new_index bytes_beq rel parent_rel base len lookup insert
made = refl

gone : len (remove (codes "a/b") deep) ≡ 1
unfolding put new_index bytes_beq rel parent_rel base len remove lookup insert delete add
gone = refl

Reach-IsTree_example : IsTree (remove (codes "a/b") deep)
Reach-IsTree_example =
    Reach-IsTree (next (next loaded (puts (file (codes "./a/b/c")))) (removes (codes "a/b")))

deep-IsTree : IsTree deep
deep-IsTree = Reach-IsTree (next loaded (puts (file (codes "./a/b/c"))))

remove-IsCut_example : IsCut (Under (rel (codes "a/b"))) deep (remove (codes "a/b") deep)
remove-IsCut_example = remove-IsCut (codes "a/b") deep deep-IsTree
