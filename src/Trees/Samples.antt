-- ===== src/Trees/Samples.antt =====
-- A tree of two files in pages of one.
use livegit.Prelude.{◌≡◌, ◌≢◌, refl, true, false, some, List, [], ◌∷◌, map, Bytes, codes}
use livegit.Index.{TreeEntry}
use livegit.Trees.{Snapshot, fetch_tree}
use livegit.Trees.Fetch.{call, fetch_tree_lem}

abbrev file : Bytes → TreeEntry
file p = record { rel = p; is_dir = false; size = 3; mod_time = 1; mode = 420; hash = [] }

abbrev tree : List TreeEntry
tree = file (codes "a") ∷ file (codes "b") ∷ []

abbrev sizes : List TreeEntry → Bytes
sizes es = map (λ e. e.size) es

abbrev nothing_kept : Snapshot (List TreeEntry)
nothing_kept = record { digest = []; pages = [] }

fetch_tree_lem_example :
    (sizes tree ≢ []
      → (fetch_tree some (call sizes (λ page. page) some (λ _. refl) tree 1) [] nothing_kept).1
        ≡ some (record { entries = tree; digest = sizes tree; unchanged = false }))
    × (sizes tree ≡ []
        → fetch_tree some (call sizes (λ page. page) some (λ _. refl) tree 1) [] nothing_kept
          ≡ (nothing_kept, some (record { entries = []; digest = []; unchanged = true })))
fetch_tree_lem_example = fetch_tree_lem sizes (λ page. page) some (λ _. refl) tree 1 [] nothing_kept
