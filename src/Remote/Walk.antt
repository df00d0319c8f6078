-- ===== src/Remote/Walk.antt =====
-- The walks over a directory of Source, `walkTree`, `list` and `unsyncedLeft` of
-- internal/agent/fileserver.go. What the file system holds is a tree; the matcher is a parameter.
use livegit.Prelude.{
  ℕ, Bool, true, false, not, ◌&&◌, ◌||◌, Option, none, some, List, [], ◌∷◌, ◌++◌, Bytes, codes,
  ◌==◌, bytes_eq, length, drop, ltb, ◌-◌, if◌then◌else◌,
}
use livegit.Prefix.{slash}
use livegit.Paths.{PathMapper, rel, join_path, dot, has_prefix, remote_to_rel}
use livegit.Index.{TreeEntry, DirEntry, insert_sorted, bytes_lt}

-- os.FileInfo
pub record Info : Type 0 where
  pub size : ℕ
  pub mod_time : ℕ
  pub mode : ℕ

-- An entry of a directory by its name, where its metadata can be had with that, and a directory with
-- its entries, where it can be read.
mutual
  pub data Found : Type 0 where
    file : Bytes → Option Info → Found
    dir : Bytes → Option Info → Bool → Founds → Found

  pub data Founds : Type 0 where
    no_more : Founds
    entry : Found → Founds → Founds

unfoldable pub name_of : Found → Bytes
name_of (file name info) = name
name_of (dir name info readable below) = name

unfoldable pub info_of : Found → Option Info
info_of (file name info) = info
info_of (dir name info readable below) = info

unfoldable pub is_dir_of : Found → Bool
is_dir_of (file name info) = false
is_dir_of (dir name info readable below) = true

-- filepath.Join of a directory and a name
abbrev pub at : Bytes → Bytes → Bytes
at d name = join_path d name

-- strings.HasSuffix(s, suffix)
unfoldable pub has_suffix : Bytes → Bytes → Bool
has_suffix s suffix =
    not (ltb (length s) (length suffix)) && drop (length s - length suffix) s == suffix

-- Staging of uploads, which is no part of the tree
unfoldable pub is_staging : Bytes → Bool
unfolding has_suffix
is_staging name = has_suffix name (codes ".lg-part") || has_suffix name (codes ".lg-part.id")

abbrev pub tree_entry : Bytes → Bool → Info → TreeEntry
tree_entry p is_dir i = record {
  rel = p;
  is_dir = is_dir;
  size = i.size;
  mod_time = i.mod_time;
  mode = i.mode;
  hash = [];
}

-- sort.Slice by Rel
unfoldable pub insert_by_rel : TreeEntry → List TreeEntry → List TreeEntry
insert_by_rel e [] = e ∷ []
insert_by_rel e (x ∷ xs) = if bytes_lt x.rel e.rel then x ∷ insert_by_rel e xs else e ∷ x ∷ xs

unfoldable pub sort_by_rel : List TreeEntry → List TreeEntry
unfolding insert_by_rel
sort_by_rel [] = []
sort_by_rel (e ∷ es) = insert_by_rel e (sort_by_rel es)

-- .DS_Store and AppleDouble files
unfoldable pub is_junk : Bytes → Bool
is_junk name = name == codes ".DS_Store" || has_prefix name (codes "._")

-- An entry that is listed, before what is in it
unfoldable pub emitted : Bool → List TreeEntry → Option (Bytes × Info) → List TreeEntry
emitted is_dir inside none = []
emitted is_dir inside (some (p, i)) = tree_entry p is_dir i ∷ inside

abbrev pub or_later : Option Bytes → Option Bytes → Option Bytes
or_later none later = later
or_later (some b) later = some b

module _ (m : PathMapper) (ignored : Bytes → Bool → Bool) where
  -- The path under which the walk lists an entry, and its metadata; none is an entry passed over.
  unfoldable pub listed : Bytes → Found → Option (Bytes × Info)
  listed d f = if is_staging (name_of f) then none else elim (remote_to_rel m (at d (name_of f))) [
    | none ↦ none
    | some p ↦
        if p == [] || (p == dot || ignored p (is_dir_of f))
        then none
        else elim (info_of f) [ none ↦ none | some i ↦ some (p, i) ]
  ]

  unfoldable mutual
    pub walk_entry : Bytes → Found → List TreeEntry
    walk_entry d (file name info) = emitted false [] (listed d (file name info))
    walk_entry d (dir name info readable below) =
        emitted true (if readable then walk_dir (at d name) below else [])
          (listed d (dir name info readable below))

    pub walk_dir : Bytes → Founds → List TreeEntry
    walk_dir d no_more = []
    walk_dir d (entry f rest) = walk_entry d f ++ walk_dir d rest

  -- `walkTree`, from the root; the workers' order goes with the sort.
  unfoldable pub walk_tree : Bool → Founds → List TreeEntry
  walk_tree readable below = if readable then sort_by_rel (walk_dir m.remote_root below) else []

  -- One entry of `list`
  unfoldable pub list_entry : Bytes → Found → List DirEntry → List DirEntry
  list_entry p f out =
      if ignored (rel (rel p ++ slash ∷ name_of f)) (is_dir_of f) then out else elim (info_of f) [
        | none ↦ out
        | some i ↦
            insert_sorted
              (record { name = name_of f; is_dir = is_dir_of f; size = i.size; mode = i.mode }) out
      ]

  unfoldable pub list_entries : Bytes → Founds → List DirEntry
  list_entries p no_more = []
  list_entries p (entry f rest) = list_entry p f (list_entries p rest)

  -- `list`; none is what cannot be read.
  unfoldable pub list_dir : Bytes → Option Founds → Option (List DirEntry)
  list_dir p none = none
  list_dir p (some fs) = some (list_entries p fs)

  -- What stops the walk of `unsyncedLeft` at a file, by its path under the root.
  unfoldable pub file_blocks : Bytes → Bytes → Option Bytes → Option Bytes
  file_blocks abs name none = some abs
  file_blocks abs name (some p) = if ignored p false || is_junk name then none else some p

  -- The same at a directory, by what stops it inside.
  unfoldable pub dir_blocks : Bytes → Bool → Option Bytes → Option Bytes → Option Bytes
  dir_blocks abs readable inside none = some abs
  dir_blocks abs readable inside (some p) =
      if ignored p true then none else if readable then inside else some abs

  unfoldable mutual
    pub blocker : Bytes → Found → Option Bytes
    blocker d (file name info) = file_blocks (at d name) name (remote_to_rel m (at d name))
    blocker d (dir name info readable below) =
        dir_blocks (at d name) readable (first_blocker (at d name) below)
          (remote_to_rel m (at d name))

    pub first_blocker : Bytes → Founds → Option Bytes
    first_blocker d no_more = none
    first_blocker d (entry f rest) = or_later (blocker d f) (first_blocker d rest)

  -- `unsyncedLeft` of a directory, none where it is the empty string
  unfoldable pub unsynced_left : Bytes → Bool → Founds → Option Bytes
  unsynced_left d readable below = if readable then first_blocker d below else some d
