-- ===== src/Paths.antt =====
-- internal/config/paths.go and `parentRel` of internal/fuse/index.go, with what they use of Go's
-- strings and path packages, over byte strings.
mod Samples
pub mod Segments
pub mod Canonical
pub mod Mapper
pub mod Parent
pub mod Below
use mathlib.Core.List.{foldl, reverse}
use livegit.Prelude.{
  ℕ, Bool, true, false, not, ◌&&◌, ◌||◌, Option, none, some, List, [], ◌∷◌, ◌++◌, map, Bytes, codes,
  ◌==◌, bytes_eq, eqb, if◌then◌else◌, length, take, drop,
}
use livegit.Prefix.{slash, head_is}

abbrev pub backslash : ℕ
backslash = 92

abbrev pub dot : Bytes
dot = b'.' ∷ []

abbrev pub dotdot : Bytes
dotdot = b'.' ∷ b'.' ∷ []

abbrev in_head : ℕ → List Bytes → List Bytes
in_head c [] = (c ∷ []) ∷ []
in_head c (s ∷ ss) = (c ∷ s) ∷ ss

-- strings.Split(s, "/")
unfoldable pub split : Bytes → List Bytes
split [] = [] ∷ []
split (c ∷ s) = let rest = split s in if eqb c slash then [] ∷ rest else in_head c rest

-- strings.Join(segs, "/")
unfoldable pub join : List Bytes → Bytes
join [] = []
join (s ∷ []) = s
join (s ∷ t ∷ ss) = s ++ slash ∷ join (t ∷ ss)

-- strings.ReplaceAll(p, "\\", "/")
unfoldable pub to_slash : Bytes → Bytes
to_slash = map (λ c. if eqb c backslash then slash else c)

unfoldable pub trim_left : Bytes → Bytes
trim_left [] = []
trim_left (c ∷ s) = let rest = trim_left s in if eqb c slash then rest else c ∷ s

-- strings.TrimRight(s, "/")
unfoldable pub trim_right : Bytes → Bytes
trim_right [] = []
trim_right (c ∷ s) = let rest = trim_right s in if rest == [] && eqb c slash then [] else c ∷ rest

-- strings.Trim(s, "/")
unfoldable pub trim : Bytes → Bytes
unfolding trim_left trim_right
trim s = trim_right (trim_left s)

-- strings.TrimPrefix(s, "/")
unfoldable pub trim_slash : Bytes → Bytes
trim_slash [] = []
trim_slash (c ∷ s) = if eqb c slash then s else c ∷ s

-- `..` takes the last element back, stays at the root, and piles up at the start of a relative
-- path. The elements are held last first.
unfoldable pub back : Bool → List Bytes → List Bytes
back rooted [] = if rooted then [] else dotdot ∷ []
back rooted (top ∷ out) = if top == dotdot then dotdot ∷ top ∷ out else out

unfoldable pub clean_step : Bool → List Bytes → Bytes → List Bytes
unfolding back
clean_step rooted out seg =
    if seg == [] || seg == dot then out else if seg == dotdot then back rooted out else seg ∷ out

-- path.Clean, which is filepath.Clean where the separator is a slash
unfoldable pub clean : Bytes → Bytes
unfolding clean_step split join head_is
clean p =
    let rooted = head_is slash p in
    let body = join (reverse (foldl (clean_step rooted) [] (split p))) in
    if p == [] then dot else if rooted then slash ∷ body else if body == [] then dot else body

-- The last lines of `Rel`.
unfoldable pub rel_cleaned : Bytes → Bytes
rel_cleaned c = let cleaned = trim_slash c in if cleaned == dot then [] else cleaned

-- `Rel`, once the slashes at the ends are cut off.
unfoldable pub rel_trimmed : Bytes → Bytes
rel_trimmed q = if q == [] || q == dot then [] else rel_cleaned (clean q)

-- `Rel`
unfoldable pub rel : Bytes → Bytes
unfolding rel_trimmed rel_cleaned clean to_slash trim trim_slash
rel p = rel_trimmed (trim (to_slash p))

-- s[:strings.LastIndex(s, "/") + 1], the directory part of `path.Split`
unfoldable pub dir_part : Bytes → Bytes
dir_part [] = []
dir_part (c ∷ s) = let rest = dir_part s in if rest == [] && not (eqb c slash) then [] else c ∷ rest

-- path.Dir
unfoldable pub dir : Bytes → Bytes
dir p = clean (dir_part p)

-- `parentRel`, from what `path.Dir` gives
unfoldable pub parent_of_dir : Bytes → Bytes
parent_of_dir d = if d == dot || d == slash ∷ [] then [] else d

-- `parentRel`
unfoldable pub parent_rel : Bytes → Bytes
unfolding parent_of_dir dir clean dir_part
parent_rel p = parent_of_dir (dir p)

last_part : Bytes → Bytes
last_part [] = []
last_part (c ∷ s) = let rest = last_part s in if dir_part (c ∷ s) == [] then c ∷ s else rest

-- path.Base
unfoldable pub base : Bytes → Bytes
unfolding last_part dir_part trim_right
base p =
    let q = trim_right p in if p == [] then dot else if q == [] then slash ∷ [] else last_part q

-- `cleanSlash`
unfoldable pub clean_slash : Bytes → Bytes
unfolding trim_right
clean_slash p = if trim_right p == [] then slash ∷ [] else trim_right p

-- strings.HasPrefix(s, prefix)
unfoldable pub has_prefix : Bytes → Bytes → Bool
has_prefix s [] = true
has_prefix [] (c ∷ prefix) = false
has_prefix (x ∷ s) (c ∷ prefix) = eqb x c && has_prefix s prefix

-- strings.TrimPrefix(s, prefix)
unfoldable pub trim_prefix : Bytes → Bytes → Bytes
unfolding has_prefix
trim_prefix s prefix = if has_prefix s prefix then drop (length prefix) s else s

-- filepath.Join(root, p), which leaves empty elements out
unfoldable pub join_path : Bytes → Bytes → Bytes
unfolding clean
join_path [] p = if p == [] then [] else clean p
join_path (c ∷ root) p = clean (if p == [] then c ∷ root else (c ∷ root) ++ slash ∷ p)

-- `PathMapper`
pub record PathMapper : Type 0 where
  pub local_root : Bytes
  pub remote_root : Bytes

-- `NewPathMapper`, from the mount directory and the configured remote root
unfoldable pub new_path_mapper : Bytes → Bytes → PathMapper
unfolding clean_slash
new_path_mapper mount_dir remote_root = record {
  local_root = mount_dir;
  remote_root = clean_slash remote_root;
}

-- `RemoteToRel`; `none` is the error "escapes remote_root"
unfoldable pub remote_to_rel : PathMapper → Bytes → Option Bytes
remote_to_rel m path =
    let abs = clean_slash path in
    if not (has_prefix (abs ++ slash ∷ []) (m.remote_root ++ slash ∷ []))
    then none
    else some (rel (trim_prefix abs m.remote_root))

-- `RelToLocal`
unfoldable pub rel_to_local : PathMapper → Bytes → Bytes
unfolding rel join_path
rel_to_local m p = if rel p == [] then m.local_root else join_path m.local_root (rel p)

-- `RelToRemote`
unfoldable pub rel_to_remote : PathMapper → Bytes → Bytes
rel_to_remote m p =
    if rel p == []
    then m.remote_root
    else if m.remote_root == slash ∷ []
    then slash ∷ rel p
    else m.remote_root ++ slash ∷ rel p
