-- ===== src/Ignore.antt =====
-- The ignore matcher, internal/config/ignore.go, on byte strings. `path.Match` of one pattern on one
-- name is a parameter, true where it answers true without an error. The white space trimmed off a
-- line is that of ASCII.
pub mod DoubleStar
pub mod Subtree
mod Samples
use mathlib.Core.List.{foldl, reverse}
use livegit.Prelude.{
  ℕ, zero, suc, ◌+◌, ◌-◌, Bool, true, false, not, ◌&&◌, ◌||◌, Option, none, some, List, [], ◌∷◌,
  ◌++◌, Bytes, codes, ◌==◌, bytes_eq, eqb, ltb, leb, if◌then◌else◌, length, take, drop, any,
}
use livegit.Prefix.{slash, head_is}
use livegit.Paths.{split, join, rel}

-- The pattern has no `!`, and no slash at its ends.
pub record Rule : Type 0 where
  pub pattern : Bytes
  pub negate : Bool
  pub dir_only : Bool
  pub anchored : Bool

abbrev pub Matcher : Type 0
Matcher = List Rule

abbrev pub double_star : Bytes
double_star = b'*' ∷ b'*' ∷ []

abbrev is_space : ℕ → Bool
is_space c = eqb c 32 || (leb 9 c && leb c 13)

abbrev trim_left : Bytes → Bytes
trim_left [] = []
trim_left (c ∷ s) = let rest = trim_left s in if is_space c then rest else c ∷ s

-- strings.TrimSpace
unfoldable pub trim_space : Bytes → Bytes
trim_space s = reverse (trim_left (reverse (trim_left s)))

-- strings.HasSuffix(s, "/") and strings.TrimSuffix(s, "/")
unfoldable pub ends_in_slash : Bytes → Bool
ends_in_slash s = head_is slash (reverse s)

unfoldable pub trim_end : Bytes → Bytes
trim_end s = if ends_in_slash s then reverse (drop 1 (reverse s)) else s

-- strings.Contains(s, "/")
unfoldable pub has_slash : Bytes → Bool
has_slash s = any (eqb slash) s

-- strings.Contains(s, "**")
unfoldable pub has_double_star : Bytes → Bool
has_double_star [] = false
has_double_star (c ∷ s) = (eqb c b'*' && head_is b'*' s) || has_double_star s

-- The rule of a line that is not empty and no comment, with what follows its `!`.
unfoldable pub parse_line : Bool → Bytes → Rule
parse_line negate line =
    let dir_only = ends_in_slash line in
    let body = trim_end line in
    let rooted = head_is slash body in
    record {
      pattern = if rooted then drop 1 body else body;
      negate = negate;
      dir_only = dir_only;
      anchored = rooted || has_slash (trim_end body);
    }

unfoldable pub add_pattern : Matcher → Bytes → Matcher
add_pattern m raw =
    let line = trim_space raw in
    if line == [] || head_is b'#' line
    then m
    else let negate = head_is b'!' line in
      let r = parse_line negate (if negate then drop 1 line else line) in
      if r.pattern == [] then m else m ++ r ∷ []

-- `NewMatcher`
unfoldable pub new_matcher : List Bytes → Matcher
new_matcher patterns = foldl add_pattern [] patterns

-- What becomes of opening and scanning the ignore file.
pub data IgnoreFile : Type 0 where
  missing : IgnoreFile
  unreadable : IgnoreFile
  scanned : (lines : List Bytes) → (ok : Bool) → IgnoreFile

-- `LoadIgnoreFile`, the matcher if there is one and whether there was no error
unfoldable pub load_ignore_file : List Bytes → IgnoreFile → Option Matcher × Bool
load_ignore_file base missing = (some (new_matcher base), true)
load_ignore_file base unreadable = (none, false)
load_ignore_file base (scanned lines ok) = (some (new_matcher (base ++ lines)), ok)

-- Whether a test holds of one of so many numbers from a first one on.
unfoldable pub any_from : (ℕ → Bool) → ℕ → ℕ → Bool
any_from test i zero = false
any_from test i (suc count) = test i || any_from test (suc i) count

module _ (path_match : Bytes → Bytes → Bool) where
  unfoldable pub double_star_match : List Bytes → List Bytes → Bool
  double_star_match [] [] = true
  double_star_match [] (n ∷ name) = false
  double_star_match (p ∷ pat) [] =
      let zero_segments = double_star_match pat [] in
      if p == double_star then zero_segments else false
  double_star_match (p ∷ pat) (n ∷ name) =
      let zero_segments = double_star_match pat (n ∷ name) in
      let one_segment = double_star_match (p ∷ pat) name in
      let next = double_star_match pat name in
      if p == double_star then zero_segments || one_segment else path_match p n && next

  unfoldable pub glob_match : Bytes → Bytes → Bool
  glob_match pattern name =
      if not (has_double_star pattern)
      then path_match pattern name
      else double_star_match (split pattern) (split name)

  -- The path itself and each of its ancestors, or each run of its segments.
  unfoldable pub matches : Rule → Bytes → Bool
  matches r p =
      let segs = split p in
      if r.anchored
      then any_from (λ i. glob_match r.pattern (join (take i segs))) 1 (length segs)
      else any_from
          (λ i.
            any_from (λ j. glob_match r.pattern (join (drop i (take j segs)))) (suc i)
              (length segs - i))
          0 (length segs)

  unfoldable pub matches_as_parent : Rule → Bytes → Bool
  matches_as_parent r p =
      let segs = split p in
      if ltb (length segs) 2
      then false
      else any_from (λ i. matches r (join (take i segs))) 1 (length segs - 1)

  unfoldable pub match_step : Bytes → Bool → Bool → Rule → Bool
  match_step p is_dir ignored r =
      if r.dir_only && (not is_dir && not (matches_as_parent r p))
      then ignored
      else if matches r p
      then not r.negate
      else ignored

  -- `Match`
  unfoldable pub match_path : Matcher → Bytes → Bool → Bool
  match_path m p is_dir = if rel p == [] then false else foldl (match_step (rel p) is_dir) false m
