-- ===== src/Ignore/Samples.antt =====
-- A matcher of three lines, with equality of names in the place of path.Match.
use livegit.Prelude.{
  true, false, [], ◌∷◌, ◌++◌, ◌≡◌, refl, ◌↔◌, codes, Bytes, Bool, bytes_eq, bytes_beq, ◌==◌,
}
use livegit.Prefix.{slash}
use livegit.Paths.{rel, split, join}
use livegit.Ignore.{
  Matcher, double_star, double_star_match, new_matcher, match_path, add_pattern, parse_line,
  trim_space, trim_end, ends_in_slash, has_slash, match_step, matches, any_from, glob_match,
  has_double_star,
}
use livegit.Ignore.DoubleStar.{Spans, double_star_match_iff}
use livegit.Ignore.Subtree.{match_path-below}

abbrev same_name : Bytes → Bytes → Bool
same_name p n = p == n

abbrev matcher : Matcher
matcher = new_matcher (codes "# output" ∷ codes " build/ " ∷ codes "/logs/**/tmp" ∷ [])

double_star_match_iff_example :
    (double_star_match same_name
        (double_star ∷ codes "b" ∷ [])
        (codes "a" ∷ codes "c" ∷ codes "b" ∷ [])
      ≡ true)
    ↔ Spans same_name (double_star ∷ codes "b" ∷ []) (codes "a" ∷ codes "c" ∷ codes "b" ∷ [])
double_star_match_iff_example =
    double_star_match_iff same_name (double_star ∷ codes "b" ∷ [])
      (codes "a" ∷ codes "c" ∷ codes "b" ∷ [])

match_path-below_example :
    match_path same_name matcher (codes "src/build" ++ slash ∷ codes "out/x.o") false ≡ true
unfolding rel bytes_beq new_matcher match_path add_pattern parse_line trim_space trim_end
    ends_in_slash has_slash match_step matches any_from glob_match has_double_star split join
    double_star_match
match_path-below_example =
    match_path-below same_name matcher (codes "src/build") (codes "out/x.o") false
      (refl, (refl, tt)) refl refl refl
