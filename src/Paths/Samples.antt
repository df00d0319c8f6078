-- ===== src/Paths/Samples.antt =====
-- Paths at small inputs.
use livegit.Prelude.{◌≡◌, refl, arith, [], ◌∷◌, map, codes, bytes_beq}
use livegit.Paths.{PathMapper, new_path_mapper, rel, base, parent_rel, clean_slash}
use livegit.Paths.Mapper.{IsRoot}

rels :
    map rel (codes "./foo" ∷ codes "/a\\b/" ∷ codes "a/../.." ∷ codes "a/..//../x/./y" ∷ [])
    ≡ codes "foo" ∷ codes "a/b" ∷ codes ".." ∷ codes "../x/y" ∷ []
unfolding rel bytes_beq
rels = refl

parents :
    map parent_rel (codes "foo" ∷ codes "a/b/c" ∷ codes ".." ∷ codes "" ∷ [])
    ≡ codes "" ∷ codes "a/b" ∷ codes "" ∷ codes "" ∷ []
unfolding parent_rel bytes_beq
parents = refl

bases :
    map base (codes "foo" ∷ codes "a/b/c" ∷ codes "a/b///" ∷ codes "//" ∷ codes "" ∷ [])
    ≡ codes "foo" ∷ codes "c" ∷ codes "b" ∷ codes "/" ∷ codes "." ∷ []
unfolding base bytes_beq
bases = refl

abbrev home : PathMapper
home = new_path_mapper (codes "/me/w/") (codes "/srv/w/")

abbrev whole_disk : PathMapper
whole_disk = new_path_mapper (codes "/me/w") (codes "/")

home-IsRoot : IsRoot home.remote_root
unfolding new_path_mapper clean_slash bytes_beq
home-IsRoot = (refl, ground arith, ground arith)
