-- ===== src/Config/Mount.antt =====
-- Where Source's root directory is mounted, internal/config/config.go.
use mathlib.Core.List.{foldl, foldl-append}
use livegit.Prelude.{
  ℕ, ◌≡◌, refl, ap, ◌∙◌, inl, inr, false, [], ◌∷◌, ◌++◌, Bytes, ◌==◌, bytes_eq, bytes_beq, eqb,
  Bool-cases,
}
use livegit.Prefix.{slash, head_is}
use livegit.Paths.{dot, dir, base, split, join, clean, clean_step, trim_right, join_path}
use livegit.Paths.Segments.{in_head-append}
use livegit.Config.{
  Config, role_ghost, valid, validate, validate_ghost, validate_role, apply_defaults, mount_dir,
}

split-slash : (d s : Bytes) → split (d ++ slash ∷ s) ≡ split d ++ split s
unfolding split
split-slash [] s = refl
split-slash (c ∷ d) s = elim (Bool-cases (eqb c slash)) [
  | inl e ↦ rw (e, split-slash d s) refl
  | inr e ↦ rw (e, split-slash d s) (in_head-append c d (split s))
]

-- The element `.` adds nothing to a path.
clean-dot : (c : ℕ) (d : Bytes) → clean ((c ∷ d) ++ slash ∷ dot) ≡ clean (c ∷ d)
unfolding clean head_is bytes_beq
clean-dot c d =
    let same : foldl (clean_step (eqb c slash)) [] (split ((c ∷ d) ++ slash ∷ dot))
        ≡ foldl (clean_step (eqb c slash)) [] (split (c ∷ d)) =
      ap (foldl (clean_step (eqb c slash)) []) (split-slash (c ∷ d) dot)
      ∙ foldl-append (clean_step (eqb c slash)) [] (split (c ∷ d)) (split dot) in
    rw same refl

join_path-dot : (p : Bytes) → join_path p dot ≡ clean p
unfolding join_path clean split clean_step join head_is bytes_beq
join_path-dot [] = refl
join_path-dot (c ∷ d) = clean-dot c d

-- Where Source is its host's whole tree, and no mountpoint is pinned, the configuration is accepted,
-- and the mountpoint is the project's own directory, which holds `.lg` with the journal and the cache.
pub mount_dir-at_slash :
    (lg user : Bytes) (c : Config)
    → c.role ≡ role_ghost
    → c.remote_root ≡ slash ∷ []
    → c.local_root ≡ []
    → (c.host == []) ≡ false
    → (validate (apply_defaults user c) ≡ valid)
      × (mount_dir lg (apply_defaults user c) ≡ clean (dir lg))
unfolding validate validate_role validate_ghost apply_defaults mount_dir head_is bytes_beq base
    trim_right
mount_dir-at_slash lg user c ghost_role whole derived named = (
  rw (ghost_role, validate_role, derived, named, whole) refl,
  rw (derived, whole) (join_path-dot (dir lg)),
)
