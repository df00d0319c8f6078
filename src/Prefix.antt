-- ===== src/Prefix.antt =====
-- `hasPathPrefix` of internal/fuse/journal.go and `underPrefix` of internal/fuse/xattr.go.
use livegit.Prelude.{
  ℕ, ◌+◌, ◌≡◌, refl, ◌↔◌, ◌⊎◌, inl, inr, Bool, true, false, ◌&&◌, not, [], ◌∷◌, ◌++◌, arith, Bytes,
  ◌==◌, bytes_eq, bytes_beq, eqb, ltb, length, take, drop, if◌then◌else◌,
}

abbrev pub slash : ℕ
slash = b'/'

-- s[0] == c, on a slice that may be empty
unfoldable pub head_is : ℕ → Bytes → Bool
head_is c [] = false
head_is c (x ∷ s) = eqb x c

-- `rel[len(dir)]` is read only where `len(rel) > len(dir)`.
unfoldable pub has_path_prefix : Bytes → Bytes → Bool
unfolding head_is
has_path_prefix rel dir =
    if dir == []
    then true
    else ltb (length dir) (length rel)
      && (take (length dir) rel == dir && head_is slash (drop (length dir) rel))

unfoldable pub under_prefix : Bytes → Bytes → Bool
unfolding head_is
under_prefix p dir =
    not (dir == [])
    && (ltb (length dir + 1) (length p)
        && (take (length dir) p == dir && head_is slash (drop (length dir) p)))

-- The path lies strictly below the directory.
abbrev pub Below : Bytes → Bytes → Type 0
Below rel dir = (rest : Bytes) × (rel ≡ dir ++ slash ∷ rest)

starts : Bytes → Bytes → Bool
unfolding head_is
starts dir rel =
    ltb (length dir) (length rel)
    && (take (length dir) rel == dir && head_is slash (drop (length dir) rel))

starts-Below : (dir rel : Bytes) → starts dir rel ≡ true → Below rel dir
unfolding starts bytes_beq
starts-Below [] [] h = absurd (ground arith)
starts-Below [] (x ∷ rel) h = (rel, ground arith)
starts-Below (d ∷ dir) [] h = absurd (ground arith)
starts-Below (d ∷ dir) (x ∷ rel) h =
    let (rest, e) = starts-Below dir rel (ground arith) in (rest, ground (arith, e))

Below-starts : (dir rest : Bytes) → starts dir (dir ++ slash ∷ rest) ≡ true
unfolding starts bytes_beq
Below-starts [] rest = ground arith
Below-starts (d ∷ dir) rest = ground (arith, Below-starts dir rest)

-- A path has a directory as its prefix exactly when the directory is the root or the path is the
-- directory, a slash and a rest.
pub has_path_prefix_iff :
    (rel dir : Bytes) → (has_path_prefix rel dir ≡ true) ↔ ((dir ≡ []) ⊎ Below rel dir)
unfolding has_path_prefix starts bytes_beq
has_path_prefix_iff rel [] = (λ _. inl refl, λ _. refl)
has_path_prefix_iff rel (d ∷ dir) = (
  λ h. inr (starts-Below (d ∷ dir) rel h),
  λ p. elim p [
    | inl e ↦ absurd (ground arith)
    | inr (rest, e) ↦ rw e (Below-starts (d ∷ dir) rest)
  ],
)
