-- ===== src/Prelude/Sets.antt =====
-- Sets of keys, as Go's `map[K]bool`: a list of keys.
use mathlib.Core.Path.{◌≡◌}
use mathlib.Core.Bool.{Bool, false, ◌||◌, ◌&&◌, not}
use mathlib.Core.List.{List, [], ◌∷◌}
use native.Mathlib.Omega.{arith}
use livegit.Prelude.Tests.{if◌then◌else◌}
use livegit.Prelude.Lists.{filter}
use livegit.Prelude.Keys.{Key, ◌==◌}

module _ {ℓ} {K : Type ℓ} ⦃e : Key K⦄ where
  -- s[k]
  unfoldable pub has : K → List K → Bool
  has k [] = false
  has k (j ∷ s) = j == k || has k s

  -- s[k] = true
  unfoldable pub add : K → List K → List K
  unfolding has
  add k s = if has k s then s else k ∷ s

  -- delete(s, k)
  unfoldable pub discard : K → List K → List K
  discard k s = filter (λ j. not (j == k)) s

  pub has-add : (k j : K) (s : List K) → has j (add k s) ≡ (k == j || has j s)
  unfolding add
  has-add k j s = ground (arith, e.same_iff k j)

  pub has-discard : (k j : K) (s : List K) → has j (discard k s) ≡ (not (k == j) && has j s)
  unfolding has discard
  has-discard k j [] = ground arith
  has-discard k j (i ∷ s) =
      ground (arith, has-discard k j s, e.same_iff i k, e.same_iff i j, e.same_iff k j)
