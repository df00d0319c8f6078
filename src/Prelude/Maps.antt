-- ===== src/Prelude/Maps.antt =====
-- Go's `map[K]V` as an association list. A write replaces the entry in place.
use mathlib.Core.Path.{◌≡◌, refl}
use mathlib.Core.Option.{Option, none, some}
use mathlib.Core.List.{List, [], ◌∷◌}
use native.Mathlib.Omega.{arith}
use livegit.Prelude.Tests.{if◌then◌else◌}
use livegit.Prelude.Keys.{Key, ◌==◌}

-- Go's `map[K]V` at a type of keys and one of values.
module _ {ℓ κ} {K : Type ℓ} {V : Type κ} ⦃key : Key K⦄ where
  -- m[k]
  unfoldable pub lookup : K → List (K × V) → Option V
  lookup k ((found, value) ∷ others) = if found == k then some value else lookup k others
  lookup _ [] = none

  -- delete(m, k)
  unfoldable pub delete : K → List (K × V) → List (K × V)
  delete k ((found, value) ∷ others) =
      let kept = delete k others in if found == k then kept else (found, value) ∷ kept
  delete _ [] = []

  -- m[k] = new
  unfoldable pub insert : K → V → List (K × V) → List (K × V)
  insert k new ((found, value) ∷ others) =
      let below = insert k new others in
      if found == k then (k, new) ∷ others else (found, value) ∷ below
  insert k new [] = (k, new) ∷ []

  pub lookup-delete :
      (k asked : K) (entries : List (K × V))
      → lookup asked (delete k entries) ≡ (if k == asked then none else lookup asked entries)
  unfolding delete lookup
  lookup-delete k asked ((found, value) ∷ others) = ground (
    arith,
    lookup-delete k asked others,
    key.same_iff k asked,
    key.same_iff found k,
    key.same_iff found asked,
  )
  lookup-delete k asked [] = ground arith

  pub lookup-insert :
      (k asked : K) (new : V) (entries : List (K × V))
      → lookup asked (insert k new entries)
        ≡ (if k == asked then some new else lookup asked entries)
  unfolding insert lookup
  lookup-insert k asked new ((found, value) ∷ others) = ground (
    arith,
    lookup-insert k asked new others,
    key.same_iff k asked,
    key.same_iff found k,
    key.same_iff found asked,
  )
  lookup-insert k asked new [] = refl
