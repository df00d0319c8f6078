-- ===== src/Prelude/Keys.antt =====
-- Keys with a decided equality: numbers and byte strings. A path or a name is a byte string.
use Prim.Native.Nat.{ℕ}
use Prim.Native.Char.{code}
use Prim.Native.String.{String}
use mathlib.Core.Path.{◌≡◌, refl}
use mathlib.Core.Logic.{◌↔◌, ◌≢◌}
use mathlib.Core.Bool.{Bool, true, false, ◌&&◌}
use mathlib.Core.List.{List, [], ◌∷◌, ◌++◌}
use native.Mathlib.Omega.{arith}
use livegit.Prelude.Tests.{eqb, eqb_iff, if◌then◌else◌}
use livegit.Prelude.Lists.{All}

abbrev pub Bytes : Type 0
Bytes = List ℕ

unfoldable pub bytes_beq : Bytes → Bytes → Bool
bytes_beq [] [] = true
bytes_beq (x ∷ xs) (y ∷ ys) = eqb x y && bytes_beq xs ys
bytes_beq _ _ = false

pub bytes_beq_iff : (a b : Bytes) → (bytes_beq a b ≡ true) ↔ (a ≡ b)
unfolding bytes_beq
bytes_beq_iff [] [] = (λ _. refl, λ _. refl)
bytes_beq_iff [] (y ∷ ys) = ground arith
bytes_beq_iff (x ∷ xs) [] = ground arith
bytes_beq_iff (x ∷ xs) (y ∷ ys) = ground (arith, bytes_beq_iff xs ys)

pub record Key {ℓ} (K : Type ℓ) : Type ℓ where
  pub same : K → K → Bool
  pub same_iff : (j k : K) → (same j k ≡ true) ↔ (j ≡ k)

instance abbrev pub bytes_eq : Key Bytes
bytes_eq = record { same = bytes_beq; same_iff = bytes_beq_iff }

instance abbrev pub nat_eq : Key ℕ
nat_eq = record { same = eqb; same_iff = eqb_iff }

infix 50 ◌==◌
abbrev pub ◌==◌ {κ} : {K : Type κ} ⦃key : Key K⦄ → K → K → Bool
◌==◌ ⦃key⦄ j k = key.same j k

pub bytes_beq_refl : (a : Bytes) → (a == a) ≡ true
bytes_beq_refl a = (bytes_beq_iff a a).1 refl

pub bytes_beq_ne : (a b : Bytes) → a ≢ b → (a == b) ≡ false
bytes_beq_ne a b ne = ground (arith, bytes_beq_iff a b)

-- The bytes of a Go string literal in ASCII.
abbrev pub codes : String → Bytes
codes (String.◌∷◌ first rest) = code first ∷ codes rest
codes String.[] = []

abbrev in_field : ℕ → List Bytes → List Bytes
in_field c [] = (c ∷ []) ∷ []
in_field c (s ∷ ss) = (c ∷ s) ∷ ss

-- strings.Split at a byte
unfoldable pub split_on : ℕ → Bytes → List Bytes
split_on at [] = [] ∷ []
split_on at (c ∷ s) = let rest = split_on at s in if eqb c at then [] ∷ rest else in_field c rest

-- The byte does not occur.
abbrev pub IsWithout : ℕ → Bytes → Type 0
IsWithout at s = All (λ c. eqb c at ≡ false) s

pub split_on-field :
    (at : ℕ) (p s : Bytes) → IsWithout at p → split_on at (p ++ at ∷ s) ≡ p ∷ split_on at s
unfolding split_on
split_on-field at [] s h = rw ((eqb_iff at at).1 refl) refl
split_on-field at (c ∷ p) s h = rw (split_on-field at p s h.1, h.0) refl

pub split_on-last : (at : ℕ) (p : Bytes) → IsWithout at p → split_on at p ≡ p ∷ []
unfolding split_on
split_on-last at [] h = refl
split_on-last at (c ∷ p) h = rw (split_on-last at p h.1, h.0) refl
