-- ===== src/Base/Totals.antt =====
-- Sums of weights over a list. Two lists have the same elements, as often, when every weight has the same
-- sum over both: this is how the collections of messages are compared.
use Prim.Native.Nat.{ℕ, zero, suc, ◌+◌}
use mathlib.Core.Path.{◌≡◌, refl}
use mathlib.Core.Logic.{ite, inl, inr}
use mathlib.Core.Option.{Option, none, some}
use mathlib.Core.List.{List, [], ◌∷◌, ◌++◌}
use native.Mathlib.Omega.{arith}
use queue_as_a_service.Base.Tests.{Option-cases}
use native.Mathlib.Decide.{ℕ_discrete}

module _ {ℓ} {A : Type ℓ} where
  abbrev pub total : (A → ℕ) → List A → ℕ
  total w [] = 0
  total w (x ∷ xs) = w x + total w xs

  pub total-append : (w : A → ℕ) (xs ys : List A) → total w (xs ++ ys) ≡ total w xs + total w ys
  total-append w [] ys = omega arith
  total-append w (x ∷ xs) ys = omega (arith, total-append w xs ys)

module _ {ℓ} {A : Type ℓ} (key : A → ℕ) where
  -- The weight of the elements with one key, and their number.
  abbrev pub only : ℕ → (A → ℕ) → A → ℕ
  only k w x = ite (ℕ_discrete (key x) k) (w x) 0

  abbrev pub has : ℕ → A → ℕ
  has k = only k (λ _. 1)

  pub only-eq-zero :
      (k : ℕ) (w : A → ℕ) (xs : List A) → total (has k) xs ≡ 0 → total (only k w) xs ≡ 0
  only-eq-zero k w [] h = refl
  only-eq-zero k w (x ∷ xs) h = ground (arith, only-eq-zero k w xs)

module _ {ℓ} {A : Type ℓ} where
  -- The n-th element, and the others.
  unfoldable pub take_nth : ℕ → List A → Option (A × List A)
  take_nth n [] = none
  take_nth zero (x ∷ xs) = some (x, xs)
  take_nth (suc n) (x ∷ xs) = elim (take_nth n xs) [
    | none ↦ none
    | some (y, rest) ↦ some (y, x ∷ rest)
  ]

  pub total-take_nth :
      (w : A → ℕ) (n : ℕ) (xs : List A) (y : A) (rest : List A)
      → take_nth n xs ≡ some (y, rest)
      → total w xs ≡ w y + total w rest
  unfolding take_nth
  total-take_nth w n [] y rest h = absurd (ground (arith, h))
  total-take_nth w zero (x ∷ xs) y rest h = ground (arith, h)
  total-take_nth w (suc n) (x ∷ xs) y rest h = elim (Option-cases (take_nth n xs)) [
    | inl e ↦ absurd (ground (arith, e, h))
    | inr ((z, others), e) ↦ ground (arith, e, h, total-take_nth w n xs z others e)
  ]
