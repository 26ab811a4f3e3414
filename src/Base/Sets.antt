-- ===== src/Base/Sets.antt =====
-- Hash sets as lists: `insert` adds what is not there, `remove` takes every copy out.
use mathlib.Core.Path.{◌≡◌}
use mathlib.Core.Logic.{◌≢◌}
use mathlib.Core.Bool.{Bool, false, ◌||◌, not, ◌&&◌}
use mathlib.Core.List.{List, [], ◌∷◌}
use native.Mathlib.Omega.{arith}
use nm_daemon.Base.Tests.{if◌then◌else◌}
use nm_daemon.Base.Lists.{All}
use nm_daemon.Base.Keys.{PartialEq, ◌==◌}

module _ {ℓ} {A : Type ℓ} ⦃e : PartialEq A⦄ where
  unfoldable pub has : A → List A → Bool
  has a [] = false
  has a (x ∷ xs) = x == a || has a xs

  unfoldable pub add : A → List A → List A
  add a xs = if has a xs then xs else a ∷ xs

  unfoldable pub delete : A → List A → List A
  delete a [] = []
  delete a (x ∷ xs) = let rest = delete a xs in if x == a then rest else x ∷ rest

  pub has-add : (a b : A) (xs : List A) → has b (add a xs) ≡ (a == b || has b xs)
  unfolding has add
  has-add a b xs = ground (arith, e.beq_iff a b)

  pub has-delete : (a b : A) (xs : List A) → has b (delete a xs) ≡ (not (a == b) && has b xs)
  unfolding has delete
  has-delete a b [] = ground arith
  has-delete a b (x ∷ xs) =
      ground (arith, e.beq_iff a b, e.beq_iff x a, e.beq_iff x b, has-delete a b xs)

  pub has-All : (a : A) (xs : List A) → has a xs ≡ false → All (λ x. x ≢ a) xs
  unfolding has
  has-All a [] h = tt
  has-All a (x ∷ xs) h = (ground (arith, e.beq_iff x a), has-All a xs (ground arith))
