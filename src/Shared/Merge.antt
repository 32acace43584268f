-- ===== src/Shared/Merge.antt =====
-- The merge of two lists by a test `less`; of two heads the second goes first if it is not greater.
use Prim.Native.Nat.{◌+◌}
use mathlib.Core.Path.{◌≡◌, refl}
use mathlib.Core.Bool.{Bool, true, false}
use mathlib.Core.Logic.{inl, inr}
use mathlib.Core.List.{List, [], ◌∷◌}
use go_flows.Shared.Tests.{Bool-cases}
use native.Mathlib.Omega.{arith}
use go_flows.Shared.Lists.{length}

module _ {A : Type 0} (less : A → A → Bool) where
  unfoldable pub merge : List A → List A → List A
  merge [] m = m
  merge (a ∷ l) [] = a ∷ l
  merge (a ∷ l) (b ∷ m) = elim (less a b) [
    | true ↦ a ∷ merge l (b ∷ m)
    | false ↦ b ∷ merge (a ∷ l) m
  ]

  pub merge_left :
      (x y : A) (xs ys : List A) → less x y ≡ true → merge (x ∷ xs) (y ∷ ys) ≡ x ∷ merge xs (y ∷ ys)
  unfolding merge
  merge_left x y xs ys h = ground arith

  pub merge_right :
      (x y : A) (xs ys : List A)
      → less x y ≡ false
      → merge (x ∷ xs) (y ∷ ys) ≡ y ∷ merge (x ∷ xs) ys
  unfolding merge
  merge_right x y xs ys h = ground arith

  pub merge-nil : (xs : List A) → merge xs [] ≡ xs
  unfolding merge
  merge-nil [] = refl
  merge-nil (x ∷ xs) = refl

  pub nil-merge : (ys : List A) → merge [] ys ≡ ys
  unfolding merge
  nil-merge ys = refl

  -- No element is lost, and none is made.
  pub length-merge : (l m : List A) → length (merge l m) ≡ length l + length m
  unfolding merge
  length-merge [] m = omega arith
  length-merge (a ∷ l) [] = omega arith
  length-merge (a ∷ l) (b ∷ m) = elim (Bool-cases (less a b)) [
    | inl e ↦ rw (merge_left a b l m e) (omega (arith, length-merge l (b ∷ m)))
    | inr e ↦ rw (merge_right a b l m e) (omega (arith, length-merge (a ∷ l) m))
  ]
