-- ===== src/Shared/Keys.antt =====
-- A flow key is a Go string, a list of bytes. A Go map from flow keys is an association list.
use Prim.Native.Nat.{ℕ}
use mathlib.Core.Path.{◌≡◌, refl}
use mathlib.Core.Logic.{◌↔◌}
use mathlib.Core.Bool.{Bool, true, false, ◌&&◌}
use mathlib.Core.Option.{Option, none, some}
use mathlib.Core.List.{List, [], ◌∷◌}
use native.Mathlib.Omega.{arith}
use go_flows.Shared.Tests.{◌==◌, if◌then◌else◌}

abbrev pub Key : Type 0
Key = List ℕ

unfoldable pub key_eq : Key → Key → Bool
key_eq [] [] = true
key_eq (a ∷ k) (b ∷ l) = a == b && key_eq k l
key_eq _ _ = false

pub key_eq_sound : (k l : Key) → key_eq k l ≡ true → k ≡ l
unfolding key_eq
key_eq_sound [] [] h = refl
key_eq_sound [] (b ∷ l) h = cc
key_eq_sound (a ∷ k) [] h = cc
key_eq_sound (a ∷ k) (b ∷ l) h = ground (arith, key_eq_sound k l)

pub key_eq_refl : (k : Key) → key_eq k k ≡ true
unfolding key_eq
key_eq_refl [] = refl
key_eq_refl (a ∷ k) = ground (arith, key_eq_refl k)

pub key_eq_iff : (k l : Key) → (key_eq k l ≡ true) ↔ (k ≡ l)
key_eq_iff k l = (key_eq_sound k l, λ e. rw e (key_eq_refl l))

module _ {ℓ} {V : Type ℓ} where
  unfoldable pub lookup : Key → List (Key × V) → Option V
  lookup k [] = none
  lookup k ((j, v) ∷ m) = if key_eq j k then some v else lookup k m

  unfoldable pub insert : Key → V → List (Key × V) → List (Key × V)
  insert k v [] = (k, v) ∷ []
  insert k v ((j, w) ∷ m) = if key_eq j k then (k, v) ∷ m else (j, w) ∷ insert k v m

  unfoldable pub delete : Key → List (Key × V) → List (Key × V)
  delete k [] = []
  delete k ((j, w) ∷ m) = let rest = delete k m in if key_eq j k then rest else (j, w) ∷ rest

  pub lookup-insert :
      (k j : Key) (v : V) (m : List (Key × V))
      → lookup j (insert k v m) ≡ (if key_eq k j then some v else lookup j m)
  unfolding lookup insert
  lookup-insert k j v [] = refl
  lookup-insert k j v ((i, w) ∷ m) =
      ground (arith, key_eq_iff k j, key_eq_iff i k, key_eq_iff i j, lookup-insert k j v m)

  pub lookup-delete :
      (k j : Key) (m : List (Key × V))
      → lookup j (delete k m) ≡ (if key_eq k j then none else lookup j m)
  unfolding lookup delete
  lookup-delete k j [] = ground arith
  lookup-delete k j ((i, w) ∷ m) =
      ground (arith, key_eq_iff k j, key_eq_iff i k, key_eq_iff i j, lookup-delete k j m)
