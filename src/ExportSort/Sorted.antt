-- ===== src/ExportSort/Sorted.antt =====
-- flows/exporter.go: the lists that are merged keep their records, and the merge of two lists in order
-- is in order.
use mathlib.Core.List.{flatten}
use go_flows.Shared.{
  ℕ, ◌<◌, ◌≡◌, refl, Bool, true, false, List, [], ◌∷◌, ◌++◌, length, All, arith, Bool-cases, inl,
  inr, merge, length-merge, merge_left, merge_right,
}
use go_flows.ExportSort.Chains.{count, count-append, count-merge}
use go_flows.ExportSort.Runs.{IsOrdered}

-- No run is empty.
abbrev pub Filled : List (List ℕ) → Type 0
Filled rs = All (λ r. 0 < length r) rs

module _ (less : ℕ → ℕ → Bool) where
  -- Neighbours merged.
  abbrev pub pairs : List (List ℕ) → List (List ℕ)
  pairs [] = []
  pairs (r ∷ []) = r ∷ []
  pairs (r ∷ s ∷ rs) = merge less r s ∷ pairs rs

  pub count-pairs :
      (q : ℕ) (rs : List (List ℕ)) → count q (flatten (pairs rs)) ≡ count q (flatten rs)
  unfolding flatten
  count-pairs q [] = refl
  count-pairs q (r ∷ []) = refl
  count-pairs q (r ∷ s ∷ rs) = omega (
    arith,
    count-pairs q rs,
    count-merge less q r s,
    count-append q r (s ++ flatten rs),
    count-append q s (flatten rs),
    count-append q (merge less r s) (flatten (pairs rs)),
  )

  pub pairs-Filled : (rs : List (List ℕ)) → Filled rs → Filled (pairs rs)
  pairs-Filled [] f = tt
  pairs-Filled (r ∷ []) f = f
  pairs-Filled (r ∷ s ∷ rs) (a, (b, f)) = (omega (arith, length-merge less r s), pairs-Filled rs f)

  -- The head of `l` is not before `z`.
  abbrev Follows : ℕ → List ℕ → Type 0
  Follows z [] = Unit
  Follows z (x ∷ _) = less x z ≡ false

  Follows-IsOrdered : (z : ℕ) (l : List ℕ) → Follows z l → IsOrdered less l → IsOrdered less (z ∷ l)
  Follows-IsOrdered z [] f o = tt
  Follows-IsOrdered z (x ∷ l) f o = (f, o)

  IsOrdered-Follows : (z : ℕ) (l : List ℕ) → IsOrdered less (z ∷ l) → Follows z l
  IsOrdered-Follows z [] o = tt
  IsOrdered-Follows z (x ∷ l) o = o.0

  IsOrdered-tail : (z : ℕ) (l : List ℕ) → IsOrdered less (z ∷ l) → IsOrdered less l
  IsOrdered-tail z [] o = tt
  IsOrdered-tail z (x ∷ l) o = o.1

  merge-Follows :
      (z : ℕ) (xs ys : List ℕ) → Follows z xs → Follows z ys → Follows z (merge less xs ys)
  unfolding merge
  merge-Follows z [] ys f g = g
  merge-Follows z (x ∷ xs) [] f g = f
  merge-Follows z (x ∷ xs) (y ∷ ys) f g = elim (Bool-cases (less x y)) [
    | inl e ↦ rw (merge_left less x y xs ys e) f
    | inr e ↦ rw (merge_right less x y xs ys e) g
  ]

  pub merge-IsOrdered :
      (asym : (a b : ℕ) → less a b ≡ true → less b a ≡ false)
      → (xs ys : List ℕ) → IsOrdered less xs
      → IsOrdered less ys
      → IsOrdered less (merge less xs ys)
  unfolding merge
  merge-IsOrdered asym [] ys ox oy = oy
  merge-IsOrdered asym (x ∷ xs) [] ox oy = ox
  merge-IsOrdered asym (x ∷ xs) (y ∷ ys) ox oy = elim (Bool-cases (less x y)) [
    | inl e ↦ rw (merge_left less x y xs ys e) (
        Follows-IsOrdered x (merge less xs (y ∷ ys))
          (merge-Follows x xs (y ∷ ys) (IsOrdered-Follows x xs ox) (asym x y e))
          (merge-IsOrdered asym xs (y ∷ ys) (IsOrdered-tail x xs ox) oy))
    | inr e ↦ rw (merge_right less x y xs ys e) (
        Follows-IsOrdered y (merge less (x ∷ xs) ys)
          (merge-Follows y (x ∷ xs) ys e (IsOrdered-Follows y ys oy))
          (merge-IsOrdered asym (x ∷ xs) ys ox (IsOrdered-tail y ys oy)))
  ]

  pub pairs-IsOrdered :
      (asym : (a b : ℕ) → less a b ≡ true → less b a ≡ false)
      → (rs : List (List ℕ)) → All (IsOrdered less) rs
      → All (IsOrdered less) (pairs rs)
  pairs-IsOrdered asym [] o = tt
  pairs-IsOrdered asym (r ∷ []) o = o
  pairs-IsOrdered asym (r ∷ s ∷ rs) (a, (b, o)) =
      (merge-IsOrdered asym r s a b, pairs-IsOrdered asym rs o)
