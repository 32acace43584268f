-- ===== src/ExportSort/Runs.antt =====
-- The natural sublists of a list, as findNaturalSublists cuts it.
use mathlib.Core.List.{flatten}
use go_flows.Shared.{
  ℕ, ◌+◌, ◌≡◌, refl, inl, inr, Bool, true, false, Option, none, some, List, [], ◌∷◌, ◌++◌, All,
  arith, Bool-cases,
}
use go_flows.ExportSort.Chains.{count, count-append}

-- The records of the sublist before its last one, and the last one.
abbrev pub Run : Type 0
Run = List ℕ × ℕ

module _ (less : ℕ → ℕ → Bool) where
  -- `none` is that no sublist has begun.
  unfoldable pub runs : Option Run → List ℕ → List (List ℕ)
  runs none [] = []
  runs none (x ∷ xs) = runs (some ([], x)) xs
  runs (some (seg, v)) [] = (seg ++ v ∷ []) ∷ []
  runs (some ([], v)) (p ∷ xs) = elim (less v p) [
    | true ↦ runs (some (v ∷ [], p)) xs
    | false ↦ (p ∷ v ∷ []) ∷ runs none xs
  ]
  runs (some (s ∷ seg, v)) (p ∷ xs) = elim (less v p) [
    | true ↦ runs (some ((s ∷ seg) ++ v ∷ [], p)) xs
    | false ↦ ((s ∷ seg) ++ v ∷ []) ∷ runs (some ([], p)) xs
  ]

  -- The next record is in order.
  pub runs_longer :
      (seg : List ℕ) (v p : ℕ) (xs : List ℕ)
      → less v p ≡ true
      → runs (some (seg, v)) (p ∷ xs) ≡ runs (some (seg ++ v ∷ [], p)) xs
  unfolding runs
  runs_longer [] v p xs e = rw (e, runs) refl
  runs_longer (s ∷ seg) v p xs e = rw (e, runs) refl

  pub runs_reversed :
      (v p : ℕ) (xs : List ℕ)
      → less v p ≡ false
      → runs (some ([], v)) (p ∷ xs) ≡ (p ∷ v ∷ []) ∷ runs none xs
  unfolding runs
  runs_reversed v p xs e = rw (e, runs) refl

  pub runs_ended :
      (s : ℕ) (seg : List ℕ) (v p : ℕ) (xs : List ℕ)
      → less v p ≡ false
      → runs (some (s ∷ seg, v)) (p ∷ xs) ≡ ((s ∷ seg) ++ v ∷ []) ∷ runs none (p ∷ xs)
  unfolding runs
  runs_ended s seg v p xs e = rw (e, runs) refl

  -- The records of a run that has begun.
  abbrev pub begun : Option Run → List ℕ
  begun none = []
  begun (some (seg, v)) = seg ++ v ∷ []

  -- Every record is in one of the runs, as often.
  pub count-runs :
      (q : ℕ) (r : Option Run) (xs : List ℕ)
      → count q (flatten (runs r xs)) ≡ count q (begun r) + count q xs
  unfolding runs flatten
  count-runs q none [] = omega arith
  count-runs q none (x ∷ xs) = omega (arith, count-runs q (some ([], x)) xs)
  count-runs q (some (seg, v)) [] = omega (arith, count-append q (seg ++ v ∷ []) [])
  count-runs q (some ([], v)) (p ∷ xs) = elim (Bool-cases (less v p)) [
    | inl e ↦ rw (runs_longer [] v p xs e) (omega (arith, count-runs q (some (v ∷ [], p)) xs))
    | inr e ↦ rw (runs_reversed v p xs e) (omega (arith, count-runs q none xs))
  ]
  count-runs q (some (s ∷ seg, v)) (p ∷ xs) = elim (Bool-cases (less v p)) [
    | inl e ↦ rw (runs_longer (s ∷ seg) v p xs e) (
        omega (
          arith,
          count-runs q (some ((s ∷ seg) ++ v ∷ [], p)) xs,
          count-append q ((s ∷ seg) ++ v ∷ []) (p ∷ []),
        ))
    | inr e ↦ rw (runs_ended s seg v p xs e) (
        omega (
          arith,
          count-runs q (some ([], p)) xs,
          count-append q ((s ∷ seg) ++ v ∷ []) (flatten (runs (some ([], p)) xs)),
        ))
  ]

  -- No record is before the one in front of it.
  abbrev pub IsOrdered : List ℕ → Type 0
  IsOrdered [] = Unit
  IsOrdered (x ∷ []) = Unit
  IsOrdered (x ∷ y ∷ l) = (less y x ≡ false) × IsOrdered (y ∷ l)

  pub IsOrdered-append :
      (seg : List ℕ) (v p : ℕ)
      → IsOrdered (seg ++ v ∷ [])
      → less p v ≡ false
      → IsOrdered ((seg ++ v ∷ []) ++ p ∷ [])
  IsOrdered-append [] v p h e = (e, tt)
  IsOrdered-append (s ∷ []) v p h e = (h.0, (e, tt))
  IsOrdered-append (s ∷ t ∷ seg) v p h e = (h.0, IsOrdered-append (t ∷ seg) v p h.1 e)

module _ (less : ℕ → ℕ → Bool) (asym : (a b : ℕ) → less a b ≡ true → less b a ≡ false) where
  -- Every run is in order.
  pub runs-IsOrdered :
      (r : Option Run) (xs : List ℕ)
      → IsOrdered less (begun less r)
      → All (IsOrdered less) (runs less r xs)
  unfolding runs
  runs-IsOrdered none [] h = tt
  runs-IsOrdered none (x ∷ xs) h = runs-IsOrdered (some ([], x)) xs tt
  runs-IsOrdered (some (seg, v)) [] h = (h, tt)
  runs-IsOrdered (some ([], v)) (p ∷ xs) h = elim (Bool-cases (less v p)) [
    | inl e ↦
        rw (runs_longer less [] v p xs e) (runs-IsOrdered (some (v ∷ [], p)) xs (asym v p e, tt))
    | inr e ↦ rw (runs_reversed less v p xs e) ((e, tt), runs-IsOrdered none xs tt)
  ]
  runs-IsOrdered (some (s ∷ seg, v)) (p ∷ xs) h = elim (Bool-cases (less v p)) [
    | inl e ↦ rw (runs_longer less (s ∷ seg) v p xs e) (
        runs-IsOrdered (some ((s ∷ seg) ++ v ∷ [], p)) xs
          (IsOrdered-append less (s ∷ seg) v p h (asym v p e)))
    | inr e ↦ rw (runs_ended less s seg v p xs e) (h, runs-IsOrdered (some ([], p)) xs tt)
  ]
