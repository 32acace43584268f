-- ===== src/ExportSort/Single.antt =====
-- The runs of a list: none is empty, and a single run is the list but for two records out of order.
use mathlib.Core.List.{flatten, append_assoc}
use go_flows.Shared.{
  ℕ, suc, ◌+◌, ◌≤◌, ◌<◌, ◌≡◌, refl, sym, ap, ◌∙◌, inl, inr, Bool, false, not, Option, none, some,
  List, [], ◌∷◌, ◌++◌, length, length-append, arith, Bool-cases,
}
use go_flows.ExportSort.Runs.{Run, begun, runs, runs_longer, runs_reversed, runs_ended}
use go_flows.ExportSort.Sorted.{Filled}

pub length-flatten : (rs : List (List ℕ)) → Filled rs → length rs ≤ length (flatten rs)
unfolding flatten
length-flatten [] f = omega arith
length-flatten (r ∷ rs) (a, f) = omega (arith, a, length-flatten rs f, length-append r (flatten rs))

length-snoc : (seg : List ℕ) (v : ℕ) → length (seg ++ v ∷ []) ≡ suc (length seg)
length-snoc seg v = omega (arith, length-append seg (v ∷ []))

module _ (less : ℕ → ℕ → Bool) where
  pub runs-Filled : (r : Option Run) (xs : List ℕ) → Filled (runs less r xs)
  unfolding runs
  runs-Filled none [] = tt
  runs-Filled none (x ∷ xs) = runs-Filled (some ([], x)) xs
  runs-Filled (some (seg, v)) [] = (omega (arith, length-snoc seg v), tt)
  runs-Filled (some ([], v)) (p ∷ xs) = elim (Bool-cases (less v p)) [
    | inl e ↦ rw (runs_longer less [] v p xs e) (runs-Filled (some (v ∷ [], p)) xs)
    | inr e ↦ rw (runs_reversed less v p xs e) (omega arith, runs-Filled none xs)
  ]
  runs-Filled (some (s ∷ seg, v)) (p ∷ xs) = elim (Bool-cases (less v p)) [
    | inl e ↦
        rw (runs_longer less (s ∷ seg) v p xs e) (runs-Filled (some ((s ∷ seg) ++ v ∷ [], p)) xs)
    | inr e ↦ rw (runs_ended less s seg v p xs e) (omega arith, runs-Filled (some ([], p)) xs)
  ]

  pub length-flatten-runs :
      (r : Option Run) (xs : List ℕ)
      → length (flatten (runs less r xs)) ≡ length (begun less r) + length xs
  unfolding runs flatten
  length-flatten-runs none [] = refl
  length-flatten-runs none (x ∷ xs) = omega (arith, length-flatten-runs (some ([], x)) xs)
  length-flatten-runs (some (seg, v)) [] = omega (arith, length-append (seg ++ v ∷ []) [])
  length-flatten-runs (some ([], v)) (p ∷ xs) = elim (Bool-cases (less v p)) [
    | inl e ↦
        rw (runs_longer less [] v p xs e) (omega (arith, length-flatten-runs (some (v ∷ [], p)) xs))
    | inr e ↦ rw (runs_reversed less v p xs e) (omega (arith, length-flatten-runs none xs))
  ]
  length-flatten-runs (some (s ∷ seg, v)) (p ∷ xs) = elim (Bool-cases (less v p)) [
    | inl e ↦ rw (runs_longer less (s ∷ seg) v p xs e) (
        omega (
          arith,
          length-flatten-runs (some ((s ∷ seg) ++ v ∷ [], p)) xs,
          length-snoc (seg ++ v ∷ []) p,
        ))
    | inr e ↦ rw (runs_ended less s seg v p xs e) (
        omega (
          arith,
          length-flatten-runs (some ([], p)) xs,
          length-append (seg ++ v ∷ []) (flatten (runs less (some ([], p)) xs)),
        ))
  ]

  pub length-runs :
      (r : Option Run) (xs : List ℕ)
      → 0 < length (begun less r) + length xs
      → 0 < length (runs less r xs)
  unfolding runs
  length-runs none [] k = absurd (omega arith)
  length-runs none (x ∷ xs) k = length-runs (some ([], x)) xs (omega arith)
  length-runs (some (seg, v)) [] k = omega arith
  length-runs (some ([], v)) (p ∷ xs) k = elim (Bool-cases (less v p)) [
    | inl e ↦ rw (runs_longer less [] v p xs e) (length-runs (some (v ∷ [], p)) xs (omega arith))
    | inr e ↦ rw (runs_reversed less v p xs e) (omega arith)
  ]
  length-runs (some (s ∷ seg, v)) (p ∷ xs) k = elim (Bool-cases (less v p)) [
    | inl e ↦
        rw (runs_longer less (s ∷ seg) v p xs e)
          (length-runs (some ((s ∷ seg) ++ v ∷ [], p)) xs (omega arith))
    | inr e ↦ rw (runs_ended less s seg v p xs e) (omega arith)
  ]

  -- Two records out of order, of which one is lost.
  abbrev pub loses : List ℕ → Bool
  loses (x ∷ y ∷ []) = not (less x y)
  loses _ = false

  no_reversed :
      (v p : ℕ) (xs : List ℕ)
      → less v p ≡ false
      → suc (length (runs less none xs)) ≡ 1
      → loses (v ∷ p ∷ xs) ≡ false
      → ⊥
  no_reversed v p [] t e k = cc
  no_reversed v p (x ∷ xs) t e k = omega (arith, e, length-runs none (x ∷ xs) (omega arith))

  pub single_run :
      (seg : List ℕ) (v : ℕ) (xs : List ℕ)
      → length (runs less (some (seg, v)) xs) ≡ 1
      → loses (seg ++ v ∷ xs) ≡ false
      → runs less (some (seg, v)) xs ≡ (seg ++ v ∷ xs) ∷ []
  unfolding runs
  single_run seg v [] e k = refl
  single_run [] v (p ∷ xs) e k = elim (Bool-cases (less v p)) [
    | inl t ↦
        let f = runs_longer less [] v p xs t in
        f ∙ single_run (v ∷ []) p xs (sym (ap length f) ∙ e) k
    | inr t ↦ absurd (no_reversed v p xs t (sym (ap length (runs_reversed less v p xs t)) ∙ e) k)
  ]
  single_run (s ∷ seg) v (p ∷ xs) e k = elim (Bool-cases (less v p)) [
    | inl t ↦
        let f = runs_longer less (s ∷ seg) v p xs t in
        let a = append_assoc (s ∷ seg) (v ∷ []) (p ∷ xs) in
        f
        ∙ single_run ((s ∷ seg) ++ v ∷ []) p xs (sym (ap length f) ∙ e) (ap loses a ∙ k)
        ∙ ap (λ l. l ∷ []) a
    | inr t ↦ absurd (
        omega (
          arith,
          sym (ap length (runs_ended less s seg v p xs t)) ∙ e,
          length-runs (some ([], p)) xs (omega arith),
        ))
  ]
