-- ===== src/ExportMerge/Loops.antt =====
-- flows/exporter.go: the loops of mergeTreeWorker keep what will be sent in the end.
use mathlib.Core.List.{flatten, append_assoc, append-nil}
use go_flows.Shared.{
  ℕ, zero, suc, ◌+◌, ◌≤◌, ◌≡◌, refl, ap, ◌∙◌, Bool, true, false, not, ◌&&◌, List, [], ◌∷◌, ◌++◌,
  length, arith, Bool-cases, inl, inr, merge, merge_left, merge_right,
}
use go_flows.ExportMerge.Queues.{
  Queues, is_nil, has_both_heads, publish, merge_heads, merge_one, merge_fuel, merge_while,
}

module _ {A : Type 0} (less : A → A → Bool) where
  -- What is sent in the end, if `a` and `b` are still to be received.
  unfoldable pub outcome : Queues A → List A → List A → List A
  outcome q a b = flatten q.result ++ q.merged ++ merge less (q.head0 ++ a) (q.head1 ++ b)

  outcome-merge_heads :
      (xs ys : List A) (q : Queues A) (a b : List A)
      → q.head0 ≡ xs
      → q.head1 ≡ ys
      → outcome (merge_heads less xs ys q) a b ≡ outcome q a b
  unfolding outcome
  outcome-merge_heads [] ys q a b h k = refl
  outcome-merge_heads (x ∷ xs) [] q a b h k = refl
  outcome-merge_heads (x ∷ xs) (y ∷ ys) q a b h k = elim (Bool-cases (less x y)) [
    | inl e ↦ rw (e, h, k, merge_left less x y (xs ++ a) (ys ++ b) e) (simp append_assoc)
    | inr e ↦ rw (e, h, k, merge_right less x y (xs ++ a) (ys ++ b) e) (simp append_assoc)
  ]

  outcome-merge_one : (q : Queues A) (a b : List A) → outcome (merge_one less q) a b ≡ outcome q a b
  unfolding merge_one
  outcome-merge_one q a b = outcome-merge_heads q.head0 q.head1 q a b refl refl

  outcome-merge_fuel :
      (n : ℕ) (test : Queues A → Bool) (q : Queues A) (a b : List A)
      → outcome (merge_fuel less n test q) a b ≡ outcome q a b
  unfolding merge_fuel
  outcome-merge_fuel zero test q a b = refl
  outcome-merge_fuel (suc n) test q a b = elim (Bool-cases (test q)) [
    | inl e ↦
        rw (e, merge_fuel)
          (outcome-merge_fuel n test (merge_one less q) a b ∙ outcome-merge_one q a b)
    | inr e ↦ rw (e, merge_fuel) refl
  ]

  -- A loop of merges changes nothing of what is sent in the end.
  pub outcome-merge_while :
      (test : Queues A → Bool) (q : Queues A) (a b : List A)
      → outcome (merge_while less test q) a b ≡ outcome q a b
  unfolding merge_while
  outcome-merge_while test q a b = outcome-merge_fuel _ test q a b

  -- The number of records in the two heads.
  abbrev pub waiting : Queues A → ℕ
  waiting q = length q.head0 + length q.head1

  merge_heads-waiting :
      (xs ys : List A) (q : Queues A)
      → q.head0 ≡ xs
      → q.head1 ≡ ys
      → (not (is_nil xs) && not (is_nil ys)) ≡ true
      → suc (waiting (merge_heads less xs ys q)) ≡ waiting q
  merge_heads-waiting [] ys q h k t = absurd (cc)
  merge_heads-waiting (x ∷ xs) [] q h k t = absurd (cc)
  merge_heads-waiting (x ∷ xs) (y ∷ ys) q h k t =
      let eh = ap length h in let ek = ap length k in ground (arith, eh, ek)

  merge_one-waiting :
      (q : Queues A) → has_both_heads q ≡ true → suc (waiting (merge_one less q)) ≡ waiting q
  unfolding merge_one has_both_heads
  merge_one-waiting q t = merge_heads-waiting q.head0 q.head1 q refl refl t

  merge_fuel_ends :
      (n : ℕ) (test : Queues A → Bool)
      → ((q : Queues A) → test q ≡ true → has_both_heads q ≡ true)
      → (q : Queues A) → waiting q ≤ n
      → test (merge_fuel less n test q) ≡ false
  unfolding merge_fuel
  merge_fuel_ends zero test h q k = elim (Bool-cases (test q)) [
    | inl e ↦ absurd (omega (arith, merge_one-waiting q (h q e)))
    | inr e ↦ e
  ]
  merge_fuel_ends (suc n) test h q k = elim (Bool-cases (test q)) [
    | inl e ↦
        rw (e, merge_fuel)
          (merge_fuel_ends n test h (merge_one less q) (omega (arith, merge_one-waiting q (h q e))))
    | inr e ↦ rw (e, merge_fuel) e
  ]

  -- The fuel of a loop is enough: it ends when its test fails, if the test asks for both heads.
  pub merge_while_ends :
      (test : Queues A → Bool)
      → ((q : Queues A) → test q ≡ true → has_both_heads q ≡ true)
      → (q : Queues A) → test (merge_while less test q) ≡ false
  unfolding merge_while
  merge_while_ends test h q = merge_fuel_ends _ test h q (omega arith)

is_nil_nil : {A : Type 0} (l : List A) → is_nil l ≡ true → l ≡ []
is_nil_nil [] e = refl
is_nil_nil (x ∷ l) e = absurd (cc)

pub flatten-append :
    {A : Type 0} (ls ms : List (List A)) → flatten (ls ++ ms) ≡ flatten ls ++ flatten ms
unfolding flatten
flatten-append [] ms = refl
flatten-append (l ∷ ls) ms = simp (flatten-append ls ms, append_assoc)

pub flatten-append_last :
    {A : Type 0} (ls : List (List A)) (l : List A) → flatten (ls ++ l ∷ []) ≡ flatten ls ++ l
unfolding flatten
flatten-append_last ls l = flatten-append ls (l ∷ []) ∙ simp append-nil

-- So does a publish.
pub outcome-publish :
    {A : Type 0} (less : A → A → Bool) (q : Queues A) (a b : List A)
    → outcome less (publish q) a b ≡ outcome less q a b
unfolding outcome publish
outcome-publish less q a b = elim (Bool-cases (is_nil q.merged)) [
  | inl e ↦ rw e refl
  | inr e ↦ rw e (simp (flatten-append_last, append_assoc, append-nil))
]

pub heads-publish :
    {A : Type 0} (q : Queues A)
    → ((publish q).head0 ≡ q.head0) × ((publish q).head1 ≡ q.head1) × ((publish q).merged ≡ [])
unfolding publish
heads-publish q = elim (Bool-cases (is_nil q.merged)) [
  | inl e ↦ rw e (refl, refl, is_nil_nil q.merged e)
  | inr e ↦ rw e (refl, refl, refl)
]
