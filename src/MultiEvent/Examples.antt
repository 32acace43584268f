-- ===== src/MultiEvent/Examples.antt =====
-- Features with arguments on which the theorems about event tracking hold: 0 is a constant.
use go_flows.Shared.{ℕ, zero, suc, ◌≡◌, refl, [], ◌∷◌, Option, none, some, arith}
use go_flows.CallGraph.Machine.{and_then}
use go_flows.MultiEvent.Events.{MultiEvent, set_arguments, check_all, reset}
use go_flows.MultiEvent.Pairs.{listen, check_all-pair, check_all-same, check_all-panics}

abbrev constants : ℕ → Option ℕ
constants zero = some 7
constants (suc n) = none

abbrev held_by : ℕ → ℕ
held_by n = n

-- Both emit before the Reset, and both after it.
check_all-pair_example :
    (n m : MultiEvent ℕ) × (listen 0 constants held_by
        (set_arguments 0 constants (1 ∷ 2 ∷ []))
        ((2, 9) ∷ (1, 8) ∷ [])
      ≡ some n)
    × (and_then
          (listen 0 constants held_by (reset 0 held_by n) ((1, 4) ∷ []))
          (check_all 0 held_by 5 2)
        ≡ some (m, some (4 ∷ 5 ∷ [])))
check_all-pair_example =
    check_all-pair 0 constants held_by 1 2 2 5 ((2, 9) ∷ (1, 8) ∷ []) ((1, 4) ∷ [])
      (λ e. absurd (omega (arith, e))) refl refl

check_all-same_example :
    (m : MultiEvent ℕ) × (and_then
        (listen 0 constants held_by (set_arguments 0 constants (1 ∷ 1 ∷ [])) ((1, 4) ∷ []))
        (check_all 0 held_by 5 1)
      ≡ some (m, none))
check_all-same_example = check_all-same 0 constants held_by 1 1 5 ((1, 4) ∷ []) refl

check_all-panics_example :
    check_all 0 held_by 5 3 (set_arguments 0 constants (0 ∷ 1 ∷ 2 ∷ 3 ∷ [])) ≡ none
check_all-panics_example = check_all-panics 0 constants held_by 0 1 2 3 7 5 refl refl refl refl
