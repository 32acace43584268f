-- ===== src/FlowKey/Order.antt =====
-- packet/key.go: the comparison of bytes is a linear order, so that sorting forgets the direction.
use go_flows.Shared.{ℕ, ◌≡◌, refl, true, false, List, [], ◌∷◌, arith}
use go_flows.FlowKey.Selector.{greater}

pub greater-asym : (s d : List ℕ) → greater s d ≡ true → greater d s ≡ false
unfolding greater
greater-asym [] d h = ground arith
greater-asym (x ∷ s) [] h = refl
greater-asym (x ∷ s) (y ∷ d) h = ground (arith, greater-asym s d)

pub greater-antisym : (s d : List ℕ) → greater s d ≡ false → greater d s ≡ false → s ≡ d
unfolding greater
greater-antisym [] [] h k = refl
greater-antisym [] (y ∷ d) h k = ground arith
greater-antisym (x ∷ s) [] h k = ground arith
greater-antisym (x ∷ s) (y ∷ d) h k = ground (arith, greater-antisym s d)
