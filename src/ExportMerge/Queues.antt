-- ===== src/ExportMerge/Queues.antt =====
-- flows/exporter.go: mergeTreeQueues. A linked list of export records is the list of its records; the
-- pointers to the tails are its ends. `less` is lessExpiry or lessPacket, by the order of the queues.
use go_flows.Shared.{
  ℕ, zero, suc, ◌+◌, Bool, true, false, not, ◌&&◌, List, [], ◌∷◌, ◌++◌, if◌then◌else◌, length,
}

-- The two inputs of a worker.
pub data Side : Type 0 where
  left right : Side

abbrev pub other : Side → Side
other left = right
other right = left

-- The third pair of `head` and `tail` is `merged`, and `result` is what was sent.
pub record Queues (A : Type 0) : Type 0 where
  pub head0 : List A
  pub head1 : List A
  pub merged : List A
  pub result : List (List A)

abbrev pub new_queues : {A : Type 0} → Queues A
new_queues = record { head0 = []; head1 = []; merged = []; result = [] }

abbrev pub is_nil : {A : Type 0} → List A → Bool
is_nil [] = true
is_nil (_ ∷ _) = false

abbrev pub has_next : {A : Type 0} → List A → Bool
has_next [] = false
has_next (_ ∷ l) = not (is_nil l)

abbrev pub head : {A : Type 0} → Side → Queues A → List A
head left q = q.head0
head right q = q.head1

unfoldable pub has_head : {A : Type 0} → Side → Queues A → Bool
has_head s q = not (is_nil (head s q))

unfoldable pub has_both_heads : {A : Type 0} → Queues A → Bool
has_both_heads q = not (is_nil q.head0) && not (is_nil q.head1)

unfoldable pub both_have_two_elements : {A : Type 0} → Queues A → Bool
both_have_two_elements q = has_next q.head0 && has_next q.head1

unfoldable pub has_two_elements : {A : Type 0} → Side → Queues A → Bool
has_two_elements s q = has_next (head s q)

unfoldable pub append : {A : Type 0} → Side → List A → Queues A → Queues A
append left elem q = record q { head0 = q.head0 ++ elem }
append right elem q = record q { head1 = q.head1 ++ elem }

-- append for the third queue.
unfoldable pub append_merged : {A : Type 0} → List A → Queues A → Queues A
append_merged elem q = record q { merged = q.merged ++ elem }

unfoldable pub publish : {A : Type 0} → Queues A → Queues A
publish q =
    if is_nil q.merged then q else record q { merged = []; result = q.result ++ q.merged ∷ [] }

unfoldable pub clear_queues : {A : Type 0} → Queues A → Queues A
clear_queues q = record q { head0 = []; head1 = []; merged = [] }

module _ {A : Type 0} (less : A → A → Bool) where
  -- mergeOne for these heads. Every loop that calls it tests for both heads before.
  abbrev pub merge_heads : List A → List A → Queues A → Queues A
  merge_heads (x ∷ xs) (y ∷ ys) q =
      if less x y
      then record q { head0 = xs; merged = q.merged ++ x ∷ [] }
      else record q { head1 = ys; merged = q.merged ++ y ∷ [] }
  merge_heads _ _ q = q

  unfoldable pub merge_one : Queues A → Queues A
  merge_one q = merge_heads q.head0 q.head1 q

  -- `for test { mergeOne }`, on fuel.
  unfoldable pub merge_fuel : ℕ → (Queues A → Bool) → Queues A → Queues A
  merge_fuel zero test q = q
  merge_fuel (suc n) test q = elim (test q) [ true ↦ merge_fuel n test (merge_one q) | false ↦ q ]

  -- Each round takes one record from the heads.
  unfoldable pub merge_while : (Queues A → Bool) → Queues A → Queues A
  merge_while test q = merge_fuel (length q.head0 + length q.head1) test q
