-- ===== src/ExportSort/Worker.antt =====
-- flows/exporter.go: what sortWorker does with one list. `none` is fuel that ran out or a panic.
use go_flows.Shared.{ℕ, zero, suc, Bool, true, false, Option, none, some, List, [], ◌∷◌, ◌++◌}
use go_flows.ExportSort.Links.{Links}
use go_flows.ExportSort.Sublists.{to_list, find_natural_sublists, merge_sublist}

module _ (less : ℕ → ℕ → Bool) where
  -- A round over sortHeads: neighbours are merged, and an odd last one is kept.
  unfoldable pub merge_pairs : ℕ → List ℕ → Links → Option (List ℕ × Links)
  merge_pairs n [] h = some ([], h)
  merge_pairs n (a ∷ []) h = some (a ∷ [], h)
  merge_pairs n (a ∷ b ∷ heads) h = elim (merge_sublist less false n (some a) (some b) h) [
    | none ↦ none
    | some (r, h') ↦ elim (merge_pairs n heads h') [
      | none ↦ none
      | some (rs, h'') ↦ some (to_list r ++ rs, h'')
    ]
  ]

  -- `for len(sortHeads) > 2`.
  unfoldable pub merge_rounds : ℕ → ℕ → List ℕ → Links → Option (List ℕ × Links)
  merge_rounds n f (a ∷ b ∷ []) h = some (a ∷ b ∷ [], h)
  merge_rounds n zero heads h = none
  merge_rounds n (suc f) heads h = elim (merge_pairs n heads h) [
    | none ↦ none
    | some (heads', h') ↦ merge_rounds n f heads' h'
  ]

  -- The last merge, of the two sublists that are left.
  abbrev pub final_merge : ℕ → Option (List ℕ × Links) → Option (Option ℕ × Links)
  final_merge n (some (a ∷ b ∷ [], h)) = merge_sublist less true n (some a) (some b) h
  final_merge n _ = none

  -- The pointer that is sent, for the sublists `heads` of the list at `elem`.
  abbrev pub sort_heads : ℕ → ℕ → List ℕ → Links → Option (Option ℕ × Links)
  sort_heads n elem [] h = none
  sort_heads n elem (a ∷ []) h = some (some elem, h)
  sort_heads n elem (a ∷ b ∷ heads) h = final_merge n (merge_rounds n n (a ∷ b ∷ heads) h)

  unfoldable pub sort_batch : ℕ → ℕ → Links → Option (Option ℕ × Links)
  sort_batch n elem h = elim (find_natural_sublists less n h elem) [
    | none ↦ none
    | some s ↦ sort_heads n elem s.heads s.links
  ]
