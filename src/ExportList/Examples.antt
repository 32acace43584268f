-- ===== src/ExportList/Examples.antt =====
-- A ring of two records, 5 and 6, at the head 0.
use go_flows.Shared.{◌≡◌, refl, none, some, [], ◌∷◌, ◌==◌, if◌then◌else◌, arith}
use go_flows.ExportSort.Links.{Links}
use go_flows.ExportList.{unlink, insert}
use go_flows.ExportList.Ring.{Chain, Ring, insert-Ring, unlink-Ring}

abbrev two : Links
two = record {
  next = λ q. if q == 0 then some 5 else if q == 5 then some 6 else if q == 6 then some 0 else none;
  prev = λ q. if q == 0 then some 6 else if q == 5 then some 0 else if q == 6 then some 5 else none;
}

two-Ring : Ring two 0 (5 ∷ 6 ∷ [])
unfolding Chain
two-Ring = (refl, refl, (refl, refl, (refl, refl)))

insert-Ring_example : (g : Links) × (insert 7 0 two ≡ some g) × Ring g 0 (7 ∷ 5 ∷ 6 ∷ [])
insert-Ring_example = insert-Ring two 0 7 (5 ∷ 6 ∷ []) two-Ring (λ q. ground arith)

unlink-Ring_example :
    Ring (unlink 5 two) 0 (6 ∷ []) × ((unlink 5 two).next 5 ≡ none) × ((unlink 5 two).prev 5 ≡ none)
unlink-Ring_example = unlink-Ring two 0 5 [] (6 ∷ []) two-Ring (λ q. ground arith)
