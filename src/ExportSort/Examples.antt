-- ===== src/ExportSort/Examples.antt =====
-- Lists of three and two export records, ordered by their numbers.
use go_flows.Shared.{
  ℕ, ◌≤◌, ◌≡◌, refl, Bool, true, false, none, some, [], ◌∷◌, ◌==◌, ltb, if◌then◌else◌, arith, merge,
}
use go_flows.ExportOrder.{ExportKey}
use go_flows.ExportSort.Links.{Links}
use go_flows.ExportSort.Sublists.{find_natural_sublists, merge_sublist}
use go_flows.ExportSort.Worker.{sort_batch}
use go_flows.ExportSort.Chains.{count}
use go_flows.ExportSort.Runs.{runs}
use go_flows.ExportSort.Natural.{Finds, find_natural_sublists-Finds}
use go_flows.ExportSort.Sublist.{Returns, merge_sublist-Returns}
use go_flows.ExportSort.Rounds.{Sorts}
use go_flows.ExportSort.Expiry.{earlier, sort_batch-earlier}
use go_flows.ExportSort.Batch.{sort_batch-loses}

abbrev older : ℕ → ℕ → Bool
older a b = ltb a b

-- 2, then 3, then 1.
abbrev three : Links
three = record {
  next = λ q. if q == 2 then some 3 else if q == 3 then some 1 else none;
  prev = λ _. none;
}

-- 3, then 1.
abbrev two : Links
two = record { next = λ q. if q == 3 then some 1 else none; prev = λ _. none }

older_asym : (a b : ℕ) → older a b ≡ true → older b a ≡ false
older_asym a b h = ground arith

three_distinct : (q : ℕ) → count q (2 ∷ 3 ∷ 1 ∷ []) ≤ 1
three_distinct q = ground arith

two_distinct : (q : ℕ) → count q (3 ∷ 1 ∷ []) ≤ 1
two_distinct q = ground arith

sort_batch-loses_example :
    (g : Links) × (sort_batch older 5 3 two ≡ some (some 3, g))
    × (g.next 3 ≡ none)
    × (g.next 1 ≡ some 3)
sort_batch-loses_example =
    sort_batch-loses older 5 3 1 two (refl, (refl, tt)) two_distinct (omega arith) refl

find_natural_sublists-Finds_example :
    Finds
      (runs older none (2 ∷ 3 ∷ 1 ∷ []))
      (2 ∷ 3 ∷ 1 ∷ [])
      []
      three.next
      (find_natural_sublists older 9 three 2)
find_natural_sublists-Finds_example =
    find_natural_sublists-Finds older 9 2 (3 ∷ 1 ∷ []) three (refl, (refl, (refl, tt)))
      three_distinct (omega arith)

-- 2, then 4; and 1, then 3.
abbrev four : Links
four = record {
  next = λ q. if q == 2 then some 4 else if q == 1 then some 3 else none;
  prev = λ _. none;
}

merge_sublist-Returns_example :
    Returns true
      (merge older (2 ∷ 4 ∷ []) (1 ∷ 3 ∷ []))
      (2 ∷ 4 ∷ 1 ∷ 3 ∷ [])
      four
      (merge_sublist older true 5 (some 2) (some 1) four)
merge_sublist-Returns_example =
    merge_sublist-Returns older true 5 2 1 (4 ∷ []) (3 ∷ []) four (refl, (refl, tt))
      (refl, (refl, tt)) (λ q. ground arith) (omega arith)

-- Records that expire at one time, numbered by their packets.
abbrev by_packet : ℕ → ExportKey
by_packet r = record { packet_id = r; expiry_time = 90; record_id = 0 }

sort_batch-earlier_example :
    Sorts (earlier by_packet) (2 ∷ 3 ∷ 1 ∷ []) (sort_batch (earlier by_packet) 9 2 three)
sort_batch-earlier_example =
    sort_batch-earlier by_packet 9 2 (3 ∷ 1 ∷ []) three (refl, (refl, (refl, tt))) three_distinct
      (omega arith) refl
