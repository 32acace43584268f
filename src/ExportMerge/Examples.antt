-- ===== src/ExportMerge/Examples.antt =====
-- Two channels with one list of numbers each.
use mathlib.Core.List.{flatten}
use go_flows.Shared.{ℕ, ◌≡◌, ◌<◌, refl, Bool, true, false, List, [], ◌∷◌, ltb, merge}
use go_flows.ExportMerge.Queues.{
  left, right, has_head, has_both_heads, both_have_two_elements, has_two_elements, merge_fuel,
  merge_one, append, append_merged, publish, merge_while,
}
use go_flows.ExportMerge.Worker.{
  Worker, initial, partial, done, start, receive, finish, partial_end, partial_round, merge_round,
  get_initial, started, nothing_to_poll, fetch, partial_step, Reach, here, next,
}
use go_flows.ExportMerge.Merged.{Reach-merge}
use go_flows.ExportMerge.Ends.{to_do, Step-to_do, Reach-done}

abbrev less : ℕ → ℕ → Bool
less a b = ltb a b

abbrev first : List (List ℕ)
first = (1 ∷ 3 ∷ []) ∷ []

abbrev second : List (List ℕ)
second = (2 ∷ []) ∷ []

-- The worker once it has closed its result.
abbrev ended : Worker ℕ
ended = record {
  phase = done;
  a = [];
  b = [];
  queues = record {
    head0 = 3 ∷ [];
    head1 = [];
    merged = [];
    result = (1 ∷ []) ∷ (2 ∷ 3 ∷ []) ∷ [];
  };
}

-- Both lists are received, and then both channels are closed, the second one first.
ended-Reach : Reach less (start first second) ended
unfolding start receive append merge_round partial_round partial_end finish merge_while publish
    append_merged has_both_heads both_have_two_elements has_two_elements has_head merge_fuel
    merge_one
ended-Reach =
    next
      (next
        (next
          (next
            (next (next (next here (get_initial left refl refl)) (get_initial right refl refl))
              (started refl refl))
            (nothing_to_poll refl))
          (fetch right refl))
        (partial_step right true refl))
      (partial_step right false refl)

Reach-merge_example : flatten ended.queues.result ≡ merge less (flatten first) (flatten second)
Reach-merge_example = Reach-merge less first second ended-Reach refl

Reach-done_example : (u : Worker ℕ) × Reach less (start first second) u × (u.phase ≡ done)
Reach-done_example = Reach-done less first second here

Step-to_do_example :
    to_do (receive left initial (partial left true) (start first second))
    < to_do (start first second)
unfolding start has_both_heads
Step-to_do_example = Step-to_do less (get_initial left refl refl)
