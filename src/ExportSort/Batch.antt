-- ===== src/ExportSort/Batch.antt =====
-- flows/exporter.go: the list that sortWorker sends is sorted, but where two records are out of order.
use mathlib.Core.List.{flatten, append-nil}
use go_flows.Shared.{
  ℕ, ◌+◌, ◌≤◌, ◌<◌, ◌≡◌, refl, sym, ap, ◌∙◌, subst, Bool, true, false, none, some, List, [], ◌∷◌,
  length, All, arith,
}
use go_flows.ExportSort.Links.{Links}
use go_flows.ExportSort.Sublists.{Finding, find_natural_sublists}
use go_flows.ExportSort.Worker.{sort_heads, sort_batch}
use go_flows.ExportSort.Chains.{Linked, count}
use go_flows.ExportSort.Runs.{runs, runs_reversed, count-runs, IsOrdered, runs-IsOrdered}
use go_flows.ExportSort.Natural.{heads_of, Finds, find_natural_sublists-Finds}
use go_flows.ExportSort.Sorted.{Filled}
use go_flows.ExportSort.Rounds.{Apart, Sorts, Sorts-to, merge_rounds-Sorts}
use go_flows.ExportSort.Single.{
  length-flatten, runs-Filled, length-runs, length-flatten-runs, loses, single_run,
}

module _ (less : ℕ → ℕ → Bool) where
  sort_batch-heads :
      (n x : ℕ) (h : Links) (s : Finding) (hs : List ℕ)
      → find_natural_sublists less n h x ≡ some s
      → s.heads ≡ hs
      → sort_batch less n x h ≡ sort_heads less n x hs s.links
  unfolding sort_batch
  sort_batch-heads n x h s hs e k = rw (e, sort_batch) (ap (λ t. sort_heads less n x t s.links) k)

module _ (less : ℕ → ℕ → Bool) (asym : (a b : ℕ) → less a b ≡ true → less b a ≡ false) where
  one_head-Sorts :
      (n x : ℕ) (xs : List ℕ) (h : Links)
      → Linked h.next (x ∷ xs)
      → IsOrdered less (x ∷ xs)
      → Sorts less (flatten ((x ∷ xs) ∷ [])) (sort_heads less n x (heads_of ((x ∷ xs) ∷ [])) h)
  unfolding flatten Sorts
  one_head-Sorts n x xs h l o = (x ∷ xs, h, refl, l, (λ q. ap (count q) (append-nil (x ∷ xs))), o)

  sort_heads-Sorts :
      (n x : ℕ) (xs : List ℕ) (rs : List (List ℕ)) (h : Links)
      → Apart rs h
      → Filled rs
      → All (IsOrdered less) rs
      → 0 < length rs
      → (length rs ≡ 1 → rs ≡ (x ∷ xs) ∷ [])
      → length (flatten rs) < n
      → Sorts less (flatten rs) (sort_heads less n x (heads_of rs) h)
  unfolding flatten
  sort_heads-Sorts n x xs [] h p i o k one m = absurd (omega arith)
  sort_heads-Sorts n x xs (r ∷ []) h p i o k one m =
      subst
        (λ rs.
          Apart rs h
          → All (IsOrdered less) rs
          → Sorts less (flatten rs) (sort_heads less n x (heads_of rs) h))
        (sym (one refl)) (λ q o'. one_head-Sorts n x xs h q.0.0 o'.0) p o
  sort_heads-Sorts n x xs ([] ∷ s ∷ rs) h p (i, _) o k one m = absurd (omega arith)
  sort_heads-Sorts n x xs ((y ∷ ys) ∷ [] ∷ rs) h p (_, (i, _)) o k one m = absurd (omega arith)
  sort_heads-Sorts n x xs ((y ∷ ys) ∷ (z ∷ zs) ∷ rs) h p i o k one m =
      let us = (y ∷ ys) ∷ (z ∷ zs) ∷ rs in
      merge_rounds-Sorts less asym n n us h p i o (omega arith)
        (omega (arith, m, length-flatten us i)) m

  -- sortWorker on a linked list in which no record stands twice, with more fuel than twice its length
  -- and a test that does not hold both ways: the pointer it sends is at a linked list of the same
  -- records, as often, and no record of it is before the one in front of it. The list of exactly two
  -- records of which the first is not before the second is left out.
  pub sort_batch-Sorts :
      (n x : ℕ) (xs : List ℕ) (h : Links)
      → Linked h.next (x ∷ xs)
      → ((q : ℕ) → count q (x ∷ xs) ≤ 1)
      → length (x ∷ xs) + length (x ∷ xs) < n
      → loses less (x ∷ xs) ≡ false
      → Sorts less (x ∷ xs) (sort_batch less n x h)
  unfolding Finds runs
  sort_batch-Sorts n x xs h l d m k =
      let rs = runs less none (x ∷ xs) in
      let same = λ (q : ℕ). count-runs less q none (x ∷ xs) in
      let (s, e, eh, la, fr) = find_natural_sublists-Finds less n x xs h l d m in
      Sorts-to less (x ∷ xs) (flatten rs) _ _ (sort_batch-heads less n x h s (heads_of rs) e eh)
        (λ q. omega (arith, same q))
        (sort_heads-Sorts n x xs rs s.links (la, λ q. omega (arith, d q, same q))
          (runs-Filled less none (x ∷ xs)) (runs-IsOrdered less asym none (x ∷ xs) tt)
          (length-runs less none (x ∷ xs) (omega arith)) (λ one. single_run less [] x xs one k)
          (omega (arith, m, length-flatten-runs less none (x ∷ xs))))

two_runs :
    (less : ℕ → ℕ → Bool) (x y : ℕ)
    → less x y ≡ false
    → runs less none (x ∷ y ∷ []) ≡ (y ∷ x ∷ []) ∷ []
unfolding runs
two_runs less x y k = runs_reversed less x y [] k

-- sortWorker on two records of which the first is not before the second: it sends the first record,
-- whose pointer is nil now, and the second one, which points at the first, is lost.
pub sort_batch-loses :
    (less : ℕ → ℕ → Bool) (n x y : ℕ) (h : Links)
    → Linked h.next (x ∷ y ∷ [])
    → ((q : ℕ) → count q (x ∷ y ∷ []) ≤ 1)
    → 4 < n
    → less x y ≡ false
    → (g : Links) × (sort_batch less n x h ≡ some (some x, g))
      × (g.next x ≡ none)
      × (g.next y ≡ some x)
unfolding Finds
sort_batch-loses less n x y h l d m k =
    let (s, e, eh, la, fr) = find_natural_sublists-Finds less n x (y ∷ []) h l d m in
    let linked = subst (All (Linked s.links.next)) (two_runs less x y k) la in
    (
      s.links,
      sort_batch-heads less n x h s (y ∷ []) e (eh ∙ ap heads_of (two_runs less x y k)),
      linked.0.1.0,
      linked.0.0,
    )
