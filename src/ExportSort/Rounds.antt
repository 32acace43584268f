-- ===== src/ExportSort/Rounds.antt =====
-- flows/exporter.go: sortWorker sorts a list, but for the case that it loses a record.
use mathlib.Core.List.{flatten}
use go_flows.Shared.{
  ℕ, zero, suc, ◌+◌, ◌≤◌, ◌<◌, ◌≡◌, refl, sym, ap, ◌∙◌, Bool, true, false, Option, some, List, [],
  ◌∷◌, ◌++◌, length, length-append, All, arith, merge, length-merge,
}
use go_flows.ExportSort.Links.{Links}
use go_flows.ExportSort.Sublists.{to_list, merge_sublist}
use go_flows.ExportSort.Worker.{merge_pairs, merge_rounds, final_merge}
use go_flows.ExportSort.Chains.{
  start, Linked, count, SameRecords, Frame, count-append, Linked-frame, count-merge,
}
use go_flows.ExportSort.Runs.{IsOrdered}
use go_flows.ExportSort.Natural.{heads_of}
use go_flows.ExportSort.Sublist.{Returns, merge_sublist-Returns}
use go_flows.ExportSort.Sorted.{
  Filled, pairs, count-pairs, pairs-Filled, merge-IsOrdered, pairs-IsOrdered,
}

-- The lists of `rs` are linked in the pointers, and no record is in them twice.
abbrev pub Apart : List (List ℕ) → Links → Type 0
Apart rs h = All (Linked h.next) rs × ((q : ℕ) → count q (flatten rs) ≤ 1)

length-heads_of : (rs : List (List ℕ)) → Filled rs → length (heads_of rs) ≡ length rs
length-heads_of [] f = refl
length-heads_of ([] ∷ rs) (a, f) = absurd (omega arith)
length-heads_of ((x ∷ xs) ∷ rs) (a, f) = omega (arith, length-heads_of rs f)

All-Linked-frame :
    (f g : ℕ → Option ℕ) (rs : List (List ℕ))
    → ((q : ℕ) → 0 < count q (flatten rs) → g q ≡ f q)
    → All (Linked f) rs
    → All (Linked g) rs
unfolding flatten
All-Linked-frame f g [] k l = tt
All-Linked-frame f g (r ∷ rs) k (l, ls) = (
  Linked-frame f g r (λ q c. k q (omega (arith, c, count-append q r (flatten rs)))) l,
  All-Linked-frame f g rs (λ q c. k q (omega (arith, c, count-append q r (flatten rs)))) ls,
)

append-counts :
    (xs ys zs : List ℕ) (q : ℕ)
    → count q (xs ++ (ys ++ zs)) ≡ count q xs + (count q ys + count q zs)
append-counts xs ys zs q = omega (arith, count-append q xs (ys ++ zs), count-append q ys zs)

append-lengths :
    (xs ys zs : List ℕ) → length (xs ++ (ys ++ zs)) ≡ length xs + (length ys + length zs)
append-lengths xs ys zs = omega (arith, length-append xs (ys ++ zs), length-append ys zs)

module _ (less : ℕ → ℕ → Bool) where
  merge_pairs_step :
      (n a b : ℕ) (heads rs : List ℕ) (r : Option ℕ) (h h' h'' : Links)
      → merge_sublist less false n (some a) (some b) h ≡ some (r, h')
      → merge_pairs less n heads h' ≡ some (rs, h'')
      → merge_pairs less n (a ∷ b ∷ heads) h ≡ some (to_list r ++ rs, h'')
  unfolding merge_pairs
  merge_pairs_step n a b heads rs r h h' h'' e k = rw (e, merge_pairs) (rw k refl)

  -- A round over the heads of `rs` links the merged neighbours.
  Round : ℕ → List (List ℕ) → Links → Type 0
  Round n rs h =
      (g : Links) × (merge_pairs less n (heads_of rs) h ≡ some (heads_of (pairs less rs), g))
      × All (Linked g.next) (pairs less rs)
      × Frame (flatten rs) h.next g.next

  merge_pairs-Round :
      (n : ℕ) (rs : List (List ℕ)) (h : Links)
      → Apart rs h
      → Filled rs
      → length (flatten rs) < n
      → Round n rs h
  unfolding merge_pairs Round Returns flatten
  merge_pairs-Round n [] h p f k = (h, refl, tt, λ q c. refl)
  merge_pairs-Round n ([] ∷ rs) h p (a, f) k = absurd (omega arith)
  merge_pairs-Round n ((x ∷ xs) ∷ []) h (l, d) f k = (h, refl, l, λ q c. refl)
  merge_pairs-Round n ((x ∷ xs) ∷ [] ∷ rs) h p (a, (b, f)) k = absurd (omega arith)
  merge_pairs-Round n ((x ∷ xs) ∷ (y ∷ ys) ∷ rs) h ((lx, (ly, l)), d) (a, (b, f)) k =
      let split = append-counts (x ∷ xs) (y ∷ ys) (flatten rs) in
      let (g, e, lm, fr, _) =
        merge_sublist-Returns less false n x y xs ys h lx ly (λ q. omega (arith, d q, split q))
          (omega (arith, append-lengths (x ∷ xs) (y ∷ ys) (flatten rs))) in
      let (g', e', l', fr') =
        merge_pairs-Round n rs g
          (
            All-Linked-frame h.next g.next rs
                (λ q c. fr q (omega (arith, c, d q, split q, count-append q (x ∷ xs) (y ∷ ys)))) l,
            λ q. omega (arith, d q, split q),
          )
          f (omega (arith, append-lengths (x ∷ xs) (y ∷ ys) (flatten rs))) in
      (
        g',
        merge_pairs_step n x y (heads_of rs) _ _ h g g' e e',
        (
          Linked-frame g.next g'.next (merge less (x ∷ xs) (y ∷ ys))
              (λ q c. fr' q (omega (arith, c, d q, split q, count-merge less q (x ∷ xs) (y ∷ ys))))
              lm,
          l',
        ),
        λ q c.
            fr' q (omega (arith, c, split q))
            ∙ fr q (omega (arith, c, split q, count-append q (x ∷ xs) (y ∷ ys))),
      )

  merge_rounds_step :
      (n f : ℕ) (heads rs : List ℕ) (h h' : Links)
      → 2 < length heads
      → merge_pairs less n heads h ≡ some (rs, h')
      → merge_rounds less n (suc f) heads h ≡ merge_rounds less n f rs h'
  unfolding merge_rounds
  merge_rounds_step n f [] rs h h' k e = absurd (omega arith)
  merge_rounds_step n f (a ∷ []) rs h h' k e = absurd (omega arith)
  merge_rounds_step n f (a ∷ b ∷ []) rs h h' k e = absurd (omega arith)
  merge_rounds_step n f (a ∷ b ∷ c ∷ heads) rs h h' k e = rw (e, merge_rounds) refl

  merge_rounds_two :
      (n f a b : ℕ) (h : Links) → merge_rounds less n f (a ∷ b ∷ []) h ≡ some (a ∷ b ∷ [], h)
  unfolding merge_rounds
  merge_rounds_two n zero a b h = refl
  merge_rounds_two n (suc f) a b h = refl

  length-pairs :
      (rs : List (List ℕ))
      → (length rs ≤ length (pairs less rs) + length (pairs less rs))
        × (length (pairs less rs) + length (pairs less rs) ≤ suc (length rs))
  length-pairs [] = (omega arith, omega arith)
  length-pairs (r ∷ []) = (omega arith, omega arith)
  length-pairs (r ∷ s ∷ rs) = let (a, b) = length-pairs rs in (omega (arith, a), omega (arith, b))

  length-flatten-pairs :
      (rs : List (List ℕ)) → length (flatten (pairs less rs)) ≡ length (flatten rs)
  unfolding flatten
  length-flatten-pairs [] = refl
  length-flatten-pairs (r ∷ []) = refl
  length-flatten-pairs (r ∷ s ∷ rs) = omega (
    arith,
    length-flatten-pairs rs,
    append-lengths r s (flatten rs),
    length-merge less r s,
    length-append (merge less r s) (flatten (pairs less rs)),
  )

  -- The pointer at a linked list in order of the records of `ws`.
  unfoldable pub Sorts : List ℕ → Option (Option ℕ × Links) → Type 0
  Sorts ws o =
      (ys : List ℕ) × (g : Links) × (o ≡ some (start ys, g))
      × Linked g.next ys
      × SameRecords ws ys
      × IsOrdered less ys

  pub Sorts-to :
      (ws vs : List ℕ) (o o' : Option (Option ℕ × Links))
      → o ≡ o'
      → SameRecords ws vs
      → Sorts vs o'
      → Sorts ws o
  unfolding Sorts
  Sorts-to ws vs o o' e k (ys, g, e', l, c, i) = (ys, g, e ∙ e', l, (λ q. k q ∙ c q), i)

module _ (less : ℕ → ℕ → Bool) (asym : (a b : ℕ) → less a b ≡ true → less b a ≡ false) where
  final_merge-Sorts :
      (n x y : ℕ) (xs ys : List ℕ) (h : Links)
      → Linked h.next (x ∷ xs)
      → Linked h.next (y ∷ ys)
      → ((q : ℕ) → count q (x ∷ xs) + count q (y ∷ ys) ≤ 1)
      → IsOrdered less (x ∷ xs)
      → IsOrdered less (y ∷ ys)
      → length (x ∷ xs) + length (y ∷ ys) < n
      → Sorts less ((x ∷ xs) ++ (y ∷ ys)) (final_merge less n (some (x ∷ y ∷ [], h)))
  unfolding Returns Sorts
  final_merge-Sorts n x y xs ys h lx ly d ox oy k =
      let (g, e, l, fr, _) = merge_sublist-Returns less true n x y xs ys h lx ly d k in
      (
        merge less (x ∷ xs) (y ∷ ys),
        g,
        e,
        l,
        (λ q.
            omega (arith, count-merge less q (x ∷ xs) (y ∷ ys), count-append q (x ∷ xs) (y ∷ ys))),
        merge-IsOrdered less asym (x ∷ xs) (y ∷ ys) ox oy,
      )

  -- The rounds and the last merge, with fuel for the number of sublists.
  pub merge_rounds-Sorts :
      (n f : ℕ) (rs : List (List ℕ)) (h : Links)
      → Apart rs h
      → Filled rs
      → All (IsOrdered less) rs
      → 2 ≤ length rs
      → length rs ≤ f + 2
      → length (flatten rs) < n
      → Sorts less (flatten rs) (final_merge less n (merge_rounds less n f (heads_of rs) h))
  unfolding flatten Round
  merge_rounds-Sorts n f [] h p i o k j m = absurd (omega arith)
  merge_rounds-Sorts n f (r ∷ []) h p i o k j m = absurd (omega arith)
  merge_rounds-Sorts n f ([] ∷ s ∷ []) h p (i, _) o k j m = absurd (omega arith)
  merge_rounds-Sorts n f ((x ∷ xs) ∷ [] ∷ []) h p (_, (i, _)) o k j m = absurd (omega arith)
  merge_rounds-Sorts n f ((x ∷ xs) ∷ (y ∷ ys) ∷ []) h ((lx, (ly, _)), d) i (ox, (oy, _)) k j m =
      let split = append-counts (x ∷ xs) (y ∷ ys) [] in
      Sorts-to less _ ((x ∷ xs) ++ (y ∷ ys)) _ _
        (ap (final_merge less n) (merge_rounds_two less n f x y h))
        (λ q. omega (arith, split q, count-append q (x ∷ xs) (y ∷ ys)))
        (final_merge-Sorts n x y xs ys h lx ly (λ q. omega (arith, d q, split q)) ox oy
          (omega (arith, append-lengths (x ∷ xs) (y ∷ ys) [])))
  merge_rounds-Sorts n zero (r ∷ s ∷ t ∷ rs) h p i o k j m = absurd (omega arith)
  merge_rounds-Sorts n (suc f) (r ∷ s ∷ t ∷ rs) h p i o k j m =
      let us = r ∷ s ∷ t ∷ rs in
      let shorter = length-pairs less us in
      let (g, e, l, fr) = merge_pairs-Round less n us h p i m in
      Sorts-to less _ (flatten (pairs less us)) _ _
        (ap (final_merge less n)
          (merge_rounds_step less n f (heads_of us) _ h g (omega (arith, length-heads_of us i)) e))
        (λ q. sym (count-pairs less q us))
        (merge_rounds-Sorts n f (pairs less us) g
          (l, λ q. omega (arith, p.1 q, count-pairs less q us)) (pairs-Filled less us i)
          (pairs-IsOrdered less asym us o) (omega (arith, shorter.0)) (omega (arith, shorter.1))
          (omega (arith, length-flatten-pairs less us)))
