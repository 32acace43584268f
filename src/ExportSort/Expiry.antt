-- ===== src/ExportSort/Expiry.antt =====
-- flows/exporter.go: sortWorker with lessExpiry, the comparison that it uses.
use go_flows.Shared.{ℕ, ◌+◌, ◌≤◌, ◌<◌, ◌≡◌, ◌⊎◌, inl, inr, Bool, true, false, List, ◌∷◌, length}
use go_flows.ExportOrder.{ExportKey, less_expiry, less_expiry-linear}
use go_flows.ExportSort.Links.{Links}
use go_flows.ExportSort.Worker.{sort_batch}
use go_flows.ExportSort.Chains.{Linked, count}
use go_flows.ExportSort.Rounds.{Sorts}
use go_flows.ExportSort.Single.{loses}
use go_flows.ExportSort.Batch.{sort_batch-Sorts}

-- The records in the heap compared by their keys.
abbrev pub earlier : (ℕ → ExportKey) → ℕ → ℕ → Bool
earlier keys a b = less_expiry (keys a) (keys b)

asym_of : {a b : Bool} → a ≡ false → (b ≡ false) ⊎ (a ≡ true) → b ≡ false
asym_of e (inl h) = h
asym_of e (inr h) = absurd (cc)

earlier_asym : (keys : ℕ → ExportKey) (a b : ℕ) → earlier keys a b ≡ true → earlier keys b a ≡ false
earlier_asym keys a b h =
    let (same, _, through) = less_expiry-linear (keys a) (keys b) (keys a) in
    elim through [ inl e ↦ absurd (cc) | inr k ↦ asym_of same k ]

-- sortWorker by the keys of the records: for a linked list in which no record stands twice, with more fuel
-- than twice its length, the pointer it sends is at a linked list of the same records, as often, in which
-- the key of no record is before that of the one in front of it by lessExpiry. The list of exactly two
-- records of which the first is not before the second is left out.
pub sort_batch-earlier :
    (keys : ℕ → ExportKey) (n x : ℕ) (xs : List ℕ) (h : Links)
    → Linked h.next (x ∷ xs)
    → ((q : ℕ) → count q (x ∷ xs) ≤ 1)
    → length (x ∷ xs) + length (x ∷ xs) < n
    → loses (earlier keys) (x ∷ xs) ≡ false
    → Sorts (earlier keys) (x ∷ xs) (sort_batch (earlier keys) n x h)
sort_batch-earlier keys n x xs h l d m k =
    sort_batch-Sorts (earlier keys) (earlier_asym keys) n x xs h l d m k
