-- ===== src/ExportSort/Cuts.antt =====
-- What the cuts of findNaturalSublists do to the pointers.

use go_flows.Shared.{
  ℕ, ◌≤◌, ◌<◌, ◌≡◌, ◌≢◌, refl, ap, ◌∙◌, Option, none, some, List, [], ◌∷◌, ◌++◌, arith,
}
use go_flows.ExportSort.Links.{update}
use go_flows.ExportSort.Chains.{
  start, Linked, count, count-append, count_self, update_self, update_other, ne_of_count,
}

pub Linked-suffix : (f : ℕ → Option ℕ) (seg rest : List ℕ) → Linked f (seg ++ rest) → Linked f rest
Linked-suffix f [] rest l = l
Linked-suffix f (s ∷ seg) rest l = Linked-suffix f seg rest l.1

pub start-append : (seg rest : List ℕ) (v : ℕ) → start (seg ++ v ∷ rest) ≡ start (seg ++ v ∷ [])
start-append [] rest v = refl
start-append (s ∷ seg) rest v = refl

-- The list up to `v` is linked alone once `v` points at nil.
pub Linked-cut :
    (f : ℕ → Option ℕ) (seg rest : List ℕ) (v : ℕ)
    → Linked f (seg ++ v ∷ rest)
    → count v seg ≡ 0
    → Linked (update f v none) (seg ++ v ∷ [])
Linked-cut f [] rest v l k = (update_self f v none, tt)
Linked-cut f (s ∷ seg) rest v (e, l) k = (
  update_other f v s none (ne_of_count v s (s ∷ seg) k (omega (arith, count_self s seg)))
      ∙ e
      ∙ start-append seg rest v,
  Linked-cut f seg rest v l (omega arith),
)

-- What a cut between two records in the wrong order does to the pointers.
pub reversed-frame :
    (f : ℕ → Option ℕ) (v p : ℕ) (xs : List ℕ) (q : ℕ)
    → count q (v ∷ p ∷ xs) ≡ 0
    → (update (update f p (some v)) v none q ≡ f q) × (count q xs ≡ 0)
reversed-frame f v p xs q c = (ground arith, omega arith)

pub distinct-heads : (v p : ℕ) (xs : List ℕ) → ((q : ℕ) → count q (v ∷ p ∷ xs) ≤ 1) → v ≢ p
distinct-heads v p xs d e =
    absurd
      (omega (arith, d p, count_self p xs, count_self p (p ∷ xs), ap (λ r. count p (r ∷ p ∷ xs)) e))

pub reversed-Linked :
    (f : ℕ → Option ℕ) (v p : ℕ) → v ≢ p → Linked (update (update f p (some v)) v none) (p ∷ v ∷ [])
reversed-Linked f v p n = (
  update_other (update f p (some v)) v p none n ∙ update_self f p (some v),
  (update_self (update f p (some v)) v none, tt),
)

pub count-zero_of_distinct :
    (seg : List ℕ) (v : ℕ) (rest : List ℕ)
    → ((q : ℕ) → count q (seg ++ v ∷ rest) ≤ 1)
    → (count v seg ≡ 0) × (count v rest ≡ 0)
count-zero_of_distinct seg v rest d =
    let a = count-append v seg (v ∷ rest) in
    (omega (arith, d v, a, count_self v rest), omega (arith, d v, a, count_self v rest))

pub ended-frame :
    (f : ℕ → Option ℕ) (seg : List ℕ) (v : ℕ) (rest : List ℕ) (q : ℕ)
    → count q (seg ++ v ∷ rest) ≡ 0
    → (update f v none q ≡ f q) × (count q rest ≡ 0)
ended-frame f seg v rest q c =
    let a = count-append q seg (v ∷ rest) in
    (
      update_other f v q none
          (λ e. absurd (omega (arith, c, a, ap (λ r. count r (v ∷ rest)) e, count_self v rest))),
      omega (arith, c, a),
    )

pub ended-apart :
    (seg : List ℕ) (v : ℕ) (rest : List ℕ) (q : ℕ)
    → ((q : ℕ) → count q (seg ++ v ∷ rest) ≤ 1)
    → 0 < count q (seg ++ v ∷ [])
    → count q rest ≡ 0
ended-apart seg v rest q d c =
    omega (arith, c, d q, count-append q seg (v ∷ rest), count-append q seg (v ∷ []))
