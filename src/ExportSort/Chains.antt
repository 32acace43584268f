-- ===== src/ExportSort/Chains.antt =====
-- Linked lists by pointers: a chain of records, how often a record stands in a list, and frames.
use go_flows.Shared.{
  ℕ, zero, suc, refl, ◌⊎◌, ◌+◌, ◌≤◌, ◌<◌, ◌≡◌, ◌≢◌, ap, ◌∙◌, Bool, Option, none, some, List, [],
  ◌∷◌, ◌++◌, ◌==◌, if◌then◌else◌, arith, merge, merge_left, merge_right, Bool-cases, inl, inr,
}
use go_flows.ExportSort.Links.{update}

-- The pointer at the first record of a list.
abbrev pub start : List ℕ → Option ℕ
start [] = none
start (x ∷ _) = some x

-- Each record of `xs` points at the one after it, and the last one's pointer is nil.
abbrev pub Linked : (ℕ → Option ℕ) → List ℕ → Type 0
Linked next [] = Unit
Linked next (x ∷ xs) = (next x ≡ start xs) × Linked next xs

abbrev pub count : ℕ → List ℕ → ℕ
count q [] = 0
count q (x ∷ xs) = (if x == q then 1 else 0) + count q xs

-- No record stands in the list twice.
abbrev pub Distinct : List ℕ → Type 0
Distinct xs = (q : ℕ) → count q xs ≤ 1

abbrev pub SameRecords : List ℕ → List ℕ → Type 0
SameRecords xs ys = (q : ℕ) → count q xs ≡ count q ys

-- Only pointers of the records of `xs` differ.
abbrev pub Frame : List ℕ → (ℕ → Option ℕ) → (ℕ → Option ℕ) → Type 0
Frame xs f g = (q : ℕ) → count q xs ≡ 0 → g q ≡ f q

pub count-append : (q : ℕ) (xs ys : List ℕ) → count q (xs ++ ys) ≡ count q xs + count q ys
count-append q [] ys = omega arith
count-append q (x ∷ xs) ys = omega (arith, count-append q xs ys)

pub count_self : (x : ℕ) (xs : List ℕ) → count x (x ∷ xs) ≡ suc (count x xs)
count_self x xs = ground arith

-- A linked list is kept where the pointers of its records are.
pub Linked-frame :
    (f g : ℕ → Option ℕ) (xs : List ℕ)
    → ((q : ℕ) → 0 < count q xs → g q ≡ f q)
    → Linked f xs
    → Linked g xs
Linked-frame f g [] h c = tt
Linked-frame f g (x ∷ xs) h (e, c) =
    (h x (omega (arith, count_self x xs)) ∙ e, Linked-frame f g xs (λ q k. h q (omega arith)) c)

pub update_self : (f : ℕ → Option ℕ) (p : ℕ) (v : Option ℕ) → update f p v p ≡ v
update_self f p v = ground arith

pub update_other : (f : ℕ → Option ℕ) (p q : ℕ) (v : Option ℕ) → p ≢ q → update f p v q ≡ f q
update_other f p q v n = ground arith

pub ne_of_count : (p q : ℕ) (xs : List ℕ) → count p xs ≡ 0 → 0 < count q xs → p ≢ q
ne_of_count p q xs h k e = absurd (omega (arith, ap (λ r. count r xs) e))

pub ne_head : (r q : ℕ) (xs : List ℕ) → count q (r ∷ xs) ≡ 0 → r ≢ q
ne_head r q xs h e = absurd (omega (arith, count_self r xs, ap (λ z. count z (r ∷ xs)) e))

-- A write to a record outside of a list keeps it.
pub Linked-update :
    (f : ℕ → Option ℕ) (p : ℕ) (v : Option ℕ) (xs : List ℕ)
    → count p xs ≡ 0
    → Linked f xs
    → Linked (update f p v) xs
Linked-update f p v xs n c =
    Linked-frame f (update f p v) xs (λ q k. update_other f p q v (ne_of_count p q xs n k)) c

-- The last record of a list, or `t`.
abbrev pub last_of : ℕ → List ℕ → ℕ
last_of t [] = t
last_of t (x ∷ xs) = last_of x xs

zero-cases : (n : ℕ) → (n ≡ 0) ⊎ (0 < n)
zero-cases zero = inl refl
zero-cases (suc n) = inr (omega arith)

pub count-cases : (q : ℕ) (xs : List ℕ) → (count q xs ≡ 0) ⊎ (0 < count q xs)
count-cases q xs = zero-cases (count q xs)

-- A pointer that is set to nil, and the others.
pub cleared_self :
    (f : ℕ → Option ℕ) (x q : ℕ) (xs : List ℕ)
    → 0 < count q (x ∷ xs)
    → count q xs ≡ 0
    → update f x none q ≡ none
cleared_self f x q xs k l = ground arith

pub cleared_other :
    (f : ℕ → Option ℕ) (x q : ℕ) (xs : List ℕ) → count q (x ∷ xs) ≡ 0 → update f x none q ≡ f q
cleared_other f x q xs k = ground arith

pub count-merge :
    (less : ℕ → ℕ → Bool) (q : ℕ) (xs ys : List ℕ)
    → count q (merge less xs ys) ≡ count q xs + count q ys
unfolding merge
count-merge less q [] ys = omega arith
count-merge less q (x ∷ xs) [] = omega arith
count-merge less q (x ∷ xs) (y ∷ ys) = elim (Bool-cases (less x y)) [
  | inl e ↦ rw (merge_left less x y xs ys e) (omega (arith, count-merge less q xs (y ∷ ys)))
  | inr e ↦ rw (merge_right less x y xs ys e) (omega (arith, count-merge less q (x ∷ xs) ys))
]
