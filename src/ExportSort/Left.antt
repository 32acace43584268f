-- ===== src/ExportSort/Left.antt =====
-- flows/exporter.go: what the rounds of mergeSublist leave, and how they change the pointers.
use go_flows.Shared.{
  ℕ, ◌+◌, ◌≤◌, ◌<◌, ◌≡◌, refl, sym, ap, ◌∙◌, subst, Bool, true, false, Option, none, some, List, [],
  ◌∷◌, if◌then◌else◌, length, arith, inl, inr,
}
use go_flows.ExportSort.Links.{Links, update, set_next, set_prev}
use go_flows.ExportSort.Sublists.{Merging}
use go_flows.ExportSort.Chains.{
  start, Linked, count, Linked-update, last_of, count-cases, cleared_self, cleared_other,
}

-- What the loop has left is linked too, and short of the fuel.
abbrev pub Rest : ℕ → (ℕ → Option ℕ) → Option ℕ → Type 0
Rest n g a = (us : List ℕ) × (a ≡ start us) × Linked g us × (length us < n)

-- What the loop leaves of the pointers back, by its tail `t`, the records `zs` that come after it, and the
-- records that are left: of the last merge those of the records taken are nil.
abbrev pub Back : Bool → ℕ → List ℕ → Links → Merging → List ℕ → List ℕ → Type 0
Back false t zs h s us vs = (q : ℕ) → s.links.prev q ≡ h.prev q
Back true t zs h s us vs =
    ((q : ℕ) → count q us + count q vs ≤ count q zs)
    × ((q : ℕ) → count q zs ≡ 0 → s.links.prev q ≡ h.prev q)
    × ((q : ℕ) → 0 < count q zs → count q us + count q vs ≡ 0 → s.links.prev q ≡ none)
    × ((e : ℕ) × (s.tail ≡ some e) × (last_of (last_of e us) vs ≡ last_of t zs))

pub next-if :
    (b : Bool) (p : ℕ) (v : Option ℕ) (h : Links) → (if b then set_prev p v h else h).next ≡ h.next
next-if true p v h = refl
next-if false p v h = refl

-- The links after a round that took `x`.
abbrev pub taken : Bool → ℕ → ℕ → Links → Links
taken last t x h = set_next t (some x) (if last then set_prev x none h else h)

pub taken-next :
    (last : Bool) (t x : ℕ) (h : Links) → (taken last t x h).next ≡ update h.next t (some x)
taken-next last t x h = ap (λ g. update g t (some x)) (next-if last x none h)

pub taken-Linked :
    (last : Bool) (t x : ℕ) (us : List ℕ) (h : Links)
    → count t us ≡ 0
    → Linked h.next us
    → Linked (taken last t x h).next us
taken-Linked last t x us h k l =
    subst (λ g. Linked g us) (sym (taken-next last t x h)) (Linked-update h.next t (some x) us k l)

pub Back-step :
    (last : Bool) (t x : ℕ) (zs : List ℕ) (h : Links) (s : Merging) (us vs : List ℕ)
    → Back last x zs (taken last t x h) s us vs
    → Back last t (x ∷ zs) h s us vs
Back-step false t x zs h s us vs b = b
Back-step true t x zs h s us vs (c, fr, cl, tl) = (
  (λ q. omega (arith, c q)),
  (λ q k. fr q (omega arith) ∙ cleared_other h.prev x q zs k),
  (λ q k l. elim (count-cases q zs) [
    | inl m ↦ fr q m ∙ cleared_self h.prev x q zs k m
    | inr m ↦ cl q m l
  ]),
  tl,
)

pub Back-left :
    (last : Bool) (t : ℕ) (ys : List ℕ) (h : Links) (r : Option ℕ)
    → Back last t ys h (record { links = h; a = none; b = start ys; ret = r; tail = some t }) [] ys
Back-left false t ys h r = λ q. refl
Back-left true t ys h r =
    ((λ q. omega arith), (λ q k. refl), (λ q k l. absurd (omega arith)), (t, refl, refl))

pub Back-right :
    (last : Bool) (t : ℕ) (xs : List ℕ) (h : Links) (r : Option ℕ)
    → Back last t xs h (record { links = h; a = start xs; b = none; ret = r; tail = some t }) xs []
Back-right false t xs h r = λ q. refl
Back-right true t xs h r =
    ((λ q. omega arith), (λ q k. refl), (λ q k l. absurd (omega arith)), (t, refl, refl))
