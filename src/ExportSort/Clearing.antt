-- ===== src/ExportSort/Clearing.antt =====
-- flows/exporter.go: the end of the last merge, which clears the pointers back.
use go_flows.Shared.{
  ℕ, zero, suc, ◌+◌, ◌≤◌, ◌<◌, ◌≡◌, ◌≢◌, refl, sym, ap, ◌∙◌, subst, Bool, true, false, Option, none,
  some, List, [], ◌∷◌, length, arith, inl, inr,
}
use go_flows.ExportSort.Links.{Links, set_prev, update}
use go_flows.ExportSort.Sublists.{attach, clear_prev, close_list, fix_prev}
use go_flows.ExportSort.Chains.{
  start, Linked, count, last_of, count-cases, cleared_self, cleared_other, update_self,
  update_other, ne_head,
}

-- The pointers back of the records of `us` are nil in `g`, and the others are as in `p`.
abbrev pub Cleared : List ℕ → (ℕ → Option ℕ) → (ℕ → Option ℕ) → Type 0
Cleared us p g = ((q : ℕ) → 0 < count q us → g q ≡ none) × ((q : ℕ) → count q us ≡ 0 → g q ≡ p q)

Cleared-cons :
    (x : ℕ) (us : List ℕ) (p g : ℕ → Option ℕ)
    → Cleared us (update p x none) g
    → Cleared (x ∷ us) p g
Cleared-cons x us p g (c, k) = (
  (λ q m. elim (count-cases q us) [ inl l ↦ k q l ∙ cleared_self p x q us m l | inr l ↦ c q l ]),
  (λ q m. k q (omega arith) ∙ cleared_other p x q us m),
)

-- The loops that clear the pointers back end at the last record, and leave the pointers forward.
clear_prev-Cleared :
    (n t : ℕ) (us : List ℕ) (h : Links) (f : ℕ → Option ℕ)
    → h.next ≡ f
    → Linked f us
    → length us < n
    → (g : Links) × (clear_prev n (start us) (some t) h ≡ some (some (last_of t us), g))
      × (g.next ≡ f)
      × Cleared us h.prev g.prev
unfolding clear_prev
clear_prev-Cleared zero t us h f E l k = absurd (omega arith)
clear_prev-Cleared (suc n) t [] h f E l k =
    (h, refl, E, ((λ q c. absurd (omega arith)), (λ q c. refl)))
clear_prev-Cleared (suc n) t (x ∷ us) h f E (e, l) k =
    let (g, c, d, m) = clear_prev-Cleared n x us (set_prev x none h) f E l (omega arith) in
    (
      g,
      subst (λ p. clear_prev n p (some x) (set_prev x none h) ≡ some (some (last_of x us), g))
          (sym (ap (λ k. k x) E ∙ e)) c,
      d,
      Cleared-cons x us h.prev g.prev m,
    )

-- The pointers back before and after, where `zs` is returned: only the last merge writes any. After it that
-- of the first record is at the last one, and those of the other records of the list are nil.
abbrev pub Backs : Bool → List ℕ → (ℕ → Option ℕ) → (ℕ → Option ℕ) → Type 0
Backs false zs p g = (q : ℕ) → g q ≡ p q
Backs true [] p g = (q : ℕ) → g q ≡ p q
Backs true (r ∷ zs) p g =
    (g r ≡ some (last_of r zs))
    × ((q : ℕ) → r ≢ q → 0 < count q zs → g q ≡ none)
    × ((q : ℕ) → count q (r ∷ zs) ≡ 0 → g q ≡ p q)

pub attach-prev : (a b tail : Option ℕ) (h : Links) → (attach a b tail h).prev ≡ h.prev
attach-prev none none tail h = refl
attach-prev (some x) none none h = refl
attach-prev (some x) none (some t) h = refl
attach-prev none (some y) none h = refl
attach-prev none (some y) (some t) h = refl
attach-prev (some x) (some y) none h = refl
attach-prev (some x) (some y) (some t) h = refl

fix_prev_steps :
    (n : ℕ) (a b ret tail t t' : Option ℕ) (h g g' : Links)
    → clear_prev n a tail h ≡ some (t, g)
    → clear_prev n b t g ≡ some (t', g')
    → fix_prev n a b ret tail h ≡ some (ret, close_list ret t' g')
unfolding fix_prev
fix_prev_steps n a b ret tail t t' h g g' c d = rw (c, fix_prev) (rw d refl)

pub fix_prev-Cleared :
    (n r t : ℕ) (us vs : List ℕ) (h : Links)
    → Linked h.next us
    → Linked h.next vs
    → length us < n
    → length vs < n
    → (g : Links) × (k : ℕ → Option ℕ) × (fix_prev n (start us) (start vs) (some r) (some t) h
        ≡ some (some r, set_prev r (some (last_of (last_of t us) vs)) g))
      × (g.next ≡ h.next)
      × Cleared us h.prev k
      × Cleared vs k g.prev
fix_prev-Cleared n r t us vs h lu lv ku kv =
    let (g, c, d, m) = clear_prev-Cleared n t us h h.next refl lu ku in
    let (g', c', d', m') = clear_prev-Cleared n (last_of t us) vs g h.next d lv kv in
    (
      g',
      g.prev,
      fix_prev_steps n (start us) (start vs) (some r) (some t) _ _ h g g' c c',
      d',
      m,
      m',
    )

-- The pointers back after the loop and the lines that follow it.
pub Backs-last :
    (r e : ℕ) (zs us vs : List ℕ) (p p' p'' k g : ℕ → Option ℕ)
    → ((q : ℕ) → count q us + count q vs ≤ count q zs)
    → ((q : ℕ) → r ≢ q → p' q ≡ p q)
    → ((q : ℕ) → count q zs ≡ 0 → p'' q ≡ p' q)
    → ((q : ℕ) → 0 < count q zs → count q us + count q vs ≡ 0 → p'' q ≡ none)
    → Cleared us p'' k
    → Cleared vs k g
    → e ≡ last_of r zs
    → Backs true (r ∷ zs) p (update g r (some e))
Backs-last r e zs us vs p p' p'' k g c o fr cl (cu, ku) (cv, kv) el = (
  update_self g r (some e) ∙ ap (λ z. some z) el,
  (λ q n m. update_other g r q (some e) n ∙ elim (count-cases q vs) [
    | inr l ↦ cv q l
    | inl l ↦
        kv q l ∙ elim (count-cases q us) [ inr j ↦ cu q j | inl j ↦ ku q j ∙ cl q m (omega arith) ]
  ]),
  (λ q m.
      let n = ne_head r q zs m in
      update_other g r q (some e) n
      ∙ kv q (omega (arith, c q, m))
      ∙ ku q (omega (arith, c q, m))
      ∙ fr q (omega (arith, m))
      ∙ o q n),
)
