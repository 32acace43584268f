-- ===== src/ExportList/Ring.antt =====
-- flows/export.go: what unlink and insert do to a ring of export records.

use go_flows.Shared.{
  ℕ, ◌≤◌, ◌<◌, ◌≡◌, ◌≢◌, sym, ap, ◌∙◌, subst, Option, none, some, List, [], ◌∷◌, ◌++◌, arith,
}
use go_flows.ExportSort.Links.{Links, update, set_next, set_prev}
use go_flows.ExportSort.Chains.{
  count, count-append, count_self, update_self, update_other, ne_of_count,
}
use go_flows.ExportList.{skip_forward, skip_back, unlink, insert_before, insert}

-- From `a` the pointers lead over the records of `xs` to `b`, and back.
unfoldable pub Chain : Links → ℕ → List ℕ → ℕ → Type 0
Chain h a [] b = (h.next a ≡ some b) × (h.prev b ≡ some a)
Chain h a (x ∷ xs) b = (h.next a ≡ some x) × (h.prev x ≡ some a) × Chain h x xs b

-- The ring of a head.
abbrev pub Ring : Links → ℕ → List ℕ → Type 0
Ring h t xs = Chain h t xs t

Chain-frame :
    (h g : Links) (a : ℕ) (xs : List ℕ) (b : ℕ)
    → ((q : ℕ) → 0 < count q (a ∷ xs) → g.next q ≡ h.next q)
    → ((q : ℕ) → 0 < count q (b ∷ xs) → g.prev q ≡ h.prev q)
    → Chain h a xs b
    → Chain g a xs b
unfolding Chain
Chain-frame h g a [] b n p (e, k) =
    (n a (omega (arith, count_self a [])) ∙ e, p b (omega (arith, count_self b [])) ∙ k)
Chain-frame h g a (x ∷ xs) b n p (e, k, c) = (
  n a (omega (arith, count_self a (x ∷ xs))) ∙ e,
  p x (omega (arith, count_self x xs)) ∙ k,
  Chain-frame h g x xs b (λ q i. n q (omega arith)) (λ q i. p q (omega arith)) c,
)

ne_first : (e t : ℕ) (xs : List ℕ) → ((q : ℕ) → count q (e ∷ t ∷ xs) ≤ 1) → e ≢ t
ne_first e t xs d h =
    absurd
      (omega (arith, d t, count_self t xs, count_self t (t ∷ xs), ap (λ r. count t (r ∷ t ∷ xs)) h))

update_inner :
    (f : ℕ → Option ℕ) (p e : ℕ) (v w : Option ℕ) → e ≢ p → update (update f p v) e w p ≡ v
update_inner f p e v w n = update_other (update f p v) e p w n ∙ update_self f p v

update_outer :
    (f : ℕ → Option ℕ) (p e q : ℕ) (v w : Option ℕ)
    → p ≢ q
    → e ≢ q
    → update (update f p v) e w q ≡ f q
update_outer f p e q v w m n = update_other (update f p v) e q w n ∙ update_other f p q v m

-- `insert` of a record that is not in the ring behind the head: it does not panic, and the record is
-- the first of the ring, in front of the others.
pub insert-Ring :
    (h : Links) (t e : ℕ) (xs : List ℕ)
    → Ring h t xs
    → ((q : ℕ) → count q (e ∷ t ∷ xs) ≤ 1)
    → (g : Links) × (insert e t h ≡ some g) × Ring g t (e ∷ xs)
unfolding insert Chain
insert-Ring h t e [] (en, ep) d =
    let ne = ne_first e t [] d in
    (
      _,
      ap (λ o. insert_before e t o h) en,
      (
        update_inner h.next t e (some e) (some t) ne,
        update_inner h.prev e t (some t) (some e) (λ k. ne (sym k)),
        (
          update_self (update h.next t (some e)) e (some t),
          update_self (update h.prev e (some t)) t (some e),
        ),
      ),
    )
insert-Ring h t e (x ∷ xs) (en, ep, c) d =
    let ne = ne_first e t (x ∷ xs) d in
    let once = count_self e (t ∷ x ∷ xs) in
    let e_out : count e (x ∷ xs) ≡ 0 = omega (arith, d e, once) in
    let e_out' : count e (t ∷ xs) ≡ 0 = omega (arith, d e, once) in
    let t_out : count t (x ∷ xs) ≡ 0 = omega (arith, d t, count_self t (x ∷ xs)) in
    let x_out : count x (t ∷ xs) ≡ 0 = omega (arith, d x, count_self x xs) in
    let first_out : count x (e ∷ []) ≡ 0 = omega (arith, d x, count_self x xs) in
    (
      _,
      ap (λ o. insert_before e t o h) en,
      (
        update_inner h.next t e (some e) (some x) ne,
        update_inner h.prev e x (some t) (some e)
            (ne_of_count x e (e ∷ []) first_out (omega (arith, count_self e []))),
        (
          update_self (update h.next t (some e)) e (some x),
          update_self (update h.prev e (some t)) x (some e),
          Chain-frame h _ x xs t
              (λ q k.
                update_outer h.next t e q (some e) (some x) (ne_of_count t q (x ∷ xs) t_out k)
                  (ne_of_count e q (x ∷ xs) e_out k))
              (λ q k.
                update_outer h.prev e x q (some t) (some e) (ne_of_count e q (t ∷ xs) e_out' k)
                  (ne_of_count x q (t ∷ xs) x_out k))
              c,
        ),
      ),
    )

-- The record in front of `e` is one of the chain before it, and the one behind it one after.
prev-in :
    (h : Links) (a : ℕ) (xs : List ℕ) (e : ℕ) (ys : List ℕ) (b : ℕ)
    → Chain h a (xs ++ e ∷ ys) b
    → (p : ℕ) × (h.prev e ≡ some p) × (h.next p ≡ some e) × (0 < count p (a ∷ xs))
unfolding Chain
prev-in h a [] e ys b (i, j, c) = (a, j, i, omega (arith, count_self a []))
prev-in h a (x ∷ xs) e ys b (i, j, c) =
    let (p, k, l, m) = prev-in h x xs e ys b c in (p, k, l, omega arith)

next-in :
    (h : Links) (e : ℕ) (ys : List ℕ) (b : ℕ)
    → Chain h e ys b
    → (n : ℕ) × (h.next e ≡ some n) × (h.prev n ≡ some e) × (0 < count n (b ∷ ys))
unfolding Chain
next-in h e [] b (i, j) = (b, i, j, omega (arith, count_self b []))
next-in h e (y ∷ ys) b (i, j, c) = (y, i, j, omega (arith, count_self y ys))

Chain-suffix :
    (h : Links) (a : ℕ) (xs : List ℕ) (e : ℕ) (ys : List ℕ) (b : ℕ)
    → Chain h a (xs ++ e ∷ ys) b
    → Chain h e ys b
unfolding Chain
Chain-suffix h a [] e ys b (i, j, c) = c
Chain-suffix h a (x ∷ xs) e ys b (i, j, c) = Chain-suffix h x xs e ys b c

some_same : {p q : ℕ} {o : Option ℕ} → o ≡ some p → o ≡ some q → p ≡ q
some_same i j = cc

-- The chain without `e`, where its neighbours point at each other.
Chain-without :
    (h g : Links) (a : ℕ) (xs : List ℕ) (e : ℕ) (ys : List ℕ) (b p n : ℕ)
    → Chain h a (xs ++ e ∷ ys) b
    → h.prev e ≡ some p
    → h.next e ≡ some n
    → g.next p ≡ some n
    → g.prev n ≡ some p
    → ((q : ℕ) → q ≢ p → q ≢ e → g.next q ≡ h.next q)
    → ((q : ℕ) → q ≢ n → q ≢ e → g.prev q ≡ h.prev q)
    → ((q : ℕ) → count q (a ∷ xs ++ e ∷ ys) ≤ 1)
    → ((q : ℕ) → count q (b ∷ xs ++ e ∷ ys) ≤ 1)
    → Chain g a (xs ++ ys) b
unfolding Chain
Chain-without h g a [] e [] b p n (i, j, (k, l)) ep en gn gp fn fp d d' =
    let pa = some_same j ep in let nb = some_same k en in (cc, cc)
Chain-without h g a [] e (y ∷ ys) b p n (i, j, (k, l, c)) ep en gn gp fn fp d d' =
    let pa = some_same j ep in
    let nb = some_same k en in
    let a_out : count a (y ∷ ys) ≡ 0 = omega (arith, d a, count_self a (e ∷ y ∷ ys)) in
    let e_out : count e (y ∷ ys) ≡ 0 = omega (arith, d e, count_self e (y ∷ ys)) in
    let e_out' : count e (b ∷ ys) ≡ 0 = omega (arith, d' e, count_self e (y ∷ ys)) in
    let y_out : count y (b ∷ ys) ≡ 0 = omega (arith, d' y, count_self y ys) in
    (
      cc,
      cc,
      Chain-frame h g y ys b
          (λ q m.
            fn q (λ z. ne_of_count a q (y ∷ ys) a_out m (pa ∙ sym z))
              (λ z. ne_of_count e q (y ∷ ys) e_out m (sym z)))
          (λ q m.
            fp q (λ z. ne_of_count y q (b ∷ ys) y_out m (nb ∙ sym z))
              (λ z. ne_of_count e q (b ∷ ys) e_out' m (sym z)))
          c,
    )
Chain-without h g a (x ∷ xs) e ys b p n (i, j, c) ep en gn gp fn fp d d' =
    let (p', ep', np', m) = prev-in h x xs e ys b c in
    let (n', en', nn', m') = next-in h e ys b (Chain-suffix h x xs e ys b c) in
    let pp = some_same ep' ep in
    let nn = some_same en' en in
    let split = λ (q : ℕ). count-append q xs (e ∷ ys) in
    let a_out : count a (x ∷ xs) ≡ 0 =
      omega (arith, d a, split a, count_self a (x ∷ xs ++ e ∷ ys)) in
    let a_out' : count a (e ∷ ys) ≡ 0 =
      omega (arith, d a, split a, count_self a (x ∷ xs ++ e ∷ ys)) in
    let x_out : count x (b ∷ ys) ≡ 0 = omega (arith, d' x, split x, count_self x (xs ++ e ∷ ys)) in
    let x_out' : count x (e ∷ ys) ≡ 0 = omega (arith, d' x, split x, count_self x (xs ++ e ∷ ys)) in
    let e_in : 0 < count e (e ∷ ys) = omega (arith, count_self e ys) in
    (
      fn a (λ z. ne_of_count a p' (x ∷ xs) a_out m (z ∙ sym pp))
            (ne_of_count a e (e ∷ ys) a_out' e_in)
          ∙ i,
      fp x (λ z. ne_of_count x n' (b ∷ ys) x_out m' (z ∙ sym nn))
            (ne_of_count x e (e ∷ ys) x_out' e_in)
          ∙ j,
      Chain-without h g x xs e ys b p n c ep en gn gp fn fp (λ q. omega (arith, d q))
          (λ q. omega (arith, d' q)),
    )

unlink_steps :
    (h : Links) (e p n : ℕ)
    → h.prev e ≡ some p
    → h.next e ≡ some n
    → p ≢ e
    → unlink e h ≡ set_next e none (set_prev e none (set_prev n (some p) (set_next p (some n) h)))
unfolding unlink
unlink_steps h e p n i j k =
    let g = set_next p (some n) h in
    let forward : skip_forward e (h.prev e) h ≡ g =
      ap (λ o. skip_forward e o h) i ∙ ap (λ o. set_next p o h) j in
    ap (λ f. set_next e none (set_prev e none (skip_back e (f.next e) f))) forward
    ∙ ap (λ o. set_next e none (set_prev e none (skip_back e o g)))
        (update_other h.next p e (some n) k ∙ j)
    ∙ ap (λ o. set_next e none (set_prev e none (set_prev n o g))) i

-- `unlink` of a record that stands in the ring of a head, once: the ring is that of the other records,
-- and the pointers of the record are nil.
pub unlink-Ring :
    (h : Links) (t e : ℕ) (xs ys : List ℕ)
    → Ring h t (xs ++ e ∷ ys)
    → ((q : ℕ) → count q (t ∷ xs ++ e ∷ ys) ≤ 1)
    → Ring (unlink e h) t (xs ++ ys) × ((unlink e h).next e ≡ none) × ((unlink e h).prev e ≡ none)
unlink-Ring h t e xs ys c d =
    let (p, i, i', m) = prev-in h t xs e ys t c in
    let (n, j, j', m') = next-in h e ys t (Chain-suffix h t xs e ys t c) in
    let split = count-append e xs (e ∷ ys) in
    let once = count_self e ys in
    let not_p = ne_of_count e p (t ∷ xs) (omega (arith, d e, split, once)) m in
    let not_n = ne_of_count e n (t ∷ ys) (omega (arith, d e, split, once)) m' in
    let g = set_next e none (set_prev e none (set_prev n (some p) (set_next p (some n) h))) in
    subst (λ u. Ring u t (xs ++ ys) × (u.next e ≡ none) × (u.prev e ≡ none))
      (sym (unlink_steps h e p n i j (λ z. not_p (sym z))))
      (
        Chain-without h g t xs e ys t p n c i j (update_inner h.next p e (some n) none not_p)
            (update_inner h.prev n e (some p) none not_n)
            (λ q a b. update_outer h.next p e q (some n) none (λ z. a (sym z)) (λ z. b (sym z)))
            (λ q a b. update_outer h.prev n e q (some p) none (λ z. a (sym z)) (λ z. b (sym z))) d
            d,
        update_self (update h.next p (some n)) e none,
        update_self (update h.prev n (some p)) e none,
      )
