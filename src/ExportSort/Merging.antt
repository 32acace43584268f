-- ===== src/ExportSort/Merging.antt =====
-- flows/exporter.go: the loop of mergeSublist, after its first round.
use go_flows.Shared.{
  ℕ, zero, suc, ◌+◌, ◌≤◌, ◌<◌, ◌≡◌, refl, sym, ap, ◌∙◌, subst, Bool, true, false, Option, none,
  some, List, [], ◌∷◌, ◌++◌, if◌then◌else◌, length, arith, merge, merge_left, merge_right,
  merge-nil, nil-merge, Bool-cases, inl, inr, if_true, if_false,
}
use go_flows.ExportSort.Links.{Links, update}
use go_flows.ExportSort.Left.{
  Rest, Back, taken, taken-next, taken-Linked, Back-step, Back-left, Back-right,
}
use go_flows.ExportSort.Sublists.{Merging, merge_loop, attach}
use go_flows.ExportSort.Chains.{
  start, Linked, count, Frame, count-append, count_self, update_self, update_other, Linked-update,
}

-- A loop that returns from the links `h`, with `r` as the result and `zs` linked behind `t`, if what is left is attached.
unfoldable pub Merged : Bool → ℕ → ℕ → ℕ → List ℕ → List ℕ → Links → Option Merging → Type 0
Merged last n r t zs ws h o =
    (s : Merging) × (o ≡ some s)
    × (s.ret ≡ some r)
    × Linked (attach s.a s.b s.tail s.links).next (t ∷ zs)
    × Frame ws h.next (attach s.a s.b s.tail s.links).next
    × ((ra : Rest n (attach s.a s.b s.tail s.links).next s.a) × (rb : Rest n
          (attach s.a s.b s.tail s.links).next s.b)
        × Back last t zs h s ra.0 rb.0)

Frame-update :
    (f : ℕ → Option ℕ) (t : ℕ) (v : Option ℕ) (ws : List ℕ) → Frame (t ∷ ws) f (update f t v)
Frame-update f t v ws q k =
    update_other f t q v
      (λ e. absurd (omega (arith, count_self t ws, ap (λ r. count r (t ∷ ws)) e)))

-- One more record in front.
Merged-step :
    (last : Bool) (n r t x : ℕ) (zs ws : List ℕ) (h : Links) (o : Option Merging)
    → count t ws ≡ 0
    → Merged last n r x zs ws (taken last t x h) o
    → Merged last n r t (x ∷ zs) (t ∷ ws) h o
unfolding Merged
Merged-step last n r t x zs ws h o k (s, e, er, l, fr, (ra, rb, back)) =
    let fr' =
      subst (λ f. Frame ws f (attach s.a s.b s.tail s.links).next) (taken-next last t x h) fr in
    (
      s,
      e,
      er,
      (fr' t k ∙ update_self h.next t (some x), l),
      (λ q m. fr' q (omega arith) ∙ Frame-update h.next t (some x) ws q m),
      (ra, rb, Back-step last t x zs h s ra.0 rb.0 back),
    )

pub Merged-mono :
    (last : Bool) (n r t : ℕ) (zs ws vs : List ℕ) (h : Links) (o : Option Merging)
    → ((q : ℕ) → count q vs ≡ 0 → count q ws ≡ 0)
    → Merged last n r t zs ws h o
    → Merged last n r t zs vs h o
unfolding Merged
Merged-mono last n r t zs ws vs h o k (s, e, er, l, fr, rest) =
    (s, e, er, l, (λ q c. fr q (k q c)), rest)

attach_left-Merged :
    (last : Bool) (n r t y : ℕ) (ys : List ℕ) (h : Links)
    → Linked h.next (y ∷ ys)
    → count t (y ∷ ys) ≡ 0
    → length (y ∷ ys) < n
    → Merged last n r t
        (y ∷ ys)
        (t ∷ y ∷ ys)
        h
        (some (record { links = h; a = none; b = some y; ret = some r; tail = some t }))
unfolding Merged
attach_left-Merged last n r t y ys h l k m =
    let l' = Linked-update h.next t (some y) (y ∷ ys) k l in
    (
      _,
      refl,
      refl,
      (update_self h.next t (some y), l'),
      Frame-update h.next t (some y) (y ∷ ys),
      (([], refl, tt, omega arith), (y ∷ ys, refl, l', m), Back-left last t (y ∷ ys) h (some r)),
    )

attach_right-Merged :
    (last : Bool) (n r t x : ℕ) (xs : List ℕ) (h : Links)
    → Linked h.next (x ∷ xs)
    → count t (x ∷ xs) ≡ 0
    → length (x ∷ xs) < n
    → Merged last n r t
        (x ∷ xs)
        (t ∷ x ∷ xs)
        h
        (some (record { links = h; a = some x; b = none; ret = some r; tail = some t }))
unfolding Merged
attach_right-Merged last n r t x xs h l k m =
    let l' = Linked-update h.next t (some x) (x ∷ xs) k l in
    (
      _,
      refl,
      refl,
      (update_self h.next t (some x), l'),
      Frame-update h.next t (some x) (x ∷ xs),
      ((x ∷ xs, refl, l', m), ([], refl, tt, omega arith), Back-right last t (x ∷ xs) h (some r)),
    )

pub Merged-zs :
    (last : Bool) (n r t : ℕ) (zs vs ws : List ℕ) (h : Links) (o : Option Merging)
    → vs ≡ zs
    → Merged last n r t zs ws h o
    → Merged last n r t vs ws h o
Merged-zs last n r t zs vs ws h o e m = subst (λ us. Merged last n r t us ws h o) (sym e) m

module _ (less : ℕ → ℕ → Bool) (last : Bool) where
  pub Merged-left :
      (n k r t : ℕ) (zs ws : List ℕ) (h : Links) (b : Bool) (u v : Merging)
      → b ≡ true
      → Merged last n r t zs ws h (merge_loop less last k u)
      → Merged last n r t zs ws h (merge_loop less last k (if b then u else v))
  Merged-left n k r t zs ws h b u v e m =
      if_true (λ s. Merged last n r t zs ws h (merge_loop less last k s)) b u v e m

  pub Merged-right :
      (n k r t : ℕ) (zs ws : List ℕ) (h : Links) (b : Bool) (u v : Merging)
      → b ≡ false
      → Merged last n r t zs ws h (merge_loop less last k v)
      → Merged last n r t zs ws h (merge_loop less last k (if b then u else v))
  Merged-right n k r t zs ws h b u v e m =
      if_false (λ s. Merged last n r t zs ws h (merge_loop less last k s)) b u v e m

  -- The loop after a round that took `x`, with the lists `a` and `b` left.
  abbrev round : ℕ → ℕ → ℕ → ℕ → Option ℕ → Option ℕ → Links → Option Merging
  round n r t x a b h =
      merge_loop less last n
        (record { links = taken last t x h; a = a; b = b; ret = some r; tail = some x })

  round-Merged :
      (n m r t x : ℕ) (us vs zs ws : List ℕ) (a b : Option ℕ) (h : Links)
      → a ≡ start us
      → b ≡ start vs
      → count t ws ≡ 0
      → Merged last m r x zs ws (taken last t x h) (round n r t x (start us) (start vs) h)
      → Merged last m r t (x ∷ zs) (t ∷ ws) h (round n r t x a b h)
  round-Merged n m r t x us vs zs ws a b h ea eb k ih =
      subst (λ a'. Merged last m r t (x ∷ zs) (t ∷ ws) h (round n r t x a' b h)) (sym ea)
        (subst (λ b'. Merged last m r t (x ∷ zs) (t ∷ ws) h (round n r t x (start us) b' h))
          (sym eb) (Merged-step last m r t x zs ws h (round n r t x (start us) (start vs) h) k ih))

  -- The loop with a tail, where not both lists are nil: `m` is any number above the rest.
  pub merge_loop-Merged :
      (n m r t : ℕ) (xs ys : List ℕ) (h : Links)
      → Linked h.next xs
      → Linked h.next ys
      → ((q : ℕ) → count q (t ∷ xs) + count q ys ≤ 1)
      → 0 < length xs + length ys
      → length xs + length ys < n
      → length xs + length ys < m
      → Merged last m r t (merge less xs ys) (t ∷ xs ++ ys) h (
          merge_loop less last n
            (record { links = h; a = start xs; b = start ys; ret = some r; tail = some t }))
  unfolding merge_loop
  merge_loop-Merged zero m r t xs ys h lx ly d p k j = absurd (omega arith)
  merge_loop-Merged (suc n) m r t [] [] h lx ly d p k j = absurd (omega arith)
  merge_loop-Merged (suc n) m r t [] (y ∷ ys) h lx ly d p k j =
      Merged-zs last m r t _ _ _ h _ (nil-merge less (y ∷ ys)) (
        attach_left-Merged last m r t y ys h ly (omega (arith, d t, count_self t [])) (omega arith))
  merge_loop-Merged (suc n) m r t (x ∷ xs) [] h lx ly d p k j =
      Merged-zs last m r t _ _ _ h _ (merge-nil less (x ∷ xs)) (
        Merged-mono last m r t (x ∷ xs) (t ∷ x ∷ xs) (t ∷ (x ∷ xs) ++ []) h _
          (λ q c. omega (arith, count-append q (x ∷ xs) []))
          (attach_right-Merged last m r t x xs h lx (omega (arith, d t, count_self t xs))
            (omega arith)))
  merge_loop-Merged (suc n) m r t (x ∷ xs) (y ∷ ys) h lx ly d p k j = elim (Bool-cases (less x y)) [
    | inl e ↦ Merged-zs last m r t _ _ _ h _ (merge_left less x y xs ys e) (
        Merged-left m n r t _ _ h (less x y) _ _ e (
          round-Merged n m r t x xs (y ∷ ys) _ (x ∷ xs ++ (y ∷ ys)) (h.next x) (some y) h lx.0 refl
            (omega (arith, d t, count_self t (x ∷ xs), count-append t (x ∷ xs) (y ∷ ys)))
            (merge_loop-Merged n m r x xs (y ∷ ys) (taken last t x h)
              (taken-Linked last t x xs h (omega (arith, d t, count_self t (x ∷ xs))) lx.1)
              (taken-Linked last t x (y ∷ ys) h (omega (arith, d t, count_self t (x ∷ xs))) ly)
              (λ q. omega (arith, d q)) (omega arith) (omega arith) (omega arith))))
    | inr e ↦ Merged-zs last m r t _ _ _ h _ (merge_right less x y xs ys e) (
        Merged-right m n r t _ _ h (less x y) _ _ e (
          Merged-mono last m r t (y ∷ merge less (x ∷ xs) ys) (t ∷ y ∷ (x ∷ xs) ++ ys)
            (t ∷ (x ∷ xs) ++ (y ∷ ys)) h _
            (λ q c. omega (arith, c, count-append q (x ∷ xs) ys, count-append q (x ∷ xs) (y ∷ ys)))
            (round-Merged n m r t y (x ∷ xs) ys _ (y ∷ (x ∷ xs) ++ ys) (some x) (h.next y) h refl
              ly.0 (omega (arith, d t, count_self t (x ∷ xs), count-append t (x ∷ xs) ys))
              (merge_loop-Merged n m r y (x ∷ xs) ys (taken last t y h)
                (taken-Linked last t y (x ∷ xs) h (omega (arith, d t, count_self t (x ∷ xs))) lx)
                (taken-Linked last t y ys h (omega (arith, d t, count_self t (x ∷ xs))) ly.1)
                (λ q. omega (arith, d q)) (omega arith) (omega arith) (omega arith)))))
  ]
