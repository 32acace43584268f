-- ===== src/ExportSort/Sublist.antt =====
-- flows/exporter.go: the whole of mergeSublist, with its first round and the pointers back.
use go_flows.Shared.{
  ℕ, zero, suc, ◌+◌, ◌≤◌, ◌<◌, ◌≡◌, refl, sym, ap, ◌∙◌, subst, Bool, true, false, Option, some,
  List, ◌∷◌, ◌++◌, if◌then◌else◌, length, arith, merge, merge_left, merge_right, Bool-cases, inl,
  inr,
}
use go_flows.ExportSort.Links.{Links, set_prev}
use go_flows.ExportSort.Sublists.{Merging, merge_loop, attach, fix_prev, finish_loop, merge_sublist}
use go_flows.ExportSort.Chains.{start, Linked, count, Frame, count-append, last_of, update_other}
use go_flows.ExportSort.Clearing.{Cleared, Backs, attach-prev, fix_prev-Cleared, Backs-last}
use go_flows.ExportSort.Left.{Rest, Back, next-if}
use go_flows.ExportSort.Merging.{Merged, Merged-mono, Merged-left, Merged-right, merge_loop-Merged}

-- A result that returns the list `zs`, linked, and leaves what it has to of the links `h`.
unfoldable pub Returns : Bool → List ℕ → List ℕ → Links → Option (Option ℕ × Links) → Type 0
Returns last zs ws h o =
    (g : Links) × (o ≡ some (start zs, g))
    × Linked g.next zs
    × Frame ws h.next g.next
    × Backs last zs h.prev g.prev

-- The links before the second round, which has `r` first.
abbrev opened : Bool → ℕ → Links → Links
opened last r h = if last then set_prev r (some r) h else h

finish_loop-Returns :
    (last : Bool) (n r : ℕ) (s : Merging) (zs ws : List ℕ) (h : Links)
    → s.ret ≡ some r
    → Linked (attach s.a s.b s.tail s.links).next (r ∷ zs)
    → Frame ws h.next (attach s.a s.b s.tail s.links).next
    → (ra : Rest n (attach s.a s.b s.tail s.links).next s.a)
    → (rb : Rest n (attach s.a s.b s.tail s.links).next s.b)
    → Back last r zs (opened last r h) s ra.0 rb.0
    → Returns last (r ∷ zs) ws h (finish_loop last n (some s))
unfolding Returns
finish_loop-Returns false n r s zs ws h er l fr ra rb back =
    let g = attach s.a s.b s.tail s.links in
    (
      g,
      ap (λ p. some (p, g)) er,
      l,
      fr,
      λ q. ap (λ p. p q) (attach-prev s.a s.b s.tail s.links) ∙ back q,
    )
finish_loop-Returns true n r s zs ws h er l fr (us, ea, lu, ku) (vs, eb, lv, kv) back =
    let (c, same, cl, (t, et, el)) = back in
    let j = attach s.a s.b s.tail s.links in
    let (g, k, e, d, cu, cv) = fix_prev-Cleared n r t us vs j lu lv ku kv in
    let g' = set_prev r (some (last_of (last_of t us) vs)) g in
    (
      g',
      ap (λ a. fix_prev n a s.b s.ret s.tail j) ea
          ∙ ap (λ b. fix_prev n (start us) b s.ret s.tail j) eb
          ∙ ap (λ p. fix_prev n (start us) (start vs) p s.tail j) er
          ∙ ap (λ p. fix_prev n (start us) (start vs) (some r) p j) et
          ∙ e,
      subst (λ k. Linked k (r ∷ zs)) (sym d) l,
      subst (λ k. Frame ws h.next k) (sym d) fr,
      Backs-last r (last_of (last_of t us) vs) zs us vs h.prev (opened true r h).prev s.links.prev k
          g.prev c (λ q n. update_other h.prev r q (some r) n) same cl
          (subst (λ p. Cleared us p k) (attach-prev s.a s.b s.tail s.links) cu) cv el,
    )

Merged-Returns :
    (last : Bool) (n r : ℕ) (zs ws : List ℕ) (h : Links) (o : Option Merging)
    → Merged last n r r zs ws (opened last r h) o
    → Returns last (r ∷ zs) ws h (finish_loop last n o)
unfolding Merged
Merged-Returns last n r zs ws h o (s, e, er, l, fr, (ra, rb, back)) =
    subst (λ p. Returns last (r ∷ zs) ws h (finish_loop last n p)) (sym e)
      (finish_loop-Returns last n r s zs ws h er l
        (subst (λ f. Frame ws f (attach s.a s.b s.tail s.links).next) (next-if last r (some r) h)
          fr)
        ra rb back)

Returns-zs :
    (last : Bool) (zs vs ws : List ℕ) (h : Links) (o : Option (Option ℕ × Links))
    → vs ≡ zs
    → Returns last zs ws h o
    → Returns last vs ws h o
Returns-zs last zs vs ws h o e r = subst (λ us. Returns last us ws h o) (sym e) r

module _ (less : ℕ → ℕ → Bool) (last : Bool) where
  -- The loop after its first round, which took `t`.
  first-Merged :
      (n t : ℕ) (us vs : List ℕ) (a b : Option ℕ) (h : Links)
      → a ≡ start us
      → b ≡ start vs
      → Linked h.next us
      → Linked h.next vs
      → ((q : ℕ) → count q (t ∷ us) + count q vs ≤ 1)
      → 0 < length us + length vs
      → length us + length vs < n
      → Merged last (suc n) t t (merge less us vs) (t ∷ us ++ vs) (opened last t h) (
          merge_loop less last n
            (record { links = opened last t h; a = a; b = b; ret = some t; tail = some t }))
  first-Merged n t us vs a b h ea eb lu lv d p k =
      let g = opened last t h in
      let same = sym (next-if last t (some t) h) in
      let m =
        merge_loop-Merged less last n (suc n) t t us vs g (subst (λ f. Linked f us) same lu)
          (subst (λ f. Linked f vs) same lv) d p k (omega arith) in
      subst
        (λ a'. Merged last (suc n) t t (merge less us vs) (t ∷ us ++ vs) g (
          merge_loop less last n
            (record { links = g; a = a'; b = b; ret = some t; tail = some t })))
        (sym ea)
        (subst
          (λ b'. Merged last (suc n) t t (merge less us vs) (t ∷ us ++ vs) g (
            merge_loop less last n
              (record { links = g; a = start us; b = b'; ret = some t; tail = some t })))
          (sym eb) m)

  split-left :
      (n r : ℕ) (zs ws : List ℕ) (h : Links) (b : Bool) (u v : Merging)
      → b ≡ true
      → Merged last (suc n) r r zs ws (opened last r h) (merge_loop less last n u)
      → Returns last
          (r ∷ zs)
          ws
          h
          (finish_loop last (suc n) (merge_loop less last n (if b then u else v)))
  split-left n r zs ws h b u v e m =
      Merged-Returns last (suc n) r zs ws h _
        (Merged-left less last (suc n) n r r zs ws (opened last r h) b u v e m)

  split-right :
      (n r : ℕ) (zs ws : List ℕ) (h : Links) (b : Bool) (u v : Merging)
      → b ≡ false
      → Merged last (suc n) r r zs ws (opened last r h) (merge_loop less last n v)
      → Returns last
          (r ∷ zs)
          ws
          h
          (finish_loop last (suc n) (merge_loop less last n (if b then u else v)))
  split-right n r zs ws h b u v e m =
      Merged-Returns last (suc n) r zs ws h _
        (Merged-right less last (suc n) n r r zs ws (opened last r h) b u v e m)

  -- mergeSublist of two linked lists with at least one record each that share none and have none twice,
  -- with more fuel than records: the pointer it returns is at the merge of both, which is linked, and no
  -- other record's pointer has changed, forward or back. It writes pointers back in the last merge only:
  -- then that of the first record is at the last one, and those of the others in the list are nil.
  pub merge_sublist-Returns :
      (n x y : ℕ) (xs ys : List ℕ) (h : Links)
      → Linked h.next (x ∷ xs)
      → Linked h.next (y ∷ ys)
      → ((q : ℕ) → count q (x ∷ xs) + count q (y ∷ ys) ≤ 1)
      → length (x ∷ xs) + length (y ∷ ys) < n
      → Returns last
          (merge less (x ∷ xs) (y ∷ ys))
          ((x ∷ xs) ++ (y ∷ ys))
          h
          (merge_sublist less last n (some x) (some y) h)
  unfolding merge_sublist merge_loop
  merge_sublist-Returns zero x y xs ys h lx ly d k = absurd (omega arith)
  merge_sublist-Returns (suc n) x y xs ys h lx ly d k = elim (Bool-cases (less x y)) [
    | inl e ↦ Returns-zs last _ _ _ h _ (merge_left less x y xs ys e) (
        split-left n x (merge less xs (y ∷ ys)) ((x ∷ xs) ++ (y ∷ ys)) h (less x y) _ _ e (
          first-Merged n x xs (y ∷ ys) (h.next x) (some y) h lx.0 refl lx.1 ly d (omega arith)
            (omega arith)))
    | inr e ↦ Returns-zs last _ _ _ h _ (merge_right less x y xs ys e) (
        split-right n y (merge less (x ∷ xs) ys) ((x ∷ xs) ++ (y ∷ ys)) h (less x y) _ _ e (
          Merged-mono last (suc n) y y _ (y ∷ (x ∷ xs) ++ ys) ((x ∷ xs) ++ (y ∷ ys)) _ _
            (λ q c. omega (arith, c, count-append q xs ys, count-append q xs (y ∷ ys)))
            (first-Merged n y (x ∷ xs) ys (some x) (h.next y) h refl ly.0 lx ly.1
              (λ q. omega (arith, d q)) (omega arith) (omega arith))))
  ]
