-- ===== src/FlowKey/Reverse.antt =====
-- packet/key.go: a bidirectional key is the same for both directions of a flow.
use mathlib.Core.Path.{fun_ext}
use go_flows.Shared.{
  ℕ, ◌≡◌, refl, sym, ap, ◌∙◌, subst, ◌⊎◌, inl, inr, Bool, true, false, not, ◌&&◌, ◌||◌, Option,
  none, some, List, [], ◌∷◌, Key, arith, length, ◌-◌,
}
use go_flows.FlowKey.Selector.{
  Written, sorted, unsorted, KeyFunc, Selector, scratch_size, scratch_uni_size, Gathered, panicked,
  rejected, gathered, Selected, panic, not_ok, ok, greater, gather_written, and_then, gather,
  gather_uni_written, gather_uni, build, key_both_ways, key,
}
use go_flows.FlowKey.Order.{greater-asym, greater-antisym}

-- Nothing goes to the slice that is not sorted.
abbrev pub writes_sorted : Option Written → Bool
writes_sorted (some (unsorted _)) = false
writes_sorted _ = true

-- A step of `gather` that succeeds, on a function that writes bytes to sort.
gather_written-unsorted :
    (b : Bool) (o : Option Written) (s u s' u' : List ℕ)
    → writes_sorted o ≡ true
    → gather_written b o s u ≡ gathered s' u'
    → u ≡ u'
unfolding gather_written
gather_written-unsorted b none s u s' u' w h = absurd (cc)
gather_written-unsorted b (some (unsorted _)) s u s' u' w h = absurd (cc)
gather_written-unsorted b (some (sorted bs)) s u s' u' w h = ground arith

and_then-gathered :
    (g : Gathered) (f : List ℕ → List ℕ → Gathered) {s u : List ℕ}
    → and_then g panicked rejected f ≡ gathered s u
    → (t : List ℕ) × (v : List ℕ) × (g ≡ gathered t v) × (f t v ≡ gathered s u)
and_then-gathered panicked f h = absurd (cc)
and_then-gathered rejected f h = absurd (cc)
and_then-gathered (gathered t v) f h = (t, v, refl, h)

and_then-ok :
    (g : Gathered) (f : List ℕ → List ℕ → Selected) {k : Key} {b : Bool}
    → and_then g panic not_ok f ≡ ok k b
    → (t : List ℕ) × (v : List ℕ) × (g ≡ gathered t v) × (f t v ≡ ok k b)
and_then-ok panicked f h = absurd (cc)
and_then-ok rejected f h = absurd (cc)
and_then-ok (gathered t v) f h = (t, v, refl, h)

module _ {P : Type 0} where
  -- Each function of the first list writes for `p` what its partner in the second writes for `q`,
  -- and it is to be sorted.
  abbrev pub Mirrored : P → P → List (KeyFunc P) → List (KeyFunc P) → Type 0
  Mirrored p q [] [] = Unit
  Mirrored p q (f ∷ fs) (g ∷ gs) =
      ((m n : ℕ) → (f p m n ≡ g q m n) × (writes_sorted (f p m n) ≡ true)) × Mirrored p q fs gs
  Mirrored p q _ _ = ⊥

  -- Each function writes the same for `p` and for `q`.
  abbrev pub Alike : P → P → List (KeyFunc P) → Type 0
  Alike p q [] = Unit
  Alike p q (f ∷ fs) = ((m n : ℕ) → f p m n ≡ f q m n) × Alike p q fs

  gather-Mirrored :
      (b : Bool) (p q : P) (fs gs : List (KeyFunc P)) (s u : List ℕ)
      → Mirrored p q fs gs
      → gather b fs p s u ≡ gather b gs q s u
  unfolding gather
  gather-Mirrored b p q [] [] s u h = refl
  gather-Mirrored b p q [] (g ∷ gs) s u h = absurd h
  gather-Mirrored b p q (f ∷ fs) [] s u h = absurd h
  gather-Mirrored b p q (f ∷ fs) (g ∷ gs) s u (h, hs) =
      ap (λ o. and_then (gather_written b o s u) panicked rejected (gather b fs p)) (h _ _).0
      ∙ ap
          (λ k.
            and_then
              (gather_written b (g q (scratch_size - length s) (scratch_uni_size - length u)) s u)
              panicked rejected k)
          (fun_ext λ s'. fun_ext λ u'. gather-Mirrored b p q fs gs s' u' hs)

  gather_uni-Alike :
      (b : Bool) (p q : P) (fs : List (KeyFunc P)) (u : List ℕ)
      → Alike p q fs
      → gather_uni b fs p u ≡ gather_uni b fs q u
  unfolding gather_uni
  gather_uni-Alike b p q [] u h = refl
  gather_uni-Alike b p q (f ∷ fs) u (h, hs) =
      ap (λ o. and_then (gather_uni_written b o u) panicked rejected (λ _ u'. gather_uni b fs p u'))
        (h _ _)
      ∙ ap
          (λ k.
            and_then
              (gather_uni_written b
                (f q (scratch_uni_size - length u) (scratch_uni_size - length u)) u)
              panicked rejected k)
          (fun_ext λ _. fun_ext λ u'. gather_uni-Alike b p q fs u' hs)

  gather-unsorted :
      (b : Bool) (p q : P) (fs gs : List (KeyFunc P)) (s u s' u' : List ℕ)
      → Mirrored p q fs gs
      → gather b fs p s u ≡ gathered s' u'
      → u ≡ u'
  unfolding gather
  gather-unsorted b p q [] [] s u s' u' h e = cc
  gather-unsorted b p q [] (g ∷ gs) s u s' u' h e = absurd h
  gather-unsorted b p q (f ∷ fs) [] s u s' u' h e = absurd h
  gather-unsorted b p q (f ∷ fs) (g ∷ gs) s u s' u' (h, hs) e =
      let (t, v, et, e') = and_then-gathered _ _ e in
      gather_written-unsorted b _ s u t v (h _ _).1 et ∙ gather-unsorted b p q fs gs t v s' u' hs e'

-- The two directions of a key: at most one is backward, and both are forward only for equal sides.
abbrev pub Opposite : Bool → Bool → List ℕ → List ℕ → Type 0
Opposite a b s d = ((a || b) ≡ true) × (((a && b) ≡ false) ⊎ (s ≡ d))

build-swap :
    (s d w : List ℕ) {k : Key} {a : Bool}
    → build s d w ≡ ok k a
    → (b : Bool) × (build d s w ≡ ok k b) × Opposite a b s d
unfolding build
build-swap s d w h = (
  not (greater d s),
  ground (arith, greater-asym s d, greater-antisym s d),
  (
    ground (arith, greater-asym s d, greater-antisym s d),
    ground (arith, greater-asym s d, greater-antisym s d),
  ),
)

module _ {P : Type 0} (x : Selector P) where
  -- The four steps of a key that is returned, where no step adds to the bytes that are not sorted.
  Parts : P → Key → Bool → List ℕ → List ℕ → List ℕ → List ℕ → Type 0
  Parts p k a s d z w =
      (gather x.no_zero x.source p [] [] ≡ gathered s [])
      × (gather x.no_zero x.destination p [] [] ≡ gathered d [])
      × (gather_uni x.no_zero x.uni p [] ≡ gathered z w)
      × (build s d w ≡ ok k a)

  key_both_ways-Parts :
      (p q : P) (k : Key) (a : Bool)
      → Mirrored p q x.source x.destination
      → Mirrored p q x.destination x.source
      → key_both_ways x p ≡ ok k a
      → (s : List ℕ) × (d : List ℕ) × (z : List ℕ) × (w : List ℕ) × Parts p k a s d z w
  unfolding key_both_ways Parts
  key_both_ways-Parts p q k a hs hd h =
      let (s, u, es, h1) = and_then-ok (gather x.no_zero x.source p [] []) _ h in
      let eu = sym (gather-unsorted _ p q _ _ [] [] s u hs es) in
      let (d, v, ed, h2) = and_then-ok (gather x.no_zero x.destination p [] u) _ h1 in
      let ed' = subst (λ t. gather x.no_zero x.destination p [] t ≡ gathered d v) eu ed in
      let ev = sym (gather-unsorted _ p q _ _ [] [] d v hd ed') in
      let (z, w, ew, h3) = and_then-ok (gather_uni x.no_zero x.uni p v) _ h2 in
      (
        s,
        d,
        z,
        w,
        (
          subst (λ t. gather x.no_zero x.source p [] [] ≡ gathered s t) eu es,
          subst (λ t. gather x.no_zero x.destination p [] [] ≡ gathered d t) ev ed',
          subst (λ t. gather_uni x.no_zero x.uni p t ≡ gathered z w) ev ew,
          h3,
        ),
      )

  Parts-key_both_ways :
      (p : P) (k : Key) (a : Bool) (s d z w : List ℕ)
      → Parts p k a s d z w
      → key_both_ways x p ≡ ok k a
  unfolding key_both_ways Parts
  Parts-key_both_ways p k a s d z w (es, ed, ew, h) = rw (es, ed, ew) h

  key_both_ways-Mirrored :
      (p q : P) (k : Key) (a : Bool)
      → Mirrored p q x.source x.destination
      → Mirrored p q x.destination x.source
      → Alike p q x.uni
      → key_both_ways x p ≡ ok k a
      → (b : Bool) × (key_both_ways x q ≡ ok k b)
        × ((a || b) ≡ true)
        × (((a && b) ≡ false)
            ⊎ (gather x.no_zero x.source p [] [] ≡ gather x.no_zero x.source q [] []))
  unfolding Parts
  key_both_ways-Mirrored p q k a hs hd hu h =
      let (s, d, z, w, (es, ed, ew, h1)) = key_both_ways-Parts p q k a hs hd h in
      let es' = sym (gather-Mirrored _ p q _ _ [] [] hd) ∙ ed in
      let ed' = sym (gather-Mirrored _ p q _ _ [] [] hs) ∙ es in
      let ew' = sym (gather_uni-Alike _ p q _ [] hu) ∙ ew in
      let (b, h2, (o, t)) = build-swap s d w h1 in
      (
        b,
        Parts-key_both_ways q k b d s z w (es', ed', ew', h2),
        o,
        elim t [ inl n ↦ inl n | inr e ↦ inr (es ∙ ap (λ l. gathered l []) e ∙ sym es') ],
      )

module _ {P : Type 0} where
  key-key_both_ways :
      (x : Selector P) (p : P)
      → x.empty ≡ false
      → x.bidirectional ≡ true
      → key x p ≡ key_both_ways x p
  unfolding key
  key-key_both_ways x p he hb = rw (he, hb) refl

  -- For a bidirectional selector, let `q` be a packet of the other direction of `p`: each function of
  -- the one side writes for `p` what its partner of the other side writes for `q`, to the bytes that
  -- are sorted, and the other functions write the same. Then a key of `p` is the key of `q` too, and
  -- one of both is forward. Both are forward only where both sides have the same bytes.
  pub key-Mirrored :
      (x : Selector P) (p q : P) (k : Key) (a : Bool)
      → x.empty ≡ false
      → x.bidirectional ≡ true
      → Mirrored p q x.source x.destination
      → Mirrored p q x.destination x.source
      → Alike p q x.uni
      → key x p ≡ ok k a
      → (b : Bool) × (key x q ≡ ok k b)
        × ((a || b) ≡ true)
        × (((a && b) ≡ false)
            ⊎ (gather x.no_zero x.source p [] [] ≡ gather x.no_zero x.source q [] []))
  key-Mirrored x p q k a he hb hs hd hu h =
      let (b, e, o, t) =
        key_both_ways-Mirrored x p q k a hs hd hu (sym (key-key_both_ways x p he hb) ∙ h) in
      (b, key-key_both_ways x q he hb ∙ e, o, t)
