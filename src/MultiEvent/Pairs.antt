-- ===== src/MultiEvent/Pairs.antt =====
-- flows/feature.go: when features with two arguments, or with a constant before three others, are ready.
use go_flows.Shared.{
  ℕ, ◌≡◌, ◌≢◌, ap, ◌∙◌, refl, Bool, true, false, ◌&&◌, ◌||◌, List, [], ◌∷◌, Option, none, some,
  if◌then◌else◌, if_both, ◌==◌, arith,
}
use go_flows.CallGraph.Machine.{and_then}
use go_flows.MultiEvent.Events.{
  MultiEvent, Slot, held, waiting, Generic, Answer, DualNoConst, dual_no_const, pair_of_arguments,
  set_arguments, answer, check_all, reset, feature_list, waiting_from, index_features, tracked,
  check_generic, index_of,
}

same_test : (c : ℕ) → (c == c) ≡ false → ⊥
same_test c e = ground arith

distinct_tests : (a b w : ℕ) → a ≢ b → (w == a) ≡ true → (w == b) ≡ true → ⊥
distinct_tests a b w n p q = n (ground arith)

module _ {V : Type 0} where
  abbrev pub seen : ℕ → List (ℕ × V) → Bool
  seen a [] = false
  seen a ((w, v) ∷ h) = w == a || seen a h

  -- The value that a feature emitted last.
  abbrev pub latest : ℕ → V → List (ℕ × V) → V
  latest a old [] = old
  latest a old ((w, v) ∷ h) = if w == a then v else latest a old h

  mark_step :
      (p q : Bool) (v : V) (d : DualNoConst V)
      → (p ≡ true → q ≡ true → ⊥)
      → (if p
          then record d { state0 = true; c0 = v }
          else if q
          then record d { state1 = true; c1 = v }
          else d)
        ≡ record d {
          c0 = if p then v else d.c0;
          c1 = if q then v else d.c1;
          state0 = p || d.state0;
          state1 = q || d.state1;
        }
  mark_step true true v d h = absurd (h refl refl)
  mark_step true false v d h = refl
  mark_step false true v d h = refl
  mark_step false false v d h = refl

  answer-some :
      (nil : V) (value : ℕ → V) (m : MultiEvent V) (b : Bool) (vs : List V)
      → answer nil value m b (some vs) ≡ some (m, if b then some vs else none)
  answer-some nil value m true vs = refl
  answer-some nil value m false vs = refl

  latest_step :
      (p : Bool) (v : V) {b : Bool} {l m : V}
      → (b ≡ true → l ≡ m)
      → (p || b) ≡ true
      → (if p then v else l) ≡ (if p then v else m)
  latest_step true v f e = refl
  latest_step false v f e = f e

  latest-seen : (a : ℕ) (x y : V) (h : List (ℕ × V)) → seen a h ≡ true → latest a x h ≡ latest a y h
  latest-seen a x y [] e = absurd (cc)
  latest-seen a x y ((w, v) ∷ h) e = latest_step (w == a) v (latest-seen a x y h) e

  -- Values that agree where both arguments emitted.
  same_ready :
      (s t : Bool) (l l' r r' : V)
      → (s ≡ true → l ≡ l')
      → (t ≡ true → r ≡ r')
      → Path
          (Option (List V))
          (if s && t then some (l ∷ r ∷ []) else none)
          (if s && t then some (l' ∷ r' ∷ []) else none)
  same_ready true true l l' r r' p q = rw (p refl, q refl) refl
  same_ready true false l l' r r' p q = refl
  same_ready false t l l' r r' p q = refl

module _ {V : Type 0} (nil : V) (constant_value : ℕ → Option V) (value : ℕ → V) where
  -- The tracking after some events.
  unfoldable pub listen : MultiEvent V → List (ℕ × V) → Option (MultiEvent V)
  listen m [] = some m
  listen m ((w, v) ∷ h) =
      and_then (listen m h) (λ n. and_then (check_all nil value v w n) (λ r. some r.0))

  -- The tracking of `a` and `b` after a history that began with `x` and `y` stored.
  after : ℕ → ℕ → V → V → List (ℕ × V) → DualNoConst V
  after a b x y h = record {
    c0 = latest a x h;
    c1 = latest b y h;
    nc0 = a;
    nc1 = b;
    state0 = seen a h;
    state1 = seen b h;
  }

  check_all-after :
      (a b w : ℕ) (x y v : V) (h : List (ℕ × V))
      → a ≢ b
      → check_all nil value v w (dual_no_const (after a b x y h))
        ≡ some (
          dual_no_const (after a b x y ((w, v) ∷ h)),
          if seen a ((w, v) ∷ h) && seen b ((w, v) ∷ h)
              then some (latest a x ((w, v) ∷ h) ∷ latest b y ((w, v) ∷ h) ∷ [])
              else none,
        )
  unfolding after check_all
  check_all-after a b w x y v h n =
      let d = after a b x y h in
      ap (λ e. answer nil value (dual_no_const e) (e.state0 && e.state1) (some (e.c0 ∷ e.c1 ∷ [])))
        (mark_step (w == a) (w == b) v d (distinct_tests a b w n))
      ∙ answer-some nil value _ _ _

  listen-after :
      (a b : ℕ) (x y : V) (h : List (ℕ × V))
      → a ≢ b
      → listen (dual_no_const (after a b x y [])) h ≡ some (dual_no_const (after a b x y h))
  unfolding listen
  listen-after a b x y [] n = refl
  listen-after a b x y ((w, v) ∷ h) n =
      ap (λ o. and_then o (λ m. and_then (check_all nil value v w m) (λ r. some r.0)))
        (listen-after a b x y h n)
      ∙ ap (λ o. and_then o (λ r. some r.0)) (check_all-after a b w x y v h n)

  -- A feature of two different arguments that are no constants: after any events and a Reset, and any
  -- events `h` and one more after it, CheckAll gives the values that both arguments emitted last if both
  -- emitted since the Reset, and else nil.
  pub check_all-pair :
      (a b w : ℕ) (v : V) (g h : List (ℕ × V))
      → a ≢ b
      → constant_value a ≡ none
      → constant_value b ≡ none
      → (n m : MultiEvent V) × (listen (set_arguments nil constant_value (a ∷ b ∷ [])) g ≡ some n)
        × (and_then (listen (reset nil value n) h) (check_all nil value v w)
            ≡ some (
              m,
              if seen a ((w, v) ∷ h) && seen b ((w, v) ∷ h)
                  then some (latest a nil ((w, v) ∷ h) ∷ latest b nil ((w, v) ∷ h) ∷ [])
                  else none,
            ))
  unfolding set_arguments after reset
  check_all-pair a b w v g h n p q =
      let x = latest a nil g in
      let y = latest b nil g in
      let last = (w, v) ∷ h in
      (
        dual_no_const (after a b nil nil g),
        dual_no_const (after a b x y last),
        ap (λ m. listen m g)
              (ap (λ o. pair_of_arguments nil constant_value a b o (constant_value b)) p
                ∙ ap (pair_of_arguments nil constant_value a b none) q)
            ∙ listen-after a b nil nil g n,
        ap (λ o. and_then o (check_all nil value v w)) (listen-after a b x y h n)
            ∙ check_all-after a b w x y v h n
            ∙ ap (λ z. some (dual_no_const (after a b x y last), z))
                (same_ready (seen a last) (seen b last) _ _ _ _ (latest-seen a x nil last)
                  (latest-seen b y nil last)),
      )

  -- The tracking of one feature that is both arguments.
  twice : ℕ → V → Bool → DualNoConst V
  twice a x s = record { c0 = x; c1 = nil; nc0 = a; nc1 = a; state0 = s; state1 = false }

  mark_twice :
      (a : ℕ) (x v : V) (s p : Bool)
      → (if p
          then record (twice a x s) { state0 = true; c0 = v }
          else if p
          then record (twice a x s) { state1 = true; c1 = v }
          else twice a x s)
        ≡ twice a (if p then v else x) (p || s)
  unfolding twice
  mark_twice a x v s true = refl
  mark_twice a x v s false = refl

  answer-not_second :
      (m : MultiEvent V) (s : Bool) (vs : List V)
      → answer nil value m (s && false) (some vs) ≡ some (m, none)
  answer-not_second m true vs = refl
  answer-not_second m false vs = refl

  check_all-twice :
      (a w : ℕ) (x v : V) (s : Bool)
      → check_all nil value v w (dual_no_const (twice a x s))
        ≡ some (dual_no_const (twice a (if w == a then v else x) (w == a || s)), none)
  unfolding twice check_all
  check_all-twice a w x v s =
      ap (λ e. answer nil value (dual_no_const e) (e.state0 && e.state1) (some (e.c0 ∷ e.c1 ∷ [])))
        (mark_twice a x v s (w == a))
      ∙ answer-not_second _ (w == a || s) _

  listen-twice :
      (a : ℕ) (h : List (ℕ × V))
      → (x : V) × (s : Bool) × (listen (dual_no_const (twice a nil false)) h
          ≡ some (dual_no_const (twice a x s)))
  unfolding listen
  listen-twice a [] = (nil, false, refl)
  listen-twice a ((w, v) ∷ h) =
      let (x, s, e) = listen-twice a h in
      (
        _,
        _,
        ap (λ o. and_then o (λ m. and_then (check_all nil value v w m) (λ r. some r.0))) e
            ∙ ap (λ o. and_then o (λ r. some r.0)) (check_all-twice a w x v s),
      )

  -- A feature both of whose arguments are one feature is never ready: whatever the events, CheckAll gives
  -- nil.
  pub check_all-same :
      (a w : ℕ) (v : V) (h : List (ℕ × V))
      → constant_value a ≡ none
      → (m : MultiEvent V) × (and_then
            (listen (set_arguments nil constant_value (a ∷ a ∷ [])) h)
            (check_all nil value v w)
          ≡ some (m, none))
  unfolding set_arguments twice
  check_all-same a w v h p =
      let (x, s, e) = listen-twice a h in
      (
        _,
        ap (λ m. and_then (listen m h) (check_all nil value v w))
              (ap (λ o. pair_of_arguments nil constant_value a a o o) p)
            ∙ ap (λ o. and_then o (check_all nil value v w)) e
            ∙ check_all-twice a w x v s,
      )

  -- A constant before three other arguments: the event of the last one panics.
  pub check_all-panics :
      (k a b c : ℕ) (x v : V)
      → constant_value k ≡ some x
      → constant_value a ≡ none
      → constant_value b ≡ none
      → constant_value c ≡ none
      → check_all nil value v c (set_arguments nil constant_value (k ∷ a ∷ b ∷ c ∷ [])) ≡ none
  unfolding set_arguments check_all feature_list waiting_from index_features
  check_all-panics k a b c x v p q r s =
      let g : Generic V = record {
        c = held x ∷ waiting a ∷ waiting b ∷ waiting c ∷ [];
        nc = (c, 3) ∷ (b, 2) ∷ (a, 1) ∷ [];
        state = false ∷ false ∷ false ∷ [];
      } in
      let start : List (Slot V) → Answer nil value = λ slots.
        check_all nil value v c
          (tracked nil constant_value slots (waiting_from nil constant_value 0 slots)) in
      let list : feature_list nil constant_value (k ∷ a ∷ b ∷ c ∷ []) ≡ g.c =
        rw (p, q, r, s) refl in
      let last : index_of g.nc c ≡ 3 =
        if_both (λ z. z ≡ 3) (c == c) 3 _ (λ _. refl) (λ e. absurd (same_test c e)) in
      ap start list ∙ ap (λ i. check_generic nil value i g) last
