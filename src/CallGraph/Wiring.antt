-- ===== src/CallGraph/Wiring.antt =====
-- flows/ast.go: the two tables of convert are inverse, and convert does not fail on simplified fragments.
use go_flows.Shared.{
  ℕ, zero, suc, ◌+◌, ◌<◌, ◌≡◌, ap, sym, ◌∙◌, subst, refl, Bool, true, false, List, [], ◌∷◌, Option,
  some, if◌then◌else◌, if_both, ◌==◌, length, replicate, arith, All, ltb, length-replicate, ◌⊎◌,
  inl, inr, ◌≤◌,
}
use go_flows.ExportSort.Chains.{count, count-append}
use go_flows.CallGraph.Ast.{
  Base, Ast, raw, register, constant, call, Args, no_args, arg, is_raw, register_of,
}
use go_flows.CallGraph.Machine.{and_then, and_then-some, some-eq}
use go_flows.CallGraph.Sharing.{Ordered, ArgsBelow}
use go_flows.CallGraph.Convert.{
  Wiring, push_at, connect, connect_args, add_event, add_feature, add_control, add_export,
  add_variant, variants_of, wire, wire_fragment, wire_all, no_wiring, convert,
}

-- The list at an index, which is empty out of range.
abbrev pub row : List (List ℕ) → ℕ → List ℕ
row [] i = []
row (x ∷ xs) zero = x
row (x ∷ xs) (suc i) = row xs i

-- Register `a` is an argument of `r` as often as `r` is called for `a`.
abbrev pub Inverse : Wiring → Type 0
Inverse w = (r a : ℕ) → count a (row w.args r) ≡ count r (row w.tocall a)

-- One more entry `v` at `i`.
abbrev one : ℕ → ℕ → ℕ → ℕ → ℕ
one i j v q = if i == j then (if v == q then 1 else 0) else 0

count-push_at :
    (i v : ℕ) (xs ys : List (List ℕ)) (j q : ℕ)
    → push_at i v xs ≡ some ys
    → count q (row ys j) ≡ count q (row xs j) + one i j v q
unfolding push_at
count-push_at i v [] ys j q e = absurd (cc)
count-push_at zero v (x ∷ xs) ys zero q e =
    ap (λ z. count q (row z 0)) (sym (some-eq e)) ∙ omega (arith, count-append q x (v ∷ []))
count-push_at zero v (x ∷ xs) ys (suc j) q e =
    ap (λ z. count q (row z (suc j))) (sym (some-eq e)) ∙ ground arith
count-push_at (suc i) v (x ∷ xs) ys zero q e =
    let (zs, p, h) = and_then-some (push_at i v xs) _ ys e in
    ap (λ z. count q (row z 0)) (sym (some-eq h)) ∙ ground arith
count-push_at (suc i) v (x ∷ xs) ys (suc j) q e =
    let (zs, p, h) = and_then-some (push_at i v xs) _ ys e in
    ap (λ z. count q (row z (suc j))) (sym (some-eq h))
    ∙ ground (arith, count-push_at i v xs zs j q p)

connect-Inverse : (r a : ℕ) (w v : Wiring) → Inverse w → connect r a w ≡ some v → Inverse v
connect-Inverse r a w v h e =
    let (xs, p, q) = and_then-some (push_at r a w.args) _ v e in
    let (ys, t, u) = and_then-some (push_at a r w.tocall) _ v q in
    subst Inverse (some-eq u) (λ i j.
      ground (arith, count-push_at r a w.args xs i j p, count-push_at a r w.tocall ys j i t, h i j))

connect_args-Inverse :
    (r : ℕ) (args : Args) (w v : Wiring) → Inverse w → connect_args r args w ≡ some v → Inverse v
unfolding connect_args
connect_args-Inverse r no_args w v h e = subst Inverse (some-eq e) h
connect_args-Inverse r (arg a args) w v h e =
    let (u, p, q) =
      and_then-some (if is_raw a then some (add_event r w) else connect r (register_of a) w) _ v
        e in
    connect_args-Inverse r args u v
      (if_both (λ z. z ≡ some u → Inverse u) (is_raw a) (some (add_event r w))
        (connect r (register_of a) w) (λ _ k. subst Inverse (some-eq k) h)
        (λ _ k. connect-Inverse r (register_of a) w u h k) p)
      q

attributes-Inverse :
    (m n : Bool) (r : ℕ) (w : Wiring) → Inverse w → Inverse (add_variant n r (add_export m r w))
attributes-Inverse true true r w h = h
attributes-Inverse true false r w h = h
attributes-Inverse false true r w h = h
attributes-Inverse false false r w h = h

-- The fragment with its attributes, after its arguments.
abbrev marked : Base → Wiring → Wiring
marked b w =
    add_variant (ltb 0 (variants_of b.feature)) b.register (add_export b.export b.register w)

wire-Inverse :
    (b : Base) (args : Args) (w v : Wiring) → Inverse w → wire b args w ≡ some v → Inverse v
wire-Inverse b args w v h e =
    if_both (λ z. z ≡ some v → Inverse v) b.control (some (add_control b (add_feature b w)))
      (and_then (connect_args b.register args (add_feature b w)) (λ u. some (marked b u)))
      (λ _ k. subst Inverse (some-eq k) h)
      (λ _ k.
        let (u, p, q) = and_then-some (connect_args b.register args (add_feature b w)) _ v k in
        subst Inverse (some-eq q) (
          attributes-Inverse b.export (ltb 0 (variants_of b.feature)) b.register u
            (connect_args-Inverse b.register args (add_feature b w) u h p)))
      e

wire_fragment-Inverse :
    (a : Ast) (w v : Wiring) → Inverse w → wire_fragment a w ≡ some v → Inverse v
wire_fragment-Inverse raw w v h e = absurd (cc)
wire_fragment-Inverse (register r t) w v h e = absurd (cc)
wire_fragment-Inverse (constant b x) w v h e = wire-Inverse b no_args w v h e
wire_fragment-Inverse (call b args) w v h e = wire-Inverse b args w v h e

wire_all-Inverse : (fs : List Ast) (w v : Wiring) → Inverse w → wire_all fs w ≡ some v → Inverse v
unfolding wire_all
wire_all-Inverse [] w v h e = subst Inverse (some-eq e) h
wire_all-Inverse (a ∷ fs) w v h e =
    let (u, p, q) = and_then-some (wire_fragment a w) _ v e in
    wire_all-Inverse fs u v (wire_fragment-Inverse a w u h p) q

row-replicate : (n i : ℕ) → row (replicate n []) i ≡ []
row-replicate zero i = refl
row-replicate (suc n) zero = refl
row-replicate (suc n) (suc i) = row-replicate n i

no_wiring-Inverse : (n : ℕ) → Inverse (no_wiring n)
no_wiring-Inverse n r a = ap (count a) (row-replicate n r) ∙ sym (ap (count r) (row-replicate n a))

-- The tables have a row for each of `n` registers.
abbrev Sized : ℕ → Wiring → Type 0
Sized n w = (length w.args ≡ n) × (length w.tocall ≡ n)

abbrev Wired : ℕ → Option Wiring → Type 0
Wired n o = (v : Wiring) × (o ≡ some v) × Sized n v

push_at-some :
    (i v : ℕ) (xs : List (List ℕ))
    → i < length xs
    → (ys : List (List ℕ)) × (push_at i v xs ≡ some ys) × (length ys ≡ length xs)
unfolding push_at
push_at-some i v [] h = absurd (omega arith)
push_at-some zero v (x ∷ xs) h = (_, refl, refl)
push_at-some (suc i) v (x ∷ xs) h =
    let (ys, p, q) = push_at-some i v xs (omega arith) in (x ∷ ys, rw p refl, ap suc q)

connect-Wired : (n r a : ℕ) (w : Wiring) → Sized n w → r < n → a < n → Wired n (connect r a w)
connect-Wired n r a w (s, t) h k =
    let (xs, p, q) = push_at-some r a w.args (omega arith) in
    let (ys, p', q') = push_at-some a r w.tocall (omega arith) in
    (record w { args = xs; tocall = ys }, rw (p, p') refl, (q ∙ s, q' ∙ t))

-- One argument, by whether it is raw.
argument-Wired :
    (n r k : ℕ) (a : Ast) (m : Bool) (w : Wiring)
    → Sized n w
    → r < n
    → k ≤ n
    → is_raw a ≡ m
    → (is_raw a ≡ true) ⊎ (register_of a < k)
    → Wired n (if m then some (add_event r w) else connect r (register_of a) w)
argument-Wired n r k a true w s h l e b = (_, refl, s)
argument-Wired n r k a false w s h l e (inl x) = absurd (cc)
argument-Wired n r k a false w s h l e (inr x) =
    connect-Wired n r (register_of a) w s h (omega (arith, x, l))

connect_args-Wired :
    (n r k : ℕ) (args : Args) (w : Wiring)
    → Sized n w
    → r < n
    → k ≤ n
    → ArgsBelow k args
    → Wired n (connect_args r args w)
unfolding connect_args ArgsBelow
connect_args-Wired n r k no_args w s h l b = (w, refl, s)
connect_args-Wired n r k (arg a args) w s h l b =
    let (u, p, t) = argument-Wired n r k a (is_raw a) w s h l refl b.0 in
    let (v, q, t') = connect_args-Wired n r k args u t h l b.1 in (v, rw p q, t')

attributes-Sized :
    (k : ℕ) (m n : Bool) (r : ℕ) (w : Wiring)
    → Sized k w
    → Sized k (add_variant n r (add_export m r w))
attributes-Sized k true true r w h = h
attributes-Sized k true false r w h = h
attributes-Sized k false true r w h = h
attributes-Sized k false false r w h = h

wire-Wired :
    (n : ℕ) (b : Base) (args : Args) (w : Wiring)
    → Sized n w
    → b.register < n
    → ArgsBelow b.register args
    → Wired n (wire b args w)
wire-Wired n b args w s h k =
    let (u, p, t) =
      connect_args-Wired n b.register b.register args (add_feature b w) s h (omega (arith, h)) k in
    if_both (Wired n) b.control (some (add_control b (add_feature b w)))
      (and_then (connect_args b.register args (add_feature b w)) (λ v. some (marked b v)))
      (λ _. (_, refl, s))
      (λ _. (
        marked b u,
        rw p refl,
        attributes-Sized n b.export (ltb 0 (variants_of b.feature)) b.register u t,
      ))

wire_fragment-Wired :
    (n : ℕ) (a : Ast) (w : Wiring) → Sized n w → Ordered n a → Wired n (wire_fragment a w)
unfolding Ordered ArgsBelow
wire_fragment-Wired n raw w s o = absurd o
wire_fragment-Wired n (register r t) w s o = absurd o
wire_fragment-Wired n (constant b v) w s o = wire-Wired n b no_args w s o tt
wire_fragment-Wired n (call b args) w s o = wire-Wired n b args w s o.0 o.1

wire_all-Wired :
    (n : ℕ) (fs : List Ast) (w : Wiring) → Sized n w → All (Ordered n) fs → Wired n (wire_all fs w)
unfolding wire_all
wire_all-Wired n [] w s o = (w, refl, s)
wire_all-Wired n (a ∷ fs) w s o =
    let (u, p, t) = wire_fragment-Wired n a w s o.0 in
    let (v, q, t') = wire_all-Wired n fs u t o.1 in (v, rw p q, t')

-- On fragments whose registers are in range, with arguments at registers below, convert does not fail, and
-- the tables it returns are inverse: `r` has `a` among its arguments as often as `a` calls `r`.
pub convert-Inverse :
    (fs : List Ast)
    → All (Ordered (length fs)) fs
    → (w : Wiring) × (convert fs ≡ some w) × Sized (length fs) w × Inverse w
unfolding convert
convert-Inverse fs o =
    let n = length fs in
    let (w, p, s) =
      wire_all-Wired n fs (no_wiring n) (length-replicate n [], length-replicate n []) o in
    (w, p, s, wire_all-Inverse fs (no_wiring n) w (no_wiring-Inverse n) p)
