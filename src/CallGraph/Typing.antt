-- ===== src/CallGraph/Typing.antt =====
-- flows/ast.go: build gives well typed trees.
use mathlib.Core.List.{append-nil, append_assoc}
use go_flows.Shared.{
  ℕ, suc, ◌+◌, ◌≡◌, ap, sym, ◌∙◌, subst, refl, true, false, List, [], ◌∷◌, ◌++◌, map, none, some,
  if◌then◌else◌, Bool-cases, Key, get_elem?, length, replicate, ◌⊎◌, inl, inr, arith,
  length-replicate,
}
use go_flows.CallGraph.Ast.{
  FeatureType, FeatureMaker, Ast, raw, register, constant, call, Args, no_args, arg,
}
use go_flows.CallGraph.Machine.{and_then-some, some-eq}
use go_flows.CallGraph.Build.{
  Registry, is_ellipsis, is_variadic, matched, written, fill_from, spread, check_ellipsis,
  arg_types, constant_maker,
}

none_not_some {ℓ} : {A : Type ℓ} {a : A} → none ≡ some a → ⊥
none_not_some e = cc

true_not_false : true ≡ false → ⊥
true_not_false e = cc

-- The types that a signature accepts for the result `ret`: those it lists, or, when it ends in an ellipsis,
-- those before it, and the last of them any number of times.
unfoldable pub Accepts : FeatureType → List FeatureType → List FeatureType → Type 0
Accepts ret arguments ts =
    (ts ≡ map (matched ret) arguments)
    ⊎ ((front : List FeatureType) × (a : FeatureType) × (e : FeatureType) × (m : ℕ) × (arguments
          ≡ front ++ a ∷ e ∷ [])
        × (is_ellipsis (matched ret e) ≡ true)
        × (ts ≡ map (matched ret) front ++ replicate (suc m) (matched ret a)))

abbrev pub Member : FeatureMaker → List FeatureMaker → Type 0
Member c [] = ⊥
Member c (f ∷ fs) = (f ≡ c) ⊎ Member c fs

-- A feature of that name with that result, or one whose result matches any.
abbrev pub Registered : Registry → Key → FeatureType → FeatureMaker → Type 0
Registered reg name ret c = Member c (reg ret name) ⊎ Member c (reg FeatureType.match_type name)

-- A fragment has a type, and so have its arguments: a call is of a registered feature that accepts the types
-- of its arguments.
unfoldable mutual
  pub Typed : Registry → FeatureType → Ast → Type 0
  Typed reg ret raw = ret ≡ FeatureType.raw_packet
  Typed reg ret (register r t) = ⊥
  Typed reg ret (constant b v) = b.feature ≡ some constant_maker
  Typed reg ret (call b args) =
      ((b.control ≡ true)
        × (b.ret ≡ FeatureType.control_feature)
        × (c : FeatureMaker) × (b.feature ≡ some c)
        × Registered reg b.name FeatureType.control_feature c)
      ⊎ ((b.ret ≡ ret)
          × (c : FeatureMaker) × (ts : List FeatureType) × (b.feature ≡ some c)
          × Registered reg b.name ret c
          × Accepts ret c.arguments ts
          × TypedArgs reg ts args)

  pub TypedArgs : Registry → List FeatureType → Args → Type 0
  TypedArgs reg [] no_args = Unit
  TypedArgs reg (t ∷ ts) (arg a args) = Typed reg t a × TypedArgs reg ts args
  TypedArgs reg ts args = ⊥

written_lem :
    (ret : FeatureType) (xs us ts : List FeatureType)
    → written ret xs us ≡ some ts
    → (rest : List FeatureType) × (ts ≡ map (matched ret) xs ++ rest)
      × (length us ≡ length xs + length rest)
unfolding written
written_lem ret [] us ts e = (us, sym (some-eq e), omega arith)
written_lem ret (x ∷ xs) [] ts e = absurd (cc)
written_lem ret (x ∷ xs) (u ∷ us) ts e =
    let (vs, p, q) = and_then-some (written ret xs us) _ ts e in
    let (rest, h, k) = written_lem ret xs us vs p in
    (rest, sym (some-eq q) ∙ ap (λ z. matched ret x ∷ z) h, omega (arith, k))

abbrev LastView : List FeatureType → Type 0
LastView xs = (xs ≡ []) ⊎ ((front : List FeatureType) × (e : FeatureType) × (xs ≡ front ++ e ∷ []))

last_view : (xs : List FeatureType) → LastView xs
last_view [] = inl refl
last_view (x ∷ xs) = inr (elim (last_view xs) [
  | inl e ↦ ([], x, ap (λ z. x ∷ z) e)
  | inr (f, l, e) ↦ (x ∷ f, l, ap (λ z. x ∷ z) e)
])

length-snoc : (xs : List FeatureType) (e : FeatureType) → length (xs ++ e ∷ []) ≡ suc (length xs)
length-snoc [] e = refl
length-snoc (x ∷ xs) e = ap suc (length-snoc xs e)

length-map : (f : FeatureType → FeatureType) (xs : List FeatureType) → length (map f xs) ≡ length xs
length-map f [] = refl
length-map f (x ∷ xs) = ap suc (length-map f xs)

get_elem?-map :
    (f : FeatureType → FeatureType) (xs ys zs : List FeatureType) (y : FeatureType)
    → get_elem? (map f (xs ++ y ∷ ys) ++ zs) (length xs) ≡ some (f y)
get_elem?-map f [] ys zs y = refl
get_elem?-map f (x ∷ xs) ys zs y = get_elem?-map f xs ys zs y

is_variadic-snoc :
    (xs : List FeatureType) (e : FeatureType) → is_variadic (xs ++ e ∷ []) ≡ is_ellipsis e
is_variadic-snoc [] e = refl
is_variadic-snoc (x ∷ []) e = refl
is_variadic-snoc (x ∷ y ∷ xs) e = is_variadic-snoc (y ∷ xs) e

is_ellipsis-matched :
    (ret e : FeatureType) → is_ellipsis e ≡ true → is_ellipsis (matched ret e) ≡ true
is_ellipsis-matched ret FeatureType.ellipsis h = refl
is_ellipsis-matched ret _ h = absurd (cc)

fill_from-zero :
    (v : FeatureType) (zs : List FeatureType) → fill_from 0 v zs ≡ replicate (length zs) v
unfolding fill_from
fill_from-zero v [] = refl
fill_from-zero v (z ∷ zs) = ap (λ l. v ∷ l) (fill_from-zero v zs)

fill_from-map :
    (f : FeatureType → FeatureType) (xs rest : List FeatureType) (a e : FeatureType)
    → fill_from (suc (length xs)) (f a) (map f (xs ++ a ∷ e ∷ []) ++ rest)
      ≡ map f xs ++ replicate (suc (suc (length rest))) (f a)
unfolding fill_from
fill_from-map f [] rest a e = ap (λ l. f a ∷ f a ∷ l) (fill_from-zero (f a) rest)
fill_from-map f (x ∷ xs) rest a e = ap (λ l. f x ∷ l) (fill_from-map f xs rest a e)

spread-Accepts :
    (ret : FeatureType) (front rest us : List FeatureType) (e : FeatureType)
    → is_ellipsis (matched ret e) ≡ true
    → spread (length front) (map (matched ret) (front ++ e ∷ []) ++ rest) ≡ some us
    → Accepts ret (front ++ e ∷ []) us
unfolding Accepts
spread-Accepts ret front rest us e l h = elim (last_view front) [
  | inl n ↦ absurd (
      none_not_some
        (sym (ap (λ z. spread (length z) (map (matched ret) (z ++ e ∷ []) ++ rest)) n) ∙ h))
  | inr (f, a, n) ↦
      let types : List FeatureType → List FeatureType = λ z. map (matched ret) z ++ rest in
      let shape : front ++ e ∷ [] ≡ f ++ a ∷ e ∷ [] =
        ap (λ z. z ++ e ∷ []) n ∙ append_assoc f (a ∷ []) (e ∷ []) in
      let h' : spread (suc (length f)) (types (f ++ a ∷ e ∷ [])) ≡ some us =
        sym (
          ap (λ k. spread k (types (front ++ e ∷ []))) (ap length n ∙ length-snoc f a)
          ∙ ap (λ z. spread (suc (length f)) (types z)) shape)
        ∙ h in
      let (v, p, q) = and_then-some (get_elem? (types (f ++ a ∷ e ∷ [])) (length f)) _ us h' in
      let w : v ≡ matched ret a = some-eq (sym p ∙ get_elem?-map (matched ret) f (e ∷ []) rest a) in
      inr (
        f,
        a,
        e,
        suc (length rest),
        shape,
        l,
        sym (some-eq q)
            ∙ ap (λ z. fill_from (suc (length f)) z (types (f ++ a ∷ e ∷ []))) w
            ∙ fill_from-map (matched ret) f rest a e,
      )
]

-- A candidate that getFeatures returns for `n` arguments.
abbrev pub Fits : ℕ → FeatureMaker → Type 0
Fits n c = (is_variadic c.arguments ≡ true) ⊎ (length c.arguments ≡ n)

no_rest : (l n k : ℕ) → l ≡ n → n ≡ l + k → k ≡ 0
no_rest l n k e h = omega arith

empty-length : (xs : List FeatureType) → length xs ≡ 0 → xs ≡ []
empty-length [] h = refl
empty-length (x ∷ xs) h = absurd (omega arith)

exact-Accepts :
    (ret : FeatureType) (n : ℕ) (c : FeatureMaker) (front rest ts : List FeatureType)
    (e : FeatureType)
    → Fits n c
    → c.arguments ≡ front ++ e ∷ []
    → is_ellipsis (matched ret e) ≡ false
    → ts ≡ map (matched ret) c.arguments ++ rest
    → n ≡ length c.arguments + length rest
    → Accepts ret c.arguments ts
unfolding Accepts
exact-Accepts ret n c front rest ts e (inl v) s l t k = absurd (
    true_not_false (
      sym (is_ellipsis-matched ret e (sym (is_variadic-snoc front e) ∙ sym (ap is_variadic s) ∙ v))
      ∙ l))
exact-Accepts ret n c front rest ts e (inr v) s l t k = inl (
    t
    ∙ ap (λ z. map (matched ret) c.arguments ++ z)
        (empty-length rest (no_rest _ n (length rest) v k))
    ∙ append-nil (map (matched ret) c.arguments))

pub arg_types-Accepts :
    (ret : FeatureType) (n : ℕ) (c : FeatureMaker) (us : List FeatureType)
    → Fits n c
    → arg_types ret n c.arguments ≡ some us
    → Accepts ret c.arguments us
unfolding arg_types
arg_types-Accepts ret n c us fits h =
    let (ts, p, q) =
      and_then-some (written ret c.arguments (replicate n FeatureType.unknown)) _ us h in
    let (rest, t, k) = written_lem ret c.arguments _ ts p in
    elim (last_view c.arguments) [
      | inl e ↦ absurd (none_not_some (sym (ap (λ z. check_ellipsis (length z) ts) e) ∙ q))
      | inr (front, e, s) ↦
          let q' = sym (ap (λ z. check_ellipsis z ts) (ap length s ∙ length-snoc front e)) ∙ q in
          let (v, x, y) = and_then-some (get_elem? ts (length front)) _ us q' in
          let at : v ≡ matched ret e = some-eq (
            sym x
            ∙ ap (λ z. get_elem? z (length front)) (t ∙ ap (λ z. map (matched ret) z ++ rest) s)
            ∙ get_elem?-map (matched ret) front [] rest e) in
          elim (Bool-cases (is_ellipsis v)) [
            | inl l ↦
                subst (λ z. Accepts ret z us) (sym s)
                  (spread-Accepts ret front rest us e (sym (ap is_ellipsis at) ∙ l) (
                    ap (spread (length front)) (sym (t ∙ ap (λ z. map (matched ret) z ++ rest) s))
                    ∙ sym (ap (λ z. if z then spread (length front) ts else some ts) l)
                    ∙ y))
            | inr l ↦
                exact-Accepts ret n c front rest us e fits s (sym (ap is_ellipsis at) ∙ l)
                  (sym (
                      some-eq
                        (sym (ap (λ z. if z then spread (length front) ts else some ts) l) ∙ y))
                    ∙ t)
                  (sym (length-replicate n FeatureType.unknown) ∙ k)
          ]
    ]
