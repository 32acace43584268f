-- ===== src/CallGraph/Ranks.antt =====
-- flows/ast.go: expand ends where composite features are defined by features of lower rank.
use go_flows.Shared.{ℕ, ◌≤◌, ◌<◌, ◌≡◌, ◌≢◌, ap, sym, ◌∙◌, subst, refl, Key, arith}
use go_flows.CallGraph.Ast.{
  FeatureType, Base, Ast, raw, register, constant, call, Args, no_args, arg, Result, ok, error,
  panic, bind, Error,
}
use go_flows.CallGraph.Lower.{make_raw}
use go_flows.CallGraph.Parse.{
  Spec, Specs, text, list, number, other, no_specs, spec, make_fragment, make_args, new_base,
}
use go_flows.CallGraph.Sharing.{bind-ok, ok-eq}
use go_flows.CallGraph.Binding.{make_raw-ok}

-- The arguments of a definition.
abbrev pub rest_of : Specs → Specs
rest_of no_specs = no_specs
rest_of (spec s rest) = rest

-- Every call of a fragment has a name of a rank below `n`.
module _ (rank : Key → ℕ) where
  unfoldable mutual
    pub Below : ℕ → Ast → Type 0
    Below n (call b args) = (rank b.name < n) × BelowArgs n args
    Below n a = Unit

    pub BelowArgs : ℕ → Args → Type 0
    BelowArgs n no_args = Unit
    BelowArgs n (arg a args) = Below n a × BelowArgs n args

  -- The same of a specification.
  unfoldable mutual
    pub BelowSpec : ℕ → Spec → Type 0
    BelowSpec n (text k) = rank k < n
    BelowSpec n (list s) = BelowSpecs n s
    BelowSpec n (number v) = Unit
    BelowSpec n other = Unit

    pub BelowSpecs : ℕ → Specs → Type 0
    BelowSpecs n no_specs = Unit
    BelowSpecs n (spec s rest) = BelowSpec n s × BelowSpecs n rest

  mutual
    unfolding Below

    Below-mono : (m n : ℕ) (a : Ast) → m ≤ n → Below m a → Below n a
    Below-mono m n raw h b = tt
    Below-mono m n (register r t) h b = tt
    Below-mono m n (constant d v) h b = tt
    Below-mono m n (call d args) h b = (omega (arith, h, b.0), BelowArgs-mono m n args h b.1)

    pub BelowArgs-mono : (m n : ℕ) (args : Args) → m ≤ n → BelowArgs m args → BelowArgs n args
    BelowArgs-mono m n no_args h b = tt
    BelowArgs-mono m n (arg a args) h b = (Below-mono m n a h b.0, BelowArgs-mono m n args h b.1)

-- A result that is not for want of fuel.
abbrev pub Fueled {ℓ} : {A : Type ℓ} → Result A → Type ℓ
Fueled r = r ≢ error Error.out_of_fuel

pub ok-Fueled {ℓ} : {A : Type ℓ} (a : A) → Fueled (ok a)
ok-Fueled a e = absurd (cc)

error_eq {ℓ} : {A : Type ℓ} {x y : Error} → Path (Result A) (error x) (error y) → x ≡ y
error_eq e = cc

pub bind-Fueled {ℓ κ} :
    {A : Type ℓ} {B : Type κ} (m : Result A) (f : A → Result B)
    → Fueled m
    → ((a : A) → m ≡ ok a → Fueled (f a))
    → Fueled (bind m f)
bind-Fueled (ok a) f h g = g a refl
bind-Fueled (error x) f h g = λ e. h (ap error (error_eq e))
bind-Fueled panic f h g = λ e. absurd (cc)

module _ (input : FeatureType) (rank : Key → ℕ) where
  make_raw-Fueled : (t : FeatureType) → Fueled (make_raw t)
  make_raw-Fueled FeatureType.raw_packet e = absurd (cc)
  make_raw-Fueled _ e = absurd (cc)

  mutual
    unfolding make_fragment

    pub make_fragment-Fueled : (id : ℕ) (s : Spec) → Fueled (make_fragment input id s)
    make_fragment-Fueled id (text k) =
        bind-Fueled (make_raw input) _ (make_raw-Fueled input) (λ r _. ok-Fueled _)
    make_fragment-Fueled id (list no_specs) = λ e. absurd (cc)
    make_fragment-Fueled id (list (spec (text k) rest)) =
        bind-Fueled (make_args input id rest) _ (make_args-Fueled id rest) (λ l _. ok-Fueled _)
    make_fragment-Fueled id (list (spec (list l) rest)) = λ e. absurd (cc)
    make_fragment-Fueled id (list (spec (number v) rest)) = λ e. absurd (cc)
    make_fragment-Fueled id (list (spec other rest)) = λ e. absurd (cc)
    make_fragment-Fueled id (number v) = ok-Fueled _
    make_fragment-Fueled id other = λ e. absurd (cc)

    make_args-Fueled : (id : ℕ) (s : Specs) → Fueled (make_args input id s)
    make_args-Fueled id no_specs = ok-Fueled _
    make_args-Fueled id (spec s rest) =
        bind-Fueled (make_fragment input id s) _ (make_fragment-Fueled id s) (λ a _.
          bind-Fueled (make_args input id rest) _ (make_args-Fueled id rest) (λ l _. ok-Fueled _))

  mutual
    unfolding make_fragment Below BelowSpec

    make_fragment-Below :
        (id n : ℕ) (s : Spec) (a : Ast)
        → BelowSpec rank n s
        → make_fragment input id s ≡ ok a
        → Below rank n a
    make_fragment-Below id n (text k) a b e =
        let (r, p, q) = bind-ok (make_raw input) _ a e in
        subst (Below rank n)
          (ap (λ z. call (new_base id k) (arg z no_args)) (sym (make_raw-ok input r p)) ∙ ok-eq q)
          (b, (tt, tt))
    make_fragment-Below id n (list no_specs) a b e = absurd (cc)
    make_fragment-Below id n (list (spec (text k) rest)) a b e =
        let (l, p, q) = bind-ok (make_args input id rest) _ a e in
        subst (Below rank n) (ok-eq q) (b.0, make_args-Below id n rest l b.1 p)
    make_fragment-Below id n (list (spec (list l) rest)) a b e = absurd (cc)
    make_fragment-Below id n (list (spec (number v) rest)) a b e = absurd (cc)
    make_fragment-Below id n (list (spec other rest)) a b e = absurd (cc)
    make_fragment-Below id n (number v) a b e = subst (Below rank n) (ok-eq e) tt
    make_fragment-Below id n other a b e = absurd (cc)

    make_args-Below :
        (id n : ℕ) (s : Specs) (l : Args)
        → BelowSpecs rank n s
        → make_args input id s ≡ ok l
        → BelowArgs rank n l
    make_args-Below id n no_specs l b e = subst (BelowArgs rank n) (ok-eq e) tt
    make_args-Below id n (spec s rest) l b e =
        let (a, p, q) = bind-ok (make_fragment input id s) _ l e in
        let (r, u, h) = bind-ok (make_args input id rest) _ l q in
        subst (BelowArgs rank n) (ok-eq h)
          (make_fragment-Below id n s a b.0 p, make_args-Below id n rest r b.1 u)

  -- A definition is a call whose arguments are those of the list.
  pub definition-Below :
      (id n : ℕ) (s : Specs) (a : Ast)
      → BelowSpecs rank n (rest_of s)
      → make_fragment input id (list s) ≡ ok a
      → (b : Base) × (l : Args) × (a ≡ call b l) × BelowArgs rank n l
  unfolding make_fragment BelowSpec
  definition-Below id n no_specs a b e = absurd (cc)
  definition-Below id n (spec (text k) rest) a b e =
      let (l, p, q) = bind-ok (make_args input id rest) _ a e in
      (_, l, sym (ok-eq q), make_args-Below id n rest l b p)
  definition-Below id n (spec (list l) rest) a b e = absurd (cc)
  definition-Below id n (spec (number v) rest) a b e = absurd (cc)
  definition-Below id n (spec other rest) a b e = absurd (cc)
