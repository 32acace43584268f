-- ===== src/CallGraph/Termination.antt =====
-- flows/ast.go: expand ends where the definition of a composite feature uses features of lower rank.
use go_flows.Shared.{
  ℕ, zero, suc, ◌<◌, ◌≡◌, ◌≢◌, sym, subst, refl, Option, none, some, Key, arith, if_both,
}
use go_flows.CallGraph.Ast.{
  FeatureType, Base, Ast, raw, register, constant, call, Args, no_args, arg, Result, error, bind,
  Error,
}
use go_flows.CallGraph.Lower.{assign, set_export}
use go_flows.CallGraph.Parse.{Specs, list, make_fragment}
use go_flows.CallGraph.Expand.{
  Composites, enlarged, expanded, expand_fragment, expand_call, expand_args,
}
use go_flows.CallGraph.Ranks.{
  Below, BelowArgs, BelowSpecs, rest_of, BelowArgs-mono, Fueled, bind-Fueled, ok-Fueled,
  make_fragment-Fueled, definition-Below,
}

module _ (input : FeatureType) (composites : Composites) (rank : Key → ℕ) where
  -- The arguments of each definition use features of lower rank.
  abbrev pub Ranked : Type 0
  Ranked =
      (name : Key) (definition : Specs)
      → composites name ≡ some definition
      → BelowSpecs rank (rank name) (rest_of definition)

  -- Arguments of rank below `n` are expanded without want of fuel.
  abbrev Expands : ℕ → (Args → Result Args) → Type 0
  Expands n inner = (m : ℕ) (args : Args) → m < n → BelowArgs rank m args → Fueled (inner args)

  enlarged-Fueled :
      (b d : Base) (l : Args) (inner : Args → Result Args)
      → Fueled (inner l)
      → Fueled (bind (assign d (call b l)) (enlarged input composites d.name inner))
  enlarged-Fueled b d l inner h =
      if_both (λ z. Fueled (enlarged input composites d.name inner z)) d.export
        (set_export d.export_name (call b l)) (call b l)
        (λ _. bind-Fueled (inner l) _ h (λ x _. ok-Fueled _))
        (λ _. bind-Fueled (inner l) _ h (λ x _. ok-Fueled _))

  expanded-Fueled :
      (b : Base) (inner : Args → Result Args) (o : Option Specs) (args : Result Args) (n : ℕ)
      → Ranked
      → Expands n inner
      → rank b.name < n
      → composites b.name ≡ o
      → Fueled args
      → Fueled (expanded input composites b inner o args)
  expanded-Fueled b inner none args n r x k e h = bind-Fueled args _ h (λ l _. ok-Fueled _)
  expanded-Fueled b inner (some definition) args n r x k e h =
      bind-Fueled (make_fragment input b.id (list definition)) _
        (make_fragment-Fueled input rank b.id (list definition))
        (λ a q.
          let (d, l, p, w) =
            definition-Below input rank b.id (rank b.name) definition a (r b.name definition e) q in
          subst (λ z. Fueled (bind (assign b z) (enlarged input composites b.name inner))) (sym p)
            (enlarged-Fueled d b l inner (x (rank b.name) l k w)))

  mutual
    unfolding Below expand_fragment

    fragment-Fueled :
        (n : ℕ) (inner : Args → Result Args) (a : Ast)
        → Ranked
        → Expands n inner
        → Below rank n a
        → Fueled (expand_fragment input composites inner a)
    fragment-Fueled n inner raw r x b = ok-Fueled _
    fragment-Fueled n inner (register y t) r x b = ok-Fueled _
    fragment-Fueled n inner (constant d v) r x b = ok-Fueled _
    fragment-Fueled n inner (call d args) r x b =
        expanded-Fueled d inner (composites d.name) (expand_call input composites inner args) n r x
          b.0 refl (call-Fueled n inner args r x b.1)

    call-Fueled :
        (n : ℕ) (inner : Args → Result Args) (args : Args)
        → Ranked
        → Expands n inner
        → BelowArgs rank n args
        → Fueled (expand_call input composites inner args)
    call-Fueled n inner no_args r x b = ok-Fueled _
    call-Fueled n inner (arg a args) r x b =
        bind-Fueled (expand_fragment input composites inner a) _ (fragment-Fueled n inner a r x b.0)
          (λ c _.
            bind-Fueled (expand_call input composites inner args) _
              (call-Fueled n inner args r x b.1) (λ l _. ok-Fueled _))

  expand_args-Expands : (n : ℕ) → Ranked → Expands n (expand_args input composites n)
  unfolding expand_args
  expand_args-Expands zero r m args l b = absurd (omega arith)
  expand_args-Expands (suc n) r m args l b =
      call-Fueled n (expand_args input composites n) args r (expand_args-Expands n r)
        (BelowArgs-mono rank m n args (omega arith) b)

  -- Where the features in the arguments of each definition have a lower rank than the composite feature, the
  -- expansion ends: `n + 1` units of fuel are enough for arguments whose features have ranks below `n`.
  pub expand_args-Fueled :
      (n : ℕ) (args : Args)
      → Ranked
      → BelowArgs rank n args
      → expand_args input composites (suc n) args ≢ error Error.out_of_fuel
  unfolding expand_args
  expand_args-Fueled n args r b =
      call-Fueled n (expand_args input composites n) args r (expand_args-Expands n r) b
