-- ===== src/CallGraph/Expand.antt =====
-- flows/ast.go: expand. A composite feature is replaced by its definition, whose arguments are expanded
-- again: this takes a unit of fuel. The attributes for ipfix types are left out.
use go_flows.Shared.{ℕ, zero, suc, List, [], ◌∷◌, Option, none, some, Key}
use go_flows.CallGraph.Ast.{
  FeatureType, Base, Ast, call, Args, no_args, arg, Result, ok, error, bind, Error,
}
use go_flows.CallGraph.Lower.{assign}
use go_flows.CallGraph.Parse.{Specs, list, make_fragment, as_pair, test_error}

-- `compositeFeatures[name]`, by its definition.
abbrev pub Composites : Type 0
Composites = Key → Option Specs

module _ (input : FeatureType) (composites : Composites) where
  -- The definition of a composite feature, with the name of the feature and its arguments expanded.
  abbrev pub enlarged : Key → (Args → Result Args) → Ast → Result Ast
  enlarged name inner (call b args) =
      bind (inner args) (λ l. ok (call (record b { composite = name }) l))
  enlarged name inner a = ok a

  -- A call, by the definition of its name, when its arguments were expanded.
  abbrev pub expanded : Base → (Args → Result Args) → Option Specs → Result Args → Result Ast
  expanded b inner none args = bind args (λ l. ok (call b l))
  expanded b inner (some definition) args =
      bind (make_fragment input b.id (list definition))
        (λ n. bind (assign b n) (enlarged b.name inner))

  unfoldable mutual
    pub expand_fragment : (Args → Result Args) → Ast → Result Ast
    expand_fragment inner (call b args) =
        expanded b inner (composites b.name) (expand_call inner args)
    expand_fragment inner a = ok a

    pub expand_call : (Args → Result Args) → Args → Result Args
    expand_call inner no_args = ok no_args
    expand_call inner (arg a args) =
        bind (expand_fragment inner a) (λ c. bind (expand_call inner args) (λ l. ok (arg c l)))

  unfoldable pub expand_args : ℕ → Args → Result Args
  expand_args zero args = error Error.out_of_fuel
  expand_args (suc k) args = expand_call (expand_args k) args

  -- The error of a fragment has the id of what it was replaced by, which is nil beside an error.
  unfoldable pub expand_all : ℕ → List Ast → Result (List Ast)
  expand_all k [] = ok []
  expand_all k (a ∷ rest) =
      bind (as_pair (expand_fragment (expand_args k) a))
        (λ r. test_error r.0 r.1 (λ c. bind (expand_all k rest) (λ l. ok (c ∷ l))))
