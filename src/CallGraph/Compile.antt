-- ===== src/CallGraph/Compile.antt =====
-- flows/ast.go: the phases of compile, without resolve, which attaches ipfix types.
use go_flows.Shared.{ℕ, List, [], ◌∷◌, none, Key}
use go_flows.CallGraph.Ast.{FeatureType, FeatureMaker, Ast, Result, ok, error, bind, Error}
use go_flows.CallGraph.Build.{Registry, get_features, build}
use go_flows.CallGraph.Lower.{expand_select, lower_fragment}
use go_flows.CallGraph.Simplify.{simplify}
use go_flows.CallGraph.Expand.{Composites, expand_all}

-- `for i := range a.fragments`, until one fails.
unfoldable pub each_fragment : (Ast → Result Ast) → List Ast → Result (List Ast)
each_fragment f [] = ok []
each_fragment f (a ∷ rest) = bind (f a) (λ c. bind (each_fragment f rest) (λ cs. ok (c ∷ cs)))

-- A filter is the first registered one of its name.
abbrev pub first_filter : Key → List FeatureMaker → Result FeatureMaker
first_filter name [] = error (Error.no_candidate name FeatureType.raw_packet 1)
first_filter name (c ∷ _) = ok c

unfoldable pub build_filters : Registry → List Key → Result (List FeatureMaker)
build_filters reg [] = ok []
build_filters reg (n ∷ rest) =
    bind (first_filter n (get_features reg n FeatureType.raw_packet 1))
      (λ c. bind (build_filters reg rest) (λ cs. ok (c ∷ cs)))

unfoldable pub build_all :
    Registry → FeatureType → List Key → List Ast → Result (List Ast × List FeatureMaker)
build_all reg ret filters fs =
    bind (each_fragment (λ a. build reg a ret) fs)
      (λ built. bind (build_filters reg filters) (λ l. ok (built, l)))

unfoldable pub expand_select_all : FeatureType → List Ast → Result (List Ast)
expand_select_all input fs = each_fragment (expand_select input) fs

unfoldable pub lower_all : List Ast → Result (List Ast)
lower_all fs = each_fragment (λ a. lower_fragment a none) fs

-- The phases after build.
unfoldable pub optimise : FeatureType → List Ast → Result (List Ast)
optimise input fs = bind (expand_select_all input fs) (λ s. bind (lower_all s) simplify)

-- The phases in their order, without the log; resolve would stand between lower and simplify.
unfoldable pub compile :
    FeatureType
    → FeatureType
    → ℕ
    → Composites
    → Registry
    → List Key
    → List Ast
    → Result (List Ast × List FeatureMaker)
compile input ret fuel composites reg filters fs =
    bind (expand_all input composites fuel fs)
      (λ e. bind (build_all reg ret filters e) (λ r. bind (optimise input r.0) (λ o. ok (o, r.1))))
