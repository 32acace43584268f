-- ===== src/CallGraph/Examples.antt =====
-- Specifications on which the theorems about the compiler hold.
use go_flows.Shared.{
  ◌≢◌, ◌<◌, if_both, if_true, subst, none, ℕ, suc, ◌+◌, ◌≡◌, refl, true, List, [], ◌∷◌, some, Key,
  All, length, inl, inr, arith, if◌then◌else◌, key_eq, lookup, insert,
}
use go_flows.CallGraph.Ast.{
  error, FeatureType, FeatureMaker, Ast, raw, constant, call, Args, no_args, arg, Result, ok, panic,
  Error, string_of,
}
use go_flows.CallGraph.Parse.{Specs, spec, no_specs, text, other, new_base, make_ast}
use go_flows.CallGraph.Build.{
  Registry, get_features, build, fixed, variadic, try_candidates, arg_types, written, fill_from,
}
use go_flows.CallGraph.Lower.{
  select_name, apply_name, is_select, is_map, expand_select, lower_fragment,
}
use go_flows.CallGraph.Compile.{each_fragment, expand_select_all, lower_all, optimise}
use go_flows.CallGraph.Simplify.{simplify, simplify_all, simplify_fragment, link_args, add}
use go_flows.CallGraph.Convert.{Wiring, convert}
use go_flows.CallGraph.Machine.{run}
use go_flows.CallGraph.Printing.{Plain, plain}
use go_flows.CallGraph.Sharing.{Ordered, ArgsBelow}
use go_flows.CallGraph.Optimised.{Exported, run-optimise}
use go_flows.CallGraph.Typing.{Typed}
use go_flows.CallGraph.WellTyped.{build-Typed}
use go_flows.CallGraph.Wiring.{Inverse, convert-Inverse}
use go_flows.CallGraph.Expand.{Composites, expand_args}
use go_flows.CallGraph.Ranks.{Below, BelowSpec, BelowSpecs, rest_of}
use go_flows.CallGraph.Termination.{Ranked, expand_args-Fueled}
use go_flows.CallGraph.Machine.{some-eq}
use go_flows.CallGraph.Accepted.{
  is_raw_input, is_name, is_feature, are_features, are_controls, Answers, make_ast_lem,
}
use go_flows.CallGraph.Within.{Within}
use go_flows.CallGraph.Faults.{build-panics, simplify-refuses}

-- Calls of a feature, and the calls that are exported.
abbrev named : Key → Args → Ast
named n args = call (new_base 1 n) args

abbrev exporting : Key → Args → Ast
exporting n args = call (record (new_base 1 n) { export = true; export_name = n }) args

abbrev size : Ast
size = named (115 ∷ []) (arg raw no_args)

-- `d(apply(s, select(p)), s, 3)`.
abbrev tree : Ast
tree = exporting (100 ∷ []) (
    arg
      (named apply_name (
        arg size
          (arg (named select_name (arg (named (112 ∷ []) (arg raw no_args)) no_args)) no_args)))
      (arg size (arg (constant (new_base 1 (51 ∷ [])) (51 ∷ [])) no_args)))

abbrev total : List ℕ → ℕ
total [] = 0
total (n ∷ ns) = n + total ns

abbrev result_of : Result (List Ast) → List Ast
result_of (ok l) = l
result_of _ = []

abbrev tree_of : Result Ast → Ast
tree_of (ok a) = a
tree_of _ = raw

abbrev optimised : List Ast
optimised = result_of (optimise FeatureType.raw_packet (tree ∷ []))

optimised_six : length optimised ≡ 6
unfolding optimise expand_select_all lower_all each_fragment expand_select lower_fragment is_select
    is_map key_eq simplify simplify_all simplify_fragment link_args add lookup insert string_of
optimised_six = refl

abbrev sum_up : FeatureType → Key → List ℕ → ℕ
sum_up t n vs = suc (total vs)

run-optimise_example :
    (env : List ℕ) × (run 5 length sum_up [] optimised ≡ some env)
    × All (Ordered (length optimised)) optimised
    × All (Exported 5 length sum_up optimised env) (tree ∷ [])
unfolding optimise expand_select_all lower_all each_fragment expand_select lower_fragment is_select
    is_map key_eq simplify simplify_all simplify_fragment link_args add lookup insert string_of
    Plain plain
run-optimise_example =
    run-optimise 5 length sum_up FeatureType.raw_packet (tree ∷ []) optimised
      (
        (
          refl,
          (
            (refl, ((refl, (tt, tt)), ((refl, ((refl, (tt, tt)), tt)), tt))),
            ((refl, (tt, tt)), (refl, tt)),
          ),
        ),
        tt,
      )
      refl

convert-Inverse_example :
    (w : Wiring) × (convert optimised ≡ some w)
    × ((length w.args ≡ length optimised) × (length w.tocall ≡ length optimised))
    × Inverse w
unfolding optimise expand_select_all lower_all each_fragment expand_select lower_fragment is_select
    is_map key_eq simplify simplify_all simplify_fragment link_args add lookup insert string_of
    Ordered ArgsBelow
convert-Inverse_example = convert-Inverse optimised (
  (omega arith, (inl refl, tt)),
  (
    (omega arith, (inr (omega arith), (inl refl, tt))),
    (
      (omega arith, (inr (omega arith), tt)),
      (
        (omega arith, (inl refl, tt)),
        (
          omega arith,
          ((omega arith, (inr (omega arith), (inr (omega arith), (inr (omega arith), tt)))), tt),
        ),
      ),
    ),
  ),
)

-- `and` of packets, which takes two arguments or more, `v`, a value of each packet, and `last`, one of a flow.
abbrev maker : FeatureType → List FeatureType → FeatureMaker
maker t ts = record { ret = t; make = 1; arguments = ts; variants = 0 }

abbrev and_name : Key
and_name = 97 ∷ 110 ∷ 100 ∷ []

abbrev registry : Registry
registry FeatureType.packet_feature n =
    if key_eq n and_name
    then maker FeatureType.packet_feature
        (FeatureType.packet_feature ∷ FeatureType.packet_feature ∷ FeatureType.ellipsis ∷ [])
      ∷ []
    else maker FeatureType.packet_feature (FeatureType.raw_packet ∷ []) ∷ []
registry t n = []

abbrev value : Ast
value = named (118 ∷ []) (arg raw no_args)

abbrev three : Ast
three = named and_name (arg value (arg value (arg value no_args)))

abbrev built : Ast
built = tree_of (build registry three FeatureType.packet_feature)

build-Typed_example : Typed registry FeatureType.packet_feature built
unfolding build get_features fixed variadic try_candidates arg_types written fill_from key_eq
build-Typed_example = build-Typed registry three built FeatureType.packet_feature refl

build-panics_example :
    build registry (named and_name (arg value (arg value no_args))) FeatureType.packet_feature
    ≡ panic
unfolding get_features fixed variadic key_eq
build-panics_example =
    build-panics registry (new_base 1 and_name) (arg value (arg value no_args))
      FeatureType.packet_feature
      (maker FeatureType.packet_feature
        (FeatureType.packet_feature ∷ FeatureType.packet_feature ∷ FeatureType.ellipsis ∷ []))
      [] refl refl (omega arith)

-- A feature `s`, a value of another type, and a control feature `s`.
make_ast_lem_example :
    make_ast FeatureType.raw_packet (text (115 ∷ []) ∷ other ∷ []) ((115 ∷ []) ∷ []) ≡ panic
unfolding Answers is_raw_input is_name is_feature are_features are_controls
make_ast_lem_example =
    make_ast_lem FeatureType.raw_packet (text (115 ∷ []) ∷ other ∷ []) ((115 ∷ []) ∷ [])

-- `d(s)`, and then `s`, each exported once.
simplify-refuses_example :
    (i : ℕ) × (simplify
        (exporting (100 ∷ []) (arg size no_args) ∷ exporting (115 ∷ []) (arg raw no_args) ∷ [])
      ≡ error (Error.exported_twice i))
unfolding Within string_of
simplify-refuses_example =
    simplify-refuses [] [] [] (exporting (100 ∷ []) (arg size no_args))
      (exporting (115 ∷ []) (arg raw no_args)) refl (inr (inl (inl refl)))

-- A composite feature `c`, which is `s` of `p`.
abbrev composite_name : Key
composite_name = 99 ∷ []

abbrev definition : Specs
definition = spec (text (115 ∷ [])) (spec (text (112 ∷ [])) no_specs)

abbrev composites : Composites
composites name = if key_eq name composite_name then some definition else none

abbrev rank : Key → ℕ
rank name = if key_eq name composite_name then 1 else 0

composites_ranked : Ranked FeatureType.raw_packet composites rank
unfolding BelowSpec key_eq
composites_ranked name d e =
    if_both (λ z. z ≡ some d → BelowSpecs rank (rank name) (rest_of d)) (key_eq name composite_name)
      (some definition) none
      (λ q h.
        subst (λ z. BelowSpecs rank (rank name) (rest_of z)) (some-eq h)
          (if_true (λ z. 0 < z) (key_eq name composite_name) 1 0 q (omega arith), tt))
      (λ _ h. absurd (cc)) e

expand_args-Fueled_example :
    expand_args FeatureType.raw_packet composites 3
      (arg (named composite_name (arg raw no_args)) no_args)
    ≢ error Error.out_of_fuel
unfolding Below key_eq
expand_args-Fueled_example =
    expand_args-Fueled FeatureType.raw_packet composites rank 2
      (arg (named composite_name (arg raw no_args)) no_args) composites_ranked
      ((omega arith, (tt, tt)), tt)
