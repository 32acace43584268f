-- ===== src/CallGraph/Parse.antt =====
-- flows/ast.go: makeASTFragment, makeASTFeature, makeASTCall, makeASTConstant, MakeExportName and makeAST.
-- A fragment of makeAST is an interface, which is nil beside an error.
use go_flows.Shared.{
  ℕ, suc, true, false, List, [], ◌∷◌, ◌++◌, Option, none, some, if◌then◌else◌, Key,
}
use go_flows.CallGraph.Ast.{
  FeatureType, Base, Ast, raw, register, constant, call, Args, no_args, arg, Result, ok, error,
  panic, bind, Error, is_raw, register_name, raw_name, id_of,
}
use go_flows.CallGraph.Lower.{make_raw, set_export}

mutual
  -- A feature of a specification: a string, a list, a number or Boolean as it prints, or a value of another
  -- type.
  pub data Spec : Type 0 where
    text : Key → Spec
    list : Specs → Spec
    number : Key → Spec
    other : Spec

  pub data Specs : Type 0 where
    no_specs : Specs
    spec : Spec → Specs → Specs

abbrev pub new_base : ℕ → Key → Base
new_base id name = record {
  id = id;
  name = name;
  export_name = [];
  composite = [];
  export = false;
  feature = none;
  ret = FeatureType.unknown;
  control = false;
  register = 0;
}

abbrev pub make_call : ℕ → Key → Result Args → Result Ast
make_call id name args = bind args (λ l. ok (call (new_base id name) l))

-- A name without arguments, which gets the raw input.
abbrev pub make_feature : FeatureType → ℕ → Key → Result Ast
make_feature input id name =
    bind (make_raw input) (λ r. ok (call (new_base id name) (arg r no_args)))

unfoldable mutual
  pub make_fragment : FeatureType → ℕ → Spec → Result Ast
  make_fragment input id (text name) = make_feature input id name
  make_fragment input id (list no_specs) = panic
  make_fragment input id (list (spec (text name) rest)) =
      make_call id name (make_args input id rest)
  make_fragment input id (list (spec head rest)) = error Error.bad_call
  make_fragment input id (number v) = ok (constant (new_base id v) v)
  make_fragment input id other = error Error.bad_constant

  pub make_args : FeatureType → ℕ → Specs → Result Args
  make_args input id no_specs = ok no_args
  make_args input id (spec s rest) =
      bind (make_fragment input id s) (λ a. bind (make_args input id rest) (λ l. ok (arg a l)))

-- strings.Join with ",".
abbrev pub join_comma : List Key → Key
join_comma [] = []
join_comma (k ∷ []) = k
join_comma (k ∷ l ∷ ks) = k ++ 44 ∷ join_comma (l ∷ ks)

abbrev pub name_with : Key → List Key → Key
name_with n [] = n
name_with n (k ∷ ks) = n ++ 40 ∷ (join_comma (k ∷ ks) ++ 41 ∷ [])

unfoldable mutual
  pub make_export_name : Ast → Key
  make_export_name raw = raw_name
  make_export_name (register r t) = register_name
  make_export_name (constant b v) = b.name
  make_export_name (call b args) = name_with b.name (export_names args)

  -- The names of the arguments that are not raw.
  pub export_names : Args → List Key
  export_names no_args = []
  export_names (arg a args) =
      let rest = export_names args in
      let name = make_export_name a in if is_raw a then rest else name ∷ rest

-- SetControl, which panics on raw input; makeASTFeature gives a call.
abbrev pub set_control : Ast → Ast
set_control (constant b v) = constant (record b { control = true }) v
set_control (call b args) = call (record b { control = true }) args
set_control a = a

-- A method of a fragment, which panics on the nil interface.
abbrev pub method {ℓ} : {A : Type ℓ} → (Ast → A) → Option Ast → Result A
method f none = panic
method f (some a) = ok (f a)

-- The fragment and the error that a maker returns: beside an error the fragment is nil.
abbrev pub as_pair : Result Ast → Result (Option Ast × Option Error)
as_pair (ok a) = ok (some a, none)
as_pair (error e) = ok (none, some e)
as_pair panic = panic

-- `if err != nil`: the FeatureError has the id of the fragment; its text is left out. What follows needs a fragment that is not nil.
abbrev pub test_error {ℓ} : {A : Type ℓ} → Option Ast → Option Error → (Ast → Result A) → Result A
test_error frag (some e) next = bind (method id_of frag) (λ id. error (Error.feature_error id e))
test_error frag none next = bind (method (λ a. a) frag) next

-- The loop over the features.
unfoldable pub make_features : FeatureType → ℕ → List Spec → Result (List Ast)
make_features input id [] = ok []
make_features input id (s ∷ rest) = bind (as_pair (make_fragment input id s)) (λ r.
    test_error r.0 r.1 (λ a.
      bind (make_features input (suc id) rest) (λ l. ok (set_export (make_export_name a) a ∷ l))))

-- The loop over the control features, which calls SetControl before the error is tested.
unfoldable pub make_controls : FeatureType → ℕ → List Key → Result (List Ast)
make_controls input id [] = ok []
make_controls input id (n ∷ rest) = bind (as_pair (make_feature input id n)) (λ r.
    bind (method set_control r.0) (λ c.
      test_error (some c) r.1 (λ a. bind (make_controls input (suc id) rest) (λ l. ok (a ∷ l)))))

unfoldable pub make_ast : FeatureType → List Spec → List Key → Result (List Ast)
make_ast input features control =
    bind (make_features input 1 features)
      (λ fs. bind (make_controls input 1 control) (λ cs. ok (fs ++ cs)))
