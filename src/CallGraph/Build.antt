-- ===== src/CallGraph/Build.antt =====
-- flows/ast.go: build of each fragment. flows/featureregistry.go: getFeatures. The registry is a parameter.
-- A candidate that fails leaves attributes in the arguments that the next one overwrites; a candidate that
-- succeeds builds them twice, to the same end. So a build gives the tree of its first successful candidate.
use go_flows.Shared.{
  ℕ, zero, suc, Bool, true, false, List, [], ◌∷◌, ◌++◌, Option, none, some, if◌then◌else◌, ◌==◌,
  Key, get_elem?, length, replicate,
}
use go_flows.CallGraph.Ast.{
  FeatureType, FeatureMaker, Base, Ast, raw, register, constant, call, Args, no_args, arg, Result,
  ok, error, panic, bind, Error,
}
use go_flows.CallGraph.Machine.{and_then}

-- `featureRegistry[t][name]`.
abbrev pub Registry : Type 0
Registry = FeatureType → Key → List FeatureMaker

abbrev pub is_ellipsis : FeatureType → Bool
is_ellipsis FeatureType.ellipsis = true
is_ellipsis t = false

-- The last argument is an ellipsis.
abbrev pub is_variadic : List FeatureType → Bool
is_variadic [] = false
is_variadic (t ∷ []) = is_ellipsis t
is_variadic (t ∷ u ∷ ts) = is_variadic (u ∷ ts)

-- Those of some features that take `n` arguments, and those that take any number.
unfoldable pub fixed : ℕ → List FeatureMaker → List FeatureMaker
fixed n [] = []
fixed n (f ∷ fs) =
    let rest = fixed n fs in
    if is_variadic f.arguments then rest else if length f.arguments == n then f ∷ rest else rest

unfoldable pub variadic : List FeatureMaker → List FeatureMaker
variadic [] = []
variadic (f ∷ fs) = let rest = variadic fs in if is_variadic f.arguments then f ∷ rest else rest

unfoldable pub get_features : Registry → Key → FeatureType → ℕ → List FeatureMaker
get_features reg name ret n =
    (fixed n (reg ret name) ++ fixed n (reg FeatureType.match_type name))
    ++ (variadic (reg ret name) ++ variadic (reg FeatureType.match_type name))

abbrev pub matched : FeatureType → FeatureType → FeatureType
matched ret FeatureType.match_type = ret
matched ret t = t

-- The types of a candidate's arguments over those of the call's; an index out of range is none.
unfoldable pub written :
    FeatureType → List FeatureType → List FeatureType → Option (List FeatureType)
written ret [] ts = some ts
written ret (a ∷ rest) [] = none
written ret (a ∷ rest) (t ∷ ts) = and_then (written ret rest ts) (λ us. some (matched ret a ∷ us))

unfoldable pub fill_from : ℕ → FeatureType → List FeatureType → List FeatureType
fill_from k a [] = []
fill_from zero a (t ∷ ts) = a ∷ fill_from zero a ts
fill_from (suc k) a (t ∷ ts) = t ∷ fill_from k a ts

-- An ellipsis at position `k`: the type before it stands there and after it.
abbrev pub spread : ℕ → List FeatureType → Option (List FeatureType)
spread zero ts = none
spread (suc j) ts = and_then (get_elem? ts j) (λ a. some (fill_from (suc j) a ts))

abbrev pub check_ellipsis : ℕ → List FeatureType → Option (List FeatureType)
check_ellipsis zero ts = none
check_ellipsis (suc k) ts =
    and_then (get_elem? ts k) (λ t. if is_ellipsis t then spread k ts else some ts)

-- The types that a candidate wants of `n` arguments; a panic is none.
unfoldable pub arg_types : FeatureType → ℕ → List FeatureType → Option (List FeatureType)
arg_types ret n arguments =
    and_then (written ret arguments (replicate n FeatureType.unknown))
      (check_ellipsis (length arguments))

abbrev pub count_args : Args → ℕ
count_args no_args = 0
count_args (arg a args) = suc (count_args args)

-- newConstantMetaFeature, which does not fail on what makeASTConstant accepts.
abbrev pub constant_maker : FeatureMaker
constant_maker = record { ret = FeatureType.const; make = 0; arguments = []; variants = 0 }

abbrev pub with_types : (List FeatureType → Result Args) → Option (List FeatureType) → Result Args
with_types f none = panic
with_types f (some ts) = f ts

-- One candidate, with what follows when it fails.
abbrev pub attempt : FeatureType → Base → FeatureMaker → Result Args → Result Ast → Result Ast
attempt ret b c (ok args) rest = ok (call (record b { feature = some c; ret = ret }) args)
attempt ret b c (error e) rest = rest
attempt ret b c panic rest = panic

unfoldable pub try_candidates :
    FeatureType → ℕ → Base → (List FeatureType → Result Args) → List FeatureMaker → Result Ast
try_candidates ret n b f [] = error Error.all_failed
try_candidates ret n b f (c ∷ rest) =
    attempt ret b c (with_types f (arg_types ret n c.arguments)) (try_candidates ret n b f rest)

abbrev pub build_control : Base → Args → List FeatureMaker → Result Ast
build_control b args [] = error (Error.no_control b.name)
build_control b args (c ∷ _) =
    ok (call (record b { feature = some c; ret = FeatureType.control_feature }) args)

abbrev pub build_call :
    FeatureType → ℕ → Base → (List FeatureType → Result Args) → List FeatureMaker → Result Ast
build_call ret n b f [] = error (Error.no_candidate b.name ret n)
build_call ret n b f (c ∷ rest) = try_candidates ret n b f (c ∷ rest)

abbrev pub build_raw : FeatureType → Result Ast
build_raw FeatureType.raw_packet = ok raw
build_raw t = error Error.wrong_input

module _ (reg : Registry) where
  unfoldable mutual
    pub build : Ast → FeatureType → Result Ast
    build raw ret = build_raw ret
    build (register r t) ret = panic
    build (constant b v) ret = ok (constant (record b { feature = some constant_maker }) v)
    build (call b args) ret =
        if b.control
        then build_control b args (get_features reg b.name FeatureType.control_feature 1)
        else build_call ret (count_args args) b (build_args args)
            (get_features reg b.name ret (count_args args))

    pub build_args : Args → List FeatureType → Result Args
    build_args no_args ts = ok no_args
    build_args (arg a args) [] = panic
    build_args (arg a args) (t ∷ ts) =
        bind (build a t) (λ c. bind (build_args args ts) (λ rest. ok (arg c rest)))
