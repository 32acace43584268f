-- ===== src/CallGraph/Lower.antt =====
-- flows/ast.go: expandSelect and lower. `select` gets the raw input as its last argument; `map` and
-- `apply` go away, and the raw input in their first argument is replaced by their second.
use go_flows.Shared.{Bool, true, false, ◌||◌, [], ◌∷◌, Option, some, if◌then◌else◌, Key, key_eq}
use go_flows.CallGraph.Ast.{
  FeatureType, Base, Ast, raw, register, constant, call, Args, no_args, arg, Result, ok, error,
  panic, bind, Error,
}

-- "select", "select_slice", "map" and "apply".
abbrev pub select_name : Key
select_name = 115 ∷ 101 ∷ 108 ∷ 101 ∷ 99 ∷ 116 ∷ []

abbrev pub slice_name : Key
slice_name = 115 ∷ 101 ∷ 108 ∷ 101 ∷ 99 ∷ 116 ∷ 95 ∷ 115 ∷ 108 ∷ 105 ∷ 99 ∷ 101 ∷ []

abbrev pub map_name : Key
map_name = 109 ∷ 97 ∷ 112 ∷ []

abbrev pub apply_name : Key
apply_name = 97 ∷ 112 ∷ 112 ∷ 108 ∷ 121 ∷ []

unfoldable pub is_select : Key → Bool
is_select n = key_eq n select_name || key_eq n slice_name

unfoldable pub is_map : Key → Bool
is_map n = key_eq n map_name || key_eq n apply_name

-- makeASTRaw.
abbrev pub make_raw : FeatureType → Result Ast
make_raw FeatureType.raw_packet = ok raw
make_raw t = error (Error.no_input t)

abbrev pub append_arg : Args → Ast → Args
append_arg no_args a = arg a no_args
append_arg (arg b args) a = arg b (append_arg args a)

-- The end of a select call, after its arguments.
abbrev pub with_source : FeatureType → Base → Bool → Args → Result Ast
with_source input b true args = bind (make_raw input) (λ r. ok (call b (append_arg args r)))
with_source input b false args = ok (call b args)

unfoldable mutual
  pub expand_select : FeatureType → Ast → Result Ast
  expand_select input (call b args) =
      bind (expand_select_args input args) (with_source input b (is_select b.name))
  expand_select input a = ok a

  pub expand_select_args : FeatureType → Args → Result Args
  expand_select_args input no_args = ok no_args
  expand_select_args input (arg a args) =
      bind (expand_select input a)
        (λ c. bind (expand_select_args input args) (λ rest. ok (arg c rest)))

-- SetExport, which panics on raw input and on a register; it is called for neither.
abbrev pub set_export : Key → Ast → Ast
set_export n (constant b v) = constant (record b { export = true; export_name = n }) v
set_export n (call b args) = call (record b { export = true; export_name = n }) args
set_export n a = a

-- `to.assign(f)`, where `f` is a call; fragments without astBase panic.
abbrev pub assign : Base → Ast → Result Ast
assign b raw = panic
assign b (register r t) = panic
assign b a = ok (if b.export then set_export b.export_name a else a)

-- A call whose arguments were lowered: as those of a map, or one by one.
abbrev pub lowered : Base → Bool → Result Ast → Result Args → Result Ast
lowered b true to args = bind to (assign b)
lowered b false to args = bind args (λ l. ok (call b l))

unfoldable mutual
  pub lower_fragment : Ast → Option Ast → Result Ast
  lower_fragment raw (some replacement) = ok replacement
  lower_fragment (call b args) replacement =
      lowered b (is_map b.name) (lower_map args replacement) (lower_args args replacement)
  lower_fragment a replacement = ok a

  -- The first argument with the second as its input; an index out of range panics.
  pub lower_map : Args → Option Ast → Result Ast
  lower_map (arg to (arg selected rest)) replacement =
      bind (lower_fragment selected replacement) (λ s. lower_fragment to (some s))
  lower_map args replacement = panic

  pub lower_args : Args → Option Ast → Result Args
  lower_args no_args replacement = ok no_args
  lower_args (arg a args) replacement =
      bind (lower_fragment a replacement)
        (λ c. bind (lower_args args replacement) (λ rest. ok (arg c rest)))
