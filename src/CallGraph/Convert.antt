-- ===== src/CallGraph/Convert.antt =====
-- flows/ast.go: convert, which turns the simplified fragments into what a record is built from: for each
-- register the registers of its arguments, and the registers that depend on it.
use go_flows.Shared.{
  ℕ, zero, suc, Bool, true, false, List, [], ◌∷◌, ◌++◌, Option, none, some, if◌then◌else◌, length,
  replicate, ltb,
}
use go_flows.CallGraph.Ast.{
  FeatureMaker, Base, Ast, constant, call, Args, no_args, arg, is_raw, register_of,
}
use go_flows.CallGraph.Machine.{and_then}
use go_flows.FlowRecord.State.{Control}

pub record Wiring : Type 0 where
  pub features : List (Option FeatureMaker)
  pub args : List (List ℕ)
  pub tocall : List (List ℕ)
  pub ctrl : Control

-- `xs[i] = append(xs[i], v)`; none is an index out of range.
unfoldable pub push_at : ℕ → ℕ → List (List ℕ) → Option (List (List ℕ))
push_at i v [] = none
push_at zero v (x ∷ xs) = some ((x ++ v ∷ []) ∷ xs)
push_at (suc i) v (x ∷ xs) = and_then (push_at i v xs) (λ ys. some (x ∷ ys))

-- An argument that is not raw, of register `a`, of the fragment at `r`.
abbrev pub connect : ℕ → ℕ → Wiring → Option Wiring
connect r a w =
    and_then (push_at r a w.args)
      (λ xs. and_then (push_at a r w.tocall) (λ ys. some (record w { args = xs; tocall = ys })))

abbrev pub add_event : ℕ → Wiring → Wiring
add_event r w = record w { ctrl = record w.ctrl { event = w.ctrl.event ++ r ∷ [] } }

unfoldable pub connect_args : ℕ → Args → Wiring → Option Wiring
connect_args r no_args w = some w
connect_args r (arg a args) w =
    and_then (if is_raw a then some (add_event r w) else connect r (register_of a) w)
      (connect_args r args)

abbrev pub variants_of : Option FeatureMaker → ℕ
variants_of none = 0
variants_of (some f) = f.variants

abbrev pub add_export : Bool → ℕ → Wiring → Wiring
add_export true r w = record w { ctrl = record w.ctrl { export = w.ctrl.export ++ r ∷ [] } }
add_export false r w = w

abbrev pub add_variant : Bool → ℕ → Wiring → Wiring
add_variant true r w = record w { ctrl = record w.ctrl { variant = w.ctrl.variant ++ r ∷ [] } }
add_variant false r w = w

abbrev pub add_feature : Base → Wiring → Wiring
add_feature b w = record w { features = w.features ++ b.feature ∷ [] }

abbrev pub add_control : Base → Wiring → Wiring
add_control b w = record w { ctrl = record w.ctrl { control = w.ctrl.control ++ b.register ∷ [] } }

-- A fragment with its attributes and its arguments.
abbrev pub wire : Base → Args → Wiring → Option Wiring
wire b args w =
    if b.control
    then some (add_control b (add_feature b w))
    else and_then (connect_args b.register args (add_feature b w)) (λ v.
      some
        (add_variant (ltb 0 (variants_of b.feature)) b.register (add_export b.export b.register v)))

-- FeatureMaker panics for raw input and for a register.
abbrev pub wire_fragment : Ast → Wiring → Option Wiring
wire_fragment (constant b v) w = wire b no_args w
wire_fragment (call b args) w = wire b args w
wire_fragment a w = none

unfoldable pub wire_all : List Ast → Wiring → Option Wiring
wire_all [] w = some w
wire_all (a ∷ rest) w = and_then (wire_fragment a w) (wire_all rest)

abbrev pub no_control : Control
no_control = record { control = []; event = []; export = []; variant = [] }

abbrev pub no_wiring : ℕ → Wiring
no_wiring n = record {
  features = [];
  args = replicate n [];
  tocall = replicate n [];
  ctrl = no_control;
}

unfoldable pub convert : List Ast → Option Wiring
convert fragments = wire_all fragments (no_wiring (length fragments))
