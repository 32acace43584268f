-- ===== src/CallGraph/Simplify.antt =====
-- flows/ast.go: simplifyFragments and simplify. Each distinct fragment gets a register, and a call gets
-- the registers of its arguments in place of them. The registers that are written back into the given
-- tree are left out, since only the new list is used after it.
use go_flows.Shared.{
  ℕ, suc, List, [], ◌∷◌, ◌++◌, Option, none, some, if◌then◌else◌, Key, lookup, insert,
}
use go_flows.CallGraph.Ast.{
  FeatureType, Ast, raw, register, constant, call, Args, no_args, arg, Result, ok, error, bind,
  exported_twice, string_of, exported, id_of, register_of, returns, set_register,
}

pub record State : Type 0 where
  pub subtrees : List (Key × Ast)
  pub out : List Ast
  pub register : ℕ

-- Copy of each fragment; that of a register loses its type.
abbrev mutual
  pub copy : Ast → Ast
  copy raw = raw
  copy (register r t) = register r FeatureType.unknown
  copy (constant b v) = constant b v
  copy (call b args) = call b (copy_args args)

  pub copy_args : Args → Args
  copy_args no_args = no_args
  copy_args (arg a args) = arg (copy a) (copy_args args)

-- What stands for an argument, when its string was looked up.
abbrev pub link : Ast → Option Ast → Ast
link a none = a
link a (some f) = register (register_of f) (returns f)

unfoldable pub link_args : List (Key × Ast) → Args → Args
link_args m no_args = no_args
link_args m (arg a args) = arg (link a (lookup (string_of a) m)) (link_args m args)

abbrev pub linked : List (Key × Ast) → Ast → Ast
linked m (call b args) = call b (link_args m args)
linked m a = a

-- A new fragment.
unfoldable pub add : Ast → State → State
add a s =
    let c = set_register s.register (linked s.subtrees (copy a)) in
    record {
      subtrees = insert (string_of a) c s.subtrees;
      out = s.out ++ c ∷ [];
      register = suc s.register;
    }

-- A fragment whose arguments are simplified, when its string was looked up.
abbrev pub enter : Ast → Option Ast → State → Result State
enter a (some f) s = if exported a then error (exported_twice (id_of f)) else ok s
enter a none s = ok (add a s)

unfoldable mutual
  pub simplify_fragment : Ast → State → Result State
  simplify_fragment raw s = ok s
  simplify_fragment (call b args) s =
      bind (simplify_args args s)
        (λ t. enter (call b args) (lookup (string_of (call b args)) t.subtrees) t)
  simplify_fragment a s = enter a (lookup (string_of a) s.subtrees) s

  pub simplify_args : Args → State → Result State
  simplify_args no_args s = ok s
  simplify_args (arg a args) s = bind (simplify_fragment a s) (simplify_args args)

unfoldable pub simplify_all : List Ast → State → Result State
simplify_all [] s = ok s
simplify_all (a ∷ as_left) s = bind (simplify_fragment a s) (simplify_all as_left)

abbrev pub no_state : State
no_state = record { subtrees = []; out = []; register = 0 }

unfoldable pub simplify : List Ast → Result (List Ast)
simplify fragments = bind (simplify_all fragments no_state) (λ s. ok s.out)
