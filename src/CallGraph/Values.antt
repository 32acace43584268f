-- ===== src/CallGraph/Values.antt =====
-- flows/ast.go: the registers of the simplified list hold the values of the subtrees.
use go_flows.Shared.{
  ◌≡◌, ap, sym, ◌∙◌, subst, refl, true, false, List, [], ◌∷◌, ◌++◌, Option, none, some, Key, lookup,
  get_elem?, length, length-append, ◌⊎◌, inl, inr, if◌then◌else◌, Bool-cases, Option-cases,
  get_elem?-append_length, get_elem?-append_left, lt_length-get_elem?, arith, All, All-both,
}
use go_flows.CallGraph.Ast.{
  FeatureType, Ast, raw, register, constant, call, Args, no_args, arg, Result, ok, error, Error,
  id_of, string_of, exported, export_name, is_raw, register_of,
}
use go_flows.CallGraph.Printing.{Plain, PlainArgs}
use go_flows.CallGraph.Meaning.{eval, eval_args, eval-string_of}
use go_flows.CallGraph.Machine.{operand, operands, step, run, run-append, and_then}
use go_flows.CallGraph.Simplify.{
  State, link, link_args, add, enter, simplify_fragment, simplify_args, simplify_all, simplify,
  no_state,
}
use go_flows.CallGraph.Sharing.{
  bind-ok, ok-eq, Ordered, Known, Kept, Placed, Known-Kept, AllKnown, ArgsKnown, add-Known, emitted,
  emitted-register_of, insert-cases, add-Kept, add-Placed, copy_args-Plain,
}

pub error_not_ok {ℓ} : {A : Type ℓ} {x : Error} {a : A} → Result.error x ≡ ok a → ⊥
error_not_ok e = cc

no_state-Placed : Placed no_state
unfolding lookup
no_state-Placed = (refl, tt, λ k f x. absurd (cc))

module _ {ℓ} {V : Type ℓ} (packet : V) (literal : Key → V)
    (apply : FeatureType → Key → List V → V) where
  -- The registers `env` that the list computes hold the value of each subtree that was seen.
  abbrev Computed : State → List V → Type ℓ
  Computed s env =
      (run packet literal apply [] s.out ≡ some env)
      × (length env ≡ s.register)
      × ((a f : Ast)
          → Plain a
          → lookup (string_of a) s.subtrees ≡ some f
          → get_elem? env (register_of f) ≡ some (eval packet literal apply a))

  raw_operand :
      (a : Ast)
      → is_raw a ≡ true
      → (r : List V)
      → operand packet literal apply r (link a none) ≡ some (eval packet literal apply a)
  unfolding eval
  raw_operand raw h r = refl
  raw_operand (register x t) h r = absurd (cc)
  raw_operand (constant b v) h r = absurd (cc)
  raw_operand (call b args) h r = absurd (cc)

  operand-link :
      (s : State) (env : List V) (a : Ast)
      → Plain a
      → Computed s env
      → Known s.subtrees a
      → operand packet literal apply env (link a (lookup (string_of a) s.subtrees))
        ≡ some (eval packet literal apply a)
  unfolding eval
  operand-link s env a p c k = elim (Option-cases (lookup (string_of a) s.subtrees)) [
    | inr (f, e) ↦ rw e (c.2 a f p e)
    | inl e ↦ elim k [ inl r ↦ rw e (raw_operand a r env) | inr (f, q, _) ↦ absurd (cc) ]
  ]

  operands-link_args :
      (s : State) (env : List V) (args : Args)
      → PlainArgs args
      → Computed s env
      → AllKnown s.subtrees args
      → operands packet literal apply env (link_args s.subtrees args)
        ≡ some (eval_args packet literal apply args)
  unfolding eval operands link_args AllKnown Plain
  operands-link_args s env no_args p c k = refl
  operands-link_args s env (arg a args) p c k =
      rw (operand-link s env a p.0 c k.0, operands-link_args s env args p.1 c k.1) refl

  step-emitted :
      (s : State) (env : List V) (a : Ast)
      → Plain a
      → is_raw a ≡ false
      → Computed s env
      → ArgsKnown s.subtrees a
      → step packet literal apply env (emitted s a) ≡ some (eval packet literal apply a)
  unfolding eval Plain emitted
  step-emitted s env raw p r c k = absurd (cc)
  step-emitted s env (register x t) p r c k = absurd p
  step-emitted s env (constant b v) p r c k = refl
  step-emitted s env (call b args) p r c k =
      ap (λ o. and_then o (λ vs. some (apply b.ret b.name vs)))
        (ap (λ l. operands packet literal apply env (link_args s.subtrees l))
            (copy_args-Plain args p.1)
          ∙ operands-link_args s env args p.1 c k)

  add-Computed :
      (s : State) (env : List V) (a : Ast)
      → Plain a
      → is_raw a ≡ false
      → ArgsKnown s.subtrees a
      → Computed s env
      → Computed (add a s) (env ++ eval packet literal apply a ∷ [])
  unfolding add emitted
  add-Computed s env a p r k c =
      let v = eval packet literal apply a in
      let e = emitted s a in
      let at : register_of e ≡ length env = emitted-register_of s a p r ∙ sym c.1 in
      (
        run-append packet literal apply s.out e [] env v c.0 (step-emitted s env a p r c k),
        omega (arith, length-append env (v ∷ []), c.1),
        λ b f q h. elim (insert-cases (string_of a) (string_of b) e f s.subtrees h) [
          | inl (same, g) ↦
              rw (g, at)
                (get_elem?-append_length env v
                  ∙ ap some (eval-string_of packet literal apply a b p q same))
          | inr old ↦
              let there = c.2 b f q old in
              get_elem?-append_left env (v ∷ []) (register_of f) (lt_length-get_elem? env _ there)
              ∙ there
        ],
      )

  no_state-Computed : Computed no_state []
  unfolding run lookup
  no_state-Computed = (refl, refl, λ a f r x. absurd (cc))

  -- What a step to `t` keeps and reaches.
  abbrev Reached : State → State → Type ℓ
  Reached s t = (env : List V) × Computed t env × Placed t × Kept s t

  enter-Reached :
      (a : Ast) (s t : State) (env : List V) (o : Option Ast)
      → lookup (string_of a) s.subtrees ≡ o
      → Plain a
      → is_raw a ≡ false
      → ArgsKnown s.subtrees a
      → Computed s env
      → Placed s
      → enter a o s ≡ ok t
      → Reached s t × Known t.subtrees a
  enter-Reached a s t env none n p r k c l e =
      subst (λ u. Reached s u × Known u.subtrees a) (ok-eq e)
        (
          (_, add-Computed s env a p r k c, add-Placed a s p r k l, add-Kept a s n),
          add-Known a s p r,
        )
  enter-Reached a s t env (some f) n p r k c l e = elim (Bool-cases (exported a)) [
    | inl x ↦ absurd (
        error_not_ok
          (sym (ap (λ z. if z then error (Error.exported_twice (id_of f)) else ok s) x) ∙ e))
    | inr x ↦
        subst (λ u. Reached s u × Known u.subtrees a)
          (ok-eq (sym (ap (λ z. if z then error (Error.exported_twice (id_of f)) else ok s) x) ∙ e))
          ((env, c, l, λ j g h. h), inr (f, n, λ y. absurd (cc)))
  ]

  mutual
    unfolding simplify_fragment Plain AllKnown

    fragment-Reached :
        (a : Ast) (s t : State) (env : List V)
        → Plain a
        → Computed s env
        → Placed s
        → simplify_fragment a s ≡ ok t
        → Reached s t × Known t.subtrees a
    fragment-Reached raw s t env p c l e =
        subst (λ u. Reached s u × Known u.subtrees raw) (ok-eq e)
          ((env, c, l, λ j g h. h), inl refl)
    fragment-Reached (register x u) s t env p c l e = absurd p
    fragment-Reached (constant b v) s t env p c l e =
        enter-Reached (constant b v) s t env _ refl p refl tt c l e
    fragment-Reached (call b args) s t env p c l e =
        let (u, q, h) = bind-ok (simplify_args args s) _ t e in
        let ((env', c', l', k'), n) = args-Reached args s u env p.1 c l q in
        let ((env'', c'', l'', k''), m) =
          enter-Reached (call b args) u t env' _ refl p refl n c' l' h in
        ((env'', c'', l'', λ j g y. k'' j g (k' j g y)), m)

    args-Reached :
        (args : Args) (s t : State) (env : List V)
        → PlainArgs args
        → Computed s env
        → Placed s
        → simplify_args args s ≡ ok t
        → Reached s t × AllKnown t.subtrees args
    args-Reached no_args s t env p c l e =
        subst (λ u. Reached s u × AllKnown u.subtrees no_args) (ok-eq e)
          ((env, c, l, λ j g h. h), tt)
    args-Reached (arg a args) s t env p c l e =
        let (u, q, h) = bind-ok (simplify_fragment a s) _ t e in
        let ((env', c', l', k'), n) = fragment-Reached a s u env p.0 c l q in
        let ((env'', c'', l'', k''), m) = args-Reached args u t env' p.1 c' l' h in
        ((env'', c'', l'', λ j g y. k'' j g (k' j g y)), (Known-Kept a u t k'' n, m))

  all-Reached :
      (fs : List Ast) (s t : State) (env : List V)
      → All Plain fs
      → Computed s env
      → Placed s
      → simplify_all fs s ≡ ok t
      → Reached s t × All (Known t.subtrees) fs
  unfolding simplify_all
  all-Reached [] s t env p c l e =
      subst (λ u. Reached s u × Unit) (ok-eq e) ((env, c, l, λ j g h. h), tt)
  all-Reached (a ∷ fs) s t env p c l e =
      let (u, q, h) = bind-ok (simplify_fragment a s) _ t e in
      let ((env', c', l', k'), n) = fragment-Reached a s u env p.0 c l q in
      let ((env'', c'', l'', k''), m) = all-Reached fs u t env' p.1 c' l' h in
      ((env'', c'', l'', λ j g y. k'' j g (k' j g y)), (Known-Kept a u t k'' n, m))

  -- A fragment that a list with the registers `env` delivers: raw input, or one of the list, at the
  -- register that holds its value. What is exported is exported there, under its name.
  abbrev pub Delivered : List Ast → List V → Ast → Type ℓ
  Delivered out env a =
      (is_raw a ≡ true)
      ⊎ ((c : Ast) × (get_elem? out (register_of c) ≡ some c)
          × (get_elem? env (register_of c) ≡ some (eval packet literal apply a))
          × (exported a ≡ true → (exported c ≡ exported a) × (export_name c ≡ export_name a)))

  -- If the compiler simplifies a list of call trees, then the new list runs: each of its fragments finds
  -- the registers of its arguments filled, which are below its own. It delivers for each given tree the value of the tree, and an
  -- exported tree under its name. Names and constants are free of spaces, commas and brackets.
  pub run-simplify :
      (fs out : List Ast)
      → All Plain fs
      → simplify fs ≡ ok out
      → (env : List V) × (run packet literal apply [] out ≡ some env)
        × All (Ordered (length out)) out
        × All (Delivered out env) fs
  unfolding simplify
  run-simplify fs out p e =
      let (t, q, h) = bind-ok (simplify_all fs no_state) _ out e in
      let ((env, c, l, _), m) =
        all-Reached fs no_state t [] p no_state-Computed no_state-Placed q in
      subst
        (λ o.
          (w : List V) × (run packet literal apply [] o ≡ some w)
          × All (Ordered (length o)) o
          × All (Delivered o w) fs)
        (ok-eq h)
        (
          env,
          c.0,
          subst (λ n. All (Ordered n) t.out) (sym l.0) l.1,
          All-both fs
              (λ a r k. elim k [
                | inl x ↦ inl x
                | inr (f, x, y) ↦ inr (f, l.2 _ f x, c.2 a f r x, y)
              ])
              p m,
        )
