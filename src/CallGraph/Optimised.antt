-- ===== src/CallGraph/Optimised.antt =====
-- flows/ast.go: the optimised list computes what the built call trees mean.
use go_flows.Shared.{
  ◌≡◌, ◌∙◌, ap, subst, true, false, List, [], ◌∷◌, none, some, Key, All, length, get_elem?, inl,
  inr,
}
use go_flows.CallGraph.Ast.{
  FeatureType, Ast, raw, register, constant, call, Result, ok, exported, export_name, is_raw,
  register_of,
}
use go_flows.CallGraph.Printing.{Plain}
use go_flows.CallGraph.Meaning.{eval}
use go_flows.CallGraph.Machine.{run}
use go_flows.CallGraph.Sharing.{bind-ok, ok-eq, Ordered}
use go_flows.CallGraph.Binding.{value, lower-eval, expand_select-value}
use go_flows.CallGraph.Names.{SameExport, expand_select-Plain, lower_top-Plain}
use go_flows.CallGraph.Values.{Delivered, run-simplify}
use go_flows.CallGraph.Lower.{expand_select, lower_fragment}
use go_flows.CallGraph.Compile.{each_fragment, expand_select_all, lower_all, optimise}

-- The fragments of a loop's result, one by one.
pub data Both {κ} (R : Ast → Ast → Type κ) : List Ast → List Ast → Type κ where
  no_more : Both R [] []
  one_more : (a c : Ast) (xs ys : List Ast) → R a c → Both R xs ys → Both R (a ∷ xs) (c ∷ ys)

each_fragment-Both {κ} :
    (R : Ast → Ast → Type κ) (f : Ast → Result Ast) (xs ys : List Ast)
    → ((a c : Ast) → Plain a → f a ≡ ok c → R a c)
    → All Plain xs
    → each_fragment f xs ≡ ok ys
    → Both R xs ys
unfolding each_fragment
each_fragment-Both R f [] ys h p e = subst (Both R []) (ok-eq e) no_more
each_fragment-Both R f (a ∷ xs) ys h p e =
    let (c, q, k) = bind-ok (f a) _ ys e in
    let (cs, u, l) = bind-ok (each_fragment f xs) _ ys k in
    subst (Both R (a ∷ xs)) (ok-eq l)
      (one_more a c xs cs (h a c p.0 q) (each_fragment-Both R f xs cs h p.1 u))

raw_not_exported : (a : Ast) → is_raw a ≡ true → exported a ≡ true → ⊥
raw_not_exported raw h e = cc
raw_not_exported (register r t) h e = cc
raw_not_exported (constant b v) h e = cc
raw_not_exported (call b args) h e = cc

module _ {ℓ} {V : Type ℓ} (packet : V) (literal : Key → V)
    (apply : FeatureType → Key → List V → V) where
  -- An exported fragment of the list, under the name of the tree, whose register holds the tree's value.
  abbrev pub Exported : List Ast → List V → Ast → Type ℓ
  Exported out env a =
      exported a ≡ true
      → (c : Ast) × (get_elem? out (register_of c) ≡ some c)
        × (get_elem? env (register_of c) ≡ some (value literal apply true packet a))
        × (exported c ≡ true)
        × (export_name c ≡ export_name a)

  -- A step of the loops, with what it keeps.
  abbrev Selected : Ast → Ast → Type ℓ
  Selected a c =
      (Plain c × SameExport a c)
      × (value literal apply false packet c ≡ value literal apply true packet a)

  abbrev Lowered : Ast → Ast → Type ℓ
  Lowered a c =
      (Plain c × SameExport a c)
      × (eval packet literal apply c ≡ value literal apply false packet a)

  delivered :
      (out : List Ast) (env : List V) (a b c : Ast)
      → Selected a b
      → Lowered b c
      → Delivered packet literal apply out env c
      → Exported out env a
  delivered out env a b c s l (inl r) x = absurd (raw_not_exported c r (l.0.1 (s.0.1 x).0).0)
  delivered out env a b c s l (inr (f, p, q, h)) x =
      let y = s.0.1 x in
      let z = l.0.1 y.0 in
      let w = h z.0 in (f, p, q ∙ ap some (l.1 ∙ s.1), w.0 ∙ z.0, w.1 ∙ z.1 ∙ y.1)

  Selected-Plain : (xs ys : List Ast) → Both Selected xs ys → All Plain ys
  Selected-Plain [] [] no_more = tt
  Selected-Plain [] (c ∷ ys) h = elim h [ ]
  Selected-Plain (a ∷ xs) [] h = elim h [ ]
  Selected-Plain (a ∷ xs) (c ∷ ys) (one_more _ _ _ _ h k) = (h.0.0, Selected-Plain xs ys k)

  Lowered-Plain : (xs ys : List Ast) → Both Lowered xs ys → All Plain ys
  Lowered-Plain [] [] no_more = tt
  Lowered-Plain [] (c ∷ ys) h = elim h [ ]
  Lowered-Plain (a ∷ xs) [] h = elim h [ ]
  Lowered-Plain (a ∷ xs) (c ∷ ys) (one_more _ _ _ _ h k) = (h.0.0, Lowered-Plain xs ys k)

  deliver_all :
      (out : List Ast) (env : List V) (xs ys zs : List Ast)
      → Both Selected xs ys
      → Both Lowered ys zs
      → All (Delivered packet literal apply out env) zs
      → All (Exported out env) xs
  deliver_all out env [] [] [] no_more no_more d = tt
  deliver_all out env [] [] (c ∷ zs) h k d = elim k [ ]
  deliver_all out env [] (b ∷ ys) zs h k d = elim h [ ]
  deliver_all out env (a ∷ xs) [] zs h k d = elim h [ ]
  deliver_all out env (a ∷ xs) (b ∷ ys) [] h k d = elim k [ ]
  deliver_all out env (a ∷ xs) (b ∷ ys) (c ∷ zs) (one_more _ _ _ _ h k) (one_more _ _ _ _ h' k') d =
      (delivered out env a b c h h' d.0, deliver_all out env xs ys zs k k' d.1)

  -- If the phases after build give a list of fragments for some call trees, then the list runs, its fragments
  -- find their arguments at registers below their own, and each exported tree is exported by the list under
  -- its name, at a register that holds the tree's value, where `map` and `apply` give the value of their
  -- second argument to their first as its input and `select` reads the input. Names and constants are free
  -- of spaces, commas and brackets.
  pub run-optimise :
      (input : FeatureType) (fs out : List Ast)
      → All Plain fs
      → optimise input fs ≡ ok out
      → (env : List V) × (run packet literal apply [] out ≡ some env)
        × All (Ordered (length out)) out
        × All (Exported out env) fs
  unfolding optimise expand_select_all lower_all
  run-optimise input fs out p e =
      let (sel, q, h) = bind-ok (expand_select_all input fs) _ out e in
      let (low, u, k) = bind-ok (lower_all sel) _ out h in
      let s : Both Selected fs sel =
        each_fragment-Both Selected (expand_select input) fs sel
          (λ a c w x. (
            expand_select-Plain input a c w x,
            expand_select-value literal apply input packet a c x,
          ))
          p q in
      let w = Selected-Plain fs sel s in
      let l : Both Lowered sel low =
        each_fragment-Both Lowered (λ a. lower_fragment a none) sel low
          (λ a c y x. (lower_top-Plain a c y x, lower-eval literal apply packet a none c y x)) w
          u in
      let (env, r, o, d) = run-simplify packet literal apply low out (Lowered-Plain sel low l) k in
      (env, r, o, deliver_all out env fs sel low s l d)
