-- ===== src/CallGraph/Faults.antt =====
-- flows/ast.go: the inputs on which the compiler panics or refuses a list.
use go_flows.Shared.{
  ℕ, ◌<◌, ◌≡◌, ap, sym, ◌∙◌, subst, refl, true, false, List, [], ◌∷◌, ◌++◌, none, some,
  if◌then◌else◌, length, replicate, length-replicate, arith, ◌⊎◌, inl, inr, lookup, Option, if_both,
}
use go_flows.CallGraph.Ast.{
  FeatureType, FeatureMaker, Base, Ast, raw, register, constant, call, Args, no_args, arg, Result,
  ok, error, panic, bind, Error, string_of, exported, id_of,
}
use go_flows.CallGraph.Machine.{and_then}
use go_flows.CallGraph.Build.{
  Registry, written, arg_types, count_args, check_ellipsis, with_types, attempt, try_candidates,
  build_call, get_features, build, build_args, build_control,
}
use go_flows.CallGraph.Sharing.{bind-ok}
use go_flows.CallGraph.Values.{error_not_ok}
use go_flows.CallGraph.Within.{Within, Found, all-Kept, args-Kept, fragment-Found}
use go_flows.CallGraph.Simplify.{
  State, add, enter, simplify, simplify_all, simplify_fragment, simplify_args, no_state,
}

true_not_false : true ≡ false → ⊥
true_not_false e = cc

written-short :
    (ret : FeatureType) (xs us : List FeatureType)
    → length us < length xs
    → written ret xs us ≡ none
unfolding written
written-short ret [] us h = absurd (omega arith)
written-short ret (x ∷ xs) [] h = refl
written-short ret (x ∷ xs) (u ∷ us) h = rw (written-short ret xs us (omega arith)) refl

-- If the first candidate of a call that is no control feature lists more arguments than the call has, as
-- one with an ellipsis may, build panics.
pub build-panics :
    (reg : Registry) (b : Base) (args : Args) (ret : FeatureType) (c : FeatureMaker)
    (rest : List FeatureMaker)
    → b.control ≡ false
    → get_features reg b.name ret (count_args args) ≡ c ∷ rest
    → count_args args < length c.arguments
    → build reg (call b args) ret ≡ panic
unfolding build try_candidates arg_types
build-panics reg b args ret c rest h k l =
    let n = count_args args in
    let f = build_args reg args in
    let short =
      written-short ret c.arguments (replicate n FeatureType.unknown)
        (omega (arith, length-replicate n FeatureType.unknown, l)) in
    ap
      (λ z.
        if z
        then build_control b args (get_features reg b.name FeatureType.control_feature 1)
        else build_call ret n b f (get_features reg b.name ret n))
      h
    ∙ ap (build_call ret n b f) k
    ∙ ap
        (λ o.
          attempt ret b c (with_types f (and_then o (check_ellipsis (length c.arguments))))
            (try_candidates ret n b f rest))
        short

-- A list of fragments, or the error that one of them is exported twice.
Judged : Result State → Type 0
Judged r = ((t : State) × (r ≡ ok t)) ⊎ ((i : ℕ) × (r ≡ error (Error.exported_twice i)))

bind-Judged :
    (m : Result State) (f : State → Result State)
    → Judged m
    → ((t : State) → Judged (f t))
    → Judged (bind m f)
unfolding Judged
bind-Judged m f (inl (t, e)) h = subst (λ z. Judged (bind z f)) (sym e) (h t)
bind-Judged m f (inr (i, e)) h = inr (i, ap (λ z. bind z f) e)

enter-Judged : (a : Ast) (o : Option Ast) (s : State) → Judged (enter a o s)
unfolding Judged
enter-Judged a none s = inl (add a s, refl)
enter-Judged a (some f) s =
    if_both Judged (exported a) (error (Error.exported_twice (id_of f))) (ok s)
      (λ _. inr (id_of f, refl)) (λ _. inl (s, refl))

mutual
  unfolding simplify_fragment Judged

  fragment-Judged : (a : Ast) (s : State) → Judged (simplify_fragment a s)
  fragment-Judged raw s = inl (s, refl)
  fragment-Judged (register r t) s = enter-Judged (register r t) _ s
  fragment-Judged (constant b v) s = enter-Judged (constant b v) _ s
  fragment-Judged (call b args) s =
      bind-Judged (simplify_args args s) _ (args-Judged args s)
        (λ t. enter-Judged (call b args) _ t)

  args-Judged : (args : Args) (s : State) → Judged (simplify_args args s)
  args-Judged no_args s = inl (s, refl)
  args-Judged (arg a args) s =
      bind-Judged (simplify_fragment a s) _ (fragment-Judged a s) (args-Judged args)

all-Judged : (fs : List Ast) (s : State) → Judged (simplify_all fs s)
unfolding simplify_all Judged
all-Judged [] s = inl (s, refl)
all-Judged (a ∷ fs) s = bind-Judged (simplify_fragment a s) _ (fragment-Judged a s) (all-Judged fs)

-- The first trees of a list, and the others.
simplify_all-append :
    (xs ys : List Ast) (s t : State)
    → simplify_all (xs ++ ys) s ≡ ok t
    → (u : State) × (simplify_all xs s ≡ ok u) × (simplify_all ys u ≡ ok t)
unfolding simplify_all
simplify_all-append [] ys s t e = (s, refl, e)
simplify_all-append (x ∷ xs) ys s t e =
    let (v, p, q) = bind-ok (simplify_fragment x s) _ t e in
    let (u, h, k) = simplify_all-append xs ys v t q in
    (u, ap (λ z. bind z (simplify_all xs)) p ∙ h, k)

enter-refuses :
    (c f : Ast) (s t : State)
    → lookup (string_of c) s.subtrees ≡ some f
    → exported c ≡ true
    → enter c (lookup (string_of c) s.subtrees) s ≡ ok t
    → ⊥
enter-refuses c f s t q x e = error_not_ok (
    sym (
      ap (λ o. enter c o s) q
      ∙ ap (λ z. if z then error (Error.exported_twice (id_of f)) else ok s) x)
    ∙ e)

fragment-refuses :
    (c : Ast) (s t : State)
    → exported c ≡ true
    → Found (string_of c) s
    → simplify_fragment c s ≡ ok t
    → ⊥
unfolding simplify_fragment Found
fragment-refuses raw s t x found e = true_not_false (sym x)
fragment-refuses (register y u) s t x found e = true_not_false (sym x)
fragment-refuses (constant b v) s t x (f, q) e = enter-refuses (constant b v) f s t q x e
fragment-refuses (call b args) s t x (f, q) e =
    let (u, h, k) = bind-ok (simplify_args args s) _ t e in
    enter-refuses (call b args) f u t (args-Kept args s u h _ f q) x k

-- A list is refused, with the error of an export that is there twice, wherever an exported tree comes
-- after a tree that has it as a subtree, at any depth, also where nothing else exports it.
pub simplify-refuses :
    (xs ys zs : List Ast) (a c : Ast)
    → exported c ≡ true
    → Within (string_of c) a
    → (i : ℕ) × (simplify (xs ++ a ∷ (ys ++ c ∷ zs)) ≡ error (Error.exported_twice i))
unfolding simplify simplify_all Judged Found
simplify-refuses xs ys zs a c x w = elim (all-Judged (xs ++ a ∷ (ys ++ c ∷ zs)) no_state) [
  | inr (i, e) ↦ (i, ap (λ z. bind z (λ s. ok s.out)) e)
  | inl (t, e) ↦
      let (u, _, p) = simplify_all-append xs (a ∷ (ys ++ c ∷ zs)) no_state t e in
      let (v, q, h) = bind-ok (simplify_fragment a u) _ t p in
      let (r, k, l) = simplify_all-append ys (c ∷ zs) v t h in
      let (n, m, _) = bind-ok (simplify_fragment c r) _ t l in
      let (f, found) = fragment-Found (string_of c) a u v w q in
      absurd (fragment-refuses c r n x (f, all-Kept ys v r k _ f found) m)
]
