-- ===== src/CallGraph/Binding.antt =====
-- flows/ast.go: what `map`, `apply` and `select` mean, and that expandSelect and lower keep it.
use mathlib.Core.List.{append-nil}
use go_flows.Shared.{
  ◌≡◌, ap, sym, subst, if_both, ◌||◌, key_eq, key_eq_sound, Bool-cases, inl, inr, ◌∙◌, refl, Bool,
  true, false, List, [], ◌∷◌, ◌++◌, Option, none, some, if◌then◌else◌, Key,
}
use go_flows.CallGraph.Ast.{
  FeatureType, Base, Ast, raw, register, constant, call, Args, no_args, arg, Result, ok,
}
use go_flows.CallGraph.Printing.{Plain, PlainArgs}
use go_flows.CallGraph.Lower.{
  select_name, slice_name, is_select, is_map, make_raw, append_arg, with_source, expand_select,
  expand_select_args, set_export, assign, lowered, lower_fragment, lower_map, lower_args,
}
use go_flows.CallGraph.Meaning.{eval, eval_args}
use go_flows.CallGraph.Sharing.{bind-ok, ok-eq}

-- No select is a map.
is_map-select : (n : Key) → is_select n ≡ true → is_map n ≡ false
unfolding is_select is_map key_eq
is_map-select n h = elim (Bool-cases (key_eq n select_name)) [
  | inl e ↦ ap is_map (key_eq_sound n select_name e)
  | inr e ↦ ap is_map (key_eq_sound n slice_name (sym (ap (λ z. z || key_eq n slice_name) e) ∙ h))
]

pub make_raw-ok : (t : FeatureType) (c : Ast) → make_raw t ≡ ok c → c ≡ raw
make_raw-ok FeatureType.raw_packet c e = sym (ok-eq e)
make_raw-ok _ c e = absurd (cc)

module _ {ℓ} {V : Type ℓ} (literal : Key → V) (apply : FeatureType → Key → List V → V) where
  -- The value of a call tree for some input: `map` and `apply` give the value of their second argument to
  -- their first as its input. Where `s` is set, `select` reads the input after its arguments.
  unfoldable mutual
    pub value : Bool → V → Ast → V
    value s input raw = input
    value s input (register r t) = input
    value s input (constant b v) = literal v
    value s input (call b args) =
        if is_map b.name
        then bound s input args
        else apply b.ret b.name (
            values s input args
            ++ (if s then (if is_select b.name then input ∷ [] else []) else []))

    pub bound : Bool → V → Args → V
    bound s input (arg to (arg selected rest)) = value s (value s input selected) to
    bound s input args = input

    pub values : Bool → V → Args → List V
    values s input no_args = []
    values s input (arg a args) = value s input a ∷ values s input args

  -- The input of a fragment that is lowered with a replacement.
  abbrev pub source : V → Option Ast → V
  source input none = input
  source input (some a) = eval input literal apply a

  assign-eval :
      (input : V) (b : Base) (a g : Ast)
      → assign b a ≡ ok g
      → eval input literal apply g ≡ eval input literal apply a
  unfolding eval
  assign-eval input b raw g e = absurd (cc)
  assign-eval input b (register r t) g e = absurd (cc)
  assign-eval input b (constant d v) g e =
      subst (λ z. eval input literal apply z ≡ literal v) (ok-eq e)
        (if_both (λ z. eval input literal apply z ≡ literal v) b.export
          (set_export b.export_name (constant d v)) (constant d v) (λ _. refl) (λ _. refl))
  assign-eval input b (call d args) g e =
      let v = eval input literal apply (call d args) in
      subst (λ z. eval input literal apply z ≡ v) (ok-eq e)
        (if_both (λ z. eval input literal apply z ≡ v) b.export
          (set_export b.export_name (call d args)) (call d args) (λ _. refl) (λ _. refl))

  lowered-eval :
      (input : V) (b : Base) (m : Bool) (to : Result Ast) (l : Result Args) (v : V) (vs : List V)
      (g : Ast)
      → ((t : Ast) → to ≡ ok t → eval input literal apply t ≡ v)
      → ((x : Args) → l ≡ ok x → eval_args input literal apply x ≡ vs)
      → lowered b m to l ≡ ok g
      → eval input literal apply g ≡ (if m then v else apply b.ret b.name (vs ++ []))
  unfolding eval
  lowered-eval input b true to l v vs g h k e =
      let (t, p, q) = bind-ok to _ g e in assign-eval input b t g q ∙ h t p
  lowered-eval input b false to l v vs g h k e =
      let (x, p, q) = bind-ok l _ g e in
      subst (λ z. eval input literal apply z ≡ apply b.ret b.name (vs ++ [])) (ok-eq q)
        (ap (apply b.ret b.name) (k x p ∙ sym (append-nil vs)))

  mutual
    unfolding eval value lower_fragment Plain

    pub lower-eval :
        (input : V) (a : Ast) (o : Option Ast) (g : Ast)
        → Plain a
        → lower_fragment a o ≡ ok g
        → eval input literal apply g ≡ value false (source input o) a
    lower-eval input raw none g w e = ap (eval input literal apply) (sym (ok-eq e))
    lower-eval input raw (some r) g w e = ap (eval input literal apply) (sym (ok-eq e))
    lower-eval input (register r t) o g w e = absurd w
    lower-eval input (constant b v) o g w e = ap (eval input literal apply) (sym (ok-eq e))
    lower-eval input (call b args) o g w e =
        lowered-eval input b (is_map b.name) (lower_map args o) (lower_args args o)
          (bound false (source input o) args) (values false (source input o) args) g
          (λ t p. lower_map-eval input args o t w.1 p) (λ x p. lower_args-eval input args o x w.1 p)
          e

    lower_map-eval :
        (input : V) (args : Args) (o : Option Ast) (g : Ast)
        → PlainArgs args
        → lower_map args o ≡ ok g
        → eval input literal apply g ≡ bound false (source input o) args
    lower_map-eval input no_args o g w e = absurd (cc)
    lower_map-eval input (arg a no_args) o g w e = absurd (cc)
    lower_map-eval input (arg to (arg selected rest)) o g w e =
        let (s, p, q) = bind-ok (lower_fragment selected o) _ g e in
        lower-eval input to (some s) g w.0 q
        ∙ ap (λ z. value false z to) (lower-eval input selected o s w.1.0 p)

    lower_args-eval :
        (input : V) (args : Args) (o : Option Ast) (x : Args)
        → PlainArgs args
        → lower_args args o ≡ ok x
        → eval_args input literal apply x ≡ values false (source input o) args
    lower_args-eval input no_args o x w e = ap (eval_args input literal apply) (sym (ok-eq e))
    lower_args-eval input (arg a args) o x w e =
        let (c, p, q) = bind-ok (lower_fragment a o) _ x e in
        let (l, u, h) = bind-ok (lower_args args o) _ x q in
        subst (λ z. eval_args input literal apply z ≡ values false (source input o) (arg a args))
          (ok-eq h) (rw (lower-eval input a o c w.0 p, lower_args-eval input args o l w.1 u) refl)

  values-append :
      (input : V) (args : Args)
      → values false input (append_arg args raw) ≡ values false input args ++ input ∷ []
  unfolding value
  values-append input no_args = refl
  values-append input (arg a args) = ap (λ z. value false input a ∷ z) (values-append input args)

  with_source-value :
      (t : FeatureType) (input : V) (b : Base) (m : Bool) (l : Args) (g : Ast) (v : V) (vs : List V)
      → is_select b.name ≡ m
      → bound false input l ≡ v
      → values false input l ≡ vs
      → with_source t b m l ≡ ok g
      → value false input g
        ≡ (if is_map b.name then v else apply b.ret b.name (vs ++ (if m then input ∷ [] else [])))
  unfolding value
  with_source-value t input b true l g v vs s h k e =
      let (c, p, q) = bind-ok (make_raw t) _ g e in
      let n = is_map-select b.name s in
      let w = apply b.ret b.name (vs ++ input ∷ []) in
      let inner : apply b.ret b.name (values false input (append_arg l c) ++ []) ≡ w =
        ap (apply b.ret b.name) (
          append-nil (values false input (append_arg l c))
          ∙ ap (λ z. values false input (append_arg l z)) (make_raw-ok t c p)
          ∙ values-append input l
          ∙ ap (λ z. z ++ input ∷ []) k) in
      ap (value false input) (sym (ok-eq q))
      ∙ ap
          (λ z.
            if z
            then bound false input (append_arg l c)
            else apply b.ret b.name (values false input (append_arg l c) ++ []))
          n
      ∙ inner
      ∙ ap (λ z. if z then v else w) (sym n)
  with_source-value t input b false l g v vs s h k e =
      ap (value false input) (sym (ok-eq e))
      ∙ ap (λ z. if is_map b.name then z else apply b.ret b.name (values false input l ++ [])) h
      ∙ ap (λ z. if is_map b.name then v else apply b.ret b.name (z ++ [])) k

  mutual
    unfolding value expand_select

    pub expand_select-value :
        (t : FeatureType) (input : V) (a g : Ast)
        → expand_select t a ≡ ok g
        → value false input g ≡ value true input a
    expand_select-value t input raw g e = ap (value false input) (sym (ok-eq e))
    expand_select-value t input (register r u) g e = ap (value false input) (sym (ok-eq e))
    expand_select-value t input (constant b v) g e = ap (value false input) (sym (ok-eq e))
    expand_select-value t input (call b args) g e =
        let (l, p, q) = bind-ok (expand_select_args t args) _ g e in
        with_source-value t input b (is_select b.name) l g _ _ refl
          (expand_select_args-bound t input args l p) (expand_select_args-values t input args l p) q

    expand_select_args-values :
        (t : FeatureType) (input : V) (args l : Args)
        → expand_select_args t args ≡ ok l
        → values false input l ≡ values true input args
    expand_select_args-values t input no_args l e = ap (values false input) (sym (ok-eq e))
    expand_select_args-values t input (arg a args) l e =
        let (c, p, q) = bind-ok (expand_select t a) _ l e in
        let (r, u, h) = bind-ok (expand_select_args t args) _ l q in
        ap (values false input) (sym (ok-eq h))
        ∙ ap (λ z. z ∷ values false input r) (expand_select-value t input a c p)
        ∙ ap (λ z. value true input a ∷ z) (expand_select_args-values t input args r u)

    expand_select_args-bound :
        (t : FeatureType) (input : V) (args l : Args)
        → expand_select_args t args ≡ ok l
        → bound false input l ≡ bound true input args
    expand_select_args-bound t input no_args l e = ap (bound false input) (sym (ok-eq e))
    expand_select_args-bound t input (arg a no_args) l e =
        let (c, p, q) = bind-ok (expand_select t a) _ l e in ap (bound false input) (sym (ok-eq q))
    expand_select_args-bound t input (arg to (arg selected rest)) l e =
        let (c, p, q) = bind-ok (expand_select t to) _ l e in
        let (r, u, h) = bind-ok (expand_select_args t (arg selected rest)) _ l q in
        let (d, p', q') = bind-ok (expand_select t selected) _ r u in
        let (r', u', h') = bind-ok (expand_select_args t rest) _ r q' in
        ap (bound false input) (sym (ok-eq h) ∙ ap (arg c) (sym (ok-eq h')))
        ∙ ap (λ z. value false z c) (expand_select-value t input selected d p')
        ∙ expand_select-value t (value true input selected) to c p
