-- ===== src/CallGraph/Names.antt =====
-- flows/ast.go: expandSelect and lower keep names printable and keep what is exported under which name.
use go_flows.Shared.{◌≡◌, ap, sym, ◌∙◌, subst, refl, Bool, true, false, Option, none, some, if_both}
use go_flows.CallGraph.Ast.{
  FeatureType, Base, Ast, raw, register, constant, call, Args, no_args, arg, Result, ok, exported,
  export_name,
}
use go_flows.CallGraph.Printing.{Plain, PlainArgs}
use go_flows.CallGraph.Lower.{
  is_select, is_map, make_raw, append_arg, with_source, expand_select, expand_select_args,
  set_export, assign, lowered, lower_fragment, lower_map, lower_args,
}
use go_flows.CallGraph.Sharing.{bind-ok, ok-eq}
use go_flows.CallGraph.Binding.{make_raw-ok}

-- The second fragment is exported as the first one is.
abbrev pub SameExport : Ast → Ast → Type 0
SameExport a c = exported a ≡ true → (exported c ≡ true) × (export_name c ≡ export_name a)

append_arg-Plain : (args : Args) → PlainArgs args → PlainArgs (append_arg args raw)
unfolding Plain
append_arg-Plain no_args p = (tt, tt)
append_arg-Plain (arg a args) p = (p.0, append_arg-Plain args p.1)

with_source-Plain :
    (t : FeatureType) (b : Base) (m : Bool) (l : Args) (g : Ast)
    → Plain (call b l)
    → with_source t b m l ≡ ok g
    → Plain g × SameExport (call b l) g
unfolding Plain
with_source-Plain t b true l g p e =
    let (c, q, h) = bind-ok (make_raw t) _ g e in
    subst (λ z. Plain z × SameExport (call b l) z)
      (ap (λ z. call b (append_arg l z)) (sym (make_raw-ok t c q)) ∙ ok-eq h)
      ((p.0, append_arg-Plain l p.1), λ x. (x, refl))
with_source-Plain t b false l g p e =
    subst (λ z. Plain z × SameExport (call b l) z) (ok-eq e) (p, λ x. (x, refl))

mutual
  unfolding Plain expand_select

  pub expand_select-Plain :
      (t : FeatureType) (a g : Ast) → Plain a → expand_select t a ≡ ok g → Plain g × SameExport a g
  expand_select-Plain t raw g p e =
      subst (λ z. Plain z × SameExport raw z) (ok-eq e) (p, λ x. (x, refl))
  expand_select-Plain t (register r u) g p e = absurd p
  expand_select-Plain t (constant b v) g p e =
      subst (λ z. Plain z × SameExport (constant b v) z) (ok-eq e) (p, λ x. (x, refl))
  expand_select-Plain t (call b args) g p e =
      let (l, q, h) = bind-ok (expand_select_args t args) _ g e in
      let r =
        with_source-Plain t b (is_select b.name) l g (p.0, expand_select_args-Plain t args l p.1 q)
          h in
      (r.0, λ x. r.1 x)

  expand_select_args-Plain :
      (t : FeatureType) (args l : Args)
      → PlainArgs args
      → expand_select_args t args ≡ ok l
      → PlainArgs l
  expand_select_args-Plain t no_args l p e = subst PlainArgs (ok-eq e) tt
  expand_select_args-Plain t (arg a args) l p e =
      let (c, q, h) = bind-ok (expand_select t a) _ l e in
      let (r, u, k) = bind-ok (expand_select_args t args) _ l h in
      subst PlainArgs (ok-eq k)
        ((expand_select-Plain t a c p.0 q).0, expand_select_args-Plain t args r p.1 u)

-- The replacement of the raw input, when there is one.
unfoldable pub PlainOption : Option Ast → Type 0
PlainOption none = Unit
PlainOption (some a) = Plain a

assign-Plain :
    (b : Base) (a g : Ast)
    → Plain a
    → assign b a ≡ ok g
    → Plain g × (b.export ≡ true → (exported g ≡ true) × (export_name g ≡ b.export_name))
unfolding Plain
assign-Plain b raw g p e = absurd (cc)
assign-Plain b (register r t) g p e = absurd p
assign-Plain b (constant d v) g p e =
    subst (λ z. Plain z × (b.export ≡ true → (exported z ≡ true) × (export_name z ≡ b.export_name)))
      (ok-eq e)
      (if_both
        (λ z. Plain z × (b.export ≡ true → (exported z ≡ true) × (export_name z ≡ b.export_name)))
        b.export (set_export b.export_name (constant d v)) (constant d v)
        (λ _. (p, λ _. (refl, refl))) (λ f. (p, λ h. absurd (cc))))
assign-Plain b (call d args) g p e =
    subst (λ z. Plain z × (b.export ≡ true → (exported z ≡ true) × (export_name z ≡ b.export_name)))
      (ok-eq e)
      (if_both
        (λ z. Plain z × (b.export ≡ true → (exported z ≡ true) × (export_name z ≡ b.export_name)))
        b.export (set_export b.export_name (call d args)) (call d args)
        (λ _. (p, λ _. (refl, refl))) (λ f. (p, λ h. absurd (cc))))

lowered-Plain :
    (b : Base) (m : Bool) (to : Result Ast) (l : Result Args) (g : Ast)
    → ((t : Ast) → to ≡ ok t → Plain t)
    → ((x : Args) → l ≡ ok x → Plain (call b x))
    → lowered b m to l ≡ ok g
    → Plain g × (b.export ≡ true → (exported g ≡ true) × (export_name g ≡ b.export_name))
unfolding Plain
lowered-Plain b true to l g h k e = let (t, p, q) = bind-ok to _ g e in assign-Plain b t g (h t p) q
lowered-Plain b false to l g h k e =
    let (x, p, q) = bind-ok l _ g e in
    subst (λ z. Plain z × (b.export ≡ true → (exported z ≡ true) × (export_name z ≡ b.export_name)))
      (ok-eq q) (k x p, λ y. (y, refl))

mutual
  unfolding Plain PlainOption lower_fragment

  lower-Plain :
      (a : Ast) (o : Option Ast) (g : Ast)
      → Plain a
      → PlainOption o
      → lower_fragment a o ≡ ok g
      → Plain g
  lower-Plain raw none g p w e = subst Plain (ok-eq e) tt
  lower-Plain raw (some r) g p w e = subst Plain (ok-eq e) w
  lower-Plain (register r t) o g p w e = absurd p
  lower-Plain (constant b v) o g p w e = subst Plain (ok-eq e) p
  lower-Plain (call b args) o g p w e =
      (lowered-Plain b (is_map b.name) (lower_map args o) (lower_args args o) g
        (λ t q. lower_map-Plain args o t p.1 w q) (λ x q. (p.0, lower_args-Plain args o x p.1 w q))
        e).0

  lower_map-Plain :
      (args : Args) (o : Option Ast) (g : Ast)
      → PlainArgs args
      → PlainOption o
      → lower_map args o ≡ ok g
      → Plain g
  lower_map-Plain no_args o g p w e = absurd (cc)
  lower_map-Plain (arg a no_args) o g p w e = absurd (cc)
  lower_map-Plain (arg to (arg selected rest)) o g p w e =
      let (s, q, h) = bind-ok (lower_fragment selected o) _ g e in
      lower-Plain to (some s) g p.0 (lower-Plain selected o s p.1.0 w q) h

  lower_args-Plain :
      (args : Args) (o : Option Ast) (x : Args)
      → PlainArgs args
      → PlainOption o
      → lower_args args o ≡ ok x
      → PlainArgs x
  lower_args-Plain no_args o x p w e = subst PlainArgs (ok-eq e) tt
  lower_args-Plain (arg a args) o x p w e =
      let (c, q, h) = bind-ok (lower_fragment a o) _ x e in
      let (l, u, k) = bind-ok (lower_args args o) _ x h in
      subst PlainArgs (ok-eq k) (lower-Plain a o c p.0 w q, lower_args-Plain args o l p.1 w u)

-- At the top of a tree there is no replacement.
pub lower_top-Plain :
    (a g : Ast) → Plain a → lower_fragment a none ≡ ok g → Plain g × SameExport a g
unfolding Plain PlainOption lower_fragment
lower_top-Plain raw g p e = (lower-Plain raw none g p tt e, λ x. absurd (cc))
lower_top-Plain (register r t) g p e = absurd p
lower_top-Plain (constant b v) g p e =
    subst (λ z. Plain z × SameExport (constant b v) z) (ok-eq e) (p, λ x. (x, refl))
lower_top-Plain (call b args) g p e =
    lowered-Plain b (is_map b.name) (lower_map args none) (lower_args args none) g
      (λ t q. lower_map-Plain args none t p.1 tt q)
      (λ x q. (p.0, lower_args-Plain args none x p.1 tt q)) e
