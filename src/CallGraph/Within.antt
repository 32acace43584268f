-- ===== src/CallGraph/Within.antt =====
-- flows/ast.go: simplify finds every subtree of the trees that it has been through.
use go_flows.Shared.{
  ◌≡◌, ap, ◌∙◌, subst, refl, List, [], ◌∷◌, none, some, if◌then◌else◌, Key, ◌⊎◌, inl, inr, lookup,
  insert, lookup-insert, Option, if_both, key_eq_refl,
}
use go_flows.CallGraph.Ast.{
  Ast, raw, register, constant, call, Args, no_args, arg, ok, error, Error, string_of, exported,
  id_of,
}
use go_flows.CallGraph.Sharing.{bind-ok, ok-eq, Kept, add-Kept}
use go_flows.CallGraph.Values.{error_not_ok}
use go_flows.CallGraph.Simplify.{State, add, enter, simplify_all, simplify_fragment, simplify_args}

-- A fragment that prints as `k` stands somewhere in a tree; raw input does not count.
unfoldable mutual
  pub Within : Key → Ast → Type 0
  Within k raw = ⊥
  Within k (register r t) = string_of (register r t) ≡ k
  Within k (constant b v) = string_of (constant b v) ≡ k
  Within k (call b args) = (string_of (call b args) ≡ k) ⊎ WithinArgs k args

  pub WithinArgs : Key → Args → Type 0
  WithinArgs k no_args = ⊥
  WithinArgs k (arg a args) = Within k a ⊎ WithinArgs k args

unfoldable pub Found : Key → State → Type 0
Found k s = (f : Ast) × (lookup k s.subtrees ≡ some f)

lookup-insert_self : (k : Key) (c : Ast) (m : List (Key × Ast)) → lookup k (insert k c m) ≡ some c
lookup-insert_self k c m =
    lookup-insert k k c m ∙ ap (λ z. if z then some c else lookup k m) (key_eq_refl k)

-- A fragment that is entered keeps the others and is found.
enter-Kept :
    (a : Ast) (o : Option Ast) (s t : State)
    → lookup (string_of a) s.subtrees ≡ o
    → enter a o s ≡ ok t
    → Kept s t × Found (string_of a) t
unfolding Found add
enter-Kept a none s t n e =
    subst (λ u. Kept s u × Found (string_of a) u) (ok-eq e)
      (add-Kept a s n, (_, lookup-insert_self (string_of a) _ s.subtrees))
enter-Kept a (some f) s t n e =
    if_both (λ z. z ≡ ok t → Kept s t × Found (string_of a) t) (exported a)
      (error (Error.exported_twice (id_of f))) (ok s) (λ _ h. absurd (error_not_ok h))
      (λ _ h. subst (λ u. Kept s u × Found (string_of a) u) (ok-eq h) (λ j g q. q, (f, n))) e

mutual
  unfolding simplify_fragment

  fragment-Kept : (a : Ast) (s t : State) → simplify_fragment a s ≡ ok t → Kept s t
  fragment-Kept raw s t e = subst (Kept s) (ok-eq e) (λ k f q. q)
  fragment-Kept (register r u) s t e = (enter-Kept (register r u) _ s t refl e).0
  fragment-Kept (constant b v) s t e = (enter-Kept (constant b v) _ s t refl e).0
  fragment-Kept (call b args) s t e =
      let (u, p, q) = bind-ok (simplify_args args s) _ t e in
      let (kept, _) = enter-Kept (call b args) _ u t refl q in
      λ k f h. kept k f (args-Kept args s u p k f h)

  pub args-Kept : (args : Args) (s t : State) → simplify_args args s ≡ ok t → Kept s t
  args-Kept no_args s t e = subst (Kept s) (ok-eq e) (λ k f q. q)
  args-Kept (arg a args) s t e =
      let (u, p, q) = bind-ok (simplify_fragment a s) _ t e in
      λ k f h. args-Kept args u t q k f (fragment-Kept a s u p k f h)

pub all-Kept : (fs : List Ast) (s t : State) → simplify_all fs s ≡ ok t → Kept s t
unfolding simplify_all
all-Kept [] s t e = subst (Kept s) (ok-eq e) (λ k f q. q)
all-Kept (a ∷ fs) s t e =
    let (u, p, q) = bind-ok (simplify_fragment a s) _ t e in
    λ k f h. all-Kept fs u t q k f (fragment-Kept a s u p k f h)

mutual
  unfolding simplify_fragment Within Found

  pub fragment-Found :
      (k : Key) (a : Ast) (s t : State) → Within k a → simplify_fragment a s ≡ ok t → Found k t
  fragment-Found k raw s t w e = absurd w
  fragment-Found k (register r u) s t w e =
      subst (λ j. Found j t) w (enter-Kept (register r u) _ s t refl e).1
  fragment-Found k (constant b v) s t w e =
      subst (λ j. Found j t) w (enter-Kept (constant b v) _ s t refl e).1
  fragment-Found k (call b args) s t w e =
      let (u, p, q) = bind-ok (simplify_args args s) _ t e in
      let (kept, found) = enter-Kept (call b args) _ u t refl q in
      elim w [
        | inl h ↦ subst (λ j. Found j t) h found
        | inr h ↦ let (f, g) = args-Found k args s u h p in (f, kept k f g)
      ]

  args-Found :
      (k : Key) (args : Args) (s t : State)
      → WithinArgs k args
      → simplify_args args s ≡ ok t
      → Found k t
  args-Found k no_args s t w e = absurd w
  args-Found k (arg a args) s t w e =
      let (u, p, q) = bind-ok (simplify_fragment a s) _ t e in
      elim w [
        | inl h ↦ let (f, g) = fragment-Found k a s u h p in (f, args-Kept args u t q k f g)
        | inr h ↦ args-Found k args u t h q
      ]
