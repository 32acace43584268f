-- ===== src/CallGraph/Sharing.antt =====
-- flows/ast.go: the simplified list computes what the call trees compute, each distinct subtree once.
use go_flows.Shared.{
  ℕ, suc, ◌<◌, ◌≡◌, ap, sym, ◌∙◌, subst, refl, true, false, List, [], ◌∷◌, ◌++◌, none, some, Key,
  key_eq, key_eq_sound, key_eq_refl, lookup, insert, lookup-insert, get_elem?, length,
  length-append, ◌⊎◌, inl, inr, if_both, Option-cases, get_elem?-append_length,
  get_elem?-append_left, lt_length-get_elem?, arith, All, All-mono, ◌≤◌,
}
use go_flows.CallGraph.Ast.{
  Ast, raw, register, constant, call, Args, no_args, arg, Result, ok, error, panic, bind, string_of,
  exported, export_name, is_raw, register_of, set_register,
}
use go_flows.CallGraph.Printing.{Plain, PlainArgs}
use go_flows.CallGraph.Machine.{some-eq}
use go_flows.CallGraph.Simplify.{State, copy, copy_args, link, link_args, linked, add}

pub bind-ok {ℓ κ} :
    {A : Type ℓ} {B : Type κ} (m : Result A) (f : A → Result B) (b : B)
    → bind m f ≡ ok b
    → (a : A) × (m ≡ ok a) × (f a ≡ ok b)
bind-ok (ok a) f b e = (a, refl, e)
bind-ok (error x) f b e = absurd (cc)
bind-ok panic f b e = absurd (cc)

pub ok-eq {ℓ} : {A : Type ℓ} {a b : A} → Result.ok a ≡ ok b → a ≡ b
ok-eq e = cc

-- The fragment of a subtree, with what the exporter reads of it.
abbrev pub Known : List (Key × Ast) → Ast → Type 0
Known m a =
    (is_raw a ≡ true)
    ⊎ ((f : Ast) × (lookup (string_of a) m ≡ some f)
        × (exported a ≡ true → (exported f ≡ exported a) × (export_name f ≡ export_name a)))

abbrev pub Kept : State → State → Type 0
Kept s t = (k : Key) (f : Ast) → lookup k s.subtrees ≡ some f → lookup k t.subtrees ≡ some f

-- The arguments are raw or registers below `n`.
unfoldable pub ArgsBelow : ℕ → Args → Type 0
ArgsBelow n no_args = Unit
ArgsBelow n (arg a args) = ((is_raw a ≡ true) ⊎ (register_of a < n)) × ArgsBelow n args

-- A fragment at a register below `n`, whose arguments are at registers below its own.
unfoldable pub Ordered : ℕ → Ast → Type 0
Ordered n (constant b v) = b.register < n
Ordered n (call b args) = (b.register < n) × ArgsBelow b.register args
Ordered n a = ⊥

pub Ordered-mono : (m n : ℕ) (a : Ast) → m ≤ n → Ordered m a → Ordered n a
unfolding Ordered
Ordered-mono m n raw h o = absurd o
Ordered-mono m n (register r t) h o = absurd o
Ordered-mono m n (constant b v) h o = omega (arith, h, o)
Ordered-mono m n (call b args) h o = (omega (arith, h, o.0), o.1)

-- Each subtree stands in the list at its register, and the list is ordered.
abbrev pub Placed : State → Type 0
Placed s =
    (length s.out ≡ s.register)
    × All (Ordered s.register) s.out
    × ((k : Key) (f : Ast)
        → lookup k s.subtrees ≡ some f
        → get_elem? s.out (register_of f) ≡ some f)

pub Known-Kept : (a : Ast) (s t : State) → Kept s t → Known s.subtrees a → Known t.subtrees a
Known-Kept a s t k (inl h) = inl h
Known-Kept a s t k (inr (f, e, x)) = inr (f, k _ f e, x)

mutual
  unfolding Plain

  pub copy-Plain : (a : Ast) → Plain a → copy a ≡ a
  copy-Plain raw p = refl
  copy-Plain (register r t) p = absurd p
  copy-Plain (constant b v) p = refl
  copy-Plain (call b args) p = ap (call b) (copy_args-Plain args p.1)

  pub copy_args-Plain : (args : Args) → PlainArgs args → copy_args args ≡ args
  copy_args-Plain no_args p = refl
  copy_args-Plain (arg a args) p = rw (copy-Plain a p.0, copy_args-Plain args p.1) refl

-- What an emitted fragment is, for one that is neither raw nor a register.
unfoldable pub emitted : State → Ast → Ast
emitted s a = set_register s.register (linked s.subtrees (copy a))

pub emitted-register_of :
    (s : State) (a : Ast) → Plain a → is_raw a ≡ false → register_of (emitted s a) ≡ s.register
unfolding Plain emitted
emitted-register_of s raw p h = absurd (cc)
emitted-register_of s (register r t) p h = absurd p
emitted-register_of s (constant b v) p h = refl
emitted-register_of s (call b args) p h = refl

pub emitted-export :
    (s : State) (a : Ast)
    → Plain a
    → is_raw a ≡ false
    → (exported (emitted s a) ≡ exported a) × (export_name (emitted s a) ≡ export_name a)
unfolding Plain emitted
emitted-export s raw p h = absurd (cc)
emitted-export s (register r t) p h = absurd p
emitted-export s (constant b v) p h = (refl, refl)
emitted-export s (call b args) p h = (refl, refl)

-- A new key and the others, after an insert.
pub insert-cases :
    (k j : Key) (c f : Ast) (m : List (Key × Ast))
    → lookup j (insert k c m) ≡ some f
    → ((k ≡ j) × (f ≡ c)) ⊎ (lookup j m ≡ some f)
insert-cases k j c f m e =
    if_both (λ o. o ≡ some f → ((k ≡ j) × (f ≡ c)) ⊎ (lookup j m ≡ some f)) (key_eq k j) (some c)
      (lookup j m) (λ q h. inl (key_eq_sound k j q, sym (some-eq h))) (λ q h. inr h)
      (sym (lookup-insert k j c m) ∙ e)

pub add-Kept : (a : Ast) (s : State) → lookup (string_of a) s.subtrees ≡ none → Kept s (add a s)
unfolding add emitted
add-Kept a s n k f h =
    lookup-insert (string_of a) k (emitted s a) s.subtrees
    ∙ if_both (λ o. o ≡ some f) (key_eq (string_of a) k) (some (emitted s a)) (lookup k s.subtrees)
        (λ q.
          let e : none ≡ some f =
            sym n ∙ ap (λ j. lookup j s.subtrees) (key_eq_sound (string_of a) k q) ∙ h in
          absurd (cc))
        (λ q. h)

unfoldable pub AllKnown : List (Key × Ast) → Args → Type 0
AllKnown m no_args = Unit
AllKnown m (arg a args) = Known m a × AllKnown m args

-- The arguments of a call are known.
abbrev pub ArgsKnown : List (Key × Ast) → Ast → Type 0
ArgsKnown m (call b args) = AllKnown m args
ArgsKnown m a = Unit

-- An argument that is known gets its register.
link-below :
    (s : State) (a : Ast)
    → Placed s
    → Known s.subtrees a
    → (is_raw (link a (lookup (string_of a) s.subtrees)) ≡ true)
      ⊎ (register_of (link a (lookup (string_of a) s.subtrees)) < s.register)
link-below s a (l, _, h) k = elim (Option-cases (lookup (string_of a) s.subtrees)) [
  | inr (f, e) ↦ rw e (inr (omega (arith, l, lt_length-get_elem? s.out (register_of f) (h _ f e))))
  | inl e ↦ elim k [ inl r ↦ rw e (inl r) | inr (f, q, _) ↦ absurd (cc) ]
]

link_args-below :
    (s : State) (args : Args)
    → Placed s
    → AllKnown s.subtrees args
    → ArgsBelow s.register (link_args s.subtrees args)
unfolding AllKnown ArgsBelow link_args
link_args-below s no_args p k = tt
link_args-below s (arg a args) p k = (link-below s a p k.0, link_args-below s args p k.1)

emitted-Ordered :
    (s : State) (a : Ast)
    → Plain a
    → is_raw a ≡ false
    → ArgsKnown s.subtrees a
    → Placed s
    → Ordered (suc s.register) (emitted s a)
unfolding Plain emitted Ordered
emitted-Ordered s raw p r k l = absurd (cc)
emitted-Ordered s (register x t) p r k l = absurd p
emitted-Ordered s (constant b v) p r k l = omega arith
emitted-Ordered s (call b args) p r k l = (
  omega arith,
  subst (λ z. ArgsBelow s.register (link_args s.subtrees z)) (sym (copy_args-Plain args p.1))
      (link_args-below s args l k),
)

All-snoc {κ} : (P : Ast → Type κ) (xs : List Ast) (y : Ast) → All P xs → P y → All P (xs ++ y ∷ [])
All-snoc P [] y h k = (k, tt)
All-snoc P (x ∷ xs) y h k = (h.0, All-snoc P xs y h.1 k)

pub add-Placed :
    (a : Ast) (s : State)
    → Plain a
    → is_raw a ≡ false
    → ArgsKnown s.subtrees a
    → Placed s
    → Placed (add a s)
unfolding add emitted
add-Placed a s p r kn (l, g, h) =
    let c = emitted s a in
    let d : register_of c ≡ length s.out = emitted-register_of s a p r ∙ sym l in
    (
      omega (arith, length-append s.out (c ∷ []), l),
      All-snoc (Ordered (suc s.register)) s.out c
          (All-mono s.out (λ x o. Ordered-mono s.register (suc s.register) x (omega arith) o) g)
          (emitted-Ordered s a p r kn (l, g, h)),
      λ k f e. elim (insert-cases (string_of a) k c f s.subtrees e) [
        | inl (_, q) ↦ rw (q, d) (get_elem?-append_length s.out c)
        | inr q ↦
            get_elem?-append_left s.out (c ∷ []) (register_of f)
              (lt_length-get_elem? s.out _ (h k f q))
            ∙ h k f q
      ],
    )

pub AllKnown-Kept :
    (args : Args) (s t : State) → Kept s t → AllKnown s.subtrees args → AllKnown t.subtrees args
unfolding AllKnown
AllKnown-Kept no_args s t k h = tt
AllKnown-Kept (arg a args) s t k h = (Known-Kept a s t k h.0, AllKnown-Kept args s t k h.1)

-- The new fragment is the one of its string.
pub add-Known : (a : Ast) (s : State) → Plain a → is_raw a ≡ false → Known (add a s).subtrees a
unfolding add emitted
add-Known a s p r = inr (
  emitted s a,
  lookup-insert (string_of a) (string_of a) (emitted s a) s.subtrees
      ∙ if_both (λ o. o ≡ some (emitted s a)) (key_eq (string_of a) (string_of a))
          (some (emitted s a)) (lookup (string_of a) s.subtrees) (λ q. refl)
          (λ q. let e : true ≡ false = sym (key_eq_refl (string_of a)) ∙ q in absurd (cc)),
  λ _. (emitted-export s a p r),
)
