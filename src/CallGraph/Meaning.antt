-- ===== src/CallGraph/Meaning.antt =====
-- flows/ast.go: what a fragment computes from a packet. Two fragments that print the same compute the
-- same.
use go_flows.Shared.{
  ℕ, ◌≡◌, ap, sym, ◌∙◌, Bool, true, false, List, [], ◌∷◌, ◌++◌, Option, none, some, refl, Key, ◌==◌,
  arith,
}
use mathlib.Core.List.{append_assoc, append-nil}
use go_flows.CallGraph.Ast.{
  FeatureType, label, Ast, raw, register, constant, call, Args, no_args, arg, raw_name, type_prefix,
  string_of, strings_of,
}
use go_flows.CallGraph.Printing.{
  scan, Plain, PlainArgs, stops, ends, head_of, label_of, drop_one, type_of, type_of-label_of,
  head_of-raw_name, head_of-const_prefix, head_of-type_prefix,
}

-- A printed argument list after its first argument.
abbrev after_first : Args → Key
after_first no_args = []
after_first (arg a args) = 44 ∷ 32 ∷ (string_of a ++ after_first args)

strings_of-arg : (args : Args) (a : Ast) → strings_of (arg a args) ≡ string_of a ++ after_first args
unfolding strings_of
strings_of-arg no_args a = sym (append-nil (string_of a))
strings_of-arg (arg b args) a = ap (λ x. string_of a ++ 44 ∷ 32 ∷ x) (strings_of-arg args b)

-- The parts of a printed fragment, when `s` follows it.
abbrev parts : Ast → Key → Option Key × (Key × Key)
parts raw s = (none, (raw_name, s))
parts (register r t) s = (none, ([], s))
parts (constant b v) s = (some (label FeatureType.const), (v, s))
parts (call b args) s = (label_of b.ret, (b.name, 40 ∷ (strings_of args ++ 41 ∷ s)))

ends_of_stops : (s : Key) → stops s ≡ true → ends s ≡ true
ends_of_stops [] h = refl
ends_of_stops (c ∷ s) h = ground arith

head_of-string_of :
    (a : Ast) (s : Key) → Plain a → stops s ≡ true → head_of (string_of a ++ s) ≡ parts a s
unfolding string_of Plain
head_of-string_of raw s p h = head_of-raw_name s (ends_of_stops s h)
head_of-string_of (register r t) s p h = absurd p
head_of-string_of (constant b v) s p h = head_of-const_prefix v s p (ends_of_stops s h)
head_of-string_of (call b args) s p h =
    let e : (type_prefix b.ret ++ b.name ++ 40 ∷ strings_of args ++ 41 ∷ []) ++ s
        ≡ type_prefix b.ret ++ (b.name ++ 40 ∷ (strings_of args ++ 41 ∷ s)) =
      simp append_assoc in
    ap head_of e ∙ head_of-type_prefix b.ret b.name (strings_of args ++ 41 ∷ s) p.0

bool_clash : false ≡ true → ⊥
bool_clash e = cc

after_first-joined :
    (a : Ast) (args : Args) (s : Key)
    → (string_of a ++ after_first args) ++ 41 ∷ s ≡ string_of a ++ (after_first args ++ 41 ∷ s)
after_first-joined a args s = append_assoc (string_of a) (after_first args) (41 ∷ s)

-- No argument list opens after the end of a fragment.
opens_not : (s u : Key) → stops s ≡ true → s ≡ 40 ∷ u → ⊥
opens_not s u h e = bool_clash (sym (ap stops e) ∙ h)

abbrev is_close : Key → Bool
is_close [] = false
is_close (c ∷ s) = c == 41

-- A fragment does not start with a closing bracket.
closes_not : (a : Ast) (s u : Key) → parts a u ≡ (none, ([], 41 ∷ s)) → Plain a → ⊥
unfolding Plain
closes_not raw s u e p = absurd (cc)
closes_not (register r t) s u e p = absurd p
closes_not (constant b v) s u e p = absurd (cc)
closes_not (call b args) s u e p = bool_clash (ap (λ x. is_close x.1.1) e)

tail_eq : {c d : ℕ} {s t : Key} → c ∷ s ≡ d ∷ t → s ≡ t
tail_eq e = ap drop_one e

-- What follows an argument stops it.
stops-after_first : (args : Args) (s : Key) → stops (after_first args ++ 41 ∷ s) ≡ true
stops-after_first no_args s = refl
stops-after_first (arg a args) s = refl

strings_of-close :
    (a : Ast) (args : Args) (s : Key)
    → strings_of (arg a args) ++ 41 ∷ s ≡ string_of a ++ (after_first args ++ 41 ∷ s)
strings_of-close a args s =
    ap (λ x. x ++ 41 ∷ s) (strings_of-arg args a)
    ∙ append_assoc (string_of a) (after_first args) (41 ∷ s)

parts_eq :
    (a c : Ast) (s t : Key)
    → Plain a
    → Plain c
    → stops s ≡ true
    → stops t ≡ true
    → string_of a ++ s ≡ string_of c ++ t
    → parts a s ≡ parts c t
parts_eq a c s t p q h k e =
    sym (head_of-string_of a s p h) ∙ ap head_of e ∙ head_of-string_of c t q k

module _ {ℓ} {V : Type ℓ} (packet : V) (literal : Key → V)
    (apply : FeatureType → Key → List V → V) where
  -- The value of a fragment: that of the packet for raw input, the constant's, or what the feature of a
  -- call computes from the values of its arguments.
  unfoldable mutual
    pub eval : Ast → V
    eval raw = packet
    eval (register r t) = packet
    eval (constant b v) = literal v
    eval (call b args) = apply b.ret b.name (eval_args args)

    pub eval_args : Args → List V
    eval_args no_args = []
    eval_args (arg a args) = eval a ∷ eval_args args

  mutual
    unfolding eval string_of Plain scan

    parts-eval :
        (a c : Ast) (s t : Key)
        → Plain a
        → Plain c
        → stops s ≡ true
        → stops t ≡ true
        → parts a s ≡ parts c t
        → (eval a ≡ eval c) × (s ≡ t)
    parts-eval (register r u) c s t p q h k e = absurd p
    parts-eval a (register r u) s t p q h k e = absurd q
    parts-eval raw raw s t p q h k e = (refl, ap (λ x. x.1.1) e)
    parts-eval raw (constant d w) s t p q h k e = absurd (cc)
    parts-eval raw (call d brgs) s t p q h k e = absurd (opens_not s _ h (ap (λ x. x.1.1) e))
    parts-eval (constant b v) raw s t p q h k e = absurd (cc)
    parts-eval (constant b v) (constant d w) s t p q h k e =
        (ap (λ x. literal x.1.0) e, ap (λ x. x.1.1) e)
    parts-eval (constant b v) (call d brgs) s t p q h k e =
        absurd (opens_not s _ h (ap (λ x. x.1.1) e))
    parts-eval (call b args) raw s t p q h k e = absurd (opens_not t _ k (sym (ap (λ x. x.1.1) e)))
    parts-eval (call b args) (constant d w) s t p q h k e =
        absurd (opens_not t _ k (sym (ap (λ x. x.1.1) e)))
    parts-eval (call b args) (call d brgs) s t p q h k e =
        let r : b.ret ≡ d.ret =
          sym (type_of-label_of b.ret) ∙ ap (λ x. type_of x.0) e ∙ type_of-label_of d.ret in
        let n : b.name ≡ d.name = ap (λ x. x.1.0) e in
        let (m, u) = args-eval args brgs s t p.1 q.1 (tail_eq (ap (λ x. x.1.1) e)) in
        (rw (r, n, m) refl, u)

    args-eval :
        (args brgs : Args) (s t : Key)
        → PlainArgs args
        → PlainArgs brgs
        → strings_of args ++ 41 ∷ s ≡ strings_of brgs ++ 41 ∷ t
        → (eval_args args ≡ eval_args brgs) × (s ≡ t)
    args-eval no_args no_args s t p q e = (refl, tail_eq e)
    args-eval no_args (arg c brgs) s t p q e = absurd (
        closes_not c s _
          (sym (head_of-string_of c _ q.0 (stops-after_first brgs t))
            ∙ ap head_of (sym (e ∙ strings_of-close c brgs t)))
          q.0)
    args-eval (arg a args) no_args s t p q e = absurd (
        closes_not a t _
          (sym (head_of-string_of a _ p.0 (stops-after_first args s))
            ∙ ap head_of (sym (strings_of-close a args s) ∙ e))
          p.0)
    args-eval (arg a args) (arg c brgs) s t p q e =
        let (m, u) =
          parts-eval a c _ _ p.0 q.0 (stops-after_first args s) (stops-after_first brgs t) (
            parts_eq a c _ _ p.0 q.0 (stops-after_first args s) (stops-after_first brgs t)
              (sym (strings_of-close a args s) ∙ e ∙ strings_of-close c brgs t)) in
        let (l, v) = after_first-eval args brgs s t p.1 q.1 u in (rw (m, l) refl, v)

    after_first-eval :
        (args brgs : Args) (s t : Key)
        → PlainArgs args
        → PlainArgs brgs
        → after_first args ++ 41 ∷ s ≡ after_first brgs ++ 41 ∷ t
        → (eval_args args ≡ eval_args brgs) × (s ≡ t)
    after_first-eval no_args no_args s t p q e = (refl, tail_eq e)
    after_first-eval no_args (arg c brgs) s t p q e = absurd (bool_clash (sym (ap is_close e)))
    after_first-eval (arg a args) no_args s t p q e = absurd (bool_clash (ap is_close e))
    after_first-eval (arg a args) (arg c brgs) s t p q e =
        let f = after_first-joined a args s in
        let g = after_first-joined c brgs t in
        let (m, u) =
          parts-eval a c _ _ p.0 q.0 (stops-after_first args s) (stops-after_first brgs t) (
            parts_eq a c _ _ p.0 q.0 (stops-after_first args s) (stops-after_first brgs t)
              (sym f ∙ tail_eq (tail_eq e) ∙ g)) in
        let (l, v) = after_first-eval args brgs s t p.1 q.1 u in (rw (m, l) refl, v)

  -- Fragments that print the same compute the same.
  pub eval-string_of : (a c : Ast) → Plain a → Plain c → string_of a ≡ string_of c → eval a ≡ eval c
  eval-string_of a c p q e =
      (parts-eval a c [] [] p q refl refl
        (parts_eq a c [] [] p q refl refl (ap (λ x. x ++ []) e))).0
