-- ===== src/CallGraph/WellTyped.antt =====
-- flows/ast.go: what build returns has the type that was asked for.
use go_flows.Shared.{
  ℕ, ◌≡◌, ap, ◌∙◌, subst, refl, true, List, [], ◌∷◌, ◌++◌, Option, none, some, if◌then◌else◌,
  if_both, ◌==◌, Key, length, inl, inr, All, All-mono, arith,
}
use go_flows.CallGraph.Ast.{
  FeatureType, FeatureMaker, Base, Ast, raw, register, constant, call, Args, no_args, arg, Result,
  ok, error, panic,
}
use go_flows.CallGraph.Sharing.{bind-ok, ok-eq}
use go_flows.CallGraph.Build.{
  Registry, is_variadic, fixed, variadic, get_features, arg_types, count_args, with_types, attempt,
  try_candidates, build_control, build_call, build_raw, build, build_args,
}
use go_flows.CallGraph.ArgTypes.{length-arg_types}
use go_flows.CallGraph.Typing.{Member, Registered, Typed, TypedArgs, Fits, arg_types-Accepts}

panic_not_ok {ℓ} : {A : Type ℓ} {a : A} → Result.panic ≡ ok a → ⊥
panic_not_ok e = cc

All-append {κ} :
    (P : FeatureMaker → Type κ) (xs ys : List FeatureMaker) → All P xs → All P ys → All P (xs ++ ys)
All-append P [] ys h k = k
All-append P (x ∷ xs) ys h k = (h.0, All-append P xs ys h.1 k)

All-Member : (xs : List FeatureMaker) → All (λ c. Member c xs) xs
All-Member [] = tt
All-Member (x ∷ xs) = (inl refl, All-mono xs (λ c h. inr h) (All-Member xs))

-- A registered feature that takes `n` arguments.
abbrev Candidate : Registry → Key → FeatureType → ℕ → FeatureMaker → Type 0
Candidate reg name ret n c = Registered reg name ret c × Fits n c

fixed-All {κ} :
    (P : FeatureMaker → Type κ) (n : ℕ) (fs : List FeatureMaker)
    → All P fs
    → All (λ c. P c × Fits n c) (fixed n fs)
unfolding fixed
fixed-All P n [] h = tt
fixed-All P n (f ∷ fs) h =
    let Q : FeatureMaker → Type κ = λ c. P c × Fits n c in
    let rest = fixed-All P n fs h.1 in
    if_both (All Q) (is_variadic f.arguments) (fixed n fs)
      (if length f.arguments == n then f ∷ fixed n fs else fixed n fs) (λ _. rest)
      (λ _.
        if_both (All Q) (length f.arguments == n) (f ∷ fixed n fs) (fixed n fs)
          (λ e. ((h.0, inr (ground arith)), rest)) (λ _. rest))

variadic-All {κ} :
    (P : FeatureMaker → Type κ) (n : ℕ) (fs : List FeatureMaker)
    → All P fs
    → All (λ c. P c × Fits n c) (variadic fs)
unfolding variadic
variadic-All P n [] h = tt
variadic-All P n (f ∷ fs) h =
    let Q : FeatureMaker → Type κ = λ c. P c × Fits n c in
    let rest = variadic-All P n fs h.1 in
    if_both (All Q) (is_variadic f.arguments) (f ∷ variadic fs) (variadic fs)
      (λ e. ((h.0, inl e), rest)) (λ _. rest)

get_features-All :
    (reg : Registry) (name : Key) (ret : FeatureType) (n : ℕ)
    → All (Candidate reg name ret n) (get_features reg name ret n)
unfolding get_features
get_features-All reg name ret n =
    let R : FeatureMaker → Type 0 = Registered reg name ret in
    let own : All R (reg ret name) =
      All-mono (reg ret name) (λ c h. inl h) (All-Member (reg ret name)) in
    let any : All R (reg FeatureType.match_type name) =
      All-mono (reg FeatureType.match_type name) (λ c h. inr h)
        (All-Member (reg FeatureType.match_type name)) in
    All-append (Candidate reg name ret n) _ _
      (All-append (Candidate reg name ret n) _ _ (fixed-All R n _ own) (fixed-All R n _ any))
      (All-append (Candidate reg name ret n) _ _ (variadic-All R n _ own) (variadic-All R n _ any))

module _ (reg : Registry) where
  -- One candidate, with the types that it wants and what comes of the arguments.
  attempt-Typed :
      (ret : FeatureType) (n : ℕ) (b : Base) (c : FeatureMaker) (f : List FeatureType → Result Args)
      (o : Option (List FeatureType)) (r : Result Args) (rest : Result Ast) (g : Ast)
      → ((ts : List FeatureType) (x : Args) → length ts ≡ n → f ts ≡ ok x → TypedArgs reg ts x)
      → Candidate reg b.name ret n c
      → arg_types ret n c.arguments ≡ o
      → with_types f o ≡ r
      → (rest ≡ ok g → Typed reg ret g)
      → attempt ret b c r rest ≡ ok g
      → Typed reg ret g
  unfolding Typed
  attempt-Typed ret n b c f none r rest g h k p q l e =
      absurd (panic_not_ok (ap (λ z. attempt ret b c z rest) q ∙ e))
  attempt-Typed ret n b c f (some ts) (ok x) rest g h k p q l e = subst (Typed reg ret) (ok-eq e) (
      inr (
        refl,
        c,
        ts,
        refl,
        k.0,
        arg_types-Accepts ret n c ts k.1 p,
        h ts x (length-arg_types ret n c.arguments ts p) q,
      ))
  attempt-Typed ret n b c f (some ts) (error x) rest g h k p q l e = l e
  attempt-Typed ret n b c f (some ts) panic rest g h k p q l e = absurd (cc)

  try_candidates-Typed :
      (ret : FeatureType) (n : ℕ) (b : Base) (f : List FeatureType → Result Args)
      (cs : List FeatureMaker) (g : Ast)
      → ((ts : List FeatureType) (x : Args) → length ts ≡ n → f ts ≡ ok x → TypedArgs reg ts x)
      → All (Candidate reg b.name ret n) cs
      → try_candidates ret n b f cs ≡ ok g
      → Typed reg ret g
  unfolding try_candidates
  try_candidates-Typed ret n b f [] g h k e = absurd (cc)
  try_candidates-Typed ret n b f (c ∷ cs) g h k e =
      attempt-Typed ret n b c f (arg_types ret n c.arguments) _ (try_candidates ret n b f cs) g h
        k.0 refl refl (λ q. try_candidates-Typed ret n b f cs g h k.1 q) e

  build_call-Typed :
      (ret : FeatureType) (n : ℕ) (b : Base) (f : List FeatureType → Result Args)
      (cs : List FeatureMaker) (g : Ast)
      → ((ts : List FeatureType) (x : Args) → length ts ≡ n → f ts ≡ ok x → TypedArgs reg ts x)
      → All (Candidate reg b.name ret n) cs
      → build_call ret n b f cs ≡ ok g
      → Typed reg ret g
  build_call-Typed ret n b f [] g h k e = absurd (cc)
  build_call-Typed ret n b f (c ∷ cs) g h k e = try_candidates-Typed ret n b f (c ∷ cs) g h k e

  build_control-Typed :
      (ret : FeatureType) (b : Base) (args : Args) (cs : List FeatureMaker) (g : Ast)
      → b.control ≡ true
      → All (Candidate reg b.name FeatureType.control_feature 1) cs
      → build_control b args cs ≡ ok g
      → Typed reg ret g
  unfolding Typed
  build_control-Typed ret b args [] g c k e = absurd (cc)
  build_control-Typed ret b args (f ∷ cs) g c k e =
      subst (Typed reg ret) (ok-eq e) (inl (c, refl, f, refl, k.0.0))

  build_raw-Typed : (ret : FeatureType) (g : Ast) → build_raw ret ≡ ok g → Typed reg ret g
  unfolding Typed
  build_raw-Typed FeatureType.raw_packet g e =
      subst (Typed reg FeatureType.raw_packet) (ok-eq e) refl
  build_raw-Typed _ g e = absurd (cc)

  mutual
    unfolding build Typed

    fragment-Typed :
        (a : Ast) (ret : FeatureType) (g : Ast) → build reg a ret ≡ ok g → Typed reg ret g
    fragment-Typed raw ret g e = build_raw-Typed ret g e
    fragment-Typed (register r t) ret g e = absurd (cc)
    fragment-Typed (constant b v) ret g e = subst (Typed reg ret) (ok-eq e) refl
    fragment-Typed (call b args) ret g e =
        let n = count_args args in
        if_both (λ z. z ≡ ok g → Typed reg ret g) b.control
          (build_control b args (get_features reg b.name FeatureType.control_feature 1))
          (build_call ret n b (build_args reg args) (get_features reg b.name ret n))
          (λ c q.
            build_control-Typed ret b args _ g c
              (get_features-All reg b.name FeatureType.control_feature 1) q)
          (λ c q.
            build_call-Typed ret n b (build_args reg args) _ g
              (λ ts x l h. args-Typed args ts x l h) (get_features-All reg b.name ret n) q)
          e

    args-Typed :
        (args : Args) (ts : List FeatureType) (x : Args)
        → length ts ≡ count_args args
        → build_args reg args ts ≡ ok x
        → TypedArgs reg ts x
    args-Typed no_args [] x n e = subst (TypedArgs reg []) (ok-eq e) tt
    args-Typed no_args (t ∷ ts) x n e = absurd (cc)
    args-Typed (arg a args) [] x n e = absurd (cc)
    args-Typed (arg a args) (t ∷ ts) x n e =
        let (c, p, q) = bind-ok (build reg a t) _ x e in
        let (l, u, h) = bind-ok (build_args reg args ts) _ x q in
        subst (TypedArgs reg (t ∷ ts)) (ok-eq h)
          (fragment-Typed a t c p, args-Typed args ts l (omega (arith, n)) u)

  -- What build returns for a type is well typed at that type: each call is of a registered feature with the
  -- result that was asked for, whose signature accepts the types at which its arguments are well typed, the
  -- raw input stands only where a packet is wanted, and control features are registered as such.
  pub build-Typed : (a g : Ast) (ret : FeatureType) → build reg a ret ≡ ok g → Typed reg ret g
  build-Typed a g ret e = fragment-Typed a ret g e
