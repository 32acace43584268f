-- ===== src/CallGraph/Machine.antt =====
-- What a list of simplified fragments computes from a packet: one value per register, in order. A call
-- reads the registers of its arguments, as the features of a record do.
use go_flows.Shared.{◌≡◌, ap, ◌∙◌, refl, List, [], ◌∷◌, ◌++◌, Option, none, some, Key, get_elem?}
use go_flows.CallGraph.Ast.{FeatureType, Ast, raw, register, constant, call, Args, no_args, arg}

abbrev pub and_then {ℓ κ} : {A : Type ℓ} {B : Type κ} → Option A → (A → Option B) → Option B
and_then none f = none
and_then (some a) f = f a

pub some-eq {ℓ} : {A : Type ℓ} {a b : A} → some a ≡ some b → a ≡ b
some-eq e = cc

pub and_then-some {ℓ κ} :
    {A : Type ℓ} {B : Type κ} (o : Option A) (f : A → Option B) (b : B)
    → and_then o f ≡ some b
    → (a : A) × (o ≡ some a) × (f a ≡ some b)
and_then-some none f b e = absurd (cc)
and_then-some (some a) f b e = (a, refl, e)

module _ {ℓ} {V : Type ℓ} (packet : V) (literal : Key → V)
    (apply : FeatureType → Key → List V → V) where
  -- An argument of a simplified call.
  abbrev pub operand : List V → Ast → Option V
  operand registers raw = some packet
  operand registers (register r t) = get_elem? registers r
  operand registers a = none

  unfoldable pub operands : List V → Args → Option (List V)
  operands registers no_args = some []
  operands registers (arg a args) =
      and_then (operand registers a) (λ v. and_then (operands registers args) (λ vs. some (v ∷ vs)))

  abbrev pub step : List V → Ast → Option V
  step registers (constant b v) = some (literal v)
  step registers (call b args) =
      and_then (operands registers args) (λ vs. some (apply b.ret b.name vs))
  step registers a = none

  unfoldable pub run : List V → List Ast → Option (List V)
  run registers [] = some registers
  run registers (a ∷ rest) = and_then (step registers a) (λ v. run (registers ++ v ∷ []) rest)

  pub run-append :
      (xs : List Ast) (c : Ast) (r e : List V) (v : V)
      → run r xs ≡ some e
      → step e c ≡ some v
      → run r (xs ++ c ∷ []) ≡ some (e ++ v ∷ [])
  unfolding run
  run-append [] c r e v h k =
      let h' : r ≡ e = some-eq h in
      ap (λ o. and_then o (λ w. some (r ++ w ∷ []))) (ap (λ z. step z c) h' ∙ k)
      ∙ ap (λ z. some (z ++ v ∷ [])) h'
  run-append (x ∷ xs) c r e v h k =
      let (w, p, q) = and_then-some (step r x) (λ w. run (r ++ w ∷ []) xs) e h in
      ap (λ o. and_then o (λ w. run (r ++ w ∷ []) (xs ++ c ∷ []))) p
      ∙ run-append xs c (r ++ w ∷ []) e v q k
