-- ===== src/CallGraph/Accepted.antt =====
-- flows/ast.go: which specifications makeAST accepts, and what it does with the others.
use go_flows.Shared.{
  ℕ, suc, ◌+◌, ◌≡◌, ap, refl, sym, ◌∙◌, subst, Bool, true, false, ◌&&◌, List, [], ◌∷◌, ◌++◌, some,
  Key, length, ◌⊎◌, inl, inr, arith, length-append,
}
use go_flows.CallGraph.Ast.{FeatureType, Ast, Result, ok, error, panic, bind, Error}
use go_flows.CallGraph.Lower.{make_raw, set_export}
use go_flows.CallGraph.Parse.{
  Spec, Specs, text, list, number, other, no_specs, spec, make_fragment, make_args, make_feature,
  make_features, make_controls, make_ast, make_export_name, method, as_pair, test_error,
  set_control,
}

-- The input that has a raw fragment.
unfoldable pub is_raw_input : FeatureType → Bool
is_raw_input FeatureType.raw_packet = true
is_raw_input _ = false

unfoldable pub is_name : Spec → Bool
is_name (text n) = true
is_name _ = false

-- The specifications of a feature: a name, where the input is packets; a number or Boolean; and a list of a name
-- and arguments, each a specification again.
unfoldable mutual
  pub is_feature : FeatureType → Spec → Bool
  is_feature input (text n) = is_raw_input input
  is_feature input (list no_specs) = false
  is_feature input (list (spec head rest)) = is_name head && are_arguments input rest
  is_feature input (number v) = true
  is_feature input other = false

  pub are_arguments : FeatureType → Specs → Bool
  are_arguments input no_specs = true
  are_arguments input (spec s rest) = is_feature input s && are_arguments input rest

unfoldable pub are_features : FeatureType → List Spec → Bool
are_features input [] = true
are_features input (s ∷ rest) = is_feature input s && are_features input rest

-- Control features are names.
unfoldable pub are_controls : FeatureType → List Key → Bool
are_controls input [] = true
are_controls input (n ∷ rest) = is_raw_input input && are_controls input rest

-- A result, where `b`; else an error or a panic.
unfoldable Decided {ℓ} : {A : Type ℓ} → Bool → Result A → Type ℓ
Decided {A = A} true r = (a : A) × (r ≡ ok a)
Decided false r = ((e : Error) × (r ≡ error e)) ⊎ (r ≡ panic)

-- `n` fragments, where `b`; else a panic, and no error.
unfoldable pub Answers : Bool → ℕ → Result (List Ast) → Type 0
Answers true n r = (fs : List Ast) × (r ≡ ok fs) × (length fs ≡ n)
Answers false n r = r ≡ panic

map-Decided {ℓ κ} :
    {A : Type ℓ} {B : Type κ} (b : Bool) (m : Result A) (g : A → B)
    → Decided b m
    → Decided b (bind m (λ a. ok (g a)))
unfolding Decided
map-Decided true m g (a, e) = (g a, ap (λ r. bind r (λ a. ok (g a))) e)
map-Decided false m g (inl (x, e)) = inl (x, ap (λ r. bind r (λ a. ok (g a))) e)
map-Decided false m g (inr e) = inr (ap (λ r. bind r (λ a. ok (g a))) e)

bind-Decided {ℓ κ} :
    {A : Type ℓ} {B : Type κ} (b c : Bool) (m : Result A) (f : A → Result B)
    → Decided b m
    → ((a : A) → Decided c (f a))
    → Decided (b && c) (bind m f)
unfolding Decided
bind-Decided true c m f (a, e) h = subst (λ r. Decided c (bind r f)) (sym e) (h a)
bind-Decided false c m f (inl (x, e)) h = inl (x, ap (λ r. bind r f) e)
bind-Decided false c m f (inr e) h = inr (ap (λ r. bind r f) e)

raw-Decided : (input : FeatureType) → Decided (is_raw_input input) (make_raw input)
unfolding Decided is_raw_input
raw-Decided FeatureType.raw_packet = (_, refl)
raw-Decided FeatureType.unknown = inl (_, refl)
raw-Decided FeatureType.const = inl (_, refl)
raw-Decided FeatureType.raw_flow = inl (_, refl)
raw-Decided FeatureType.packet_feature = inl (_, refl)
raw-Decided FeatureType.flow_feature = inl (_, refl)
raw-Decided FeatureType.match_type = inl (_, refl)
raw-Decided FeatureType.selection = inl (_, refl)
raw-Decided FeatureType.ellipsis = inl (_, refl)
raw-Decided FeatureType.control_feature = inl (_, refl)

feature-Decided :
    (input : FeatureType) (id : ℕ) (n : Key)
    → Decided (is_raw_input input) (make_feature input id n)
feature-Decided input id n = map-Decided (is_raw_input input) (make_raw input) _ (raw-Decided input)

mutual
  unfolding make_fragment is_feature is_name Decided

  fragment-Decided :
      (input : FeatureType) (id : ℕ) (s : Spec)
      → Decided (is_feature input s) (make_fragment input id s)
  fragment-Decided input id (text n) = feature-Decided input id n
  fragment-Decided input id (list no_specs) = inr refl
  fragment-Decided input id (list (spec (text n) rest)) =
      map-Decided (are_arguments input rest) (make_args input id rest) _
        (args-Decided input id rest)
  fragment-Decided input id (list (spec (list l) rest)) = inl (_, refl)
  fragment-Decided input id (list (spec (number v) rest)) = inl (_, refl)
  fragment-Decided input id (list (spec other rest)) = inl (_, refl)
  fragment-Decided input id (number v) = (_, refl)
  fragment-Decided input id other = inl (_, refl)

  args-Decided :
      (input : FeatureType) (id : ℕ) (l : Specs)
      → Decided (are_arguments input l) (make_args input id l)
  args-Decided input id no_specs = (_, refl)
  args-Decided input id (spec s rest) =
      bind-Decided (is_feature input s) (are_arguments input rest) (make_fragment input id s) _
        (fragment-Decided input id s)
        (λ a.
          map-Decided (are_arguments input rest) (make_args input id rest) _
            (args-Decided input id rest))

-- One more fragment.
cons-Answers :
    (c : Bool) (n : ℕ) (x : Ast) (r : Result (List Ast))
    → Answers c n r
    → Answers c (suc n) (bind r (λ l. ok (x ∷ l)))
unfolding Answers
cons-Answers true n x r (fs, e, k) =
    (x ∷ fs, ap (λ z. bind z (λ l. ok (x ∷ l))) e, omega (arith, k))
cons-Answers false n x r e = ap (λ z. bind z (λ l. ok (x ∷ l))) e

-- The fragment of an error is nil, so that what is done with a refused feature panics.
feature-Answers :
    (b c : Bool) (n : ℕ) (m : Result Ast) (k : Ast → Result (List Ast))
    → Decided b m
    → ((a : Ast) → Answers c n (k a))
    → Answers (b && c) n (bind (as_pair m) (λ r. test_error r.0 r.1 k))
unfolding Answers Decided
feature-Answers true c n m k (a, e) h =
    subst (λ z. Answers c n (bind (as_pair z) (λ r. test_error r.0 r.1 k))) (sym e) (h a)
feature-Answers false c n m k (inl (x, e)) h =
    ap (λ z. bind (as_pair z) (λ r. test_error r.0 r.1 k)) e
feature-Answers false c n m k (inr e) h = ap (λ z. bind (as_pair z) (λ r. test_error r.0 r.1 k)) e

abbrev controlled : (Ast → Result (List Ast)) → Result Ast → Result (List Ast)
controlled k m =
    bind (as_pair m) (λ r. bind (method set_control r.0) (λ c. test_error (some c) r.1 k))

control-Answers :
    (b c : Bool) (n : ℕ) (m : Result Ast) (k : Ast → Result (List Ast))
    → Decided b m
    → ((a : Ast) → Answers c n (k a))
    → Answers (b && c) n (controlled k m)
unfolding Answers Decided
control-Answers true c n m k (a, e) h =
    subst (λ z. Answers c n (controlled k z)) (sym e) (h (set_control a))
control-Answers false c n m k (inl (x, e)) h = ap (controlled k) e
control-Answers false c n m k (inr e) h = ap (controlled k) e

features-Answers :
    (input : FeatureType) (id : ℕ) (features : List Spec)
    → Answers (are_features input features) (length features) (make_features input id features)
unfolding make_features are_features Answers
features-Answers input id [] = ([], refl, refl)
features-Answers input id (s ∷ rest) =
    feature-Answers (is_feature input s) (are_features input rest) (suc (length rest))
      (make_fragment input id s) _ (fragment-Decided input id s)
      (λ a.
        cons-Answers (are_features input rest) (length rest) (set_export (make_export_name a) a) _
          (features-Answers input (suc id) rest))

controls-Answers :
    (input : FeatureType) (id : ℕ) (control : List Key)
    → Answers (are_controls input control) (length control) (make_controls input id control)
unfolding make_controls are_controls Answers
controls-Answers input id [] = ([], refl, refl)
controls-Answers input id (n ∷ rest) =
    control-Answers (is_raw_input input) (are_controls input rest) (suc (length rest))
      (make_feature input id n) _ (feature-Decided input id n)
      (λ a.
        cons-Answers (are_controls input rest) (length rest) a _
          (controls-Answers input (suc id) rest))

-- The fragments of the control features come after the others.
append-Answers :
    (c : Bool) (n : ℕ) (fs : List Ast) (r : Result (List Ast))
    → Answers c n r
    → Answers c (length fs + n) (bind r (λ cs. ok (fs ++ cs)))
unfolding Answers
append-Answers true n fs r (cs, e, k) = (
  fs ++ cs,
  ap (λ z. bind z (λ cs. ok (fs ++ cs))) e,
  length-append fs cs ∙ ap (λ m. length fs + m) k,
)
append-Answers false n fs r e = ap (λ z. bind z (λ cs. ok (fs ++ cs))) e

bind-Answers :
    (b c : Bool) (n m : ℕ) (r : Result (List Ast)) (s : Result (List Ast))
    → Answers b n r
    → Answers c m s
    → Answers (b && c) (n + m) (bind r (λ fs. bind s (λ cs. ok (fs ++ cs))))
unfolding Answers
bind-Answers true c n m r s (fs, e, k) h =
    subst (λ z. Answers c (n + m) (bind z (λ fs. bind s (λ cs. ok (fs ++ cs))))) (sym e)
      (subst (λ j. Answers c (j + m) (bind s (λ cs. ok (fs ++ cs)))) k (append-Answers c m fs s h))
bind-Answers false c n m r s e h = ap (λ z. bind z (λ fs. bind s (λ cs. ok (fs ++ cs)))) e

-- makeAST returns one fragment for each feature and each control feature where every feature is a name,
-- a number or Boolean, or a list of a name and arguments that are such again, and names that stand alone, control
-- features too, are there only for input of raw packets. For everything else it panics: it returns no error.
pub make_ast_lem :
    (input : FeatureType) (features : List Spec) (control : List Key)
    → Answers
        (are_features input features && are_controls input control)
        (length features + length control)
        (make_ast input features control)
unfolding make_ast
make_ast_lem input features control =
    bind-Answers (are_features input features) (are_controls input control) (length features)
      (length control) (make_features input 1 features) (make_controls input 1 control)
      (features-Answers input 1 features) (controls-Answers input 1 control)
