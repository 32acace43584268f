-- ===== src/CallGraph/ArgTypes.antt =====
-- flows/ast.go: build gives as many argument types as the call has arguments.
use go_flows.Shared.{
  ℕ, zero, suc, ◌≡◌, ap, sym, ◌∙◌, refl, List, [], ◌∷◌, some, if_both, length, replicate, get_elem?,
  length-replicate,
}
use go_flows.CallGraph.Ast.{FeatureType}
use go_flows.CallGraph.Machine.{and_then-some, some-eq}
use go_flows.CallGraph.Build.{is_ellipsis, written, fill_from, spread, check_ellipsis, arg_types}

length-written :
    (ret : FeatureType) (xs us ts : List FeatureType)
    → written ret xs us ≡ some ts
    → length ts ≡ length us
unfolding written
length-written ret [] us ts e = ap length (sym (some-eq e))
length-written ret (x ∷ xs) [] ts e = absurd (cc)
length-written ret (x ∷ xs) (u ∷ us) ts e =
    let (vs, p, q) = and_then-some (written ret xs us) _ ts e in
    ap length (sym (some-eq q)) ∙ ap suc (length-written ret xs us vs p)

length-fill_from :
    (k : ℕ) (a : FeatureType) (ts : List FeatureType) → length (fill_from k a ts) ≡ length ts
unfolding fill_from
length-fill_from k a [] = refl
length-fill_from zero a (t ∷ ts) = ap suc (length-fill_from zero a ts)
length-fill_from (suc k) a (t ∷ ts) = ap suc (length-fill_from k a ts)

length-spread : (k : ℕ) (ts us : List FeatureType) → spread k ts ≡ some us → length us ≡ length ts
length-spread zero ts us e = absurd (cc)
length-spread (suc j) ts us e =
    let (a, p, q) = and_then-some (get_elem? ts j) _ us e in
    ap length (sym (some-eq q)) ∙ length-fill_from (suc j) a ts

length-check_ellipsis :
    (k : ℕ) (ts us : List FeatureType) → check_ellipsis k ts ≡ some us → length us ≡ length ts
length-check_ellipsis zero ts us e = absurd (cc)
length-check_ellipsis (suc k) ts us e =
    let (t, p, q) = and_then-some (get_elem? ts k) _ us e in
    if_both (λ z. z ≡ some us → length us ≡ length ts) (is_ellipsis t) (spread k ts) (some ts)
      (λ _ h. length-spread k ts us h) (λ _ h. ap length (sym (some-eq h))) q

pub length-arg_types :
    (ret : FeatureType) (n : ℕ) (arguments us : List FeatureType)
    → arg_types ret n arguments ≡ some us
    → length us ≡ n
unfolding arg_types
length-arg_types ret n arguments us e =
    let (ts, p, q) =
      and_then-some (written ret arguments (replicate n FeatureType.unknown)) _ us e in
    length-check_ellipsis (length arguments) ts us q
    ∙ length-written ret arguments _ ts p
    ∙ length-replicate n FeatureType.unknown
