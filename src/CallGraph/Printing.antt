-- ===== src/CallGraph/Printing.antt =====
-- flows/ast.go: String tells any two fragments apart that compute different values.
use go_flows.Shared.{
  ℕ, ◌≡◌, ap, Bool, true, not, ◌&&◌, ◌||◌, [], ◌∷◌, ◌++◌, Option, none, some, refl, if◌then◌else◌,
  ◌==◌, Key, key_eq, arith,
}
use go_flows.CallGraph.Ast.{
  FeatureType, label, Ast, raw, register, constant, call, Args, no_args, arg, raw_name,
  const_prefix, type_prefix,
}

-- The characters that no name and no value has.
abbrev pub special : ℕ → Bool
special c = c == 32 || c == 40 || c == 41 || c == 44 || c == 60 || c == 62

unfoldable pub plain : Key → Bool
plain [] = true
plain (c ∷ v) = not (special c) && plain v

unfoldable mutual
  pub Plain : Ast → Type 0
  Plain raw = Unit
  Plain (register r t) = ⊥
  Plain (constant b v) = plain v ≡ true
  Plain (call b args) = (plain b.name ≡ true) × PlainArgs args

  pub PlainArgs : Args → Type 0
  PlainArgs no_args = Unit
  PlainArgs (arg a args) = Plain a × PlainArgs args

-- A string up to its first special character, and the rest.
unfoldable pub scan : Key → Key × Key
scan [] = ([], [])
scan (c ∷ v) = let (w, r) = scan v in if special c then ([], c ∷ v) else (c ∷ w, r)

-- An end of a fragment: nothing, or a bracket or comma of the call around it.
abbrev pub stops : Key → Bool
stops [] = true
stops (c ∷ s) = c == 41 || c == 44

abbrev pub ends : Key → Bool
ends [] = true
ends (c ∷ s) = special c

scan-append : (v s : Key) → plain v ≡ true → ends s ≡ true → scan (v ++ s) ≡ (v, s)
unfolding scan plain
scan-append [] [] p e = refl
scan-append [] (c ∷ s) p e = ground arith
scan-append (c ∷ v) s p e = ground (arith, scan-append v s)

abbrev pub drop_one : Key → Key
drop_one [] = []
drop_one (c ∷ v) = v

-- The parts of a printed fragment: its type, its name or value, and the rest.
abbrev pub typed_head : Key → Option Key × (Key × Key)
typed_head v = let (l, r) = scan v in (some l, scan (drop_one r))

abbrev pub head_of : Key → Option Key × (Key × Key)
head_of [] = (none, ([], []))
head_of (c ∷ v) = if c == 60 then typed_head v else (none, scan (c ∷ v))

abbrev pub label_of : FeatureType → Option Key
label_of FeatureType.unknown = none
label_of t = some (label t)

-- The type is found again.
abbrev pub type_of : Option Key → FeatureType
type_of none = FeatureType.unknown
type_of (some v) =
    if key_eq v (label FeatureType.const)
    then FeatureType.const
    else if key_eq v (label FeatureType.raw_packet)
    then FeatureType.raw_packet
    else if key_eq v (label FeatureType.raw_flow)
    then FeatureType.raw_flow
    else if key_eq v (label FeatureType.packet_feature)
    then FeatureType.packet_feature
    else if key_eq v (label FeatureType.flow_feature)
    then FeatureType.flow_feature
    else if key_eq v (label FeatureType.match_type)
    then FeatureType.match_type
    else if key_eq v (label FeatureType.selection)
    then FeatureType.selection
    else if key_eq v (label FeatureType.ellipsis)
    then FeatureType.ellipsis
    else FeatureType.control_feature

pub type_of-label_of : (t : FeatureType) → type_of (label_of t) ≡ t
unfolding key_eq
type_of-label_of FeatureType.unknown = refl
type_of-label_of FeatureType.const = refl
type_of-label_of FeatureType.raw_packet = refl
type_of-label_of FeatureType.raw_flow = refl
type_of-label_of FeatureType.packet_feature = refl
type_of-label_of FeatureType.flow_feature = refl
type_of-label_of FeatureType.match_type = refl
type_of-label_of FeatureType.selection = refl
type_of-label_of FeatureType.ellipsis = refl
type_of-label_of FeatureType.control_feature = refl

pub head_of-raw_name : (s : Key) → ends s ≡ true → head_of (raw_name ++ s) ≡ (none, (raw_name, s))
unfolding plain
head_of-raw_name s e = ap (λ x. (none, x)) (scan-append raw_name s refl e)

pub head_of-const_prefix :
    (v s : Key)
    → plain v ≡ true
    → ends s ≡ true
    → head_of (const_prefix ++ (v ++ s)) ≡ (some (label FeatureType.const), (v, s))
unfolding scan
head_of-const_prefix v s p e = ap (λ x. (some (label FeatureType.const), x)) (scan-append v s p e)

head_of-plain : (v s : Key) → plain v ≡ true → head_of (v ++ 40 ∷ s) ≡ (none, (v, 40 ∷ s))
unfolding scan plain
head_of-plain [] s p = refl
head_of-plain (c ∷ v) s p = ground (arith, scan-append v (40 ∷ s))

-- A printed type in front of a name.
head_of-typed :
    (l v s : Key)
    → plain l ≡ true
    → plain v ≡ true
    → head_of (60 ∷ (l ++ 62 ∷ (v ++ 40 ∷ s))) ≡ (some l, (v, 40 ∷ s))
head_of-typed l v s p q =
    rw (scan-append l (62 ∷ (v ++ 40 ∷ s)) p refl)
      (ap (λ x. (some l, x)) (scan-append v (40 ∷ s) q refl))

pub head_of-type_prefix :
    (t : FeatureType) (v s : Key)
    → plain v ≡ true
    → head_of (type_prefix t ++ (v ++ 40 ∷ s)) ≡ (label_of t, (v, 40 ∷ s))
unfolding plain
head_of-type_prefix FeatureType.unknown v s p = head_of-plain v s p
head_of-type_prefix FeatureType.const v s p = head_of-typed (label FeatureType.const) v s refl p
head_of-type_prefix FeatureType.raw_packet v s p =
    head_of-typed (label FeatureType.raw_packet) v s refl p
head_of-type_prefix FeatureType.raw_flow v s p =
    head_of-typed (label FeatureType.raw_flow) v s refl p
head_of-type_prefix FeatureType.packet_feature v s p =
    head_of-typed (label FeatureType.packet_feature) v s refl p
head_of-type_prefix FeatureType.flow_feature v s p =
    head_of-typed (label FeatureType.flow_feature) v s refl p
head_of-type_prefix FeatureType.match_type v s p =
    head_of-typed (label FeatureType.match_type) v s refl p
head_of-type_prefix FeatureType.selection v s p =
    head_of-typed (label FeatureType.selection) v s refl p
head_of-type_prefix FeatureType.ellipsis v s p =
    head_of-typed (label FeatureType.ellipsis) v s refl p
head_of-type_prefix FeatureType.control_feature v s p =
    head_of-typed (label FeatureType.control_feature) v s refl p
