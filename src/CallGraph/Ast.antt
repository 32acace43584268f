-- ===== src/CallGraph/Ast.antt =====
-- flows/ast.go: the fragments of a call tree, their attributes, and how they print. flows/featuretype.go:
-- the feature types. A Go string is the list of its bytes. A value of a constant stands as it prints.
use go_flows.Shared.{
  ℕ, zero, suc, ◌+◌, ◌%◌, ◌/◌, Bool, true, false, List, [], ◌∷◌, ◌++◌, Option, if◌then◌else◌, ltb,
  Key,
}

pub data FeatureType : Type 0 where
  unknown : FeatureType
  const : FeatureType
  raw_packet : FeatureType
  raw_flow : FeatureType
  packet_feature : FeatureType
  flow_feature : FeatureType
  match_type : FeatureType
  selection : FeatureType
  ellipsis : FeatureType
  control_feature : FeatureType

-- The entry of a feature in the registry; `make` and `variants` number its function and its variants.
pub record FeatureMaker : Type 0 where
  pub ret : FeatureType
  pub make : ℕ
  pub arguments : List FeatureType
  pub variants : ℕ

-- The Go struct astBase, without the types that `resolve` attaches.
pub record Base : Type 0 where
  pub id : ℕ
  pub name : Key
  pub export_name : Key
  pub composite : Key
  pub export : Bool
  pub feature : Option FeatureMaker
  pub ret : FeatureType
  pub control : Bool
  pub register : ℕ

mutual
  pub data Ast : Type 0 where
    raw : Ast
    register : ℕ → FeatureType → Ast
    constant : Base → Key → Ast
    call : Base → Args → Ast

  pub data Args : Type 0 where
    no_args : Args
    arg : Ast → Args → Args

-- The Go errors; those of all candidates of a call are one. `out_of_fuel` is the model's own.
pub data Error : Type 0 where
  wrong_input : Error
  no_candidate : Key → FeatureType → ℕ → Error
  no_control : Key → Error
  all_failed : Error
  bad_constant : Error
  bad_call : Error
  no_input : FeatureType → Error
  exported_twice : ℕ → Error
  feature_error : ℕ → Error → Error
  out_of_fuel : Error

pub data Result {ℓ} (A : Type ℓ) : Type ℓ where
  ok : A → Result A
  error : Error → Result A
  panic : Result A

abbrev pub bind {ℓ κ} : {A : Type ℓ} {B : Type κ} → Result A → (A → Result B) → Result B
bind (ok a) f = f a
bind (error e) f = error e
bind panic f = panic

-- FeatureType.String.
abbrev pub label : FeatureType → Key
label FeatureType.unknown = 85 ∷ 110 ∷ 107 ∷ 110 ∷ 111 ∷ 119 ∷ 110 ∷ []
label FeatureType.const = 67 ∷ 111 ∷ 110 ∷ 115 ∷ 116 ∷ []
label FeatureType.raw_packet = 82 ∷ 97 ∷ 119 ∷ 80 ∷ 97 ∷ 99 ∷ 107 ∷ 101 ∷ 116 ∷ []
label FeatureType.raw_flow = 82 ∷ 97 ∷ 119 ∷ 70 ∷ 108 ∷ 111 ∷ 119 ∷ []
label FeatureType.packet_feature =
    80 ∷ 97 ∷ 99 ∷ 107 ∷ 101 ∷ 116 ∷ 70 ∷ 101 ∷ 97 ∷ 116 ∷ 117 ∷ 114 ∷ 101 ∷ []
label FeatureType.flow_feature = 70 ∷ 108 ∷ 111 ∷ 119 ∷ 70 ∷ 101 ∷ 97 ∷ 116 ∷ 117 ∷ 114 ∷ 101 ∷ []
label FeatureType.match_type = 77 ∷ 97 ∷ 116 ∷ 99 ∷ 104 ∷ 84 ∷ 121 ∷ 112 ∷ 101 ∷ []
label FeatureType.selection = 83 ∷ 101 ∷ 108 ∷ 101 ∷ 99 ∷ 116 ∷ 105 ∷ 111 ∷ 110 ∷ []
label FeatureType.ellipsis = 46 ∷ 46 ∷ 46 ∷ []
label FeatureType.control_feature =
    67 ∷ 111 ∷ 110 ∷ 116 ∷ 114 ∷ 111 ∷ 108 ∷ 70 ∷ 101 ∷ 97 ∷ 116 ∷ 117 ∷ 114 ∷ 101 ∷ []

-- "RawPacket".
abbrev pub raw_name : Key
raw_name = label FeatureType.raw_packet

-- "astRegister".
abbrev pub register_name : Key
register_name = 97 ∷ 115 ∷ 116 ∷ 82 ∷ 101 ∷ 103 ∷ 105 ∷ 115 ∷ 116 ∷ 101 ∷ 114 ∷ []

-- "<Const>".
abbrev pub const_prefix : Key
const_prefix = 60 ∷ 67 ∷ 111 ∷ 110 ∷ 115 ∷ 116 ∷ 62 ∷ []

-- A number in decimal, by fuel.
abbrev pub decimal : ℕ → ℕ → Key
decimal zero n = []
decimal (suc k) n =
    let rest = decimal k (n / 10) in if ltb n 10 then (48 + n) ∷ [] else rest ++ (48 + n % 10) ∷ []

-- The type of a call in its string, which a call without one does not have.
abbrev pub type_prefix : FeatureType → Key
type_prefix FeatureType.unknown = []
type_prefix t = 60 ∷ label t ++ 62 ∷ []

-- String of each fragment; strings.Join with ", ".
unfoldable mutual
  pub string_of : Ast → Key
  string_of raw = raw_name
  string_of (Ast.register r t) = 36 ∷ decimal (suc r) r
  string_of (constant b v) = const_prefix ++ v
  string_of (call b args) = type_prefix b.ret ++ b.name ++ 40 ∷ strings_of args ++ 41 ∷ []

  pub strings_of : Args → Key
  strings_of no_args = []
  strings_of (arg a no_args) = string_of a
  strings_of (arg a (arg b args)) = string_of a ++ 44 ∷ 32 ∷ strings_of (arg b args)

abbrev pub is_raw : Ast → Bool
is_raw raw = true
is_raw _ = false

-- Export; a fragment without astBase has none.
abbrev pub exported : Ast → Bool
exported (constant b v) = b.export
exported (call b args) = b.export
exported _ = false

abbrev pub export_name : Ast → Key
export_name raw = raw_name
export_name (Ast.register r t) = register_name
export_name (constant b v) = b.export_name
export_name (call b args) = b.export_name

abbrev pub id_of : Ast → ℕ
id_of (constant b v) = b.id
id_of (call b args) = b.id
id_of _ = 0

-- Register, which panics on raw input; it is called where a fragment is not raw.
abbrev pub register_of : Ast → ℕ
register_of raw = 0
register_of (Ast.register r t) = r
register_of (constant b v) = b.register
register_of (call b args) = b.register

abbrev pub returns : Ast → FeatureType
returns raw = FeatureType.raw_packet
returns (Ast.register r t) = t
returns (constant b v) = b.ret
returns (call b args) = b.ret

-- SetRegister, which panics on raw input and on a register; it is called for neither.
abbrev pub set_register : ℕ → Ast → Ast
set_register r (constant b v) = constant (record b { register = r }) v
set_register r (call b args) = call (record b { register = r }) args
set_register r a = a
