-- ===== src/Number/Value.antt =====
-- flows/number.go: the values that features exchange, and ToFloat, ToInt and ToUInt. A Go integer is
-- its bit pattern, sign-extended to 64 bits, so that conversions between 64-bit integers keep the
-- pattern. The time types of go-ipfix are unsigned integers of some widths, which are parameters,
-- as are the floats. `none` is a Go panic.
use go_flows.Shared.{ℕ, Bool, true, false, Option, none, some}

pub record Formats : Type 1 where
  pub Float64 : Type 0
  pub Float32 : Type 0
  pub widen : Float32 → Float64
  pub of_int : ℕ → Float64
  pub of_uint : ℕ → Float64
  pub to_int : Float64 → ℕ
  pub to_uint : Float64 → ℕ
  -- 2 to the width of each time type.
  pub seconds_mod : ℕ
  pub milliseconds_mod : ℕ
  pub microseconds_mod : ℕ
  pub nanoseconds_mod : ℕ

-- The dynamic types that the type switches name; `other` is any other value.
pub data Value (fs : Formats) : Type 0 where
  float64 : fs.Float64 → Value fs
  float32 : fs.Float32 → Value fs
  int64 int32 int16 int8 int : ℕ → Value fs
  uint64 uint32 uint16 uint8 uint : ℕ → Value fs
  seconds milliseconds microseconds nanoseconds : ℕ → Value fs
  nil : Value fs
  bool : Bool → Value fs
  other : Value fs

-- A panic of the first step ends the second.
infixl 5 ◌>>=◌
abbrev pub ◌>>=◌ : {A B : Type 0} → Option A → (A → Option B) → Option B
none >>= f = none
some a >>= f = f a

abbrev pub of_bool : Bool → ℕ
of_bool true = 1
of_bool false = 0

module _ {fs : Formats} where
  -- The float conversions of go-ipfix's times read them as unsigned integers.
  unfoldable pub to_float : Value fs → Option fs.Float64
  to_float (float64 i) = some i
  to_float (float32 i) = some (fs.widen i)
  to_float (int64 i) = some (fs.of_int i)
  to_float (int32 i) = some (fs.of_int i)
  to_float (int16 i) = some (fs.of_int i)
  to_float (int8 i) = some (fs.of_int i)
  to_float (int i) = some (fs.of_int i)
  to_float (uint64 i) = some (fs.of_uint i)
  to_float (uint32 i) = some (fs.of_uint i)
  to_float (uint16 i) = some (fs.of_uint i)
  to_float (uint8 i) = some (fs.of_uint i)
  to_float (uint i) = some (fs.of_uint i)
  to_float (seconds i) = some (fs.of_uint i)
  to_float (milliseconds i) = some (fs.of_uint i)
  to_float (microseconds i) = some (fs.of_uint i)
  to_float (nanoseconds i) = some (fs.of_uint i)
  to_float nil = some (fs.of_uint 0)
  to_float (bool b) = some (fs.of_uint (of_bool b))
  to_float other = none

  unfoldable pub to_int : Value fs → Option ℕ
  to_int (float64 i) = some (fs.to_int i)
  to_int (float32 i) = some (fs.to_int (fs.widen i))
  to_int (int64 i) = some i
  to_int (int32 i) = some i
  to_int (int16 i) = some i
  to_int (int8 i) = some i
  to_int (int i) = some i
  to_int (uint64 i) = some i
  to_int (uint32 i) = some i
  to_int (uint16 i) = some i
  to_int (uint8 i) = some i
  to_int (uint i) = some i
  to_int (seconds i) = some i
  to_int (milliseconds i) = some i
  to_int (microseconds i) = some i
  to_int (nanoseconds i) = some i
  to_int nil = some 0
  to_int (bool b) = some (of_bool b)
  to_int other = none

  unfoldable pub to_uint : Value fs → Option ℕ
  to_uint (float64 i) = some (fs.to_uint i)
  to_uint (float32 i) = some (fs.to_uint (fs.widen i))
  to_uint (int64 i) = some i
  to_uint (int32 i) = some i
  to_uint (int16 i) = some i
  to_uint (int8 i) = some i
  to_uint (int i) = some i
  to_uint (uint64 i) = some i
  to_uint (uint32 i) = some i
  to_uint (uint16 i) = some i
  to_uint (uint8 i) = some i
  to_uint (uint i) = some i
  to_uint (seconds i) = some i
  to_uint (milliseconds i) = some i
  to_uint (microseconds i) = some i
  to_uint (nanoseconds i) = some i
  to_uint nil = some 0
  to_uint (bool b) = some (of_bool b)
  to_uint other = none
