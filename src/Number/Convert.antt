-- ===== src/Number/Convert.antt =====
-- flows/number.go: cleanUp, unfixType, scaleTimetoNano, UpConvert and FixType.
use go_flows.Shared.{◌*◌, ◌%◌, Option, none, some}
use go_flows.Number.Value.{
  Formats, Value, float64, float32, int64, int32, int16, int8, int, uint64, uint32, uint16, uint8,
  uint, seconds, milliseconds, microseconds, nanoseconds, nil, bool, other, of_bool, ◌>>=◌,
}

pub data NumberType : Type 0 where
  int_type uint_type float_type : NumberType
  seconds_type milliseconds_type microseconds_type nanoseconds_type : NumberType

-- The result of UpConvert: `dst`, `family` and the two operands.
pub record Operands (fs : Formats) : Type 0 where
  pub dst : NumberType
  pub family : NumberType
  pub ai : Value fs
  pub bi : Value fs

module _ {fs : Formats} where
  -- The type of a value, its family, and the value in its 64-bit form.
  unfoldable pub clean_up : Value fs → Option (NumberType × NumberType × Value fs)
  clean_up (float64 i) = some (float_type, float_type, float64 i)
  clean_up (float32 i) = some (float_type, float_type, float64 (fs.widen i))
  clean_up (int64 i) = some (int_type, int_type, int64 i)
  clean_up (int32 i) = some (int_type, int_type, int64 i)
  clean_up (int16 i) = some (int_type, int_type, int64 i)
  clean_up (int8 i) = some (int_type, int_type, int64 i)
  clean_up (int i) = some (int_type, int_type, int64 i)
  clean_up (uint64 i) = some (uint_type, uint_type, uint64 i)
  clean_up (uint32 i) = some (uint_type, uint_type, uint64 i)
  clean_up (uint16 i) = some (uint_type, uint_type, uint64 i)
  clean_up (uint8 i) = some (uint_type, uint_type, uint64 i)
  clean_up (uint i) = some (uint_type, uint_type, uint64 i)
  clean_up (seconds i) = some (seconds_type, uint_type, seconds i)
  clean_up (milliseconds i) = some (milliseconds_type, uint_type, milliseconds i)
  clean_up (microseconds i) = some (microseconds_type, uint_type, microseconds i)
  clean_up (nanoseconds i) = some (nanoseconds_type, uint_type, nanoseconds i)
  clean_up (bool b) = some (uint_type, uint_type, uint64 (of_bool b))
  clean_up nil = none
  clean_up other = none

  -- Each of these asserts the dynamic type of its argument.
  unfoldable pub uint_to_float : Value fs → Option (Value fs)
  uint_to_float (uint64 i) = some (float64 (fs.of_uint i))
  uint_to_float _ = none

  unfoldable pub int_to_float : Value fs → Option (Value fs)
  int_to_float (int64 i) = some (float64 (fs.of_int i))
  int_to_float _ = none

  unfoldable pub uint_to_int : Value fs → Option (Value fs)
  uint_to_int (uint64 i) = some (int64 i)
  uint_to_int _ = none

  unfoldable pub unfix_type : Value fs → NumberType → Option (Value fs)
  unfix_type (seconds i) seconds_type = some (uint64 i)
  unfix_type (milliseconds i) milliseconds_type = some (uint64 i)
  unfix_type (microseconds i) microseconds_type = some (uint64 i)
  unfix_type (nanoseconds i) nanoseconds_type = some (uint64 i)
  unfix_type (int64 i) int_type = some (uint64 i)
  unfix_type (float64 i) float_type = some (uint64 (fs.to_uint i))
  unfix_type val uint_type = some val
  unfix_type _ _ = none

  -- The product is taken in the time's own type.
  unfoldable pub scale_time_to_nano : NumberType → Value fs → Option (Value fs)
  scale_time_to_nano seconds_type (seconds i) = some (uint64 (i * 1000000000 % fs.seconds_mod))
  scale_time_to_nano milliseconds_type (milliseconds i) =
      some (uint64 (i * 1000000 % fs.milliseconds_mod))
  scale_time_to_nano microseconds_type (microseconds i) =
      some (uint64 (i * 1000 % fs.microseconds_mod))
  scale_time_to_nano nanoseconds_type val = some val
  scale_time_to_nano _ _ = none

  -- Two values of one type: times become unsigned integers.
  unfoldable pub same_type : NumberType → NumberType → Value fs → Value fs → Option (Operands fs)
  same_type t fam (seconds i) (seconds j) =
      some (record { dst = t; family = uint_type; ai = uint64 i; bi = uint64 j })
  same_type t fam (milliseconds i) (milliseconds j) =
      some (record { dst = t; family = uint_type; ai = uint64 i; bi = uint64 j })
  same_type t fam (microseconds i) (microseconds j) =
      some (record { dst = t; family = uint_type; ai = uint64 i; bi = uint64 j })
  same_type t fam (nanoseconds i) (nanoseconds j) =
      some (record { dst = t; family = uint_type; ai = uint64 i; bi = uint64 j })
  same_type t fam a b = some (record { dst = t; family = fam; ai = a; bi = b })

  abbrev pub operands :
      NumberType → NumberType → Option (Value fs) → Option (Value fs) → Option (Operands fs)
  operands dst fam a b =
      a >>= λ ai. b >>= λ bi. some (record { dst = dst; family = fam; ai = ai; bi = bi })

  -- The branches of UpConvert, for cleaned-up values and their types and families.
  unfoldable pub combine :
      NumberType → NumberType → NumberType → NumberType → Value fs → Value fs → Option (Operands fs)
  combine int_type int_type fA fB a b = same_type int_type fA a b
  combine uint_type uint_type fA fB a b = same_type uint_type fA a b
  combine float_type float_type fA fB a b = same_type float_type fA a b
  combine seconds_type seconds_type fA fB a b = same_type seconds_type fA a b
  combine milliseconds_type milliseconds_type fA fB a b = same_type milliseconds_type fA a b
  combine microseconds_type microseconds_type fA fB a b = same_type microseconds_type fA a b
  combine nanoseconds_type nanoseconds_type fA fB a b = same_type nanoseconds_type fA a b
  combine int_type uint_type fA fB a b = operands int_type fA (some a) (uint_to_int b)
  combine int_type float_type fA fB a b = operands float_type fB (int_to_float a) (some b)
  combine int_type tB fA fB a b = operands tB fB (unfix_type a int_type) (unfix_type b tB)
  combine uint_type int_type fA fB a b = operands int_type fB (uint_to_int a) (some b)
  combine uint_type float_type fA fB a b = operands float_type fB (uint_to_float a) (some b)
  combine uint_type tB fA fB a b = operands tB fB (unfix_type a uint_type) (unfix_type b tB)
  combine float_type uint_type fA fB a b = operands float_type fA (some a) (uint_to_float b)
  combine float_type int_type fA fB a b = operands float_type fA (some a) (int_to_float b)
  combine float_type tB fA fB a b = operands tB fB (unfix_type a float_type) (unfix_type b tB)
  combine tA int_type fA fB a b = operands tA fA (unfix_type a tA) (unfix_type b int_type)
  combine tA uint_type fA fB a b = operands tA fA (unfix_type a tA) (unfix_type b uint_type)
  combine tA float_type fA fB a b = operands tA fA (unfix_type a tA) (unfix_type b float_type)
  combine tA tB fA fB a b =
      operands nanoseconds_type uint_type (scale_time_to_nano tA a) (scale_time_to_nano tB b)

  unfoldable pub up_convert : Value fs → Value fs → Option (Operands fs)
  up_convert a b =
      clean_up a >>= λ (tA, fA, ai). clean_up b >>= λ (tB, fB, bi). combine tA tB fA fB ai bi

  unfoldable pub fix_type : Value fs → NumberType → Option (Value fs)
  fix_type (uint64 i) seconds_type = some (seconds (i % fs.seconds_mod))
  fix_type (uint64 i) milliseconds_type = some (milliseconds (i % fs.milliseconds_mod))
  fix_type (uint64 i) microseconds_type = some (microseconds (i % fs.microseconds_mod))
  fix_type (uint64 i) nanoseconds_type = some (nanoseconds (i % fs.nanoseconds_mod))
  fix_type val int_type = some val
  fix_type val uint_type = some val
  fix_type val float_type = some val
  fix_type _ _ = none

  -- intToTime, uintToTime and floatToTime: the assertion is written once for each kind.
  unfoldable pub int_to_time : Value fs → NumberType → Option (Value fs)
  int_to_time (int64 i) seconds_type = some (seconds (i % fs.seconds_mod))
  int_to_time (int64 i) milliseconds_type = some (milliseconds (i % fs.milliseconds_mod))
  int_to_time (int64 i) microseconds_type = some (microseconds (i % fs.microseconds_mod))
  int_to_time (int64 i) nanoseconds_type = some (nanoseconds (i % fs.nanoseconds_mod))
  int_to_time _ _ = none

  unfoldable pub uint_to_time : Value fs → NumberType → Option (Value fs)
  uint_to_time (uint64 i) seconds_type = some (seconds (i % fs.seconds_mod))
  uint_to_time (uint64 i) milliseconds_type = some (milliseconds (i % fs.milliseconds_mod))
  uint_to_time (uint64 i) microseconds_type = some (microseconds (i % fs.microseconds_mod))
  uint_to_time (int64 i) nanoseconds_type = some (nanoseconds (i % fs.nanoseconds_mod))
  uint_to_time _ _ = none
