-- ===== src/Number/Agreement.antt =====
-- flows/number.go: the type that UpConvertTypes announces and the one that UpConvert gives.
use mathlib.Core.Path.{◌≡◌}
use go_flows.Shared.{ℕ, Bool, true, false, Option, none, some, arith, if◌then◌else◌}
use go_flows.Number.Value.{Formats, Value}
use go_flows.Number.Convert.{
  NumberType, int_type, uint_type, float_type, seconds_type, milliseconds_type, microseconds_type,
  nanoseconds_type, Operands, same_type, combine, up_convert, uint_to_float, int_to_float,
  uint_to_int, unfix_type, scale_time_to_nano,
}
use go_flows.Number.Types.{
  IpfixType, unsigned64, signed64, float64, date_time_seconds, date_time_milliseconds,
  date_time_microseconds, date_time_nanoseconds, clean_up_type, combine_types, up_convert_types,
}
use go_flows.Number.Carried.{cleaned, family_of, kind_of, clean_up-cleaned}

-- The type of go-ipfix that the values of a number type are exported as.
unfoldable pub type_of : NumberType → IpfixType
type_of int_type = signed64
type_of uint_type = unsigned64
type_of float_type = float64
type_of seconds_type = date_time_seconds
type_of milliseconds_type = date_time_milliseconds
type_of microseconds_type = date_time_microseconds
type_of nanoseconds_type = date_time_nanoseconds

-- A time before a number that is no time.
unfoldable pub time_first : NumberType → NumberType → Bool
time_first int_type _ = false
time_first uint_type _ = false
time_first float_type _ = false
time_first _ int_type = true
time_first _ uint_type = true
time_first _ float_type = true
time_first _ _ = false

unfoldable pub announced : {fs : Formats} → Bool → Option (Operands fs) → Option IpfixType
announced _ none = none
announced first (some o) = some (if first then date_time_nanoseconds else type_of o.dst)

combine-announced :
    (fs : Formats) (tA tB : NumberType) (i j : ℕ) (x y : fs.Float64)
    → some (combine_types (type_of tA) (type_of tB))
      ≡ announced {fs = fs} (time_first tA tB) (
          combine tA tB
            (family_of tA)
            (family_of tB)
            (cleaned {fs = fs} tA i x)
            (cleaned {fs = fs} tB j y))
unfolding combine cleaned family_of type_of combine_types announced time_first same_type unfix_type
    scale_time_to_nano int_to_float uint_to_float uint_to_int
combine-announced fs tA tB i j x y = ground arith

-- For two values whose declared types are `x` and `y`, UpConvertTypes gives the type that the result
-- of UpConvert has, unless the first is a time and the second is not: then it gives nanoseconds.
pub up_convert_types-announced :
    {fs : Formats} (a b : Value fs) (x y : IpfixType) (tA tB : NumberType)
    → kind_of a ≡ some tA
    → kind_of b ≡ some tB
    → clean_up_type x ≡ some (type_of tA)
    → clean_up_type y ≡ some (type_of tB)
    → up_convert_types x y ≡ announced (time_first tA tB) (up_convert a b)
unfolding up_convert up_convert_types
up_convert_types-announced {fs} a b x y tA tB hA hB hx hy =
    rw (hx, hy, clean_up-cleaned fs a tA hA, clean_up-cleaned fs b tB hB)
      (combine-announced fs tA tB _ _ _ _)
