-- ===== src/Number/Examples.antt =====
-- Tests and examples for the numbers. Here a float is its integer part.
use mathlib.Core.Path.{◌≡◌, refl}
use go_flows.Shared.{ℕ, ◌^◌, some, true, false}
use go_flows.Number.Value.{Formats, Value, seconds, nanoseconds, int32}
use go_flows.Number.Convert.{seconds_type, nanoseconds_type, int_type, up_convert}
use go_flows.Number.Types.{signed32, date_time_seconds, clean_up_type, up_convert_types}
use go_flows.Number.Carried.{
  carries, kind_of, nano_beside, types_of, up_convert-carries, up_convert-types,
}
use go_flows.Number.Agreement.{announced, time_first, type_of, up_convert_types-announced}

abbrev whole : Formats
whole = record {
  Float64 = ℕ;
  Float32 = ℕ;
  widen = λ x. x;
  of_int = λ x. x;
  of_uint = λ x. x;
  to_int = λ x. x;
  to_uint = λ x. x;
  seconds_mod = 2 ^ 32;
  milliseconds_mod = 2 ^ 64;
  microseconds_mod = 2 ^ 64;
  nanoseconds_mod = 2 ^ 64;
}

abbrev moment : Value whole
moment = nanoseconds 5

abbrev minute : Value whole
minute = seconds 60

abbrev count : Value whole
count = int32 7

up_convert-carries_example : carries (up_convert moment minute) ≡ some (false, true)
unfolding kind_of nano_beside
up_convert-carries_example =
    up_convert-carries moment minute nanoseconds_type seconds_type refl refl

up_convert_types-announced_example :
    up_convert_types date_time_seconds signed32
    ≡ announced (time_first seconds_type int_type) (up_convert minute count)
unfolding kind_of clean_up_type type_of
up_convert_types-announced_example =
    up_convert_types-announced minute count date_time_seconds signed32 seconds_type int_type refl
      refl refl refl

up_convert-types_example : types_of (up_convert minute count) ≡ types_of (up_convert count minute)
up_convert-types_example = up_convert-types minute count
