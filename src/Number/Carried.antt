-- ===== src/Number/Carried.antt =====
-- flows/number.go: what the callers of UpConvert rely on, that both operands have the family's type.
use mathlib.Core.Path.{◌≡◌, refl}
use mathlib.Core.Logic.{inl, inr}
use mathlib.Core.Bool.{not}
use mathlib.Core.Option.{get_or}
use go_flows.Shared.{ℕ, Bool, true, false, Option, none, some, arith, Option-cases}
use go_flows.Number.Value.{
  to_int, to_float, Formats, Value, float64, float32, int64, int32, int16, int8, int, uint64,
  seconds, milliseconds, microseconds, nanoseconds, nil, other,
}
use go_flows.Number.Convert.{
  NumberType, int_type, uint_type, float_type, seconds_type, milliseconds_type, microseconds_type,
  nanoseconds_type, Operands, clean_up, same_type, combine, up_convert, uint_to_float, int_to_float,
  uint_to_int, unfix_type, scale_time_to_nano,
}

-- A value that clean_up returns, by its type.
unfoldable pub cleaned : {fs : Formats} → NumberType → ℕ → fs.Float64 → Value fs
cleaned int_type i x = int64 i
cleaned uint_type i x = uint64 i
cleaned float_type i x = float64 x
cleaned seconds_type i x = seconds i
cleaned milliseconds_type i x = milliseconds i
cleaned microseconds_type i x = microseconds i
cleaned nanoseconds_type i x = nanoseconds i

unfoldable pub family_of : NumberType → NumberType
family_of int_type = int_type
family_of float_type = float_type
family_of _ = uint_type

-- A time in nanoseconds beside a time in another unit.
unfoldable pub nano_beside : NumberType → NumberType → Bool
nano_beside nanoseconds_type seconds_type = true
nano_beside nanoseconds_type milliseconds_type = true
nano_beside nanoseconds_type microseconds_type = true
nano_beside _ _ = false

unfoldable pub has_family : {fs : Formats} → NumberType → Value fs → Bool
has_family int_type (int64 _) = true
has_family uint_type (uint64 _) = true
has_family float_type (float64 _) = true
has_family _ _ = false

-- Whether each operand has the type of the family; `none` is a panic.
unfoldable pub carries : {fs : Formats} → Option (Operands fs) → Option (Bool × Bool)
carries none = none
carries (some o) = some (has_family o.family o.ai, has_family o.family o.bi)

-- The numeric type of a Go value; `none` is a value that is not a number.
unfoldable pub kind_of : {fs : Formats} → Value fs → Option NumberType
kind_of (float64 _) = some float_type
kind_of (float32 _) = some float_type
kind_of (int64 _) = some int_type
kind_of (int32 _) = some int_type
kind_of (int16 _) = some int_type
kind_of (int8 _) = some int_type
kind_of (int _) = some int_type
kind_of (seconds _) = some seconds_type
kind_of (milliseconds _) = some milliseconds_type
kind_of (microseconds _) = some microseconds_type
kind_of (nanoseconds _) = some nanoseconds_type
kind_of nil = none
kind_of other = none
kind_of _ = some uint_type

pub clean_up-cleaned :
    (fs : Formats) (a : Value fs) (t : NumberType)
    → kind_of a ≡ some t
    → clean_up a
      ≡ some (
        t,
        family_of t,
        cleaned {fs = fs} t (get_or (to_int a) 0) (get_or (to_float a) (fs.of_uint 0)),
      )
unfolding kind_of clean_up cleaned family_of to_int to_float
clean_up-cleaned fs a t h = ground arith

combine-carries :
    (fs : Formats) (tA tB : NumberType) (i j : ℕ) (x y : fs.Float64)
    → carries {fs = fs} (
        combine tA tB
          (family_of tA)
          (family_of tB)
          (cleaned {fs = fs} tA i x)
          (cleaned {fs = fs} tB j y))
      ≡ some (not (nano_beside tA tB), not (nano_beside tB tA))
unfolding combine cleaned family_of nano_beside has_family carries same_type unfix_type
    scale_time_to_nano int_to_float uint_to_float uint_to_int
combine-carries fs tA tB i j x y = ground arith

-- For two numbers, in the order given, UpConvert does not panic, and each operand it returns has the Go
-- type of the family, which its callers assert, except a time in nanoseconds beside a time in another
-- unit, which does not have it.
pub up_convert-carries :
    {fs : Formats} (a b : Value fs) (tA tB : NumberType)
    → kind_of a ≡ some tA
    → kind_of b ≡ some tB
    → carries (up_convert a b) ≡ some (not (nano_beside tA tB), not (nano_beside tB tA))
unfolding up_convert
up_convert-carries {fs} a b tA tB hA hB =
    rw (clean_up-cleaned fs a tA hA, clean_up-cleaned fs b tB hB, combine-carries fs tA tB _ _ _ _)
      refl

-- The types of the result: `dst` and `family`.
unfoldable pub types_of : {fs : Formats} → Option (Operands fs) → Option (NumberType × NumberType)
types_of none = none
types_of (some o) = some (o.dst, o.family)

combine-types :
    (fs : Formats) (tA tB : NumberType) (i j : ℕ) (x y : fs.Float64)
    → types_of {fs = fs} (
        combine tA tB
          (family_of tA)
          (family_of tB)
          (cleaned {fs = fs} tA i x)
          (cleaned {fs = fs} tB j y))
      ≡ types_of {fs = fs} (
          combine tB tA
            (family_of tB)
            (family_of tA)
            (cleaned {fs = fs} tB j y)
            (cleaned {fs = fs} tA i x))
unfolding combine cleaned family_of types_of same_type unfix_type scale_time_to_nano int_to_float
    uint_to_float uint_to_int
combine-types fs tA tB i j x y = ground arith

kind_of-none : {fs : Formats} (a : Value fs) → kind_of a ≡ none → clean_up a ≡ none
unfolding kind_of clean_up
kind_of-none a h = ground arith

-- Whatever two values are given, UpConvert panics for both of their orders or for neither, and the
-- final type and the family do not depend on the order.
pub up_convert-types :
    {fs : Formats} (a b : Value fs) → types_of (up_convert a b) ≡ types_of (up_convert b a)
unfolding up_convert types_of
up_convert-types {fs} a b = elim (Option-cases (kind_of a)) [
  | inl n ↦ elim (Option-cases (clean_up b)) [
    | inl m ↦ rw (kind_of-none a n, m) refl
    | inr (_, m) ↦ rw (kind_of-none a n, m) refl
  ]
  | inr (tA, hA) ↦ elim (Option-cases (kind_of b)) [
    | inl m ↦ rw (clean_up-cleaned fs a tA hA, kind_of-none b m) refl
    | inr (tB, hB) ↦
        rw
          (clean_up-cleaned fs a tA hA, clean_up-cleaned fs b tB hB, combine-types fs tA tB _ _ _ _)
          refl
  ]
]
