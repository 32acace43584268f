-- ===== src/Number/Types.antt =====
-- flows/number.go: cleanUpType and UpConvertTypes, on the types of go-ipfix.
use go_flows.Shared.{Option, none, some}
use go_flows.Number.Value.{◌>>=◌}

pub data IpfixType : Type 0 where
  octet_array unsigned8 unsigned16 unsigned32 unsigned64 : IpfixType
  signed8 signed16 signed32 signed64 float32 float64 boolean mac_address string : IpfixType
  date_time_seconds date_time_milliseconds date_time_microseconds : IpfixType
  date_time_nanoseconds ipv4_address ipv6_address illegal other_type : IpfixType

unfoldable pub clean_up_type : IpfixType → Option IpfixType
clean_up_type octet_array = some illegal
clean_up_type unsigned8 = some unsigned64
clean_up_type unsigned16 = some unsigned64
clean_up_type unsigned32 = some unsigned64
clean_up_type unsigned64 = some unsigned64
clean_up_type signed8 = some signed64
clean_up_type signed16 = some signed64
clean_up_type signed32 = some signed64
clean_up_type signed64 = some signed64
clean_up_type float32 = some float64
clean_up_type float64 = some float64
clean_up_type boolean = some unsigned64
clean_up_type mac_address = some illegal
clean_up_type string = some illegal
clean_up_type date_time_seconds = some date_time_seconds
clean_up_type date_time_milliseconds = some date_time_milliseconds
clean_up_type date_time_microseconds = some date_time_microseconds
clean_up_type date_time_nanoseconds = some date_time_nanoseconds
clean_up_type ipv4_address = some illegal
clean_up_type ipv6_address = some illegal
clean_up_type illegal = none
clean_up_type other_type = none

-- UpConvertTypes, for cleaned-up types.
unfoldable pub combine_types : IpfixType → IpfixType → IpfixType
combine_types signed64 signed64 = signed64
combine_types signed64 unsigned64 = signed64
combine_types signed64 tB = tB
combine_types unsigned64 unsigned64 = unsigned64
combine_types unsigned64 tB = tB
combine_types float64 float64 = float64
combine_types float64 unsigned64 = float64
combine_types float64 signed64 = float64
combine_types float64 tB = tB
combine_types illegal illegal = illegal
combine_types date_time_seconds date_time_seconds = date_time_seconds
combine_types date_time_milliseconds date_time_milliseconds = date_time_milliseconds
combine_types date_time_microseconds date_time_microseconds = date_time_microseconds
combine_types date_time_nanoseconds date_time_nanoseconds = date_time_nanoseconds
combine_types _ _ = date_time_nanoseconds

unfoldable pub up_convert_types : IpfixType → IpfixType → Option IpfixType
up_convert_types a b =
    clean_up_type a >>= λ tA. clean_up_type b >>= λ tB. some (combine_types tA tB)
