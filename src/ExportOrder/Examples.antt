-- ===== src/ExportOrder/Examples.antt =====
-- Examples for the orders of export records.
use go_flows.Shared.{◌≡◌, ◌⊎◌, true, false}
use go_flows.ExportOrder.{ExportKey, less_expiry, less_expiry-linear}

abbrev first : ExportKey
first = record { packet_id = 4; expiry_time = 90; record_id = 0 }

abbrev second : ExportKey
second = record { packet_id = 4; expiry_time = 90; record_id = 1 }

abbrev third : ExportKey
third = record { packet_id = 2; expiry_time = 95; record_id = 0 }

less_expiry-linear_example :
    (less_expiry first first ≡ false)
    × ((less_expiry first second ≡ true) ⊎ (less_expiry second first ≡ true) ⊎ (first ≡ second))
    × ((less_expiry first second ≡ false)
        ⊎ (less_expiry second third ≡ false)
        ⊎ (less_expiry first third ≡ true))
less_expiry-linear_example = less_expiry-linear first second third
