-- ===== src/PacketTable/Examples.antt =====
-- Three packets of two flows, for two tables.
use go_flows.Shared.{ℕ, ◌+◌, ◌≡◌, refl, true, none, some, List, [], ◌∷◌, get_elem?}
use go_flows.FlowTable.State.{Event}
use go_flows.PacketTable.Parallel.{ParallelTable, parallel_event}
use go_flows.PacketTable.Distribution.{of_table, parallel_event-queues}

abbrev packet_of : ℕ → ℕ → Event ℕ
packet_of time byte = record {
  timestamp = time;
  key = byte ∷ [];
  low_to_high = true;
  window = 0;
  tcp = none;
  packet = 0;
}

abbrev packets : List (Event ℕ)
packets = packet_of 1 7 ∷ packet_of 2 8 ∷ packet_of 3 7 ∷ []

abbrev tables : ParallelTable ℕ
tables = record { queues = [] ∷ [] ∷ []; expire_time = 100; next_expire = 0 }

parallel_event-queues_example :
    get_elem? (parallel_event ◌+◌ 3 packets tables).queues 1
    ≡ some (record { packets = of_table ◌+◌ 2 1 packets; timestamp = 3; expire = true } ∷ [])
parallel_event-queues_example = parallel_event-queues ◌+◌ 3 packets tables 1 [] refl
