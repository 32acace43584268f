-- ===== src/PacketTable/Workers.antt =====
-- packet/table.go: a worker makes nothing but Event and Expire calls of its table.
use go_flows.Shared.{ℕ, ◌≡◌, refl, ◌∙◌, subst, Bool, true, false, List, [], ◌∷◌, if◌then◌else◌}
use go_flows.FlowTable.State.{Event, Records, FlowOptions, Flow, FlowTable}
use go_flows.FlowTable.Table.{new_flow_table, event, expire_all}
use go_flows.FlowTable.Evolution.{IsWell}
use go_flows.FlowTable.Runs.{Call, on_event, on_expire, run, run-new_flow_table-IsWell}
use go_flows.PacketTable.Parallel.{Delivery, read_events, work}

-- The calls for the packets of a batch, in front of others.
abbrev event_calls : {P : Type 0} → List (Event P) → List (Call P) → List (Call P)
event_calls [] calls = calls
event_calls (e ∷ es) calls = on_event e ∷ event_calls es calls

abbrev calls_of : {P : Type 0} → List (Delivery P) → List (Call P)
calls_of [] = []
calls_of (d ∷ ds) =
    let rest = calls_of ds in
    event_calls d.packets (if d.expire then on_expire d.timestamp ∷ rest else rest)

module _ {r : Records} where
  run-event_calls :
      (es : List (Event r.Packet)) (calls : List (Call r.Packet)) (t : FlowTable r)
      → run (event_calls es calls) t ≡ run calls (read_events es t)
  unfolding run read_events
  run-event_calls [] calls t = refl
  run-event_calls (e ∷ es) calls t = run-event_calls es calls (event e t)

  run-if :
      (b : Bool) (when : ℕ) (calls : List (Call r.Packet)) (t : FlowTable r)
      → run (if b then on_expire when ∷ calls else calls) t
        ≡ run calls (if b then expire_all when t else t)
  unfolding run
  run-if true when calls t = refl
  run-if false when calls t = refl

  run-calls_of : (ds : List (Delivery r.Packet)) (t : FlowTable r) → run (calls_of ds) t ≡ work ds t
  unfolding run work
  run-calls_of [] t = refl
  run-calls_of (d ∷ ds) t =
      run-event_calls d.packets _ t
      ∙ run-if d.expire d.timestamp (calls_of ds) (read_events d.packets t)
      ∙ run-calls_of ds _

  -- Whatever batches a worker is sent, its table, which NewFlowTable made, is well formed after them, if
  -- unallocated memory holds no active flow.
  work-IsWell :
      (sink : r.Sink) (blank : Flow r.Record) (options : FlowOptions) (fivetuple : Bool) (id : ℕ)
      (ds : List (Delivery r.Packet))
      → blank.active ≡ false
      → IsWell (work ds (new_flow_table {r = r} sink blank options fivetuple id))
  work-IsWell sink blank options fivetuple id ds off =
      subst IsWell (run-calls_of ds (new_flow_table sink blank options fivetuple id))
        (run-new_flow_table-IsWell sink blank options fivetuple id (calls_of ds) off)
