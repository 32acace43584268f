-- ===== src/FlowTable/Examples.antt =====
-- Runs of a flow table with two flows, over records that log what is exported.
use go_flows.Shared.{
  ℕ, ◌≡◌, refl, Bool, true, false, none, some, List, [], ◌∷◌, arith, ◌↔◌, lookup, insert, delete,
  key_eq,
}
use go_flows.Timer.{make_func_entries, add_timer, expire, expire_from}
use go_flows.EventContext.{new_context, init_flow, FlowEndReason, sort_none, idle}
use go_flows.FlowTable.State.{TcpFlags, Event, Records, FlowOptions, uni, Flow, FlowTable}
use go_flows.FlowTable.Flow.{
  flow_at, remove_key, flow_add_timer, remove, retire, stop, export, export_without_context,
  callback, expire_flow, base_event, fresh_flow, init,
}
use go_flows.FlowTable.Tcp.{dispatch, flow_event, new_kind, new_flow}
use go_flows.FlowTable.Table.{
  new_flow_table, event, expire_all, eof, expire_window, open_window, deliver, flush_after_event,
  flush_after_expiry, handle, create, settle, place, place_at, expire_if_past, expire_slots,
}
use go_flows.FlowTable.Evolution.{IsWell}
use go_flows.Timer.{expires_at}
use go_flows.FlowTable.State.{idle_event, active_event}
use go_flows.FlowTable.Closing.{IsCleared, eof-IsCleared, expire_window-IsCleared}
use go_flows.FlowTable.Timeliness.{AllTimely, expire_if_past-none_missed, flow_event-AllTimely}
use go_flows.FlowTable.Tcp.{advance, closed}
use go_flows.FlowTable.Handshake.{Segment, follow, IsFinished, closed-follow}
use go_flows.Shared.{zero, suc, ◌≤◌, ◌≢◌}
use go_flows.FlowTable.Runs.{Call, on_event, on_expire, run, run-new_flow_table-IsWell}

-- A record is whether it is active; the sink lists the reason and time of each export.
abbrev log_records : Records
log_records = record {
  Record = Bool;
  Sink = List (FlowEndReason × ℕ);
  Packet = ℕ;
  make = true;
  destroy = λ rec sink. (rec, sink);
  event = λ ev context sort expiring rec sink. (rec, sink, context);
  export =
      λ reason context now sort expiring rec sink. (false, (reason, context.when) ∷ sink, context);
  is_active = λ rec. rec;
  flush_exports = λ sink. sink;
  flush_all_exports = λ sink. sink;
}

abbrev options : FlowOptions
options = record {
  active_timeout = 100;
  idle_timeout = 10;
  window_expiry = false;
  per_packet = false;
  tcp_expiry = false;
  sort_output = sort_none;
}

abbrev blank : Flow Bool
blank = record {
  key = [];
  timers = [];
  expire_next = 0;
  records = false;
  id = 0;
  active = false;
  first_forward = false;
  kind = uni;
}

abbrev packet_at : ℕ → ℕ → Event ℕ
packet_at time key = record {
  timestamp = time;
  key = key ∷ [];
  low_to_high = true;
  window = 0;
  tcp = none;
  packet = 0;
}

abbrev calls : List (Call ℕ)
calls =
    on_event (packet_at 1 7)
    ∷ on_event (packet_at 2 8)
    ∷ on_event (packet_at 30 7)
    ∷ on_expire 31
    ∷ []

abbrev start : FlowTable log_records
start = new_flow_table [] blank options false 0

-- Both first flows end by their idle timeout; the second packet of key 7 opens a third flow.
both_flows_expire : (run {r = log_records} calls start).sink ≡ (idle, 12) ∷ (idle, 11) ∷ []
unfolding run new_flow_table new_context event open_window deliver flush_after_event
    flush_after_expiry handle create settle place place_at expire_if_past expire_slots expire_all
    flow_event dispatch new_flow new_kind init init_flow fresh_flow base_event expire_flow callback
    export_without_context export stop retire remove remove_key flow_add_timer make_func_entries
    add_timer expire expire_from lookup insert delete key_eq
both_flows_expire = refl

run-new_flow_table-IsWell_example : IsWell (run {r = log_records} calls start)
run-new_flow_table-IsWell_example =
    run-new_flow_table-IsWell {r = log_records} [] blank options false 0 calls refl

-- Two flows with timers.
abbrev busy : FlowTable log_records
busy = run {r = log_records} (on_event (packet_at 1 7) ∷ on_event (packet_at 2 8) ∷ []) start

busy-IsWell : IsWell busy
busy-IsWell =
    run-new_flow_table-IsWell {r = log_records} [] blank options false 0
      (on_event (packet_at 1 7) ∷ on_event (packet_at 2 8) ∷ []) refl

eof-IsCleared_example : IsCleared (eof 50 busy)
eof-IsCleared_example = eof-IsCleared 50 busy busy-IsWell

expire_window-IsCleared_example : IsCleared (expire_window busy)
expire_window-IsCleared_example = expire_window-IsCleared busy busy-IsWell

-- A flow whose idle timer is at 11 and whose active timer is at 101, at pointer 0.
abbrev timed : Flow Bool
timed = record blank {
  timers =
      record { function = some idle_event; expires = 11 }
      ∷ record { function = some active_event; expires = 101 }
      ∷ [];
  expire_next = 11;
  active = true;
}

abbrev timed_table : FlowTable log_records
timed_table = record start { index = record start.index { heap = λ p. timed } }

timed-AllTimely : AllTimely timed_table
timed-AllTimely q zero pending = omega arith
timed-AllTimely q (suc zero) pending = omega arith
timed-AllTimely q (suc (suc i)) pending = absurd (pending refl)

active_timer_pending : expires_at (flow_at (expire_if_past 0 50 timed_table) 0).timers 1 ≢ 0
unfolding expire_if_past expire_flow expire expire_from callback export_without_context export stop
    retire remove remove_key new_flow_table init_flow new_context lookup delete key_eq
active_timer_pending = omega arith

expire_if_past-none_missed_example :
    50 ≤ expires_at (flow_at (expire_if_past 0 50 timed_table) 0).timers 1
expire_if_past-none_missed_example =
    expire_if_past-none_missed 0 50 timed_table timed-AllTimely 1 active_timer_pending

flow_event-AllTimely_example :
    AllTimely (flow_event 0 (packet_at 9 7) (new_context 9) timed_table).0
unfolding new_context new_flow_table
flow_event-AllTimely_example =
    flow_event-AllTimely 0 (packet_at 9 7) (new_context 9) timed_table (omega arith) timed-AllTimely

abbrev flags : Bool → Bool → TcpFlags
flags fin ack = record { fin = fin; rst = false; ack = ack }

-- FIN, FIN with ACK, ACK; the latest comes first.
abbrev goodbye : List Segment
goodbye = (true, flags false true) ∷ (false, flags true true) ∷ (true, flags true false) ∷ []

goodbye_closes : closed (follow goodbye) ≡ true
unfolding closed follow advance
goodbye_closes = refl

closed-follow_example :
    (closed (follow goodbye) ≡ true) ↔ (IsFinished true goodbye × IsFinished false goodbye)
closed-follow_example = closed-follow goodbye
