-- ===== src/FlowRecord/Examples.antt =====
-- A record with one control feature, which restarts the record at once at every second event.
use go_flows.Shared.{
  ℕ, ◌+◌, ◌≡◌, refl, sym, subst, true, false, none, some, [], ◌∷◌, ◌==◌, if◌then◌else◌,
}
use go_flows.EventContext.{stop_time, new_context, clear, restart_record}
use go_flows.FlowTable.State.{Event}
use go_flows.FlowRecord.State.{Features, Control, FlowRecord, Exports, Run, each}
use go_flows.FlowRecord.Control.{start}
use go_flows.FlowRecord.Exports.{new_export}
use go_flows.FlowRecord.Event.{control_events, filtered_event}
use go_flows.FlowRecord.Lists.{list_event}
use go_flows.FlowRecord.Filters.{HasExport, ReturnsAll, list_event-Ready}
use go_flows.FlowRecord.Restarts.{Settles, fresh, runs_again, filtered_event-returns}

abbrev counter : Features
counter = record {
  State = ℕ;
  Packet = ℕ;
  Value = ℕ;
  Template = ℕ;
  event_nr = λ e. e.packet;
  start = λ i c s. (c, 0);
  finish_event = λ i c s. (c, s);
  event = λ i e c s. if s == 0 then (c, 1) else (restart_record true c, s);
  stop = λ i r c s. (c, s);
  filter_start = λ i c s. (c, s);
  filter_stop = λ i r c s. (c, s);
  variant = λ i s. s;
  value = λ i s. s;
  template = λ i. 0;
  sub_template = λ t v. t + v;
}

abbrev packet : Event ℕ
packet = record { timestamp = 7; key = []; low_to_high = true; window = 0; tcp = none; packet = 3 }

abbrev control : Control
control = record { control = 0 ∷ []; event = []; export = 0 ∷ []; variant = 0 ∷ [] }

abbrev seen_one : FlowRecord counter
seen_one = record {
  features = 1;
  size = 1;
  filters = 0;
  control = control;
  export = some 9;
  active = true;
  alive = false;
}

abbrev empty : Exports counter
empty = record {
  heads = λ _. 0;
  links = record { next = λ _. some 0; prev = λ _. some 0 };
  objects = λ _. record {
    key = record { packet_id = 0; expiry_time = 0; record_id = 0 };
    export_time = 0;
    template = none;
    features = [];
  };
  next_ptr = 10;
  sent = [];
  fault = false;
  broken = false;
}

abbrev one_event : Run counter
one_event = record { rec = seen_one; context = new_context 7; out = empty }

settled : Settles stop_time false packet 0 one_event
unfolding fresh start each control_events clear new_export
settled u e =
    subst
      (λ (p : Control × ℕ).
        let v : Run counter = record u { rec = record u.rec { control = p.0; size = p.1 } } in
        runs_again
          (control_events packet (fresh stop_time false packet 0 v).rec.control.control
            (fresh stop_time false packet 0 v)).0
        ≡ false)
      (sym e) refl

filtered_event-returns_example :
    (x : Run counter) × (filtered_event stop_time false 2 packet 0 one_event ≡ some x)
filtered_event-returns_example = filtered_event-returns stop_time false 0 packet 0 one_event settled

export_9 : HasExport stop_time seen_one
unfolding HasExport
export_9 on sorted = (9, refl)

list_event-Ready_example : ReturnsAll stop_time (
    list_event stop_time false
      (λ i next e w. next e w)
      2
      packet
      0
      (seen_one ∷ seen_one ∷ [])
      (new_context 7)
      empty)
list_event-Ready_example =
    list_event-Ready stop_time false (λ i next e w. next e w) (λ i next k e w h. k e w h) 2 packet 0
      (seen_one ∷ seen_one ∷ []) (new_context 7) empty refl (export_9, (export_9, tt))
