-- ===== src/FlowTable/Flow.antt =====
-- flows/flow.go: the methods of BaseFlow. A method of the flow that pointer `p` points at takes its
-- table, and returns it.
use go_flows.Shared.{
  ℕ, ◌≡◌, arith, Bool, true, false, not, ◌||◌, Option, none, some, [], ◌∷◌, ltb, leb, ◌==◌,
  if◌then◌else◌, length, set, Key, lookup, delete,
}
use go_flows.Timer.{make_func_entries, add_timer, remove_timer, expire}
use go_flows.EventContext.{
  EventContext, FlowEndReason, idle, active, ended, forced_end, new_context, init_flow,
}
use go_flows.FlowTable.State.{
  add64, Event, Records, Callback, idle_event, active_event, Kind, Flow, Index, FlowTable,
}

-- `TimerIdle` and `TimerActive`, the first two results of RegisterTimer.
abbrev pub timer_idle : ℕ
timer_idle = 0

abbrev pub timer_active : ℕ
timer_active = 1

abbrev pub update {ℓ} : {A : Type ℓ} → (ℕ → A) → ℕ → A → ℕ → A
update f p a q = if q == p then a else f q

pub update_self {ℓ} : {A : Type ℓ} (h : ℕ → A) (p : ℕ) (a : A) → update h p a p ≡ a
update_self h p a = ground arith

-- The entry of a missing key reads as 0, as in Go.
abbrev pub index_or_zero : Option ℕ → ℕ
index_or_zero none = 0
index_or_zero (some i) = i

-- What FlowTable.remove does to the index.
unfoldable pub remove_key : {R : Type 0} → Key → Index R → Index R
remove_key key x =
    let old = index_or_zero (lookup key x.flows) in
    record x {
      flowlist = set x.flowlist old none;
      freelist = old ∷ x.freelist;
      flows = delete key x.flows;
    }

-- BaseFlow.AddTimer.
unfoldable pub flow_add_timer : {R : Type 0} → ℕ → Callback → ℕ → Flow R → Flow R
flow_add_timer id f when flow = record flow {
  timers = add_timer id f when flow.timers;
  expire_next =
      if ltb when flow.expire_next || flow.expire_next == 0 then when else flow.expire_next;
}

-- BaseFlow.RemoveTimer.
unfoldable pub flow_remove_timer : {R : Type 0} → ℕ → Flow R → Flow R
flow_remove_timer id flow =
    let (fep, next) = remove_timer id flow.timers in
    record flow { timers = fep; expire_next = next }

module _ {r : Records} where
  abbrev pub flow_at : FlowTable r → ℕ → Flow r.Record
  flow_at tab p = tab.index.heap p

  -- A write through the pointer.
  abbrev pub put_flow : ℕ → Flow r.Record → FlowTable r → FlowTable r
  put_flow p f tab = record tab { index = record tab.index { heap = update tab.index.heap p f } }

  unfoldable pub remove : ℕ → FlowTable r → FlowTable r
  remove p tab =
      let key = (flow_at tab p).key in
      if tab.eof then tab else (record tab {
        index = remove_key key tab.index;
        fault =
            tab.fault
            || leb (length tab.index.flowlist) (index_or_zero (lookup key tab.index.flows));
      })

  -- What Stop does once the records are destroyed.
  unfoldable pub retire : ℕ → FlowTable r → FlowTable r
  retire p tab =
      let removed = remove p tab in
      put_flow p (record (flow_at removed p) { active = false }) removed

  unfoldable pub stop : ℕ → FlowTable r → FlowTable r
  stop p tab =
      let (rec, sink) = r.destroy (flow_at tab p).records tab.sink in
      retire p (record (put_flow p (record (flow_at tab p) { records = rec }) tab) { sink = sink })

  unfoldable pub export :
      ℕ → FlowEndReason → EventContext → ℕ → FlowTable r → FlowTable r × EventContext
  export p reason context now tab =
      let flow = flow_at tab p in
      let hard = record context { hard = true } in
      let (rec, sink, after) =
        r.export reason hard now tab.options.sort_output tab.expiring flow.records tab.sink in
      let exported = record (put_flow p (record flow { records = rec }) tab) { sink = sink } in
      if flow.active then (stop p exported, after) else (tab, context)

  unfoldable pub export_without_context : ℕ → FlowEndReason → ℕ → ℕ → FlowTable r → FlowTable r
  export_without_context p reason expires now tab =
      (export p reason (init_flow p (new_context expires)) now tab).0

  -- idleEvent and activeEvent.
  unfoldable pub callback : ℕ → Callback → ℕ → ℕ → FlowTable r → FlowTable r
  callback p idle_event expires now tab = export_without_context p idle expires now tab
  callback p active_event expires now tab = export_without_context p active expires now tab

  unfoldable pub expire_flow : ℕ → ℕ → FlowTable r → FlowTable r
  expire_flow p when tab =
      let flow = flow_at tab p in
      let (fep, next, after) = expire (callback p) when flow.timers tab in
      if flow.expire_next == 0
      then tab
      else put_flow p (record (flow_at after p) { timers = fep; expire_next = next }) after

  unfoldable pub flow_eof : ℕ → EventContext → FlowTable r → FlowTable r × EventContext
  flow_eof p context tab = export p forced_end context context.when tab

  -- BaseFlow.Event: the idle timer is set anew, the records see the event, and the flow ends if no
  -- record is active any more, or if each packet is a flow.
  unfoldable pub base_event :
      ℕ → Event r.Packet → EventContext → FlowTable r → FlowTable r × EventContext
  base_event p event context tab =
      let context = init_flow p context in
      let flow =
        if tab.options.idle_timeout == 0
        then flow_at tab p
        else flow_add_timer timer_idle idle_event (add64 context.when tab.options.idle_timeout)
            (flow_at tab p) in
      let (rec, sink, after) =
        r.event event context tab.options.sort_output tab.expiring flow.records tab.sink in
      let seen = record (put_flow p (record flow { records = rec }) tab) { sink = sink } in
      if not (r.is_active rec)
      then (stop p seen, after)
      else (if tab.options.per_packet then export p ended after after.when seen else (seen, after))

  -- What BaseFlow.Init makes of a new object.
  unfoldable pub fresh_flow : Kind → Key → Bool → EventContext → ℕ → FlowTable r → Flow r.Record
  fresh_flow kind key forward context id tab =
      let flow : Flow r.Record = record {
        key = key;
        timers =
            if add64 tab.options.active_timeout tab.options.idle_timeout == 0
            then []
            else make_func_entries;
        expire_next = 0;
        records = r.make;
        id = id;
        active = true;
        first_forward = forward;
        kind = kind;
      } in
      if tab.options.active_timeout == 0
      then flow
      else flow_add_timer timer_active active_event (add64 context.when tab.options.active_timeout)
          flow

  -- BaseFlow.Init of the object at `p`.
  unfoldable pub init :
      ℕ → Kind → Key → Bool → EventContext → ℕ → FlowTable r → FlowTable r × EventContext
  init p kind key forward context id tab =
      (put_flow p (fresh_flow kind key forward context id tab) tab, init_flow p context)
