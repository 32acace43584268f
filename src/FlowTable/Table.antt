-- ===== src/FlowTable/Table.antt =====
-- flows/table.go: NewFlowTable, Event, Expire, EOF and expireWindow.
use go_flows.Shared.{
  ℕ, zero, suc, Bool, true, false, not, Option, none, some, List, [], ◌∷◌, ◌++◌, ltb, ◌==◌,
  if◌then◌else◌, length, get_elem?, set, Key, lookup, insert,
}
use go_flows.EventContext.{
  EventContext, sort_none, start_time, stop_time, expiry_time, ended, new_context, init_flow,
}
use go_flows.FlowTable.State.{add64, Event, Records, FlowOptions, Flow, Index, FlowTable}
use go_flows.FlowTable.Flow.{flow_at, export, expire_flow, flow_eof}
use go_flows.FlowTable.Tcp.{flow_event, new_flow}

-- `lowToHigh == elem.firstLowToHigh()`.
abbrev pub same_direction : Bool → Bool → Bool
same_direction true b = b
same_direction false b = not b

-- The new flow goes to the last free slot if there is one, and to the end of the list otherwise.
unfoldable pub place_at : {R : Type 0} → List ℕ → Key → ℕ → Index R → Index R
place_at [] key p x = record x {
  flowlist = x.flowlist ++ some p ∷ [];
  flows = insert key (length x.flowlist) x.flows;
}
place_at (slot ∷ freelist) key p x = record x {
  flowlist = set x.flowlist slot (some p);
  freelist = freelist;
  flows = insert key slot x.flows;
}

unfoldable pub place : {R : Type 0} → Key → ℕ → Index R → Index R
place key p x = place_at x.freelist key p x

module _ {r : Records} where
  -- `NewFlowTable`; `blank` is what unallocated memory holds.
  unfoldable pub new_flow_table : r.Sink → Flow r.Record → FlowOptions → Bool → ℕ → FlowTable r
  new_flow_table sink blank options fivetuple id = record {
    options = options;
    index = record { flows = []; flowlist = []; freelist = []; heap = λ p. blank; next_ptr = 0 };
    stats = record { packets = 0; flows = 0; max_flows = 0 };
    context = new_context 0;
    flow_id = 0;
    window = 0;
    sink = sink;
    id = id;
    fivetuple = fivetuple;
    eof = false;
    expiring = false;
    fault = false;
  }

  -- Expiry order waits until all flows have expired; the other orders send what leads the list.
  unfoldable pub flush_after_expiry : FlowTable r → FlowTable r
  flush_after_expiry tab = elim tab.options.sort_output [
    | sort_none ↦ tab
    | expiry_time ↦ record tab { sink = r.flush_all_exports tab.sink }
    | _ ↦ record tab { sink = r.flush_exports tab.sink }
  ]

  unfoldable pub flush_after_event : FlowTable r → FlowTable r
  flush_after_event tab = elim tab.options.sort_output [
    | start_time ↦ record tab { sink = r.flush_exports tab.sink }
    | stop_time ↦ record tab { sink = r.flush_exports tab.sink }
    | _ ↦ tab
  ]

  unfoldable pub flush_at_eof : FlowTable r → FlowTable r
  flush_at_eof tab = elim tab.options.sort_output [
    | sort_none ↦ tab
    | _ ↦ record tab { sink = r.flush_all_exports tab.sink }
  ]

  -- Timers run only once the next event of the flow is past.
  unfoldable pub expire_if_past : ℕ → ℕ → FlowTable r → FlowTable r
  expire_if_past p when tab =
      if ltb (flow_at tab p).expire_next when then expire_flow p when tab else tab

  -- The body of Expire's loop, for the slot that holds `entry`.
  abbrev pub expire_entry : Option (Option ℕ) → ℕ → FlowTable r → FlowTable r
  expire_entry (some (some p)) when tab = expire_if_past p when tab
  expire_entry _ when tab = tab

  -- The loop of Expire: the slots from `i` on, read as the loop reaches them.
  unfoldable pub expire_slots : ℕ → ℕ → ℕ → FlowTable r → FlowTable r
  expire_slots zero i when tab = tab
  expire_slots (suc n) i when tab =
      expire_slots n (suc i) when (expire_entry (get_elem? tab.index.flowlist i) when tab)

  unfoldable pub expire_all : ℕ → FlowTable r → FlowTable r
  expire_all when tab =
      let started = record tab { context = record tab.context { when = when }; expiring = true } in
      let expired = expire_slots (length tab.index.flowlist) 0 when started in
      flush_after_expiry (record expired { expiring = false })

  -- What EOF does with one flow.
  unfoldable pub finish_flow : ℕ → FlowTable r × EventContext → FlowTable r × EventContext
  finish_flow p (tab, context) =
      let context = init_flow p context in
      let expired = expire_if_past p context.when tab in
      if (flow_at expired p).active then flow_eof p context expired else (expired, context)

  -- What expireWindow does with one flow.
  unfoldable pub end_flow : ℕ → ℕ → FlowTable r × EventContext → FlowTable r × EventContext
  end_flow now p (tab, context) =
      let expired = expire_if_past p now tab in
      if (flow_at expired p).active then export p ended context now expired else (expired, context)

  -- The loops of EOF and expireWindow, in which no flow leaves the list.
  unfoldable pub finish_slots :
      (ℕ → FlowTable r × EventContext → FlowTable r × EventContext)
      → List (Option ℕ)
      → FlowTable r × EventContext
      → FlowTable r × EventContext
  finish_slots body [] s = s
  finish_slots body (none ∷ slots) s = finish_slots body slots s
  finish_slots body (some p ∷ slots) s = finish_slots body slots (body p s)

  -- All keys, slots and free slots are dropped.
  unfoldable pub emptied : FlowTable r → FlowTable r
  emptied tab = record tab {
    index = record tab.index { flows = []; flowlist = []; freelist = [] };
    expiring = false;
    eof = false;
  }

  unfoldable pub eof : ℕ → FlowTable r → FlowTable r
  eof now tab =
      let started = record tab { expiring = true; eof = true } in
      let (finished, _) = finish_slots finish_flow tab.index.flowlist (started, new_context now) in
      flush_at_eof (emptied finished)

  unfoldable pub expire_window : FlowTable r → FlowTable r
  expire_window tab =
      let started = record tab { expiring = true; eof = true } in
      let (ended_all, context) =
        finish_slots (end_flow tab.context.when) tab.index.flowlist (started, tab.context) in
      flush_after_expiry (emptied (record ended_all { context = context }))

  -- A new flow for the key of the event, in the table and counted.
  unfoldable pub settle : Event r.Packet → FlowTable r → FlowTable r × EventContext
  settle event tab =
      let (made, context) =
        new_flow event event.key event.low_to_high tab.context tab.flow_id tab in
      let index = place event.key tab.index.next_ptr made.index in
      let counted = length index.flows in
      let stats = record made.stats {
        flows = add64 made.stats.flows 1;
        max_flows = if ltb made.stats.max_flows counted then counted else made.stats.max_flows;
      } in
      (record made { index = index; flow_id = add64 made.flow_id 1; stats = stats }, context)

  -- The end of Event where no flow of the table took it.
  unfoldable pub create : Event r.Packet → FlowTable r → FlowTable r
  create event tab =
      let (settled, context) = settle event tab in
      let (handled, after) =
        flow_event tab.index.next_ptr event (record context { forward = true }) settled in
      record handled { context = after }

  -- Event for a flow that the table has: timers first, and then the event if the flow is still
  -- active, or a new flow.
  unfoldable pub handle : ℕ → Event r.Packet → FlowTable r → FlowTable r
  handle p event tab =
      let expired = expire_if_past p event.timestamp tab in
      let flow = flow_at expired p in
      let ok = if ltb (flow_at tab p).expire_next event.timestamp then flow.active else true in
      let forward = same_direction event.low_to_high flow.first_forward in
      let (handled, after) =
        flow_event p event (record expired.context { forward = forward }) expired in
      if ok then record handled { context = after } else create event expired

  -- Event for the slot that the key leads to; an index out of range is a fault.
  abbrev pub deliver_slot : Option (Option ℕ) → Event r.Packet → FlowTable r → FlowTable r
  deliver_slot none event tab = record tab { fault = true }
  deliver_slot (some none) event tab = create event tab
  deliver_slot (some (some p)) event tab = handle p event tab

  abbrev pub deliver_at : Option ℕ → Event r.Packet → FlowTable r → FlowTable r
  deliver_at none event tab = create event tab
  deliver_at (some i) event tab = deliver_slot (get_elem? tab.index.flowlist i) event tab

  -- Event, after the window.
  unfoldable pub deliver : Event r.Packet → FlowTable r → FlowTable r
  deliver event tab = deliver_at (lookup event.key tab.index.flows) event tab

  unfoldable pub open_window : Event r.Packet → FlowTable r → FlowTable r
  open_window event tab =
      if tab.options.window_expiry
      then (if event.window == tab.window
          then tab
          else (record (expire_window tab) { window = event.window }))
      else tab

  unfoldable pub event : Event r.Packet → FlowTable r → FlowTable r
  event ev tab =
      let started = record tab {
        stats = record tab.stats { packets = add64 tab.stats.packets 1 };
        context = record tab.context { when = ev.timestamp };
      } in
      flush_after_event (deliver ev (open_window ev started))
