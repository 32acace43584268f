-- ===== src/FlowTable/Steps.antt =====
-- flows/table.go: Event and Expire keep a table well formed.
use go_flows.Shared.{
  ℕ, zero, suc, ◌+◌, ◌≡◌, sym, ap, subst, ◌∙◌, inl, inr, Bool, true, false, Option, none, some,
  arith, ◌==◌, ltb, if◌then◌else◌, Option-cases, if_both, length, get_elem?, lookup, Key,
}
use go_flows.EventContext.{EventContext}
use go_flows.FlowTable.State.{add64, Event, Records, Flow, Index, FlowTable, Kind}
use go_flows.FlowTable.Flow.{flow_at, update_self, init, fresh_flow, flow_add_timer}
use go_flows.FlowTable.Tcp.{new_flow, new_kind}
use go_flows.FlowTable.Table.{
  place, place_at, settle, expire_if_past, expire_entry, expire_slots, expire_all,
  flush_after_event, create, same_direction, handle, deliver, deliver_at, deliver_slot, open_window,
  event,
}
use go_flows.FlowTable.Invariant.{place-IsIndexed}
use go_flows.FlowTable.Evolution.{
  IsWell, Evolves, Evolves-refl, expire_flow-Evolves, flow_event-Evolves,
}
use go_flows.FlowTable.Closing.{expire_window-IsCleared, flush_after_expiry-keeps, keeps-IsWell}

place-heap : {R : Type 0} (key : Key) (p : ℕ) (x : Index R) → (place key p x).heap ≡ x.heap
unfolding place place_at
place-heap key p x = ground arith

place-active :
    {R : Type 0} (key : Key) (p : ℕ) (x : Index R) (f : Flow R)
    → x.heap p ≡ f
    → f.active ≡ true
    → ((place key p x).heap p).active ≡ true
place-active {R} key p x f e on = ap (λ (h : ℕ → Flow R). (h p).active) (place-heap key p x) ∙ cc

module _ {r : Records} where
  expire_if_past-Evolves :
      (p when : ℕ) (s : FlowTable r) → IsWell s → Evolves p s (expire_if_past p when s)
  unfolding expire_if_past
  expire_if_past-Evolves p when s v =
      if_both (Evolves p s) (ltb (flow_at s p).expire_next when) _ _
        (λ past. expire_flow-Evolves p when s v) (λ waits. Evolves-refl p s v)

  fresh_flow-fields :
      (kind : Kind) (key : Key) (forward : Bool) (context : EventContext) (id : ℕ) (s : FlowTable r)
      → ((fresh_flow kind key forward context id s).key ≡ key)
        × ((fresh_flow kind key forward context id s).active ≡ true)
  unfolding fresh_flow flow_add_timer
  fresh_flow-fields kind key forward context id s = ground arith

  -- The new flow is in the table.
  settle-IsWell :
      (ev : Event r.Packet) (s : FlowTable r)
      → lookup ev.key s.index.flows ≡ none
      → IsWell s
      → IsWell (settle ev s).0 × ((flow_at (settle ev s).0 s.index.next_ptr).active ≡ true)
  unfolding settle new_flow init
  settle-IsWell ev s new v =
      let p = s.index.next_ptr in
      let allocated : FlowTable r = record s { index = record s.index { next_ptr = p + 1 } } in
      let f = fresh_flow (new_kind ev s) ev.key ev.low_to_high s.context s.flow_id allocated in
      let (named, on) =
        fresh_flow-fields (new_kind ev s) ev.key ev.low_to_high s.context s.flow_id allocated in
      (
        record {
          indexed = place-IsIndexed s.index ev.key f named on new v.indexed;
          running = v.running;
        },
        place-active ev.key p _ f (update_self s.index.heap p f) on,
      )

  create-IsWell :
      (ev : Event r.Packet) (s : FlowTable r)
      → lookup ev.key s.index.flows ≡ none
      → IsWell s
      → IsWell (create ev s)
  unfolding create
  create-IsWell ev s new v =
      let (settled, on) = settle-IsWell ev s new v in
      let context = record (settle ev s).1 { forward = true } in
      let seen = flow_event-Evolves s.index.next_ptr ev context (settle ev s).0 on settled in
      record { indexed = seen.well.indexed; running = seen.well.running }

  -- A flow that timers took out of the table has left its key free.
  expired_key :
      (p i : ℕ) (ev : Event r.Packet) (s t : FlowTable r)
      → lookup ev.key s.index.flows ≡ some i
      → get_elem? s.index.flowlist i ≡ some (some p)
      → Evolves p s t
      → (flow_at t p).active ≡ false
      → lookup ev.key t.index.flows ≡ none
  expired_key p i ev s t found held step off = elim (Option-cases (lookup ev.key t.index.flows)) [
    | inl gone ↦ gone
    | inr (j, there) ↦
        let (q, slot, named) = step.well.indexed.live ev.key j there in
        absurd (
          ground (
            arith,
            step.lookup_back ev.key j there,
            step.slot_back j q slot,
            step.well.indexed.slot j q slot,
          ))
  ]

  handle-IsWell :
      (p i : ℕ) (ev : Event r.Packet) (s : FlowTable r)
      → lookup ev.key s.index.flows ≡ some i
      → get_elem? s.index.flowlist i ≡ some (some p)
      → IsWell s
      → IsWell (handle p ev s)
  unfolding handle expire_if_past
  handle-IsWell p i ev s found held v =
      if_both IsWell (if past then (flow_at t p).active else true) _ _
        (λ ok.
          let seen = flow_event-Evolves p ev context t (alive ok) step.well in
          record { indexed = seen.well.indexed; running = seen.well.running })
        (λ over. create-IsWell ev t (expired_key p i ev s t found held step (ended over)) step.well)
    where
      past : Bool
      past = ltb (flow_at s p).expire_next ev.timestamp

      t : FlowTable r
      t = expire_if_past p ev.timestamp s

      step : Evolves p s t
      step = expire_if_past-Evolves p ev.timestamp s v

      context : EventContext
      context = record t.context {
        forward = same_direction ev.low_to_high (flow_at t p).first_forward;
      }

      alive : (if past then (flow_at t p).active else true) ≡ true → (flow_at t p).active ≡ true
      alive ok = ground (arith, v.indexed.slot i p held)

      ended : (if past then (flow_at t p).active else true) ≡ false → (flow_at t p).active ≡ false
      ended over = ground arith

  deliver-IsWell : (ev : Event r.Packet) (s : FlowTable r) → IsWell s → IsWell (deliver ev s)
  unfolding deliver
  deliver-IsWell ev s v = elim (Option-cases (lookup ev.key s.index.flows)) [
    | inl missing ↦
        subst (λ o. IsWell (deliver_at o ev s)) (sym missing) (create-IsWell ev s missing v)
    | inr (i, found) ↦
        let (p, held, _) = v.indexed.live ev.key i found in
        subst (λ o. IsWell (deliver_at o ev s)) (sym found)
          (subst (λ o. IsWell (deliver_slot o ev s)) (sym held)
            (handle-IsWell p i ev s found held v))
  ]

  open_window-IsWell :
      (ev : Event r.Packet) (s : FlowTable r) → IsWell s → IsWell (open_window ev s)
  unfolding open_window
  open_window-IsWell ev s v =
      if_both IsWell s.options.window_expiry _ _
        (λ windows.
          if_both IsWell (ev.window == s.window) _ _ (λ same. v)
            (λ new.
              let w = (expire_window-IsCleared s v).0 in
              record { indexed = w.indexed; running = w.running }))
        (λ none_set. v)

  flush_after_event-keeps :
      (s : FlowTable r)
      → ((flush_after_event s).index ≡ s.index) × ((flush_after_event s).eof ≡ s.eof)
  unfolding flush_after_event
  flush_after_event-keeps s = ground arith

  -- Event keeps a table well formed: whatever the event does to its own flow (timers, export, a
  -- closed connection, a new flow in a used or a new slot, a new window), each key still leads to
  -- one active flow of that key, each active flow is in one slot and is found under its key, and
  -- the free slots are empty and distinct.
  pub event-IsWell : (ev : Event r.Packet) (s : FlowTable r) → IsWell s → IsWell (event ev s)
  unfolding event
  event-IsWell ev s v =
      let started : FlowTable r = record s {
        stats = record s.stats { packets = add64 s.stats.packets 1 };
        context = record s.context { when = ev.timestamp };
      } in
      let opened =
        open_window-IsWell ev started (record { indexed = v.indexed; running = v.running }) in
      let t = deliver ev (open_window ev started) in
      let (same_index, same_eof) = flush_after_event-keeps t in
      keeps-IsWell t _ same_index same_eof (deliver-IsWell ev _ opened)

  expire_entry-IsWell :
      (entry : Option (Option ℕ)) (when : ℕ) (s : FlowTable r)
      → IsWell s
      → IsWell (expire_entry entry when s)
  expire_entry-IsWell none when s v = v
  expire_entry-IsWell (some none) when s v = v
  expire_entry-IsWell (some (some p)) when s v = (expire_if_past-Evolves p when s v).well

  expire_slots-IsWell :
      (n i when : ℕ) (s : FlowTable r) → IsWell s → IsWell (expire_slots n i when s)
  unfolding expire_slots
  expire_slots-IsWell zero i when s v = v
  expire_slots-IsWell (suc n) i when s v =
      expire_slots-IsWell n (suc i) when (expire_entry (get_elem? s.index.flowlist i) when s)
        (expire_entry-IsWell (get_elem? s.index.flowlist i) when s v)

  -- Expire keeps a table well formed.
  pub expire_all-IsWell : (when : ℕ) (s : FlowTable r) → IsWell s → IsWell (expire_all when s)
  unfolding expire_all
  expire_all-IsWell when s v =
      let started : FlowTable r = record s {
        context = record s.context { when = when };
        expiring = true;
      } in
      let t = expire_slots (length s.index.flowlist) 0 when started in
      let done =
        expire_slots-IsWell (length s.index.flowlist) 0 when started
          (record { indexed = v.indexed; running = v.running }) in
      let (same_index, same_eof, _) = flush_after_expiry-keeps (record t { expiring = false }) in
      keeps-IsWell (record t { expiring = false }) _ same_index same_eof
        (record { indexed = done.indexed; running = done.running })
