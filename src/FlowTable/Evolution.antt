-- ===== src/FlowTable/Evolution.antt =====
-- flows/flow.go and packet/flow.go: what the methods of one flow may do to its table.
use go_flows.Shared.{
  ℕ, ◌<◌, ◌≡◌, refl, ◌∙◌, ◌≢◌, inl, inr, true, false, not, Option, none, some, List, [], ◌∷◌, arith,
  ◌==◌, if◌then◌else◌, Bool-cases, if_both, length, get_elem?, get_elem?-set, set, Key, lookup,
  delete, lookup-delete, lt_length-get_elem?,
}
use go_flows.Timer.{FuncEntry, expire, expire_from, is_due, next_after, called, invoke}
use go_flows.EventContext.{EventContext, FlowEndReason, init_flow}
use go_flows.FlowTable.State.{
  add64, TcpFlags, Event, Records, Callback, idle_event, active_event, Handshake, Kind, uni, tcp,
  Flow, FlowTable,
}
use go_flows.FlowTable.Flow.{
  flow_at, put_flow, remove_key, remove, retire, stop, export, export_without_context, callback,
  expire_flow, flow_add_timer, base_event, timer_idle,
}
use go_flows.FlowTable.Tcp.{advance, closed, tcp_event, dispatch, flow_event}
use go_flows.FlowTable.Invariant.{IsIndexed, update-IsIndexed, drop-IsIndexed}

-- A table between two calls.
pub record IsWell {r : Records} (t : FlowTable r) : Type 0 where
  pub indexed : IsIndexed t.index
  pub running : t.eof ≡ false

-- What a method of the flow at `p` may do: the index stays well formed, no other flow is touched,
-- keys stay, and keys and slots can only be lost.
pub record Evolves {r : Records} (p : ℕ) (s t : FlowTable r) : Type 0 where
  pub well : IsWell t
  pub options : t.options ≡ s.options
  pub others : (q : ℕ) → q ≢ p → flow_at t q ≡ flow_at s q
  pub key : (flow_at t p).key ≡ (flow_at s p).key
  pub lookup_back :
      (k : Key) (i : ℕ) → lookup k t.index.flows ≡ some i → lookup k s.index.flows ≡ some i
  pub slot_back :
      (i q : ℕ)
      → get_elem? t.index.flowlist i ≡ some (some q)
      → get_elem? s.index.flowlist i ≡ some (some q)

module _ {r : Records} where
  pub Evolves-refl : (p : ℕ) (s : FlowTable r) → IsWell s → Evolves p s s
  Evolves-refl p s v = record {
    well = v;
    options = refl;
    others = λ q h. refl;
    key = refl;
    lookup_back = λ k i h. h;
    slot_back = λ i q h. h;
  }

  pub Evolves-trans : (p : ℕ) (s t u : FlowTable r) → Evolves p s t → Evolves p t u → Evolves p s u
  Evolves-trans p s t u a b = record {
    well = b.well;
    options = b.options ∙ a.options;
    others = λ q h. b.others q h ∙ a.others q h;
    key = b.key ∙ a.key;
    lookup_back = λ k i h. a.lookup_back k i (b.lookup_back k i h);
    slot_back = λ i q h. a.slot_back i q (b.slot_back i q h);
  }

  -- A write to the flow that keeps its key and activity, with a new sink.
  write-Evolves :
      (p : ℕ) (f : Flow r.Record) (sink : r.Sink) (s : FlowTable r)
      → f.key ≡ (flow_at s p).key
      → f.active ≡ (flow_at s p).active
      → IsWell s
      → Evolves p s (record (put_flow p f s) { sink = sink })
  write-Evolves p f sink s hk ha v = record {
    well = record { indexed = update-IsIndexed s.index p f hk ha v.indexed; running = v.running };
    options = refl;
    others = λ q h. ground arith;
    key = ground arith;
    lookup_back = λ k i h. h;
    slot_back = λ i q h. h;
  }

  remove_lem :
      (p i : ℕ) (s : FlowTable r)
      → s.eof ≡ false
      → lookup (flow_at s p).key s.index.flows ≡ some i
      → i < length s.index.flowlist
      → remove p s ≡ (record s {
        index = record s.index {
          flowlist = set s.index.flowlist i none;
          freelist = i ∷ s.index.freelist;
          flows = delete (flow_at s p).key s.index.flows;
        };
      })
  unfolding remove remove_key
  remove_lem p i s open_table found inside = ground arith

  -- What is left of the slots and keys was there before.
  retire-Evolves :
      (p : ℕ) (s : FlowTable r)
      → (flow_at s p).active ≡ true
      → IsWell s
      → Evolves p s (retire p s) × ((flow_at (retire p s) p).active ≡ false)
  unfolding retire
  retire-Evolves p s on v =
      let (i, held) = v.indexed.placed p on in
      let inside = lt_length-get_elem? s.index.flowlist i held in
      let gone = record (flow_at s p) { active = false } in
      rw (remove_lem p i s v.running (v.indexed.slot i p held).0 inside) (
        record {
          well = record {
            indexed = drop-IsIndexed s.index p i gone refl held v.indexed;
            running = v.running;
          };
          options = refl;
          others = λ q h. ground arith;
          key = ground arith;
          lookup_back = λ k j h. ground (arith, lookup-delete (flow_at s p).key k s.index.flows);
          slot_back = λ j q h. ground (arith, get_elem?-set s.index.flowlist i j none inside);
        },
        ground arith,
      )

  -- Stop takes an active flow out of the table.
  pub stop-Evolves :
      (p : ℕ) (s : FlowTable r)
      → (flow_at s p).active ≡ true
      → IsWell s
      → Evolves p s (stop p s) × ((flow_at (stop p s) p).active ≡ false)
  unfolding stop
  stop-Evolves p s on v =
      let (rec, sink) = r.destroy (flow_at s p).records s.sink in
      let wrote = write-Evolves p (record (flow_at s p) { records = rec }) sink s refl refl v in
      let (out, off) = retire-Evolves p _ (ground arith) wrote.well in
      (Evolves-trans p s _ _ wrote out, off)

  -- After Export the flow is not active, whether it was or not.
  pub export-Evolves :
      (p : ℕ) (reason : FlowEndReason) (context : EventContext) (now : ℕ) (s : FlowTable r)
      → IsWell s
      → Evolves p s (export p reason context now s).0
        × ((flow_at (export p reason context now s).0 p).active ≡ false)
  unfolding export
  export-Evolves p reason context now s v =
      if_both
        (λ (t : FlowTable r × EventContext). Evolves p s t.0 × ((flow_at t.0 p).active ≡ false))
        (flow_at s p).active _ _ ended (λ off. (Evolves-refl p s v, off))
    where
      result : r.Record × r.Sink × EventContext
      result =
          r.export reason (record context { hard = true }) now s.options.sort_output s.expiring
            (flow_at s p).records s.sink

      exported : FlowTable r
      exported = record (put_flow p (record (flow_at s p) { records = result.0 }) s) {
        sink = result.1;
      }

      ended :
          (flow_at s p).active ≡ true
          → Evolves p s (stop p exported) × ((flow_at (stop p exported) p).active ≡ false)
      ended on =
          let wrote =
            write-Evolves p (record (flow_at s p) { records = result.0 }) result.1 s refl refl v in
          let (out, off) = stop-Evolves p exported (ground arith) wrote.well in
          (Evolves-trans p s exported _ wrote out, off)

  callback-Evolves :
      (p : ℕ) (f : Callback) (expires now : ℕ) (s : FlowTable r)
      → IsWell s
      → Evolves p s (callback p f expires now s)
  unfolding callback export_without_context
  callback-Evolves p idle_event expires now s v = (export-Evolves p _ _ now s v).0
  callback-Evolves p active_event expires now s v = (export-Evolves p _ _ now s v).0

  invoke-Evolves :
      (p when expires : ℕ) (f : Option Callback) (s : FlowTable r)
      → IsWell s
      → Evolves p s (invoke (callback p) f expires when s)
  invoke-Evolves p when expires none s v = Evolves-refl p s v
  invoke-Evolves p when expires (some f) s v = callback-Evolves p f expires when s v

  expire_from-Evolves :
      (p when next : ℕ) (fep : List (FuncEntry Callback)) (s : FlowTable r)
      → IsWell s
      → Evolves p s (expire_from (callback p) when next fep s).2
  unfolding expire_from
  expire_from-Evolves p when next [] s v = Evolves-refl p s v
  expire_from-Evolves p when next (e ∷ fep) s v = Evolves-trans p s _ _ ran (
      expire_from-Evolves p when (next_after when next e.expires) fep (called (callback p) when e s)
        ran.well)
    where
      ran : Evolves p s (called (callback p) when e s)
      ran = elim (Bool-cases (is_due when e.expires)) [
        | inl due ↦ rw due (invoke-Evolves p when e.expires e.function s v)
        | inr waits ↦ rw waits (Evolves-refl p s v)
      ]

  pub expire_flow-Evolves :
      (p when : ℕ) (s : FlowTable r) → IsWell s → Evolves p s (expire_flow p when s)
  unfolding expire_flow expire
  expire_flow-Evolves p when s v =
      if_both (Evolves p s) ((flow_at s p).expire_next == 0) _ _ (λ never. Evolves-refl p s v)
        λ pending.
          let (fep, next, after) = expire (callback p) when (flow_at s p).timers s in
          let ran = expire_from-Evolves p when 0 (flow_at s p).timers s v in
          let f = record (flow_at after p) { timers = fep; expire_next = next } in
          Evolves-trans p s after _ ran (write-Evolves p f after.sink after refl refl ran.well)

  -- BaseFlow.Event of an active flow.
  base_event-Evolves :
      (p : ℕ) (event : Event r.Packet) (context : EventContext) (s : FlowTable r)
      → (flow_at s p).active ≡ true
      → IsWell s
      → Evolves p s (base_event p event context s).0
  unfolding base_event flow_add_timer init_flow
  base_event-Evolves p event context s on v =
      if_both (λ (t : FlowTable r × EventContext). Evolves p s t.0) (not (r.is_active result.0)) _ _
        (λ over. Evolves-trans p s seen _ wrote (stop-Evolves p seen still wrote.well).0)
        λ goes_on.
          if_both (λ (t : FlowTable r × EventContext). Evolves p s t.0) s.options.per_packet _ _
            (λ single.
              Evolves-trans p s seen _ wrote
                (export-Evolves p _ result.2 result.2.when seen wrote.well).0)
            (λ shared. wrote)
    where
      flow : Flow r.Record
      flow =
          if s.options.idle_timeout == 0
          then flow_at s p
          else flow_add_timer timer_idle idle_event (add64 context.when s.options.idle_timeout)
              (flow_at s p)

      flow-kept : (flow.key ≡ (flow_at s p).key) × (flow.active ≡ (flow_at s p).active)
      flow-kept = ground arith

      result : r.Record × r.Sink × EventContext
      result =
          r.event event (init_flow p context) s.options.sort_output s.expiring flow.records s.sink

      seen : FlowTable r
      seen = record (put_flow p (record flow { records = result.0 }) s) { sink = result.1 }

      wrote : Evolves p s seen
      wrote =
          write-Evolves p (record flow { records = result.0 }) result.1 s flow-kept.0 flow-kept.1 v

      still : (flow_at seen p).active ≡ true
      still = ground (arith, flow-kept)

  tcp_event-Evolves :
      (p : ℕ) (h : Handshake) (flags : Option TcpFlags) (context : EventContext) (s : FlowTable r)
      → IsWell s
      → Evolves p s (tcp_event p h flags context s).0
  unfolding tcp_event
  tcp_event-Evolves p h none context s v = record {
    well = record { indexed = v.indexed; running = v.running };
    options = refl;
    others = λ q ne. refl;
    key = refl;
    lookup_back = λ k i e. e;
    slot_back = λ i q e. e;
  }
  tcp_event-Evolves p h (some flags) context s v =
      if_both (λ (t : FlowTable r × EventContext). Evolves p s t.0) flags.rst _ _
        (λ reset. (export-Evolves p _ context context.when s v).0)
        λ goes_on.
          if_both (λ (t : FlowTable r × EventContext). Evolves p s t.0) (closed h') _ _
            (λ done.
              Evolves-trans p s seen _ wrote
                (export-Evolves p _ context context.when seen wrote.well).0)
            (λ half. wrote)
    where
      h' : Handshake
      h' = advance context.forward flags h

      seen : FlowTable r
      seen = put_flow p (record (flow_at s p) { kind = tcp h' }) s

      wrote : Evolves p s seen
      wrote = write-Evolves p (record (flow_at s p) { kind = tcp h' }) s.sink s refl refl v

  dispatch-Evolves :
      (p : ℕ) (kind : Kind) (event : Event r.Packet) (s : FlowTable r) (context : EventContext)
      → IsWell s
      → Evolves p s (dispatch p kind event (s, context)).0
  unfolding dispatch
  dispatch-Evolves p uni event s context v = Evolves-refl p s v
  dispatch-Evolves p (tcp h) event s context v =
      if_both (λ (t : FlowTable r × EventContext). Evolves p s t.0) (flow_at s p).active _ _
        (λ on. tcp_event-Evolves p h event.tcp context s v) (λ off. Evolves-refl p s v)

  pub flow_event-Evolves :
      (p : ℕ) (event : Event r.Packet) (context : EventContext) (s : FlowTable r)
      → (flow_at s p).active ≡ true
      → IsWell s
      → Evolves p s (flow_event p event context s).0
  unfolding flow_event
  flow_event-Evolves p event context s on v =
      let seen = base_event-Evolves p event context s on v in
      Evolves-trans p s _ _ seen
        (dispatch-Evolves p (flow_at s p).kind event _ (base_event p event context s).1 seen.well)
