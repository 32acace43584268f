-- ===== src/FlowTable/Timeliness.antt =====
-- flows/flow.go and flows/table.go: `expireNext` is never later than a pending timer of its flow,
-- so the test of the table misses no timer.
use go_flows.Shared.{
  ℕ, ◌≤◌, sym, subst, ◌≢◌, false, not, Option, none, some, List, [], ◌∷◌, arith, ◌==◌, ltb,
  if◌then◌else◌, if_both,
}
use go_flows.Timer.{FuncEntry, expires_at, expire, expire_from, is_due, next_after, invoke}
use go_flows.Timer.Update.{expires_at-add_timer}
use go_flows.Timer.Expire.{expire_lem}
use go_flows.EventContext.{EventContext, FlowEndReason, init_flow}
use go_flows.FlowTable.State.{
  add64, TcpFlags, Event, Records, Callback, idle_event, active_event, Handshake, Kind, uni, tcp,
  Flow, FlowTable,
}
use go_flows.FlowTable.Flow.{
  timer_idle, flow_at, put_flow, update, remove, remove_key, retire, stop, update_self,
  flow_add_timer, export, export_without_context, callback, expire_flow, base_event,
}
use go_flows.FlowTable.Tcp.{advance, closed, tcp_event, dispatch, flow_event}
use go_flows.FlowTable.Table.{expire_if_past}

-- A pending timer of the flow is not before its `expire_next`, which is then set.
abbrev pub IsTimely : {R : Type 0} → Flow R → Type 0
IsTimely f =
    (i : ℕ)
    → expires_at f.timers i ≢ 0
    → (f.expire_next ≢ 0) × (f.expire_next ≤ expires_at f.timers i)

flow_add_timer-IsTimely :
    {R : Type 0} (id : ℕ) (c : Callback) (when : ℕ) (f : Flow R)
    → when ≢ 0
    → IsTimely f
    → IsTimely (flow_add_timer id c when f)
unfolding flow_add_timer
flow_add_timer-IsTimely id c when f h timely i =
    ground (arith, timely i, expires_at-add_timer id i c when f.timers)

write-AllTimely :
    {R : Type 0} (p : ℕ) (f : Flow R) (h : ℕ → Flow R)
    → IsTimely f
    → ((q : ℕ) → IsTimely (h q))
    → (q : ℕ) → IsTimely (update h p f q)
write-AllTimely p f h new old q = if_both IsTimely (q == p) f (h q) (λ same. new) (λ other. old q)

module _ {r : Records} where
  abbrev pub AllTimely : FlowTable r → Type 0
  AllTimely t = (q : ℕ) → IsTimely (flow_at t q)

  remove-AllTimely : (p : ℕ) (s : FlowTable r) → AllTimely s → AllTimely (remove p s)
  unfolding remove remove_key
  remove-AllTimely p s h = if_both AllTimely s.eof _ _ (λ closing. h) (λ running. h)

  stop-AllTimely : (p : ℕ) (s : FlowTable r) → AllTimely s → AllTimely (stop p s)
  unfolding stop retire
  stop-AllTimely p s h =
      let (rec, sink) = r.destroy (flow_at s p).records s.sink in
      let f = record (flow_at s p) { records = rec } in
      let destroyed : FlowTable r = record (put_flow p f s) { sink = sink } in
      let removed = remove-AllTimely p destroyed (write-AllTimely p f s.index.heap (h p) h) in
      write-AllTimely p (record (flow_at (remove p destroyed) p) { active = false }) _ (removed p)
        removed

  export-AllTimely :
      (p : ℕ) (reason : FlowEndReason) (context : EventContext) (now : ℕ) (s : FlowTable r)
      → AllTimely s
      → AllTimely (export p reason context now s).0
  unfolding export
  export-AllTimely p reason context now s h =
      if_both (λ (t : FlowTable r × EventContext). AllTimely t.0) (flow_at s p).active _ _
        (λ on. stop-AllTimely p _ (write-AllTimely p _ s.index.heap (h p) h)) (λ off. h)

  invoke-AllTimely :
      (p when expires : ℕ) (f : Option Callback) (s : FlowTable r)
      → AllTimely s
      → AllTimely (invoke (callback p) f expires when s)
  unfolding callback export_without_context
  invoke-AllTimely p when expires none s h = h
  invoke-AllTimely p when expires (some idle_event) s h = export-AllTimely p _ _ when s h
  invoke-AllTimely p when expires (some active_event) s h = export-AllTimely p _ _ when s h

  expire_from-AllTimely :
      (p when next : ℕ) (fep : List (FuncEntry Callback)) (s : FlowTable r)
      → AllTimely s
      → AllTimely (expire_from (callback p) when next fep s).2
  unfolding expire_from
  expire_from-AllTimely p when next [] s h = h
  expire_from-AllTimely p when next (e ∷ fep) s h =
      expire_from-AllTimely p when (next_after when next e.expires) fep _ (
        if_both AllTimely (is_due when e.expires) _ _
          (λ due. invoke-AllTimely p when e.expires e.function s h) (λ waits. h))

  pub expire_if_past-AllTimely :
      (p when : ℕ) (s : FlowTable r) → AllTimely s → AllTimely (expire_if_past p when s)
  unfolding expire_if_past expire_flow expire
  expire_if_past-AllTimely p when s h =
      if_both AllTimely (ltb (flow_at s p).expire_next when) _ _
        (λ past.
          if_both AllTimely ((flow_at s p).expire_next == 0) _ _ (λ never. h)
            (λ pending.
              write-AllTimely p _ _ (expire_lem (callback p) when (flow_at s p).timers s).2.lower
                (expire_from-AllTimely p when 0 (flow_at s p).timers s h)))
        (λ waits. h)

  -- No timer is missed: if the time of the next event of every flow is no later than any of its
  -- pending timers, then once the table has run the timers of a flow for a time, where it does,
  -- no pending timer of the flow is before that time.
  pub expire_if_past-none_missed :
      (p when : ℕ) (s : FlowTable r)
      → AllTimely s
      → (i : ℕ) → expires_at (flow_at (expire_if_past p when s) p).timers i ≢ 0
      → when ≤ expires_at (flow_at (expire_if_past p when s) p).timers i
  unfolding expire_if_past expire_flow
  expire_if_past-none_missed p when s h i =
      if_both
        (λ (t : FlowTable r).
          expires_at (flow_at t p).timers i ≢ 0 → when ≤ expires_at (flow_at t p).timers i)
        (ltb (flow_at s p).expire_next when) _ _
        (λ past.
          if_both
            (λ (t : FlowTable r).
              expires_at (flow_at t p).timers i ≢ 0 → when ≤ expires_at (flow_at t p).timers i)
            ((flow_at s p).expire_next == 0) _ _
            (λ never pending. absurd (ground (arith, h p i pending))) (λ set_timer. left_over))
        (λ waits pending. ground (arith, h p i pending))
    where
      ran : List (FuncEntry Callback) × ℕ × FlowTable r
      ran = expire (callback p) when (flow_at s p).timers s

      f : Flow r.Record
      f = record (flow_at ran.2 p) { timers = ran.0; expire_next = ran.1 }

      left_over :
          expires_at (update ran.2.index.heap p f p).timers i ≢ 0
          → when ≤ expires_at (update ran.2.index.heap p f p).timers i
      left_over =
          subst (λ (g : Flow r.Record). expires_at g.timers i ≢ 0 → when ≤ expires_at g.timers i)
            (sym (update_self ran.2.index.heap p f))
            (λ pending. ground (arith, (expire_lem (callback p) when (flow_at s p).timers s).1 i))

  base_event-AllTimely :
      (p : ℕ) (event : Event r.Packet) (context : EventContext) (s : FlowTable r)
      → add64 context.when s.options.idle_timeout ≢ 0
      → AllTimely s
      → AllTimely (base_event p event context s).0
  unfolding base_event init_flow
  base_event-AllTimely p event context s nonzero h =
      if_both (λ (t : FlowTable r × EventContext). AllTimely t.0) (not (r.is_active result.0)) _ _
        (λ over. stop-AllTimely p seen wrote)
        λ goes_on.
          if_both (λ (t : FlowTable r × EventContext). AllTimely t.0) s.options.per_packet _ _
            (λ single. export-AllTimely p _ result.2 result.2.when seen wrote) (λ shared. wrote)
    where
      timed : Flow r.Record
      timed =
          flow_add_timer timer_idle idle_event (add64 context.when s.options.idle_timeout)
            (flow_at s p)

      flow : Flow r.Record
      flow = if s.options.idle_timeout == 0 then flow_at s p else timed

      flow-IsTimely : IsTimely flow
      flow-IsTimely =
          if_both IsTimely (s.options.idle_timeout == 0) (flow_at s p) timed (λ off. h p)
            (λ on. flow_add_timer-IsTimely timer_idle idle_event _ (flow_at s p) nonzero (h p))

      result : r.Record × r.Sink × EventContext
      result =
          r.event event (init_flow p context) s.options.sort_output s.expiring flow.records s.sink

      seen : FlowTable r
      seen = record (put_flow p (record flow { records = result.0 }) s) { sink = result.1 }

      wrote : AllTimely seen
      wrote = write-AllTimely p (record flow { records = result.0 }) s.index.heap flow-IsTimely h

  tcp_event-AllTimely :
      (p : ℕ) (hs : Handshake) (flags : Option TcpFlags) (context : EventContext) (s : FlowTable r)
      → AllTimely s
      → AllTimely (tcp_event p hs flags context s).0
  unfolding tcp_event
  tcp_event-AllTimely p hs none context s h = h
  tcp_event-AllTimely p hs (some flags) context s h =
      if_both (λ (t : FlowTable r × EventContext). AllTimely t.0) flags.rst _ _
        (λ reset. export-AllTimely p _ context context.when s h)
        λ goes_on.
          if_both (λ (t : FlowTable r × EventContext). AllTimely t.0)
            (closed (advance context.forward flags hs)) _ _
            (λ done.
              export-AllTimely p _ context context.when _
                (write-AllTimely p _ s.index.heap (h p) h))
            (λ half. write-AllTimely p _ s.index.heap (h p) h)

  dispatch-AllTimely :
      (p : ℕ) (kind : Kind) (event : Event r.Packet) (s : FlowTable r) (context : EventContext)
      → AllTimely s
      → AllTimely (dispatch p kind event (s, context)).0
  unfolding dispatch
  dispatch-AllTimely p uni event s context h = h
  dispatch-AllTimely p (tcp hs) event s context h =
      if_both (λ (t : FlowTable r × EventContext). AllTimely t.0) (flow_at s p).active _ _
        (λ on. tcp_event-AllTimely p hs event.tcp context s h) (λ off. h)

  -- An event of a flow keeps the time of the next event of every flow no later than any of its
  -- pending timers, if the idle timeout after the event is not at time 0 by wrap-around.
  pub flow_event-AllTimely :
      (p : ℕ) (event : Event r.Packet) (context : EventContext) (s : FlowTable r)
      → add64 context.when s.options.idle_timeout ≢ 0
      → AllTimely s
      → AllTimely (flow_event p event context s).0
  unfolding flow_event
  flow_event-AllTimely p event context s nonzero h =
      dispatch-AllTimely p (flow_at s p).kind event _ (base_event p event context s).1
        (base_event-AllTimely p event context s nonzero h)
