-- ===== src/FlowTable/Closing.antt =====
-- flows/table.go: EOF and expireWindow. While a table closes, flows stay in the list but lose
-- their activity.
use go_flows.Shared.{
  ℕ, zero, suc, ◌≡◌, refl, sym, ap, subst, ◌∙◌, inl, inr, lookup, ◌≢◌, true, false, Option, none,
  some, List, [], ◌∷◌, arith, ◌==◌, Bool-cases, if_both, get_elem?, ltb,
}
use go_flows.Timer.{FuncEntry, expire, expire_from, is_due, next_after, called, invoke}
use go_flows.EventContext.{EventContext, FlowEndReason, new_context, init_flow}
use go_flows.FlowTable.State.{Records, Callback, idle_event, active_event, Flow, Index, FlowTable}
use go_flows.FlowTable.Flow.{
  flow_at, put_flow, remove, remove_key, retire, stop, export, export_without_context, callback,
  expire_flow, flow_eof,
}
use go_flows.FlowTable.Table.{
  expire_if_past, finish_flow, end_flow, finish_slots, emptied, flush_at_eof, flush_after_expiry,
  eof, expire_window,
}
use go_flows.FlowTable.Invariant.{IsIndexed}
use go_flows.FlowTable.Evolution.{IsWell}

-- What a method of the flow at `p` leaves alone, whether the table is closing or not.
pub record Local {r : Records} (p : ℕ) (s t : FlowTable r) : Type 0 where
  pub same_eof : t.eof ≡ s.eof
  pub same_options : t.options ≡ s.options
  pub others : (q : ℕ) → q ≢ p → flow_at t q ≡ flow_at s q

module _ {r : Records} where
  Local-refl : (p : ℕ) (s : FlowTable r) → Local p s s
  Local-refl p s = record { same_eof = refl; same_options = refl; others = λ q h. refl }

  Local-trans : (p : ℕ) (s t u : FlowTable r) → Local p s t → Local p t u → Local p s u
  Local-trans p s t u a b = record {
    same_eof = b.same_eof ∙ a.same_eof;
    same_options = b.same_options ∙ a.same_options;
    others = λ q h. b.others q h ∙ a.others q h;
  }

  write-Local :
      (p : ℕ) (f : Flow r.Record) (sink : r.Sink) (s : FlowTable r)
      → Local p s (record (put_flow p f s) { sink = sink })
  write-Local p f sink s = record {
    same_eof = refl;
    same_options = refl;
    others = λ q h. ground arith;
  }

  remove-Local : (p : ℕ) (s : FlowTable r) → Local p s (remove p s)
  unfolding remove remove_key
  remove-Local p s =
      if_both (Local p s) s.eof _ _ (λ closing. Local-refl p s)
        (λ running. record { same_eof = refl; same_options = refl; others = λ q h. refl })

  stop-Local :
      (p : ℕ) (s : FlowTable r) → Local p s (stop p s) × ((flow_at (stop p s) p).active ≡ false)
  unfolding stop retire
  stop-Local p s =
      let (rec, sink) = r.destroy (flow_at s p).records s.sink in
      let f = record (flow_at s p) { records = rec } in
      let destroyed : FlowTable r = record (put_flow p f s) { sink = sink } in
      let removed = remove p destroyed in
      (
        Local-trans p s destroyed _ (write-Local p f sink s) (
            Local-trans p destroyed removed _ (remove-Local p destroyed)
              (write-Local p (record (flow_at removed p) { active = false }) removed.sink removed)),
        ground arith,
      )

  export-Local :
      (p : ℕ) (reason : FlowEndReason) (context : EventContext) (now : ℕ) (s : FlowTable r)
      → Local p s (export p reason context now s).0
        × ((flow_at (export p reason context now s).0 p).active ≡ false)
  unfolding export
  export-Local p reason context now s =
      if_both (λ (t : FlowTable r × EventContext). Local p s t.0 × ((flow_at t.0 p).active ≡ false))
        (flow_at s p).active _ _
        (λ on.
          let (rec, sink, after) =
            r.export reason (record context { hard = true }) now s.options.sort_output s.expiring
              (flow_at s p).records s.sink in
          let f = record (flow_at s p) { records = rec } in
          let exported : FlowTable r = record (put_flow p f s) { sink = sink } in
          let (out, off) = stop-Local p exported in
          (Local-trans p s exported _ (write-Local p f sink s) out, off))
        (λ off. (Local-refl p s, off))

  invoke-Local :
      (p when expires : ℕ) (f : Option Callback) (s : FlowTable r)
      → Local p s (invoke (callback p) f expires when s)
  unfolding callback export_without_context
  invoke-Local p when expires none s = Local-refl p s
  invoke-Local p when expires (some idle_event) s = (export-Local p _ _ when s).0
  invoke-Local p when expires (some active_event) s = (export-Local p _ _ when s).0

  expire_from-Local :
      (p when next : ℕ) (fep : List (FuncEntry Callback)) (s : FlowTable r)
      → Local p s (expire_from (callback p) when next fep s).2
  unfolding expire_from
  expire_from-Local p when next [] s = Local-refl p s
  expire_from-Local p when next (e ∷ fep) s =
      Local-trans p s (called (callback p) when e s) _
        (if_both (Local p s) (is_due when e.expires) _ _
          (λ due. invoke-Local p when e.expires e.function s) (λ waits. Local-refl p s))
        (expire_from-Local p when (next_after when next e.expires) fep _)

  pub expire_if_past-Local : (p when : ℕ) (s : FlowTable r) → Local p s (expire_if_past p when s)
  unfolding expire_if_past expire_flow expire
  expire_if_past-Local p when s =
      if_both (Local p s) (ltb (flow_at s p).expire_next when) _ _
        (λ past.
          if_both (Local p s) ((flow_at s p).expire_next == 0) _ _ (λ never. Local-refl p s)
            λ pending.
              let (fep, next, after) = expire (callback p) when (flow_at s p).timers s in
              let f = record (flow_at after p) { timers = fep; expire_next = next } in
              Local-trans p s after _ (expire_from-Local p when 0 (flow_at s p).timers s)
                (write-Local p f after.sink after))
        (λ waits. Local-refl p s)

  -- A body of a closing loop ends its flow and touches no other.
  abbrev Ends : (ℕ → FlowTable r × EventContext → FlowTable r × EventContext) → Type 0
  Ends body =
      (p : ℕ) (s : FlowTable r) (context : EventContext)
      → Local p s (body p (s, context)).0 × ((flow_at (body p (s, context)).0 p).active ≡ false)

  -- A second step on the same flow.
  after-Local :
      (p : ℕ) (s t u : FlowTable r)
      → Local p s t
      → Local p t u × ((flow_at u p).active ≡ false)
      → Local p s u × ((flow_at u p).active ≡ false)
  after-Local p s t u a b = (Local-trans p s t u a b.0, b.1)

  finish_flow-Ends : Ends finish_flow
  unfolding finish_flow flow_eof init_flow
  finish_flow-Ends p s context =
      let past = expire_if_past-Local p context.when s in
      let t = expire_if_past p context.when s in
      if_both (λ (u : FlowTable r × EventContext). Local p s u.0 × ((flow_at u.0 p).active ≡ false))
        (flow_at t p).active _ _ (λ on. after-Local p s t _ past (export-Local p _ _ _ t))
        (λ off. (past, off))

  end_flow-Ends : (now : ℕ) → Ends (end_flow now)
  unfolding end_flow
  end_flow-Ends now p s context =
      let past = expire_if_past-Local p now s in
      let t = expire_if_past p now s in
      if_both (λ (u : FlowTable r × EventContext). Local p s u.0 × ((flow_at u.0 p).active ≡ false))
        (flow_at t p).active _ _ (λ on. after-Local p s t _ past (export-Local p _ _ _ t))
        (λ off. (past, off))

  -- A closing loop over all slots that hold an active flow leaves none active.
  finish_slots-inactive :
      (body : ℕ → FlowTable r × EventContext → FlowTable r × EventContext)
      → Ends body
      → (slots : List (Option ℕ)) (s : FlowTable r) (context : EventContext)
      → ((q : ℕ) → (flow_at s q).active ≡ true → (i : ℕ) × (get_elem? slots i ≡ some (some q)))
      → (q : ℕ) → (flow_at (finish_slots body slots (s, context)).0 q).active ≡ false
  unfolding finish_slots
  finish_slots-inactive body ends [] s context held q = elim (Bool-cases (flow_at s q).active) [
    | inl on ↦ absurd (ground (arith, held q on))
    | inr off ↦ off
  ]
  finish_slots-inactive body ends (none ∷ slots) s context held q =
      finish_slots-inactive body ends slots s context (λ p on. later p (held p on)) q
    where
      later :
          (p : ℕ)
          → (i : ℕ) × (get_elem? (none ∷ slots) i ≡ some (some p))
          → (i : ℕ) × (get_elem? slots i ≡ some (some p))
      later p (zero, e) = absurd (cc)
      later p (suc i, e) = (i, e)
  finish_slots-inactive body ends (some p ∷ slots) s context held q =
      finish_slots-inactive body ends slots (body p (s, context)).0 (body p (s, context)).1
        (λ o on. later o on) q
    where
      t : FlowTable r
      t = (body p (s, context)).0

      other : (o : ℕ) → (flow_at t o).active ≡ true → o ≢ p
      other o on same = ground (arith, ends p s context, ap (flow_at t) same)

      search_rest :
          (o : ℕ)
          → o ≢ p
          → (i : ℕ) × (get_elem? (some p ∷ slots) i ≡ some (some o))
          → (i : ℕ) × (get_elem? slots i ≡ some (some o))
      search_rest o ne (zero, e) = absurd (ground (arith, ne))
      search_rest o ne (suc i, e) = (i, e)

      later : (o : ℕ) → (flow_at t o).active ≡ true → (i : ℕ) × (get_elem? slots i ≡ some (some o))
      later o on =
          let ne = other o on in
          search_rest o ne (
            held o
              (ap (λ (f : Flow r.Record). f.active) (sym ((ends p s context).0.others o ne)) ∙ on))

  -- An emptied table in which no flow is active is well formed.
  emptied-IsWell : (s : FlowTable r) → ((q : ℕ) → (flow_at s q).active ≡ false) → IsWell (emptied s)
  unfolding emptied lookup
  emptied-IsWell s off = record {
    indexed = record {
      live = λ k i e. absurd (cc);
      slot = λ i p e. absurd (cc);
      placed = λ p on. absurd (cc (off p));
      free = tt;
      distinct = tt;
    };
    running = refl;
  }

  flush_at_eof-keeps :
      (s : FlowTable r)
      → ((flush_at_eof s).index ≡ s.index)
        × ((flush_at_eof s).eof ≡ s.eof)
        × ((flush_at_eof s).options ≡ s.options)
  unfolding flush_at_eof
  flush_at_eof-keeps s = ground arith

  pub flush_after_expiry-keeps :
      (s : FlowTable r)
      → ((flush_after_expiry s).index ≡ s.index)
        × ((flush_after_expiry s).eof ≡ s.eof)
        × ((flush_after_expiry s).options ≡ s.options)
  unfolding flush_after_expiry
  flush_after_expiry-keeps s = ground arith

  -- A step that leaves the index and `eof` as they are.
  pub keeps-IsWell : (s t : FlowTable r) → t.index ≡ s.index → t.eof ≡ s.eof → IsWell s → IsWell t
  keeps-IsWell s t same_index same_eof v = record {
    indexed = subst IsIndexed (sym same_index) v.indexed;
    running = same_eof ∙ v.running;
  }

  -- Closing a table, for EOF and for the end of a window.
  closed-IsWell :
      (body : ℕ → FlowTable r × EventContext → FlowTable r × EventContext)
      → Ends body
      → (s : FlowTable r) (context : EventContext) → IsIndexed s.index
      → (q : ℕ) → (flow_at (finish_slots body s.index.flowlist (s, context)).0 q).active ≡ false
  closed-IsWell body ends s context v =
      finish_slots-inactive body ends s.index.flowlist s context v.placed

  -- No key and no active flow is left.
  abbrev pub IsCleared : FlowTable r → Type 0
  IsCleared t = IsWell t × (t.index.flows ≡ []) × ((q : ℕ) → (flow_at t q).active ≡ false)

  emptied-IsCleared :
      (s t : FlowTable r)
      → ((q : ℕ) → (flow_at s q).active ≡ false)
      → t.index ≡ (emptied s).index
      → t.eof ≡ (emptied s).eof
      → IsCleared t
  unfolding emptied
  emptied-IsCleared s t off same_index same_eof = (
    keeps-IsWell (emptied s) t same_index same_eof (emptied-IsWell s off),
    ap (λ (x : Index r.Record). x.flows) same_index,
    λ q. ap (λ (x : Index r.Record). (x.heap q).active) same_index ∙ off q,
  )

  -- EOF ends every flow of a well formed table, and leaves a well formed table without keys.
  pub eof-IsCleared : (now : ℕ) (s : FlowTable r) → IsWell s → IsCleared (eof now s)
  unfolding eof
  eof-IsCleared now s v =
      let started : FlowTable r = record s { expiring = true; eof = true } in
      let t = (finish_slots finish_flow s.index.flowlist (started, new_context now)).0 in
      let (same_index, same_eof, _) = flush_at_eof-keeps (emptied t) in
      emptied-IsCleared t _
        (closed-IsWell finish_flow finish_flow-Ends started (new_context now) v.indexed) same_index
        same_eof

  -- The end of a window ends every flow of a well formed table, and leaves a well formed table
  -- without keys.
  pub expire_window-IsCleared : (s : FlowTable r) → IsWell s → IsCleared (expire_window s)
  unfolding expire_window
  expire_window-IsCleared s v =
      let started : FlowTable r = record s { expiring = true; eof = true } in
      let body = end_flow s.context.when in
      let t = (finish_slots body s.index.flowlist (started, s.context)).0 in
      let context = (finish_slots body s.index.flowlist (started, s.context)).1 in
      let (same_index, same_eof, _) =
        flush_after_expiry-keeps (emptied (record t { context = context })) in
      emptied-IsCleared (record t { context = context }) _
        (closed-IsWell body (end_flow-Ends s.context.when) started s.context v.indexed) same_index
        same_eof
