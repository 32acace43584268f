-- ===== src/FlowTable/Runs.antt =====
-- flows/table.go: what a program does with a table, from NewFlowTable on, and what an event leaves
-- alone.
use go_flows.Shared.{ℕ, ◌≡◌, refl, ap, Bool, true, false, List, [], ◌∷◌, arith, lookup}
use go_flows.FlowTable.State.{Event, Records, FlowOptions, Flow, FlowTable}
use go_flows.FlowTable.Flow.{flow_at}
use go_flows.FlowTable.Table.{new_flow_table, event, expire_all, eof}
use go_flows.FlowTable.Evolution.{IsWell}
use go_flows.FlowTable.Closing.{eof-IsCleared}
use go_flows.FlowTable.Steps.{event-IsWell, expire_all-IsWell}

-- The calls that the packet tables make.
pub data Call (Packet : Type 0) : Type 0 where
  on_event : Event Packet → Call Packet
  on_expire : ℕ → Call Packet
  on_eof : ℕ → Call Packet

module _ {r : Records} where
  unfoldable pub run : List (Call r.Packet) → FlowTable r → FlowTable r
  run [] s = s
  run (on_event ev ∷ calls) s = run calls (event ev s)
  run (on_expire when ∷ calls) s = run calls (expire_all when s)
  run (on_eof now ∷ calls) s = run calls (eof now s)

  new_flow_table-IsWell :
      (sink : r.Sink) (blank : Flow r.Record) (options : FlowOptions) (fivetuple : Bool) (id : ℕ)
      → blank.active ≡ false
      → IsWell (new_flow_table {r = r} sink blank options fivetuple id)
  unfolding new_flow_table lookup
  new_flow_table-IsWell sink blank options fivetuple id off = record {
    indexed = record {
      live = λ k i e. absurd (cc);
      slot = λ i p e. absurd (cc);
      placed = λ p on. absurd (cc off);
      free = tt;
      distinct = tt;
    };
    running = refl;
  }

  run-IsWell : (calls : List (Call r.Packet)) (s : FlowTable r) → IsWell s → IsWell (run calls s)
  unfolding run
  run-IsWell [] s v = v
  run-IsWell (on_event ev ∷ calls) s v = run-IsWell calls _ (event-IsWell ev s v)
  run-IsWell (on_expire when ∷ calls) s v = run-IsWell calls _ (expire_all-IsWell when s v)
  run-IsWell (on_eof now ∷ calls) s v = run-IsWell calls _ (eof-IsCleared now s v).0

  -- Whatever the calls of Event, Expire and EOF, in whatever order, a table that NewFlowTable made
  -- is well formed after them, if unallocated memory holds no active flow.
  pub run-new_flow_table-IsWell :
      (sink : r.Sink) (blank : Flow r.Record) (options : FlowOptions) (fivetuple : Bool) (id : ℕ)
      (calls : List (Call r.Packet))
      → blank.active ≡ false
      → IsWell (run calls (new_flow_table {r = r} sink blank options fivetuple id))
  run-new_flow_table-IsWell sink blank options fivetuple id calls off =
      run-IsWell calls _ (new_flow_table-IsWell sink blank options fivetuple id off)

  -- Two active flows of a well formed table have different keys.
  pub IsWell-distinct_keys :
      (s : FlowTable r) (p q : ℕ)
      → IsWell s
      → (flow_at s p).active ≡ true
      → (flow_at s q).active ≡ true
      → (flow_at s p).key ≡ (flow_at s q).key
      → p ≡ q
  IsWell-distinct_keys s p q v on on' same =
      let (i, held) = v.indexed.placed p on in
      let (j, held') = v.indexed.placed q on' in
      let (found, _, _) = v.indexed.slot i p held in
      let (found', _, _) = v.indexed.slot j q held' in
      ground (arith, ap (λ k. lookup k s.index.flows) same, held, held', found, found')
