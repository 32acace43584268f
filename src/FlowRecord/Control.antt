-- ===== src/FlowRecord/Control.antt =====
-- flows/record.go: start, stop, and Export of a record.
use go_flows.Shared.{ℕ, Bool, true, false, List, [], ◌∷◌, if◌then◌else◌, ◌&&◌, ◌||◌, not}
use go_flows.EventContext.{SortType, FlowEndReason}
use go_flows.FlowTable.State.{Event}
use go_flows.FlowRecord.State.{Features, Run, upto, apply, each}
use go_flows.FlowRecord.Exports.{sorts, new_export, emit}

module _ {f : Features} where
  abbrev pub set_active : Bool → Run f → Run f
  set_active b w = record w { rec = record w.rec { active = b } }

  abbrev pub set_alive : Bool → Run f → Run f
  set_alive b w = record w { rec = record w.rec { alive = b } }

  unfoldable pub start : SortType → Bool → Event f.Packet → ℕ → Run f → Run f
  start sort expiring ev id w =
      let w1 = set_active true w in
      let w2 = each f.start (upto w1.rec.size) w1 in
      let w3 = each f.finish_event w2.rec.control.event w2 in
      if sorts sort then new_export sort expiring ev id w3 else w3

  -- The filters are stopped; `true` is a return.
  unfoldable pub stop_filters : FlowEndReason → List ℕ → Run f → Bool × Run f
  stop_filters reason [] w = (false, w)
  stop_filters reason (i ∷ is) w =
      let w1 = apply (f.filter_stop i reason) w in
      let b = (w1.context.keep || w1.rec.alive) && not w1.context.hard in
      let rest = stop_filters reason is (set_alive b w1) in
      if b then (true, set_alive b w1) else rest

  -- The control features are stopped; `true` is a return.
  unfoldable pub stop_controls : FlowEndReason → List ℕ → Run f → Bool × Run f
  stop_controls reason [] w = (false, w)
  stop_controls reason (i ∷ is) w =
      let w1 = apply (f.stop i reason) (record w { context = record w.context { stop = false } }) in
      let rest = stop_controls reason is w1 in if w1.context.stop then (true, w1) else rest

  unfoldable pub stop : FlowEndReason → Run f → Run f
  stop reason w =
      let w0 = set_alive false (set_active false w) in
      let (kept, w1) = stop_filters reason (upto w0.rec.filters) w0 in
      let (cancelled, w2) = stop_controls reason w1.rec.control.control w1 in
      if kept
      then w1
      else if cancelled
      then w2
      else each (λ i. f.stop i reason) (upto w2.rec.size) w2

  unfoldable pub export : SortType → Bool → FlowEndReason → ℕ → ℕ → Run f → Run f
  export sort expiring reason now id w =
      let stopped = stop reason w in
      if not w.rec.active
      then w
      else if stopped.context.stop
      then set_alive false stopped
      else emit sort expiring now id stopped

  abbrev pub is_active : Run f → Bool
  is_active w = w.rec.active || w.rec.alive
