-- ===== src/FlowRecord/Event.antt =====
-- flows/record.go: an event of a record, and lists of records. `none` is fuel that ran out: control
-- features can ask for an event to happen again without end.
use go_flows.Shared.{
  ℕ, zero, suc, Bool, true, Option, none, some, List, [], ◌∷◌, if◌then◌else◌, ◌-◌, not,
}
use go_flows.EventContext.{SortType, clear}
use go_flows.FlowTable.State.{Event}
use go_flows.FlowRecord.State.{Features, FlowRecord, Exports, Run, upto, apply, each}
use go_flows.FlowRecord.Exports.{move_export, unlink_export}
use go_flows.FlowRecord.Control.{start, stop, export, set_alive}

-- How the loop over the control features ends.
pub data Verdict : Type 0 where
  go_on stopped export_now restart_now : Verdict

module _ {f : Features} where
  -- The loop over the control features.
  unfoldable pub control_events : Event f.Packet → List ℕ → Run f → Verdict × Run f
  control_events ev [] w = (go_on, w)
  control_events ev (i ∷ is) w =
      let w1 = apply (f.event i ev) w in
      let rest = control_events ev is w1 in
      if w1.context.stop
      then (stopped, w1)
      else if not w1.context.now
      then rest
      else if w1.context.export
      then (export_now, w1)
      else if w1.context.restart
      then (restart_now, w1)
      else rest

  module _ (sort : SortType) (expiring : Bool) where
    -- `if !context.now`, at the end of filteredEvent.
    unfoldable pub after_event : Event f.Packet → ℕ → Run f → Run f
    after_event ev id w =
        let w1 =
          if w.context.export
          then export sort expiring w.context.reason w.context.when id w
          else w in
        if w.context.now then w else if w1.context.restart then start sort expiring ev id w1 else w1

    -- filteredEvent after the loop over the control features.
    unfoldable pub feature_events : Event f.Packet → ℕ → Run f → Run f
    feature_events ev id w =
        let w1 = each (λ i. f.event i ev) w.rec.control.event w in
        let w2 = each f.finish_event w1.rec.control.event w1 in
        after_event ev id (move_export sort expiring ev id w2)

    -- The lines from RESTART to the loop.
    unfoldable pub begin_event : Event f.Packet → ℕ → Run f → Run f
    begin_event ev id w =
        let w1 = if w.rec.active then w else start sort expiring ev id w in
        record w1 { context = clear w1.context }

    -- What follows the loop; `restart` is `goto RESTART`.
    abbrev pub proceed :
        (Run f → Option (Run f)) → Event f.Packet → ℕ → Verdict → Run f → Option (Run f)
    proceed restart ev id go_on w = some (feature_events ev id w)
    proceed restart ev id stopped w = some (stop w.context.reason w)
    proceed restart ev id export_now w =
        restart (export sort expiring w.context.reason w.context.when id w)
    proceed restart ev id restart_now w = restart (start sort expiring ev id w)

    unfoldable pub filtered_event : ℕ → Event f.Packet → ℕ → Run f → Option (Run f)
    filtered_event zero ev id w = none
    filtered_event (suc n) ev id w =
        let begun = begin_event ev id w in
        let (verdict, w1) = control_events ev begun.rec.control.control begun in
        proceed (filtered_event n ev id) ev id verdict w1

    -- `filter_event i next` is what the filter `i` does with an event: it may change what the filters
    -- hold and the context, and hand events on to `next`, as often as it likes.
    module _
        (filter_event : ℕ
          → (Event f.Packet → Run f → Option (Run f))
          → Event f.Packet
          → Run f
          → Option (Run f)) where
      -- `context.event` with the last `k` filters still to come.
      unfoldable pub filter_chain : ℕ → ℕ → ℕ → Event f.Packet → Run f → Option (Run f)
      filter_chain n id zero ev w = filtered_event n ev id w
      filter_chain n id (suc k) ev w =
          filter_event (w.rec.filters - suc k) (filter_chain n id k) ev w

      -- Event, for the number of filters.
      abbrev pub event_through : ℕ → ℕ → Event f.Packet → ℕ → Run f → Option (Run f)
      event_through zero n ev id w = filtered_event n ev id w
      event_through (suc k) n ev id w =
          let started =
            if w.rec.alive then w else set_alive true (each f.filter_start (upto (suc k)) w) in
          filter_chain n id (suc k) ev started

      unfoldable pub record_event : ℕ → Event f.Packet → ℕ → Run f → Option (Run f)
      record_event n ev id w = event_through w.rec.filters n ev id w

  -- `Destroy` of one record.
  unfoldable pub destroy : FlowRecord f → Exports f → Exports f
  destroy r t = unlink_export r.export t
