-- ===== src/FlowRecord/Safety.antt =====
-- flows/record.go: a record whose output is sorted has an export record whenever it uses it.
use go_flows.Shared.{
  ℕ, zero, suc, sym, ap, ◌∙◌, subst, Bool, Option, none, some, if◌then◌else◌, if_both,
}
use go_flows.EventContext.{SortType, FlowEndReason}
use go_flows.FlowTable.State.{Event}
use go_flows.FlowRecord.State.{Features, Exports, Run, each}
use go_flows.FlowRecord.Exports.{moves, move_export, move_export_at}
use go_flows.FlowRecord.Control.{start, stop, export}
use go_flows.FlowRecord.Event.{
  Verdict, go_on, stopped, export_now, restart_now, control_events, after_event, feature_events,
  begin_event, proceed, filtered_event,
}
use go_flows.FlowRecord.Same.{Same, Same-trans, each-Same, control_events-Same, stop-Same}
use go_flows.FlowRecord.Ready.{
  moves-sorts, Ready, Ready-Same, idle-Ready, push_export-fault, Same-active, Ready-fault, Started,
  start-Started, begin_event-Started, export-Ready,
}

module _ {f : Features} (sort : SortType) where
  move_export-Ready :
      (expiring : Bool) (ev : Event f.Packet) (id : ℕ) (w : Run f)
      → Started sort w
      → Ready sort (move_export sort expiring ev id w)
  unfolding move_export Ready
  move_export-Ready expiring ev id w ((h, k), on) =
      if_both (Ready sort) (moves sort) (move_export_at sort expiring ev id w.rec.export w) w
        (λ m.
          let (e, i) = k on (moves-sorts sort m) in
          subst (λ o. Ready sort (move_export_at sort expiring ev id o w)) (sym i)
            (push_export-fault sort expiring id e _ ∙ h, λ _ _. (e, i)))
        (λ _. (h, k))

  after_event-Ready :
      (expiring : Bool) (ev : Event f.Packet) (id : ℕ) (w : Run f)
      → Ready sort w
      → Ready sort (after_event sort expiring ev id w)
  unfolding after_event
  after_event-Ready expiring ev id w h =
      let w1 =
        if w.context.export then export sort expiring w.context.reason w.context.when id w else w in
      let h1 : Ready sort w1 =
        if_both (Ready sort) w.context.export
          (export sort expiring w.context.reason w.context.when id w) w
          (λ _. export-Ready sort expiring w.context.reason w.context.when id w h) (λ _. h) in
      if_both (Ready sort) w.context.now w
        (if w1.context.restart then start sort expiring ev id w1 else w1) (λ _. h)
        (λ _.
          if_both (Ready sort) w1.context.restart (start sort expiring ev id w1) w1
            (λ _. (start-Started sort expiring ev id w1 (Ready-fault sort w1 h1)).0) (λ _. h1))

  Started-Same : (w v : Run f) → Same w v → Started sort w → Started sort v
  Started-Same w v h (r, on) = (Ready-Same sort w v h r, Same-active sort w v h ∙ on)

  feature_events-Ready :
      (expiring : Bool) (ev : Event f.Packet) (id : ℕ) (w : Run f)
      → Started sort w
      → Ready sort (feature_events sort expiring ev id w)
  unfolding feature_events
  feature_events-Ready expiring ev id w h =
      let w1 = each (λ i. f.event i ev) w.rec.control.event w in
      let w2 = each f.finish_event w1.rec.control.event w1 in
      let same =
        Same-trans w w1 w2 (each-Same (λ i. f.event i ev) w.rec.control.event w)
          (each-Same f.finish_event w1.rec.control.event w1) in
      after_event-Ready expiring ev id (move_export sort expiring ev id w2)
        (move_export-Ready expiring ev id w2 (Started-Same w w2 same h))

  stop-Ready : (reason : FlowEndReason) (w : Run f) → Ready sort w → Ready sort (stop reason w)
  unfolding Same Ready
  stop-Ready reason w (h, k) =
      let (out, kept, off, _) = stop-Same reason w in
      idle-Ready sort (stop reason w) (ap (λ (t : Exports f). t.fault) out ∙ h) off

  -- What a run returns is ready.
  abbrev pub Returns : Option (Run f) → Type 0
  Returns none = Unit
  Returns (some v) = Ready sort v

  proceed-Ready :
      (expiring : Bool) (restart : Run f → Option (Run f)) (ev : Event f.Packet) (id : ℕ)
      (v : Verdict) (w : Run f)
      → Started sort w
      → ((u : Run f) → Ready sort u → Returns (restart u))
      → Returns (proceed sort expiring restart ev id v w)
  proceed-Ready expiring restart ev id go_on w h k = feature_events-Ready expiring ev id w h
  proceed-Ready expiring restart ev id stopped w h k = stop-Ready w.context.reason w h.0
  proceed-Ready expiring restart ev id export_now w h k =
      k _ (export-Ready sort expiring w.context.reason w.context.when id w h.0)
  proceed-Ready expiring restart ev id restart_now w h k =
      k _ (start-Started sort expiring ev id w (Ready-fault sort w h.0)).0

  -- filteredEvent, whatever the features do: from a record that is ready it uses no nil export record,
  -- and it leaves one that is ready, however often the event happens again.
  pub filtered_event-Ready :
      (expiring : Bool) (n : ℕ) (ev : Event f.Packet) (id : ℕ) (w : Run f)
      → Ready sort w
      → Returns (filtered_event sort expiring n ev id w)
  unfolding filtered_event
  filtered_event-Ready expiring zero ev id w h = tt
  filtered_event-Ready expiring (suc n) ev id w h =
      let b = begin_event sort expiring ev id w in
      let r = control_events ev b.rec.control.control b in
      proceed-Ready expiring (filtered_event sort expiring n ev id) ev id r.0 r.1
        (Started-Same b r.1 (control_events-Same ev b.rec.control.control b)
          (begin_event-Started sort expiring ev id w h))
        (filtered_event-Ready expiring n ev id)
