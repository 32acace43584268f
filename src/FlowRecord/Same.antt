-- ===== src/FlowRecord/Same.antt =====
-- flows/record.go: the calls of features change neither the export record nor whether a record is active.
use go_flows.Shared.{
  ℕ, ◌≡◌, refl, ◌∙◌, Bool, true, false, List, [], ◌∷◌, not, ◌&&◌, ◌||◌, if◌then◌else◌,
}
use go_flows.EventContext.{EventContext, FlowEndReason}
use go_flows.FlowTable.State.{Event}
use go_flows.FlowRecord.State.{Features, Control, Run, upto, apply, each}
use go_flows.FlowRecord.Control.{set_active, set_alive, stop_filters, stop_controls, stop}
use go_flows.FlowRecord.Event.{stopped, export_now, restart_now, control_events}

module _ {f : Features} where
  -- What never changes of a record.
  abbrev pub shape : Run f → Control × ℕ
  shape w = (w.rec.control, w.rec.size)

  -- The exports, the export record and the activity are the same.
  unfoldable pub Same : Run f → Run f → Type 0
  Same w v =
      (v.out ≡ w.out)
      × (v.rec.export ≡ w.rec.export)
      × (v.rec.active ≡ w.rec.active)
      × (shape v ≡ shape w)

  pub Same-trans : (u v w : Run f) → Same u v → Same v w → Same u w
  unfolding Same
  Same-trans u v w (a, b, c, d) (a', b', c', d') = (a' ∙ a, b' ∙ b, c' ∙ c, d' ∙ d)

  pub Same-refl : (w : Run f) → Same w w
  unfolding Same
  Same-refl w = (refl, refl, refl, refl)

  Same-if :
      {B : Type 0} (w : Run f) (b : Bool) (u v : B × Run f)
      → Same w u.1
      → Same w v.1
      → Same w (if b then u else v).1
  Same-if w true u v p q = p
  Same-if w false u v p q = q

  Same-or : (w : Run f) (b : Bool) (u v : Run f) → Same w u → Same w v → Same w (if b then u else v)
  Same-or w true u v p q = p
  Same-or w false u v p q = q

  apply-Same :
      (g : EventContext → f.State → EventContext × f.State) (w : Run f) → Same w (apply g w)
  unfolding Same
  apply-Same g w = (refl, refl, refl, refl)

  pub set_alive-Same : (b : Bool) (w v : Run f) → Same w v → Same w (set_alive b v)
  unfolding Same
  set_alive-Same b w v h = h

  pub context-Same : (c : EventContext) (w v : Run f) → Same (record w { context = c }) v → Same w v
  unfolding Same
  context-Same c w v h = h

  pub each-Same :
      (g : ℕ → EventContext → f.State → EventContext × f.State) (is : List ℕ) (w : Run f)
      → Same w (each g is w)
  unfolding each
  each-Same g [] w = Same-refl w
  each-Same g (i ∷ is) w =
      Same-trans w (apply (g i) w) (each g is (apply (g i) w)) (apply-Same (g i) w)
        (each-Same g is (apply (g i) w))

  pub control_events-Same :
      (ev : Event f.Packet) (is : List ℕ) (w : Run f) → Same w (control_events ev is w).1
  unfolding control_events
  control_events-Same ev [] w = Same-refl w
  control_events-Same ev (i ∷ is) w =
      let w1 = apply (f.event i ev) w in
      let one = apply-Same (f.event i ev) w in
      let rest = control_events ev is w1 in
      let more = Same-trans w w1 rest.1 one (control_events-Same ev is w1) in
      let third = if w1.context.restart then (restart_now, w1) else rest in
      let second = if w1.context.export then (export_now, w1) else third in
      let first = if not w1.context.now then rest else second in
      Same-if w w1.context.stop (stopped, w1) first one
        (Same-if w (not w1.context.now) rest second more (
          Same-if w w1.context.export (export_now, w1) third one
            (Same-if w w1.context.restart (restart_now, w1) rest one more)))

  stop_filters-Same :
      (reason : FlowEndReason) (is : List ℕ) (w : Run f) → Same w (stop_filters reason is w).1
  unfolding stop_filters
  stop_filters-Same reason [] w = Same-refl w
  stop_filters-Same reason (i ∷ is) w =
      let w1 = apply (f.filter_stop i reason) w in
      let b = (w1.context.keep || w1.rec.alive) && not w1.context.hard in
      let w2 = set_alive b w1 in
      let one = set_alive-Same b w w1 (apply-Same (f.filter_stop i reason) w) in
      let rest = stop_filters reason is w2 in
      Same-if w b (true, w2) rest one (Same-trans w w2 rest.1 one (stop_filters-Same reason is w2))

  stop_controls-Same :
      (reason : FlowEndReason) (is : List ℕ) (w : Run f) → Same w (stop_controls reason is w).1
  unfolding stop_controls
  stop_controls-Same reason [] w = Same-refl w
  stop_controls-Same reason (i ∷ is) w =
      let w0 = record w { context = record w.context { stop = false } } in
      let w1 = apply (f.stop i reason) w0 in
      let one = context-Same w0.context w w1 (apply-Same (f.stop i reason) w0) in
      let rest = stop_controls reason is w1 in
      Same-if w w1.context.stop (true, w1) rest one
        (Same-trans w w1 rest.1 one (stop_controls-Same reason is w1))

  -- stop makes the record inactive, and changes nothing else of these.
  pub stop-Same : (reason : FlowEndReason) (w : Run f) → Same (set_active false w) (stop reason w)
  unfolding stop
  stop-Same reason w =
      let u = set_active false w in
      let w0 = set_alive false u in
      let r1 = stop_filters reason (upto w0.rec.filters) w0 in
      let w1 = r1.1 in
      let r2 = stop_controls reason w1.rec.control.control w1 in
      let w2 = r2.1 in
      let w3 = each (λ i. f.stop i reason) (upto w2.rec.size) w2 in
      let a =
        Same-trans u w0 w1 (set_alive-Same false u u (Same-refl u))
          (stop_filters-Same reason (upto w0.rec.filters) w0) in
      let b = Same-trans u w1 w2 a (stop_controls-Same reason w1.rec.control.control w1) in
      Same-or u r1.0 w1 (if r2.0 then w2 else w3) a (
        Same-or u r2.0 w2 w3 b
          (Same-trans u w2 w3 b (each-Same (λ i. f.stop i reason) (upto w2.rec.size) w2)))
