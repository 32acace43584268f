-- ===== src/FlowRecord/Restarts.antt =====
-- flows/record.go: filteredEvent returns if a record that has just started does not start over again.
use go_flows.Shared.{
  ℕ, suc, ◌≡◌, refl, sym, ◌∙◌, subst, Bool, true, false, Option, none, some, List, map, not,
  if◌then◌else◌, if_both,
}
use go_flows.EventContext.{SortType, FlowEndReason, clear}
use go_flows.FlowTable.State.{Event}
use go_flows.FlowRecord.State.{Features, Run, upto, each}
use go_flows.FlowRecord.Exports.{sorts, new_export, template_of, fill_export, send_alone, emit}
use go_flows.FlowRecord.Control.{set_active, set_alive, start, stop, export}
use go_flows.FlowRecord.Event.{
  Verdict, go_on, stopped, export_now, restart_now, control_events, begin_event, proceed,
  filtered_event,
}
use go_flows.FlowRecord.Same.{shape, Same, Same-trans, each-Same, control_events-Same, stop-Same}

-- The verdicts that lead back to RESTART.
abbrev pub runs_again : Verdict → Bool
runs_again export_now = true
runs_again restart_now = true
runs_again _ = false

not-true : (b : Bool) → not b ≡ true → b ≡ false
not-true true e = cc
not-true false e = refl

module _ {f : Features} (sort : SortType) (expiring : Bool) where
  -- The record has the shape of `w`, and the activity `b`.
  abbrev Is : Bool → Run f → Run f → Type 0
  Is b w v = (v.rec.active ≡ b) × (shape v ≡ shape w)

  Same-Is : (b : Bool) (u v w : Run f) → Same v w → Is b u v → Is b u w
  unfolding Same
  Same-Is b u v w (_, _, c, d) (i, j) = (c ∙ i, d ∙ j)

  new_export-Is :
      (b : Bool) (ev : Event f.Packet) (id : ℕ) (u w : Run f)
      → Is b u w
      → Is b u (new_export sort expiring ev id w)
  unfolding new_export
  new_export-Is b ev id u w h = h

  start-Is : (ev : Event f.Packet) (id : ℕ) (w : Run f) → Is true w (start sort expiring ev id w)
  unfolding start
  start-Is ev id w =
      let w1 = set_active true w in
      let w2 = each f.start (upto w1.rec.size) w1 in
      let w3 = each f.finish_event w2.rec.control.event w2 in
      let same =
        Same-trans w1 w2 w3 (each-Same f.start (upto w1.rec.size) w1)
          (each-Same f.finish_event w2.rec.control.event w2) in
      let h = Same-Is true w w1 w3 same (refl, refl) in
      if_both (Is true w) (sorts sort) (new_export sort expiring ev id w3) w3
        (λ _. new_export-Is true ev id w w3 h) (λ _. h)

  fill_export-Is :
      (now id : ℕ) (t : f.Template) (values : List f.Value) (o : Option ℕ) (u w : Run f)
      → Is false u w
      → Is false u (fill_export sort expiring now id t values o w)
  fill_export-Is now id t values none u w h = h
  fill_export-Is now id t values (some e) u w h = h

  emit-Is : (now id : ℕ) (u w : Run f) → Is false u w → Is false u (emit sort expiring now id w)
  unfolding emit
  emit-Is now id u w h =
      let t = template_of f w.rec.control.variant w.rec.features (f.template id) in
      let values = map (λ i. f.value i w.rec.features) w.rec.control.export in
      if_both (Is false u) (not (sorts sort)) (send_alone now t values w)
        (fill_export sort expiring now id t values w.rec.export w) (λ _. h)
        (λ _. fill_export-Is now id t values w.rec.export u w h)

  export-Is :
      (reason : FlowEndReason) (now id : ℕ) (w : Run f)
      → Is false w (export sort expiring reason now id w)
  unfolding export
  export-Is reason now id w =
      let s = stop reason w in
      let h = Same-Is false w (set_active false w) s (stop-Same reason w) (refl, refl) in
      if_both (Is false w) (not w.rec.active) w
        (if s.context.stop then set_alive false s else emit sort expiring now id s)
        (λ e. (not-true w.rec.active e, refl))
        (λ _.
          if_both (Is false w) s.context.stop (set_alive false s) (emit sort expiring now id s)
            (λ _. h) (λ _. emit-Is now id w s h))

  -- A record that has just started, with a clear context.
  unfoldable pub fresh : Event f.Packet → ℕ → Run f → Run f
  fresh ev id w = let s = start sort expiring ev id w in record s { context = clear s.context }

  begin_event-idle :
      (ev : Event f.Packet) (id : ℕ) (w : Run f)
      → w.rec.active ≡ false
      → begin_event sort expiring ev id w ≡ fresh ev id w
  unfolding begin_event fresh
  begin_event-idle ev id w e = rw e refl

  begin_event-active :
      (ev : Event f.Packet) (id : ℕ) (w : Run f)
      → w.rec.active ≡ true
      → begin_event sort expiring ev id w ≡ record w { context = clear w.context }
  unfolding begin_event
  begin_event-active ev id w e = rw e refl

  begin_event-start :
      (ev : Event f.Packet) (id : ℕ) (w : Run f)
      → begin_event sort expiring ev id (start sort expiring ev id w) ≡ fresh ev id w
  unfolding fresh
  begin_event-start ev id w =
      begin_event-active ev id (start sort expiring ev id w) (start-Is ev id w).0

  -- Control features do not ask for the event to happen again at the first event of a record.
  abbrev pub Settles : Event f.Packet → ℕ → Run f → Type 0
  Settles ev id w =
      (u : Run f)
      → shape u ≡ shape w
      → runs_again (control_events ev (fresh ev id u).rec.control.control (fresh ev id u)).0 ≡ false

  proceed-returns :
      (restart : Run f → Option (Run f)) (ev : Event f.Packet) (id : ℕ) (v : Verdict) (w : Run f)
      → runs_again v ≡ false
      → (x : Run f) × (proceed sort expiring restart ev id v w ≡ some x)
  proceed-returns restart ev id go_on w e = (_, refl)
  proceed-returns restart ev id stopped w e = (_, refl)
  proceed-returns restart ev id export_now w e = absurd (cc)
  proceed-returns restart ev id restart_now w e = absurd (cc)

  second-returns :
      (n : ℕ) (ev : Event f.Packet) (id : ℕ) (w u v : Run f)
      → Settles ev id w
      → shape u ≡ shape w
      → begin_event sort expiring ev id v ≡ fresh ev id u
      → (x : Run f) × (filtered_event sort expiring (suc n) ev id v ≡ some x)
  unfolding filtered_event
  second-returns n ev id w u v settles sh e =
      let b = begin_event sort expiring ev id v in
      let r = control_events ev b.rec.control.control b in
      proceed-returns (filtered_event sort expiring n ev id) ev id r.0 r.1 (
        subst (λ c. runs_again (control_events ev c.rec.control.control c).0 ≡ false) (sym e)
          (settles u sh))

  first-returns :
      (n : ℕ) (ev : Event f.Packet) (id : ℕ) (w : Run f) (v : Verdict) (u : Run f)
      → Settles ev id w
      → shape u ≡ shape w
      → (x : Run f) × (proceed sort expiring (filtered_event sort expiring (suc n) ev id) ev id v u
          ≡ some x)
  first-returns n ev id w go_on u settles sh = (_, refl)
  first-returns n ev id w stopped u settles sh = (_, refl)
  first-returns n ev id w export_now u settles sh =
      let e = export sort expiring u.context.reason u.context.when id u in
      let (off, kept) = export-Is u.context.reason u.context.when id u in
      second-returns n ev id w e e settles (kept ∙ sh) (begin_event-idle ev id e off)
  first-returns n ev id w restart_now u settles sh =
      let s = start sort expiring ev id u in
      second-returns n ev id w u s settles sh (begin_event-start ev id u)

  begin_event-shape :
      (ev : Event f.Packet) (id : ℕ) (w : Run f)
      → shape (begin_event sort expiring ev id w) ≡ shape w
  unfolding begin_event
  begin_event-shape ev id w =
      if_both (λ v. shape v ≡ shape w) w.rec.active w (start sort expiring ev id w) (λ _. refl)
        (λ _. (start-Is ev id w).1)

  Same-shape : (w v : Run f) → Same w v → shape v ≡ shape w
  unfolding Same
  Same-shape w v (_, _, _, d) = d

  -- filteredEvent returns with fuel for two rounds, whatever the features do, if no control feature asks
  -- for an export or a restart at once when the event is the first one of the record, which has just
  -- started.
  pub filtered_event-returns :
      (n : ℕ) (ev : Event f.Packet) (id : ℕ) (w : Run f)
      → Settles ev id w
      → (x : Run f) × (filtered_event sort expiring (suc (suc n)) ev id w ≡ some x)
  unfolding filtered_event
  filtered_event-returns n ev id w settles =
      let b = begin_event sort expiring ev id w in
      let r = control_events ev b.rec.control.control b in
      first-returns n ev id w r.0 r.1 settles (
        Same-shape b r.1 (control_events-Same ev b.rec.control.control b)
        ∙ begin_event-shape ev id w)
