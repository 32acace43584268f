-- ===== src/FlowRecord/Ready.antt =====
-- flows/record.go: start and Export leave a record with an export record where it needs one.
use go_flows.Shared.{
  ℕ, ◌≡◌, refl, sym, ap, ◌∙◌, subst, Bool, true, false, Option, none, some, List, map, not, ◌&&◌,
  if◌then◌else◌, if_both,
}
use go_flows.EventContext.{SortType, sort_none, start_time, stop_time, expiry_time, FlowEndReason}
use go_flows.FlowTable.State.{Event}
use go_flows.ExportSort.Links.{Links}
use go_flows.ExportList.{unlink, insert}
use go_flows.FlowRecord.State.{Features, Exports, Run, upto, each}
use go_flows.FlowRecord.Exports.{
  sorts, by_expiry, moves, put_links, push_export, unlink_export, new_export, template_of,
  fill_export, send_alone, emit,
}
use go_flows.FlowRecord.Control.{set_active, set_alive, start, stop, export}
use go_flows.FlowRecord.Event.{begin_event}
use go_flows.FlowRecord.Same.{Same, Same-trans, each-Same, stop-Same}

pub not-false : (b : Bool) → not b ≡ false → b ≡ true
not-false true e = refl
not-false false e = cc

pub moves-sorts : (sort : SortType) → moves sort ≡ true → sorts sort ≡ true
moves-sorts sort_none e = absurd (cc)
moves-sorts start_time e = refl
moves-sorts stop_time e = refl
moves-sorts expiry_time e = refl

module _ {f : Features} (sort : SortType) where
  -- No nil export record has been used, and an active record has one if the output is sorted.
  unfoldable pub Ready : Run f → Type 0
  Ready w =
      (w.out.fault ≡ false)
      × (w.rec.active ≡ true → sorts sort ≡ true → (e : ℕ) × (w.rec.export ≡ some e))

  pub Ready-Same : (w v : Run f) → Same w v → Ready w → Ready v
  unfolding Same Ready
  Ready-Same w v (a, b, c, _) (h, k) = (
    ap (λ (t : Exports f). t.fault) a ∙ h,
    λ on sorted. let (e, i) = k (sym c ∙ on) sorted in (e, b ∙ i),
  )

  -- An inactive record needs no export record.
  pub idle-Ready : (w : Run f) → w.out.fault ≡ false → w.rec.active ≡ false → Ready w
  unfolding Ready
  idle-Ready w h k = (h, λ on sorted. absurd (cc))

  put_links-fault : (t : Exports f) (o : Option Links) → (put_links t o).fault ≡ t.fault
  put_links-fault t none = refl
  put_links-fault t (some h) = refl

  pub push_export-fault :
      (expiring : Bool) (r e : ℕ) (t : Exports f)
      → (push_export sort expiring r e t).fault ≡ t.fault
  unfolding push_export
  push_export-fault expiring r e t =
      let put = put_links t (insert e (t.heads r) (unlink e t.links)) in
      if_both (λ (u : Exports f). u.fault ≡ t.fault) (not (sorts sort)) _ _ (λ _. refl)
        (λ _.
          if_both (λ (u : Exports f). u.fault ≡ t.fault) (expiring && by_expiry sort) t put
            (λ _. refl) (λ _. put_links-fault t (insert e (t.heads r) (unlink e t.links))))

  unlink_export-fault : (o : Option ℕ) (t : Exports f) → (unlink_export o t).fault ≡ t.fault
  unlink_export-fault none t = refl
  unlink_export-fault (some e) t = refl

  new_export-Ready :
      (expiring : Bool) (ev : Event f.Packet) (id : ℕ) (w : Run f)
      → w.out.fault ≡ false
      → Ready (new_export sort expiring ev id w)
  unfolding new_export Ready
  new_export-Ready expiring ev id w h = (
    push_export-fault expiring id (unlink_export w.rec.export w.out).next_ptr _
        ∙ unlink_export-fault w.rec.export w.out
        ∙ h,
    λ on sorted. (_, refl),
  )

  unsorted-Ready : (w : Run f) → w.out.fault ≡ false → sorts sort ≡ false → Ready w
  unfolding Ready
  unsorted-Ready w h k = (h, λ on sorted. absurd (cc))

  Same-fault : (w v : Run f) → Same w v → w.out.fault ≡ false → v.out.fault ≡ false
  unfolding Same
  Same-fault w v (a, b, c, _) h = ap (λ (t : Exports f). t.fault) a ∙ h

  pub Same-active : (w v : Run f) → Same w v → v.rec.active ≡ w.rec.active
  unfolding Same
  Same-active w v (a, b, c, _) = c

  pub Ready-fault : (w : Run f) → Ready w → w.out.fault ≡ false
  unfolding Ready
  Ready-fault w h = h.0

  -- An active record that is ready.
  abbrev pub Started : Run f → Type 0
  Started w = Ready w × (w.rec.active ≡ true)

  pub new_export-active :
      (expiring : Bool) (ev : Event f.Packet) (id : ℕ) (w : Run f)
      → (new_export sort expiring ev id w).rec.active ≡ w.rec.active
  unfolding new_export
  new_export-active expiring ev id w = refl

  pub start-Started :
      (expiring : Bool) (ev : Event f.Packet) (id : ℕ) (w : Run f)
      → w.out.fault ≡ false
      → Started (start sort expiring ev id w)
  unfolding start
  start-Started expiring ev id w h =
      let w1 = set_active true w in
      let w2 = each f.start (upto w1.rec.size) w1 in
      let w3 = each f.finish_event w2.rec.control.event w2 in
      let same =
        Same-trans w1 w2 w3 (each-Same f.start (upto w1.rec.size) w1)
          (each-Same f.finish_event w2.rec.control.event w2) in
      let fine = Same-fault w1 w3 same h in
      let on = Same-active w1 w3 same in
      if_both Started (sorts sort) (new_export sort expiring ev id w3) w3
        (λ _. (new_export-Ready expiring ev id w3 fine, new_export-active expiring ev id w3 ∙ on))
        (λ k. (unsorted-Ready w3 fine k, on))

  pub begin_event-Started :
      (expiring : Bool) (ev : Event f.Packet) (id : ℕ) (w : Run f)
      → Ready w
      → Started (begin_event sort expiring ev id w)
  unfolding begin_event Ready
  begin_event-Started expiring ev id w h =
      if_both Started w.rec.active w (start sort expiring ev id w) (λ on. (h, on))
        (λ _. start-Started expiring ev id w h.0)

  push_or-fault :
      (b expiring : Bool) (r e : ℕ) (t : Exports f)
      → (if b then push_export sort expiring r e t else t).fault ≡ t.fault
  push_or-fault true expiring r e t = push_export-fault expiring r e t
  push_or-fault false expiring r e t = refl

  fill_export-Ready :
      (expiring : Bool) (now id : ℕ) (t : f.Template) (values : List f.Value) (e : ℕ) (w : Run f)
      → w.rec.active ≡ false
      → w.out.fault ≡ false
      → Ready (fill_export sort expiring now id t values (some e) w)
  fill_export-Ready expiring now id t values e w off h =
      idle-Ready (fill_export sort expiring now id t values (some e) w)
        (push_or-fault (by_expiry sort) expiring id e _ ∙ h) off

  emit-Ready :
      (expiring : Bool) (now id : ℕ) (w : Run f)
      → w.rec.active ≡ false
      → w.out.fault ≡ false
      → (sorts sort ≡ true → (e : ℕ) × (w.rec.export ≡ some e))
      → Ready (emit sort expiring now id w)
  unfolding emit
  emit-Ready expiring now id w off h k =
      let t = template_of f w.rec.control.variant w.rec.features (f.template id) in
      let values = map (λ i. f.value i w.rec.features) w.rec.control.export in
      if_both Ready (not (sorts sort)) (send_alone now t values w)
        (fill_export sort expiring now id t values w.rec.export w)
        (λ _. idle-Ready (send_alone now t values w) h off)
        (λ z.
          let (e, i) = k (not-false (sorts sort) z) in
          subst (λ o. Ready (fill_export sort expiring now id t values o w)) (sym i)
            (fill_export-Ready expiring now id t values e w off h))

  -- Export keeps a record ready.
  pub export-Ready :
      (expiring : Bool) (reason : FlowEndReason) (now id : ℕ) (w : Run f)
      → Ready w
      → Ready (export sort expiring reason now id w)
  unfolding export Ready Same
  export-Ready expiring reason now id w (h, k) =
      let s = stop reason w in
      let (out, kept, off, _) = stop-Same reason w in
      let fine = ap (λ (t : Exports f). t.fault) out ∙ h in
      if_both Ready (not w.rec.active) w
        (if s.context.stop then set_alive false s else emit sort expiring now id s) (λ _. (h, k))
        (λ z.
          if_both Ready s.context.stop (set_alive false s) (emit sort expiring now id s)
            (λ _. idle-Ready (set_alive false s) fine off)
            (λ _.
              emit-Ready expiring now id s off fine
                (λ sorted. let (e, i) = k (not-false w.rec.active z) sorted in (e, kept ∙ i))))
