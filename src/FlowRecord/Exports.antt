-- ===== src/FlowRecord/Exports.antt =====
-- flows/record.go and FlowTable.pushExport of flows/table.go: the export record of a record.
use go_flows.Shared.{
  ℕ, suc, Bool, true, false, Option, none, some, List, [], ◌∷◌, ◌++◌, map, ◌==◌, if◌then◌else◌,
  ◌&&◌, not,
}
use go_flows.EventContext.{SortType, sort_none, stop_time, expiry_time}
use go_flows.FlowTable.State.{Event}
use go_flows.ExportSort.Links.{Links, set_next, set_prev}
use go_flows.ExportList.{unlink, insert}
use go_flows.FlowRecord.State.{Features, ExportRecord, Exports, Run}

abbrev pub sorts : SortType → Bool
sorts sort_none = false
sorts _ = true

-- `SortOutput == SortTypeExpiryTime`.
abbrev pub by_expiry : SortType → Bool
by_expiry expiry_time = true
by_expiry _ = false

-- `SortOutput == SortTypeStopTime || SortOutput == SortTypeExpiryTime`.
abbrev pub moves : SortType → Bool
moves stop_time = true
moves expiry_time = true
moves _ = false

-- The template of the variants of some features.
abbrev pub template_of : (f : Features) → List ℕ → f.State → f.Template → f.Template
template_of f [] s t = t
template_of f (i ∷ is) s t = template_of f is s (f.sub_template t (f.variant i s))

module _ {f : Features} where
  -- A new object, whose pointers are nil.
  abbrev pub allocate : ExportRecord f → Exports f → Exports f
  allocate e t = record t {
    objects = λ q. if q == t.next_ptr then e else t.objects q;
    links = set_next t.next_ptr none (set_prev t.next_ptr none t.links);
    next_ptr = suc t.next_ptr;
  }

  abbrev pub put_links : Exports f → Option Links → Exports f
  put_links t none = record t { broken = true }
  put_links t (some h) = record t { links = h }

  unfoldable pub push_export : SortType → Bool → ℕ → ℕ → Exports f → Exports f
  push_export sort expiring r e t =
      if not (sorts sort)
      then t
      else if expiring && by_expiry sort
      then t
      else put_links t (insert e (t.heads r) (unlink e t.links))

  -- `r.export.unlink()`, where there is an export record.
  abbrev pub unlink_export : Option ℕ → Exports f → Exports f
  unlink_export none t = t
  unlink_export (some e) t = record t { links = unlink e t.links }

  -- The end of `start` where the output is sorted.
  unfoldable pub new_export : SortType → Bool → Event f.Packet → ℕ → Run f → Run f
  new_export sort expiring ev id w =
      let unlinked = unlink_export w.rec.export w.out in
      let e : ExportRecord f = record {
        key = record { packet_id = f.event_nr ev; expiry_time = 0; record_id = id };
        export_time = 0;
        template = none;
        features = [];
      } in
      record w {
        rec = record w.rec { export = some unlinked.next_ptr };
        out = push_export sort expiring id unlinked.next_ptr (allocate e unlinked);
      }

  -- `r.export.packetID = ev.EventNr()` and pushExport, after an event.
  abbrev pub move_export_at : SortType → Bool → Event f.Packet → ℕ → Option ℕ → Run f → Run f
  move_export_at sort expiring ev id none w = record w { out = record w.out { fault = true } }
  move_export_at sort expiring ev id (some e) w =
      let o = w.out.objects e in
      let numbered = record o { key = record o.key { packet_id = f.event_nr ev } } in
      let t = record w.out { objects = λ q. if q == e then numbered else w.out.objects q } in
      record w { out = push_export sort expiring id e t }

  unfoldable pub move_export : SortType → Bool → Event f.Packet → ℕ → Run f → Run f
  move_export sort expiring ev id w =
      if moves sort then move_export_at sort expiring ev id w.rec.export w else w

  -- The lines of Export under `else`, for `r.export`.
  abbrev pub fill_export :
      SortType → Bool → ℕ → ℕ → f.Template → List f.Value → Option ℕ → Run f → Run f
  fill_export sort expiring now id template values none w = record w {
    out = record w.out { fault = true };
  }
  fill_export sort expiring now id template values (some e) w =
      let o = w.out.objects e in
      let filled = record o {
        key = record o.key { expiry_time = w.context.when };
        export_time = now;
        template = some template;
        features = values;
      } in
      let t = record w.out { objects = λ q. if q == e then filled else w.out.objects q } in
      record w {
        rec = record w.rec { export = none };
        out = if by_expiry sort then push_export sort expiring id e t else t;
      }

  -- A record of its own, that is sent at once.
  abbrev pub send_alone : ℕ → f.Template → List f.Value → Run f → Run f
  send_alone now template values w =
      let e : ExportRecord f = record {
        key = record { packet_id = 0; expiry_time = 0; record_id = 0 };
        export_time = now;
        template = some template;
        features = values;
      } in
      let p = w.out.next_ptr in
      record w { out = record (allocate e w.out) { sent = w.out.sent ++ p ∷ [] } }

  -- Export after `stop`.
  unfoldable pub emit : SortType → Bool → ℕ → ℕ → Run f → Run f
  emit sort expiring now id w =
      let template = template_of f w.rec.control.variant w.rec.features (f.template id) in
      let values = map (λ i. f.value i w.rec.features) w.rec.control.export in
      if not (sorts sort)
      then send_alone now template values w
      else fill_export sort expiring now id template values w.rec.export w
