-- ===== src/FlowRecord/Filters.antt =====
-- flows/record.go: filters in front of a record, and the records of a flow, use no nil export record.
use go_flows.Shared.{
  ℕ, zero, suc, ◌≡◌, Bool, true, false, Option, none, some, List, [], ◌∷◌, All, if◌then◌else◌,
  if_both, ◌-◌,
}
use go_flows.EventContext.{EventContext, SortType, FlowEndReason}
use go_flows.FlowTable.State.{Event}
use go_flows.FlowRecord.State.{Features, FlowRecord, Exports, Run, upto, each}
use go_flows.FlowRecord.Exports.{sorts}
use go_flows.FlowRecord.Control.{set_alive, export}
use go_flows.FlowRecord.Event.{filter_chain, event_through, record_event}
use go_flows.FlowRecord.Same.{Same-trans, Same-refl, each-Same, set_alive-Same}
use go_flows.FlowRecord.Ready.{Ready, Ready-Same, export-Ready}
use go_flows.FlowRecord.Safety.{Returns, filtered_event-Ready}
use go_flows.FlowRecord.Lists.{Runs, run_of, first_and, and_rest, list_event, list_export}

module _ {f : Features} (sort : SortType) (expiring : Bool)
    (filter_event : ℕ
      → (Event f.Packet → Run f → Option (Run f))
      → Event f.Packet
      → Run f
      → Option (Run f)) where
  -- A filter touches no export record itself.
  abbrev pub Forwards : Type 0
  Forwards =
      (i : ℕ) (next : Event f.Packet → Run f → Option (Run f))
      → ((e : Event f.Packet) (v : Run f) → Ready sort v → Returns sort (next e v))
      → (e : Event f.Packet) (v : Run f) → Ready sort v
      → Returns sort (filter_event i next e v)

  filter_chain-Ready :
      Forwards
      → (n id k : ℕ) (ev : Event f.Packet) (w : Run f) → Ready sort w
      → Returns sort (filter_chain sort expiring filter_event n id k ev w)
  unfolding filter_chain
  filter_chain-Ready fw n id zero ev w h = filtered_event-Ready sort expiring n ev id w h
  filter_chain-Ready fw n id (suc k) ev w h =
      fw (w.rec.filters - suc k) (filter_chain sort expiring filter_event n id k)
        (filter_chain-Ready fw n id k) ev w h

  event_through-Ready :
      Forwards
      → (k n : ℕ) (ev : Event f.Packet) (id : ℕ) (w : Run f) → Ready sort w
      → Returns sort (event_through sort expiring filter_event k n ev id w)
  event_through-Ready fw zero n ev id w h = filtered_event-Ready sort expiring n ev id w h
  event_through-Ready fw (suc k) n ev id w h =
      let begun = each f.filter_start (upto (suc k)) w in
      let alive = set_alive true begun in
      filter_chain-Ready fw n id (suc k) ev (if w.rec.alive then w else alive) (
        if_both (Ready sort) w.rec.alive w alive (λ _. h)
          (λ _.
            Ready-Same sort w alive
              (Same-trans w begun alive (each-Same f.filter_start (upto (suc k)) w)
                (set_alive-Same true begun begun (Same-refl begun)))
              h))

  -- record.Event with any filters that touch no export record: from a record that is ready it uses no nil
  -- export record, and it leaves one that is ready, whatever the features do.
  pub record_event-Ready :
      Forwards
      → (n : ℕ) (ev : Event f.Packet) (id : ℕ) (w : Run f) → Ready sort w
      → Returns sort (record_event sort expiring filter_event n ev id w)
  unfolding record_event
  record_event-Ready fw n ev id w h = event_through-Ready fw w.rec.filters n ev id w h

-- The record is active only with an export record, if the output is sorted.
unfoldable pub HasExport : {f : Features} → SortType → FlowRecord f → Type 0
HasExport sort r = r.active ≡ true → sorts sort ≡ true → (e : ℕ) × (r.export ≡ some e)

-- No nil export record has been used, and every record of the list is ready.
abbrev pub AllReady : {f : Features} → SortType → Runs f → Type 0
AllReady sort v = (v.out.fault ≡ false) × All (HasExport sort) v.list

abbrev pub ReturnsAll : {f : Features} → SortType → Option (Runs f) → Type 0
ReturnsAll sort none = Unit
ReturnsAll sort (some v) = AllReady sort v

first_and-Ready :
    {f : Features} (sort : SortType) (r : FlowRecord f) (o : Option (Runs f))
    → HasExport sort r
    → ReturnsAll sort o
    → ReturnsAll sort (first_and r o)
first_and-Ready sort r none k h = tt
first_and-Ready sort r (some v) k (h, a) = (h, (k, a))

and_rest-Ready :
    {f : Features} (sort : SortType) (rest : EventContext → Exports f → Option (Runs f))
    (o : Option (Run f))
    → Returns sort o
    → ((c : EventContext) (t : Exports f) → t.fault ≡ false → ReturnsAll sort (rest c t))
    → ReturnsAll sort (and_rest rest o)
unfolding Ready HasExport
and_rest-Ready sort rest none h k = tt
and_rest-Ready sort rest (some w) h k =
    first_and-Ready sort w.rec (rest w.context w.out) h.1 (k w.context w.out h.0)

-- The event of a flow with several records, each with filters that touch no export record: if no nil
-- export record has been used, and every active record has one where the output is sorted, so it is after
-- the event, where that returns, whatever the features do.
pub list_event-Ready :
    {f : Features} (sort : SortType) (expiring : Bool)
    (filter_event : ℕ
      → (Event f.Packet → Run f → Option (Run f))
      → Event f.Packet
      → Run f
      → Option (Run f))
    → Forwards sort expiring filter_event
    → (n : ℕ) (ev : Event f.Packet) (i : ℕ) (rs : List (FlowRecord f)) (c : EventContext)
      (t : Exports f)
    → t.fault ≡ false
    → All (HasExport sort) rs
    → ReturnsAll sort (list_event sort expiring filter_event n ev i rs c t)
unfolding list_event Ready HasExport
list_event-Ready sort expiring fe fw n ev i [] c t h k = (h, tt)
list_event-Ready sort expiring fe fw n ev i (r ∷ rs) c t h (k, ks) =
    and_rest-Ready sort (list_event sort expiring fe n ev (suc i) rs)
      (record_event sort expiring fe n ev i (run_of r c t))
      (record_event-Ready sort expiring fe fw n ev i (run_of r c t) (h, k))
      (λ c' t' h'. list_event-Ready sort expiring fe fw n ev (suc i) rs c' t' h' ks)

-- The export of all records of a flow: if no nil export record has been used, and every active record
-- has one where the output is sorted, so it is after the export, whatever the features do.
list_export-Ready :
    {f : Features} (sort : SortType) (expiring : Bool) (reason : FlowEndReason) (now i : ℕ)
    (rs : List (FlowRecord f)) (c : EventContext) (t : Exports f)
    → t.fault ≡ false
    → All (HasExport sort) rs
    → AllReady sort (list_export sort expiring reason now i rs c t)
unfolding list_export Ready HasExport
list_export-Ready sort expiring reason now i [] c t h k = (h, tt)
list_export-Ready sort expiring reason now i (r ∷ rs) c t h (k, ks) =
    let w = export sort expiring reason now i (run_of r c t) in
    let one = export-Ready sort expiring reason now i (run_of r c t) (h, k) in
    let rest = list_export-Ready sort expiring reason now (suc i) rs w.context w.out one.0 ks in
    (rest.0, (one.1, rest.1))
