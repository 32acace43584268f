-- ===== src/FlowRecord/Lists.antt =====
-- flows/record.go: recordList, the records of a flow. A single record is the list of one: the table calls
-- its methods with the record number 0.
use go_flows.Shared.{
  ℕ, suc, Bool, true, false, Option, none, some, List, [], ◌∷◌, ◌||◌, if◌then◌else◌,
}
use go_flows.EventContext.{EventContext, SortType, FlowEndReason}
use go_flows.FlowTable.State.{Event}
use go_flows.FlowRecord.State.{Features, FlowRecord, Exports, Run}
use go_flows.FlowRecord.Control.{export}
use go_flows.FlowRecord.Event.{record_event, destroy}

-- The records, and the context and the exports that they share.
pub record Runs (f : Features) : Type 0 where
  pub list : List (FlowRecord f)
  pub context : EventContext
  pub out : Exports f

module _ {f : Features} where
  abbrev pub run_of : FlowRecord f → EventContext → Exports f → Run f
  run_of r c t = record { rec = r; context = c; out = t }

  -- The first record after its call, in front of the others after theirs.
  abbrev pub put_first : FlowRecord f → Runs f → Runs f
  put_first r w = record w { list = r ∷ w.list }

  abbrev pub first_and : FlowRecord f → Option (Runs f) → Option (Runs f)
  first_and r none = none
  first_and r (some v) = some (put_first r v)

  -- The other records go on with the context and the exports that the first one leaves.
  abbrev pub and_rest :
      (EventContext → Exports f → Option (Runs f)) → Option (Run f) → Option (Runs f)
  and_rest rest none = none
  and_rest rest (some w) = first_and w.rec (rest w.context w.out)

  unfoldable pub list_destroy : List (FlowRecord f) → Exports f → Exports f
  list_destroy [] t = t
  list_destroy (r ∷ rs) t = list_destroy rs (destroy r t)

  unfoldable pub list_active : List (FlowRecord f) → Bool
  list_active [] = false
  list_active (r ∷ rs) = if r.active || r.alive then true else list_active rs

  unfoldable pub list_export :
      SortType
      → Bool
      → FlowEndReason
      → ℕ
      → ℕ
      → List (FlowRecord f)
      → EventContext
      → Exports f
      → Runs f
  list_export sort expiring reason now i [] c t = record { list = []; context = c; out = t }
  list_export sort expiring reason now i (r ∷ rs) c t =
      let w = export sort expiring reason now i (run_of r c t) in
      put_first w.rec (list_export sort expiring reason now (suc i) rs w.context w.out)

  module _ (sort : SortType) (expiring : Bool)
      (filter_event : ℕ
        → (Event f.Packet → Run f → Option (Run f))
        → Event f.Packet
        → Run f
        → Option (Run f)) where
    unfoldable pub list_event :
        ℕ → Event f.Packet → ℕ → List (FlowRecord f) → EventContext → Exports f → Option (Runs f)
    list_event n ev i [] c t = some (record { list = []; context = c; out = t })
    list_event n ev i (r ∷ rs) c t =
        and_rest (list_event n ev (suc i) rs)
          (record_event sort expiring filter_event n ev i (run_of r c t))
