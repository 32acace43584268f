-- ===== src/FlowRecord/State.antt =====
-- flows/record.go: the state of a record and of the exports of its table.
use go_flows.Shared.{ℕ, suc, zero, Bool, Option, List, [], ◌∷◌, ◌++◌}
use go_flows.EventContext.{EventContext, FlowEndReason}
use go_flows.FlowTable.State.{Event}
use go_flows.ExportOrder.{ExportKey}
use go_flows.ExportSort.Links.{Links}

-- The features and the filters of one record, by their index. A call may change what any feature of the
-- record holds, which is `State`, since features send values to each other.
pub record Features : Type 1 where
  pub State : Type 0
  pub Packet : Type 0
  pub Value : Type 0
  pub Template : Type 0
  pub event_nr : Event Packet → ℕ
  pub start : ℕ → EventContext → State → EventContext × State
  pub finish_event : ℕ → EventContext → State → EventContext × State
  pub event : ℕ → Event Packet → EventContext → State → EventContext × State
  pub stop : ℕ → FlowEndReason → EventContext → State → EventContext × State
  pub filter_start : ℕ → EventContext → State → EventContext × State
  pub filter_stop : ℕ → FlowEndReason → EventContext → State → EventContext × State
  pub variant : ℕ → State → ℕ
  pub value : ℕ → State → Value
  pub template : ℕ → Template
  pub sub_template : Template → ℕ → Template

pub record Control : Type 0 where
  pub control : List ℕ
  pub event : List ℕ
  pub export : List ℕ
  pub variant : List ℕ

-- The Go struct `record`; `size` and `filters` are the lengths of its slices of features and filters.
pub record FlowRecord (f : Features) : Type 0 where
  pub features : f.State
  pub size : ℕ
  pub filters : ℕ
  pub control : Control
  pub export : Option ℕ
  pub active : Bool
  pub alive : Bool

-- An exportRecord without its pointers. `template` is nil, and there are no features, before the export.
pub record ExportRecord (f : Features) : Type 0 where
  pub key : ExportKey
  pub export_time : ℕ
  pub template : Option f.Template
  pub features : List f.Value

-- What a record reads and writes of its table: the heads of the export lists, by record, the export
-- records by pointer, and the pointers that were sent to the pipeline. `fault` is set where a nil export
-- record is used, `broken` where the list of a head is no ring.
pub record Exports (f : Features) : Type 0 where
  pub heads : ℕ → ℕ
  pub links : Links
  pub objects : ℕ → ExportRecord f
  pub next_ptr : ℕ
  pub sent : List ℕ
  pub fault : Bool
  pub broken : Bool

-- What the methods of a record work on.
pub record Run (f : Features) : Type 0 where
  pub rec : FlowRecord f
  pub context : EventContext
  pub out : Exports f

-- The indices of a slice.
abbrev pub upto : ℕ → List ℕ
upto zero = []
upto (suc n) = upto n ++ n ∷ []

-- One call of a feature.
abbrev pub apply :
    {f : Features} → (EventContext → f.State → EventContext × f.State) → Run f → Run f
apply g w =
    let (c, s) = g w.context w.rec.features in
    record w { context = c; rec = record w.rec { features = s } }

-- One call for each of some features.
unfoldable pub each :
    {f : Features} → (ℕ → EventContext → f.State → EventContext × f.State) → List ℕ → Run f → Run f
each g [] w = w
each g (i ∷ is) w = each g is (apply (g i) w)
