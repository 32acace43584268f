-- ===== src/EventContext.antt =====
-- flows/context.go, and the constants of flows/flow.go and flows/sort.go that pass through it.
-- The fields that point at the current record and at the filter chain are not kept.
use go_flows.Shared.{ℕ, Bool, true, false, Option, none, some}

-- `unset` is the zero value.
pub data FlowEndReason : Type 0 where
  unset : FlowEndReason
  idle active ended forced_end lack_of_resources : FlowEndReason

pub data SortType : Type 0 where
  sort_none start_time stop_time expiry_time : SortType

-- `flow` is the object that the context points at.
pub record EventContext : Type 0 where
  pub when : ℕ
  pub flow : Option ℕ
  pub reason : FlowEndReason
  pub now : Bool
  pub stop : Bool
  pub export : Bool
  pub restart : Bool
  pub keep : Bool
  pub hard : Bool
  pub forward : Bool

-- `&EventContext{when: when}`.
unfoldable pub new_context : ℕ → EventContext
new_context when = record {
  when = when;
  flow = none;
  reason = unset;
  now = false;
  stop = false;
  export = false;
  restart = false;
  keep = false;
  hard = false;
  forward = false;
}

unfoldable pub init_flow : ℕ → EventContext → EventContext
init_flow p c = record c { flow = some p }

unfoldable pub clear : EventContext → EventContext
clear c = record c {
  now = false;
  stop = false;
  export = false;
  restart = false;
  keep = false;
  hard = false;
}

unfoldable pub stop_record : EventContext → EventContext
stop_record c = record c { stop = true }

unfoldable pub export_record : Bool → FlowEndReason → EventContext → EventContext
export_record now reason c = record c { now = now; export = true; reason = reason }

unfoldable pub restart_record : Bool → EventContext → EventContext
restart_record now c = record c { now = now; restart = true }

unfoldable pub keep_record : EventContext → EventContext
keep_record c = record c { keep = true }
