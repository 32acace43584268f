-- ===== src/FlowTable/State.antt =====
-- flows/table.go, flows/flow.go and packet/flow.go: the state of a flow table and of its flows.
-- Flows are objects: `flowlist` holds pointers, and `heap` says what they point at. An allocation
-- takes the next pointer. Times are the 64-bit nanosecond counts of DateTimeNanoseconds.
use go_flows.Shared.{ℕ, ◌+◌, ◌%◌, ◌^◌, Bool, Option, List, Key}
use go_flows.Timer.{FuncEntry}
use go_flows.EventContext.{EventContext, FlowEndReason, SortType}

abbrev pub add64 : ℕ → ℕ → ℕ
add64 a b = (a + b) % 2 ^ 64

-- The flags that tcpFlow reads.
pub record TcpFlags : Type 0 where
  pub fin : Bool
  pub rst : Bool
  pub ack : Bool

-- An event as the table reads it; `packet` is what only the features look at. `tcp` is none where
-- the transport layer is no TCP layer.
pub record Event (Packet : Type 0) : Type 0 where
  pub timestamp : ℕ
  pub key : Key
  pub low_to_high : Bool
  pub window : ℕ
  pub tcp : Option TcpFlags
  pub packet : Packet

-- What a flow table asks of records and of the export lists, the Go interface Record and the
-- methods flushExports and flushAllExports: `Sink` holds the export lists and what was handed to
-- the export pipeline. A record reads the sort order and whether the table is expiring.
pub record Records : Type 1 where
  pub Record : Type 0
  pub Sink : Type 0
  pub Packet : Type 0
  pub make : Record
  pub destroy : Record → Sink → Record × Sink
  pub event :
      Event Packet → EventContext → SortType → Bool → Record → Sink → Record × Sink × EventContext
  pub export :
      FlowEndReason
      → EventContext
      → ℕ
      → SortType
      → Bool
      → Record
      → Sink
      → Record × Sink × EventContext
  pub is_active : Record → Bool
  pub flush_exports : Sink → Sink
  pub flush_all_exports : Sink → Sink

pub record FlowOptions : Type 0 where
  pub active_timeout : ℕ
  pub idle_timeout : ℕ
  pub window_expiry : Bool
  pub per_packet : Bool
  pub tcp_expiry : Bool
  pub sort_output : SortType

-- The method values that BaseFlow hands to its timers.
pub data Callback : Type 0 where
  idle_event active_event : Callback

pub record Handshake : Type 0 where
  pub src_fin : Bool
  pub dst_fin : Bool
  pub dst_ack : Bool
  pub src_ack : Bool

-- uniFlow and tcpFlow, which both embed BaseFlow.
pub data Kind : Type 0 where
  uni : Kind
  tcp : Handshake → Kind

pub record Flow (Record : Type 0) : Type 0 where
  pub key : Key
  pub timers : List (FuncEntry Callback)
  pub expire_next : ℕ
  pub records : Record
  pub id : ℕ
  pub active : Bool
  pub first_forward : Bool
  pub kind : Kind

pub record TableStats : Type 0 where
  pub packets : ℕ
  pub flows : ℕ
  pub max_flows : ℕ

-- The part of a table that says which flow has which key. The last element of the Go slice
-- `freelist` is the head here.
pub record Index (Record : Type 0) : Type 0 where
  pub flows : List (Key × ℕ)
  pub flowlist : List (Option ℕ)
  pub freelist : List ℕ
  pub heap : ℕ → Flow Record
  pub next_ptr : ℕ

-- `fault` records a Go panic: an index out of range, or a failed type assertion.
pub record FlowTable (r : Records) : Type 0 where
  pub options : FlowOptions
  pub index : Index r.Record
  pub stats : TableStats
  pub context : EventContext
  pub flow_id : ℕ
  pub window : ℕ
  pub sink : r.Sink
  pub id : ℕ
  pub fivetuple : Bool
  pub eof : Bool
  pub expiring : Bool
  pub fault : Bool
