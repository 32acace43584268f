-- ===== src/PacketTable/Parallel.antt =====
-- packet/table.go: event of the parallel and of the single table, and the loop of a worker. A batch is the
-- list of its packets; one of popEmpty has room for all packets of the batch that is distributed. A
-- queue is what was sent to a worker. `xor` is the exclusive or of the machine.
use go_flows.Shared.{
  ℕ, zero, suc, ◌%◌, Bool, true, false, not, ◌&&◌, List, [], ◌∷◌, ◌++◌, if◌then◌else◌, length, ltb,
  replicate,
}
use go_flows.FlowTable.State.{Event, Records, FlowTable, add64}
use go_flows.FlowTable.Table.{event, expire_all}
use go_flows.FlowKey.Fields.{fnv_hash, fnv_basis}

-- A batch as a worker gets it.
pub record Delivery (P : Type 0) : Type 0 where
  pub packets : List (Event P)
  pub timestamp : ℕ
  pub expire : Bool

pub record ParallelTable (P : Type 0) : Type 0 where
  pub queues : List (List (Delivery P))
  pub expire_time : ℕ
  pub next_expire : ℕ

pub record SingleTable (P : Type 0) : Type 0 where
  pub queue : List (Delivery P)
  pub expire_time : ℕ
  pub next_expire : ℕ

abbrev pub is_empty : {P : Type 0} → List (Event P) → Bool
is_empty [] = true
is_empty (_ ∷ _) = false

-- `tmp[h].push(b)`.
abbrev pub push_to : {P : Type 0} → ℕ → Event P → List (List (Event P)) → List (List (Event P))
push_to h e [] = []
push_to zero e (b ∷ bs) = (b ++ e ∷ []) ∷ bs
push_to (suc h) e (b ∷ bs) = b ∷ push_to h e bs

-- The batches are sent to the workers.
unfoldable pub finalize :
    {P : Type 0}
    → ℕ
    → Bool
    → List (List (Event P))
    → List (List (Delivery P))
    → List (List (Delivery P))
finalize current expire (b ∷ bs) (q ∷ qs) =
    (q ++ record { packets = b; timestamp = current; expire = expire } ∷ [])
    ∷ finalize current expire bs qs
finalize current expire _ _ = []

module _ {P : Type 0} (xor : ℕ → ℕ → ℕ) where
  -- The table of a packet, of `n`.
  abbrev pub table_of : ℕ → Event P → ℕ
  table_of n e = fnv_hash xor fnv_basis e.key % n

  unfoldable pub partition : List (Event P) → List (List (Event P)) → List (List (Event P))
  partition [] tmp = tmp
  partition (e ∷ es) tmp = partition es (push_to (table_of (length tmp) e) e tmp)

  unfoldable pub parallel_event : ℕ → List (Event P) → ParallelTable P → ParallelTable P
  parallel_event current es w =
      let expire = ltb w.next_expire current in
      let next = if expire then add64 current w.expire_time else w.next_expire in
      let tmp = partition es (replicate (length w.queues) []) in
      record w {
        next_expire = next;
        queues =
            if is_empty es && not expire then w.queues else finalize current expire tmp w.queues;
      }

unfoldable pub single_event : {P : Type 0} → ℕ → List (Event P) → SingleTable P → SingleTable P
single_event current es w =
    let expire = ltb w.next_expire current in
    let next = if expire then add64 current w.expire_time else w.next_expire in
    record w {
      next_expire = next;
      queue =
          if is_empty es && not expire
          then w.queue
          else w.queue ++ record { packets = es; timestamp = current; expire = expire } ∷ [];
    }

module _ {r : Records} where
  unfoldable pub read_events : List (Event r.Packet) → FlowTable r → FlowTable r
  read_events [] t = t
  read_events (e ∷ es) t = read_events es (event e t)

  -- The loop of a worker, over all that it is sent.
  unfoldable pub work : List (Delivery r.Packet) → FlowTable r → FlowTable r
  work [] t = t
  work (d ∷ ds) t =
      let handled = read_events d.packets t in
      work ds (if d.expire then expire_all d.timestamp handled else handled)
