-- ===== src/PacketPool/Pool.antt =====
-- packet/multibuffer.go: multiPacketBuffer, the pool of packets; packet/buffer.go: reference counts. A
-- pool holds the counters of its packets. A counter does not go below 0, since each Recycle belongs
-- to an assignment or a Copy. numFree is a 32-bit number. Waiting for free packets is left out.
use go_flows.Shared.{
  ℕ, zero, suc, ◌+◌, ◌-◌, ◌%◌, ◌^◌, Bool, true, false, not, ◌&&◌, Option, none, some, List, [], ◌∷◌,
  ◌++◌, ltb, leb, ◌==◌, if◌then◌else◌, length,
}
use go_flows.PacketPool.Batch.{Batch, reset, push, is_empty_batch}

pub record Packet : Type 0 where
  pub id : ℕ
  pub in_use : Bool
  pub refcnt : ℕ

pub record Pool : Type 0 where
  pub num_free : ℕ
  pub alloc_size : ℕ
  pub buffers : List Packet
  pub next_id : ℕ

unfoldable pub new_pool : ℕ → Pool
new_pool size = record { num_free = 0; alloc_size = size; buffers = []; next_id = 0 }

-- atomic.AddInt32, up and down.
abbrev pub add32 : ℕ → ℕ → ℕ
add32 a b = (a + b) % 2 ^ 32

abbrev pub sub32 : ℕ → ℕ → ℕ
sub32 a b = (a + 2 ^ 32 - b) % 2 ^ 32

-- `n` packets with the numbers from `i` on.
abbrev pub allocate : ℕ → ℕ → List Packet
allocate zero i = []
allocate (suc n) i = record { id = i; in_use = false; refcnt = 0 } ∷ allocate n (suc i)

unfoldable pub replenish : Pool → Pool
replenish pool = record pool {
  buffers = pool.buffers ++ allocate pool.alloc_size pool.next_id;
  num_free = add32 pool.num_free pool.alloc_size;
  next_id = pool.next_id + pool.alloc_size;
}

-- The loop of `release`: the packets that are kept, and how many are freed.
unfoldable pub release_from : ℕ → ℕ → List Packet → List Packet × ℕ
release_from alloc freed [] = ([], freed)
release_from alloc freed (b ∷ bs) =
    let keep = b.in_use in
    let full = freed == alloc in
    let next = if keep then freed else if full then freed else suc freed in
    let (kept, last) = release_from alloc next bs in
    (if keep then b ∷ kept else if full then b ∷ kept else kept, last)

-- A negative length of the new list, and a write beyond its end, are panics.
unfoldable pub release : Pool → Option Pool
release pool =
    let (kept, freed) = release_from pool.alloc_size 0 pool.buffers in
    if ltb (length pool.buffers) pool.alloc_size
    then none
    else if ltb (length pool.buffers - pool.alloc_size) (length kept)
    then none
    else some (record pool { buffers = kept; num_free = sub32 pool.num_free freed })

unfoldable pub free : ℕ → Pool → Pool
free num pool = record pool { num_free = add32 pool.num_free num }

-- The loop of Pop over the packets: the packets and the batch after it, and how many were taken.
unfoldable pub take_from : ℕ → List Packet → Batch → List Packet × Batch × ℕ
take_from num [] batch = ([], batch, num)
take_from num (b ∷ bs) batch =
    let (pushed, ok) = push b.id batch in
    let taken = not b.in_use && ok in
    let (rest, batch', num') =
      take_from (if taken then suc num else num) bs (if taken then pushed else batch) in
    if b.in_use
    then (b ∷ rest, batch', num')
    else if ok
    then (record b { in_use = true } ∷ rest, batch', num')
    else (b ∷ bs, batch, num)

-- Pop, from where enough packets are free.
unfoldable pub take : Pool → Batch → Pool × Batch
take pool batch =
    let (bs, filled, num) = take_from 0 pool.buffers (reset batch) in
    (record pool { buffers = bs; num_free = sub32 pool.num_free num }, filled)

-- Copy of a packet.
unfoldable pub copy_packet : Packet → Packet
copy_packet b = record b { refcnt = suc b.refcnt }

unfoldable pub can_recycle : Packet → Packet × Bool
can_recycle b = (record b { refcnt = b.refcnt - 1 }, leb b.refcnt 1)

-- What Recycle and `recycle` do with the packet of a pointer, and whether it is free then.
unfoldable pub recycle_packet : ℕ → List Packet → List Packet × ℕ
recycle_packet p [] = ([], 0)
recycle_packet p (b ∷ bs) =
    let (rest, n) = recycle_packet p bs in
    let (counted, free_now) = can_recycle b in
    if b.id == p
    then if free_now then (record counted { in_use = false } ∷ bs, 1) else (counted ∷ bs, 0)
    else (b ∷ rest, n)

unfoldable pub recycle_one : ℕ → Pool → Pool
recycle_one p pool =
    let (bs, n) = recycle_packet p pool.buffers in free n (record pool { buffers = bs })

-- The loop of `recycle`, over the first `n` entries of the batch, which `push` has all written.
unfoldable pub recycle_from : ℕ → List (Option ℕ) → List Packet → List Packet × ℕ
recycle_from (suc n) (some p ∷ ps) bs =
    let (bs', k) = recycle_packet p bs in let (bs'', l) = recycle_from n ps bs' in (bs'', k + l)
recycle_from (suc n) (none ∷ ps) bs = recycle_from n ps bs
recycle_from _ _ bs = (bs, 0)

unfoldable pub recycle : Batch → Pool → Batch × Pool
recycle batch pool =
    let (bs, num) = recycle_from batch.windex batch.buffers pool.buffers in
    (reset batch, if is_empty_batch batch then pool else free num (record pool { buffers = bs }))
