-- ===== src/PacketPool/Accounting.antt =====
-- packet/multibuffer.go: numFree is the number of free packets, whatever is done with the pool.
use go_flows.Shared.{
  ℕ, zero, suc, ◌+◌, ◌^◌, ◌<◌, ◌≤◌, ◌≡◌, refl, ap, ◌∙◌, true, not, ◌&&◌, Option, none, some, List,
  [], ◌∷◌, ◌++◌, leb, ◌==◌, if◌then◌else◌, length, length-append, Bool-cases, inl, inr, arith,
}
use go_flows.PacketPool.Batch.{Batch, reset, push}
use go_flows.PacketPool.Pool.{
  Packet, Pool, allocate, replenish, release_from, release, free, take_from, take, can_recycle,
  recycle_packet, recycle_one, sub32,
}

abbrev pub count_free : List Packet → ℕ
count_free [] = 0
count_free (b ∷ bs) = if b.in_use then count_free bs else suc (count_free bs)

-- The packets that are in use, in their order.
abbrev pub in_use_of : List Packet → List Packet
in_use_of [] = []
in_use_of (b ∷ bs) = if b.in_use then b ∷ in_use_of bs else in_use_of bs

-- numFree is the number of free packets, and the packets can be counted in 31 bits.
unfoldable pub Accounted : Pool → Type 0
Accounted pool = (pool.num_free ≡ count_free pool.buffers) × (length pool.buffers < 2 ^ 31)

count_free-take_from :
    (num : ℕ) (bs : List Packet) (batch : Batch)
    → count_free (take_from num bs batch).0 + (take_from num bs batch).2 ≡ count_free bs + num
unfolding take_from
count_free-take_from num [] batch = refl
count_free-take_from num (b ∷ bs) batch =
    let taken = not b.in_use && (push b.id batch).1 in
    let ih =
      count_free-take_from (if taken then suc num else num) bs
        (if taken then (push b.id batch).0 else batch) in
    ground (arith, ih)

length-take_from :
    (num : ℕ) (bs : List Packet) (batch : Batch) → length (take_from num bs batch).0 ≡ length bs
unfolding take_from
length-take_from num [] batch = refl
length-take_from num (b ∷ bs) batch =
    let taken = not b.in_use && (push b.id batch).1 in
    let ih =
      length-take_from (if taken then suc num else num) bs
        (if taken then (push b.id batch).0 else batch) in
    ground (arith, ih)

windex-take_from :
    (num : ℕ) (bs : List Packet) (batch : Batch)
    → (take_from num bs batch).1.windex + num ≡ batch.windex + (take_from num bs batch).2
unfolding take_from push
windex-take_from num [] batch = refl
windex-take_from num (b ∷ bs) batch =
    let taken = not b.in_use && (push b.id batch).1 in
    let ih =
      windex-take_from (if taken then suc num else num) bs
        (if taken then (push b.id batch).0 else batch) in
    ground (arith, ih)

count_free-length : (bs : List Packet) → count_free bs ≤ length bs
count_free-length [] = omega arith
count_free-length (b ∷ bs) = ground (arith, count_free-length bs)

-- If numFree is the number of free packets, so it is after Pop has filled a batch, and the batch has
-- as many packets as are no longer free.
pub take-Accounted :
    (pool : Pool) (batch : Batch)
    → Accounted pool
    → Accounted (take pool batch).0
      × ((take pool batch).1.windex + count_free (take pool batch).0.buffers
          ≡ count_free pool.buffers)
unfolding take Accounted reset
take-Accounted pool batch (h, l) =
    let c = count_free-take_from 0 pool.buffers (reset batch) in
    let w = windex-take_from 0 pool.buffers (reset batch) in
    let k = length-take_from 0 pool.buffers (reset batch) in
    let m = count_free-length pool.buffers in
    ((omega (arith, c, w, h, l, m), omega (arith, k, l)), omega (arith, c, w))

count_free-append : (bs cs : List Packet) → count_free (bs ++ cs) ≡ count_free bs + count_free cs
count_free-append [] cs = omega arith
count_free-append (b ∷ bs) cs = ground (arith, count_free-append bs cs)

count_free-allocate : (n i : ℕ) → count_free (allocate n i) ≡ n
count_free-allocate zero i = refl
count_free-allocate (suc n) i = ap suc (count_free-allocate n (suc i))

length-allocate : (n i : ℕ) → length (allocate n i) ≡ n
length-allocate zero i = refl
length-allocate (suc n) i = ap suc (length-allocate n (suc i))

-- After `replenish`, numFree still is the number of free packets, and allocSize more are free, if
-- the packets can be counted in 31 bits.
replenish-Accounted :
    (pool : Pool)
    → Accounted pool
    → length pool.buffers + pool.alloc_size < 2 ^ 31
    → Accounted (replenish pool)
      × (count_free (replenish pool).buffers ≡ count_free pool.buffers + pool.alloc_size)
unfolding replenish Accounted
replenish-Accounted pool (h, l) k =
    let c = count_free-append pool.buffers (allocate pool.alloc_size pool.next_id) in
    let a = count_free-allocate pool.alloc_size pool.next_id in
    let s = length-append pool.buffers (allocate pool.alloc_size pool.next_id) in
    let t = length-allocate pool.alloc_size pool.next_id in
    let m = count_free-length pool.buffers in
    ((omega (arith, c, a, h, k, m), omega (arith, s, t, k)), omega (arith, c, a))

-- The numbers of what the loop of `release` keeps.
count_free-release_from :
    (alloc freed : ℕ) (bs : List Packet)
    → freed ≤ alloc
    → (count_free (release_from alloc freed bs).0 + (release_from alloc freed bs).1
        ≡ count_free bs + freed)
      × (length (release_from alloc freed bs).0 + (release_from alloc freed bs).1
          ≡ length bs + freed)
unfolding release_from
count_free-release_from alloc freed [] h = (refl, refl)
count_free-release_from alloc freed (b ∷ bs) h =
    let next = if b.in_use then freed else if freed == alloc then freed else suc freed in
    let (c, l) = count_free-release_from alloc next bs (ground arith) in
    (ground (arith, c), ground (arith, l))

freed-release_from :
    (alloc freed : ℕ) (bs : List Packet)
    → freed ≤ alloc
    → alloc ≤ count_free bs + freed
    → (release_from alloc freed bs).1 ≡ alloc
unfolding release_from
freed-release_from alloc freed [] h k = omega arith
freed-release_from alloc freed (b ∷ bs) h k =
    let next = if b.in_use then freed else if freed == alloc then freed else suc freed in
    freed-release_from alloc next bs (ground arith) (ground arith)

in_use_of-release_from :
    (alloc freed : ℕ) (bs : List Packet) → in_use_of (release_from alloc freed bs).0 ≡ in_use_of bs
unfolding release_from
in_use_of-release_from alloc freed [] = refl
in_use_of-release_from alloc freed (b ∷ bs) =
    let next = if b.in_use then freed else if freed == alloc then freed else suc freed in
    ground (arith, in_use_of-release_from alloc next bs)

-- If at least allocSize packets are free, `release` does not panic, keeps every packet that is in
-- use, frees allocSize packets, and numFree still is the number of free packets.
pub release-Accounted :
    (pool : Pool)
    → Accounted pool
    → pool.alloc_size ≤ count_free pool.buffers
    → (after : Pool) × (release pool ≡ some after)
      × Accounted after
      × (in_use_of after.buffers ≡ in_use_of pool.buffers)
      × (count_free after.buffers + pool.alloc_size ≡ count_free pool.buffers)
unfolding release Accounted
release-Accounted pool (h, l) k =
    let (c, n) = count_free-release_from pool.alloc_size 0 pool.buffers (omega arith) in
    let f = freed-release_from pool.alloc_size 0 pool.buffers (omega arith) (omega (arith, k)) in
    let m = count_free-length pool.buffers in
    (
      record pool {
        buffers = (release_from pool.alloc_size 0 pool.buffers).0;
        num_free = sub32 pool.num_free (release_from pool.alloc_size 0 pool.buffers).1;
      },
      ground (arith, c, n, f, m),
      (omega (arith, c, f, h, l, m), omega (arith, n, l)),
      in_use_of-release_from pool.alloc_size 0 pool.buffers,
      omega (arith, c, f),
    )

-- The packet of a pointer.
abbrev pub find : ℕ → List Packet → Option Packet
find p [] = none
find p (b ∷ bs) = if b.id == p then some b else find p bs

count_free-recycle_packet :
    (p : ℕ) (bs : List Packet) (b : Packet)
    → find p bs ≡ some b
    → b.in_use ≡ true
    → (count_free (recycle_packet p bs).0 ≡ count_free bs + (recycle_packet p bs).1)
      × (length (recycle_packet p bs).0 ≡ length bs)
      × ((recycle_packet p bs).1 ≡ (if leb b.refcnt 1 then 1 else 0))
unfolding recycle_packet can_recycle
count_free-recycle_packet p [] b h u = absurd (cc)
count_free-recycle_packet p (a ∷ bs) b h u = elim (Bool-cases (a.id == p)) [
  | inl e ↦ ground arith
  | inr e ↦ ground (arith, count_free-recycle_packet p bs b (ground arith) u)
]

-- Recycle of a packet that is in use: numFree still is the number of free packets, which is one more
-- if no other reference is left, and the same otherwise.
pub recycle_one-Accounted :
    (p : ℕ) (pool : Pool) (b : Packet)
    → Accounted pool
    → find p pool.buffers ≡ some b
    → b.in_use ≡ true
    → Accounted (recycle_one p pool)
      × (count_free (recycle_one p pool).buffers
          ≡ count_free pool.buffers + (if leb b.refcnt 1 then 1 else 0))
unfolding recycle_one free Accounted
recycle_one-Accounted p pool b (h, l) e u =
    let (c, k, n) = count_free-recycle_packet p pool.buffers b e u in
    let m = count_free-length (recycle_packet p pool.buffers).0 in
    (
      (omega (arith, c, h, l, k, m), omega (arith, k, l)),
      c ∙ ap (λ i. count_free pool.buffers + i) n,
    )
