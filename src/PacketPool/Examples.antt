-- ===== src/PacketPool/Examples.antt =====
-- Tests and examples for the packet pool: four packets, one of them in use.
use go_flows.Shared.{
  ◌≡◌, refl, ◌+◌, true, false, none, some, List, [], ◌∷◌, leb, if◌then◌else◌, arith,
}
use go_flows.PacketPool.Batch.{Batch, push, reset}
use go_flows.PacketPool.Pool.{Packet, Pool, release, take, take_from, recycle_one}
use go_flows.PacketPool.Accounting.{
  count_free, in_use_of, Accounted, take-Accounted, release-Accounted, recycle_one-Accounted,
}

abbrev busy : Packet
busy = record { id = 1; in_use = true; refcnt = 1 }

abbrev four : List Packet
four =
    record { id = 0; in_use = false; refcnt = 0 }
    ∷ busy
    ∷ record { id = 2; in_use = false; refcnt = 0 }
    ∷ record { id = 3; in_use = false; refcnt = 0 }
    ∷ []

abbrev pool_of_four : Pool
pool_of_four = record { num_free = 3; alloc_size = 2; buffers = four; next_id = 4 }

abbrev pair : Batch
pair = record { buffers = none ∷ none ∷ []; rindex = 0; windex = 0; timestamp = 0; expire = false }

-- A batch of two gets the first two packets that are free.
take_test : (take pool_of_four pair).1.buffers ≡ some 0 ∷ some 2 ∷ []
unfolding take take_from push reset
take_test = refl

four-Accounted : Accounted pool_of_four
unfolding Accounted
four-Accounted = (refl, omega arith)

take-Accounted_example :
    Accounted (take pool_of_four pair).0
    × ((take pool_of_four pair).1.windex + count_free (take pool_of_four pair).0.buffers
        ≡ count_free pool_of_four.buffers)
take-Accounted_example = take-Accounted pool_of_four pair four-Accounted

release-Accounted_example :
    (after : Pool) × (release pool_of_four ≡ some after)
    × Accounted after
    × (in_use_of after.buffers ≡ in_use_of pool_of_four.buffers)
    × (count_free after.buffers + 2 ≡ count_free pool_of_four.buffers)
release-Accounted_example = release-Accounted pool_of_four four-Accounted (omega arith)

recycle_one-Accounted_example :
    Accounted (recycle_one 1 pool_of_four)
    × (count_free (recycle_one 1 pool_of_four).buffers
        ≡ count_free pool_of_four.buffers + (if leb busy.refcnt 1 then 1 else 0))
recycle_one-Accounted_example = recycle_one-Accounted 1 pool_of_four busy four-Accounted refl refl
