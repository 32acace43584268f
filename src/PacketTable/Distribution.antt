-- ===== src/PacketTable/Distribution.antt =====
-- packet/table.go: every packet reaches one table, and the packets of a flow the same one, in order.
use mathlib.Core.List.{append-nil, append_assoc}
use go_flows.Shared.{
  ℕ, zero, suc, ◌%◌, ◌<◌, ◌≡◌, refl, sym, ap, ◌∙◌, Bool, true, false, not, ◌&&◌, some, List, [],
  ◌∷◌, ◌++◌, if◌then◌else◌, ◌==◌, length, length-replicate, get_elem?, lt_length-get_elem?, ltb,
  replicate, arith, Key, key_eq, key_eq_iff, Bool-cases, inl, inr,
}
use go_flows.FlowTable.State.{Event}
use go_flows.FlowKey.Fields.{fnv_hash, fnv_basis}
use go_flows.PacketTable.Parallel.{
  Delivery, ParallelTable, is_empty, push_to, finalize, table_of, partition, parallel_event,
}

-- The packets with a key.
abbrev pub of_key : {P : Type 0} → Key → List (Event P) → List (Event P)
of_key k [] = []
of_key k (e ∷ es) = let rest = of_key k es in if key_eq e.key k then e ∷ rest else rest

length-push_to :
    {P : Type 0} (h : ℕ) (e : Event P) (tmp : List (List (Event P)))
    → length (push_to h e tmp) ≡ length tmp
length-push_to h e [] = refl
length-push_to zero e (b ∷ bs) = refl
length-push_to (suc h) e (b ∷ bs) = ap suc (length-push_to h e bs)

get_elem?-push_to :
    {P : Type 0} (h : ℕ) (e : Event P) (tmp : List (List (Event P))) (j : ℕ) (b : List (Event P))
    → get_elem? tmp j ≡ some b
    → get_elem? (push_to h e tmp) j ≡ some (if h == j then b ++ e ∷ [] else b)
get_elem?-push_to h e [] j b i = absurd (cc)
get_elem?-push_to zero e (c ∷ cs) zero b i = ground arith
get_elem?-push_to zero e (c ∷ cs) (suc j) b i = ground arith
get_elem?-push_to (suc h) e (c ∷ cs) zero b i = ground arith
get_elem?-push_to (suc h) e (c ∷ cs) (suc j) b i = ground (arith, get_elem?-push_to h e cs j b i)

some_inside : {A : Type 0} {a b : A} → some a ≡ some b → a ≡ b
some_inside e = cc

append-if :
    {A : Type 0} (c : Bool) (b : List A) (e : A) (r : List A)
    → (if c then b ++ e ∷ [] else b) ++ r ≡ b ++ (if c then e ∷ r else r)
append-if true b e r = append_assoc b (e ∷ []) r
append-if false b e r = refl

of_key-if :
    {P : Type 0} (k : Key) (c : Bool) (e : Event P) (r : List (Event P))
    → of_key k (if c then e ∷ r else r)
      ≡ (if c then (if key_eq e.key k then e ∷ of_key k r else of_key k r) else of_key k r)
of_key-if k true e r = refl
of_key-if k false e r = refl

module _ {P : Type 0} (xor : ℕ → ℕ → ℕ) where
  -- The packets of the table `j`, of `n`.
  abbrev pub of_table : ℕ → ℕ → List (Event P) → List (Event P)
  of_table n j [] = []
  of_table n j (e ∷ es) =
      let rest = of_table n j es in if table_of xor n e == j then e ∷ rest else rest

  get_elem?-partition :
      (n j : ℕ) (es : List (Event P)) (tmp : List (List (Event P))) (b : List (Event P))
      → length tmp ≡ n
      → get_elem? tmp j ≡ some b
      → get_elem? (partition xor es tmp) j ≡ some (b ++ of_table n j es)
  unfolding partition
  get_elem?-partition n j [] tmp b l i = i ∙ ap some (sym (append-nil b))
  get_elem?-partition n j (e ∷ es) tmp b l i =
      let h = table_of xor (length tmp) e in
      get_elem?-partition n j es (push_to h e tmp) (if h == j then b ++ e ∷ [] else b)
        (length-push_to h e tmp ∙ l) (get_elem?-push_to h e tmp j b i)
      ∙ ap (λ m. some ((if table_of xor m e == j then b ++ e ∷ [] else b) ++ of_table n j es)) l
      ∙ ap some (append-if (table_of xor n e == j) b e (of_table n j es))

  -- The packets of a flow are all in one table.
  of_key-of_table :
      (n j : ℕ) (k : Key) (es : List (Event P))
      → of_key k (of_table n j es) ≡ (if fnv_hash xor fnv_basis k % n == j then of_key k es else [])
  of_key-of_table n j k [] = ground arith
  of_key-of_table n j k (e ∷ es) =
      let same = λ (h : key_eq e.key k ≡ true).
        ap (λ l. fnv_hash xor fnv_basis l % n) ((key_eq_iff e.key k).0 h) in
      of_key-if k (table_of xor n e == j) e (of_table n j es)
      ∙ ground (arith, of_key-of_table n j k es, same)

  get_elem?-finalize :
      (current : ℕ) (expire : Bool) (bs : List (List (Event P))) (qs : List (List (Delivery P)))
      (j : ℕ) (b : List (Event P)) (q : List (Delivery P))
      → get_elem? bs j ≡ some b
      → get_elem? qs j ≡ some q
      → get_elem? (finalize current expire bs qs) j
        ≡ some (q ++ record { packets = b; timestamp = current; expire = expire } ∷ [])
  unfolding finalize
  get_elem?-finalize current expire [] qs j b q i k = absurd (cc)
  get_elem?-finalize current expire (c ∷ cs) [] j b q i k = absurd (cc)
  get_elem?-finalize current expire (c ∷ cs) (p ∷ ps) zero b q i k = cc
  get_elem?-finalize current expire (c ∷ cs) (p ∷ ps) (suc j) b q i k =
      get_elem?-finalize current expire cs ps j b q i k

  get_elem?-replicate :
      (n j : ℕ) → j < n → get_elem? (replicate {A = List (Event P)} n []) j ≡ some []
  get_elem?-replicate zero j h = absurd (omega arith)
  get_elem?-replicate (suc n) zero h = refl
  get_elem?-replicate (suc n) (suc j) h = get_elem?-replicate n j (omega arith)

  length-partition :
      (es : List (Event P)) (tmp : List (List (Event P)))
      → length (partition xor es tmp) ≡ length tmp
  unfolding partition
  length-partition [] tmp = refl
  length-partition (e ∷ es) tmp =
      let h = table_of xor (length tmp) e in
      length-partition es (push_to h e tmp) ∙ length-push_to h e tmp

  partition-of_table :
      (n j : ℕ) (es : List (Event P))
      → j < n
      → get_elem? (partition xor es (replicate n [])) j ≡ some (of_table n j es)
  partition-of_table n j es h =
      get_elem?-partition n j es (replicate n []) [] (length-replicate n [])
        (get_elem?-replicate n j h)

  -- The event of the parallel tables: each table `j` of `n` is sent one batch, of the packets whose hash
  -- is `j` modulo `n`, in order, with the time of the batch and whether it is past the next expiry; or
  -- nothing is sent, if there is no packet and no expiry. No packet is lost.
  pub parallel_event-queues :
      (current : ℕ) (es : List (Event P)) (w : ParallelTable P) (j : ℕ) (q : List (Delivery P))
      → get_elem? w.queues j ≡ some q
      → get_elem? (parallel_event xor current es w).queues j
        ≡ some (
            if is_empty es && not (ltb w.next_expire current)
            then q
            else q
              ++ record {
                packets = of_table (length w.queues) j es;
                timestamp = current;
                expire = ltb w.next_expire current;
              }
                ∷ [])
  unfolding parallel_event
  parallel_event-queues current es w j q i =
      let expire = ltb w.next_expire current in
      let n = length w.queues in
      let tmp = partition xor es (replicate n []) in
      let sent =
        get_elem?-finalize current expire tmp w.queues j (of_table n j es) q
          (partition-of_table n j es (lt_length-get_elem? w.queues j i)) i in
      elim (Bool-cases (is_empty es && not expire)) [ inl c ↦ rw c i | inr c ↦ rw c sent ]

  -- The packets of a flow, of those that a table gets of a batch: all of them, in order, in the table of
  -- the hash of their key, and none in any other.
  partition-of_key :
      (n j : ℕ) (k : Key) (es b : List (Event P))
      → get_elem? (partition xor es (replicate n [])) j ≡ some b
      → of_key k b ≡ (if fnv_hash xor fnv_basis k % n == j then of_key k es else [])
  partition-of_key n j k es b i =
      let tmp : List (List (Event P)) = replicate n [] in
      let size = length-partition es tmp ∙ length-replicate n [] in
      let h = lt_length-get_elem? (partition xor es tmp) j i in
      let all = partition-of_table n j es (omega (arith, h, size)) in
      ap (of_key k) (some_inside (sym i ∙ all)) ∙ of_key-of_table n j k es
