-- ===== src/FlowTable/Invariant.antt =====
-- flows/table.go: the invariant of the index of a flow table, and the three writes that the
-- operations make to it.
use go_flows.Shared.{
  ℕ, ◌+◌, ◌<◌, ◌≡◌, refl, ap, ◌≢◌, inl, inr, true, false, Option, none, some, List, [], ◌∷◌, ◌++◌,
  arith, ◌==◌, if◌then◌else◌, Bool-cases, length, get_elem?, get_elem?-set, get_elem?-append_last,
  All-mono, All-both, set, All, Key, key_eq, key_eq_iff, lookup, delete, insert, lookup-insert,
  lookup-delete, lt_length-get_elem?,
}
use go_flows.FlowTable.State.{Flow, Index}
use go_flows.FlowTable.Flow.{update}
use go_flows.FlowTable.Table.{place, place_at}

-- No slot is free twice.
abbrev pub Distinct : List ℕ → Type 0
Distinct [] = Unit
Distinct (i ∷ l) = All (λ j. j ≢ i) l × Distinct l

module _ {R : Type 0} where
  -- Each key leads to a slot with a flow of that key, each flow in a slot is active and is found
  -- under its key, each active flow is in a slot, and the free slots are distinct empty slots.
  pub record IsIndexed (x : Index R) : Type 0 where
    pub live :
        (k : Key) (i : ℕ)
        → lookup k x.flows ≡ some i
        → (p : ℕ) × (get_elem? x.flowlist i ≡ some (some p)) × ((x.heap p).key ≡ k)
    pub slot :
        (i p : ℕ)
        → get_elem? x.flowlist i ≡ some (some p)
        → (lookup (x.heap p).key x.flows ≡ some i) × ((x.heap p).active ≡ true) × (p < x.next_ptr)
    pub placed :
        (p : ℕ) → (x.heap p).active ≡ true → (i : ℕ) × (get_elem? x.flowlist i ≡ some (some p))
    pub free : All (λ i. get_elem? x.flowlist i ≡ some none) x.freelist
    pub distinct : Distinct x.freelist

  -- A write to a flow that keeps its key and its activity keeps the invariant.
  pub update-IsIndexed :
      (x : Index R) (p : ℕ) (f : Flow R)
      → f.key ≡ (x.heap p).key
      → f.active ≡ (x.heap p).active
      → IsIndexed x
      → IsIndexed (record x { heap = update x.heap p f })
  update-IsIndexed x p f hk ha v = record {
    live = λ k i e. ((v.live k i e).0, (v.live k i e).1, ground (arith, v.live k i e));
    slot = λ i q e. ground (arith, v.slot i q e);
    placed = λ q e. v.placed q (ground arith);
    free = v.free;
    distinct = v.distinct;
  }

  -- What is left once the flow at `p` has lost its slot `i`.
  pub drop-IsIndexed :
      (x : Index R) (p i : ℕ) (f : Flow R)
      → f.active ≡ false
      → get_elem? x.flowlist i ≡ some (some p)
      → IsIndexed x
      → IsIndexed (record x {
        flowlist = set x.flowlist i none;
        freelist = i ∷ x.freelist;
        flows = delete (x.heap p).key x.flows;
        heap = update x.heap p f;
      })
  drop-IsIndexed x p i f off e v = record {
    live = λ k j h. kept k j h;
    slot = λ j q h. ground (
      arith,
      get_elem?-set x.flowlist i j none inside,
      v.slot i p e,
      v.slot j q,
      lookup-delete (x.heap p).key (x.heap q).key x.flows,
      key_eq_iff (x.heap p).key (x.heap q).key,
    );
    placed = λ q h. (
      (v.placed q (ground arith)).0,
      ground
          (arith, v.placed q, get_elem?-set x.flowlist i (v.placed q (ground arith)).0 none inside),
    );
    free = (
      ground (arith, get_elem?-set x.flowlist i i none inside),
      All-mono x.freelist (λ j h. ground (arith, get_elem?-set x.flowlist i j none inside)) v.free,
    );
    distinct = (
      All-mono x.freelist (λ j h. λ same. ground (arith, same, ap (get_elem? x.flowlist) same))
          v.free,
      v.distinct,
    );
  }
    where
      inside : i < length x.flowlist
      inside = lt_length-get_elem? x.flowlist i e

      kept :
          (k : Key) (j : ℕ)
          → lookup k (delete (x.heap p).key x.flows) ≡ some j
          → (q : ℕ) × (get_elem? (set x.flowlist i none) j ≡ some (some q))
            × ((update x.heap p f q).key ≡ k)
      kept k j h =
          let old : lookup k x.flows ≡ some j =
            ground (arith, lookup-delete (x.heap p).key k x.flows) in
          let (q, held, named) = v.live k j old in
          let moved : (j ≢ i) × (q ≢ p) = ground (
            arith,
            v.slot i p e,
            lookup-delete (x.heap p).key k x.flows,
            key_eq_iff (x.heap p).key k,
          ) in
          (q, ground (arith, get_elem?-set x.flowlist i j none inside), ground arith)

  -- The index in which a new flow of a key that has none sits in slot `i`, an empty slot or the
  -- next one.
  place-slot-IsIndexed :
      (x : Index R) (k : Key) (f : Flow R) (i : ℕ) (slots : List (Option ℕ)) (free : List ℕ)
      → f.key ≡ k
      → f.active ≡ true
      → lookup k x.flows ≡ none
      → ((j : ℕ)
          → get_elem? slots j ≡ (if j == i then some (some x.next_ptr) else get_elem? x.flowlist j))
      → ((p : ℕ) → get_elem? x.flowlist i ≢ some (some p))
      → All (λ j. get_elem? slots j ≡ some none) free
      → Distinct free
      → IsIndexed x
      → IsIndexed (record x {
        flowlist = slots;
        freelist = free;
        flows = insert k i x.flows;
        heap = update x.heap x.next_ptr f;
        next_ptr = x.next_ptr + 1;
      })
  place-slot-IsIndexed x k f i slots free named on new read vacant hf hd v = record {
    live = found;
    slot = λ j q h. ground (
      arith,
      read j,
      v.slot j q,
      lookup-insert k (update x.heap x.next_ptr f q).key i x.flows,
      key_eq_iff k (update x.heap x.next_ptr f q).key,
    );
    placed = settled;
    free = hf;
    distinct = hd;
  }
    where
      settled :
          (q : ℕ)
          → (update x.heap x.next_ptr f q).active ≡ true
          → (j : ℕ) × (get_elem? slots j ≡ some (some q))
      settled q h = elim (Bool-cases (q == x.next_ptr)) [
        | inl same ↦ (i, ground (arith, read i))
        | inr other ↦
            let (j, held) = v.placed q (ground arith) in (j, ground (arith, read j, vacant q))
      ]

      found :
          (l : Key) (j : ℕ)
          → lookup l (insert k i x.flows) ≡ some j
          → (q : ℕ) × (get_elem? slots j ≡ some (some q)) × ((update x.heap x.next_ptr f q).key ≡ l)
      found l j h = elim (Bool-cases (key_eq k l)) [
        | inl same ↦ (
          x.next_ptr,
          ground (arith, read j, lookup-insert k l i x.flows),
          ground (arith, key_eq_iff k l),
        )
        | inr other ↦
            let old : lookup l x.flows ≡ some j = ground (arith, lookup-insert k l i x.flows) in
            let (q, held, name) = v.live l j old in
            (q, ground (arith, read j, vacant q), ground (arith, v.slot j q))
      ]

  -- A flow of a key that the table lacks is placed by the index of FlowTable.Event.
  pub place-IsIndexed :
      (x : Index R) (k : Key) (f : Flow R)
      → f.key ≡ k
      → f.active ≡ true
      → lookup k x.flows ≡ none
      → IsIndexed x
      → IsIndexed (
          place k x.next_ptr
            (record x { heap = update x.heap x.next_ptr f; next_ptr = x.next_ptr + 1 }))
  unfolding place place_at
  place-IsIndexed x k f named on new v = go x.freelist refl
    where
      go :
          (l : List ℕ)
          → x.freelist ≡ l
          → IsIndexed (
              place_at l k x.next_ptr
                (record x { heap = update x.heap x.next_ptr f; next_ptr = x.next_ptr + 1 }))
      go [] e =
          place-slot-IsIndexed x k f (length x.flowlist) (x.flowlist ++ some x.next_ptr ∷ [])
            x.freelist named on new (get_elem?-append_last x.flowlist (some x.next_ptr))
            (λ p h. absurd (omega (arith, lt_length-get_elem? x.flowlist (length x.flowlist) h)))
            (All-mono x.freelist
              (λ j h. ground (
                arith,
                get_elem?-append_last x.flowlist (some x.next_ptr) j,
                lt_length-get_elem? x.flowlist j h,
              ))
              v.free)
            v.distinct v
      go (i ∷ l) e =
          let free : All (λ j. get_elem? x.flowlist j ≡ some none) (i ∷ l) = rw e at v.free in
          let distinct : Distinct (i ∷ l) = rw e at v.distinct in
          place-slot-IsIndexed x k f i (set x.flowlist i (some x.next_ptr)) l named on new
            (λ j. ground (arith, filled j)) (λ p h. cc free.0)
            (All-both l (λ j held apart. ground (arith, filled j)) free.1 distinct.0) distinct.1 v
        where
          filled :
              (j : ℕ)
              → get_elem? (set x.flowlist i (some x.next_ptr)) j
                ≡ (if i == j then some (some x.next_ptr) else get_elem? x.flowlist j)
          filled j =
              get_elem?-set x.flowlist i j (some x.next_ptr)
                (lt_length-get_elem? x.flowlist i (rw e at v.free).0)
