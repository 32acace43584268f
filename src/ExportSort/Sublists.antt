-- ===== src/ExportSort/Sublists.antt =====
-- flows/exporter.go: findNaturalSublists and mergeSublist. `less` is lessExpiry of two records. The
-- loops take fuel, and `none` is that it ran out.
use go_flows.Shared.{
  ℕ, zero, suc, Bool, true, false, Option, none, some, List, [], ◌∷◌, ◌++◌, if◌then◌else◌,
}
use go_flows.ExportSort.Links.{Links, set_next, set_prev}

abbrev pub to_list : Option ℕ → List ℕ
to_list none = []
to_list (some p) = p ∷ []

-- The variables of findNaturalSublists.
pub record Finding : Type 0 where
  pub links : Links
  pub heads : List ℕ
  pub head : Option ℕ
  pub prev : Option ℕ
  pub first : Option ℕ
  pub more : Bool

-- `prev` is nil: a new sublist starts at `p`, and `false` says that `p` is the last record.
abbrev pub start_at : ℕ → Option ℕ → Finding → Bool × Finding
start_at p none s = (false, record s { heads = s.heads ++ p ∷ [] })
start_at p (some q) s = (true, record s { first = some p; prev = some p; head = some q })

-- Two records in the wrong order are a sublist of their own, reversed.
abbrev pub reverse_two : ℕ → ℕ → Finding → Finding
reverse_two v p s = record s {
  links = set_next v none (set_next p (some v) s.links);
  heads = s.heads ++ p ∷ [];
  first = none;
  prev = none;
  head = s.links.next p;
}

-- The end of a sublist of two or more records in order.
abbrev pub end_sublist : ℕ → Finding → Finding
end_sublist v s = record s {
  heads = s.heads ++ to_list s.first;
  first = none;
  links = set_next v none s.links;
  more = false;
  prev = none;
}

abbrev pub extend : ℕ → Finding → Finding
extend p s = record s { more = true; prev = some p; head = s.links.next p }

module _ (less : ℕ → ℕ → Bool) where
  -- The body of the loop at the record `p`; `false` is a return.
  abbrev pub find_at : ℕ → Option ℕ → Finding → Bool × Finding
  find_at p none s = start_at p (s.links.next p) s
  find_at p (some v) s =
      if less v p
      then (true, extend p s)
      else if s.more
      then (true, end_sublist v s)
      else (true, reverse_two v p s)

  unfoldable pub find_loop : ℕ → Finding → Option Finding
  find_loop zero s = none
  find_loop (suc n) s = elim s.head [
    | none ↦ some (record s { heads = s.heads ++ to_list s.first })
    | some p ↦
        let (more_to_do, t) = find_at p s.prev s in
        elim more_to_do [ true ↦ find_loop n t | false ↦ some t ]
  ]

  unfoldable pub find_natural_sublists : ℕ → Links → ℕ → Option Finding
  find_natural_sublists n links head = find_loop n (record {
    links = links;
    heads = [];
    head = some head;
    prev = none;
    first = none;
    more = false;
  })

-- The variables of mergeSublist.
pub record Merging : Type 0 where
  pub links : Links
  pub a : Option ℕ
  pub b : Option ℕ
  pub ret : Option ℕ
  pub tail : Option ℕ

-- `tail.next = v`; the tail is nil only before the first record.
abbrev pub link_tail : Option ℕ → Option ℕ → Links → Links
link_tail none v h = h
link_tail (some t) v h = set_next t v h

-- The lines of the loop after the choice of `elem`.
abbrev pub add_elem : Bool → ℕ → Option ℕ → Merging → Merging
add_elem last elem none s = record s {
  links = if last then set_prev elem (some elem) s.links else s.links;
  ret = some elem;
  tail = some elem;
}
add_elem last elem (some _) s = record s {
  links = link_tail s.tail (some elem) (if last then set_prev elem none s.links else s.links);
  tail = some elem;
}

-- What is left of one list is linked to the tail.
abbrev pub attach : Option ℕ → Option ℕ → Option ℕ → Links → Links
attach none none tail h = h
attach (some x) none tail h = link_tail tail (some x) h
attach none (some y) tail h = link_tail tail (some y) h
attach (some x) (some y) tail h = link_tail tail (some y) (link_tail tail (some x) h)

-- `for a != nil`: the tail moves to the end, and the pointers back are cleared.
unfoldable pub clear_prev : ℕ → Option ℕ → Option ℕ → Links → Option (Option ℕ × Links)
clear_prev zero a tail h = none
clear_prev (suc n) none tail h = some (tail, h)
clear_prev (suc n) (some x) tail h = clear_prev n (h.next x) (some x) (set_prev x none h)

-- `ret.prev = tail`.
abbrev pub close_list : Option ℕ → Option ℕ → Links → Links
close_list none tail h = h
close_list (some r) tail h = set_prev r tail h

-- The lines under the second `if last`.
unfoldable pub fix_prev :
    ℕ → Option ℕ → Option ℕ → Option ℕ → Option ℕ → Links → Option (Option ℕ × Links)
fix_prev n a b ret tail h = elim (clear_prev n a tail h) [
  | none ↦ none
  | some (tail', h') ↦ elim (clear_prev n b tail' h') [
    | none ↦ none
    | some (tail'', h'') ↦ some (ret, close_list ret tail'' h'')
  ]
]

-- The lines after the loop: the returned pointer, which is nil for two nil lists, and the links.
abbrev pub finish_loop : Bool → ℕ → Option Merging → Option (Option ℕ × Links)
finish_loop last n none = none
finish_loop last n (some s) =
    let h = attach s.a s.b s.tail s.links in
    if last then fix_prev n s.a s.b s.ret s.tail h else some (s.ret, h)

module _ (less : ℕ → ℕ → Bool) where
  abbrev pub merge_step : Bool → ℕ → ℕ → Merging → Merging
  merge_step last x y s =
      if less x y
      then add_elem last x s.ret (record s { a = s.links.next x })
      else add_elem last y s.ret (record s { b = s.links.next y })

  unfoldable pub merge_loop : Bool → ℕ → Merging → Option Merging
  merge_loop last zero s = none
  merge_loop last (suc n) s = elim s.a [
    | none ↦ some s
    | some x ↦ elim s.b [ none ↦ some s | some y ↦ merge_loop last n (merge_step last x y s) ]
  ]

  unfoldable pub merge_sublist : Bool → ℕ → Option ℕ → Option ℕ → Links → Option (Option ℕ × Links)
  merge_sublist last n a b links =
      finish_loop last n
        (merge_loop last n (record { links = links; a = a; b = b; ret = none; tail = none }))
