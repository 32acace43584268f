-- ===== src/ExportSort/Natural.antt =====
-- flows/exporter.go: findNaturalSublists finds the runs of a list and links each of them alone.
use mathlib.Core.List.{append-nil, append_assoc}
use go_flows.Shared.{
  ℕ, zero, suc, ◌+◌, ◌≤◌, ◌<◌, ◌≡◌, refl, sym, ap, ◌∙◌, subst, Bool, true, false, Option, none,
  some, List, [], ◌∷◌, ◌++◌, length, All, arith, Bool-cases, inl, inr,
}
use go_flows.ExportSort.Links.{Links, update, set_next}
use go_flows.ExportSort.Sublists.{
  Finding, to_list, start_at, find_at, find_loop, find_natural_sublists,
}
use go_flows.ExportSort.Chains.{
  start, Linked, count, Frame, count-append, Linked-frame, Linked-update,
}
use go_flows.ExportSort.Runs.{runs, runs_longer, runs_reversed, runs_ended}
use go_flows.ExportSort.Cuts.{
  Linked-suffix, reversed-frame, distinct-heads, reversed-Linked, count-zero_of_distinct,
  ended-frame, ended-apart, Linked-cut,
}

-- The pointers at the runs.
abbrev pub heads_of : List (List ℕ) → List ℕ
heads_of [] = []
heads_of (r ∷ rs) = to_list (start r) ++ heads_of rs

-- The loop returns `hs` and the heads of `rs`, which are linked; only pointers of `ws` have changed.
unfoldable pub Finds : List (List ℕ) → List ℕ → List ℕ → (ℕ → Option ℕ) → Option Finding → Type 0
Finds rs ws hs f o =
    (s : Finding) × (o ≡ some s)
    × (s.heads ≡ hs ++ heads_of rs)
    × All (Linked s.links.next) rs
    × Frame ws f s.links.next

-- The state between two sublists, and the state inside one.
abbrev between : List ℕ → List ℕ → Links → Finding
between hs xs h = record {
  links = h;
  heads = hs;
  head = start xs;
  prev = none;
  first = none;
  more = false;
}

abbrev some_before : List ℕ → Bool
some_before [] = false
some_before (_ ∷ _) = true

abbrev inside : List ℕ → List ℕ → ℕ → List ℕ → Links → Finding
inside hs seg v xs h = record {
  links = h;
  heads = hs;
  head = start xs;
  prev = some v;
  first = start (seg ++ v ∷ []);
  more = some_before seg;
}

-- One more sublist in front, which keeps its records.
Finds-cons :
    (r : List ℕ) (rs : List (List ℕ)) (vs ws hs : List ℕ) (f g : ℕ → Option ℕ) (o : Option Finding)
    → ((q : ℕ) → count q ws ≡ 0 → (g q ≡ f q) × (count q vs ≡ 0))
    → ((q : ℕ) → 0 < count q r → count q vs ≡ 0)
    → Linked g r
    → Finds rs vs (hs ++ to_list (start r)) g o
    → Finds (r ∷ rs) ws hs f o
unfolding Finds
Finds-cons r rs vs ws hs f g o k d l (s, e, eh, la, fr) = (
  s,
  e,
  eh ∙ append_assoc hs (to_list (start r)) (heads_of rs),
  (Linked-frame g s.links.next r (λ q c. fr q (d q c)) l, la),
  λ q c. fr q (k q c).1 ∙ (k q c).0,
)

Finds-to :
    (rs rs' : List (List ℕ)) (ws ws' hs : List ℕ) (f : ℕ → Option ℕ) (o o' : Option Finding)
    → rs ≡ rs'
    → o ≡ o'
    → ((q : ℕ) → count q ws ≡ 0 → count q ws' ≡ 0)
    → Finds rs' ws' hs f o'
    → Finds rs ws hs f o
unfolding Finds
Finds-to rs rs' ws ws' hs f o o' er eo k (s, e, eh, la, fr) = (
  s,
  eo ∙ e,
  eh ∙ ap (λ t. hs ++ heads_of t) (sym er),
  subst (All (Linked s.links.next)) (sym er) la,
  λ q c. fr q (k q c),
)

module _ (less : ℕ → ℕ → Bool) where
  -- The loop after its body.
  abbrev go_on : ℕ → Bool × Finding → Option Finding
  go_on n r = elim r.0 [ true ↦ find_loop less n r.1 | false ↦ some r.1 ]

  find_loop-between :
      (n x : ℕ) (hs xs : List ℕ) (h : Links)
      → h.next x ≡ start xs
      → find_loop less (suc n) (between hs (x ∷ xs) h)
        ≡ go_on n (start_at x (start xs) (between hs (x ∷ xs) h))
  unfolding find_loop
  find_loop-between n x hs xs h e = ap (λ p. go_on n (start_at x p (between hs (x ∷ xs) h))) e

  find_loop-inside :
      (n v p : ℕ) (hs seg xs : List ℕ) (h : Links)
      → find_loop less (suc n) (inside hs seg v (p ∷ xs) h)
        ≡ go_on n (find_at less p (some v) (inside hs seg v (p ∷ xs) h))
  unfolding find_loop
  find_loop-inside n v p hs seg xs h = refl

  extended :
      (n p : ℕ) (hs : List ℕ) (first : Option ℕ) (h : Links) {q r : Option ℕ}
      → q ≡ r
      → find_loop less n
          (record { links = h; heads = hs; head = q; prev = some p; first = first; more = true })
        ≡ find_loop less n
            (record { links = h; heads = hs; head = r; prev = some p; first = first; more = true })
  extended n p hs first h e =
      ap
        (λ q.
          find_loop less n
            (record { links = h; heads = hs; head = q; prev = some p; first = first; more = true }))
        e

  -- The next record is in order.
  find_loop_longer :
      (n v p : ℕ) (hs seg xs : List ℕ) (h : Links)
      → less v p ≡ true
      → h.next p ≡ start xs
      → find_loop less (suc n) (inside hs seg v (p ∷ xs) h)
        ≡ find_loop less n (inside hs (seg ++ v ∷ []) p xs h)
  find_loop_longer n v p hs [] xs h e k =
      find_loop-inside n v p hs [] xs h ∙ rw e (extended n p hs (some v) h k)
  find_loop_longer n v p hs (s ∷ seg) xs h e k =
      find_loop-inside n v p hs (s ∷ seg) xs h ∙ rw e (extended n p hs (some s) h k)

  find_loop_reversed :
      (n v p : ℕ) (hs xs : List ℕ) (h : Links)
      → less v p ≡ false
      → h.next p ≡ start xs
      → find_loop less (suc n) (inside hs [] v (p ∷ xs) h)
        ≡ find_loop less n (between (hs ++ p ∷ []) xs (set_next v none (set_next p (some v) h)))
  find_loop_reversed n v p hs xs h e k =
      find_loop-inside n v p hs [] xs h
      ∙ rw e (
          ap
            (λ q. find_loop less n (record {
              links = set_next v none (set_next p (some v) h);
              heads = hs ++ p ∷ [];
              head = q;
              prev = none;
              first = none;
              more = false;
            }))
            k)

  find_loop_ended :
      (n v p s : ℕ) (hs seg xs : List ℕ) (h : Links)
      → less v p ≡ false
      → find_loop less (suc n) (inside hs (s ∷ seg) v (p ∷ xs) h)
        ≡ find_loop less n (between (hs ++ s ∷ []) (p ∷ xs) (set_next v none h))
  find_loop_ended n v p s hs seg xs h e = find_loop-inside n v p hs (s ∷ seg) xs h ∙ rw e refl

  mutual
    unfolding find_loop runs Finds

    -- Between two sublists; each record takes two rounds at most.
    between-Finds :
        (n : ℕ) (hs xs : List ℕ) (h : Links)
        → Linked h.next xs
        → ((q : ℕ) → count q xs ≤ 1)
        → length xs + length xs < n
        → Finds (runs less none xs) xs hs h.next (find_loop less n (between hs xs h))
    between-Finds zero hs xs h l d k = absurd (omega arith)
    between-Finds (suc n) hs [] h l d k = (_, refl, refl, tt, λ q c. refl)
    between-Finds (suc n) hs (x ∷ []) h (e, l) d k =
        subst (Finds ((x ∷ []) ∷ []) (x ∷ []) hs h.next) (sym (find_loop-between n x hs [] h e))
          (_, refl, refl, ((e, tt), tt), λ q c. refl)
    between-Finds (suc n) hs (x ∷ y ∷ xs) h (e, l) d k =
        subst (Finds (runs less (some ([], x)) (y ∷ xs)) (x ∷ y ∷ xs) hs h.next)
          (sym (find_loop-between n x hs (y ∷ xs) h e))
          (inside-Finds n hs [] x (y ∷ xs) h (e, l) d (omega arith))

    inside-Finds :
        (n : ℕ) (hs seg : List ℕ) (v : ℕ) (xs : List ℕ) (h : Links)
        → Linked h.next (seg ++ v ∷ xs)
        → ((q : ℕ) → count q (seg ++ v ∷ xs) ≤ 1)
        → length xs + length xs + 1 < n
        → Finds
            (runs less (some (seg, v)) xs)
            (seg ++ v ∷ xs)
            hs
            h.next
            (find_loop less n (inside hs seg v xs h))
    inside-Finds zero hs seg v xs h l d k = absurd (omega arith)
    inside-Finds (suc n) hs seg v [] h l d k = (
      _,
      refl,
      ap (λ t. hs ++ t) (sym (append-nil (to_list (start (seg ++ v ∷ []))))),
      (l, tt),
      λ q c. refl,
    )
    inside-Finds (suc n) hs [] v (p ∷ xs) h l d k = elim (Bool-cases (less v p)) [
      | inl e ↦
          Finds-to _ _ (v ∷ p ∷ xs) (v ∷ p ∷ xs) hs h.next _ _ (runs_longer less [] v p xs e)
            (find_loop_longer n v p hs [] xs h e l.1.0) (λ q c. c)
            (inside-Finds n hs (v ∷ []) p xs h l d (omega arith))
      | inr e ↦
          Finds-to _ _ (v ∷ p ∷ xs) (v ∷ p ∷ xs) hs h.next _ _ (runs_reversed less v p xs e)
            (find_loop_reversed n v p hs xs h e l.1.0) (λ q c. c)
            (Finds-cons (p ∷ v ∷ []) (runs less none xs) xs (v ∷ p ∷ xs) hs h.next
              (update (update h.next p (some v)) v none) _ (reversed-frame h.next v p xs)
              (λ q c. omega (arith, d q)) (reversed-Linked h.next v p (distinct-heads v p xs d))
              (between-Finds n (hs ++ p ∷ []) xs (set_next v none (set_next p (some v) h))
                (Linked-update _ v none xs
                  (omega (arith, (count-zero_of_distinct [] v (p ∷ xs) d).1))
                  (Linked-update h.next p (some v) xs (count-zero_of_distinct (v ∷ []) p xs d).1
                    l.1.1))
                (λ q. omega (arith, d q)) (omega arith)))
    ]
    inside-Finds (suc n) hs (s ∷ seg) v (p ∷ xs) h l d k = elim (Bool-cases (less v p)) [
      | inl e ↦
          Finds-to _ _ ((s ∷ seg) ++ v ∷ p ∷ xs) (((s ∷ seg) ++ v ∷ []) ++ p ∷ xs) hs h.next _ _
            (runs_longer less (s ∷ seg) v p xs e)
            (find_loop_longer n v p hs (s ∷ seg) xs h e
              (Linked-suffix h.next (s ∷ seg) (v ∷ p ∷ xs) l).1.0)
            (λ q. subst (λ t. count q t ≡ 0) (sym (append_assoc (s ∷ seg) (v ∷ []) (p ∷ xs))))
            (inside-Finds n hs ((s ∷ seg) ++ v ∷ []) p xs h
              (subst (Linked h.next) (sym (append_assoc (s ∷ seg) (v ∷ []) (p ∷ xs))) l)
              (λ q.
                subst (λ t. count q t ≤ 1) (sym (append_assoc (s ∷ seg) (v ∷ []) (p ∷ xs))) (d q))
              (omega arith))
      | inr e ↦
          Finds-to _ _ ((s ∷ seg) ++ v ∷ p ∷ xs) ((s ∷ seg) ++ v ∷ p ∷ xs) hs h.next _ _
            (runs_ended less s seg v p xs e) (find_loop_ended n v p s hs seg xs h e) (λ q c. c)
            (Finds-cons ((s ∷ seg) ++ v ∷ []) (runs less none (p ∷ xs)) (p ∷ xs)
              ((s ∷ seg) ++ v ∷ p ∷ xs) hs h.next (update h.next v none) _
              (ended-frame h.next (s ∷ seg) v (p ∷ xs)) (λ q. ended-apart (s ∷ seg) v (p ∷ xs) q d)
              (Linked-cut h.next (s ∷ seg) (p ∷ xs) v l
                (count-zero_of_distinct (s ∷ seg) v (p ∷ xs) d).0)
              (between-Finds n (hs ++ s ∷ []) (p ∷ xs) (set_next v none h)
                (Linked-update h.next v none (p ∷ xs)
                  (count-zero_of_distinct (s ∷ seg) v (p ∷ xs) d).1
                  (Linked-suffix h.next (s ∷ seg) (v ∷ p ∷ xs) l).1)
                (λ q. omega (arith, d q, count-append q (s ∷ seg) (v ∷ p ∷ xs))) (omega arith)))
    ]

  -- findNaturalSublists of a linked list in which no record stands twice, with more fuel than twice its
  -- length: it returns the pointers at the runs of the list, in order, each run is a linked list of its
  -- own, and no other record's pointer has changed.
  pub find_natural_sublists-Finds :
      (n x : ℕ) (xs : List ℕ) (h : Links)
      → Linked h.next (x ∷ xs)
      → ((q : ℕ) → count q (x ∷ xs) ≤ 1)
      → length (x ∷ xs) + length (x ∷ xs) < n
      → Finds (runs less none (x ∷ xs)) (x ∷ xs) [] h.next (find_natural_sublists less n h x)
  unfolding find_natural_sublists
  find_natural_sublists-Finds n x xs h l d k = between-Finds n [] (x ∷ xs) h l d k
