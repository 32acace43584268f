-- ===== src/ExportMerge/Ends.antt =====
-- flows/exporter.go: mergeTreeWorker ends once its inputs are closed, and is never stuck.
use go_flows.Shared.{
  ℕ, zero, suc, ◌+◌, ◌*◌, ◌<◌, ◌≤◌, ◌≡◌, ◌≢◌, ◌⊎◌, refl, ap, Bool, true, false, not, List, [], ◌∷◌,
  length, arith, if_both, Bool-cases, inl, inr,
}
use go_flows.ExportMerge.Queues.{
  Side, left, right, other, has_head, has_both_heads, publish, merge_while,
}
use go_flows.ExportMerge.Worker.{
  Phase, initial, polling, fetching, done, partial, Worker, start, channel, receive_from, receive,
  flush, finish, can_merge, partial_end, partial_round, merge_round, Step, get_initial, started,
  poll, nothing_to_poll, fetch, partial_step, Reach, next,
}

abbrev rank : Phase → ℕ
rank initial = 5
rank polling = 4
rank fetching = 3
rank (partial _ true) = 2
rank (partial _ false) = 1
rank done = 0

-- The lists still to be received count more than the phases.
abbrev pub to_do : {A : Type 0} → Worker A → ℕ
to_do w = 6 * (length w.a + length w.b) + rank w.phase

rank-partial : (s : Side) (ok : Bool) → 0 < rank (partial s ok)
rank-partial s true = omega arith
rank-partial s false = omega arith

rank-partial_ok : (s : Side) (ok : Bool) → not ok ≡ false → rank (partial s ok) ≡ 2
rank-partial_ok s true e = refl
rank-partial_ok s false e = absurd (cc)

module _ {A : Type 0} (less : A → A → Bool) where
  to_do-receive_from :
      (s : Side) (l : List (List A)) (got closed : Phase) (w : Worker A)
      → channel s w ≡ l
      → rank got ≤ rank w.phase + 5
      → rank closed < rank w.phase
      → to_do (receive_from s l got closed w) < to_do w
  to_do-receive_from s [] got closed w e h k = omega arith
  to_do-receive_from left (x ∷ l) got closed w e h k = let n = ap length e in omega arith
  to_do-receive_from right (x ∷ l) got closed w e h k = let n = ap length e in omega arith

  to_do-receive :
      (s : Side) (got closed : Phase) (w : Worker A)
      → rank got ≤ rank w.phase + 5
      → rank closed < rank w.phase
      → to_do (receive s got closed w) < to_do w
  unfolding receive
  to_do-receive s got closed w h k = to_do-receive_from s (channel s w) got closed w refl h k

  to_do-flush : (s : Side) (w : Worker A) → 0 < rank w.phase → to_do (flush s w) < to_do w
  unfolding flush
  to_do-flush left w h = omega arith
  to_do-flush right w h = omega arith

  to_do-finish : (w : Worker A) → 0 < rank w.phase → to_do (finish less w) < to_do w
  unfolding finish
  to_do-finish w h = omega arith

  to_do-partial_end :
      (s : Side) (ok : Bool) (w : Worker A)
      → w.phase ≡ partial s ok
      → to_do (partial_end less s ok w) < to_do w
  unfolding partial_end
  to_do-partial_end s ok w e =
      let r = ap rank e in
      let p = rank-partial s ok in
      if_both (λ (u : Worker A). to_do u < to_do w) (not (has_head s w.queues)) _ _
        (λ _. to_do-flush (other s) w (omega arith))
        (λ _.
          if_both (λ (u : Worker A). to_do u < to_do w) (not ok) _ _
            (λ _. to_do-finish w (omega arith))
            (λ o.
              let two = rank-partial_ok s ok o in
              to_do-receive (other s) (partial s true) (partial s false) w (omega arith)
                (omega arith)))

  -- Every step of mergeTreeWorker brings it nearer to its end: the number of lists still to be
  -- received, six times, and the rank of the phase fall together.
  pub Step-to_do : {v w : Worker A} → Step less v w → to_do w < to_do v
  unfolding partial_round merge_round
  Step-to_do {v} (get_initial s e n) =
      let r = ap rank e in to_do-receive s initial (partial s true) v (omega arith) (omega arith)
  Step-to_do {v} (started e n) = let r = ap rank e in omega arith
  Step-to_do {v} (poll s e) =
      let r = ap rank e in to_do-receive s polling (partial s true) v (omega arith) (omega arith)
  Step-to_do {v} (nothing_to_poll e) = let r = ap rank e in omega arith
  Step-to_do {v} (fetch s e) =
      let r = ap rank e in to_do-receive s polling (partial s true) v (omega arith) (omega arith)
  Step-to_do {v} (partial_step s ok e) =
      to_do-partial_end s ok
        (record v { queues = publish (merge_while less (can_merge s) v.queues) }) e

  -- A worker that is not done has a step.
  Step-from : (p : Phase) (w : Worker A) → w.phase ≡ p → p ≢ done → (v : Worker A) × Step less w v
  Step-from initial w e n = elim (Bool-cases (has_both_heads w.queues)) [
    | inl h ↦ (_, started e h)
    | inr h ↦ (_, get_initial left e h)
  ]
  Step-from polling w e n = (_, nothing_to_poll e)
  Step-from fetching w e n = (_, fetch left e)
  Step-from (partial s ok) w e n = (_, partial_step s ok e)
  Step-from done w e n = absurd (n refl)

  done-or : (p : Phase) → (p ≡ done) ⊎ (p ≢ done)
  done-or done = inl refl
  done-or initial = inr (λ e. cc)
  done-or polling = inr (λ e. cc)
  done-or fetching = inr (λ e. cc)
  done-or (partial s ok) = inr (λ e. cc)

  reaches_done :
      (n : ℕ) (v w : Worker A)
      → Reach less v w
      → to_do w ≤ n
      → (u : Worker A) × Reach less v u × (u.phase ≡ done)
  reaches_done zero v w r h = elim (done-or w.phase) [
    | inl d ↦ (w, r, d)
    | inr d ↦ let (u, st) = Step-from w.phase w refl d in absurd (omega (arith, Step-to_do st))
  ]
  reaches_done (suc n) v w r h = elim (done-or w.phase) [
    | inl d ↦ (w, r, d)
    | inr d ↦
        let (u, st) = Step-from w.phase w refl d in
        reaches_done n v u (next r st) (omega (arith, Step-to_do st))
  ]

-- However far mergeTreeWorker has got, it can go on until it closes its result.
pub Reach-done :
    {A : Type 0} (less : A → A → Bool) (a b : List (List A)) {w : Worker A}
    → Reach less (start a b) w
    → (u : Worker A) × Reach less (start a b) u × (u.phase ≡ done)
Reach-done less a b {w} r = reaches_done less (to_do w) (start a b) w r (omega arith)
