-- ===== src/ExportMerge/Merged.antt =====
-- flows/exporter.go: whatever order mergeTreeWorker receives in, it sends the merge of its inputs.
use mathlib.Core.List.{flatten}
use go_flows.Shared.{◌≡◌, refl, subst, sym, ◌∙◌, Bool, true, false, not, List, [], if_both, merge}
use go_flows.ExportMerge.Queues.{
  Side, left, right, other, Queues, has_head, both_have_two_elements, publish, merge_while,
}
use go_flows.ExportMerge.Worker.{
  initial, polling, done, partial, Worker, start, channel, receive, flush, finish, can_merge,
  partial_end, partial_round, merge_round, Step, get_initial, started, poll, nothing_to_poll, fetch,
  partial_step, Reach, here, next,
}
use go_flows.ExportMerge.Loops.{outcome, outcome-merge_while, outcome-publish, heads-publish}
use go_flows.ExportMerge.Kept.{
  not-true, Sends, Kept, receive-Kept, receive_other-Kept, flush-Kept, finish-Kept,
}

module _ {A : Type 0} (less : A → A → Bool) (t : List A) where
  -- The receive of PARTIAL.
  receive_partial-Kept :
      (s : Side) (w : Worker A)
      → channel s w ≡ []
      → Sends less t w
      → Kept less t
          (receive (other s) (partial s true) (partial s false) w).phase
          (receive (other s) (partial s true) (partial s false) w)
  unfolding receive
  receive_partial-Kept s w e h =
      let (v, d, r) = receive_other-Kept less t s (channel (other s) w) w refl e h in
      subst (λ u. Kept less t u.phase u) (sym d) r

  done-Kept : (w : Worker A) → w.phase ≡ done → flatten w.queues.result ≡ t → Kept less t w.phase w
  done-Kept w e h = subst (λ p. Kept less t p w) (sym e) h

  phase-flush : (s : Side) (w : Worker A) → (flush s w).phase ≡ done
  unfolding flush
  phase-flush left w = refl
  phase-flush right w = refl

  Kept-Sends : (s : Side) (ok : Bool) (w : Worker A) → Kept less t (partial s ok) w → Sends less t w
  Kept-Sends s true w h = h.1
  Kept-Sends s false w h = h.2

  Kept-channel :
      (s : Side) (ok : Bool) (w : Worker A) → Kept less t (partial s ok) w → channel s w ≡ []
  Kept-channel s true w h = h.0
  Kept-channel left false w h = h.0
  Kept-channel right false w h = h.1

  not_ok-Kept :
      (s : Side) (ok : Bool) (w : Worker A)
      → not ok ≡ true
      → Kept less t (partial s ok) w
      → (w.a ≡ []) × (w.b ≡ [])
  not_ok-Kept s true w e h = absurd (cc)
  not_ok-Kept s false w e h = (h.0, h.1)

  phase-finish : (w : Worker A) → (finish less w).phase ≡ done
  unfolding finish
  phase-finish w = refl

  -- Each of the three ways that a round of PARTIAL ends.
  partial_end-Kept :
      (s : Side) (ok : Bool) (w : Worker A)
      → w.queues.merged ≡ []
      → Kept less t (partial s ok) w
      → Kept less t (partial_end less s ok w).phase (partial_end less s ok w)
  unfolding partial_end
  partial_end-Kept s ok w m h =
      let k = Kept-Sends s ok w h in
      let c = Kept-channel s ok w h in
      if_both (λ u. Kept less t u.phase u) (not (has_head s w.queues)) _ _
        (λ e. done-Kept _ (phase-flush (other s) w) (flush-Kept less t s w (not-true _ e) m c k))
        (λ _.
          if_both (λ u. Kept less t u.phase u) (not ok) _ _
            (λ e.
              let (ea, eb) = not_ok-Kept s ok w e h in
              done-Kept _ (phase-finish w) (finish-Kept less t w ea eb k))
            (λ _. receive_partial-Kept s w c k))

  -- A change of the queues that changes nothing of what is sent in the end.
  queues-Kept :
      (s : Side) (ok : Bool) (w : Worker A) (q : Queues A)
      → outcome less q (flatten w.a) (flatten w.b)
        ≡ outcome less w.queues (flatten w.a) (flatten w.b)
      → Kept less t (partial s ok) w
      → Kept less t (partial s ok) (record w { queues = q })
  queues-Kept left true w q e h = (h.0, e ∙ h.1)
  queues-Kept right true w q e h = (h.0, e ∙ h.1)
  queues-Kept s false w q e h = (h.0, h.1, e ∙ h.2)

  outcome-round :
      (test : Queues A → Bool) (q : Queues A) (a b : List A)
      → outcome less (publish (merge_while less test q)) a b ≡ outcome less q a b
  outcome-round test q a b = outcome-publish less _ a b ∙ outcome-merge_while less test q a b

  Step-Kept : {v w : Worker A} → Step less v w → Kept less t v.phase v → Kept less t w.phase w
  unfolding partial_round merge_round
  Step-Kept {v} (get_initial s e n) h =
      receive-Kept less t s initial v (λ _ k. k) (subst (λ p. Kept less t p v) e h)
  Step-Kept {v} (started e n) h = subst (λ p. Kept less t p v) e h
  Step-Kept {v} (poll s e) h =
      receive-Kept less t s polling v (λ _ k. k) (subst (λ p. Kept less t p v) e h)
  Step-Kept {v} (nothing_to_poll e) h =
      outcome-round both_have_two_elements v.queues (flatten v.a) (flatten v.b)
      ∙ subst (λ p. Kept less t p v) e h
  Step-Kept {v} (fetch s e) h =
      receive-Kept less t s polling v (λ _ k. k) (subst (λ p. Kept less t p v) e h)
  Step-Kept {v} (partial_step s ok e) h =
      let q = publish (merge_while less (can_merge s) v.queues) in
      partial_end-Kept s ok (record v { queues = q }) (heads-publish _).2
        (queues-Kept s ok v q (outcome-round (can_merge s) v.queues (flatten v.a) (flatten v.b))
          (subst (λ p. Kept less t p v) e h))

  Reach-Kept : {v w : Worker A} → Reach less v w → Kept less t v.phase v → Kept less t w.phase w
  Reach-Kept here h = h
  Reach-Kept (next r st) h = Step-Kept st (Reach-Kept r h)

-- Whatever the order in which mergeTreeWorker receives the lists of its two inputs, what it has sent
-- when it closes its result is, in one list, the merge of all that it received, nothing lost.
pub Reach-merge :
    {A : Type 0} (less : A → A → Bool) (a b : List (List A)) {w : Worker A}
    → Reach less (start a b) w
    → w.phase ≡ done
    → flatten w.queues.result ≡ merge less (flatten a) (flatten b)
unfolding start outcome flatten
Reach-merge less a b {w} r e =
    subst (λ p. Kept less (merge less (flatten a) (flatten b)) p w) e
      (Reach-Kept less (merge less (flatten a) (flatten b)) r refl)
