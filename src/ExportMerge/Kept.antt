-- ===== src/ExportMerge/Kept.antt =====
-- What each phase of mergeTreeWorker keeps, over receives, FLUSH and the last merge.
use mathlib.Core.List.{flatten, append_assoc, append-nil}
use go_flows.Shared.{
  ◌≡◌, refl, subst, sym, ◌∙◌, Bool, true, false, not, ◌&&◌, List, [], ◌∷◌, ◌++◌, if◌then◌else◌,
  Bool-cases, inl, inr, merge, merge-nil, nil-merge,
}
use go_flows.ExportMerge.Queues.{
  Side, left, right, other, Queues, is_nil, has_head, has_both_heads, append, append_merged,
  publish, clear_queues,
}
use go_flows.ExportMerge.Worker.{
  Phase, done, partial, Worker, channel, set_channel, receive_from, receive, flush, left_over,
  finish,
}
use go_flows.ExportMerge.Loops.{
  outcome, outcome-merge_while, merge_while_ends, flatten-append, flatten-append_last,
}

module _ {A : Type 0} (less : A → A → Bool) (t : List A) where
  -- What a worker is still to send, with what it has sent, is `t`.
  abbrev pub Sends : Worker A → Type 0
  Sends w = outcome less w.queues (flatten w.a) (flatten w.b) ≡ t

  -- What holds in each phase: a side is partial because its channel is closed.
  abbrev pub Kept : Phase → Worker A → Type 0
  Kept done w = flatten w.queues.result ≡ t
  Kept (partial s true) w = (channel s w ≡ []) × Sends w
  Kept (partial s false) w = (w.a ≡ []) × (w.b ≡ []) × Sends w
  Kept _ w = Sends w

  -- A receive keeps what is still to be sent.
  pub Sends-append :
      (s : Side) (elem : List A) (rest : List (List A)) (p : Phase) (w : Worker A)
      → channel s w ≡ elem ∷ rest
      → Sends w
      → Sends (record (set_channel s rest w) { phase = p; queues = append s elem w.queues })
  unfolding outcome append flatten
  Sends-append left elem rest p w e h =
      rw (append_assoc w.queues.head0 elem (flatten rest))
        (subst (λ l. outcome less w.queues (flatten l) (flatten w.b) ≡ t) e h)
  Sends-append right elem rest p w e h =
      rw (append_assoc w.queues.head1 elem (flatten rest))
        (subst (λ l. outcome less w.queues (flatten w.a) (flatten l) ≡ t) e h)

  pub receive_from-Kept :
      (s : Side) (p : Phase) (l : List (List A)) (w : Worker A)
      → channel s w ≡ l
      → ((v : Worker A) → Sends v → Kept p v)
      → Sends w
      → (v : Worker A) × (receive_from s l p (partial s true) w ≡ v) × Kept v.phase v
  receive_from-Kept left p [] w e k h = (_, refl, (e, h))
  receive_from-Kept right p [] w e k h = (_, refl, (e, h))
  receive_from-Kept s p (elem ∷ rest) w e k h = (_, refl, k _ (Sends-append s elem rest p w e h))

  pub receive-Kept :
      (s : Side) (p : Phase) (w : Worker A)
      → ((v : Worker A) → Sends v → Kept p v)
      → Sends w
      → Kept (receive s p (partial s true) w).phase (receive s p (partial s true) w)
  unfolding receive
  receive-Kept s p w k h =
      let (v, e, r) = receive_from-Kept s p (channel s w) w refl k h in
      subst (λ u. Kept u.phase u) (sym e) r

  pub receive_other-Kept :
      (s : Side) (l : List (List A)) (w : Worker A)
      → channel (other s) w ≡ l
      → channel s w ≡ []
      → Sends w
      → (v : Worker A) × (receive_from (other s) l (partial s true) (partial s false) w ≡ v)
        × Kept v.phase v
  receive_other-Kept left [] w e k h = (_, refl, (k, e, h))
  receive_other-Kept right [] w e k h = (_, refl, (e, k, h))
  receive_other-Kept left (elem ∷ rest) w e k h =
      (_, refl, (k, Sends-append right elem rest (partial left true) w e h))
  receive_other-Kept right (elem ∷ rest) w e k h =
      (_, refl, (k, Sends-append left elem rest (partial right true) w e h))

pub not-true : (b : Bool) → not b ≡ true → b ≡ false
not-true true e = cc
not-true false e = refl

is_nil_sound : {A : Type 0} (l : List A) → not (is_nil l) ≡ false → l ≡ []
is_nil_sound [] e = refl
is_nil_sound (x ∷ l) e = absurd (cc)

-- The lists that FLUSH sends.
flatten-flush :
    {A : Type 0} (r : List (List A)) (rest : List A) (l : List (List A))
    → flatten ((if is_nil rest then r else r ++ rest ∷ []) ++ l) ≡ flatten r ++ (rest ++ flatten l)
flatten-flush r [] l = flatten-append r l
flatten-flush r (x ∷ rest) l =
    flatten-append (r ++ (x ∷ rest) ∷ []) l ∙ simp (flatten-append_last, append_assoc)

module _ {A : Type 0} (less : A → A → Bool) (t : List A) where
  pub flush-Kept :
      (s : Side) (w : Worker A)
      → has_head s w.queues ≡ false
      → w.queues.merged ≡ []
      → channel s w ≡ []
      → Sends less t w
      → flatten (flush (other s) w).queues.result ≡ t
  unfolding flush outcome has_head clear_queues flatten
  flush-Kept left w n m e h =
      flatten-flush w.queues.result w.queues.head1 w.b
      ∙ sym (flushed_left w.queues.merged w.queues.head0 w.a m (is_nil_sound _ n) e)
      ∙ h
    where
      flushed_left :
          (ms xs : List A) (a : List (List A))
          → ms ≡ []
          → xs ≡ []
          → a ≡ []
          → flatten w.queues.result
              ++ ms
              ++ merge less (xs ++ flatten a) (w.queues.head1 ++ flatten w.b)
            ≡ flatten w.queues.result ++ (w.queues.head1 ++ flatten w.b)
      flushed_left ms xs a p q r = rw (p, q, r) (simp (append-nil, nil-merge))
  flush-Kept right w n m e h =
      flatten-flush w.queues.result w.queues.head0 w.a
      ∙ sym (flushed_right w.queues.merged w.queues.head1 w.b m (is_nil_sound _ n) e)
      ∙ h
    where
      flushed_right :
          (ms ys : List A) (b : List (List A))
          → ms ≡ []
          → ys ≡ []
          → b ≡ []
          → flatten w.queues.result
              ++ ms
              ++ merge less (w.queues.head0 ++ flatten w.a) (ys ++ flatten b)
            ≡ flatten w.queues.result ++ (w.queues.head0 ++ flatten w.a)
      flushed_right ms ys b p q r = rw (p, q, r) (simp (append-nil, merge-nil))

  pub flatten-publish : (q : Queues A) → flatten (publish q).result ≡ flatten q.result ++ q.merged
  unfolding publish
  flatten-publish q = elim (Bool-cases (is_nil q.merged)) [
    | inl e ↦ rw (e, is_nil_true q.merged e) (sym (append-nil (flatten q.result)))
    | inr e ↦ rw e (flatten-append_last q.result q.merged)
  ]
    where
      is_nil_true : (l : List A) → is_nil l ≡ true → l ≡ []
      is_nil_true [] e = refl
      is_nil_true (x ∷ l) e = absurd (cc)

  -- The merge of two lists of which one is nil.
  merge_left_over :
      (xs ys : List A)
      → (not (is_nil xs) && not (is_nil ys)) ≡ false
      → merge less xs ys ≡ (if is_nil xs then ys else xs)
  unfolding merge
  merge_left_over [] ys e = refl
  merge_left_over (x ∷ xs) [] e = refl
  merge_left_over (x ∷ xs) (y ∷ ys) e = absurd (cc)

  outcome-finish :
      (q : Queues A)
      → has_both_heads q ≡ false
      → flatten (publish (append_merged (left_over q) q)).result ≡ outcome less q [] []
  unfolding outcome append_merged has_both_heads
  outcome-finish q e =
      flatten-publish (append_merged (left_over q) q)
      ∙ rw (append-nil q.head0, append-nil q.head1, merge_left_over q.head0 q.head1 e)
          (sym (append_assoc (flatten q.result) q.merged (left_over q)))

  outcome-nil :
      (q : Queues A) (a b : List (List A))
      → a ≡ []
      → b ≡ []
      → outcome less q (flatten a) (flatten b) ≡ t
      → outcome less q [] [] ≡ t
  unfolding flatten
  outcome-nil q a b ea eb k =
      subst (λ l. outcome less q [] (flatten l) ≡ t) eb
        (subst (λ l. outcome less q (flatten l) (flatten b) ≡ t) ea k)

  pub finish-Kept :
      (w : Worker A)
      → w.a ≡ []
      → w.b ≡ []
      → Sends less t w
      → flatten (finish less w).queues.result ≡ t
  unfolding finish
  finish-Kept w ea eb h =
      outcome-finish _ (merge_while_ends less has_both_heads (λ q e. e) w.queues)
      ∙ outcome-merge_while less has_both_heads w.queues [] []
      ∙ outcome-nil w.queues w.a w.b ea eb h
