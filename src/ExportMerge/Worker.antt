-- ===== src/ExportMerge/Worker.antt =====
-- flows/exporter.go: mergeTreeWorker as a step relation. A channel is the list of what is still to be
-- received from it before it is closed. `select` may take either case, and its default at any time.
use go_flows.Shared.{◌≡◌, Bool, true, false, not, ◌&&◌, List, [], ◌∷◌, ◌++◌, if◌then◌else◌}
use go_flows.ExportMerge.Queues.{
  Side, left, right, other, Queues, new_queues, is_nil, head, has_head, has_both_heads,
  both_have_two_elements, has_two_elements, append, append_merged, publish, clear_queues,
  merge_while,
}

-- Where the worker is: the loop that gets the initial elements, POLL, the fetch after a publish, and
-- PARTIAL with the stopped side and `ok`.
pub data Phase : Type 0 where
  initial polling fetching done : Phase
  partial : Side → Bool → Phase

pub record Worker (A : Type 0) : Type 0 where
  pub phase : Phase
  pub a : List (List A)
  pub b : List (List A)
  pub queues : Queues A

unfoldable pub start : {A : Type 0} → List (List A) → List (List A) → Worker A
start a b = record { phase = initial; a = a; b = b; queues = new_queues }

abbrev pub channel : {A : Type 0} → Side → Worker A → List (List A)
channel left w = w.a
channel right w = w.b

abbrev pub set_channel : {A : Type 0} → Side → List (List A) → Worker A → Worker A
set_channel left l w = record w { a = l }
set_channel right l w = record w { b = l }

-- A receive from one side: an element, or the news that the channel is closed.
abbrev pub receive_from : {A : Type 0} → Side → List (List A) → Phase → Phase → Worker A → Worker A
receive_from s [] got closed w = record w { phase = closed }
receive_from s (elem ∷ rest) got closed w = record (set_channel s rest w) {
  phase = got;
  queues = append s elem w.queues;
}

unfoldable pub receive : {A : Type 0} → Side → Phase → Phase → Worker A → Worker A
receive s got closed w = receive_from s (channel s w) got closed w

-- FLUSH: the rest of the queue, and then of the channel, is sent as it is.
unfoldable pub flush : {A : Type 0} → Side → Worker A → Worker A
flush remaining w =
    let q = w.queues in
    let rest = head remaining q in
    let sent = if is_nil rest then q.result else q.result ++ rest ∷ [] in
    let cleared = clear_queues (record q { result = sent ++ channel remaining w }) in
    set_channel remaining [] (record w { phase = done; queues = cleared })

-- The head that is left when one of both is nil.
abbrev pub left_over : {A : Type 0} → Queues A → List A
left_over q = if is_nil q.head0 then q.head1 else q.head0

-- The test of the first loop of PARTIAL.
abbrev pub can_merge : {A : Type 0} → Side → Queues A → Bool
can_merge stopped q = has_head stopped q && has_two_elements (other stopped) q

module _ {A : Type 0} (less : A → A → Bool) where
  -- The case of a closed second channel: what is left is merged, and the last list is appended.
  unfoldable pub finish : Worker A → Worker A
  finish w =
      let q = merge_while less has_both_heads w.queues in
      record w { phase = done; queues = publish (append_merged (left_over q) q) }

  -- What PARTIAL does after its merges: FLUSH, the end of a closed channel, or another receive.
  unfoldable pub partial_end : Side → Bool → Worker A → Worker A
  partial_end stopped ok w =
      if not (has_head stopped w.queues)
      then flush (other stopped) w
      else if not ok
      then finish w
      else receive (other stopped) (partial stopped true) (partial stopped false) w

  -- One round of the loop of PARTIAL.
  unfoldable pub partial_round : Side → Bool → Worker A → Worker A
  partial_round stopped ok w =
      partial_end stopped ok
        (record w { queues = publish (merge_while less (can_merge stopped) w.queues) })

  -- The main loop from `default` to the fetch.
  unfoldable pub merge_round : Worker A → Worker A
  merge_round w = record w {
    phase = fetching;
    queues = publish (merge_while less both_have_two_elements w.queues);
  }

  pub data Step (w : Worker A) : Worker A → Type 0 where
    get_initial :
        (s : Side)
        → w.phase ≡ initial
        → has_both_heads w.queues ≡ false
        → Step w (receive s initial (partial s true) w)
    started :
        w.phase ≡ initial → has_both_heads w.queues ≡ true → Step w (record w { phase = polling })
    poll : (s : Side) → w.phase ≡ polling → Step w (receive s polling (partial s true) w)
    nothing_to_poll : w.phase ≡ polling → Step w (merge_round w)
    fetch : (s : Side) → w.phase ≡ fetching → Step w (receive s polling (partial s true) w)
    partial_step : (s : Side) (ok : Bool) → w.phase ≡ partial s ok → Step w (partial_round s ok w)

  pub data Reach (w : Worker A) : Worker A → Type 0 where
    here : Reach w w
    next : {v u : Worker A} → Reach w v → Step v u → Reach w u
