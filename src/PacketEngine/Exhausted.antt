-- ===== src/PacketEngine/Exhausted.antt =====
-- packet/sources.go, packet/labels.go: exhausted sources and labels are skipped in order.
use go_flows.Shared.{◌≡◌, refl, ap, Bool, true, false, List, [], ◌∷◌, ◌++◌, map, All}
use go_flows.PacketEngine.Collections.{Outcome, is_eof, next_source, read_packet, get_label}

module _ {S R : Type 0} (read_source : S → S × Outcome R) (stop_source : S → S) where
  -- If the first sources `pre` are at EOF and the next one, `s`, is not, and the sources are not
  -- stopped, ReadPacket returns what `s` returns, stops and drops the sources of `pre` in order, and
  -- leaves `s` first.
  pub read_packet_lem :
      (pre : List S) (s : S) (post : List S)
      → All (λ t. is_eof (read_source t).1 ≡ true) pre
      → is_eof (read_source s).1 ≡ false
      → read_packet read_source stop_source false (pre ++ s ∷ post) ≡ record {
        sources = (read_source s).0 ∷ post;
        dropped = map (λ t. stop_source (read_source t).0) pre;
        outcome = (read_source s).1;
      }
  unfolding read_packet
  read_packet_lem [] s post hs h = rw h refl
  read_packet_lem (t ∷ []) s post (ht, hs) h = rw (ht, h) refl
  read_packet_lem (t ∷ u ∷ pre) s post (ht, hs) h =
      let ih = read_packet_lem (u ∷ pre) s post hs h in
      rw ht (
        ap (next_source read_source stop_source false (read_source t).0 (u ∷ pre ++ s ∷ post))
          (ap (λ r _. r) ih))

module _ {L P V : Type 0} (get : P → L → L × Bool × V) (no_label : V) where
  -- If the first labels `pre` are at EOF for a packet, GetLabel drops them and answers as the labels
  -- after them do; the rest is as if they had never been there.
  get_label-append :
      (packet : P) (pre post : List L)
      → All (λ l. (get packet l).1 ≡ true) pre
      → get_label get no_label packet (pre ++ post) ≡ get_label get no_label packet post
  unfolding get_label
  get_label-append packet [] post h = refl
  get_label-append packet (l ∷ pre) post (hl, h) = rw hl (get_label-append packet pre post h)
