-- ===== src/PacketEngine/Collections.antt =====
-- packet/sources.go, packet/filters.go, packet/labels.go: Sources, Filters and Labels as lists. What
-- one source, filter or label does is a parameter.
use go_flows.Shared.{Bool, true, false, List, [], ◌∷◌, if◌then◌else◌}

-- The result of a read: what is returned with no error or an error other than EOF, or EOF.
pub data Outcome (R : Type 0) : Type 0 where
  returned : R → Outcome R
  eof : Outcome R
  panic : Outcome R

-- The sources that are left, those that were dropped, and the result.
pub record Reading (S R : Type 0) : Type 0 where
  pub sources : List S
  pub dropped : List S
  pub outcome : Outcome R

abbrev pub is_eof : {R : Type 0} → Outcome R → Bool
is_eof eof = true
is_eof _ = false

-- A source: ReadPacket and Stop.
module _ {S R : Type 0} (read_source : S → S × Outcome R) (stop_source : S → S) where
  -- What happens at EOF of the first source.
  abbrev pub next_source : Bool → S → List S → (List S → Reading S R) → Reading S R
  next_source true s rest again = record { sources = s ∷ rest; dropped = []; outcome = eof }
  next_source false s [] again = record {
    sources = stop_source s ∷ [];
    dropped = [];
    outcome = eof;
  }
  next_source false s (t ∷ rest) again =
      let after = again (t ∷ rest) in record after { dropped = stop_source s ∷ after.dropped }

  -- Sources.ReadPacket; the flag is what it loads from `stopped`. No source is a panic.
  unfoldable pub read_packet : Bool → List S → Reading S R
  read_packet stopped [] = record { sources = []; dropped = []; outcome = panic }
  read_packet stopped (s ∷ rest) =
      let (s', out) = read_source s in
      let after = read_packet stopped rest in
      if is_eof out
      then next_source stopped s' rest (λ _. after)
      else record { sources = s' ∷ rest; dropped = []; outcome = out }

-- Filters.Matches.
unfoldable pub matches : {P : Type 0} → List (P → Bool) → P → Bool
matches [] packet = true
matches (filter ∷ f) packet = if filter packet then matches f packet else false

-- Labels.GetLabel: a label that is at EOF is dropped, and any other error is ignored.
module _ {L P V : Type 0} (get : P → L → L × Bool × V) (no_label : V) where
  unfoldable pub get_label : P → List L → List L × V
  get_label packet [] = ([], no_label)
  get_label packet (l ∷ ls) =
      let (l', at_eof, ret) = get packet l in
      let after = get_label packet ls in if at_eof then after else (l' ∷ ls, ret)
