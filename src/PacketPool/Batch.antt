-- ===== src/PacketPool/Batch.antt =====
-- packet/multibuffer.go: shallowMultiPacketBuffer, a batch of pointers to packet buffers. A pointer is
-- the number of a packet. Slices have a fixed length; the indices are never negative.
use go_flows.Shared.{
  ℕ, suc, Bool, true, false, not, ◌&&◌, ◌||◌, Option, none, some, List, ◌∷◌, ltb, leb, ◌==◌,
  if◌then◌else◌, length, set, get_elem?, replicate,
}

pub record Batch : Type 0 where
  pub buffers : List (Option ℕ)
  pub rindex : ℕ
  pub windex : ℕ
  pub timestamp : ℕ
  pub expire : Bool

unfoldable pub new_batch : ℕ → Batch
new_batch size = record {
  buffers = replicate size none;
  rindex = 0;
  windex = 0;
  timestamp = 0;
  expire = false;
}

unfoldable pub is_empty_batch : Batch → Bool
is_empty_batch b = b.windex == 0

unfoldable pub is_full : Batch → Bool
is_full b = not (b.windex == 0) && b.rindex == b.windex

unfoldable pub reset : Batch → Batch
reset b = record b { rindex = 0; windex = 0 }

unfoldable pub push : ℕ → Batch → Batch × Bool
push p b =
    if leb (length b.buffers) b.windex
    then (b, false)
    else (record b { buffers = set b.buffers b.windex (some p); windex = suc b.windex }, true)

-- `none` is the nil at the end of what was written.
unfoldable pub read : Batch → Option ℕ × Batch
read b =
    if leb (length b.buffers) b.rindex || leb b.windex b.rindex
    then (none, b)
    else elim (get_elem? b.buffers b.rindex) [
      | some (some p) ↦ (some p, record b { rindex = suc b.rindex })
      | _ ↦ (none, record b { rindex = suc b.rindex })
    ]

unfoldable pub set_timestamp : ℕ → Batch → Batch
set_timestamp t b = record b { timestamp = t }

-- The entries of the first batch that were written, in the place of those of the second.
abbrev pub overwrite : ℕ → List (Option ℕ) → List (Option ℕ) → List (Option ℕ)
overwrite (suc n) (x ∷ src) (y ∷ target) = x ∷ overwrite n src target
overwrite _ _ target = target

-- Copy; a target that is too short is a panic.
unfoldable pub copy : Batch → Batch → Option Batch
copy b target =
    if ltb (length target.buffers) b.windex
    then none
    else some (record target {
      buffers = overwrite b.windex b.buffers target.buffers;
      rindex = 0;
      windex = b.windex;
    })
