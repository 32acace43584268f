-- ===== src/ExportOrder.antt =====
-- flows/export.go: the keys of export records and the two orders that sorting uses.
use go_flows.Shared.{ℕ, ◌≡◌, ◌⊎◌, Bool, true, false, ltb, ◌==◌, if◌then◌else◌, arith}
mod Examples

pub record ExportKey : Type 0 where
  pub packet_id : ℕ
  pub expiry_time : ℕ
  pub record_id : ℕ

unfoldable pub less_packet : ExportKey → ExportKey → Bool
less_packet e b =
    if e.packet_id == b.packet_id
    then (if ltb e.record_id b.record_id then true else false)
    else if ltb e.packet_id b.packet_id
    then true
    else false

unfoldable pub less_expiry : ExportKey → ExportKey → Bool
less_expiry e b =
    if e.expiry_time == b.expiry_time
    then if e.packet_id == b.packet_id
      then (if ltb e.record_id b.record_id then true else false)
      else if ltb e.packet_id b.packet_id
      then true
      else false
    else if ltb e.expiry_time b.expiry_time
    then true
    else false

-- No key is before itself, two keys that are not before each other are the same, and what is before
-- a key that is before a third one is before that one: a strict linear order, for any three keys.
pub less_expiry-linear :
    (e b c : ExportKey)
    → (less_expiry e e ≡ false)
      × ((less_expiry e b ≡ true) ⊎ (less_expiry b e ≡ true) ⊎ (e ≡ b))
      × ((less_expiry e b ≡ false) ⊎ (less_expiry b c ≡ false) ⊎ (less_expiry e c ≡ true))
unfolding less_expiry
less_expiry-linear e b c = (ground arith, ground arith, ground arith)

-- On records that expire at one time the order of `expiry` is that of `start` and `stop`.
less_packet_lem :
    (e b : ExportKey) → e.expiry_time ≡ b.expiry_time → less_expiry e b ≡ less_packet e b
unfolding less_expiry less_packet
less_packet_lem e b h = ground arith
