-- ===== src/FlowKey/Fields.antt =====
-- packet/key.go: the key functions of the five-tuple; packet/hash.go: the hash of a key.
use go_flows.Shared.{
  ℕ, ◌*◌, ◌%◌, ◌^◌, zero, suc, Bool, Option, none, some, List, [], ◌∷◌, if◌then◌else◌, Key,
}
use go_flows.FlowKey.Selector.{sorted, unsorted, KeyFunc}

-- What the key functions read of a decoded packet: the raw addresses of the network layer, the
-- protocol, and for a transport layer whether its endpoints are those of ICMP, and its raw ports.
pub record Packet : Type 0 where
  pub network : Option (List ℕ × List ℕ)
  pub proto : ℕ
  pub transport : Option (Bool × List ℕ × List ℕ)

-- copy: as many bytes as fit.
abbrev pub copied : ℕ → List ℕ → List ℕ
copied zero bs = []
copied (suc n) [] = []
copied (suc n) (b ∷ bs) = b ∷ copied n bs

unfoldable pub source_ip_address_key : KeyFunc Packet
source_ip_address_key packet scratch scratch_no_sort = elim packet.network [
  | none ↦ some (sorted [])
  | some (src, dst) ↦ some (sorted (copied scratch src))
]

unfoldable pub destination_ip_address_key : KeyFunc Packet
destination_ip_address_key packet scratch scratch_no_sort = elim packet.network [
  | none ↦ some (sorted [])
  | some (src, dst) ↦ some (sorted (copied scratch dst))
]

-- A write to an empty slice panics.
unfoldable pub protocol_identifier_key : KeyFunc Packet
protocol_identifier_key packet zero scratch_no_sort = none
protocol_identifier_key packet (suc _) scratch_no_sort = some (sorted (packet.proto % 256 ∷ []))

unfoldable pub source_transport_port_key : KeyFunc Packet
source_transport_port_key packet scratch scratch_no_sort = elim packet.transport [
  | none ↦ some (sorted [])
  | some (icmp, src, dst) ↦
      if icmp
      then some (unsorted (copied scratch_no_sort src))
      else some (sorted (copied scratch src))
]

unfoldable pub destination_transport_port_key : KeyFunc Packet
destination_transport_port_key packet scratch scratch_no_sort = elim packet.transport [
  | none ↦ some (sorted [])
  | some (icmp, src, dst) ↦
      if icmp
      then some (unsorted (copied scratch_no_sort dst))
      else some (sorted (copied scratch dst))
]

-- fnvHash, over the exclusive or of the machine. Products wrap at 64 bits.
unfoldable pub fnv_hash : (ℕ → ℕ → ℕ) → ℕ → Key → ℕ
fnv_hash xor h [] = h
fnv_hash xor h (c ∷ s) = fnv_hash xor (xor h c * 1099511628211 % 2 ^ 64) s

abbrev pub fnv_basis : ℕ
fnv_basis = 14695981039346656037
