-- ===== src/FlowKey/Examples.antt =====
-- Tests and examples for the keys, on the five-tuple of two packets of one connection.
use go_flows.Shared.{ℕ, ◌≡◌, refl, ◌⊎◌, Bool, true, false, ◌&&◌, ◌||◌, some, List, [], ◌∷◌}
use go_flows.FlowKey.Selector.{
  Selector, KeyFunc, ok, key, gather, gather_uni, gather_written, gather_uni_written, build,
  greater, key_both_ways,
}
use go_flows.FlowKey.Fields.{
  Packet, source_ip_address_key, destination_ip_address_key, protocol_identifier_key,
  source_transport_port_key, destination_transport_port_key,
}
use go_flows.Shared.{arith}
use go_flows.FlowKey.Reverse.{Mirrored, Alike, key-Mirrored}

abbrev request : Packet
request = record {
  network = some (10 ∷ 2 ∷ [], 10 ∷ 1 ∷ []);
  proto = 6;
  transport = some (false, 200 ∷ 1 ∷ [], 0 ∷ 80 ∷ []);
}

abbrev reply : Packet
reply = record {
  network = some (10 ∷ 1 ∷ [], 10 ∷ 2 ∷ []);
  proto = 6;
  transport = some (false, 0 ∷ 80 ∷ [], 200 ∷ 1 ∷ []);
}

abbrev sources : List (KeyFunc Packet)
sources = source_ip_address_key ∷ source_transport_port_key ∷ []

abbrev destinations : List (KeyFunc Packet)
destinations = destination_ip_address_key ∷ destination_transport_port_key ∷ []

abbrev five_tuple : Selector Packet
five_tuple = record {
  source = sources;
  destination = destinations;
  uni = protocol_identifier_key ∷ [];
  no_zero = true;
  bidirectional = true;
  empty = false;
}

abbrev flow_key : List ℕ
flow_key = 10 ∷ 1 ∷ 0 ∷ 80 ∷ 10 ∷ 2 ∷ 200 ∷ 1 ∷ 6 ∷ []

key_test : key five_tuple request ≡ ok flow_key false
unfolding key key_both_ways gather gather_uni gather_written gather_uni_written build greater
    source_ip_address_key destination_ip_address_key source_transport_port_key
    destination_transport_port_key protocol_identifier_key
key_test = refl

request-Mirrored : Mirrored request reply sources destinations
unfolding source_ip_address_key destination_ip_address_key source_transport_port_key
    destination_transport_port_key
request-Mirrored = (λ m n. (refl, refl), ((λ m n. (refl, refl)), tt))

reply-Mirrored : Mirrored request reply destinations sources
unfolding source_ip_address_key destination_ip_address_key source_transport_port_key
    destination_transport_port_key
reply-Mirrored = (λ m n. (refl, refl), ((λ m n. (refl, refl)), tt))

protocol-Alike : Alike request reply (protocol_identifier_key ∷ [])
unfolding protocol_identifier_key
protocol-Alike = ((λ m n. ground arith), tt)

key-Mirrored_example :
    (b : Bool) × (key five_tuple reply ≡ ok flow_key b)
    × ((false || b) ≡ true)
    × (((false && b) ≡ false)
        ⊎ (gather true sources request [] [] ≡ gather true sources reply [] []))
key-Mirrored_example =
    key-Mirrored five_tuple request reply flow_key false refl refl request-Mirrored reply-Mirrored
      protocol-Alike key_test
