-- ===== src/PacketEngine/Examples.antt =====
-- Examples for the collections: a source or a label is the list of what it still returns.
use go_flows.Shared.{ℕ, ◌≡◌, refl, Bool, true, false, List, [], ◌∷◌, ◌++◌}
use go_flows.PacketEngine.Collections.{Outcome, returned, eof, read_packet}
use go_flows.PacketEngine.Exhausted.{read_packet_lem}

abbrev read_list : List ℕ → List ℕ × Outcome ℕ
read_list [] = ([], eof)
read_list (x ∷ xs) = (xs, returned x)

abbrev stop_list : List ℕ → List ℕ
stop_list xs = []

abbrev label_of : ℕ → List ℕ → List ℕ × Bool × ℕ
label_of packet [] = ([], true, 0)
label_of packet (x ∷ xs) = (xs, false, x)

read_packet_lem_example :
    read_packet read_list stop_list false (([] ∷ []) ++ (7 ∷ 8 ∷ []) ∷ [])
    ≡ record { sources = (8 ∷ []) ∷ []; dropped = [] ∷ []; outcome = returned 7 }
read_packet_lem_example =
    read_packet_lem read_list stop_list ([] ∷ []) (7 ∷ 8 ∷ []) [] (refl, tt) refl
