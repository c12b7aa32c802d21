-- ===== src/Examples/Neighbors.antt =====
-- The theorems on addresses, neighbors and the routing socket at concrete values.
use heterogeneous_network.Base.{◌≡◌, refl, List, [], ◌∷◌, arith, ok, Ensures}
use heterogeneous_network.Serde.Buffer.{buffer_writer}
use heterogeneous_network.Serde.Buffer.Writing.{buffer_laws}
use heterogeneous_network.Serde.Serdeable.{RoundTrips}
use heterogeneous_network.Node.Id.{node_id_serdeable}
use heterogeneous_network.Objects.{has_element}
use heterogeneous_network.Link.Address.{Address, udp, serial, from_address, address_serdeable}
use heterogeneous_network.Link.RoundTrip.{node_of, address-node_id}
use heterogeneous_network.Neighbor.Table.{
  NeighborTable, new_table, key, empty_table, initialize_local_node,
}
use heterogeneous_network.Neighbor.Steps.{Step, adds, initializes, expires, ticks, happen_all}
use heterogeneous_network.Neighbor.Local.{
  with_local, new_table-IsSound, Initializes, initialize_local_node-Initializes,
}
use heterogeneous_network.Neighbor.History.{IsValid, neighbors-IsValid}

abbrev home : Address
home = udp (record { octets = 192 ∷ 168 ∷ 0 ∷ 9 ∷ []; port = 8080 })

address-node_id_example :
    RoundTrips buffer_laws
      (address_serdeable buffer_writer)
      home
      (3 ∷ 192 ∷ 168 ∷ 0 ∷ 9 ∷ 144 ∷ 31 ∷ [])
    × (from_address home ≡ ok (node_of home))
    × RoundTrips buffer_laws
        (node_id_serdeable buffer_writer)
        (node_of home)
        (3 ∷ 192 ∷ 168 ∷ 0 ∷ 9 ∷ 144 ∷ 31 ∷ [])
address-node_id_example =
    address-node_id buffer_laws home
      (refl, (omega arith, (omega arith, (omega arith, (omega arith, tt)))), omega arith)

-- The loopback node is 0; node 5 is added twice, then the local node, and node 5 expires.
abbrev one_day : List Step
one_day =
    adds 5 (record { cost = 3 }) (serial 5)
    ∷ adds 5 (record { cost = 4 }) (serial 5)
    ∷ ticks
    ∷ initializes 7
    ∷ expires 5
    ∷ []

neighbors-IsValid_example :
    (t : NeighborTable) × (new_table 0 ≡ ok t)
    × IsValid 0 t
    × Ensures (IsValid 0) (happen_all one_day t)
neighbors-IsValid_example = neighbors-IsValid 0 one_day

initialize_local_node-Initializes_example :
    Initializes
      (has_element key 7 (with_local 0 empty_table).excluded)
      7
      (with_local 0 empty_table)
      (initialize_local_node 7 (with_local 0 empty_table))
initialize_local_node-Initializes_example =
    initialize_local_node-Initializes 7 (with_local 0 empty_table) (new_table-IsSound 0)
