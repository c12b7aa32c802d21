-- ===== src/Examples/Routes.antt =====
-- The theorem on frames that come again, at a routing socket whose services below keep no state.
use heterogeneous_network.Base.{◌≡◌, refl, true, false, List, [], ◌∷◌, none, some, arith, replicate}
use heterogeneous_network.Base.{ok as returned}
use heterogeneous_network.Serde.Buffer.Writing.{buffer_laws}
use heterogeneous_network.Serde.Buffer.{read_bytes, serialize, write_bytes}
use heterogeneous_network.Serde.Primitives.{uint_serdeable}
use heterogeneous_network.Serde.Combinators.{
  throwing_transform_serdeable, pair_serdeable, variant_serdeable, fixed_bytes_serdeable,
  transform_serdeable, remaining_bytes_serdeable,
}
use heterogeneous_network.Node.Id.{node_id_serdeable}
use heterogeneous_network.Node.Cluster.{cluster_id_serdeable}
use heterogeneous_network.Routing.Frame.{
  ReceivedRoutingFrame, deserialize_from_neighbor_frame, routing_bytes,
  routing_frame-RoundTripsLast,
}
use heterogeneous_network.Routing.FrameIdCache.{
  AsymmetricalFrameIdCache, insert_and_check_contains_as_received,
}
use heterogeneous_network.Routing.Socket.{Below, Handled, first_time, handle_received_frame}
use heterogeneous_network.Routing.Events.{Event, arrives, sends, happen_all}
use heterogeneous_network.Routing.Once.{Holds, seen_frame-dropped}
use heterogeneous_network.Discovery.FrameId.{insert_and_check_contains, contains, insert, add, has}
use heterogeneous_network.Examples.Ends.{
  carried, carried-IsRoutingFrame, serial_node, serial_source, ip_destination,
}

-- Every node is its own gateway, and every `send` is without an error.
abbrev direct : Below (Unit {0})
direct = record {
  resolve_gateway_node = λ d s. (some d.node_id, s);
  send = λ n bs s. (none, s);
  send_broadcast = λ bs n l s. s;
  max_payload_length = λ s. 254;
}

abbrev received : ReceivedRoutingFrame
received = record { previous_hop = serial_node; frame = carried }

carried-Holds : Holds direct true serial_node (routing_bytes carried) received
unfolding deserialize_from_neighbor_frame
carried-Holds =
    rw
      ((routing_frame-RoundTripsLast buffer_laws carried carried-IsRoutingFrame).1
        (record { buffer = routing_bytes carried; offset = 0 }) (refl, omega arith))
      refl

abbrev empty_cache : AsymmetricalFrameIdCache
empty_cache = record {
  send = record { cache = []; max_cache_size = 4 };
  receive = record { cache = []; max_cache_size = 4 };
}

abbrev with_frame : AsymmetricalFrameIdCache
with_frame = record empty_cache { receive = record { cache = 777 ∷ []; max_cache_size = 4 } }

abbrev first : Handled direct true
first = first_time direct true serial_source received (routing_bytes carried) (false, with_frame) tt

first_handled :
    handle_received_frame direct true serial_source serial_node
      (routing_bytes carried)
      empty_cache
      tt
    ≡ returned first
unfolding handle_received_frame insert_and_check_contains_as_received insert_and_check_contains
    insert add has contains
first_handled = rw carried-Holds refl

-- A malformed frame arrives; a payload is sent that is too large, which throws; and one is sent.
abbrev meanwhile : List Event
meanwhile =
    arrives serial_source serial_node []
    ∷ sends serial_source ip_destination (replicate 300 0) none []
    ∷ sends serial_source ip_destination (1 ∷ 2 ∷ []) none (9 ∷ [])
    ∷ []

abbrev after_meanwhile : AsymmetricalFrameIdCache
after_meanwhile = record with_frame { send = record { cache = 9 ∷ []; max_cache_size = 4 } }

meanwhile_happened : happen_all direct true meanwhile (with_frame, tt) ≡ some (after_meanwhile, tt)
unfolding happen_all throwing_transform_serdeable pair_serdeable node_id_serdeable variant_serdeable
    fixed_bytes_serdeable cluster_id_serdeable uint_serdeable transform_serdeable
    remaining_bytes_serdeable read_bytes serialize write_bytes
meanwhile_happened = refl

seen_frame-dropped_example :
    (end : AsymmetricalFrameIdCache) × (handle_received_frame direct true serial_source serial_node
        (routing_bytes carried)
        after_meanwhile
        tt
      ≡ returned (record { coming = false; delivered = none; cache = end; below = tt }))
seen_frame-dropped_example =
    seen_frame-dropped direct true serial_source serial_node (routing_bytes carried) received
      empty_cache tt first meanwhile after_meanwhile tt serial_source serial_node
      (routing_bytes carried) received carried-Holds first_handled refl (omega arith)
      meanwhile_happened carried-Holds refl
