-- ===== src/Routing/Delivery.antt =====
-- A tunnel frame that is sent inside a routing frame, and what the receiver makes of the bytes.
use heterogeneous_network.Base.{ℕ, ◌<◌, ◌≡◌, refl, List, [], ◌++◌, All, All-append, arith}
use heterogeneous_network.Base.{ok as returned}
use heterogeneous_network.Serde.Traits.{Serializer, DeserializeResult, ok, and_then}
use heterogeneous_network.Serde.Buffer.{BufferWriter, buffer_writer, serialize, bytes}
use heterogeneous_network.Serde.Buffer.Writing.{buffer_laws, IsByte, serialize-bytes}
use heterogeneous_network.Serde.Combinators.Words.{word_bytes, word-IsByte}
use heterogeneous_network.Node.Id.{NodeId}
use heterogeneous_network.Node.RoundTrip.{IsPlain, end_bytes, end_bytes-IsByte}
use heterogeneous_network.Tunnel.Frame.{
  TunnelFrame, ReceivedTunnelFrame, tunnel_frame_serdeable, deserialize_from_routing_frame,
  tunnel_bytes, tunnel_frame-RoundTripsLast,
}
use heterogeneous_network.Routing.Frame.{
  RoutingFrame, routing_frame_serdeable, deserialize_from_neighbor_frame, IsRoutingFrame,
  routing_bytes, routing_frame-RoundTripsLast,
}

abbrev pub IsTunnelFrame : TunnelFrame → Type 0
IsTunnelFrame t =
    (t.source_port_id < 65536) × (t.destination_port_id < 65536) × All IsByte t.payload

tunnel-IsByte : (t : TunnelFrame) → IsTunnelFrame t → All IsByte (tunnel_bytes buffer_laws t)
tunnel-IsByte t h =
    All-append IsByte (word_bytes t.source_port_id)
      (word_bytes t.destination_port_id ++ (t.payload ++ [])) (word-IsByte t.source_port_id h.0)
      (All-append IsByte (word_bytes t.destination_port_id) (t.payload ++ [])
        (word-IsByte t.destination_port_id h.1) (All-append IsByte t.payload [] h.2 tt))

routing-IsByte :
    (f : RoutingFrame)
    → IsRoutingFrame f
    → IsPlain f.source.node_id
    → IsPlain f.destination.node_id
    → All IsByte f.payload
    → All IsByte (routing_bytes f)
unfolding routing_bytes
routing-IsByte f h s d p =
    let tail = word_bytes f.frame_id ++ (f.payload ++ []) in
    let to = end_bytes f.destination.node_id f.destination.cluster_id in
    All-append IsByte (end_bytes f.source.node_id f.source.cluster_id) (to ++ tail)
      (end_bytes-IsByte f.source.node_id f.source.cluster_id h.source.0 s h.source_cluster)
      (All-append IsByte to tail
        (end_bytes-IsByte f.destination.node_id f.destination.cluster_id h.destination d
          h.destination_cluster)
        (All-append IsByte (word_bytes f.frame_id) (f.payload ++ [])
          (word-IsByte f.frame_id h.frame_id) (All-append IsByte f.payload [] p tt)))

-- The bytes of a payload, read as a routing frame and its payload as a tunnel frame.
abbrev pub receive : NodeId → List ℕ → DeserializeResult ReceivedTunnelFrame
receive sender bs = and_then (deserialize_from_neighbor_frame buffer_writer sender bs) (λ r.
    deserialize_from_routing_frame buffer_writer r.frame.source r.frame.destination r.frame.payload)

-- `BufferWriter.serialize` gives bytes for both frames, and the receiver makes of them the tunnel
-- frame, with the source and the destination of the routing frame.
abbrev pub IsDelivered : NodeId → RoutingFrame → TunnelFrame → Type 0
IsDelivered sender f t =
    (inner : Serializer BufferWriter) × (outer : Serializer BufferWriter) × (bs : List ℕ)
    × ((tunnel_frame_serdeable buffer_writer).serializer t ≡ returned inner)
    × (serialize inner ≡ bytes (returned f.payload))
    × ((routing_frame_serdeable buffer_writer).serializer f ≡ returned outer)
    × (serialize outer ≡ bytes (returned bs))
    × (receive sender bs
        ≡ ok (record { source = f.source; destination = f.destination; frame = t }))

-- A tunnel frame whose ports fit 16 bits and whose data are bytes, sent as the payload of a routing
-- frame whose ids the constructors return: both are serialized, and the receiver of the routing
-- frame's bytes gets the tunnel frame with its ports, its data, its source and its destination.
pub receive-serialize :
    (sender : NodeId) (f : RoutingFrame) (t : TunnelFrame)
    → IsRoutingFrame f
    → IsPlain f.source.node_id
    → IsPlain f.destination.node_id
    → IsTunnelFrame t
    → f.payload ≡ tunnel_bytes buffer_laws t
    → IsDelivered sender f t
unfolding deserialize_from_neighbor_frame deserialize_from_routing_frame
receive-serialize sender f t h s d k e =
    let plain : All IsByte f.payload = rw e (tunnel-IsByte t k) in
    let inner = tunnel_frame-RoundTripsLast buffer_laws t k.0 k.1 in
    let outer = routing_frame-RoundTripsLast buffer_laws f h in
    (
      inner.0.0,
      outer.0.0,
      routing_bytes f,
      inner.0.1,
      rw e (serialize-bytes inner.0.0 (tunnel_bytes buffer_laws t) inner.0.2 (tunnel-IsByte t k)),
      outer.0.1,
      serialize-bytes outer.0.0 (routing_bytes f) outer.0.2 (routing-IsByte f h s d plain),
      rw (outer.1 (record { buffer = routing_bytes f; offset = 0 }) (refl, omega arith)) (
          rw e (
            rw
              (inner.1 (record { buffer = tunnel_bytes buffer_laws t; offset = 0 })
                (refl, omega arith))
              refl)),
    )
