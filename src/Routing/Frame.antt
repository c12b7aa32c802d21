-- ===== src/Routing/Frame.antt =====
-- ts-core/src/net/routing/frame.ts: RoutingFrame, and FrameId of net/discovery/frameId.ts.
use heterogeneous_network.Base.{ℕ, ◌<◌, refl, List, [], ◌++◌, some}
use heterogeneous_network.Serde.Traits.{Writer, DeserializeResult, ok, and_then}
use heterogeneous_network.Serde.Buffer.Writing.{WriterLaws}
use heterogeneous_network.Serde.Serdeable.{Serdeable, RoundTrips, RoundTripsLast}
use heterogeneous_network.Serde.Primitives.{size16, uint_serdeable}
use heterogeneous_network.Serde.Combinators.{transform_serdeable, remaining_bytes_serdeable}
use heterogeneous_network.Serde.Combinators.Words.{
  word_bytes, wrapped_word-RoundTrips, payload-RoundTripsLast,
}
use heterogeneous_network.Serde.Schema.{Schema, no_keys, key, object_serdeable}
use heterogeneous_network.Serde.Schema.RoundTrip.{
  key-KeysLast, last_key-KeysLast, object-RoundTripsLast,
}
use heterogeneous_network.Node.Id.{NodeId}
use heterogeneous_network.Node.Endpoint.{
  Source, Destination, source_serdeable, destination_serdeable,
}
use heterogeneous_network.Node.Matching.{IsSource, IsDestination}
use heterogeneous_network.Node.RoundTrip.{
  IsClusterId, end_bytes, source-RoundTrips, destination-RoundTrips,
}

pub record RoutingFrame : Type 0 where
  pub source : Source
  pub destination : Destination
  pub frame_id : ℕ
  pub payload : List ℕ

pub record ReceivedRoutingFrame : Type 0 where
  pub previous_hop : NodeId
  pub frame : RoutingFrame

abbrev make : Source × (Destination × (ℕ × (List ℕ × Unit {0}))) → RoutingFrame
make p = record { source = p.0; destination = p.1.0; frame_id = p.1.1.0; payload = p.1.1.1.0 }

abbrev parts : RoutingFrame → Source × (Destination × (ℕ × (List ℕ × Unit {0})))
parts f = (f.source, (f.destination, (f.frame_id, (f.payload, tt))))

module _ {W : Type 0} (w : Writer W) where
  -- `FrameId.serdeable`
  unfoldable pub frame_id_serdeable : Serdeable W ℕ
  frame_id_serdeable = transform_serdeable (uint_serdeable w size16) (λ n. some n) (λ n. n)

  abbrev routing_schema : Schema W (Source × (Destination × (ℕ × (List ℕ × Unit {0}))))
  routing_schema = key (source_serdeable w) (
      key (destination_serdeable w)
        (key frame_id_serdeable (key (remaining_bytes_serdeable w) no_keys)))

  -- TransformSerdeable of a TupleSerdeable.
  unfoldable pub routing_frame_serdeable : Serdeable W RoutingFrame
  unfolding object_serdeable key no_keys source_serdeable destination_serdeable frame_id_serdeable
  routing_frame_serdeable = object_serdeable routing_schema make parts

  -- `ReceivedRoutingFrame.deserializeFromNeighborFrame`, for a frame with this sender and payload.
  unfoldable pub deserialize_from_neighbor_frame :
      NodeId → List ℕ → DeserializeResult ReceivedRoutingFrame
  unfolding routing_frame_serdeable
  deserialize_from_neighbor_frame sender payload =
      and_then (routing_frame_serdeable.deserializer (record { buffer = payload; offset = 0 }))
        (λ p. ok (record { previous_hop = sender; frame = p.0 }))

-- A frame whose ends the constructors returned, with cluster ids and a frame id of their widths.
pub record IsRoutingFrame (f : RoutingFrame) : Type 0 where
  pub source : IsSource f.source
  pub source_cluster : IsClusterId f.source.cluster_id
  pub destination : IsDestination f.destination
  pub destination_cluster : IsClusterId f.destination.cluster_id
  pub frame_id : f.frame_id < 65536

unfoldable pub routing_bytes : RoutingFrame → List ℕ
routing_bytes f =
    end_bytes f.source.node_id f.source.cluster_id
    ++ (end_bytes f.destination.node_id f.destination.cluster_id
        ++ (word_bytes f.frame_id ++ (f.payload ++ [])))

module _ {W : Type 0} {w : Writer W} (laws : WriterLaws w) where
  frame_id-RoundTrips :
      (n : ℕ) → n < 65536 → RoundTrips laws (frame_id_serdeable w) n (word_bytes n)
  unfolding frame_id_serdeable
  frame_id-RoundTrips n h = wrapped_word-RoundTrips laws n h

  pub routing_frame-RoundTripsLast :
      (f : RoutingFrame)
      → IsRoutingFrame f
      → RoundTripsLast laws (routing_frame_serdeable w) f (routing_bytes f)
  unfolding routing_frame_serdeable routing_bytes
  routing_frame-RoundTripsLast f h =
      let rest = remaining_bytes_serdeable w in
      let ids = frame_id_serdeable w in
      let destinations = destination_serdeable w in
      object-RoundTripsLast laws (routing_schema w) make parts f (routing_bytes f) refl (
        key-KeysLast laws (source_serdeable w) (key destinations (key ids (key rest no_keys)))
          f.source _ _ _ (source-RoundTrips laws f.source h.source h.source_cluster)
          (key-KeysLast laws destinations (key ids (key rest no_keys)) f.destination _ _ _
            (destination-RoundTrips laws f.destination h.destination h.destination_cluster)
            (key-KeysLast laws ids (key rest no_keys) f.frame_id _ (word_bytes f.frame_id) _
              (frame_id-RoundTrips f.frame_id h.frame_id)
              (last_key-KeysLast laws rest f.payload f.payload
                (payload-RoundTripsLast laws f.payload)))))
