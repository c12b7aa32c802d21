-- ===== src/Tunnel/Frame.antt =====
-- ts-core/src/net/tunnel/frame.ts, port.ts: TunnelFrame, ReceivedTunnelFrame and TunnelPortId.
-- The data of a frame are its payload.
use heterogeneous_network.Base.{ℕ, ◌<◌, refl, List, [], ◌++◌, some}
use heterogeneous_network.Serde.Traits.{Writer, DeserializeResult, ok, and_then}
use heterogeneous_network.Serde.Buffer.Writing.{WriterLaws}
use heterogeneous_network.Serde.Serdeable.{Serdeable, RoundTrips, RoundTripsLast}
use heterogeneous_network.Serde.Primitives.{size16, uint_serdeable}
use heterogeneous_network.Serde.Combinators.{transform_serdeable, remaining_bytes_serdeable}
use heterogeneous_network.Serde.Combinators.Words.{
  word_bytes, wrapped_word-RoundTrips, payload-RoundTripsLast,
}
use heterogeneous_network.Serde.Schema.{Schema, no_keys, key, object_serdeable}
use heterogeneous_network.Serde.Schema.RoundTrip.{
  key-KeysLast, last_key-KeysLast, object-RoundTripsLast,
}
use heterogeneous_network.Node.Endpoint.{Source, Destination}

pub record TunnelFrame : Type 0 where
  pub source_port_id : ℕ
  pub destination_port_id : ℕ
  pub payload : List ℕ

pub record ReceivedTunnelFrame : Type 0 where
  pub source : Source
  pub destination : Destination
  pub frame : TunnelFrame

abbrev make : ℕ × (ℕ × (List ℕ × Unit {0})) → TunnelFrame
make p = record { source_port_id = p.0; destination_port_id = p.1.0; payload = p.1.1.0 }

abbrev take : TunnelFrame → ℕ × (ℕ × (List ℕ × Unit {0}))
take f = (f.source_port_id, (f.destination_port_id, (f.payload, tt)))

module _ {W : Type 0} (w : Writer W) where
  -- `TunnelPortId.serdeable`
  unfoldable pub port_serdeable : Serdeable W ℕ
  port_serdeable = transform_serdeable (uint_serdeable w size16) (λ n. some n) (λ n. n)

  abbrev tunnel_schema : Schema W (ℕ × (ℕ × (List ℕ × Unit {0})))
  tunnel_schema =
      key port_serdeable (key port_serdeable (key (remaining_bytes_serdeable w) no_keys))

  unfoldable pub tunnel_frame_serdeable : Serdeable W TunnelFrame
  unfolding object_serdeable key no_keys port_serdeable
  tunnel_frame_serdeable = object_serdeable tunnel_schema make take

  -- `ReceivedTunnelFrame.deserializeFromRoutingFrame`, for a frame with these ends and this payload.
  unfoldable pub deserialize_from_routing_frame :
      Source → Destination → List ℕ → DeserializeResult ReceivedTunnelFrame
  unfolding tunnel_frame_serdeable
  deserialize_from_routing_frame source destination payload =
      and_then (tunnel_frame_serdeable.deserializer (record { buffer = payload; offset = 0 }))
        (λ p. ok (record { source = source; destination = destination; frame = p.0 }))

module _ {W : Type 0} {w : Writer W} (laws : WriterLaws w) where
  pub port-RoundTrips : (n : ℕ) → n < 65536 → RoundTrips laws (port_serdeable w) n (word_bytes n)
  unfolding port_serdeable
  port-RoundTrips n h = wrapped_word-RoundTrips laws n h

  -- The two ports, and the data, which take the rest.
  abbrev pub tunnel_bytes : TunnelFrame → List ℕ
  tunnel_bytes f =
      word_bytes f.source_port_id ++ (word_bytes f.destination_port_id ++ (f.payload ++ []))

  pub tunnel_frame-RoundTripsLast :
      (f : TunnelFrame)
      → f.source_port_id < 65536
      → f.destination_port_id < 65536
      → RoundTripsLast laws (tunnel_frame_serdeable w) f (tunnel_bytes f)
  unfolding tunnel_frame_serdeable
  tunnel_frame-RoundTripsLast f h k =
      let from = port-RoundTrips f.source_port_id h in
      let to = port-RoundTrips f.destination_port_id k in
      let rest = remaining_bytes_serdeable w in
      let port = port_serdeable w in
      let bytes_from = word_bytes f.source_port_id in
      let bytes_to = word_bytes f.destination_port_id in
      object-RoundTripsLast laws (tunnel_schema w) make take f (tunnel_bytes f) refl (
        key-KeysLast laws port (key port (key rest no_keys)) f.source_port_id _ bytes_from _ from (
          key-KeysLast laws port (key rest no_keys) f.destination_port_id _ bytes_to _ to (
            last_key-KeysLast laws rest f.payload f.payload
              (payload-RoundTripsLast laws f.payload))))
