-- ===== src/Trusted/Pseudo.antt =====
-- ts-core/src/net/trusted/frame.ts: the pseudo header, which the checksum of a frame covers although
-- it is not sent, and the frames that are created and received with it.
pub mod Header
pub mod Agreement
use heterogeneous_network.Base.{ℕ, Bool, List, [], ◌∷◌, length, Throws, throw, ◌>>=◌}
use heterogeneous_network.Base.{ok as returned}
use heterogeneous_network.Serde.Traits.{
  Writer, Serializer, SerializeResult, ok, not_enough_space, DeserializeResult, and_then,
}
use heterogeneous_network.Serde.Serdeable.{Serdeable}
use heterogeneous_network.Serde.Primitives.{size8, uint_serdeable}
use heterogeneous_network.Serde.Schema.{Schema, no_keys, key, object_serdeable}
use heterogeneous_network.Node.Endpoint.{
  Source, Destination, into_destination, source_serdeable, destination_serdeable,
}
use heterogeneous_network.Tunnel.Frame.{ReceivedTunnelFrame, port_serdeable}
use heterogeneous_network.Trusted.Frame.{TrustedFrameBody}
use heterogeneous_network.Trusted.Codec.{TrustedFrame, trusted_frame_serdeable}
use heterogeneous_network.Trusted.Checksum.{
  ChecksumWriter, new_writer, write_byte, write_bytes, checksum, verify,
}

pub record LengthOmittedPseudoHeader : Type 0 where
  pub source : Source
  pub destination : Destination
  pub source_port : ℕ
  pub destination_port_id : ℕ

pub record PseudoHeader : Type 0 where
  pub ends : LengthOmittedPseudoHeader
  pub length : ℕ

-- `createResponse`
abbrev pub create_response : PseudoHeader → Source → PseudoHeader
create_response h source = record {
  ends = record {
    source = source;
    destination = into_destination h.ends.source;
    source_port = h.ends.destination_port_id;
    destination_port_id = h.ends.source_port;
  };
  length = h.length;
}

-- `fromReceivedTunnelFrame`
abbrev pub from_received_tunnel_frame : ReceivedTunnelFrame → PseudoHeader
from_received_tunnel_frame f = record {
  ends = record {
    source = f.source;
    destination = f.destination;
    source_port = f.frame.source_port_id;
    destination_port_id = f.frame.destination_port_id;
  };
  length = length f.frame.payload;
}

abbrev pub HeaderParts : Type 0
HeaderParts = Source × (Destination × (ℕ × (ℕ × (ℕ × Unit {0}))))

abbrev pub make : HeaderParts → PseudoHeader
make p = record {
  ends = record {
    source = p.0;
    destination = p.1.0;
    source_port = p.1.1.0;
    destination_port_id = p.1.1.1.0;
  };
  length = p.1.1.1.1.0;
}

abbrev pub parts : PseudoHeader → HeaderParts
parts h = (
  h.ends.source,
  (h.ends.destination, (h.ends.source_port, (h.ends.destination_port_id, (h.length, tt)))),
)

module _ {W : Type 0} (w : Writer W) where
  abbrev pub header_schema : Schema W HeaderParts
  header_schema = key (source_serdeable w) (
      key (destination_serdeable w)
        (key (port_serdeable w) (key (port_serdeable w) (key (uint_serdeable w size8) no_keys))))

  -- `PseudoHeader.serdeable`
  unfoldable pub pseudo_header_serdeable : Serdeable W PseudoHeader
  unfolding object_serdeable key no_keys
  pseudo_header_serdeable = object_serdeable header_schema make parts

-- ChecksumWriter as a Writer: its results are always Ok, and a byte above 0xff throws.
abbrev pub checksum_writer : Writer (Throws ChecksumWriter)
checksum_writer = record {
  write_byte = λ byte w. ok (w >>= write_byte byte);
  write_bytes = λ bytes w. ok (w >>= write_bytes bytes);
}

-- The writer after a serializer, whose result is not looked at; it is Ok.
abbrev pub after : SerializeResult (Throws ChecksumWriter) → Throws ChecksumWriter
after (ok w) = w
after not_enough_space = throw

-- The ChecksumWriter of `create` and of `verifyChecksum`: the frame, and behind it the header.
unfoldable pub fed :
    Serializer (Throws ChecksumWriter) → Serializer (Throws ChecksumWriter) → Throws ChecksumWriter
fed frame header = after (header.serialize (after (frame.serialize (returned new_writer))))

-- `TrustedFrame.create`
unfoldable pub create : TrustedFrameBody → LengthOmittedPseudoHeader → Throws TrustedFrame
unfolding trusted_frame_serdeable pseudo_header_serdeable fed
create body ends =
    let frames = trusted_frame_serdeable checksum_writer in
    let headers = pseudo_header_serdeable checksum_writer in
    frames.serializer (record { checksum = 0; body = body }) >>= (λ z.
      headers.serializer (record { ends = ends; length = z.serialized_length })
      >>= (λ h. fed z h >>= checksum >>= (λ n. returned (record { checksum = n; body = body }))))

pub record ReceivedTrustedFrame : Type 0 where
  pub frame : TrustedFrame
  pub pseudo_header : PseudoHeader

-- `ReceivedTrustedFrame.deserialize`
unfoldable pub deserialize : ReceivedTunnelFrame → DeserializeResult ReceivedTrustedFrame
unfolding trusted_frame_serdeable
deserialize f =
    let frames = trusted_frame_serdeable checksum_writer in
    and_then (frames.deserializer (record { buffer = f.frame.payload; offset = 0 }))
      (λ p. ok (record { frame = p.0; pseudo_header = from_received_tunnel_frame f }))

-- `verifyChecksum`
unfoldable pub verify_checksum : ReceivedTrustedFrame → Throws Bool
unfolding trusted_frame_serdeable pseudo_header_serdeable fed
verify_checksum f =
    let frames = trusted_frame_serdeable checksum_writer in
    let headers = pseudo_header_serdeable checksum_writer in
    frames.serializer f.frame
    >>= (λ z. headers.serializer f.pseudo_header >>= (λ h. fed z h >>= verify))
