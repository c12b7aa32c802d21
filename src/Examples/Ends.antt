-- ===== src/Examples/Ends.antt =====
-- The theorems on node ids, sources, destinations and the frames between them at concrete values.
use heterogeneous_network.Base.{◌≡◌, ◌↔◌, refl, true, [], ◌∷◌, some, arith, ok}
use heterogeneous_network.Serde.Buffer.Writing.{buffer_laws}
use heterogeneous_network.Node.Id.{NodeId, new_node_id, body_bytes_size_of, is_broadcast}
use heterogeneous_network.Node.Id as Ids
use heterogeneous_network.Node.Cluster.{no_cluster, cluster_id, from_number, new_cluster_id, id}
use heterogeneous_network.Node.Endpoint.{
  Source, Destination, new_source, into_destination, from_destination, matches,
}
use heterogeneous_network.Node.Matching.{
  IsNodeId, IsSource, IsFor, equals_iff, matches_iff, from_destination-into_destination,
}
use heterogeneous_network.Node.RoundTrip.{IsClusterId, IsPlain}
use heterogeneous_network.Tunnel.Frame.{TunnelFrame, tunnel_bytes}
use heterogeneous_network.Routing.Frame.{RoutingFrame, IsRoutingFrame}
use heterogeneous_network.Routing.Delivery.{IsDelivered, receive-serialize}
use heterogeneous_network.Trusted.Frame.{data_body}
use heterogeneous_network.Trusted.Frame.{TrustedFrameBody}
use heterogeneous_network.Trusted.Codec.RoundTrip.{content_bytes}
use heterogeneous_network.Trusted.Pseudo.{LengthOmittedPseudoHeader}
use heterogeneous_network.Trusted.Pseudo.Header.{IsEnds}
use heterogeneous_network.Trusted.Pseudo.Agreement.{IsJudged, create-verify_checksum}

-- Serial node 3, and the node of an IPv4 address and a port.
abbrev pub serial_node : NodeId
serial_node = record { type = 1; body = 3 ∷ [] }

abbrev ip_node : NodeId
ip_node = record { type = 3; body = 192 ∷ 168 ∷ 0 ∷ 9 ∷ 80 ∷ 31 ∷ [] }

abbrev broadcast_node : NodeId
broadcast_node = record { type = 255; body = [] }

serial_node-IsNodeId : IsNodeId serial_node
unfolding new_node_id body_bytes_size_of
serial_node-IsNodeId = refl

ip_node-IsNodeId : IsNodeId ip_node
unfolding new_node_id body_bytes_size_of
ip_node-IsNodeId = refl

broadcast_node-IsNodeId : IsNodeId broadcast_node
unfolding new_node_id body_bytes_size_of
broadcast_node-IsNodeId = refl

abbrev pub serial_source : Source
serial_source = record { node_id = serial_node; cluster_id = cluster_id 5 }

abbrev pub ip_destination : Destination
ip_destination = record { node_id = ip_node; cluster_id = no_cluster }

abbrev cluster_destination : Destination
cluster_destination = record { node_id = broadcast_node; cluster_id = cluster_id 5 }

serial_source-IsSource : IsSource serial_source
unfolding new_source
serial_source-IsSource = (serial_node-IsNodeId, refl)

equals_iff_example : (Ids.equals serial_node ip_node ≡ true) ↔ (serial_node ≡ ip_node)
equals_iff_example = equals_iff serial_node ip_node serial_node-IsNodeId ip_node-IsNodeId

matches_iff_example :
    (matches serial_source cluster_destination ≡ true) ↔ IsFor serial_source cluster_destination
matches_iff_example =
    matches_iff serial_source cluster_destination serial_source-IsSource broadcast_node-IsNodeId

from_destination-into_destination_example :
    (from_destination (into_destination serial_source) ≡ some (ok serial_source))
    × (matches serial_source (into_destination serial_source) ≡ true)
from_destination-into_destination_example =
    from_destination-into_destination serial_source serial_source-IsSource

cluster_5-IsClusterId : IsClusterId (cluster_id 5)
unfolding from_number new_cluster_id id
cluster_5-IsClusterId = (refl, omega arith)

no_cluster-IsClusterId : IsClusterId no_cluster
unfolding from_number id
no_cluster-IsClusterId = (refl, omega arith)

ip_node-bytes : IsPlain ip_node
ip_node-bytes =
    (omega arith, (omega arith, (omega arith, (omega arith, (omega arith, (omega arith, tt))))))

-- A tunnel frame from port 1 to port 8000, and the routing frame around it.
abbrev hello : TunnelFrame
hello = record { source_port_id = 1; destination_port_id = 8000; payload = 104 ∷ 105 ∷ [] }

abbrev pub carried : RoutingFrame
carried = record {
  source = serial_source;
  destination = ip_destination;
  frame_id = 777;
  payload = tunnel_bytes buffer_laws hello;
}

pub carried-IsRoutingFrame : IsRoutingFrame carried
carried-IsRoutingFrame = record {
  source = serial_source-IsSource;
  source_cluster = cluster_5-IsClusterId;
  destination = ip_node-IsNodeId;
  destination_cluster = no_cluster-IsClusterId;
  frame_id = omega arith;
}

receive-serialize_example : IsDelivered serial_node carried hello
receive-serialize_example =
    receive-serialize serial_node carried hello carried-IsRoutingFrame (omega arith, tt)
      ip_node-bytes (omega arith, omega arith, (omega arith, (omega arith, tt))) refl

abbrev data_frame_body : TrustedFrameBody
data_frame_body =
    data_body
      (record { sequence_number = 300; acknowledgement_number = 2; payload = 104 ∷ 105 ∷ [] })

abbrev ends : LengthOmittedPseudoHeader
ends = record {
  source = serial_source;
  destination = ip_destination;
  source_port = 1;
  destination_port_id = 8000;
}

ends-IsEnds : IsEnds ends
ends-IsEnds = record {
  source = serial_source-IsSource;
  source_bytes = (omega arith, tt);
  source_cluster = cluster_5-IsClusterId;
  destination = ip_node-IsNodeId;
  destination_bytes = ip_node-bytes;
  destination_cluster = no_cluster-IsClusterId;
  source_port = omega arith;
  destination_port_id = omega arith;
}

create-verify_checksum_example : IsJudged data_frame_body ends
unfolding content_bytes
create-verify_checksum_example =
    create-verify_checksum data_frame_body ends
      (omega arith, omega arith, (omega arith, (omega arith, tt))) ends-IsEnds (omega arith)
