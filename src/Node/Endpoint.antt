-- ===== src/Node/Endpoint.antt =====
-- ts-core/src/net/node/source.ts, destination.ts: the two ends of a frame.
use heterogeneous_network.Base.{
  Bool, true, not, Option, none, some, ◌&&◌, Throws, ok, throw, ◌>>=◌, if◌then◌else◌,
}
use heterogeneous_network.Serde.Traits.{Writer}
use heterogeneous_network.Serde.Serdeable.{Serdeable}
use heterogeneous_network.Serde.Combinators.{
  pair_serdeable, transform_serdeable, throwing_transform_serdeable,
}
use heterogeneous_network.Node.Id.{NodeId, node_id_serdeable}
use heterogeneous_network.Node.Cluster.{
  OptionalClusterId, no_cluster, is_no_cluster, cluster_id_serdeable,
}
use heterogeneous_network.Node.Id as Ids
use heterogeneous_network.Node.Cluster as Cluster

pub record Source : Type 0 where
  pub node_id : NodeId
  pub cluster_id : OptionalClusterId

pub record Destination : Type 0 where
  pub node_id : NodeId
  pub cluster_id : OptionalClusterId

-- The constructor of Source.
unfoldable pub new_source : NodeId → OptionalClusterId → Throws Source
unfolding Ids.is_broadcast
new_source node_id cluster =
    if Ids.is_broadcast node_id
    then throw
    else ok (record { node_id = node_id; cluster_id = cluster })

-- `Source.broadcast`
unfoldable pub broadcast_source : Throws Source
unfolding Ids.broadcast new_source
broadcast_source = Ids.broadcast >>= (λ node_id. new_source node_id no_cluster)

-- `Source.loopback`
unfoldable pub loopback_source : Throws Source
unfolding Ids.loopback new_source
loopback_source = Ids.loopback >>= (λ node_id. new_source node_id no_cluster)

-- `Source.equals`
unfoldable pub equal_sources : Source → Source → Bool
unfolding Ids.equals Cluster.equals
equal_sources s other =
    Ids.equals s.node_id other.node_id && Cluster.equals s.cluster_id other.cluster_id

abbrev pub into_destination : Source → Destination
into_destination s = record { node_id = s.node_id; cluster_id = s.cluster_id }

-- `Destination.broadcast`
unfoldable pub broadcast_destination : Throws Destination
unfolding Ids.broadcast
broadcast_destination =
    Ids.broadcast >>= (λ node_id. ok (record { node_id = node_id; cluster_id = no_cluster }))

abbrev pub from_node_id : NodeId → Destination
from_node_id node_id = record { node_id = node_id; cluster_id = no_cluster }

unfoldable pub is_broadcast : Destination → Bool
unfolding Ids.is_broadcast is_no_cluster
is_broadcast d = Ids.is_broadcast d.node_id && is_no_cluster d.cluster_id

unfoldable pub is_unicast : Destination → Bool
unfolding Ids.is_broadcast
is_unicast d = not (Ids.is_broadcast d.node_id)

unfoldable pub is_multicast : Destination → Bool
unfolding Ids.is_broadcast is_no_cluster
is_multicast d = Ids.is_broadcast d.node_id && not (is_no_cluster d.cluster_id)

-- `Destination.equals`
unfoldable pub equal_destinations : Destination → Destination → Bool
unfolding Ids.equals Cluster.equals
equal_destinations d other =
    Ids.equals d.node_id other.node_id && Cluster.equals d.cluster_id other.cluster_id

-- `Source.matches`
unfoldable pub matches : Source → Destination → Bool
unfolding is_broadcast is_unicast Ids.equals Cluster.equals
matches s d =
    if is_broadcast d
    then true
    else if is_unicast d
    then Ids.equals s.node_id d.node_id
    else Cluster.equals s.cluster_id d.cluster_id

-- `Source.fromDestination`
unfoldable pub from_destination : Destination → Option (Throws Source)
unfolding Ids.is_broadcast new_source
from_destination d =
    if Ids.is_broadcast d.node_id then none else some (new_source d.node_id d.cluster_id)

module _ {W : Type 0} (w : Writer W) where
  unfoldable pub source_serdeable : Serdeable W Source
  unfolding new_source
  source_serdeable =
      throwing_transform_serdeable (pair_serdeable (node_id_serdeable w) (cluster_id_serdeable w))
        (λ p. new_source p.0 p.1) (λ s. (s.node_id, s.cluster_id))

  unfoldable pub destination_serdeable : Serdeable W Destination
  destination_serdeable =
      transform_serdeable (pair_serdeable (node_id_serdeable w) (cluster_id_serdeable w))
        (λ p. some (record { node_id = p.0; cluster_id = p.1 })) (λ d. (d.node_id, d.cluster_id))
