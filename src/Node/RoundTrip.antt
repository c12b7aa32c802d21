-- ===== src/Node/RoundTrip.antt =====
-- The bytes of node ids, cluster ids, sources and destinations.
use heterogeneous_network.Base.{
  ℕ, ◌<◌, ◌≡◌, refl, ap, List, [], ◌∷◌, ◌++◌, All, All-append, some, ok, arith, length,
}
use heterogeneous_network.Serde.Traits.{Writer}
use heterogeneous_network.Serde.Buffer.Writing.{WriterLaws, IsByte}
use heterogeneous_network.Serde.Serdeable.{RoundTrips}
use heterogeneous_network.Serde.Primitives.{size8, uint_serdeable}
use heterogeneous_network.Serde.Primitives.Uint.{uint8-RoundTrips}
use heterogeneous_network.Serde.Combinators.{fixed_bytes_serdeable, pair_serdeable}
use heterogeneous_network.Serde.Combinators.Words.{fixed_bytes-RoundTrips}
use heterogeneous_network.Serde.Combinators.Sequence.{
  pair-RoundTrips, transform-RoundTrips, throwing_transform-RoundTrips, variant-RoundTrips,
}
use heterogeneous_network.Node.Id.{
  NodeId, new_node_id, body_bytes_size_of, body_serdeable, id_serdeable, node_id_serdeable,
}
use heterogeneous_network.Node.Cluster.{OptionalClusterId, id, from_number, cluster_id_serdeable}
use heterogeneous_network.Node.Endpoint.{
  Source, Destination, new_source, source_serdeable, destination_serdeable,
}
use heterogeneous_network.Node.Matching.{IsNodeId, IsSource, IsDestination, body-size}

abbrev pub node_id_bytes : NodeId → List ℕ
node_id_bytes n = n.type ∷ n.body

-- A cluster id that the constructors return from a byte.
abbrev pub IsClusterId : OptionalClusterId → Type 0
IsClusterId c = (from_number (id c) ≡ ok c) × (id c < 256)

abbrev pub end_bytes : NodeId → OptionalClusterId → List ℕ
end_bytes n c = node_id_bytes n ++ (id c ∷ [])

-- The bytes of an id are bytes.
abbrev pub IsPlain : NodeId → Type 0
IsPlain n = All IsByte n.body

pub type-small : (n : NodeId) → IsNodeId n → n.type < 256
unfolding body_bytes_size_of
type-small n h = let e = body-size n h in ground arith

pub end_bytes-IsByte :
    (n : NodeId) (c : OptionalClusterId)
    → IsNodeId n
    → IsPlain n
    → IsClusterId c
    → All IsByte (end_bytes n c)
end_bytes-IsByte n c h plain k = (type-small n h, All-append IsByte n.body _ plain (k.1, tt))

module _ {W : Type 0} {w : Writer W} (laws : WriterLaws w) where
  pub node_id-RoundTrips :
      (n : NodeId) → IsNodeId n → RoundTrips laws (node_id_serdeable w) n (node_id_bytes n)
  unfolding node_id_serdeable id_serdeable body_serdeable
  node_id-RoundTrips n h =
      variant-RoundTrips laws (λ (n : NodeId). n.type) (id_serdeable w)
        (body_serdeable w n.type (ok (length n.body))) n n.body
        (ap (λ m. some (body_serdeable w n.type m)) (body-size n h)) (type-small n h)
        (throwing_transform-RoundTrips laws (fixed_bytes_serdeable w (length n.body))
          (new_node_id n.type) (λ n. n.body) n n.body h (fixed_bytes-RoundTrips laws n.body))

  pub cluster_id-RoundTrips :
      (c : OptionalClusterId)
      → IsClusterId c
      → RoundTrips laws (cluster_id_serdeable w) c (id c ∷ [])
  unfolding cluster_id_serdeable
  cluster_id-RoundTrips c h =
      throwing_transform-RoundTrips laws (uint_serdeable w size8) from_number id c (id c ∷ []) h.0
        (uint8-RoundTrips laws (id c) h.1)

  end-RoundTrips :
      (n : NodeId) (c : OptionalClusterId)
      → IsNodeId n
      → IsClusterId c
      → RoundTrips laws
          (pair_serdeable (node_id_serdeable w) (cluster_id_serdeable w))
          (n, c)
          (end_bytes n c)
  end-RoundTrips n c h k =
      pair-RoundTrips laws (node_id_serdeable w) (cluster_id_serdeable w) n c (node_id_bytes n)
        (id c ∷ []) (node_id-RoundTrips n h) (cluster_id-RoundTrips c k)

  pub source-RoundTrips :
      (s : Source)
      → IsSource s
      → IsClusterId s.cluster_id
      → RoundTrips laws (source_serdeable w) s (end_bytes s.node_id s.cluster_id)
  unfolding source_serdeable
  source-RoundTrips s h k =
      throwing_transform-RoundTrips laws
        (pair_serdeable (node_id_serdeable w) (cluster_id_serdeable w)) (λ p. new_source p.0 p.1)
        (λ s. (s.node_id, s.cluster_id)) s _ h.1 (end-RoundTrips s.node_id s.cluster_id h.0 k)

  pub destination-RoundTrips :
      (d : Destination)
      → IsDestination d
      → IsClusterId d.cluster_id
      → RoundTrips laws (destination_serdeable w) d (end_bytes d.node_id d.cluster_id)
  unfolding destination_serdeable
  destination-RoundTrips d h k =
      transform-RoundTrips laws (pair_serdeable (node_id_serdeable w) (cluster_id_serdeable w))
        (λ p. some (record { node_id = p.0; cluster_id = p.1 })) (λ d. (d.node_id, d.cluster_id)) d
        _ refl (end-RoundTrips d.node_id d.cluster_id h k)
