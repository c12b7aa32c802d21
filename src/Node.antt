-- ===== src/Node.antt =====
-- ts-core/src/net/node: the names of nodes and clusters, and the two ends of a frame.
pub mod Id
pub mod Cluster
pub mod Cost
pub mod Endpoint
pub mod Matching
pub mod RoundTrip
