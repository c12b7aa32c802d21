-- ===== src/Node/Matching.antt =====
-- Which sources a destination names.
use heterogeneous_network.Base.{
  ℕ, ◌≡◌, ◌↔◌, ◌⊎◌, inl, inr, refl, sym, ap, ◌∙◌, Bool, true, false, not, List, [], ◌∷◌, some, ◌&&◌,
  Throws, ok, throw, arith, length, ◌==◌, ==_refl, ==_iff, Bool-cases, if◌then◌else◌, ◌>>=◌,
}
use heterogeneous_network.Node.Id.{
  NodeId, new_node_id, body_bytes_size_of, broadcast_type, every_byte,
}
use heterogeneous_network.Node.Id as Ids
use heterogeneous_network.Node.Cluster as Cluster
use heterogeneous_network.Node.Cluster.{OptionalClusterId, no_cluster, cluster_id, is_no_cluster}
use heterogeneous_network.Node.Endpoint.{
  Source, Destination, new_source, into_destination, is_broadcast, is_unicast, is_multicast,
  matches, from_destination,
}

-- An id, a source that the constructor returned.
abbrev pub IsNodeId : NodeId → Type 0
IsNodeId id = new_node_id id.type id.body ≡ ok id

abbrev pub IsSource : Source → Type 0
IsSource s = IsNodeId s.node_id × (new_source s.node_id s.cluster_id ≡ ok s)

abbrev pub IsDestination : Destination → Type 0
IsDestination d = IsNodeId d.node_id

checked :
    (id : NodeId) (m : Throws ℕ)
    → (m >>= (λ size. if length id.body == size then ok id else throw)) ≡ ok id
    → m ≡ ok (length id.body)
checked id (ok size) e = ground arith
checked id throw e = cc

pub body-size : (id : NodeId) → IsNodeId id → body_bytes_size_of id.type ≡ ok (length id.body)
unfolding new_node_id
body-size id h = checked id (body_bytes_size_of id.type) h

every_byte_refl : (bytes : List ℕ) → every_byte bytes bytes ≡ true
unfolding every_byte
every_byte_refl [] = refl
every_byte_refl (b ∷ bytes) = ground (arith, every_byte_refl bytes)

every_byte-same : (xs ys : List ℕ) → length xs ≡ length ys → every_byte xs ys ≡ true → xs ≡ ys
unfolding every_byte
every_byte-same [] [] l e = refl
every_byte-same [] (y ∷ ys) l e = absurd (omega (arith, l))
every_byte-same (x ∷ xs) [] l e = absurd (omega (arith, l))
every_byte-same (x ∷ xs) (y ∷ ys) l e = ground (arith, every_byte-same xs ys)

and_both : (a b : Bool) → (a && b) ≡ true → (a ≡ true) × (b ≡ true)
and_both true b e = (refl, e)
and_both false b e = cc

same_size : {a b : ℕ} → ok a ≡ ok b → a ≡ b
same_size e = cc

equals-same : (a b : NodeId) → IsNodeId a → IsNodeId b → Ids.equals a b ≡ true → a ≡ b
unfolding Ids.equals
equals-same a b h k e =
    let both = and_both (a.type == b.type) (every_byte a.body b.body) e in
    let types : a.type ≡ b.type = (==_iff a.type b.type).0 both.0 in
    let sizes : length a.body ≡ length b.body =
      same_size (sym (body-size a h) ∙ ap body_bytes_size_of types ∙ body-size b k) in
    let bodies = every_byte-same a.body b.body sizes both.1 in
    ap (λ t. record { type = t; body = a.body }) types
    ∙ ap (λ bs. record { type = b.type; body = bs }) bodies

equals_refl : (a : NodeId) → Ids.equals a a ≡ true
unfolding Ids.equals
equals_refl a = rw (==_refl a.type) (every_byte_refl a.body)

-- Two ids that the constructor returned are `equals` exactly where they are the same id; the bytes
-- of the second one beyond those of the first one are not looked at, but there are none.
pub equals_iff : (a b : NodeId) → IsNodeId a → IsNodeId b → (Ids.equals a b ≡ true) ↔ (a ≡ b)
equals_iff a b h k = (equals-same a b h k, λ e. rw e (equals_refl b))

equal_clusters_iff : (a b : OptionalClusterId) → (Cluster.equals a b ≡ true) ↔ (a ≡ b)
unfolding Cluster.equals Cluster.id
equal_clusters_iff no_cluster no_cluster = (λ e. refl, λ e. refl)
equal_clusters_iff no_cluster (cluster_id n) = (λ e. cc, λ e. cc)
equal_clusters_iff (cluster_id n) no_cluster = (λ e. cc, λ e. cc)
equal_clusters_iff (cluster_id n) (cluster_id m) =
    (λ e. ap cluster_id ((==_iff n m).0 e), λ e. (==_iff n m).1 (ap Cluster.id e))

-- The three kinds of a destination.
pub data Kind : Type 0 where
  broadcast unicast multicast : Kind

abbrev pub flags : Kind → Bool × Bool × Bool
flags broadcast = (true, false, false)
flags unicast = (false, true, false)
flags multicast = (false, false, true)

-- A destination answers true to exactly one of isBroadcast, isUnicast and isMulticast.
pub one_kind :
    (d : Destination) → (k : Kind) × ((is_broadcast d, is_unicast d, is_multicast d) ≡ flags k)
unfolding is_broadcast is_unicast is_multicast
one_kind d = elim (Bool-cases (Ids.is_broadcast d.node_id)) [
  | inr e ↦ (unicast, rw e refl)
  | inl e ↦ elim (Bool-cases (is_no_cluster d.cluster_id)) [
    | inl f ↦ (broadcast, rw (e, f) refl)
    | inr f ↦ (multicast, rw (e, f) refl)
  ]
]

-- The answer of `matches`, from its tests: whether the node is the broadcast, whether the cluster
-- is missing, and the two comparisons.
module _ {P Q : Type 0} (nodes clusters : Bool) (p : (nodes ≡ true) ↔ P)
    (q : (clusters ≡ true) ↔ Q) where
  answer :
      (b n : Bool)
      → ((if b && n then true else if not b then nodes else clusters) ≡ true)
        ↔ (((b && n) ≡ true) ⊎ ((not b ≡ true) × P) ⊎ (((b && not n) ≡ true) × Q))
  answer true true = (λ e. inl refl, λ c. refl)
  answer true false = (
    λ e. inr (inr (refl, q.0 e)),
    λ c. elim c [ inl e ↦ cc | inr (inl x) ↦ absurd (cc x.0) | inr (inr x) ↦ q.1 x.1 ],
  )
  answer false n = (
    λ e. inr (inl (refl, p.0 e)),
    λ c. elim c [ inl e ↦ cc | inr (inl x) ↦ p.1 x.1 | inr (inr x) ↦ absurd (cc x.0) ],
  )

-- Whom a destination is for.
abbrev pub IsFor : Source → Destination → Type 0
IsFor s d =
    (is_broadcast d ≡ true)
    ⊎ ((is_unicast d ≡ true) × (s.node_id ≡ d.node_id))
    ⊎ ((is_multicast d ≡ true) × (s.cluster_id ≡ d.cluster_id))

-- A source matches a destination exactly where the destination is the broadcast, or is the
-- source's node, or is a multicast to the source's cluster. Both ids are such as the constructor
-- returns.
pub matches_iff :
    (s : Source) (d : Destination) → IsSource s → IsDestination d → (matches s d ≡ true) ↔ IsFor s d
unfolding matches is_broadcast is_unicast is_multicast
matches_iff s d h k =
    let ids = equals_iff s.node_id d.node_id h.0 k in
    let clusters = equal_clusters_iff s.cluster_id d.cluster_id in
    answer (Ids.equals s.node_id d.node_id) (Cluster.equals s.cluster_id d.cluster_id) ids clusters
      (Ids.is_broadcast d.node_id) (is_no_cluster d.cluster_id)

source_plain :
    (s : Source) → new_source s.node_id s.cluster_id ≡ ok s → Ids.is_broadcast s.node_id ≡ false
unfolding new_source
source_plain s h = elim (Bool-cases (Ids.is_broadcast s.node_id)) [
  | inl e ↦ absurd (cc (rw e at h))
  | inr e ↦ e
]

-- A source that the constructor returned is taken back from the destination it is turned into, and
-- matches this destination.
pub from_destination-into_destination :
    (s : Source)
    → IsSource s
    → (from_destination (into_destination s) ≡ some (ok s))
      × (matches s (into_destination s) ≡ true)
unfolding from_destination matches is_broadcast is_unicast
from_destination-into_destination s h =
    let plain = source_plain s h.1 in (rw plain refl, rw plain (equals_refl s.node_id))
