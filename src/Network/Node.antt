-- ===== src/Network/Node.antt =====
-- ts-core/src/net/node/networkState.ts: Links, NodeLinks and NetworkNode. A NodeId and a Cost are
-- numbers here, and so is a cluster; a NodeId stands for its unique key. Nodes and updates are
-- values: that an update shares its object with the state is not modelled.
use heterogeneous_network.Base.{
  ℕ, Bool, true, false, not, ◌||◌, List, [], ◌∷◌, ◌++◌, Option, none, some, ◌==◌, if◌then◌else◌,
}
use heterogeneous_network.Base.Dict.{lookup, insert, delete, keys, is_some}

pub record PartialNode : Type 0 where
  pub node_id : ℕ
  pub cluster_id : Option ℕ
  pub cost : Option ℕ

pub data NetworkTopologyUpdate : Type 0 where
  node_updated : PartialNode → NetworkTopologyUpdate
  node_removed : ℕ → NetworkTopologyUpdate
  -- The two ends, and the cost of the link.
  link_updated : PartialNode → PartialNode → ℕ → NetworkTopologyUpdate
  link_removed : ℕ → ℕ → NetworkTopologyUpdate

abbrev pub Links : Type 0
Links = List (ℕ × ℕ)

-- `current?.equals(value)`
abbrev pub equals? : Option ℕ → ℕ → Bool
equals? none value = false
equals? (some current) value = current == value

-- `Links.updateLink`: whether something changed, and the links.
unfoldable pub update_links : ℕ → ℕ → Links → Bool × Links
update_links id cost links =
    if equals? (lookup id links) cost then (false, links) else (true, insert id cost links)

-- `Links.removeLink`
unfoldable pub remove_from_links : ℕ → Links → Bool × Links
remove_from_links id links = (is_some (lookup id links), delete id links)

-- NetworkNode, with the two fields of its NodeLinks.
pub record NetworkNode : Type 0 where
  pub node : PartialNode
  pub strong : Links
  pub weak : Links

abbrev pub new_node : PartialNode → NetworkNode
new_node node = record { node = node; strong = []; weak = [] }

-- `node.cost !== undefined && !this.#node.cost?.equals(node.cost)`
abbrev pub differs : Option ℕ → Option ℕ → Bool
differs current none = false
differs current (some value) = not (equals? current value)

-- `NetworkNode.update`
unfoldable pub update : PartialNode → NetworkNode → List NetworkTopologyUpdate × NetworkNode
update node n =
    let cost_updated = differs n.node.cost node.cost in
    let cluster_id_updated = differs n.node.cluster_id node.cluster_id in
    (
      if cost_updated || cluster_id_updated then node_updated node ∷ [] else [],
      record n {
        node = record {
          node_id = n.node.node_id;
          cluster_id = if cluster_id_updated then node.cluster_id else n.node.cluster_id;
          cost = if cost_updated then node.cost else n.node.cost;
        };
      },
    )

-- `NetworkNode.updateStrongLink`
unfoldable pub update_strong_link :
    PartialNode → ℕ → NetworkNode → List NetworkTopologyUpdate × NetworkNode
unfolding update_links
update_strong_link destination link_cost n =
    let (updated, links) = update_links destination.node_id link_cost n.strong in
    (
      if updated then link_updated n.node destination link_cost ∷ [] else [],
      record n { strong = links },
    )

-- `NetworkNode.updateWeakLink`
unfoldable pub update_weak_link : PartialNode → ℕ → NetworkNode → NetworkNode
unfolding update_links
update_weak_link destination link_cost n = record n {
  weak = (update_links destination.node_id link_cost n.weak).1;
}

-- `NodeLinks.removeLink`: the weak links are looked at only where no strong link was removed.
unfoldable pub remove_node_link : ℕ → NetworkNode → Bool × NetworkNode
unfolding remove_from_links
remove_node_link id n =
    let (strong_removed, strong) = remove_from_links id n.strong in
    let (weak_removed, weak) = remove_from_links id n.weak in
    if strong_removed
    then (true, record n { strong = strong })
    else (weak_removed, record n { strong = strong; weak = weak })

-- `NetworkNode.removeLink`
unfoldable pub remove_link : ℕ → NetworkNode → List NetworkTopologyUpdate × NetworkNode
unfolding remove_node_link
remove_link id n =
    let (updated, n') = remove_node_link id n in
    (if updated then link_removed n.node.node_id id ∷ [] else [], n')

-- `NetworkNode.getAllLinks`
unfoldable pub get_all_links : NetworkNode → List ℕ
get_all_links n = keys n.strong ++ keys n.weak
