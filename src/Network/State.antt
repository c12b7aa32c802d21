-- ===== src/Network/State.antt =====
-- ts-core/src/net/node/networkState.ts: NodePriority and NetworkState. A NetworkNode object is
-- reached by its id in `nodes` only, so a call on the object is a change at the id. The counter of
-- NodePriority, which all states share in the source, is part of the state.
use heterogeneous_network.Base.{
  ℕ, ◌+◌, List, [], ◌∷◌, ◌++◌, Option, none, some, Throws, ok, throw, ◌>>=◌, ltb, if◌then◌else◌,
}
use heterogeneous_network.Base.Dict.{lookup, insert, delete, keys, mem}
use heterogeneous_network.Network.Node
use heterogeneous_network.Network.Node.{
  PartialNode, NetworkTopologyUpdate, node_updated, node_removed, link_updated, link_removed,
  NetworkNode, new_node, update, update_strong_link, update_weak_link, get_all_links,
}

pub record NetworkState : Type 0 where
  pub nodes : List (ℕ × NetworkNode)
  pub priorities : List (ℕ × ℕ)
  pub next_priority : ℕ

abbrev pub Updates : Type 0
Updates = List NetworkTopologyUpdate

abbrev pub get_or_insert_found : ℕ → NetworkState → Option ℕ → ℕ × NetworkState
get_or_insert_found id s none = (
  s.next_priority,
  record s {
    priorities = insert id s.next_priority s.priorities;
    next_priority = s.next_priority + 1;
  },
)
get_or_insert_found id s (some priority) = (priority, s)

-- `NodePriority.#getOrInsert`
unfoldable pub get_or_insert : ℕ → NetworkState → ℕ × NetworkState
get_or_insert id s = get_or_insert_found id s (lookup id s.priorities)

-- `NodePriority.prioritize`: the ids of the stronger and the weaker node.
unfoldable pub prioritize : ℕ → ℕ → NetworkState → ℕ × ℕ × NetworkState
unfolding get_or_insert
prioritize id1 id2 s =
    let (p1, s1) = get_or_insert id1 s in
    let (p2, s2) = get_or_insert id2 s1 in if ltb p1 p2 then (id1, id2, s2) else (id2, id1, s2)

abbrev pub updated_or_created :
    PartialNode → NetworkState → Option NetworkNode → Updates × NetworkState
updated_or_created node s none =
    (node_updated node ∷ [], record s { nodes = insert node.node_id (new_node node) s.nodes })
updated_or_created node s (some n) =
    let (updates, n') = update node n in
    (updates, record s { nodes = insert node.node_id n' s.nodes })

-- `#getOrUpdateNode`, and `updateNode`, which returns its updates.
unfoldable pub update_node : PartialNode → NetworkState → Updates × NetworkState
unfolding update
update_node node s = updated_or_created node s (lookup node.node_id s.nodes)

-- `{ nodeId: id }`
abbrev pub bare : ℕ → PartialNode
bare id = record { node_id = id; cluster_id = none; cost = none }

-- The object of an id, which is there where this is called.
unfoldable pub node_at : ℕ → NetworkState → NetworkNode
node_at id s = elim (lookup id s.nodes) [ none ↦ new_node (bare id) | some n ↦ n ]

unfoldable pub put : ℕ → NetworkNode → NetworkState → NetworkState
put id n s = record s { nodes = insert id n s.nodes }

-- `stronger.updateStrongLink(weaker, linkCost); weaker.updateWeakLink(stronger, linkCost)`
unfoldable pub connect : ℕ → ℕ → ℕ → NetworkState → Updates × NetworkState
unfolding update_strong_link update_weak_link node_at put
connect stronger weaker link_cost s =
    let (updates, n) = update_strong_link (node_at weaker s).node link_cost (node_at stronger s) in
    let t = put stronger n s in
    let m = update_weak_link (node_at stronger t).node link_cost (node_at weaker t) in
    (updates, put weaker m t)

-- The two nodes are put in order and connected.
unfoldable pub connect_ordered : ℕ → ℕ → ℕ → NetworkState → Updates × NetworkState
unfolding prioritize connect
connect_ordered source destination link_cost s =
    let (stronger, weaker, t) = prioritize source destination s in
    connect stronger weaker link_cost t

unfoldable pub update_link : PartialNode → PartialNode → ℕ → NetworkState → Updates × NetworkState
unfolding update_node connect_ordered
update_link source destination link_cost s =
    let (n1, s1) = update_node source s in
    let (n2, s2) = update_node destination s1 in
    let (n3, s3) = connect_ordered source.node_id destination.node_id link_cost s2 in
    (n1 ++ n2 ++ n3, s3)

unfoldable pub disconnect : ℕ → ℕ → NetworkState → Updates × NetworkState
unfolding Node.remove_link node_at put
disconnect source_id destination_id s =
    let t = put destination_id (Node.remove_link source_id (node_at destination_id s)).1 s in
    let (updates, n) = Node.remove_link destination_id (node_at source_id t) in
    (updates, put source_id n t)

-- `disconnect`, if both nodes are there.
abbrev pub disconnect_known :
    ℕ → ℕ → NetworkState → Option NetworkNode → Option NetworkNode → Updates × NetworkState
disconnect_known source_id destination_id s none _ = ([], s)
disconnect_known source_id destination_id s (some n) none = ([], s)
disconnect_known source_id destination_id s (some n) (some m) =
    disconnect source_id destination_id s

unfoldable pub remove_link : ℕ → ℕ → NetworkState → Updates × NetworkState
unfolding disconnect
remove_link source_id destination_id s =
    disconnect_known source_id destination_id s (lookup source_id s.nodes)
      (lookup destination_id s.nodes)

-- The loop of `syncLink` over the links that it is given.
unfoldable pub sync_links : ℕ → List (ℕ × ℕ) → NetworkState → Updates × NetworkState
unfolding update_node connect_ordered
sync_links source_id [] s = ([], s)
sync_links source_id ((node_id, link_cost) ∷ links) s =
    let (n1, s1) = update_node (bare node_id) s in
    let (n2, s2) = connect_ordered source_id node_id link_cost s1 in
    let (n3, s3) = sync_links source_id links s2 in (n1 ++ n2 ++ n3, s3)

-- `removeLink(sourceId, neighborId)` for each neighbor that is not kept.
unfoldable pub remove_links_except : List ℕ → ℕ → List ℕ → NetworkState → Updates × NetworkState
unfolding remove_link
remove_links_except kept source_id [] s = ([], s)
remove_links_except kept source_id (neighbor ∷ neighbors) s =
    let (n1, s1) = if mem neighbor kept then ([], s) else remove_link source_id neighbor s in
    let (n2, s2) = remove_links_except kept source_id neighbors s1 in (n1 ++ n2, s2)

unfoldable pub sync_link : ℕ → List (ℕ × ℕ) → NetworkState → Updates × NetworkState
unfolding update_node sync_links remove_links_except get_all_links node_at
sync_link source_id links s =
    let (n1, s1) = update_node (bare source_id) s in
    let (n2, s2) = sync_links source_id links s1 in
    let (n3, s3) =
      remove_links_except (keys links) source_id (get_all_links (node_at source_id s2)) s2 in
    (n1 ++ n2 ++ n3, s3)

abbrev pub removed_node : ℕ → NetworkState → Option NetworkNode → Updates × NetworkState
removed_node id s none = ([], s)
removed_node id s (some n) =
    let (n1, t) = remove_links_except [] id (get_all_links n) s in
    (n1 ++ node_removed id ∷ [], record t { nodes = delete id t.nodes })

unfoldable pub remove_node : ℕ → NetworkState → Updates × NetworkState
unfolding remove_links_except get_all_links
remove_node id s = removed_node id s (lookup id s.nodes)

unfoldable pub empty_state : NetworkState
empty_state = record { nodes = []; priorities = []; next_priority = 0 }

-- The strong links of a node, each with the node at its other end, which has to be there.
abbrev pub link_to : PartialNode → ℕ → Option NetworkNode → Throws NetworkTopologyUpdate
link_to source link_cost none = throw
link_to source link_cost (some neighbor) = ok (link_updated source neighbor.node link_cost)

unfoldable pub dump_links : List (ℕ × NetworkNode) → PartialNode → List (ℕ × ℕ) → Throws Updates
dump_links nodes source [] = ok []
dump_links nodes source ((neighbor_id, link_cost) ∷ links) = do
  update ← link_to source link_cost (lookup neighbor_id nodes)
  updates ← dump_links nodes source links
  ok (update ∷ updates)

unfoldable pub dump_all_links : List (ℕ × NetworkNode) → List (ℕ × NetworkNode) → Throws Updates
unfolding dump_links
dump_all_links nodes [] = ok []
dump_all_links nodes ((id, n) ∷ rest) = do
  updates ← dump_links nodes n.node n.strong
  more ← dump_all_links nodes rest
  ok (updates ++ more)

unfoldable pub dump_nodes : List (ℕ × NetworkNode) → Updates
dump_nodes [] = []
dump_nodes ((id, n) ∷ rest) = node_updated n.node ∷ dump_nodes rest

unfoldable pub dump_as_updates : NetworkState → Throws Updates
unfolding dump_nodes dump_all_links
dump_as_updates s = dump_all_links s.nodes s.nodes >>= (λ links. ok (dump_nodes s.nodes ++ links))

unfoldable pub apply_update : NetworkTopologyUpdate → NetworkState → Updates × NetworkState
unfolding update_node remove_node update_link remove_link
apply_update (node_updated node) s = update_node node s
apply_update (node_removed id) s = remove_node id s
apply_update (link_updated source destination link_cost) s =
    update_link source destination link_cost s
apply_update (link_removed source_id destination_id) s = remove_link source_id destination_id s

unfoldable pub apply_updates : Updates → NetworkState → Updates × NetworkState
unfolding apply_update
apply_updates [] s = ([], s)
apply_updates (update ∷ updates) s =
    let (n1, s1) = apply_update update s in
    let (n2, s2) = apply_updates updates s1 in (n1 ++ n2, s2)
