-- ===== src/Network/Search.antt =====
-- ts-core/src/net/node/networkState.ts: `getUnreachableNodes`. Each round of the loop takes one id
-- from the queue; the rounds are bounded by fuel.
-- A node stands in `nodes` at its own id, so the keys of `nodes` are the ids of the nodes.
use heterogeneous_network.Base.{
  ℕ, zero, suc, ◌+◌, List, [], ◌∷◌, ◌++◌, Option, none, some, length, if◌then◌else◌,
}
use heterogeneous_network.Base.Dict.{lookup, keys, mem, without, is_some}
use heterogeneous_network.Network.Node.{NetworkNode, get_all_links}
use heterogeneous_network.Network.State.{NetworkState}

pub record Search : Type 0 where
  pub un_visited : List ℕ
  pub queue : List ℕ

-- `filter((neighborId) => unVisited.has(neighborId))`
unfoldable pub only : List ℕ → List ℕ → List ℕ
unfolding mem
only un_visited [] = []
only un_visited (id ∷ ids) =
    let rest = only un_visited ids in if mem id un_visited then id ∷ rest else rest

-- The `for` loop of a round.
unfoldable pub visit : List ℕ → Search → Search
unfolding without
visit [] s = s
visit (id ∷ ids) s =
    visit ids (record { un_visited = without id s.un_visited; queue = s.queue ++ id ∷ [] })

abbrev pub links_at : Option NetworkNode → List ℕ
links_at none = []
links_at (some n) = get_all_links n

unfoldable pub round : List (ℕ × NetworkNode) → ℕ → Search → Search
unfolding only visit get_all_links
round nodes current s = visit (only s.un_visited (links_at (lookup current nodes))) s

-- The `while` loop; `none` where the fuel runs out.
unfoldable pub search_loop : ℕ → List (ℕ × NetworkNode) → Search → Option (List ℕ)
unfolding round
search_loop zero nodes s = none
search_loop (suc fuel) nodes s = elim s.queue [
  | [] ↦ some s.un_visited
  | current ∷ rest ↦ search_loop fuel nodes (round nodes current (record s { queue = rest }))
]

-- The number of the links of all nodes.
unfoldable pub link_count : List (ℕ × NetworkNode) → ℕ
unfolding get_all_links
link_count [] = 0
link_count ((id, n) ∷ nodes) = length (get_all_links n) + link_count nodes

unfoldable pub get_unreachable_nodes : ℕ → NetworkState → Option (List ℕ)
unfolding search_loop link_count
get_unreachable_nodes initial_id s =
    if is_some (lookup initial_id s.nodes)
    then search_loop (2 + link_count s.nodes) s.nodes
        (record { un_visited = without initial_id (keys s.nodes); queue = initial_id ∷ [] })
    else some []
