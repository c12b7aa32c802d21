-- ===== src/Examples/Networks.antt =====
-- The theorems on the state of an observed network at concrete networks.
use heterogeneous_network.Base.{ℕ, ◌≡◌, ◌↔◌, refl, true, List, [], ◌∷◌, some}
use heterogeneous_network.Base.Dict.{lookup, mem}
use heterogeneous_network.Network.Node.{NetworkNode, node_updated, link_updated, node_removed}
use heterogeneous_network.Network.State.{NetworkState, bare, empty_state}
use heterogeneous_network.Network.Search.{get_unreachable_nodes}
use heterogeneous_network.Network.Invariant.{IsValid}
use heterogeneous_network.Network.History.{Call, update, sync, run_all, network-IsValid}
use heterogeneous_network.Network.Reachable.{IsUnreachable, get_unreachable_nodes_iff}

-- Links 1-2 and 2-3, node 4 without a link; then node 2 is removed and 3 tells its links.
abbrev calls : List Call
calls =
    update (link_updated (bare 1) (bare 2) 7)
    ∷ update (link_updated (bare 3) (bare 2) 5)
    ∷ update (node_updated (bare 4))
    ∷ update (node_removed 2)
    ∷ sync 3 ((1, 9) ∷ [])
    ∷ []

network-IsValid_example : IsValid (run_all calls empty_state)
network-IsValid_example = network-IsValid calls

-- The links 1-2 and 3-4.
abbrev node_with : ℕ → List (ℕ × ℕ) → List (ℕ × ℕ) → NetworkNode
node_with id strong weak = record { node = bare id; strong = strong; weak = weak }

abbrev halves : NetworkState
halves = record {
  nodes =
      (1, node_with 1 ((2, 7) ∷ []) [])
      ∷ (2, node_with 2 [] ((1, 7) ∷ []))
      ∷ (3, node_with 3 ((4, 5) ∷ []) [])
      ∷ (4, node_with 4 [] ((3, 5) ∷ []))
      ∷ [];
  priorities = (1, 0) ∷ (2, 1) ∷ (3, 2) ∷ (4, 3) ∷ [];
  next_priority = 4;
}

get_unreachable_nodes_iff_example :
    (t : List ℕ) × (get_unreachable_nodes 1 halves ≡ some t)
    × ((v : ℕ) → (mem v t ≡ true) ↔ IsUnreachable halves 1 v)
unfolding lookup
get_unreachable_nodes_iff_example = get_unreachable_nodes_iff 1 halves refl
