-- ===== src/Network/History.antt =====
-- Network states that calls of the methods of NetworkState can make of the empty one.
use heterogeneous_network.Base.{ℕ, ◌≡◌, refl, true, List, [], ◌∷◌, arith, ==_refl}
use heterogeneous_network.Base.Dict.{lookup, keys}
use heterogeneous_network.Network.Node.{
  NetworkTopologyUpdate, node_updated, node_removed, link_updated, link_removed, get_all_links,
}
use heterogeneous_network.Network.State.{
  NetworkState, bare, node_at, update_node, connect_ordered, sync_links, sync_link, empty_state,
  apply_update,
}
use heterogeneous_network.Network.Views.{is_known, update_node-links}
use heterogeneous_network.Network.Invariant.{IsValid, update_node-IsValid}
use heterogeneous_network.Network.Changes.{update_link-IsValid, connect_ordered-IsValid}
use heterogeneous_network.Network.Removal.{
  remove_link-Removes, remove_links_except-Removes, remove_node-IsValid,
}

sync_links-IsValid :
    (x : ℕ) (links : List (ℕ × ℕ)) (s : NetworkState)
    → IsValid s
    → is_known s x ≡ true
    → IsValid (sync_links x links s).1
unfolding sync_links
sync_links-IsValid x [] s h k = h
sync_links-IsValid x ((y, c) ∷ links) s h k =
    let p = bare y in
    let at = update_node-links p s in
    let s1 = (update_node p s).1 in
    let kx : is_known s1 x ≡ true = ground (arith, (at x).2) in
    let r =
      connect_ordered-IsValid x y c s1 (update_node-IsValid p s h)
        (kx, ground (arith, (at y).2, ==_refl y)) in
    sync_links-IsValid x links (connect_ordered x y c s1).1 r.0 (r.1 x kx)

sync_link-IsValid :
    (x : ℕ) (links : List (ℕ × ℕ)) (s : NetworkState) → IsValid s → IsValid (sync_link x links s).1
unfolding sync_link
sync_link-IsValid x links s h =
    let s1 = (update_node (bare x) s).1 in
    let s2 = (sync_links x links s1).1 in
    let h2 : IsValid s2 =
      sync_links-IsValid x links s1 (update_node-IsValid (bare x) s h)
        (ground (arith, (update_node-links (bare x) s x).2, ==_refl x)) in
    (remove_links_except-Removes (keys links) x (get_all_links (node_at x s2)) s2 h2).0.valid

-- A call of a method that changes the state.
pub data Call : Type 0 where
  update : NetworkTopologyUpdate → Call
  sync : ℕ → List (ℕ × ℕ) → Call

abbrev pub run : Call → NetworkState → NetworkState
run (update u) s = (apply_update u s).1
run (sync id links) s = (sync_link id links s).1

pub run_all : List Call → NetworkState → NetworkState
run_all [] s = s
run_all (c ∷ calls) s = run_all calls (run c s)

apply_update-IsValid :
    (u : NetworkTopologyUpdate) (s : NetworkState) → IsValid s → IsValid (apply_update u s).1
unfolding apply_update
apply_update-IsValid (node_updated node) s h = update_node-IsValid node s h
apply_update-IsValid (node_removed id) s h = remove_node-IsValid id s h
apply_update-IsValid (link_updated p q c) s h = update_link-IsValid p q c s h
apply_update-IsValid (link_removed a b) s h = (remove_link-Removes a b s h).0.valid

run-IsValid : (c : Call) (s : NetworkState) → IsValid s → IsValid (run c s)
run-IsValid (update u) s h = apply_update-IsValid u s h
run-IsValid (sync id links) s h = sync_link-IsValid id links s h

run_all-IsValid : (calls : List Call) (s : NetworkState) → IsValid s → IsValid (run_all calls s)
unfolding run_all
run_all-IsValid [] s h = h
run_all-IsValid (c ∷ calls) s h = run_all-IsValid calls (run c s) (run-IsValid c s h)

empty_state-IsValid : IsValid empty_state
unfolding empty_state node_at lookup
empty_state-IsValid = record {
  named = λ x. refl;
  ranked = record { bounded = λ x p e. cc; injective = λ x y p e f. cc };
  symmetric = λ x y. refl;
  oriented = λ x y e. cc;
  present = λ x y e. cc;
}

-- After any calls on an empty state, every link stands strong at one of its ends and weak at the
-- other with the same cost, the strong end is the one that was given its priority first, both ends
-- are nodes of the state, each node stands at its own id, and no two nodes have one priority.
pub network-IsValid : (calls : List Call) → IsValid (run_all calls empty_state)
network-IsValid calls = run_all-IsValid calls empty_state empty_state-IsValid
