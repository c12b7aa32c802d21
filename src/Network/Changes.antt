-- ===== src/Network/Changes.antt =====
-- The changes of links: each keeps the invariant.
use heterogeneous_network.Base.{ℕ, ◌≡◌, refl, inl, inr, true, Option, none, some, ==_refl, arith}
use heterogeneous_network.Base.Dict.{lookup}
use heterogeneous_network.Network.Node.{PartialNode}
use heterogeneous_network.Network.State.{
  NetworkState, node_at, update_node, connect_ordered, update_link, prioritize,
}
use heterogeneous_network.Network.Views.{is_known, update_node-links, connect-known}
use heterogeneous_network.Network.Priority.{before, Extends, prioritize-IsOrdered}
use heterogeneous_network.Network.Invariant.{IsValid, update_node-IsValid, connect-IsValid}

node_at-nodes : (s t : NetworkState) (x : ℕ) → t.nodes ≡ s.nodes → node_at x t ≡ node_at x s
unfolding node_at
node_at-nodes s t x e = rw (e, node_at) refl

extend-IsValid : (s t : NetworkState) → Extends s t → IsValid s → IsValid t
extend-IsValid s t e h =
    let at = λ (x : ℕ). node_at-nodes s t x e.nodes in
    record {
      named = λ x. rw (at x) (h.named x);
      ranked = e.ranked;
      symmetric = λ x y. rw (at x, at y) (h.symmetric x y);
      oriented = λ x y f.
          later x y (lookup x s.priorities) (lookup y s.priorities) refl refl
            (h.oriented x y (rw (at x) at f));
      present = λ x y f. rw e.nodes (h.present x y (rw (at x) at f));
    }
  where
    later :
        (x y : ℕ) (o q : Option ℕ)
        → lookup x s.priorities ≡ o
        → lookup y s.priorities ≡ q
        → before s x y ≡ true
        → before t x y ≡ true
    later x y (some p) (some q) c d b = ground (arith, e.given x p c, e.given y q d)
    later x y none q c d b = ground arith
    later x y (some p) none c d b = ground arith

abbrev pub BothKnown : ℕ → ℕ → NetworkState → Type 0
BothKnown x y s = (is_known s x ≡ true) × (is_known s y ≡ true)

pub connect_ordered-IsValid :
    (x y c : ℕ) (s : NetworkState)
    → IsValid s
    → BothKnown x y s
    → IsValid (connect_ordered x y c s).1
      × ((z : ℕ) → is_known s z ≡ true → is_known (connect_ordered x y c s).1 z ≡ true)
unfolding connect_ordered
connect_ordered-IsValid x y c s h k =
    let (a, b, t) = prioritize x y s in
    let order = prioritize-IsOrdered x y s h.ranked in
    let valid = extend-IsValid s t order.0 h in
    let same : (z : ℕ) → is_known t z ≡ is_known s z = λ z. rw order.0.nodes refl in
    let b_known : is_known t b ≡ true =
      rw (same b) (elim order.2 [ inl p ↦ rw p.1 k.1 | inr p ↦ rw p.1 k.0 ]) in
    (
      connect-IsValid a b c t valid b_known order.1,
      λ z e. ground (arith, connect-known a b c t valid.named z, same z),
    )

pub update_link-IsValid :
    (p q : PartialNode) (c : ℕ) (s : NetworkState) → IsValid s → IsValid (update_link p q c s).1
unfolding update_link
update_link-IsValid p q c s h =
    let s1 = (update_node p s).1 in
    let s2 = (update_node q s1).1 in
    let of_q = update_node-links q s1 in
    (connect_ordered-IsValid p.node_id q.node_id c s2
      (update_node-IsValid q s1 (update_node-IsValid p s h))
      (
        ground (arith, (update_node-links p s p.node_id).2, (of_q p.node_id).2, ==_refl p.node_id),
        ground (arith, (of_q q.node_id).2, ==_refl q.node_id),
      )).0
