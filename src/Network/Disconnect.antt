-- ===== src/Network/Disconnect.antt =====
-- What `disconnect` does to the links of a network state.
use heterogeneous_network.Base.{
  ℕ, ◌≡◌, refl, Bool, true, not, ◌&&◌, ◌||◌, none, ◌==◌, ==_iff, arith, if◌then◌else◌,
}
use heterogeneous_network.Base.Dict.{lookup, is_some, lookup-delete}
use heterogeneous_network.Network.Node
use heterogeneous_network.Network.Node.{
  PartialNode, NetworkNode, new_node, equals?, update_links, remove_from_links, update,
  update_strong_link, update_weak_link, remove_node_link, Links,
}
use heterogeneous_network.Network.State.{NetworkState, node_at, put, disconnect}
use heterogeneous_network.Network.Views.{
  IsNamed, is_known, is_known-put, node_at-put, put-IsNamed, strong, weak,
}

-- `disconnect` removes the links in both directions.
module _ (a b : ℕ) (s : NetworkState) (h : IsNamed s) where
  abbrev left_b : NetworkNode
  left_b = (Node.remove_link a (node_at b s)).1

  abbrev halfway : NetworkState
  halfway = put b left_b s

  abbrev left_a : NetworkNode
  left_a = (Node.remove_link b (node_at a halfway)).1

  halfway-IsNamed : IsNamed halfway
  unfolding Node.remove_link remove_node_link
  halfway-IsNamed = put-IsNamed b left_b s (ground (arith, h b)) h

  pub disconnect-IsNamed : IsNamed (disconnect a b s).1
  unfolding disconnect Node.remove_link remove_node_link
  disconnect-IsNamed =
      put-IsNamed a left_a halfway (ground (arith, halfway-IsNamed a)) halfway-IsNamed

  node-strong :
      (id y : ℕ) (n : NetworkNode)
      → lookup y (Node.remove_link id n).1.strong ≡ (if id == y then none else lookup y n.strong)
  unfolding Node.remove_link remove_node_link remove_from_links
  node-strong id y n = ground (arith, lookup-delete y id n.strong)

  node-weak :
      (id y : ℕ) (n : NetworkNode)
      → lookup y (Node.remove_link id n).1.weak
        ≡ (if id == y && not (is_some (lookup id n.strong)) then none else lookup y n.weak)
  unfolding Node.remove_link remove_node_link remove_from_links
  node-weak id y n = ground (arith, lookup-delete y id n.weak)

  halfway-strong :
      (x y : ℕ) → strong halfway x y ≡ (if (b == x) && (a == y) then none else strong s x y)
  halfway-strong x y =
      ground (arith, node_at-put b x left_b s, node-strong a y (node_at b s), ==_iff b x)

  halfway-weak :
      (x y : ℕ)
      → weak halfway x y
        ≡ (if (b == x) && ((a == y) && not (is_some (strong s b a))) then none else weak s x y)
  halfway-weak x y =
      ground (arith, node_at-put b x left_b s, node-weak a y (node_at b s), ==_iff b x)

  abbrev pub cut : ℕ → ℕ → Bool
  cut x y = ((a == x) && (b == y)) || ((b == x) && (a == y))

  pub disconnect-strong :
      (x y : ℕ) → strong (disconnect a b s).1 x y ≡ (if cut x y then none else strong s x y)
  unfolding disconnect
  disconnect-strong x y = ground (
    arith,
    node_at-put a x left_a halfway,
    node-strong b y (node_at a halfway),
    halfway-strong x y,
    ==_iff a x,
  )

  -- No link is strong and weak at once, but that of a node to itself.
  abbrev pub IsExclusive : ℕ → ℕ → Type 0
  IsExclusive x y = is_some (strong s x y) && is_some (weak s x y) ≡ true → x ≡ y

  pub disconnect-weak :
      (x y : ℕ)
      → IsExclusive b a
      → strong s a a ≡ weak s a a
      → IsExclusive a b
      → weak (disconnect a b s).1 x y ≡ (if cut x y then none else weak s x y)
  unfolding disconnect
  disconnect-weak x y e f g = ground (
    arith,
    node_at-put a x left_a halfway,
    node-weak b y (node_at a halfway),
    halfway-weak x y,
    halfway-strong a b,
    ==_iff a x,
    ==_iff b y,
    ==_iff b x,
    ==_iff a y,
    ==_iff a b,
    ==_iff b a,
  )

  pub disconnect-known :
      (x : ℕ) → is_known (disconnect a b s).1 x ≡ (a == x) || ((b == x) || is_known s x)
  unfolding disconnect
  disconnect-known x = ground (arith, is_known-put a x left_a halfway, is_known-put b x left_b s)

  pub disconnect-priorities :
      ((disconnect a b s).1.priorities ≡ s.priorities)
      × ((disconnect a b s).1.next_priority ≡ s.next_priority)
  unfolding disconnect put
  disconnect-priorities = (refl, refl)
