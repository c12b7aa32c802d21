-- ===== src/Network/Views.antt =====
-- The links of a network state as functions of two ids, and what the small operations do to them.
use heterogeneous_network.Base.{
  ℕ, ◌≡◌, refl, Bool, ◌&&◌, ◌||◌, Option, none, some, ◌==◌, ==_iff, arith, if◌then◌else◌,
}
use heterogeneous_network.Base.Dict.{lookup, is_some, lookup-insert}
use heterogeneous_network.Network.Node.{
  PartialNode, NetworkNode, new_node, update_links, update, update_strong_link, update_weak_link,
  Links,
}
use heterogeneous_network.Network.State.{
  NetworkState, node_at, put, updated_or_created, update_node, connect,
}

abbrev pub strong : NetworkState → ℕ → ℕ → Option ℕ
strong s x y = lookup y (node_at x s).strong

abbrev pub weak : NetworkState → ℕ → ℕ → Option ℕ
weak s x y = lookup y (node_at x s).weak

abbrev pub is_known : NetworkState → ℕ → Bool
is_known s x = is_some (lookup x s.nodes)

pub node_at-put :
    (id x : ℕ) (n : NetworkNode) (s : NetworkState)
    → node_at x (put id n s) ≡ (if id == x then n else node_at x s)
unfolding node_at put
node_at-put id x n s = ground (arith, lookup-insert x id n s.nodes)

pub is_known-put :
    (id x : ℕ) (n : NetworkNode) (s : NetworkState)
    → is_known (put id n s) x ≡ (id == x) || is_known s x
unfolding put
is_known-put id x n s = ground (arith, lookup-insert x id n s.nodes)

pub lookup-update_links :
    (x id cost : ℕ) (links : Links)
    → lookup x (update_links id cost links).1 ≡ (if id == x then some cost else lookup x links)
unfolding update_links
lookup-update_links x id cost links = ground (arith, lookup-insert x id cost links)

-- `update_node` keeps the links, and makes its node known.
module _ (p : PartialNode) (s : NetworkState) (x : ℕ) where
  abbrev pub KeepsLinks : NetworkState → Type 0
  KeepsLinks t =
      ((node_at x t).strong ≡ (node_at x s).strong)
      × ((node_at x t).weak ≡ (node_at x s).weak)
      × (is_known t x ≡ (p.node_id == x) || is_known s x)
      × (t.priorities ≡ s.priorities)
      × (t.next_priority ≡ s.next_priority)

  pub kept_links :
      (o : Option NetworkNode)
      → lookup p.node_id s.nodes ≡ o
      → KeepsLinks (updated_or_created p s o).1
  unfolding update node_at
  kept_links none e =
      ground (arith, lookup-insert x p.node_id (new_node p) s.nodes, ==_iff p.node_id x)
  kept_links (some n) e =
      ground (arith, lookup-insert x p.node_id (update p n).1 s.nodes, ==_iff p.node_id x)

  pub update_node-links : KeepsLinks (update_node p s).1
  unfolding update_node
  update_node-links = kept_links (lookup p.node_id s.nodes) refl

-- Each object has the id at which it stands.
abbrev pub IsNamed : NetworkState → Type 0
IsNamed s = (x : ℕ) → (node_at x s).node.node_id ≡ x

pub put-IsNamed :
    (id : ℕ) (n : NetworkNode) (s : NetworkState)
    → n.node.node_id ≡ id
    → IsNamed s
    → IsNamed (put id n s)
put-IsNamed id n s e h x = ground (arith, node_at-put id x n s, h x, ==_iff id x)

pub known_name :
    (id : ℕ) (n : NetworkNode) (s : NetworkState)
    → IsNamed s
    → lookup id s.nodes ≡ some n
    → n.node.node_id ≡ id
unfolding node_at
known_name id n s h e = rw (e, node_at) at (h id)

pub update_node-IsNamed :
    (p : PartialNode) (s : NetworkState) → IsNamed s → IsNamed (update_node p s).1
unfolding update_node put
update_node-IsNamed p s h = go (lookup p.node_id s.nodes) refl
  where
    go :
        (o : Option NetworkNode)
        → lookup p.node_id s.nodes ≡ o
        → IsNamed (updated_or_created p s o).1
    go none e = put-IsNamed p.node_id (new_node p) s refl h
    go (some n) e =
        put-IsNamed p.node_id (update p n).1 s (unfold update in known_name p.node_id n s h e) h

-- `connect` writes the cost of one strong and one weak link.
module _ (a b c : ℕ) (s : NetworkState) (h : IsNamed s) where
  abbrev pub stronger : NetworkNode
  stronger = (update_strong_link (node_at b s).node c (node_at a s)).1

  abbrev pub with_strong : NetworkState
  with_strong = put a stronger s

  abbrev pub weaker : NetworkNode
  weaker = update_weak_link (node_at a with_strong).node c (node_at b with_strong)

  pub with_strong-IsNamed : IsNamed with_strong
  unfolding update_strong_link
  with_strong-IsNamed = put-IsNamed a stronger s (h a) h

  pub connect-IsNamed : IsNamed (connect a b c s).1
  unfolding connect update_weak_link
  connect-IsNamed = put-IsNamed b weaker with_strong (with_strong-IsNamed b) with_strong-IsNamed

  pub with_strong-strong :
      (x y : ℕ) → strong with_strong x y ≡ (if (a == x) && (b == y) then some c else strong s x y)
  unfolding update_strong_link
  with_strong-strong x y = ground (
    arith,
    node_at-put a x stronger s,
    lookup-update_links y (node_at b s).node.node_id c (node_at a s).strong,
    h b,
    ==_iff a x,
  )

  pub connect-strong :
      (x y : ℕ)
      → strong (connect a b c s).1 x y ≡ (if (a == x) && (b == y) then some c else strong s x y)
  unfolding connect update_weak_link
  connect-strong x y =
      ground (arith, node_at-put b x weaker with_strong, with_strong-strong x y, ==_iff b x)

  pub with_strong-weak : (x : ℕ) → (node_at x with_strong).weak ≡ (node_at x s).weak
  unfolding update_strong_link
  with_strong-weak x = ground (arith, node_at-put a x stronger s, ==_iff a x)

  pub connect-weak :
      (x y : ℕ)
      → weak (connect a b c s).1 x y ≡ (if (b == x) && (a == y) then some c else weak s x y)
  unfolding connect update_weak_link
  connect-weak x y = ground (
    arith,
    node_at-put b x weaker with_strong,
    lookup-update_links y (node_at a with_strong).node.node_id c (node_at b with_strong).weak,
    with_strong-IsNamed a,
    with_strong-weak x,
    ==_iff b x,
  )

  pub connect-known :
      (x : ℕ) → is_known (connect a b c s).1 x ≡ (b == x) || ((a == x) || is_known s x)
  unfolding connect
  connect-known x = ground (arith, is_known-put b x weaker with_strong, is_known-put a x stronger s)

  pub connect-priorities :
      ((connect a b c s).1.priorities ≡ s.priorities)
      × ((connect a b c s).1.next_priority ≡ s.next_priority)
  unfolding connect put
  connect-priorities = (refl, refl)
