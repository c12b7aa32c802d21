-- ===== src/Network/Removal.antt =====
-- The removal of links and of nodes.
use heterogeneous_network.Base.{
  ℕ, ◌≡◌, refl, ◌∙◌, inl, inr, true, false, not, ◌&&◌, ◌||◌, List, [], ◌∷◌, Option, none, some,
  ◌==◌, ==_iff, ==_refl, arith, if◌then◌else◌, if_keeps, Bool-cases,
}
use heterogeneous_network.Base.Dict.{
  lookup, is_some, mem, delete, keys, lookup-delete, mem-keys, mem-append,
}
use heterogeneous_network.Network.Node.{NetworkNode, new_node, get_all_links}
use heterogeneous_network.Network.State.{
  NetworkState, node_at, bare, disconnect, remove_link, disconnect_known, remove_links_except,
  removed_node, remove_node,
}
use heterogeneous_network.Network.Disconnect.{
  disconnect-IsNamed, disconnect-strong, disconnect-weak, disconnect-known, disconnect-priorities,
}
use heterogeneous_network.Network.Views.{strong, weak, is_known}
use heterogeneous_network.Network.Invariant.{IsValid, exclusive}

-- No link goes from `x` to `y`, in either of the two tables.
abbrev pub IsUnlinked : NetworkState → ℕ → ℕ → Type 0
IsUnlinked s x y = (is_some (strong s x y) || is_some (weak s x y)) ≡ false

-- What a removal of links of `x` leaves: a valid state of the same nodes and no new links.
pub record Removes (s t : NetworkState) : Type 0 where
  pub valid : IsValid t
  pub known : (z : ℕ) → is_known t z ≡ is_known s z
  pub fewer : (x y : ℕ) → IsUnlinked s x y → IsUnlinked t x y

pub Removes-trans : {s t u : NetworkState} → Removes s t → Removes t u → Removes s u
Removes-trans a b = record {
  valid = b.valid;
  known = λ z. b.known z ∙ a.known z;
  fewer = λ x y e. b.fewer x y (a.fewer x y e);
}

pub disconnect-Removes :
    (a b : ℕ) (s : NetworkState)
    → IsValid s
    → is_known s a ≡ true
    → is_known s b ≡ true
    → Removes s (disconnect a b s).1 × IsUnlinked (disconnect a b s).1 a b
disconnect-Removes a b s h ka kb =
    let ranks = disconnect-priorities a b s h.named in
    let st = disconnect-strong a b s h.named in
    let wk = λ (x y : ℕ).
      disconnect-weak a b s h.named x y (exclusive s b a h) (h.symmetric a a) (exclusive s a b h) in
    (
      record {
        valid = record {
          named = disconnect-IsNamed a b s h.named;
          ranked = record {
            bounded = λ x q. rw (ranks.0, ranks.1) (h.ranked.bounded x q);
            injective = λ x y q. rw ranks.0 (h.ranked.injective x y q);
          };
          symmetric = λ x y. rw (st x y, wk y x) (ground (arith, h.symmetric x y));
          oriented = λ x y f. rw ranks.0 (ground (arith, st x y, h.oriented x y));
          present =
              λ x y f. ground (arith, st x y, disconnect-known a b s h.named y, h.present x y);
        };
        known = λ z. ground (arith, disconnect-known a b s h.named z, ==_iff a z, ==_iff b z);
        fewer = λ x y e. ground (arith, st x y, wk x y);
      },
      ground (arith, st a b, wk a b, ==_refl a, ==_refl b),
    )

Removes-refl : (s : NetworkState) → IsValid s → Removes s s
Removes-refl s h = record { valid = h; known = λ z. refl; fewer = λ x y e. e }

unknown_unlinked :
    (s : NetworkState) (x y : ℕ)
    → is_known s x ≡ false
    → (strong s x y ≡ none) × (weak s x y ≡ none)
unfolding node_at lookup
unknown_unlinked s x y e = ground arith

-- An end of a link is known.
linked-known :
    (s : NetworkState) (x y : ℕ)
    → IsValid s
    → is_known s x && is_known s y ≡ false
    → IsUnlinked s x y
linked-known s x y h e =
    ground (arith, unknown_unlinked s x y, unknown_unlinked s y x, h.symmetric y x, h.present x y)

pub remove_link-Removes :
    (a b : ℕ) (s : NetworkState)
    → IsValid s
    → Removes s (remove_link a b s).1 × IsUnlinked (remove_link a b s).1 a b
unfolding remove_link
remove_link-Removes a b s h = go (lookup a s.nodes) (lookup b s.nodes) refl refl
  where
    go :
        (o q : Option NetworkNode)
        → lookup a s.nodes ≡ o
        → lookup b s.nodes ≡ q
        → let t = (disconnect_known a b s o q).1 in Removes s t × IsUnlinked t a b
    go none q e f = (Removes-refl s h, linked-known s a b h (rw e refl))
    go (some n) none e f = (Removes-refl s h, linked-known s a b h (rw (e, f) refl))
    go (some n) (some m) e f = disconnect-Removes a b s h (rw e refl) (rw f refl)

-- The loop unlinks each neighbor that is not kept.
pub remove_links_except-Removes :
    (kept : List ℕ) (x : ℕ) (neighbors : List ℕ) (s : NetworkState)
    → IsValid s
    → let t = (remove_links_except kept x neighbors s).1 in
      Removes s t × ((y : ℕ) → mem y neighbors && not (mem y kept) ≡ true → IsUnlinked t x y)
unfolding remove_links_except mem
remove_links_except-Removes kept x [] s h = (Removes-refl s h, λ y e. cc)
remove_links_except-Removes kept x (n ∷ ns) s h =
    let r = if mem n kept then ([], s) else remove_link x n s in
    let first : Removes s r.1 × (mem n kept ≡ false → IsUnlinked r.1 x n) =
      if_keeps (λ q. Removes s q.1 × (mem n kept ≡ false → IsUnlinked q.1 x n)) (mem n kept) ([], s)
        (remove_link x n s) (λ e. (Removes-refl s h, λ f. cc))
        (λ e. let p = remove_link-Removes x n s h in (p.0, λ f. p.1)) in
    let rest = remove_links_except-Removes kept x ns r.1 first.0.valid in
    (
      Removes-trans first.0 rest.0,
      λ y e. elim (Bool-cases (y == n)) [
        | inl p ↦
            let same : y ≡ n = (==_iff y n).0 p in
            rw same (rest.0.fewer x n (first.1 (ground (arith, same))))
        | inr p ↦ rest.1 y (ground arith)
      ],
    )

all_links-IsUnlinked :
    (s : NetworkState) (x y : ℕ) → mem y (get_all_links (node_at x s)) ≡ false → IsUnlinked s x y
unfolding get_all_links
all_links-IsUnlinked s x y e = ground (
  arith,
  mem-append y (keys (node_at x s).strong) (keys (node_at x s).weak),
  mem-keys y (node_at x s).strong,
  mem-keys y (node_at x s).weak,
)

-- What the removal of all links of `x` leaves.
unlink_all :
    (x : ℕ) (s : NetworkState)
    → IsValid s
    → let t = (remove_links_except [] x (get_all_links (node_at x s)) s).1 in
      Removes s t × ((y : ℕ) → IsUnlinked t x y)
unfolding mem
unlink_all x s h =
    let all = get_all_links (node_at x s) in
    let r = remove_links_except-Removes [] x all s h in
    (
      r.0,
      λ y. elim (Bool-cases (mem y all)) [
        | inl e ↦ r.1 y (rw e refl)
        | inr e ↦ r.0.fewer x y (all_links-IsUnlinked s x y e)
      ],
    )

-- A node without links can go.
module _ (x : ℕ) (s : NetworkState) (h : IsValid s) (alone : (y : ℕ) → IsUnlinked s x y) where
  abbrev without_node : NetworkState
  without_node = record s { nodes = delete x s.nodes }

  node_at-without_node :
      (y : ℕ) → node_at y without_node ≡ (if x == y then new_node (bare y) else node_at y s)
  unfolding node_at
  node_at-without_node y = ground (arith, lookup-delete y x s.nodes)

  without_strong : (y z : ℕ) → strong without_node y z ≡ strong s y z
  unfolding lookup
  without_strong y z = ground (arith, node_at-without_node y, alone z, ==_iff x y)

  without_weak : (y z : ℕ) → weak without_node y z ≡ weak s y z
  unfolding lookup
  without_weak y z = ground (arith, node_at-without_node y, alone z, ==_iff x y)

  drop-IsValid : IsValid without_node
  drop-IsValid = record {
    named = λ y. ground (arith, node_at-without_node y, h.named y);
    ranked = record { bounded = h.ranked.bounded; injective = h.ranked.injective };
    symmetric = λ y z. rw (without_strong y z, without_weak z y) (h.symmetric y z);
    oriented = λ y z e. h.oriented y z (rw (without_strong y z) at e);
    present = λ y z e. ground (
      arith,
      without_strong y z,
      h.present y z,
      h.symmetric y z,
      alone y,
      lookup-delete z x s.nodes,
      ==_iff x z,
    );
  }

pub remove_node-IsValid : (x : ℕ) (s : NetworkState) → IsValid s → IsValid (remove_node x s).1
unfolding remove_node node_at
remove_node-IsValid x s h = go (lookup x s.nodes) refl
  where
    go : (o : Option NetworkNode) → lookup x s.nodes ≡ o → IsValid (removed_node x s o).1
    go none e = h
    go (some n) e =
        let same : node_at x s ≡ n = rw (e, node_at) refl in
        let r = rw same at (unlink_all x s h) in
        drop-IsValid x (remove_links_except [] x (get_all_links n) s).1 r.0.valid r.1
