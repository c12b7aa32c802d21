-- ===== src/Network/Reachable.antt =====
-- The search visits the nodes that links lead to.
use heterogeneous_network.Base.{
  ℕ, zero, suc, ◌+◌, ◌≡◌, ◌↔◌, refl, ap, ◌∙◌, inl, inr, true, false, ◌||◌, List, [], ◌∷◌, Option,
  none, some, arith, Bool-cases, ==_iff, ==_refl,
}
use mathlib.Core.Path.{subst}
use heterogeneous_network.Base.Dict.{
  lookup, keys, mem, without, is_some, mem-append, mem-without, mem-keys,
}
use heterogeneous_network.Network.Node.{NetworkNode}
use heterogeneous_network.Network.State.{NetworkState}
use heterogeneous_network.Network.Search.{
  Search, links_at, search_loop, link_count, get_unreachable_nodes,
}
use heterogeneous_network.Network.Rounds.{
  after_round, found, mem-only, round-mem, round-queue, search_loop-returns, waiting-le-link_count,
}

-- One more link leads from `u` to `v`.
abbrev pub Edge : List (ℕ × NetworkNode) → ℕ → ℕ → Type 0
Edge nodes u v = mem v (links_at (lookup u nodes)) ≡ true

-- Links lead from `start` to a node, one after the other.
pub data Walk (nodes : List (ℕ × NetworkNode)) (start : ℕ) : ℕ → Type 0 where
  here : Walk nodes start start
  step : {u v : ℕ} → Walk nodes start u → Edge nodes u v → Walk nodes start v

-- What holds between two rounds.
record Inv (nodes : List (ℕ × NetworkNode)) (start : ℕ) (s : Search) : Type 0 where
  started : mem start s.un_visited ≡ false
  known : (v : ℕ) → mem v s.un_visited ≡ true → is_some (lookup v nodes) ≡ true
  queued : (v : ℕ) → mem v s.queue ≡ true → Walk nodes start v
  sound :
      (v : ℕ) → is_some (lookup v nodes) ≡ true → mem v s.un_visited ≡ false → Walk nodes start v
  closed :
      (u v : ℕ)
      → is_some (lookup u nodes) ≡ true
      → mem u s.un_visited || mem u s.queue ≡ false
      → Edge nodes u v
      → mem v s.un_visited ≡ false

round-Inv :
    (nodes : List (ℕ × NetworkNode)) (start current : ℕ) (rest unv : List ℕ)
    → Inv nodes start (record { un_visited = unv; queue = current ∷ rest })
    → Inv nodes start (after_round nodes current rest unv)
unfolding mem
round-Inv nodes start current rest unv h =
    let seen = round-mem nodes current rest unv in
    let l = links_at (lookup current nodes) in
    let to_current : Walk nodes start current =
      h.queued current (ground (arith, ==_refl current)) in
    let in_queue = λ (v : ℕ).
      ap (mem v) (round-queue nodes current rest unv)
      ∙ mem-append v rest (found nodes current rest unv)
      ∙ ap (λ b. mem v rest || b) (mem-only v unv l) in
    record {
      started = ground (arith, seen start, h.started);
      known = λ v e. h.known v (ground (arith, seen v));
      queued = λ v e. elim (Bool-cases (mem v rest)) [
        | inl q ↦ h.queued v (ground arith)
        | inr q ↦ step to_current (ground (arith, in_queue v))
      ];
      sound = λ v k e. elim (Bool-cases (mem v unv)) [
        | inl w ↦ step to_current (ground (arith, seen v))
        | inr w ↦ h.sound v k w
      ];
      closed = λ u v k e f.
          ground (arith, seen u, seen v, in_queue u, h.closed u v k, f, ==_iff u current);
    }

loop-Inv :
    (fuel : ℕ) (nodes : List (ℕ × NetworkNode)) (start : ℕ) (queue unv t : List ℕ)
    → Inv nodes start (record { un_visited = unv; queue = queue })
    → search_loop fuel nodes (record { un_visited = unv; queue = queue }) ≡ some t
    → Inv nodes start (record { un_visited = t; queue = [] })
unfolding search_loop
loop-Inv zero nodes start queue unv t h e = cc
loop-Inv (suc fuel) nodes start [] unv t h e =
    let same : unv ≡ t = cc in
    subst (λ x. Inv nodes start (record { un_visited = x; queue = [] })) same h
loop-Inv (suc fuel) nodes start (current ∷ rest) unv t h e =
    let next = after_round nodes current rest unv in
    loop-Inv fuel nodes start next.queue next.un_visited t
      (round-Inv nodes start current rest unv h) e

links-known : (v : ℕ) (o : Option NetworkNode) → mem v (links_at o) ≡ true → is_some o ≡ true
unfolding mem
links-known v none e = cc
links-known v (some n) e = refl

-- With an empty queue all that can be reached is visited.
complete :
    (nodes : List (ℕ × NetworkNode)) (start v : ℕ) (t : List ℕ)
    → Inv nodes start (record { un_visited = t; queue = [] })
    → Walk nodes start v
    → mem v t ≡ false
unfolding mem
complete nodes start v t h here = h.started
complete nodes start v t h (step {u = u} w e) =
    let seen : mem u t ≡ false = complete nodes start u t h w in
    h.closed u v (links-known v (lookup u nodes) e) (rw seen refl) e

start-Inv :
    (start : ℕ) (nodes : List (ℕ × NetworkNode))
    → Inv nodes start (record { un_visited = without start (keys nodes); queue = start ∷ [] })
unfolding mem
start-Inv start nodes =
    let at = λ (v : ℕ). mem-without v start (keys nodes) in
    record {
      started = ground (arith, at start, ==_refl start);
      known = λ v e. ground (arith, at v, mem-keys v nodes);
      queued = λ v e.
          let same : start ≡ v = ground (arith, ==_iff v start) in
          subst (Walk nodes start) same here;
      sound = λ v k e.
          let same : start ≡ v = ground (arith, at v, mem-keys v nodes, ==_iff start v) in
          subst (Walk nodes start) same here;
      closed = λ u v k e f. ground (arith, at u, mem-keys u nodes, ==_iff start u, ==_iff u start);
    }

-- A node of the state to which no links lead from the start.
abbrev pub IsUnreachable : NetworkState → ℕ → ℕ → Type 0
IsUnreachable s start v = (is_some (lookup v s.nodes) ≡ true) × (¬ Walk s.nodes start v)

-- The search from a node of the state returns, and it returns exactly the nodes of the state to
-- which no sequence of links leads from that node.
pub get_unreachable_nodes_iff :
    (start : ℕ) (s : NetworkState)
    → is_some (lookup start s.nodes) ≡ true
    → (t : List ℕ) × (get_unreachable_nodes start s ≡ some t)
      × ((v : ℕ) → (mem v t ≡ true) ↔ IsUnreachable s start v)
unfolding get_unreachable_nodes
get_unreachable_nodes_iff start s k =
    let unv = without start (keys s.nodes) in
    let r =
      search_loop-returns (2 + link_count s.nodes) s.nodes (start ∷ []) unv
        (omega (arith, waiting-le-link_count unv s.nodes)) in
    let h =
      loop-Inv (2 + link_count s.nodes) s.nodes start (start ∷ []) unv r.0 (start-Inv start s.nodes)
        r.1 in
    (
      r.0,
      rw k r.1,
      λ v. (
        λ e. (h.known v e, λ w. cc (complete s.nodes start v r.0 h w, e)),
        λ u. elim (Bool-cases (mem v r.0)) [ inl e ↦ e | inr e ↦ absurd (u.1 (h.sound v u.0 e)) ],
      ),
    )
