-- ===== src/Network/Rounds.antt =====
-- What one round of the search does, and how many rounds there are.
use heterogeneous_network.Base.{
  ℕ, zero, suc, ◌+◌, ◌≤◌, ◌<◌, ◌≡◌, refl, sym, ◌∙◌, inl, inr, true, false, not, ◌&&◌, List, [], ◌∷◌,
  ◌++◌, some, arith, length, length-append, Bool-cases, ◌==◌, ==_iff, ==_refl,
}
use mathlib.Core.List.{append_assoc, append-nil}
use heterogeneous_network.Base.Dict.{lookup, mem, without, mem-without}
use heterogeneous_network.Network.Node.{NetworkNode, get_all_links}
use heterogeneous_network.Network.Search.{
  Search, only, visit, links_at, round, search_loop, link_count,
}

pub mem-only :
    (v : ℕ) (un_visited ids : List ℕ) → mem v (only un_visited ids) ≡ mem v ids && mem v un_visited
unfolding mem only
mem-only v un_visited [] = refl
mem-only v un_visited (id ∷ ids) = ground (arith, mem-only v un_visited ids, ==_iff v id)

pub visit-queue : (ids : List ℕ) (s : Search) → (visit ids s).queue ≡ s.queue ++ ids
unfolding visit
visit-queue [] s = sym (append-nil s.queue)
visit-queue (id ∷ ids) s =
    visit-queue ids (record { un_visited = without id s.un_visited; queue = s.queue ++ id ∷ [] })
    ∙ append_assoc s.queue (id ∷ []) ids

pub mem-visit :
    (v : ℕ) (ids : List ℕ) (s : Search)
    → mem v (visit ids s).un_visited ≡ mem v s.un_visited && not (mem v ids)
unfolding visit mem
mem-visit v [] s = ground arith
mem-visit v (id ∷ ids) s = ground (
  arith,
  mem-visit v ids (record { un_visited = without id s.un_visited; queue = s.queue ++ id ∷ [] }),
  mem-without v id s.un_visited,
  ==_iff v id,
  ==_iff id v,
)

-- A list keeps no more of its ids when fewer are unvisited.
module _ (un_visited fewer : List ℕ)
    (sub : (v : ℕ) → mem v fewer ≡ true → mem v un_visited ≡ true) where
  pub only-le : (ids : List ℕ) → length (only fewer ids) ≤ length (only un_visited ids)
  unfolding only
  only-le [] = omega arith
  only-le (id ∷ ids) = ground (arith, only-le ids, sub id)

  pub only-none :
      (ids : List ℕ)
      → ((v : ℕ) → mem v ids ≡ true → mem v fewer ≡ false)
      → length (only fewer ids) ≡ 0
  unfolding only mem
  only-none [] h = refl
  only-none (id ∷ ids) h =
      ground (arith, h id, ==_refl id, only-none ids (λ v e. h v (ground arith)))

pub length-only : (un_visited ids : List ℕ) → length (only un_visited ids) ≤ length ids
unfolding only
length-only un_visited [] = omega arith
length-only un_visited (id ∷ ids) = ground (arith, length-only un_visited ids)

-- The links that lead to unvisited nodes.
pub waiting : List ℕ → List (ℕ × NetworkNode) → ℕ
waiting un_visited [] = 0
waiting un_visited ((id, n) ∷ nodes) =
    length (only un_visited (get_all_links n)) + waiting un_visited nodes

module _ (un_visited fewer : List ℕ)
    (sub : (v : ℕ) → mem v fewer ≡ true → mem v un_visited ≡ true) where
  pub waiting-le : (nodes : List (ℕ × NetworkNode)) → waiting fewer nodes ≤ waiting un_visited nodes
  unfolding waiting
  waiting-le [] = omega arith
  waiting-le ((id, n) ∷ nodes) =
      omega (arith, waiting-le nodes, only-le un_visited fewer sub (get_all_links n))

  pub waiting_falls :
      (nodes : List (ℕ × NetworkNode)) (current : ℕ)
      → ((v : ℕ) → mem v (links_at (lookup current nodes)) ≡ true → mem v fewer ≡ false)
      → waiting fewer nodes + length (only un_visited (links_at (lookup current nodes)))
        ≤ waiting un_visited nodes
  unfolding waiting lookup only
  waiting_falls [] current h = omega arith
  waiting_falls ((id, n) ∷ nodes) current h = elim (Bool-cases (id == current)) [
    | inl e ↦
        let gone = only-none un_visited fewer sub (get_all_links n) (λ v k. h v (rw e k)) in
        rw e (omega (arith, waiting-le nodes, gone))
    | inr e ↦
        let fewer_here = only-le un_visited fewer sub (get_all_links n) in
        rw e (omega (arith, waiting_falls nodes current (λ v k. h v (rw e k)), fewer_here))
  ]

-- What one round makes of the search.
module _ (nodes : List (ℕ × NetworkNode)) (current : ℕ) (rest unv : List ℕ) where
  abbrev pub before_round : Search
  before_round = record { un_visited = unv; queue = rest }

  abbrev pub found : List ℕ
  found = only unv (links_at (lookup current nodes))

  abbrev pub after_round : Search
  after_round = round nodes current before_round

  pub round-mem :
      (v : ℕ)
      → mem v after_round.un_visited ≡ mem v unv && not (mem v (links_at (lookup current nodes)))
  unfolding round
  round-mem v =
      ground
        (arith, mem-visit v found before_round, mem-only v unv (links_at (lookup current nodes)))

  pub round-queue : after_round.queue ≡ rest ++ found
  unfolding round
  round-queue = visit-queue found before_round

  pub round-work :
      length after_round.queue + waiting after_round.un_visited nodes
      ≤ length rest + waiting unv nodes
  round-work =
      let falls =
        waiting_falls unv after_round.un_visited (λ v e. ground (arith, round-mem v)) nodes current
          (λ v e. ground (arith, round-mem v)) in
      rw round-queue (omega (arith, length-append rest found, falls))

-- The loop returns where the fuel is above the work that is left.
pub search_loop-returns :
    (fuel : ℕ) (nodes : List (ℕ × NetworkNode)) (queue unv : List ℕ)
    → length queue + waiting unv nodes < fuel
    → (t : List ℕ) × (search_loop fuel nodes (record { un_visited = unv; queue = queue }) ≡ some t)
unfolding search_loop
search_loop-returns zero nodes queue unv h = absurd (omega arith)
search_loop-returns (suc fuel) nodes [] unv h = (unv, refl)
search_loop-returns (suc fuel) nodes (current ∷ rest) unv h =
    let next = after_round nodes current rest unv in
    search_loop-returns fuel nodes next.queue next.un_visited
      (omega (arith, round-work nodes current rest unv))

pub waiting-le-link_count :
    (unv : List ℕ) (nodes : List (ℕ × NetworkNode)) → waiting unv nodes ≤ link_count nodes
unfolding waiting link_count
waiting-le-link_count unv [] = omega arith
waiting-le-link_count unv ((id, n) ∷ nodes) =
    omega (arith, waiting-le-link_count unv nodes, length-only unv (get_all_links n))
