-- ===== src/Discovery/FrameId.antt =====
-- ts-core/src/net/discovery/frameId.ts: FrameIdCache. A `Set` is the list of its elements in the
-- order of their insertion, which is the order that `values()` gives.
use heterogeneous_network.Base.{
  ℕ, Bool, false, ◌||◌, List, [], ◌∷◌, ◌++◌, Option, none, some, ltb, ◌==◌, if◌then◌else◌, length,
  drop,
}

pub record FrameIdCache : Type 0 where
  pub cache : List ℕ
  pub max_cache_size : ℕ

unfoldable pub has : ℕ → List ℕ → Bool
has id [] = false
has id (x ∷ xs) = (id == x) || has id xs

-- `Set.add`: an element that is there keeps its place.
unfoldable pub add : ℕ → List ℕ → List ℕ
unfolding has
add id xs = if has id xs then xs else xs ++ id ∷ []

unfoldable pub insert : ℕ → FrameIdCache → FrameIdCache
unfolding add
insert id c =
    let xs = add id c.cache in
    record c { cache = if ltb c.max_cache_size (length xs) then drop 1 xs else xs }

unfoldable pub contains : ℕ → FrameIdCache → Bool
unfolding has
contains id c = has id c.cache

unfoldable pub insert_and_check_contains : ℕ → FrameIdCache → Bool × FrameIdCache
unfolding contains insert
insert_and_check_contains id c = (contains id c, insert id c)

-- `FrameId.random()` draws the next of the given numbers below 65536; `none` where they run out.
unfoldable pub generate_without_adding : List ℕ → FrameIdCache → Option (ℕ × List ℕ)
unfolding contains
generate_without_adding [] c = none
generate_without_adding (id ∷ draws) c =
    let rest = generate_without_adding draws c in if contains id c then rest else some (id, draws)

abbrev with_id : FrameIdCache → Option (ℕ × List ℕ) → Option (ℕ × FrameIdCache)
with_id c none = none
with_id c (some p) = some (p.0, insert p.0 c)

unfoldable pub generate : List ℕ → FrameIdCache → Option (ℕ × FrameIdCache)
unfolding generate_without_adding insert
generate draws c = with_id c (generate_without_adding draws c)
