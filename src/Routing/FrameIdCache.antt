-- ===== src/Routing/FrameIdCache.antt =====
-- ts-core/src/net/routing/frameIdCache.ts: AsymmetricalFrameIdCache.
use heterogeneous_network.Base.{ℕ, Bool, List, [], ◌∷◌, Option, none, some, if◌then◌else◌}
use heterogeneous_network.Discovery.FrameId.{
  FrameIdCache, contains, insert, insert_and_check_contains,
}

pub record AsymmetricalFrameIdCache : Type 0 where
  pub send : FrameIdCache
  pub receive : FrameIdCache

unfoldable pub new_cache : ℕ → AsymmetricalFrameIdCache
new_cache max_cache_size = record {
  send = record { cache = []; max_cache_size = max_cache_size };
  receive = record { cache = []; max_cache_size = max_cache_size };
}

-- The loop of `generate`, draw by draw, with the loop of the `generate` of the cache of sent ids:
-- this one inserts each id that it returns, also the one that the outer loop rejects.
unfoldable pub draw : List ℕ → AsymmetricalFrameIdCache → Option (ℕ × AsymmetricalFrameIdCache)
unfolding contains insert
draw [] c = none
draw (id ∷ draws) c =
    let next = record c { send = insert id c.send } in
    let again = draw draws c in
    let rejected = draw draws next in
    if contains id c.send
    then again
    else if contains id c.receive
    then rejected
    else some (id, next)

abbrev pub generated :
    Bool → Option (ℕ × AsymmetricalFrameIdCache) → Option (ℕ × AsymmetricalFrameIdCache)
generated loopbackable none = none
generated loopbackable (some (id, c)) = some (
  id,
  record c {
    send = insert id c.send;
    receive = if loopbackable then c.receive else insert id c.receive;
  },
)

-- `generate`, for the numbers that `FrameId.random()` draws; none where they run out.
unfoldable pub generate :
    Bool → List ℕ → AsymmetricalFrameIdCache → Option (ℕ × AsymmetricalFrameIdCache)
unfolding draw insert
generate loopbackable draws c = generated loopbackable (draw draws c)

unfoldable pub insert_and_check_contains_as_received :
    ℕ → AsymmetricalFrameIdCache → Bool × AsymmetricalFrameIdCache
unfolding insert_and_check_contains
insert_and_check_contains_as_received id c =
    let r = insert_and_check_contains id c.receive in (r.0, record c { receive = r.1 })

unfoldable pub contains_as_sent : ℕ → AsymmetricalFrameIdCache → Bool
unfolding contains
contains_as_sent id c = contains id c.send
