-- ===== src/Node/Cost.antt =====
-- ts-core/src/net/node/cost.ts: Cost, of a whole number of milliseconds.
use heterogeneous_network.Base.{
  ℕ, ◌+◌, ◌%◌, ◌/◌, ◌<◌, Bool, ◌∷◌, [], Option, none, some, Throws, ok, throw, arith, ltb, ◌==◌,
  if◌then◌else◌,
}
use heterogeneous_network.Serde.Traits.{Writer}
use heterogeneous_network.Serde.Serdeable.{Serdeable, RoundTrips}
use heterogeneous_network.Serde.Buffer.Writing.{WriterLaws}
use heterogeneous_network.Serde.Primitives.{size16, uint_serdeable}
use heterogeneous_network.Serde.Primitives.Uint.{uint16-RoundTrips}
use heterogeneous_network.Serde.Combinators.{throwing_transform_serdeable}
use heterogeneous_network.Serde.Combinators.Sequence.{throwing_transform-RoundTrips}

pub record Cost : Type 0 where
  pub cost : ℕ

-- The constructor.
unfoldable pub new_cost : ℕ → Throws Cost
new_cost n = if ltb 0xffff n then throw else ok (record { cost = n })

-- The result is none where it is an error.
unfoldable pub from_number : ℕ → Option (Throws Cost)
unfolding new_cost
from_number n = if ltb 0xffff n then none else some (new_cost n)

unfoldable pub equals : Cost → Cost → Bool
equals c other = c.cost == other.cost

unfoldable pub add : Cost → Cost → Throws Cost
unfolding new_cost
add c other = new_cost (c.cost + other.cost)

unfoldable pub less_than : Cost → Cost → Bool
less_than c other = ltb c.cost other.cost

unfoldable pub cost_serdeable : {W : Type 0} → Writer W → Serdeable W Cost
unfolding new_cost
cost_serdeable w = throwing_transform_serdeable (uint_serdeable w size16) new_cost (λ c. c.cost)

-- A cost that a constructor returned.
abbrev pub IsCost : Cost → Type 0
IsCost c = c.cost < 65536

pub cost-RoundTrips :
    {W : Type 0} {w : Writer W} (laws : WriterLaws w) (c : Cost)
    → IsCost c
    → RoundTrips laws (cost_serdeable w) c (c.cost % 256 ∷ c.cost / 256 ∷ [])
unfolding cost_serdeable new_cost
cost-RoundTrips {w = w} laws c h =
    throwing_transform-RoundTrips laws (uint_serdeable w size16) new_cost (λ c. c.cost) c _
      (ground arith) (uint16-RoundTrips laws c.cost h)
