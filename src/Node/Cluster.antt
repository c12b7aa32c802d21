-- ===== src/Node/Cluster.antt =====
-- ts-core/src/net/node/clusterId.ts: NoCluster, ClusterId and OptionalClusterId.
use heterogeneous_network.Base.{
  ℕ, zero, suc, Bool, true, false, Option, none, some, Throws, ok, throw, ◌==◌, if◌then◌else◌,
}
use heterogeneous_network.Serde.Traits.{Writer}
use heterogeneous_network.Serde.Serdeable.{Serdeable}
use heterogeneous_network.Serde.Primitives.{size8, uint_serdeable}
use heterogeneous_network.Serde.Combinators.{transform_serdeable, throwing_transform_serdeable}

pub data OptionalClusterId : Type 0 where
  no_cluster : OptionalClusterId
  cluster_id : ℕ → OptionalClusterId

-- The constructor of ClusterId.
unfoldable pub new_cluster_id : ℕ → Throws OptionalClusterId
new_cluster_id id = if id == 0 then throw else ok (cluster_id id)

unfoldable pub is_no_cluster : OptionalClusterId → Bool
is_no_cluster no_cluster = true
is_no_cluster (cluster_id id) = false

unfoldable pub id : OptionalClusterId → ℕ
id no_cluster = 0
id (cluster_id n) = n

unfoldable pub from_number : ℕ → Throws OptionalClusterId
unfolding new_cluster_id
from_number n = if n == 0 then ok no_cluster else new_cluster_id n

unfoldable pub equals : OptionalClusterId → OptionalClusterId → Bool
equals no_cluster no_cluster = true
equals no_cluster (cluster_id n) = false
equals (cluster_id n) no_cluster = false
equals (cluster_id n) (cluster_id m) = n == m

module _ {W : Type 0} (w : Writer W) where
  -- `NoCluster.serdeable`
  unfoldable pub no_cluster_serdeable : Serdeable W OptionalClusterId
  no_cluster_serdeable =
      transform_serdeable (uint_serdeable w size8) (λ n. some no_cluster) (λ v. 0)

  -- `ClusterId.serdeable`
  unfoldable pub cluster_id_serdeable : Serdeable W OptionalClusterId
  unfolding from_number id
  cluster_id_serdeable = throwing_transform_serdeable (uint_serdeable w size8) from_number id

  abbrev excluded : ℕ → Option OptionalClusterId
  excluded zero = none
  excluded (suc n) = some (cluster_id (suc n))

  -- `ClusterId.noClusterExcludedSerdeable`
  unfoldable pub no_cluster_excluded_serdeable : Serdeable W OptionalClusterId
  unfolding id
  no_cluster_excluded_serdeable = transform_serdeable (uint_serdeable w size8) excluded id
