-- ===== src/Deferred.antt =====
-- ts-core/src/deferred.ts: promises that are settled from outside. The promises created so far
-- are a store, and a `Deferred` object is its index in the store.
pub mod Laws
use heterogeneous_network.Base.{ℕ, List, [], ◌∷◌, ◌++◌, Option, none, some, length, get_elem?, set}

pub data Status {ℓ} (A : Type ℓ) : Type ℓ where
  pending : Status A
  fulfilled : A → Status A
  rejected : Status A

module _ {ℓ} {A : Type ℓ} where
  -- A new promise is pending; its index is fresh.
  unfoldable pub deferred : List (Status A) → List (Status A) × ℕ
  deferred store = (store ++ (pending ∷ []), length store)

  abbrev pub settle_at : Status A → List (Status A) → ℕ → Option (Status A) → List (Status A)
  settle_at new store id (some pending) = set store id new
  settle_at new store id (some (fulfilled a)) = store
  settle_at new store id (some rejected) = store
  settle_at new store id none = store

  -- Only the first call on a promise has an effect.
  unfoldable pub resolve : ℕ → A → List (Status A) → List (Status A)
  resolve id value store = settle_at (fulfilled value) store id (get_elem? store id)

  unfoldable pub reject : ℕ → List (Status A) → List (Status A)
  reject id store = settle_at rejected store id (get_elem? store id)
