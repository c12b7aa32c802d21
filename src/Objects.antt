-- ===== src/Objects.antt =====
-- ts-core/src/object.ts: ObjectMap and ObjectSet. `key` is the function that the constructor keeps:
-- the `uniqueKey` of an object, as a number.
pub mod Paired
use heterogeneous_network.Base.{ℕ, Bool, List, [], ◌∷◌, Option, none, some, length}
use heterogeneous_network.Base.Dict.{lookup, insert, delete, is_some}

pub record ObjectMap (T V : Type 0) : Type 0 where
  pub key_map : List (ℕ × T)
  pub value_map : List (ℕ × V)

pub record ObjectSet (T : Type 0) : Type 0 where
  pub key_map : List (ℕ × T)

-- The values of a map, in its order.
unfoldable pub values_of : {V : Type 0} → List (ℕ × V) → List V
values_of [] = []
values_of ((k, v) ∷ m) = v ∷ values_of m

module _ {T V : Type 0} where
  abbrev pub new_map : ObjectMap T V
  new_map = record { key_map = []; value_map = [] }

  unfoldable pub size : ObjectMap T V → ℕ
  size m = length m.key_map

  abbrev pub clear : ObjectMap T V → ObjectMap T V
  clear m = new_map

  unfoldable pub keys : ObjectMap T V → List T
  unfolding values_of
  keys m = values_of m.key_map

  unfoldable pub values : ObjectMap T V → List V
  unfolding values_of
  values m = values_of m.value_map

  -- The loop of `entries`: `get(k)!` is none where there is no value.
  unfoldable pub entries_from : List (ℕ × T) → List (ℕ × V) → List (T × Option V)
  unfolding lookup
  entries_from [] value_map = []
  entries_from ((k, t) ∷ key_map) value_map =
      (t, lookup k value_map) ∷ entries_from key_map value_map

  unfoldable pub entries : ObjectMap T V → List (T × Option V)
  unfolding entries_from
  entries m = entries_from m.key_map m.value_map

module _ {T V : Type 0} (key : T → ℕ) where
  unfoldable pub get : T → ObjectMap T V → Option V
  unfolding lookup
  get t m = lookup (key t) m.value_map

  unfoldable pub has : T → ObjectMap T V → Bool
  unfolding lookup
  has t m = is_some (lookup (key t) m.key_map)

  unfoldable pub set : T → V → ObjectMap T V → ObjectMap T V
  unfolding insert
  set t v m = record {
    key_map = insert (key t) t m.key_map;
    value_map = insert (key t) v m.value_map;
  }

  -- The map after `delete`, and its answer.
  unfoldable pub delete_key : T → ObjectMap T V → ObjectMap T V × Bool
  unfolding delete lookup
  delete_key t m = (
    record { key_map = delete (key t) m.key_map; value_map = delete (key t) m.value_map },
    is_some (lookup (key t) m.value_map),
  )

module _ {T : Type 0} (key : T → ℕ) where
  unfoldable pub add : T → ObjectSet T → ObjectSet T
  unfolding insert
  add t s = record { key_map = insert (key t) t s.key_map }

  unfoldable pub delete_element : T → ObjectSet T → ObjectSet T × Bool
  unfolding delete lookup
  delete_element t s =
      (record { key_map = delete (key t) s.key_map }, is_some (lookup (key t) s.key_map))

  unfoldable pub get_element : T → ObjectSet T → Option T
  unfolding lookup
  get_element t s = lookup (key t) s.key_map

  unfoldable pub has_element : T → ObjectSet T → Bool
  unfolding lookup
  has_element t s = is_some (lookup (key t) s.key_map)
