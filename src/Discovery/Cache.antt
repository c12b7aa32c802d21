-- ===== src/Discovery/Cache.antt =====
-- ts-core/src/net/discovery/cache.ts, constants.ts: CacheList. The symbols are numbers in the order
-- they are made in; the `sleep`s that were begun are a list of what they look at when they end.
pub mod Bounds
pub mod Expiry
use heterogeneous_network.Base.{
  ℕ, zero, suc, ◌+◌, Bool, true, false, List, [], ◌∷◌, ◌++◌, Option, none, some, ltb, ◌==◌,
  get_elem?, if◌then◌else◌,
}
use heterogeneous_network.Objects.{ObjectMap, new_map, size, keys, get, set, delete_key}

abbrev pub max_discovery_cache_entries : ℕ
max_discovery_cache_entries = 4

-- `CacheEntry & { readonly id: symbol }`
pub record Stamped (E : Type 0) : Type 0 where
  pub entry : E
  pub id : ℕ

pub record CacheList (T E : Type 0) : Type 0 where
  pub entries : ObjectMap T (Stamped E)
  pub next_id : ℕ
  pub sleeps : List (T × ℕ)

-- A call of `add`, or the end of the `sleep` of the index.
pub data Event (T E : Type 0) : Type 0 where
  added : T → E → Event T E
  slept : ℕ → Event T E

module _ {T E : Type 0} (key : T → ℕ) where
  abbrev pub new_cache : CacheList T E
  new_cache = record { entries = new_map; next_id = 0; sleeps = [] }

  -- `this.#entries.delete(this.#entries.keys().next().value)`
  abbrev pub delete_first : List T → ObjectMap T (Stamped E) → ObjectMap T (Stamped E)
  delete_first [] m = m
  delete_first (t ∷ ts) m = (delete_key key t m).0

  unfoldable pub add : T → E → CacheList T E → CacheList T E
  unfolding set size keys delete_key
  add destination entry c =
      let m = set key destination (record { entry = entry; id = c.next_id }) c.entries in
      record {
        entries = if ltb max_discovery_cache_entries (size m) then delete_first (keys m) m else m;
        next_id = suc c.next_id;
        sleeps = c.sleeps ++ ((destination, c.next_id) ∷ []);
      }

  abbrev expire_entry : T → ℕ → CacheList T E → Option (Stamped E) → CacheList T E
  expire_entry destination id c none = c
  expire_entry destination id c (some e) =
      if e.id == id then record c { entries = (delete_key key destination c.entries).0 } else c

  -- What follows the `sleep` of an `add`.
  unfoldable pub expire : T → ℕ → CacheList T E → CacheList T E
  unfolding get delete_key
  expire destination id c = expire_entry destination id c (get key destination c.entries)

  abbrev pub entry_of : Option (Stamped E) → Option E
  entry_of none = none
  entry_of (some e) = some e.entry

  unfoldable pub get_entry : T → CacheList T E → Option E
  unfolding get
  get_entry destination c = entry_of (get key destination c.entries)

  abbrev woken : Option (T × ℕ) → CacheList T E → CacheList T E
  woken none c = c
  woken (some p) c = expire p.0 p.1 c

  unfoldable pub happen : Event T E → CacheList T E → CacheList T E
  unfolding add expire
  happen (added destination entry) c = add destination entry c
  happen (slept i) c = woken (get_elem? c.sleeps i) c

  unfoldable pub happen_all : List (Event T E) → CacheList T E → CacheList T E
  unfolding happen
  happen_all [] c = c
  happen_all (e ∷ es) c = happen_all es (happen e c)
