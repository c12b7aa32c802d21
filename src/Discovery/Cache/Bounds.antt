-- ===== src/Discovery/Cache/Bounds.antt =====
-- What a cache of discovered gateways holds.
use heterogeneous_network.Base.{
  ℕ, suc, ◌≤◌, ◌≡◌, refl, true, List, [], ◌∷◌, inl, inr, some, arith, ltb, ◌==◌, ==_refl,
  if◌then◌else◌, Bool-cases, Option-cases, length, get_elem?,
}
use heterogeneous_network.Base.Dict.{lookup, insert, delete, is_some}
use heterogeneous_network.Objects.{ObjectMap, size, keys, values_of, get, set, delete_key}
use heterogeneous_network.Objects.Paired.{
  IsPaired, new_map-IsPaired, set-IsPaired, delete_key-IsPaired,
}
use heterogeneous_network.Discovery.Cache.{
  max_discovery_cache_entries, Stamped, CacheList, new_cache, delete_first, add, expire, Event,
  added, slept, happen, happen_all,
}

insert-length :
    {V : Type 0} (k : ℕ) (v : V) (m : List (ℕ × V)) → length (insert k v m) ≤ suc (length m)
unfolding insert
insert-length k v [] = omega arith
insert-length k v ((j, w) ∷ m) = ground (arith, insert-length k v m)

pub insert-there :
    {V : Type 0} (k : ℕ) (v : V) (m : List (ℕ × V))
    → is_some (lookup k m) ≡ true
    → length (insert k v m) ≡ length m
unfolding insert lookup
insert-there k v [] e = cc
insert-there k v ((j, w) ∷ m) e = ground (arith, insert-there k v m)

delete-length : {V : Type 0} (k : ℕ) (m : List (ℕ × V)) → length (delete k m) ≤ length m
unfolding delete
delete-length k [] = omega arith
delete-length k ((j, w) ∷ m) = ground (arith, delete-length k m)

module _ {T E : Type 0} (key : T → ℕ) where
  abbrev IsSmall : ObjectMap T (Stamped E) → Type 0
  IsSmall m = length m.key_map ≤ max_discovery_cache_entries

  pub record IsValid (c : CacheList T E) : Type 0 where
    pub paired : IsPaired key c.entries
    pub small : length c.entries.key_map ≤ max_discovery_cache_entries

  set-length :
      (t : T) (v : Stamped E) (c : CacheList T E)
      → IsValid c
      → length (set key t v c.entries).key_map ≤ 5
  unfolding set
  set-length t v c h = omega (arith, h.small, insert-length (key t) t c.entries.key_map)

  expired :
      (t : T) (id : ℕ) (c : CacheList T E) (e : Stamped E)
      → IsValid c
      → IsValid (if e.id == id then record c { entries = (delete_key key t c.entries).0 } else c)
  unfolding delete_key
  expired t id c e h = elim (Bool-cases (e.id == id)) [
    | inl b ↦ rw b (record {
      paired = delete_key-IsPaired key t c.entries h.paired;
      small = omega (arith, h.small, delete-length (key t) c.entries.key_map);
    })
    | inr b ↦ rw b h
  ]

  -- A map of at most five keys, less the first of them.
  first-length :
      (ks : List (ℕ × T)) (m : ObjectMap T (Stamped E))
      → m.key_map ≡ ks
      → IsPaired key m
      → length ks ≤ 5
      → IsSmall (delete_first key (values_of ks) m)
  unfolding values_of delete_key delete lookup
  first-length [] m e h l = rw e (omega arith)
  first-length ((k, t) ∷ ks) m e h l =
      let first : lookup k m.key_map ≡ some t = rw e (rw (==_refl k) refl) in
      let own : key t ≡ k = h.own k t first in
      rw own (rw e (rw (==_refl k) (omega (arith, l, delete-length k ks))))

  first-IsPaired :
      (ts : List T) (m : ObjectMap T (Stamped E))
      → IsPaired key m
      → IsPaired key (delete_first key ts m)
  unfolding delete_key
  first-IsPaired [] m h = h
  first-IsPaired (t ∷ ts) m h = delete_key-IsPaired key t m h

  new_cache-IsValid : IsValid (new_cache key)
  new_cache-IsValid = record { paired = new_map-IsPaired key; small = omega arith }

  -- The map that `add` leaves.
  abbrev trimmed : ObjectMap T (Stamped E) → ObjectMap T (Stamped E)
  trimmed m =
      if ltb max_discovery_cache_entries (length m.key_map)
      then delete_first key (values_of m.key_map) m
      else m

  trimmed-IsPaired : (m : ObjectMap T (Stamped E)) → IsPaired key m → IsPaired key (trimmed m)
  trimmed-IsPaired m h = elim (Bool-cases (ltb max_discovery_cache_entries (length m.key_map))) [
    | inl e ↦ rw e (first-IsPaired (values_of m.key_map) m h)
    | inr e ↦ rw e h
  ]

  trimmed-IsSmall :
      (m : ObjectMap T (Stamped E)) → IsPaired key m → length m.key_map ≤ 5 → IsSmall (trimmed m)
  trimmed-IsSmall m h l = elim (Bool-cases (ltb max_discovery_cache_entries (length m.key_map))) [
    | inl e ↦ rw e (first-length m.key_map m refl h l)
    | inr e ↦ rw e (ground arith)
  ]

  add-IsValid : (t : T) (e : E) (c : CacheList T E) → IsValid c → IsValid (add key t e c)
  unfolding add size keys
  add-IsValid t e c h =
      let stamped : Stamped E = record { entry = e; id = c.next_id } in
      let m = set key t stamped c.entries in
      let paired = set-IsPaired key t stamped c.entries h.paired in
      record {
        paired = trimmed-IsPaired m paired;
        small = trimmed-IsSmall m paired (set-length t stamped c h);
      }

  expire-IsValid : (t : T) (id : ℕ) (c : CacheList T E) → IsValid c → IsValid (expire key t id c)
  unfolding expire
  expire-IsValid t id c h = elim (Option-cases (get key t c.entries)) [
    | inl e ↦ rw e h
    | inr p ↦ rw p.1 (expired t id c p.0 h)
  ]

  happen-IsValid : (e : Event T E) (c : CacheList T E) → IsValid c → IsValid (happen key e c)
  unfolding happen
  happen-IsValid (added t e) c h = add-IsValid t e c h
  happen-IsValid (slept i) c h = elim (Option-cases (get_elem? c.sleeps i)) [
    | inl e ↦ rw e h
    | inr p ↦ rw p.1 (expire-IsValid p.0.0 p.0.1 c h)
  ]

  happen_all-IsValid :
      (es : List (Event T E)) (c : CacheList T E) → IsValid c → IsValid (happen_all key es c)
  unfolding happen_all
  happen_all-IsValid [] c h = h
  happen_all-IsValid (e ∷ es) c h = happen_all-IsValid es (happen key e c) (happen-IsValid e c h)

  -- After any calls of `add` and any ends of their sleeps, in any order, the two maps of the cache
  -- have the same keys, and there are at most four.
  pub cache-IsValid : (es : List (Event T E)) → IsValid (happen_all key es (new_cache key))
  cache-IsValid es = happen_all-IsValid es (new_cache key) new_cache-IsValid
