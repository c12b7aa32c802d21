-- ===== src/Discovery/Cache/Expiry.antt =====
-- How long an entry of the cache stays.
use heterogeneous_network.Base.{
  ℕ, ◌≤◌, ◌≡◌, refl, sym, ap, ◌∙◌, Bool, true, false, List, [], ◌∷◌, inl, inr, Option, none, some,
  arith, ltb, ◌==◌, ◌&&◌, ==_iff, ==_refl, if◌then◌else◌, Bool-cases, Option-cases, length,
  get_elem?, get_elem?-append, get_elem?-middle,
}
use heterogeneous_network.Base.Dict.{lookup, insert, delete, lookup-insert, lookup-delete}
use heterogeneous_network.Objects.{ObjectMap, size, keys, values_of, get, set, delete_key}
use heterogeneous_network.Objects.Paired.{IsPaired}
use heterogeneous_network.Discovery.Cache.{
  max_discovery_cache_entries, Stamped, CacheList, new_cache, delete_first, add, expire, entry_of,
  get_entry, Event, added, slept, happen, happen_all,
}
use heterogeneous_network.Discovery.Cache.Bounds.{IsValid, cache-IsValid}

-- An insertion that makes a map of at most four keys too large leaves another key the first.
first_other :
    {T : Type 0} (k : ℕ) (t : T) (km : List (ℕ × T))
    → length km ≤ 4
    → ltb max_discovery_cache_entries (length (insert k t km)) ≡ true
    → (j : ℕ) × (w : T) × (rest : List (ℕ × T)) × (insert k t km ≡ (j, w) ∷ rest)
      × ((j == k) ≡ false)
      × (lookup j km ≡ some w)
unfolding insert lookup
first_other k t [] l b = cc
first_other k t ((j, w) ∷ km) l b = elim (Bool-cases (j == k)) [
  | inl e ↦ absurd (ground arith)
  | inr e ↦ (j, w, insert k t km, rw e refl, e, rw (==_refl j) refl)
]

module _ {T E : Type 0} (key : T → ℕ) where
  -- The entry of the key carries the id.
  abbrev has_id : ℕ → Option (Stamped E) → Bool
  has_id id none = false
  has_id id (some x) = x.id == id

  get-expire :
      (t u : T) (id : ℕ) (c : CacheList T E)
      → get key u (expire key t id c).entries ≡ (
          if (key t == key u) && has_id id (get key t c.entries) then none else get key u c.entries)
  unfolding expire get delete_key lookup
  get-expire t u id c = elim (Option-cases (get key t c.entries)) [
    | inl e ↦ rw e (ground arith)
    | inr p ↦ rw p.1 (ground (arith, lookup-delete (key u) (key t) c.entries.value_map))
  ]

  newest :
      (t : T) (v : Stamped E) (m : ObjectMap T (Stamped E)) (ts : List T) (w : T)
      → (key w == key t) ≡ false
      → get key t (delete_first key (w ∷ ts) (set key t v m)) ≡ some v
  unfolding get set delete_key
  newest t v m ts w e =
      lookup-delete (key t) (key w) (insert (key t) v m.value_map)
      ∙ rw e (lookup-insert (key t) (key t) v m.value_map ∙ rw (==_refl (key t)) refl)

  get-set :
      (t : T) (v : Stamped E) (m : ObjectMap T (Stamped E)) → get key t (set key t v m) ≡ some v
  unfolding get set
  get-set t v m = lookup-insert (key t) (key t) v m.value_map ∙ rw (==_refl (key t)) refl

  -- The newest entry is never the one that is deleted to make room.
  keeps_newest :
      (t : T) (v : Stamped E) (m : ObjectMap T (Stamped E))
      → IsPaired key m
      → length m.key_map ≤ 4
      → ltb max_discovery_cache_entries (length (set key t v m).key_map) ≡ true
      → get key t (delete_first key (values_of (set key t v m).key_map) (set key t v m)) ≡ some v
  unfolding set values_of delete_key get
  keeps_newest t v m h l b =
      let p = first_other (key t) t m.key_map l b in
      let own = h.own p.0 p.1 p.5 in rw p.3 (newest t v m (values_of p.2) p.1 (rw own p.4))

  -- What `add` is given is what `get` returns.
  pub get_entry-add :
      (c : CacheList T E)
      → IsValid key c
      → (t : T) (e : E) → get_entry key t (add key t e c) ≡ some e
  unfolding get_entry add size keys get
  get_entry-add c h t e =
      let v : Stamped E = record { entry = e; id = c.next_id } in
      elim (Bool-cases (ltb max_discovery_cache_entries (length (set key t v c.entries).key_map))) [
        | inl b ↦ rw b (rw (keeps_newest t v c.entries h.paired h.small b) refl)
        | inr b ↦ rw b (rw (get-set t v c.entries) refl)
      ]

  -- Every entry has a sleep that looks at its key with its id.
  abbrev HasSleep : CacheList T E → ℕ → Stamped E → Type 0
  HasSleep c k x =
      (i : ℕ) × (p : T × ℕ) × (get_elem? c.sleeps i ≡ some p) × (key p.0 ≡ k) × (x.id ≡ p.1)

  abbrev IsTimed : CacheList T E → Type 0
  IsTimed c = (k : ℕ) (x : Stamped E) → lookup k c.entries.value_map ≡ some x → HasSleep c k x

  -- A map with some keys deleted.
  delete-some :
      (j k : ℕ) (x : Stamped E) (m : List (ℕ × Stamped E))
      → lookup k (delete j m) ≡ some x
      → lookup k m ≡ some x
  delete-some j k x m e = elim (Bool-cases (j == k)) [
    | inl b ↦
        let gone : none ≡ some x = sym (lookup-delete k j m ∙ rw b refl) ∙ e in absurd (cc gone)
    | inr b ↦ sym (lookup-delete k j m ∙ rw b refl) ∙ e
  ]

  trimmed_some :
      (b : Bool) (ts : List T) (m : ObjectMap T (Stamped E)) (k : ℕ) (x : Stamped E)
      → lookup k (if b then delete_first key ts m else m).value_map ≡ some x
      → lookup k m.value_map ≡ some x
  unfolding delete_key
  trimmed_some false ts m k x e = e
  trimmed_some true [] m k x e = e
  trimmed_some true (t ∷ ts) m k x e = delete-some (key t) k x m.value_map e

  add-IsTimed : (t : T) (e : E) (c : CacheList T E) → IsTimed c → IsTimed (add key t e c)
  unfolding add set size keys
  add-IsTimed t e c h k x found =
      let v : Stamped E = record { entry = e; id = c.next_id } in
      let m = set key t v c.entries in
      let there : lookup k (insert (key t) v c.entries.value_map) ≡ some x =
        trimmed_some (ltb max_discovery_cache_entries (length m.key_map)) (values_of m.key_map) m k
          x found in
      elim (Bool-cases (key t == k)) [
        | inl b ↦
            let same : some v ≡ some x =
              sym (lookup-insert k (key t) v c.entries.value_map ∙ rw b refl) ∙ there in
            let stamp : v ≡ x = cc in
            (
              length c.sleeps,
              (t, c.next_id),
              get_elem?-middle c.sleeps [] (t, c.next_id),
              (==_iff (key t) k).0 b,
              ap (λ (y : Stamped E). y.id) (sym stamp),
            )
        | inr b ↦
            let old =
              h k x (sym (lookup-insert k (key t) v c.entries.value_map ∙ rw b refl) ∙ there) in
            (old.0, old.1, get_elem?-append c.sleeps _ old.0 old.1 old.2, old.3, old.4)
      ]

  expired :
      (t : T) (id : ℕ) (c : CacheList T E) (x : Stamped E)
      → IsTimed c
      → (b : Bool)
      → IsTimed (if b then record c { entries = (delete_key key t c.entries).0 } else c)
  unfolding delete_key
  expired t id c x h true k y e = h k y (delete-some (key t) k y c.entries.value_map e)
  expired t id c x h false k y e = h k y e

  expire-IsTimed : (t : T) (id : ℕ) (c : CacheList T E) → IsTimed c → IsTimed (expire key t id c)
  unfolding expire get
  expire-IsTimed t id c h = elim (Option-cases (get key t c.entries)) [
    | inl e ↦ rw e h
    | inr p ↦ rw p.1 (expired t id c p.0 h (p.0.id == id))
  ]

  happen-IsTimed : (e : Event T E) (c : CacheList T E) → IsTimed c → IsTimed (happen key e c)
  unfolding happen
  happen-IsTimed (added t e) c h = add-IsTimed t e c h
  happen-IsTimed (slept i) c h = elim (Option-cases (get_elem? c.sleeps i)) [
    | inl e ↦ rw e h
    | inr p ↦ rw p.1 (expire-IsTimed p.0.0 p.0.1 c h)
  ]

  happen_all-IsTimed :
      (es : List (Event T E)) (c : CacheList T E) → IsTimed c → IsTimed (happen_all key es c)
  unfolding happen_all
  happen_all-IsTimed [] c h = h
  happen_all-IsTimed (e ∷ es) c h = happen_all-IsTimed es (happen key e c) (happen-IsTimed e c h)

  sleep_deletes :
      (t u : T) (id : ℕ) (c : CacheList T E) (x : Stamped E)
      → get key t c.entries ≡ some x
      → key u ≡ key t
      → x.id ≡ id
      → get_entry key t (expire key u id c) ≡ none
  unfolding get_entry get
  sleep_deletes t u id c x e own stamp =
      let there : get key u c.entries ≡ some x = rw own e in
      let keys_agree : (key u == key t) ≡ true = (==_iff (key u) (key t)).1 own in
      let ids_agree : (x.id == id) ≡ true = (==_iff x.id id).1 stamp in
      let gone : get key t (expire key u id c).entries ≡ none =
        get-expire u t id c ∙ rw (there, keys_agree, ids_agree) refl in
      ap (entry_of key) gone

  -- The cache after any calls and sleeps.
  abbrev pub cache_of : List (Event T E) → CacheList T E
  cache_of es = happen_all key es (new_cache key)

  -- After any calls and sleeps, `add` makes `get` return the entry it is given: the entry that `add`
  -- deletes where the cache is full is another one.
  pub get_entry-added :
      (es : List (Event T E)) (t : T) (e : E)
      → get_entry key t (happen key (added t e) (cache_of es)) ≡ some e
  unfolding happen
  get_entry-added es t e = get_entry-add (cache_of es) (cache-IsValid key es) t e

  -- After any calls and sleeps, an entry that is in the cache has a sleep whose end deletes it.
  pub get_entry-slept :
      (es : List (Event T E)) (t : T) (x : Stamped E)
      → get key t (cache_of es).entries ≡ some x
      → (i : ℕ) × (get_entry key t (happen key (slept i) (cache_of es)) ≡ none)
  unfolding happen get
  get_entry-slept es t x e =
      let p = happen_all-IsTimed es (new_cache key) (λ k x f. cc) (key t) x e in
      (p.0, rw p.2 (sleep_deletes t p.1.0 p.1.1 (cache_of es) x e p.3 p.4))
