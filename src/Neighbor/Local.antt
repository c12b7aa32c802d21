-- ===== src/Neighbor/Local.antt =====
-- The entries of the local node: the loopback node, and the one of `initializeLocalNode`.
use heterogeneous_network.Base.{
  ℕ, ◌≡◌, refl, sym, ap, ◌∙◌, Bool, true, false, [], ◌∷◌, none, some, Throws, ok, throw, arith,
  ◌==◌, ==_refl, ◌||◌, Bool-cases, Option-cases, inl, inr,
}
use mathlib.Core.Path.{subst}
use heterogeneous_network.Base.Dict.{
  entries-insert, lookup, insert, delete, lookup-insert, lookup-delete, is_some,
}
use heterogeneous_network.Objects.{ObjectSet, get, set, delete_key, add, has_element}
use heterogeneous_network.Objects.Paired.{new_map-IsPaired, set-IsPaired}
use heterogeneous_network.Link.Address.{loopback}
use heterogeneous_network.Neighbor.Table.{
  NeighborTable, Entry, key, put, new_entry, add_neighbor, add_address_if_not_exists, some_equal,
  zero_cost, mark_as_local_node, exclude, empty_table, new_table, cancel_timer,
  initialize_local_node,
}
use heterogeneous_network.Neighbor.Invariant.{IsEntry, IsSound, delete-IsSound}

abbrev fresh : ℕ → Entry
fresh id = record (new_entry id zero_cost) { addresses = loopback ∷ [] }

abbrev pub local_entry : ℕ → Entry
local_entry id = mark_as_local_node (fresh id)

abbrev with_excluded : ℕ → NeighborTable → NeighborTable
with_excluded id t = record t { excluded = add key id t.excluded }

-- The table with the local entry at the id.
abbrev pub with_local : ℕ → NeighborTable → NeighborTable
with_local id t = put id (local_entry id) (put id (fresh id) (with_excluded id t))

pub has_element-add :
    (j id : ℕ) (x : ObjectSet ℕ)
    → has_element key j (add key id x) ≡ ((id == j) || has_element key j x)
unfolding has_element add
has_element-add j id x = ground (arith, lookup-insert j id id x.key_map)

exclude_fresh :
    (id : ℕ) (t : NeighborTable)
    → lookup id t.neighbors.value_map ≡ none
    → exclude id t ≡ ok (with_local id t)
unfolding exclude add_neighbor get set has_element add add_address_if_not_exists some_equal
exclude_fresh id t e =
    rw (e, lookup-insert id id id t.excluded.key_map, ==_refl id)
      (rw (lookup-insert id id (fresh id) t.neighbors.value_map, ==_refl id) refl)

local_entry-IsEntry : (id : ℕ) → IsEntry id true (local_entry id)
local_entry-IsEntry id = record { own = refl; distinct = (tt, tt); local = refl; listened = tt }

with_local-IsSound :
    (id : ℕ) (t : NeighborTable)
    → IsSound t
    → lookup id t.neighbors.value_map ≡ none
    → IsSound (with_local id t)
unfolding set
with_local-IsSound id t h e =
    let m = t.neighbors.value_map in
    record {
      paired = set-IsPaired key id _ _ (set-IsPaired key id (fresh id) t.neighbors h.paired);
      entry =
          entries-insert (λ j d. IsEntry j (has_element key j (add key id t.excluded)) d) id
            (local_entry id) (insert id (fresh id) m)
            (rw (has_element-add id id t.excluded, ==_refl id) (local_entry-IsEntry id))
            (λ j d b q.
              rw (has_element-add j id t.excluded, b)
                (h.entry j d (sym (lookup-insert j id (fresh id) m ∙ rw b refl) ∙ q)));
      there = λ j q. ground (
        arith,
        has_element-add j id t.excluded,
        lookup-insert j id (fresh id) m,
        lookup-insert j id (local_entry id) (insert id (fresh id) m),
        h.there j,
      );
    }

pub new_table_lem : (id : ℕ) → new_table id ≡ ok (with_local id empty_table)
unfolding new_table lookup
new_table_lem id = exclude_fresh id empty_table refl

empty_table-IsSound : IsSound empty_table
unfolding lookup has_element
empty_table-IsSound = record {
  paired = new_map-IsPaired key;
  entry = λ id e q. cc;
  there = λ id q. cc;
}

pub new_table-IsSound : (id : ℕ) → IsSound (with_local id empty_table)
unfolding lookup
new_table-IsSound id = with_local-IsSound id empty_table empty_table-IsSound refl

abbrev pub without : ℕ → NeighborTable → NeighborTable
without id t = record t { neighbors = (delete_key key id t.neighbors).0 }

-- The entry that is there is cancelled by the call, unless it is local.
cancel-throws :
    (id : ℕ) (t : NeighborTable)
    → IsSound t
    → has_element key id t.excluded ≡ true
    → cancel_timer (lookup id t.neighbors.value_map) ≡ throw
cancel-throws id t h k = elim (Option-cases (lookup id t.neighbors.value_map)) [
  | inl e ↦ let no : false ≡ true = sym (ap is_some e) ∙ h.there id k in absurd (cc no)
  | inr (d, e) ↦ rw (e, (h.entry id d e).local, k) refl
]

cancel-returns :
    (id : ℕ) (t : NeighborTable)
    → IsSound t
    → has_element key id t.excluded ≡ false
    → cancel_timer (lookup id t.neighbors.value_map) ≡ ok tt
cancel-returns id t h k = elim (Option-cases (lookup id t.neighbors.value_map)) [
  | inl e ↦ rw e refl
  | inr (d, e) ↦ rw (e, (h.entry id d e).local, k) refl
]

-- What `initializeLocalNode` answers for an id that is excluded, or is not.
abbrev pub Initializes : Bool → ℕ → NeighborTable → Throws NeighborTable → Type 0
Initializes true id t r = r ≡ throw
Initializes false id t r =
    (u : NeighborTable) × (r ≡ ok u)
    × IsSound u
    × (get key id u.neighbors ≡ some (local_entry id))
    × ((j : ℕ) → has_element key j u.excluded ≡ ((id == j) || has_element key j t.excluded))

-- In a sound table, `initializeLocalNode` throws a TypeError where the id is excluded from the
-- events already, as a local node is. Otherwise it returns a sound table in which the id stands with
-- a local entry of cost 0 and the loopback address alone, and is excluded with those that were.
pub initialize_local_node-Initializes :
    (id : ℕ) (t : NeighborTable)
    → IsSound t
    → Initializes (has_element key id t.excluded) id t (initialize_local_node id t)
unfolding initialize_local_node get set delete_key
initialize_local_node-Initializes id t h = elim (Bool-cases (has_element key id t.excluded)) [
  | inl k ↦ rw (k, cancel-throws id t h k) refl
  | inr k ↦
      let gone : lookup id (delete id t.neighbors.value_map) ≡ none =
        lookup-delete id id t.neighbors.value_map ∙ rw (==_refl id) refl in
      subst (λ b. Initializes b id t (initialize_local_node id t)) (sym k)
        (
          with_local id (without id t),
          rw (cancel-returns id t h k) (exclude_fresh id (without id t) gone),
          with_local-IsSound id (without id t) (delete-IsSound id t h k) gone,
          lookup-insert id id (local_entry id) _ ∙ rw (==_refl id) refl,
          λ j. has_element-add j id t.excluded,
        )
]
