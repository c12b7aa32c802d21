-- ===== src/Neighbor/Table.antt =====
-- ts-core/src/net/neighbor/service/list.ts: NeighborTable. A node id is its unique key, a number, and
-- an entry is what stands at its id. The events that the brokers emit are a list, the calls that
-- `nextTick` puts off another one.
use heterogeneous_network.Base.{
  ℕ, Bool, true, false, List, [], ◌∷◌, ◌++◌, Option, none, some, Throws, throw, ok, ◌==◌, ◌||◌,
  if◌then◌else◌,
}
use heterogeneous_network.Objects.{
  ObjectMap, ObjectSet, new_map, get, set, delete_key, add, has_element,
}
use heterogeneous_network.Node.Cost.{Cost}
use heterogeneous_network.Node.Cost as Cost
use heterogeneous_network.Link.Address.{Address, loopback, address_type, equal_addresses}

-- NeighborNodeTimer: which of its two delays are running, and whether `addNeighbor` listens to them.
pub record Timer : Type 0 where
  pub expiration : Bool
  pub send_hello : Bool
  pub listened : Bool

-- NeighborNodeEntry. The timer is none where it is `undefined`: the node is the local one.
pub record Entry : Type 0 where
  pub neighbor : ℕ
  pub link_cost : Cost
  pub addresses : List Address
  pub timer : Option Timer

pub data Event : Type 0 where
  neighbor_added neighbor_updated neighbor_removed hello_interval : ℕ → Event

pub record NeighborTable : Type 0 where
  pub neighbors : ObjectMap ℕ Entry
  pub excluded : ObjectSet ℕ
  pub events : List Event
  -- The nodes whose addition the next tick announces.
  pub ticks : List ℕ

-- The unique key of a node id.
abbrev pub key : ℕ → ℕ
key id = id

unfoldable pub some_equal : Address → List Address → Bool
unfolding equal_addresses
some_equal a [] = false
some_equal a (x ∷ xs) = equal_addresses x a || some_equal a xs

abbrev pub new_timer : Timer
new_timer = record { expiration = true; send_hello = true; listened = false }

abbrev pub new_entry : ℕ → Cost → Entry
new_entry source link_cost = record {
  neighbor = source;
  link_cost = link_cost;
  addresses = [];
  timer = some new_timer;
}

-- `#removeAddress`, the listener of a port's abort signal.
unfoldable pub remove_equal : Address → List Address → List Address
unfolding equal_addresses
remove_equal a [] = []
remove_equal a (x ∷ xs) =
    let rest = remove_equal a xs in if equal_addresses x a then rest else x ∷ rest

-- `addAddressIfNotExists`
unfoldable pub add_address_if_not_exists : Address → Entry → Entry
unfolding some_equal
add_address_if_not_exists media e =
    if some_equal media e.addresses then e else record e { addresses = e.addresses ++ (media ∷ []) }

unfoldable pub has_address_type : ℕ → List Address → Bool
has_address_type type [] = false
has_address_type type (x ∷ xs) = (address_type x == type) || has_address_type type xs

-- `markAsLocalNode`: the delays of the timer are cancelled, and the timer is gone.
abbrev pub mark_as_local_node : Entry → Entry
mark_as_local_node e = record e { timer = none }

abbrev pub is_undefined : Option Timer → Bool
is_undefined none = true
is_undefined (some t) = false

abbrev pub is_local_node : Entry → Bool
is_local_node e = is_undefined e.timer

abbrev pub emit : Event → NeighborTable → NeighborTable
emit ev t = record t { events = t.events ++ (ev ∷ []) }

abbrev pub put : ℕ → Entry → NeighborTable → NeighborTable
put id e t = record t { neighbors = set key id e t.neighbors }

-- The timer of a new entry whose delays `addNeighbor` listens to.
abbrev pub listening : Entry → Entry
listening e = record e { timer = some (record new_timer { listened = true }) }

abbrev pub update_cost : ℕ → Cost → Entry → NeighborTable → NeighborTable
update_cost id link_cost e t =
    if Cost.equals e.link_cost link_cost
    then put id e t
    else emit (neighbor_updated id) (put id (record e { link_cost = link_cost }) t)

abbrev pub add_new : ℕ → Entry → NeighborTable → NeighborTable
add_new id e t =
    if has_element key id t.excluded
    then put id e t
    else record (put id (listening e) t) { ticks = t.ticks ++ (id ∷ []) }

abbrev pub add_to : ℕ → Cost → Address → NeighborTable → Option Entry → NeighborTable
add_to id link_cost media t (some e) =
    update_cost id link_cost (add_address_if_not_exists media e) t
add_to id link_cost media t none =
    add_new id (add_address_if_not_exists media (new_entry id link_cost)) t

-- `addNeighbor`
unfoldable pub add_neighbor : ℕ → Cost → Address → NeighborTable → NeighborTable
unfolding get set has_element add_address_if_not_exists Cost.equals
add_neighbor id link_cost media t = add_to id link_cost media t (get key id t.neighbors)

abbrev pub zero_cost : Cost
zero_cost = record { cost = 0 }

-- `this.#neighbors.get(id)!.markAsLocalNode()`
abbrev pub mark : ℕ → NeighborTable → Option Entry → Throws NeighborTable
mark id t (some e) = ok (put id (mark_as_local_node e) t)
mark id t none = throw

-- What the constructor and `initializeLocalNode` do for an id.
unfoldable pub exclude : ℕ → NeighborTable → Throws NeighborTable
unfolding add add_neighbor get
exclude id t =
    let t1 = record t { excluded = add key id t.excluded } in
    let t2 = add_neighbor id zero_cost loopback t1 in mark id t2 (get key id t2.neighbors)

abbrev pub empty_table : NeighborTable
empty_table = record {
  neighbors = new_map;
  excluded = record { key_map = [] };
  events = [];
  ticks = [];
}

-- The constructor, with the id of the loopback node.
unfoldable pub new_table : ℕ → Throws NeighborTable
unfolding exclude
new_table loopback_id = exclude loopback_id empty_table

-- `this.#neighbors.get(info.id)?.timer!.cancel()` throws where there is an entry without a timer.
abbrev pub cancel_timer : Option Entry → Throws (Unit {0})
cancel_timer none = ok tt
cancel_timer (some e) = if is_local_node e then throw else ok tt

abbrev pub after_cancel : Throws (Unit {0}) → Throws NeighborTable → Throws NeighborTable
after_cancel (ok u) rest = rest
after_cancel throw rest = throw

unfoldable pub initialize_local_node : ℕ → NeighborTable → Throws NeighborTable
unfolding get delete_key exclude
initialize_local_node id t =
    after_cancel (cancel_timer (get key id t.neighbors))
      (exclude id (record t { neighbors = (delete_key key id t.neighbors).0 }))
