-- ===== src/Neighbor/Steps.antt =====
-- What happens to a NeighborTable of ts-core/src/net/neighbor/service/list.ts after its construction:
-- calls, the ends of delays, ticks and aborted ports; and what it is asked.
use heterogeneous_network.Base.{
  ℕ, true, false, List, [], ◌∷◌, ◌++◌, Option, none, some, Throws, ok, not, if◌then◌else◌, ◌>>=◌,
}
use heterogeneous_network.Objects.{get, set, delete_key, values}
use heterogeneous_network.Node.Cost.{Cost}
use heterogeneous_network.Link.Address.{Address}
use heterogeneous_network.Neighbor.Table.{
  NeighborTable, Entry, Timer, neighbor_added, neighbor_updated, neighbor_removed, hello_interval,
  key, emit, put, some_equal, remove_equal, has_address_type, is_local_node, add_neighbor,
  initialize_local_node,
}

-- The listeners of the delay `expirataion`: the hello is cancelled, and the entry deleted.
abbrev expired : ℕ → Entry → Timer → NeighborTable → NeighborTable
expired id e m t =
    if m.listened
    then emit (neighbor_removed id) (record t { neighbors = (delete_key key id t.neighbors).0 })
    else put id (record e { timer = some (record m { expiration = false; send_hello = false }) }) t

abbrev pub expire_timer : ℕ → Entry → NeighborTable → Option Timer → NeighborTable
expire_timer id e t none = t
expire_timer id e t (some m) = if m.expiration then expired id e m t else t

abbrev expire_entry : ℕ → NeighborTable → Option Entry → NeighborTable
expire_entry id t none = t
expire_entry id t (some e) = expire_timer id e t e.timer

-- The end of the delay `expirataion` of the entry, where it is running.
unfoldable pub expire : ℕ → NeighborTable → NeighborTable
unfolding get set delete_key
expire id t = expire_entry id t (get key id t.neighbors)

abbrev said_hello : ℕ → Entry → Timer → NeighborTable → NeighborTable
said_hello id e m t = put id (record e { timer = some (record m { send_hello = false }) }) t

abbrev pub say_hello_timer : ℕ → Entry → NeighborTable → Option Timer → NeighborTable
say_hello_timer id e t none = t
say_hello_timer id e t (some m) =
    if m.send_hello
    then if m.listened then emit (hello_interval id) (said_hello id e m t) else said_hello id e m t
    else t

abbrev say_hello_entry : ℕ → NeighborTable → Option Entry → NeighborTable
say_hello_entry id t none = t
say_hello_entry id t (some e) = say_hello_timer id e t e.timer

-- The end of the delay `sendHello` of the entry, where it is running.
unfoldable pub say_hello : ℕ → NeighborTable → NeighborTable
unfolding get set
say_hello id t = say_hello_entry id t (get key id t.neighbors)

abbrev pub change : ℕ → (Entry → Entry) → NeighborTable → Option Entry → NeighborTable
change id f t none = t
change id f t (some e) = put id (f e) t

abbrev pub run_expiration : Option Timer → Option Timer
run_expiration none = none
run_expiration (some m) = some (record m { expiration = true })

abbrev pub run_hello : Option Timer → Option Timer
run_hello none = none
run_hello (some m) = some (record m { send_hello = true })

abbrev pub reset_expiration : Entry → Entry
reset_expiration e = record e { timer = run_expiration e.timer }

abbrev pub reset_hello : Entry → Entry
reset_hello e = record e { timer = run_hello e.timer }

-- `delayExpiration`
unfoldable pub delay_expiration : ℕ → NeighborTable → NeighborTable
unfolding get set
delay_expiration id t = change id reset_expiration t (get key id t.neighbors)

-- `delayHelloInterval` for a node.
unfoldable pub delay_hello_interval : ℕ → NeighborTable → NeighborTable
unfolding get set
delay_hello_interval id t = change id reset_hello t (get key id t.neighbors)

-- The loop of `delayHelloInterval` for a type of address, over the values of the map.
unfoldable pub reset_hello_of : ℕ → List (ℕ × Entry) → List (ℕ × Entry)
unfolding has_address_type
reset_hello_of type [] = []
reset_hello_of type ((k, e) ∷ m) =
    (k, if has_address_type type e.addresses then reset_hello e else e) ∷ reset_hello_of type m

unfoldable pub delay_hello_interval_of : ℕ → NeighborTable → NeighborTable
unfolding reset_hello_of
delay_hello_interval_of type t = record t {
  neighbors = record t.neighbors { value_map = reset_hello_of type t.neighbors.value_map };
}

-- The signal of the port that an address came from is aborted, for the entry that listens to it.
unfoldable pub abort_port : ℕ → Address → NeighborTable → NeighborTable
unfolding get set remove_equal
abort_port id media t =
    change id (λ e. record e { addresses = remove_equal media e.addresses }) t
      (get key id t.neighbors)

-- The next call that `nextTick` has put off.
abbrev pub next_tick : List ℕ → NeighborTable → NeighborTable
next_tick [] t = t
next_tick (id ∷ ids) t = record t {
  ticks = ids;
  events = t.events ++ (neighbor_added id ∷ neighbor_updated id ∷ []);
}

pub data Step : Type 0 where
  adds : ℕ → Cost → Address → Step
  initializes expires says_hello delays_expiration delays_hello delays_hello_of : ℕ → Step
  aborts : ℕ → Address → Step
  ticks : Step

unfoldable pub happen : Step → NeighborTable → Throws NeighborTable
unfolding add_neighbor initialize_local_node expire say_hello delay_expiration delay_hello_interval
    delay_hello_interval_of abort_port
happen (adds id link_cost media) t = ok (add_neighbor id link_cost media t)
happen (initializes id) t = initialize_local_node id t
happen (expires id) t = ok (expire id t)
happen (says_hello id) t = ok (say_hello id t)
happen (delays_expiration id) t = ok (delay_expiration id t)
happen (delays_hello id) t = ok (delay_hello_interval id t)
happen (delays_hello_of type) t = ok (delay_hello_interval_of type t)
happen (aborts id media) t = ok (abort_port id media t)
happen ticks t = ok (next_tick t.ticks t)

unfoldable pub happen_all : List Step → NeighborTable → Throws NeighborTable
unfolding happen
happen_all [] t = ok t
happen_all (s ∷ ss) t = happen s t >>= happen_all ss

-- `getNeighbor`, `getAddresses`, `getCost`
unfoldable pub get_neighbor : ℕ → NeighborTable → Option Entry
unfolding get
get_neighbor id t = get key id t.neighbors

abbrev addresses_of : Option Entry → List Address
addresses_of none = []
addresses_of (some e) = e.addresses

unfoldable pub get_addresses : ℕ → NeighborTable → List Address
unfolding get
get_addresses id t = addresses_of (get key id t.neighbors)

abbrev cost_of : Option Entry → Option Cost
cost_of none = none
cost_of (some e) = some e.link_cost

unfoldable pub get_cost : ℕ → NeighborTable → Option Cost
unfolding get
get_cost id t = cost_of (get key id t.neighbors)

-- The loop of `resolveNeighborFromAddress`.
unfoldable pub first_with : Address → List Entry → Option Entry
unfolding some_equal
first_with a [] = none
first_with a (e ∷ es) = if some_equal a e.addresses then some e else first_with a es

unfoldable pub resolve_neighbor_from_address : Address → NeighborTable → Option Entry
unfolding first_with values
resolve_neighbor_from_address a t = first_with a (values t.neighbors)

unfoldable pub get_neighbors : NeighborTable → List Entry
unfolding values
get_neighbors t = values t.neighbors

unfoldable pub except_local : List Entry → List Entry
except_local [] = []
except_local (e ∷ es) =
    let rest = except_local es in if not (is_local_node e) then e ∷ rest else rest

unfoldable pub get_neighbors_except_local_node : NeighborTable → List Entry
unfolding except_local values
get_neighbors_except_local_node t = except_local (values t.neighbors)
