-- ===== src/Neighbor/History.antt =====
-- The tables that any steps can make of a new one.
use heterogeneous_network.Base.{
  ℕ, ◌≡◌, refl, sym, ap, ◌∙◌, Bool, true, false, List, [], ◌∷◌, Option, none, some, Throws, ok,
  throw, arith, ◌==◌, ==_refl, Bool-cases, inl, inr, if_keeps, Ensures, ◌>>=◌, if◌then◌else◌,
}
use mathlib.Core.Path.{subst}
use heterogeneous_network.Base.Dict.{lookup, is_some}
use heterogeneous_network.Objects.{has_element, get}
use heterogeneous_network.Node.Cost.{Cost}
use heterogeneous_network.Link.Address.{Address}
use heterogeneous_network.Neighbor.Table.{
  NeighborTable, Entry, key, has_address_type, add_neighbor, initialize_local_node, new_table,
  empty_table,
}
use heterogeneous_network.Neighbor.Steps.{
  Step, adds, initializes, expires, says_hello, delays_expiration, delays_hello, delays_hello_of,
  aborts, ticks, happen, happen_all, reset_hello_of, reset_hello, run_expiration, run_hello,
  next_tick, expire, say_hello, delay_expiration, delay_hello_interval, delay_hello_interval_of,
  abort_port, change,
}
use heterogeneous_network.Neighbor.Invariant.{IsEntry, IsSound, change-IsSound}
use heterogeneous_network.Neighbor.Reach.{
  add_neighbor-IsSound, expire-IsSound, say_hello-IsSound, timer-IsEntry, run_expiration-Keeps,
  run_hello-Keeps, abort-IsEntry,
}
use heterogeneous_network.Neighbor.Local.{
  has_element-add, new_table_lem, new_table-IsSound, Initializes, initialize_local_node-Initializes,
  with_local,
}

-- A sound table with the loopback node.
pub record IsValid (loopback_id : ℕ) (t : NeighborTable) : Type 0 where
  pub sound : IsSound t
  pub loopback : has_element key loopback_id t.excluded ≡ true

keeps-IsValid :
    (id : ℕ) (t u : NeighborTable)
    → IsValid id t
    → IsSound u
    → u.excluded ≡ t.excluded
    → IsValid id u
keeps-IsValid id t u h k e = record { sound = k; loopback = ap (has_element key id) e ∙ h.loopback }

initialize-IsValid :
    (lb id : ℕ) (t : NeighborTable) (b : Bool) (r : Throws NeighborTable)
    → IsValid lb t
    → Initializes b id t r
    → Ensures (IsValid lb) r
initialize-IsValid lb id t true r h e = rw e tt
initialize-IsValid lb id t false r h (u, k, s, l, x) =
    rw k (record { sound = s; loopback = ground (arith, x lb, h.loopback) })

add_neighbor-excluded :
    (id : ℕ) (c : Cost) (a : Address) (t : NeighborTable)
    → (add_neighbor id c a t).excluded ≡ t.excluded
unfolding add_neighbor get
add_neighbor-excluded id c a t = ground arith

expire-excluded : (id : ℕ) (t : NeighborTable) → (expire id t).excluded ≡ t.excluded
unfolding expire get
expire-excluded id t = ground arith

say_hello-excluded : (id : ℕ) (t : NeighborTable) → (say_hello id t).excluded ≡ t.excluded
unfolding say_hello get
say_hello-excluded id t = ground arith

change-IsValid :
    (lb id : ℕ) (f : Entry → Entry) (t : NeighborTable)
    → ((b : Bool) (e : Entry) → IsEntry id b e → IsEntry id b (f e))
    → IsValid lb t
    → IsValid lb (change id f t (get key id t.neighbors))
change-IsValid lb id f t k h =
    keeps-IsValid lb t _ h (change-IsSound id f t k h.sound) (same (get key id t.neighbors))
  where
    same : (o : Option Entry) → (change id f t o).excluded ≡ t.excluded
    same none = refl
    same (some e) = refl

-- The entry after `delayHelloInterval` for a type of address.
abbrev reset_one : ℕ → Entry → Entry
reset_one type e = if has_address_type type e.addresses then reset_hello e else e

abbrev reset_found : ℕ → Option Entry → Option Entry
reset_found type none = none
reset_found type (some e) = some (reset_one type e)

lookup-reset_hello_of :
    (k type : ℕ) (m : List (ℕ × Entry))
    → lookup k (reset_hello_of type m) ≡ reset_found type (lookup k m)
unfolding reset_hello_of lookup
lookup-reset_hello_of k type [] = refl
lookup-reset_hello_of k type ((j, e) ∷ m) = elim (Bool-cases (j == k)) [
  | inl b ↦ rw b refl
  | inr b ↦ rw b (lookup-reset_hello_of k type m)
]

reset_one-IsEntry :
    (type id : ℕ) (b : Bool) (e : Entry) → IsEntry id b e → IsEntry id b (reset_one type e)
reset_one-IsEntry type id b e h =
    if_keeps (IsEntry id b) (has_address_type type e.addresses) _ _
      (λ q. timer-IsEntry run_hello run_hello-Keeps id b e h) (λ q. h)

is_some-reset_found : (type : ℕ) (o : Option Entry) → is_some (reset_found type o) ≡ is_some o
is_some-reset_found type none = refl
is_some-reset_found type (some e) = refl

delay_hello_interval_of-IsSound :
    (type : ℕ) (t : NeighborTable) → IsSound t → IsSound (delay_hello_interval_of type t)
unfolding delay_hello_interval_of
delay_hello_interval_of-IsSound type t h =
    let found = λ (k : ℕ). lookup-reset_hello_of k type t.neighbors.value_map in
    record {
      paired = record {
        own = h.paired.own;
        same = λ k. h.paired.same k ∙ sym (ap is_some (found k) ∙ is_some-reset_found type _);
      };
      entry = λ k e q. reset_entry k e (lookup k t.neighbors.value_map) refl (sym (found k) ∙ q);
      there = λ k q. ap is_some (found k) ∙ is_some-reset_found type _ ∙ h.there k q;
    }
  where
    reset_entry :
        (k : ℕ) (e : Entry) (o : Option Entry)
        → lookup k t.neighbors.value_map ≡ o
        → reset_found type o ≡ some e
        → IsEntry k (has_element key k t.excluded) e
    reset_entry k e none p q = cc
    reset_entry k e (some d) p q =
        let same : reset_one type d ≡ e = cc q in
        subst (λ x. IsEntry k (has_element key k t.excluded) x) same
          (reset_one-IsEntry type k _ d (h.entry k d p))

tick-IsValid :
    (lb : ℕ) (ids : List ℕ) (t : NeighborTable) → IsValid lb t → IsValid lb (next_tick ids t)
tick-IsValid lb [] t h = h
tick-IsValid lb (id ∷ ids) t h = record { sound = h.sound; loopback = h.loopback }

happen-IsValid :
    (lb : ℕ) (s : Step) (t : NeighborTable) → IsValid lb t → Ensures (IsValid lb) (happen s t)
unfolding happen delay_expiration delay_hello_interval abort_port delay_hello_interval_of
happen-IsValid lb (adds id c a) t h =
    keeps-IsValid lb t _ h (add_neighbor-IsSound id c a t h.sound) (add_neighbor-excluded id c a t)
happen-IsValid lb (initializes id) t h =
    initialize-IsValid lb id t _ (initialize_local_node id t) h
      (initialize_local_node-Initializes id t h.sound)
happen-IsValid lb (expires id) t h =
    keeps-IsValid lb t _ h (expire-IsSound id t h.sound) (expire-excluded id t)
happen-IsValid lb (says_hello id) t h =
    keeps-IsValid lb t _ h (say_hello-IsSound id t h.sound) (say_hello-excluded id t)
happen-IsValid lb (delays_expiration id) t h =
    change-IsValid lb id _ t (timer-IsEntry run_expiration run_expiration-Keeps id) h
happen-IsValid lb (delays_hello id) t h =
    change-IsValid lb id _ t (timer-IsEntry run_hello run_hello-Keeps id) h
happen-IsValid lb (delays_hello_of type) t h =
    keeps-IsValid lb t _ h (delay_hello_interval_of-IsSound type t h.sound) refl
happen-IsValid lb (aborts id media) t h = change-IsValid lb id _ t (abort-IsEntry media id) h
happen-IsValid lb ticks t h = tick-IsValid lb t.ticks t h

happen_all-IsValid :
    (lb : ℕ) (ss : List Step) (t : NeighborTable)
    → IsValid lb t
    → Ensures (IsValid lb) (happen_all ss t)
unfolding happen_all
happen_all-IsValid lb [] t h = h
happen_all-IsValid lb (s ∷ ss) t h =
    go (happen s t) (happen-IsValid lb s t h) (happen_all-IsValid lb ss)
  where
    go :
        (r : Throws NeighborTable)
        → Ensures (IsValid lb) r
        → ((u : NeighborTable) → IsValid lb u → Ensures (IsValid lb) (happen_all ss u))
        → Ensures (IsValid lb) (r >>= happen_all ss)
    go (ok u) k ih = ih u k
    go throw k ih = tt

-- In the table that the constructor makes and in every table that calls, the ends of delays, aborted
-- ports and ticks make of it without an exception: each entry stands at its own id, its addresses are
-- distinct, it has no timer exactly where its id is excluded from the events, a timer is listened
-- to, every excluded id has an entry, the loopback node is excluded, and the two maps of the table
-- have the same keys.
pub neighbors-IsValid :
    (loopback_id : ℕ) (ss : List Step)
    → (t : NeighborTable) × (new_table loopback_id ≡ ok t)
      × IsValid loopback_id t
      × Ensures (IsValid loopback_id) (happen_all ss t)
neighbors-IsValid lb ss =
    let t = with_local lb empty_table in
    let valid : IsValid lb t = record {
      sound = new_table-IsSound lb;
      loopback = has_element-add lb lb empty_table.excluded ∙ rw (==_refl lb) refl;
    } in
    (t, new_table_lem lb, valid, happen_all-IsValid lb ss t valid)
