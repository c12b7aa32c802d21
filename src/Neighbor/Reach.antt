-- ===== src/Neighbor/Reach.antt =====
-- Every NeighborTable that its methods, its delays, its ticks and aborted ports can make.
use heterogeneous_network.Base.{
  ℕ, ◌≡◌, refl, sym, ap, ◌∙◌, Bool, true, false, Option, none, some, Option-cases, inl, inr,
  if_keeps,
}
use mathlib.Core.Path.{subst}
use heterogeneous_network.Base.Dict.{lookup, is_some}
use heterogeneous_network.Objects.{get, has_element}
use heterogeneous_network.Node.Cost.{Cost}
use heterogeneous_network.Node.Cost as Cost
use heterogeneous_network.Link.Address.{Address}
use heterogeneous_network.Neighbor.Table.{
  NeighborTable, Entry, Timer, key, new_entry, update_cost, add_neighbor, listening,
  add_address_if_not_exists, some_equal, is_undefined, remove_equal,
}
use heterogeneous_network.Neighbor.Steps.{
  expire_timer, expire, say_hello_timer, say_hello, run_expiration, run_hello,
}
use heterogeneous_network.Neighbor.Invariant.{
  IsEntry, IsListened, IsSound, add_address-IsEntry, put-IsSound, delete-IsSound,
  remove_equal-Distinct,
}

update_cost-IsSound :
    (id : ℕ) (c : Cost) (e : Entry) (t : NeighborTable)
    → IsSound t
    → IsEntry id (has_element key id t.excluded) e
    → IsSound (update_cost id c e t)
update_cost-IsSound id c e t h k =
    if_keeps IsSound (Cost.equals e.link_cost c) _ _ (λ q. put-IsSound id e t h k)
      (λ q.
        put-IsSound id (record e { link_cost = c }) t h
          (record { own = k.own; distinct = k.distinct; local = k.local; listened = k.listened }))

first_address :
    (id : ℕ) (c : Cost) (a : Address)
    → IsEntry id false (listening (add_address_if_not_exists a (new_entry id c)))
unfolding add_address_if_not_exists some_equal
first_address id c a = record { own = refl; distinct = (tt, tt); local = refl; listened = refl }

pub add_neighbor-IsSound :
    (id : ℕ) (c : Cost) (a : Address) (t : NeighborTable)
    → IsSound t
    → IsSound (add_neighbor id c a t)
unfolding add_neighbor get has_element
add_neighbor-IsSound id c a t h = elim (Option-cases (lookup id t.neighbors.value_map)) [
  | inl e ↦ rw e (
      if_keeps IsSound (has_element key id t.excluded) _ _
        (λ q.
          let no : is_some (lookup id t.neighbors.value_map) ≡ true = h.there id q in
          absurd (cc (no, e)))
        (λ q. put-IsSound id _ t h (rw q (first_address id c a))))
  | inr (d, e) ↦ rw e (
      update_cost-IsSound id c (add_address_if_not_exists a d) t h
        (add_address-IsEntry id _ a d (h.entry id d e)))
]

-- The entry with another state of a timer that it has.
with_timer-IsEntry :
    (id : ℕ) (b : Bool) (e : Entry) (m n : Timer)
    → e.timer ≡ some m
    → n.listened ≡ m.listened
    → IsEntry id b e
    → IsEntry id b (record e { timer = some n })
with_timer-IsEntry id b e m n q l h = record {
  own = h.own;
  distinct = h.distinct;
  local = ap is_undefined (sym q) ∙ h.local;
  listened = l ∙ subst IsListened q h.listened;
}

expire_timer-IsSound :
    (id : ℕ) (e : Entry) (t : NeighborTable) (o : Option Timer)
    → e.timer ≡ o
    → IsSound t
    → IsEntry id (has_element key id t.excluded) e
    → IsSound (expire_timer id e t o)
expire_timer-IsSound id e t none q h k = h
expire_timer-IsSound id e t (some m) q h k =
    let listened : m.listened ≡ true = subst IsListened q k.listened in
    let away : has_element key id t.excluded ≡ false = sym k.local ∙ ap is_undefined q in
    if_keeps IsSound m.expiration _ _ (λ b. rw listened (delete-IsSound id t h away)) (λ b. h)

pub expire-IsSound : (id : ℕ) (t : NeighborTable) → IsSound t → IsSound (expire id t)
unfolding expire get
expire-IsSound id t h = elim (Option-cases (lookup id t.neighbors.value_map)) [
  | inl e ↦ rw e h
  | inr (d, e) ↦ rw e (expire_timer-IsSound id d t d.timer refl h (h.entry id d e))
]

say_hello_timer-IsSound :
    (id : ℕ) (e : Entry) (t : NeighborTable) (o : Option Timer)
    → e.timer ≡ o
    → IsSound t
    → IsEntry id (has_element key id t.excluded) e
    → IsSound (say_hello_timer id e t o)
say_hello_timer-IsSound id e t none q h k = h
say_hello_timer-IsSound id e t (some m) q h k =
    let said = put-IsSound id _ t h (with_timer-IsEntry id _ e m _ q refl k) in
    if_keeps IsSound m.send_hello _ _ (λ b. if_keeps IsSound m.listened _ _ (λ c. said) (λ c. said))
      (λ b. h)

pub say_hello-IsSound : (id : ℕ) (t : NeighborTable) → IsSound t → IsSound (say_hello id t)
unfolding say_hello get
say_hello-IsSound id t h = elim (Option-cases (lookup id t.neighbors.value_map)) [
  | inl e ↦ rw e h
  | inr (d, e) ↦ rw e (say_hello_timer-IsSound id d t d.timer refl h (h.entry id d e))
]

-- A timer that is there stays there, and is listened to as it was.
abbrev pub Keeps : (Option Timer → Option Timer) → Type 0
Keeps f =
    (o : Option Timer) → (is_undefined (f o) ≡ is_undefined o) × (IsListened o → IsListened (f o))

pub run_expiration-Keeps : Keeps run_expiration
run_expiration-Keeps none = (refl, λ h. h)
run_expiration-Keeps (some m) = (refl, λ h. h)

pub run_hello-Keeps : Keeps run_hello
run_hello-Keeps none = (refl, λ h. h)
run_hello-Keeps (some m) = (refl, λ h. h)

pub timer-IsEntry :
    (f : Option Timer → Option Timer)
    → Keeps f
    → (id : ℕ) (b : Bool) (e : Entry) → IsEntry id b e
    → IsEntry id b (record e { timer = f e.timer })
timer-IsEntry f k id b e h = record {
  own = h.own;
  distinct = h.distinct;
  local = (k e.timer).0 ∙ h.local;
  listened = (k e.timer).1 h.listened;
}

pub abort-IsEntry :
    (a : Address) (id : ℕ) (b : Bool) (e : Entry)
    → IsEntry id b e
    → IsEntry id b (record e { addresses = remove_equal a e.addresses })
abort-IsEntry a id b e h = record {
  own = h.own;
  distinct = remove_equal-Distinct a e.addresses h.distinct;
  local = h.local;
  listened = h.listened;
}
