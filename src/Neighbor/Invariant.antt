-- ===== src/Neighbor/Invariant.antt =====
-- What holds of every NeighborTable.
use heterogeneous_network.Base.{
  ℕ, ◌≡◌, refl, sym, ap, ◌∙◌, Bool, true, false, List, [], ◌∷◌, ◌++◌, Option, none, some, arith,
  All, All-append, ◌==◌, ==_iff, Bool-cases, Option-cases, inl, inr,
}
use heterogeneous_network.Base.Dict.{entries-insert, lookup, lookup-insert, lookup-delete, is_some}
use heterogeneous_network.Objects.{ObjectMap, ObjectSet, get, set, delete_key, has_element}
use heterogeneous_network.Objects.Paired.{IsPaired, set-IsPaired, delete_key-IsPaired}
use heterogeneous_network.Link.Address.{Address, equal_addresses}
use heterogeneous_network.Neighbor.Table.{
  NeighborTable, Entry, Timer, key, some_equal, remove_equal, is_local_node, put,
  add_address_if_not_exists,
}
use heterogeneous_network.Neighbor.Steps.{change}

-- No address is the same as one that stands before it.
abbrev pub Distinct : List Address → Type 0
Distinct [] = Unit {0}
Distinct (x ∷ xs) = All (λ y. equal_addresses x y ≡ false) xs × Distinct xs

Distinct-snoc :
    (a : Address) (xs : List Address)
    → some_equal a xs ≡ false
    → Distinct xs
    → Distinct (xs ++ (a ∷ []))
unfolding some_equal
Distinct-snoc a [] e h = (tt, tt)
Distinct-snoc a (x ∷ xs) e h =
    let here : equal_addresses x a ≡ false = ground arith in
    let later : some_equal a xs ≡ false = ground arith in
    (
      All-append (λ y. equal_addresses x y ≡ false) xs (a ∷ []) h.0 (here, tt),
      Distinct-snoc a xs later h.1,
    )

All-remove_equal :
    (P : Address → Type 0) (a : Address) (xs : List Address) → All P xs → All P (remove_equal a xs)
unfolding remove_equal
All-remove_equal P a [] h = tt
All-remove_equal P a (x ∷ xs) h = elim (Bool-cases (equal_addresses x a)) [
  | inl e ↦ rw e (All-remove_equal P a xs h.1)
  | inr e ↦ rw e (h.0, All-remove_equal P a xs h.1)
]

pub remove_equal-Distinct :
    (a : Address) (xs : List Address) → Distinct xs → Distinct (remove_equal a xs)
unfolding remove_equal
remove_equal-Distinct a [] h = tt
remove_equal-Distinct a (x ∷ xs) h = elim (Bool-cases (equal_addresses x a)) [
  | inl e ↦ rw e (remove_equal-Distinct a xs h.1)
  | inr e ↦ rw e (All-remove_equal _ a xs h.0, remove_equal-Distinct a xs h.1)
]

abbrev pub IsListened : Option Timer → Type 0
IsListened none = Unit {0}
IsListened (some m) = m.listened ≡ true

-- An entry that stands at `id`, of a node that is excluded from the events or not.
pub record IsEntry (id : ℕ) (excluded : Bool) (e : Entry) : Type 0 where
  pub own : e.neighbor ≡ id
  pub distinct : Distinct e.addresses
  pub local : is_local_node e ≡ excluded
  pub listened : IsListened e.timer

-- The map of the neighbors, and the set of the ids that are excluded from the events.
pub record AreSound (m : ObjectMap ℕ Entry) (excluded : ObjectSet ℕ) : Type 0 where
  pub paired : IsPaired key m
  pub entry :
      (id : ℕ) (e : Entry)
      → lookup id m.value_map ≡ some e
      → IsEntry id (has_element key id excluded) e
  pub there : (id : ℕ) → has_element key id excluded ≡ true → is_some (lookup id m.value_map) ≡ true

abbrev pub IsSound : NeighborTable → Type 0
IsSound t = AreSound t.neighbors t.excluded

pub add_address-IsEntry :
    (id : ℕ) (b : Bool) (a : Address) (e : Entry)
    → IsEntry id b e
    → IsEntry id b (add_address_if_not_exists a e)
unfolding add_address_if_not_exists
add_address-IsEntry id b a e h = elim (Bool-cases (some_equal a e.addresses)) [
  | inl k ↦ rw k h
  | inr k ↦ rw k (record {
    own = h.own;
    distinct = Distinct-snoc a e.addresses k h.distinct;
    local = h.local;
    listened = h.listened;
  })
]

-- An entry that is put at its id keeps the table sound.
pub put-IsSound :
    (id : ℕ) (e : Entry) (t : NeighborTable)
    → IsSound t
    → IsEntry id (has_element key id t.excluded) e
    → IsSound (put id e t)
unfolding set
put-IsSound id e t h k = record {
  paired = set-IsPaired key id e t.neighbors h.paired;
  entry =
      entries-insert (λ j d. IsEntry j (has_element key j t.excluded) d) id e t.neighbors.value_map
        k (λ j d b q. h.entry j d q);
  there = λ j q. ground (arith, lookup-insert j id e t.neighbors.value_map, h.there j q);
}

-- What is not excluded can be deleted.
pub delete-IsSound :
    (id : ℕ) (t : NeighborTable)
    → IsSound t
    → has_element key id t.excluded ≡ false
    → IsSound (record t { neighbors = (delete_key key id t.neighbors).0 })
unfolding delete_key
delete-IsSound id t h k = record {
  paired = delete_key-IsPaired key id t.neighbors h.paired;
  entry = λ j d q. elim (Bool-cases (id == j)) [
    | inl b ↦
        let gone : none ≡ some d = sym (lookup-delete j id t.neighbors.value_map ∙ rw b refl) ∙ q in
        absurd (cc gone)
    | inr b ↦ h.entry j d (sym (lookup-delete j id t.neighbors.value_map ∙ rw b refl) ∙ q)
  ];
  there = λ j q. elim (Bool-cases (id == j)) [
    | inl b ↦
        let same = (==_iff id j).0 b in
        let clash : true ≡ false = sym q ∙ ap (λ i. has_element key i t.excluded) (sym same) ∙ k in
        absurd (cc clash)
    | inr b ↦ ap is_some (lookup-delete j id t.neighbors.value_map ∙ rw b refl) ∙ h.there j q
  ];
}

-- A change of the entry at an id that keeps it an entry.
pub change-IsSound :
    (id : ℕ) (f : Entry → Entry) (t : NeighborTable)
    → ((b : Bool) (e : Entry) → IsEntry id b e → IsEntry id b (f e))
    → IsSound t
    → IsSound (change id f t (get key id t.neighbors))
unfolding get
change-IsSound id f t k h = elim (Option-cases (lookup id t.neighbors.value_map)) [
  | inl e ↦ rw e h
  | inr (d, e) ↦ rw e (put-IsSound id (f d) t h (k _ d (h.entry id d e)))
]
