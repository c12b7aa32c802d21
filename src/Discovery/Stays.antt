-- ===== src/Discovery/Stays.antt =====
-- How long an id stays in the cache of frame ids.
use heterogeneous_network.Base.{
  ℕ, suc, ◌+◌, ◌≤◌, ◌<◌, ◌≡◌, refl, true, false, List, [], ◌∷◌, ◌++◌, arith, ltb, ==_refl,
  Bool-cases, inl, inr, if_keeps, if◌then◌else◌, length, drop, length-append,
}
use mathlib.Core.List.{append_assoc}
use heterogeneous_network.Discovery.FrameId.{FrameIdCache, has, add, insert, contains}

-- The id is in the cache, and is there after `n` more insertions.
abbrev pub Stays : ℕ → ℕ → FrameIdCache → Type 0
Stays n id c =
    (ys : List ℕ) × (zs : List ℕ) × (c.cache ≡ ys ++ id ∷ zs) × (length zs + n < c.max_cache_size)

has-middle : (id : ℕ) (ys zs : List ℕ) → has id (ys ++ id ∷ zs) ≡ true
unfolding has
has-middle id [] zs = rw (==_refl id) refl
has-middle id (y ∷ ys) zs = ground (arith, has-middle id ys zs)

pub Stays-contains : (n id : ℕ) (c : FrameIdCache) → Stays n id c → contains id c ≡ true
unfolding contains
Stays-contains n id c (ys, zs, e, h) = rw e (has-middle id ys zs)

pub Stays-fewer : (m n id : ℕ) (c : FrameIdCache) → m ≤ n → Stays n id c → Stays m id c
Stays-fewer m n id c l (ys, zs, e, h) = (ys, zs, e, omega (arith, l, h))

-- What `insert` makes of the ids: it drops the first one where they are too many.
abbrev trim : ℕ → List ℕ → List ℕ
trim m xs = if ltb m (length xs) then drop 1 xs else xs

-- An id with fewer ids behind it than there is room for is not the one that is dropped.
trim-Stays :
    (n id m : ℕ) (ys zs : List ℕ)
    → length zs + n < m
    → Stays n id (record { cache = trim m (ys ++ id ∷ zs); max_cache_size = m })
trim-Stays n id m [] zs h =
    let small : ltb m (length (id ∷ zs)) ≡ false = ground (arith, h) in rw small ([], zs, refl, h)
trim-Stays n id m (y ∷ ys) zs h =
    if_keeps (λ l. Stays n id (record { cache = l; max_cache_size = m }))
      (ltb m (length (y ∷ (ys ++ id ∷ zs)))) _ _ (λ e. (ys, zs, refl, h))
      (λ e. (y ∷ ys, zs, refl, h))

-- The part behind an id grows by at most one place.
pub insert-Stays : (n id x : ℕ) (c : FrameIdCache) → Stays (suc n) id c → Stays n id (insert x c)
unfolding insert add
insert-Stays n id x c (ys, zs, e, h) = elim (Bool-cases (has x c.cache)) [
  | inl k ↦ rw (k, e) (trim-Stays n id c.max_cache_size ys zs (omega (arith, h)))
  | inr k ↦
      let longer : length (zs ++ x ∷ []) + n < c.max_cache_size =
        omega (arith, h, length-append zs (x ∷ [])) in
      rw (k, e, append_assoc ys (id ∷ zs) (x ∷ []))
        (trim-Stays n id c.max_cache_size ys (zs ++ x ∷ []) longer)
]

pub insert_new-Stays :
    (n id : ℕ) (c : FrameIdCache)
    → contains id c ≡ false
    → n < c.max_cache_size
    → Stays n id (insert id c)
unfolding insert add contains
insert_new-Stays n id c k h = rw k (trim-Stays n id c.max_cache_size c.cache [] (omega (arith, h)))
