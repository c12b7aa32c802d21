-- ===== src/Discovery/Window.antt =====
-- Runs of insertions into the cache of frame ids, and draws of new ids.
use heterogeneous_network.Base.{
  ℕ, zero, suc, ◌+◌, ◌-◌, ◌≤◌, ◌≡◌, refl, sym, ap, ◌∙◌, Bool, true, false, List, [], ◌∷◌, ◌++◌,
  get_elem?, some, arith, ltb, ◌==◌, if_keeps, length, drop, length-append, length-drop, drop_add,
}
use mathlib.Core.List.{append_assoc, append-nil}
use heterogeneous_network.Discovery.FrameId.{
  FrameIdCache, has, add, insert, contains, generate_without_adding, generate,
}

-- No id stands twice in the list.
abbrev pub Distinct : List ℕ → Type 0
Distinct [] = Unit
Distinct (x ∷ xs) = (has x xs ≡ false) × Distinct xs

pub insert_all : List ℕ → FrameIdCache → FrameIdCache
insert_all [] c = c
insert_all (id ∷ ids) c = insert_all ids (insert id c)

has_later : (id y : ℕ) (xs ys : List ℕ) → has y (xs ++ id ∷ ys) ≡ false → (id == y) ≡ false
unfolding has
has_later id y [] ys h = ground arith
has_later id y (x ∷ xs) ys h =
    let t : has y (xs ++ id ∷ ys) ≡ false = ground arith in has_later id y xs ys t

fresh : (id : ℕ) (xs ys : List ℕ) → Distinct (xs ++ id ∷ ys) → has id xs ≡ false
unfolding has
fresh id [] ys h = refl
fresh id (x ∷ xs) ys h = rw (has_later id x xs ys h.0) (fresh id xs ys h.1)

Distinct-drop : (k : ℕ) (xs : List ℕ) → Distinct xs → Distinct (drop k xs)
Distinct-drop zero xs h = h
Distinct-drop (suc k) [] h = h
Distinct-drop (suc k) (x ∷ xs) h = Distinct-drop k xs h.1

drop-append : (k : ℕ) (xs ys : List ℕ) → k ≤ length xs → drop k (xs ++ ys) ≡ drop k xs ++ ys
drop-append zero xs ys h = refl
drop-append (suc k) [] ys h = absurd (omega arith)
drop-append (suc k) (x ∷ xs) ys h = drop-append k xs ys (omega arith)

-- The last `n` elements.
pub last_of : ℕ → List ℕ → List ℕ
last_of n xs = drop (length xs - n) xs

insert-last_of :
    (id : ℕ) (c : FrameIdCache)
    → has id c.cache ≡ false
    → length c.cache ≤ c.max_cache_size
    → insert id c ≡ record c { cache = last_of c.max_cache_size (c.cache ++ id ∷ []) }
unfolding insert add last_of
insert-last_of id c h fits =
    let long : length (c.cache ++ id ∷ []) ≡ length c.cache + 1 = length-append c.cache (id ∷ []) in
    rw h (
      ap (λ l. record c { cache = l })
        (if_keeps (λ l. l ≡ last_of c.max_cache_size (c.cache ++ id ∷ []))
          (ltb c.max_cache_size (length (c.cache ++ id ∷ []))) _ _
          (λ t.
            let one : 1 ≡ length (c.cache ++ id ∷ []) - c.max_cache_size =
              ground (arith, long, fits) in
            ap (λ k. drop k (c.cache ++ id ∷ [])) one)
          (λ t.
            let none_over : 0 ≡ length (c.cache ++ id ∷ []) - c.max_cache_size =
              ground (arith, long, fits) in
            ap (λ k. drop k (c.cache ++ id ∷ [])) none_over)))

-- Ids inserted one after the other, all different from each other and from those in the cache,
-- leave the last ones in the cache, as many as its size allows, in the order of their insertion.
pub insert_all-last_of :
    (ids : List ℕ) (c : FrameIdCache)
    → Distinct (c.cache ++ ids)
    → length c.cache ≤ c.max_cache_size
    → (insert_all ids c).cache ≡ last_of c.max_cache_size (c.cache ++ ids)
unfolding insert_all last_of
insert_all-last_of [] c h fits =
    let none_over : length (c.cache ++ []) - c.max_cache_size ≡ 0 =
      omega (arith, fits, length-append c.cache []) in
    rw none_over (sym (append-nil c.cache))
insert_all-last_of (id ∷ ids) c h fits =
    let xs = c.cache ++ id ∷ [] in
    let k = length xs - c.max_cache_size in
    let long : length xs ≡ length c.cache + 1 = length-append c.cache (id ∷ []) in
    let moved : drop k xs ++ ids ≡ drop k (c.cache ++ id ∷ ids) =
      sym (drop-append k xs ids (omega (arith, long)))
      ∙ ap (λ l. drop k l) (append_assoc c.cache (id ∷ []) ids) in
    let all : length (c.cache ++ id ∷ ids) ≡ length c.cache + suc (length ids) =
      length-append c.cache (id ∷ ids) in
    rw (insert-last_of id c (fresh id c.cache ids h) fits, insert_all)
      (insert_all-last_of ids (record c { cache = drop k xs })
          (rw moved (Distinct-drop k (c.cache ++ id ∷ ids) h))
          (omega (arith, length-drop k xs, fits, long))
        ∙ ap (λ l. drop (length l - c.max_cache_size) l) moved
        ∙ drop_add (c.cache ++ id ∷ ids) k
            (length (drop k (c.cache ++ id ∷ ids)) - c.max_cache_size)
        ∙ ap (λ n. drop n (c.cache ++ id ∷ ids))
            (omega (arith, all, long, fits, length-drop k (c.cache ++ id ∷ ids))))

first :
    (d : ℕ) (draws : List ℕ) (c : FrameIdCache) (b : Bool)
    → contains d c ≡ b
    → (new : ℕ) × (generate draws c ≡ some (new, insert new c)) × (contains new c ≡ false)
    → (new : ℕ) × (generate (d ∷ draws) c ≡ some (new, insert new c)) × (contains new c ≡ false)
unfolding generate generate_without_adding
first d draws c true e h = rw e h
first d draws c false e h = rw e (d, refl, e)

-- `generate` returns once a draw is not in the cache, which comes if one of the draws is not: the
-- id it returns was not in the cache.
pub generate-fresh :
    (draws : List ℕ) (c : FrameIdCache) (i id : ℕ)
    → get_elem? draws i ≡ some id
    → contains id c ≡ false
    → (new : ℕ) × (generate draws c ≡ some (new, insert new c)) × (contains new c ≡ false)
unfolding generate generate_without_adding
generate-fresh [] c i id e h = cc
generate-fresh (d ∷ draws) c zero id e h = let same : d ≡ id = cc in rw same (rw h (id, refl, h))
generate-fresh (d ∷ draws) c (suc i) id e h =
    first d draws c (contains d c) refl (generate-fresh draws c i id e h)
