-- ===== src/Network/Priority.antt =====
-- The order that NodePriority gives to the nodes.
use heterogeneous_network.Base.{
  ℕ, ◌<◌, ◌≡◌, refl, ◌∙◌, ◌⊎◌, inl, inr, Bool, true, false, ◌||◌, Option, none, some, ltb, ◌==◌,
  ==_iff, arith, if_keeps,
}
use heterogeneous_network.Base.Dict.{lookup, lookup-insert}
use heterogeneous_network.Network.State.{
  NetworkState, get_or_insert_found, get_or_insert, prioritize,
}

-- Different nodes have different priorities, below the next one to be given.
pub record IsRanked (s : NetworkState) : Type 0 where
  pub bounded : (x p : ℕ) → lookup x s.priorities ≡ some p → p < s.next_priority
  pub injective :
      (x y p : ℕ) → lookup x s.priorities ≡ some p → lookup y s.priorities ≡ some p → x ≡ y

abbrev pub lower : Option ℕ → Option ℕ → Bool
lower none q = false
lower (some p) none = false
lower (some p) (some q) = ltb p q

-- The node `x` is `y`, or comes before it.
abbrev pub before : NetworkState → ℕ → ℕ → Bool
before s x y = (x == y) || lower (lookup x s.priorities) (lookup y s.priorities)

-- What a call leaves: the nodes, and the priorities that were given.
pub record Extends (s t : NetworkState) : Type 0 where
  pub nodes : t.nodes ≡ s.nodes
  pub given : (x p : ℕ) → lookup x s.priorities ≡ some p → lookup x t.priorities ≡ some p
  pub ranked : IsRanked t

found-Extends :
    (id : ℕ) (s : NetworkState) (o : Option ℕ)
    → lookup id s.priorities ≡ o
    → IsRanked s
    → let r = get_or_insert_found id s o in Extends s r.1 × (lookup id r.1.priorities ≡ some r.0)
found-Extends id s (some p) e h = (record { nodes = refl; given = λ x q k. k; ranked = h }, e)
found-Extends id s none e h =
    let at = λ (x : ℕ). lookup-insert x id s.next_priority s.priorities in
    (
      record {
        nodes = refl;
        given = λ x p k. ground (arith, at x, ==_iff id x);
        ranked = record {
          bounded = λ x p k. ground (arith, at x, h.bounded x p, ==_iff id x);
          injective = λ x y p k l. ground (
            arith,
            at x,
            at y,
            h.injective x y p,
            h.bounded x p,
            h.bounded y p,
            ==_iff id x,
            ==_iff id y,
          );
        };
      },
      ground (arith, at id, ==_iff id id),
    )

get_or_insert-Extends :
    (id : ℕ) (s : NetworkState)
    → IsRanked s
    → Extends s (get_or_insert id s).1
      × (lookup id (get_or_insert id s).1.priorities ≡ some (get_or_insert id s).0)
unfolding get_or_insert
get_or_insert-Extends id s h = found-Extends id s (lookup id s.priorities) refl h

pub Extends-trans : {s t u : NetworkState} → Extends s t → Extends t u → Extends s u
Extends-trans a b = record {
  nodes = b.nodes ∙ a.nodes;
  given = λ x p k. b.given x p (a.given x p k);
  ranked = b.ranked;
}

-- The two ids, the one that comes before the other first.
abbrev pub IsOrdered : ℕ → ℕ → NetworkState → ℕ × ℕ × NetworkState → Type 0
IsOrdered x y s r =
    Extends s r.2
    × (before r.2 r.0 r.1 ≡ true)
    × (((r.0 ≡ x) × (r.1 ≡ y)) ⊎ ((r.0 ≡ y) × (r.1 ≡ x)))

pub prioritize-IsOrdered :
    (x y : ℕ) (s : NetworkState) → IsRanked s → IsOrdered x y s (prioritize x y s)
unfolding prioritize
prioritize-IsOrdered x y s h =
    let (p1, s1) = get_or_insert x s in
    let (p2, s2) = get_or_insert y s1 in
    let a = get_or_insert-Extends x s h in
    let b = get_or_insert-Extends y s1 a.0.ranked in
    let of_x : lookup x s2.priorities ≡ some p1 = b.0.given x p1 a.1 in
    let of_y : lookup y s2.priorities ≡ some p2 = b.1 in
    if_keeps (IsOrdered x y s) (ltb p1 p2) (x, y, s2) (y, x, s2)
      (λ e. (Extends-trans a.0 b.0, ground (arith, of_x, of_y), inl (refl, refl)))
      (λ e. (
        Extends-trans a.0 b.0,
        ground (arith, of_x, of_y, b.0.ranked.injective x y p1, ==_iff y x),
        inr (refl, refl),
      ))
