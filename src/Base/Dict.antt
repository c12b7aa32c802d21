-- ===== src/Base/Dict.antt =====
-- The `Map` and the `Set` of JavaScript over keys that are numbers: lists in the order of insertion.
use Prim.Native.Nat.{ℕ}
use mathlib.Core.Path.{◌≡◌, refl, sym, ◌∙◌, subst}
use mathlib.Core.Logic.{inl, inr}
use mathlib.Core.Bool.{Bool, true, false, not, ◌&&◌, ◌||◌}
use mathlib.Core.Option.{Option, none, some}
use mathlib.Core.List.{List, [], ◌∷◌, ◌++◌}
use native.Mathlib.Omega.{arith}
use heterogeneous_network.Base.Tests.{◌==◌, ==_iff, Bool-cases, if◌then◌else◌}

-- `Set.has`, and membership in an array.
unfoldable pub mem : ℕ → List ℕ → Bool
mem k [] = false
mem k (x ∷ xs) = (k == x) || mem k xs

-- `Set.delete`
unfoldable pub without : ℕ → List ℕ → List ℕ
without k [] = []
without k (x ∷ xs) = let rest = without k xs in if k == x then rest else x ∷ rest

pub mem-append : (k : ℕ) (xs ys : List ℕ) → mem k (xs ++ ys) ≡ mem k xs || mem k ys
unfolding mem
mem-append k [] ys = refl
mem-append k (x ∷ xs) ys = ground (arith, mem-append k xs ys)

pub mem-without : (j k : ℕ) (xs : List ℕ) → mem j (without k xs) ≡ not (k == j) && mem j xs
unfolding mem without
mem-without j k [] = ground arith
mem-without j k (x ∷ xs) = ground (arith, mem-without j k xs)

module _ {ℓ} {V : Type ℓ} where
  unfoldable pub lookup : ℕ → List (ℕ × V) → Option V
  lookup k [] = none
  lookup k ((j, v) ∷ m) = if j == k then some v else lookup k m

  -- `Map.set`: a key that is there keeps its place.
  unfoldable pub insert : ℕ → V → List (ℕ × V) → List (ℕ × V)
  insert k v [] = (k, v) ∷ []
  insert k v ((j, w) ∷ m) = let rest = insert k v m in if j == k then (k, v) ∷ m else (j, w) ∷ rest

  -- `Map.delete`
  unfoldable pub delete : ℕ → List (ℕ × V) → List (ℕ × V)
  delete k [] = []
  delete k ((j, w) ∷ m) = let rest = delete k m in if j == k then rest else (j, w) ∷ rest

  unfoldable pub keys : List (ℕ × V) → List ℕ
  keys [] = []
  keys ((j, w) ∷ m) = j ∷ keys m

  abbrev pub is_some : Option V → Bool
  is_some none = false
  is_some (some v) = true

  pub lookup-insert :
      (j k : ℕ) (v : V) (m : List (ℕ × V))
      → lookup j (insert k v m) ≡ (if k == j then some v else lookup j m)
  unfolding lookup insert
  lookup-insert j k v [] = refl
  lookup-insert j k v ((i, w) ∷ m) = ground (arith, lookup-insert j k v m)

  pub lookup-delete :
      (j k : ℕ) (m : List (ℕ × V)) → lookup j (delete k m) ≡ (if k == j then none else lookup j m)
  unfolding lookup delete
  lookup-delete j k [] = ground arith
  lookup-delete j k ((i, w) ∷ m) = ground (arith, lookup-delete j k m)

  pub mem-keys : (k : ℕ) (m : List (ℕ × V)) → mem k (keys m) ≡ is_some (lookup k m)
  unfolding mem keys lookup
  mem-keys k [] = refl
  mem-keys k ((i, w) ∷ m) = ground (arith, mem-keys k m)

  -- The entries that stand in the map after `Map.set`.
  pub entries-insert {κ} :
      (P : ℕ → V → Type κ) (k : ℕ) (v : V) (m : List (ℕ × V))
      → P k v
      → ((j : ℕ) (w : V) → (k == j) ≡ false → lookup j m ≡ some w → P j w)
      → (j : ℕ) (w : V) → lookup j (insert k v m) ≡ some w
      → P j w
  entries-insert P k v m h rest j w q = elim (Bool-cases (k == j)) [
    | inl b ↦
        let found : some v ≡ some w = sym (lookup-insert j k v m ∙ rw b refl) ∙ q in
        let same : v ≡ w = cc found in subst (λ i. P i w) ((==_iff k j).0 b) (subst (P k) same h)
    | inr b ↦ rest j w b (sym (lookup-insert j k v m ∙ rw b refl) ∙ q)
  ]

  -- The entries that stand in it after `Map.delete`.
  pub entries-delete :
      (k j : ℕ) (w : V) (m : List (ℕ × V))
      → lookup j (delete k m) ≡ some w
      → ((k == j) ≡ false) × (lookup j m ≡ some w)
  entries-delete k j w m q = elim (Bool-cases (k == j)) [
    | inl b ↦
        let gone : none ≡ some w = sym (lookup-delete j k m ∙ rw b refl) ∙ q in absurd (cc gone)
    | inr b ↦ (b, sym (lookup-delete j k m ∙ rw b refl) ∙ q)
  ]
