-- ===== src/Deferred/Laws.antt =====
-- What settling a promise does to the store.
use heterogeneous_network.Base.{
  ℕ, zero, suc, ◌<◌, ◌≡◌, ◌≢◌, refl, sym, ◌∙◌, List, [], ◌∷◌, Option, none, some, arith, length,
  get_elem?, get_elem?-set_self, get_elem?-set_ne,
}
use native.Mathlib.Decide.{ℕ_discrete}
use heterogeneous_network.Deferred.{Status, pending, fulfilled, rejected, settle_at, resolve}

module _ {ℓ} {A : Type ℓ} where
  -- A promise that has not been settled.
  abbrev pub IsPending : List (Status A) → ℕ → Type ℓ
  IsPending store id = get_elem? store id ≡ some pending

  get_elem?-length :
      (xs : List (Status A)) (i : ℕ) (x : Status A) → get_elem? xs i ≡ some x → i < length xs
  get_elem?-length [] i x e = cc
  get_elem?-length (y ∷ ys) zero x e = omega arith
  get_elem?-length (y ∷ ys) (suc i) x e = omega (arith, get_elem?-length ys i x e)

module _ {ℓ} {A : Type ℓ} (v : A) where
  -- A pending promise takes the value.
  pub resolve-IsPending :
      (id : ℕ) (store : List (Status A))
      → IsPending store id
      → get_elem? (resolve id v store) id ≡ some (fulfilled v)
  unfolding resolve
  resolve-IsPending id store e =
      rw e (get_elem?-set_self store id (fulfilled v) (get_elem?-length store id pending e))

  settle_at-ne :
      (id j : ℕ) (store : List (Status A)) (o : Option (Status A))
      → id ≢ j
      → get_elem? (settle_at (fulfilled v) store id o) j ≡ get_elem? store j
  settle_at-ne id j store none h = refl
  settle_at-ne id j store (some pending) h = get_elem?-set_ne store id j (fulfilled v) h
  settle_at-ne id j store (some (fulfilled a)) h = refl
  settle_at-ne id j store (some rejected) h = refl

  -- The others are untouched.
  pub resolve-ne :
      (id j : ℕ) (store : List (Status A))
      → id ≢ j
      → get_elem? (resolve id v store) j ≡ get_elem? store j
  unfolding resolve
  resolve-ne id j store h = settle_at-ne id j store (get_elem? store id) h

  settle_at-done :
      (id : ℕ) (store : List (Status A)) (o : Option (Status A))
      → get_elem? store id ≡ o
      → o ≢ some pending
      → settle_at (fulfilled v) store id o ≡ store
  settle_at-done id store none e h = refl
  settle_at-done id store (some pending) e h = absurd (h refl)
  settle_at-done id store (some (fulfilled a)) e h = refl
  settle_at-done id store (some rejected) e h = refl

  -- A promise that is settled, or not there, is not settled again.
  pub resolve_done :
      (id : ℕ) (store : List (Status A)) → ¬ IsPending store id → resolve id v store ≡ store
  unfolding resolve
  resolve_done id store h = settle_at-done id store (get_elem? store id) refl h

  pub resolve-settled :
      (id j : ℕ) (store : List (Status A))
      → ¬ IsPending store j
      → ¬ IsPending (resolve id v store) j
  resolve-settled id j store h p = elim (ℕ_discrete id j) [
    | yes e ↦ h (rw (resolve_done id store (rw (e) h)) at p)
    | no n ↦ h (sym (resolve-ne id j store n) ∙ p)
  ]

  settle_at_self :
      (id : ℕ) (store : List (Status A)) (o : Option (Status A))
      → get_elem? store id ≡ o
      → ¬ IsPending (settle_at (fulfilled v) store id o) id
  settle_at_self id store none e p = cc (e, p)
  settle_at_self id store (some pending) e p =
      cc (get_elem?-set_self store id (fulfilled v) (get_elem?-length store id pending e), p)
  settle_at_self id store (some (fulfilled a)) e p = cc (e, p)
  settle_at_self id store (some rejected) e p = cc (e, p)

  -- After the call the promise is not pending.
  pub resolve-self-settled :
      (id : ℕ) (store : List (Status A)) → ¬ IsPending (resolve id v store) id
  unfolding resolve
  resolve-self-settled id store = settle_at_self id store (get_elem? store id) refl
