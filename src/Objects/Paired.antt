-- ===== src/Objects/Paired.antt =====
-- The two maps of an ObjectMap have the same keys.
use heterogeneous_network.Base.{
  ℕ, ◌≡◌, refl, sym, ap, ◌∙◌, inl, inr, none, some, arith, ◌==◌, ==_iff, Bool-cases,
}
use heterogeneous_network.Base.Dict.{lookup, is_some, lookup-insert, lookup-delete}
use heterogeneous_network.Objects.{ObjectMap, new_map, set, delete_key}

module _ {T V : Type 0} (key : T → ℕ) where
  -- Every key of the first map is the key of its object, and both maps have the same keys.
  pub record IsPaired (m : ObjectMap T V) : Type 0 where
    pub own : (k : ℕ) (t : T) → lookup k m.key_map ≡ some t → key t ≡ k
    pub same : (k : ℕ) → is_some (lookup k m.key_map) ≡ is_some (lookup k m.value_map)

  pub new_map-IsPaired : IsPaired new_map
  unfolding lookup
  new_map-IsPaired = record { own = λ k t e. cc; same = λ k. refl }

  pub set-IsPaired : (t : T) (v : V) (m : ObjectMap T V) → IsPaired m → IsPaired (set key t v m)
  unfolding set
  set-IsPaired t v m h = record {
    own = λ k u e. elim (Bool-cases (key t == k)) [
      | inl b ↦
          let same : some t ≡ some u = sym (lookup-insert k (key t) t m.key_map ∙ rw b refl) ∙ e in
          let object : t ≡ u = cc in sym (ap key object) ∙ (==_iff (key t) k).0 b
      | inr b ↦ h.own k u (sym (lookup-insert k (key t) t m.key_map ∙ rw b refl) ∙ e)
    ];
    same = λ k. ground (
      arith,
      lookup-insert k (key t) t m.key_map,
      lookup-insert k (key t) v m.value_map,
      h.same k,
    );
  }

  pub delete_key-IsPaired :
      (t : T) (m : ObjectMap T V) → IsPaired m → IsPaired (delete_key key t m).0
  unfolding delete_key
  delete_key-IsPaired t m h = record {
    own = λ k u e. elim (Bool-cases (key t == k)) [
      | inl b ↦
          let gone : none ≡ some u = sym (lookup-delete k (key t) m.key_map ∙ rw b refl) ∙ e in
          absurd (cc gone)
      | inr b ↦ h.own k u (sym (lookup-delete k (key t) m.key_map ∙ rw b refl) ∙ e)
    ];
    same = λ k.
        ground
          (arith, lookup-delete k (key t) m.key_map, lookup-delete k (key t) m.value_map, h.same k);
  }
