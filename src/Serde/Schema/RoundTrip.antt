-- ===== src/Serde/Schema/RoundTrip.antt =====
-- Round trips of objects, from those of their keys.
use heterogeneous_network.Base.{ℕ, ◌≡◌, refl, sym, ap, ◌∙◌, List, [], ◌∷◌, ◌++◌, ◌+◌, length}
use heterogeneous_network.Base.{ok as returned}
use mathlib.Core.List.{append-nil}
use heterogeneous_network.Serde.Traits.{Writer, Serializer, ok, and_then}
use heterogeneous_network.Serde.Buffer.Writing.{WriterLaws, Encodes}
use heterogeneous_network.Serde.Buffer.Reading.{DecodesLast}
use heterogeneous_network.Serde.Serdeable.{Serdeable, Prints, RoundTrips, RoundTripsLast}
use heterogeneous_network.Serde.Combinators.{tuple_serializer}
use heterogeneous_network.Serde.Combinators.Sequence.{
  nil-Encodes, cons-Encodes, then-DecodesLast, map-DecodesLast,
}
use heterogeneous_network.Serde.Schema.{Schema, no_keys, key, object_serdeable}

module _ {W : Type 0} {w : Writer W} (laws : WriterLaws w) where
  -- The serializers of the keys write the bytes, one after the other.
  abbrev pub PrintsKeys : {A : Type 0} → Schema W A → A → List ℕ → Type 0
  PrintsKeys schema v bs =
      (zs : List (Serializer W)) × (schema.serializers v ≡ returned zs)
      × Encodes laws (tuple_serializer zs) bs

  -- The keys are written to the bytes, and read back from them where they are all that is left.
  abbrev pub KeysLast : {A : Type 0} → Schema W A → A → List ℕ → Type 0
  KeysLast schema v bs = PrintsKeys schema v bs × DecodesLast schema.deserialize bs v

  pub no_keys-PrintsKeys : PrintsKeys no_keys tt []
  unfolding no_keys
  no_keys-PrintsKeys = ([], refl, nil-Encodes laws)

  module _ {A B : Type 0} (s : Serdeable W A) (schema : Schema W B) (a : A) (b : B)
      (xs ys : List ℕ) where
    pub key-PrintsKeys :
        Prints laws s a xs → PrintsKeys schema b ys → PrintsKeys (key s schema) (a, b) (xs ++ ys)
    unfolding key
    key-PrintsKeys h k = (h.0 ∷ k.0, rw (h.1, k.1) refl, cons-Encodes laws h.0 k.0 xs ys h.2 k.2)

    pub key-KeysLast :
        RoundTrips laws s a xs → KeysLast schema b ys → KeysLast (key s schema) (a, b) (xs ++ ys)
    unfolding key
    key-KeysLast h k = (
      key-PrintsKeys h.0 k.0,
      then-DecodesLast s.deserializer
          (λ x r. and_then (schema.deserialize r) (λ q. ok ((x, q.0), q.1))) xs ys a (a, b) h.1
          (map-DecodesLast schema.deserialize (λ y. (a, y)) ys b k.1),
    )

  -- The last key may take all that is left.
  pub last_key-KeysLast :
      {A : Type 0} (s : Serdeable W A) (a : A) (xs : List ℕ)
      → RoundTripsLast laws s a xs
      → KeysLast (key s no_keys) (a, tt) (xs ++ [])
  unfolding key no_keys
  last_key-KeysLast s a xs h = (
    key-PrintsKeys s no_keys a tt xs [] h.0 no_keys-PrintsKeys,
    λ r st.
        let whole = append-nil xs in
        rw (h.1 r (st.0 ∙ whole, st.1)) (
          ap (λ n. ok ((a, tt), record r { offset = n }))
            (ap (λ (l : List ℕ). r.offset + length l) (sym whole))),
  )

  module _ {A B : Type 0} (schema : Schema W A) (make : A → B) (take : B → A) (v : B)
      (bs : List ℕ) where
    pub object-Prints :
        PrintsKeys schema (take v) bs → Prints laws (object_serdeable schema make take) v bs
    unfolding object_serdeable
    object-Prints h = (tuple_serializer h.0, rw h.1 refl, h.2)

    pub object-RoundTripsLast :
        make (take v) ≡ v
        → KeysLast schema (take v) bs
        → RoundTripsLast laws (object_serdeable schema make take) v bs
    unfolding object_serdeable
    object-RoundTripsLast e h = (object-Prints h.0, λ r st. rw (h.1 r st) (rw e refl))
