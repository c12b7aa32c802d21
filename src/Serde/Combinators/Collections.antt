-- ===== src/Serde/Combinators/Collections.antt =====
-- Vectors and byte strings of any length, behind their length, and optional values.
use heterogeneous_network.Base.{ℕ, ◌≡◌, refl, ap, List, [], ◌∷◌, ◌++◌, All, arith, length}
use heterogeneous_network.Base.{ok as returned}
use heterogeneous_network.Serde.Traits.{Writer, Serializer, ok, and_then}
use heterogeneous_network.Serde.Buffer.{read_bytes}
use heterogeneous_network.Serde.Buffer.Writing.{WriterLaws, Encodes}
use heterogeneous_network.Serde.Buffer.Reading.{Decodes, read_bytes-Decodes}
use heterogeneous_network.Serde.Serdeable.{Serdeable, RoundTrips}
use heterogeneous_network.Serde.Combinators.{
  tuple_serializer, fixed_bytes_serializer, variable_bytes_serdeable, array_serializers,
  array_deserialize, vector_serdeable,
}
use heterogeneous_network.Serde.Combinators.Sequence.{
  nil-Encodes, cons-Encodes, two_encode, then-Decodes, map-Decodes,
}

-- The bytes of the elements, one after the other.
pub join_all : {A : Type 0} → (A → List ℕ) → List A → List ℕ
join_all format [] = []
join_all format (v ∷ vs) = format v ++ join_all format vs

module _ {W : Type 0} {w : Writer W} (laws : WriterLaws w) where
  module _ {A : Type 0} (s : Serdeable W A) (format : A → List ℕ) where
    array-Encodes :
        (vs : List A)
        → All (λ v. RoundTrips laws s v (format v)) vs
        → (zs : List (Serializer W)) × (array_serializers s vs ≡ returned zs)
          × Encodes laws (tuple_serializer zs) (join_all format vs)
    unfolding array_serializers join_all
    array-Encodes [] h = ([], refl, nil-Encodes laws)
    array-Encodes (v ∷ vs) h =
        let rest = array-Encodes vs h.1 in
        let first = h.0.0 in
        (
          first.0 ∷ rest.0,
          rw (first.1, rest.1) refl,
          cons-Encodes laws first.0 rest.0 (format v) (join_all format vs) first.2 rest.2,
        )

    array-Decodes :
        (vs : List A)
        → All (λ v. RoundTrips laws s v (format v)) vs
        → Decodes (array_deserialize s (length vs)) (join_all format vs) vs
    unfolding array_deserialize join_all
    array-Decodes [] h = λ rest r st. ap (λ n. ok ([], record r { offset = n })) (omega arith)
    array-Decodes (v ∷ vs) h =
        then-Decodes s.deserializer
          (λ x r. and_then (array_deserialize s (length vs) r) (λ q. ok (x ∷ q.0, q.1))) (format v)
          (join_all format vs) v (v ∷ vs) h.0.1
          (map-Decodes (array_deserialize s (length vs)) (λ xs. v ∷ xs) (join_all format vs) vs
            (array-Decodes vs h.1))

    -- A vector whose length and whose elements are read back from their bytes is serialized to the
    -- bytes of its length and then those of its elements, and is read back from them, whatever
    -- bytes follow.
    pub vector-RoundTrips :
        (lengths : Serdeable W ℕ) (vs : List A) (length_bytes : List ℕ)
        → RoundTrips laws lengths (length vs) length_bytes
        → All (λ v. RoundTrips laws s v (format v)) vs
        → RoundTrips laws (vector_serdeable s lengths) vs (length_bytes ++ join_all format vs)
    unfolding vector_serdeable
    vector-RoundTrips lengths vs length_bytes k h =
        let z = array-Encodes vs h in
        (
          (
            tuple_serializer (k.0.0 ∷ tuple_serializer z.0 ∷ []),
            rw (k.0.1, z.1) refl,
            two_encode laws k.0.0 (tuple_serializer z.0) length_bytes (join_all format vs) k.0.2
                z.2,
          ),
          then-Decodes lengths.deserializer (array_deserialize s) length_bytes (join_all format vs)
              (length vs) vs k.1 (array-Decodes vs h),
        )

  -- The bytes of a byte string behind those of its length.
  pub variable_bytes-RoundTrips :
      (lengths : Serdeable W ℕ) (bs : List ℕ) (length_bytes : List ℕ)
      → RoundTrips laws lengths (length bs) length_bytes
      → RoundTrips laws (variable_bytes_serdeable w lengths) bs (length_bytes ++ bs)
  unfolding variable_bytes_serdeable fixed_bytes_serializer
  variable_bytes-RoundTrips lengths bs length_bytes k = (
    (
      tuple_serializer (k.0.0 ∷ fixed_bytes_serializer w bs ∷ []),
      rw k.0.1 refl,
      two_encode laws k.0.0 (fixed_bytes_serializer w bs) length_bytes bs k.0.2
          (refl, laws.transparent bs),
    ),
    then-Decodes lengths.deserializer (λ n. read_bytes n) length_bytes bs (length bs) bs k.1
        (read_bytes-Decodes bs),
  )
