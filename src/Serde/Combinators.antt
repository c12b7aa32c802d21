-- ===== src/Serde/Combinators.antt =====
-- ts-core/src/serde: the serdeables that are built from others: tuple.ts, bytes.ts, array.ts,
-- vector.ts, optional.ts, variant.ts, transform.ts, constant.ts and empty.ts.
pub mod Sequence
pub mod Collections
pub mod Words
use heterogeneous_network.Base.{
  ℕ, zero, suc, ◌+◌, ◌-◌, Bool, true, false, List, [], ◌∷◌, Option, none, some, Throws, throw,
  length, get_elem?, if◌then◌else◌,
}
use heterogeneous_network.Base.{ok as returned, ◌>>=◌ as bind}
use heterogeneous_network.Serde.Traits.{
  Writer, Serializer, SerializeResult, ◌>>=◌, DeserializeResult, ok, err, thrown, invalid_value,
  transform_failed, and_then,
}
use heterogeneous_network.Serde.Buffer.{Read, read_bytes, read_remaining_bytes}
use heterogeneous_network.Serde.Serdeable.{Serdeable}
use heterogeneous_network.Serde.Primitives.{
  size8, uint_serializer, uint_deserialize, boolean_serializer, boolean_deserialize,
}

-- EmptySerializer
unfoldable pub empty_serializer : {W : Type 0} → Serializer W
empty_serializer = record { serialized_length = 0; serialize = ok }

unfoldable pub empty_serdeable : {W : Type 0} → Serdeable W Unit
unfolding empty_serializer
empty_serdeable = record {
  serializer = λ value. returned empty_serializer;
  deserializer = λ r. ok (tt, r);
}

unfoldable pub constant_serdeable : {W A : Type 0} → A → Serdeable W A
unfolding empty_serializer
constant_serdeable value = record {
  serializer = λ v. returned empty_serializer;
  deserializer = λ r. ok (value, r);
}

-- TupleSerializer
unfoldable pub tuple_length : {W : Type 0} → List (Serializer W) → ℕ
tuple_length [] = 0
tuple_length (s ∷ ss) = s.serialized_length + tuple_length ss

unfoldable pub tuple_serialize : {W : Type 0} → List (Serializer W) → W → SerializeResult W
tuple_serialize [] w = ok w
tuple_serialize (s ∷ ss) w = s.serialize w >>= tuple_serialize ss

unfoldable pub tuple_serializer : {W : Type 0} → List (Serializer W) → Serializer W
unfolding tuple_length tuple_serialize
tuple_serializer ss = record { serialized_length = tuple_length ss; serialize = tuple_serialize ss }

-- TupleSerdeable of two serdeables, and ObjectSerdeable of a schema with two keys.
unfoldable pub pair_serdeable :
    {W A B : Type 0} → Serdeable W A → Serdeable W B → Serdeable W (A × B)
unfolding tuple_serializer
pair_serdeable s t = record {
  serializer = λ v.
      bind (s.serializer v.0)
        (λ x. bind (t.serializer v.1) (λ y. returned (tuple_serializer (x ∷ y ∷ []))));
  deserializer = λ r.
      and_then (s.deserializer r) (λ p. and_then (t.deserializer p.1) (λ q. ok ((p.0, q.0), q.1)));
}

-- ObjectSerdeable of a schema with three keys, none of whose values is `undefined`.
unfoldable pub triple_serdeable :
    {W A B C : Type 0} → Serdeable W A → Serdeable W B → Serdeable W C → Serdeable W (A × B × C)
unfolding tuple_serializer
triple_serdeable s t u = record {
  serializer = λ v. bind (s.serializer v.0) (λ x.
      bind (t.serializer v.1)
        (λ y. bind (u.serializer v.2) (λ z. returned (tuple_serializer (x ∷ y ∷ z ∷ [])))));
  deserializer = λ r. and_then (s.deserializer r) (λ p.
      and_then (t.deserializer p.1)
        (λ q. and_then (u.deserializer q.1) (λ k. ok ((p.0, q.0, k.0), k.1))));
}

-- `transform` returns `undefined` where it fails.
unfoldable pub transform_serdeable :
    {W A B : Type 0} → Serdeable W A → (A → Option B) → (B → A) → Serdeable W B
transform_serdeable {A = A} {B = B} s transform transform_back = record {
  serializer = λ v. s.serializer (transform_back v);
  deserializer = λ r. and_then (s.deserializer r) (λ p. transformed (transform p.0) p.1);
}
  where
    transformed : {R : Type 0} → Option B → R → DeserializeResult (B × R)
    transformed none r = err transform_failed
    transformed (some b) r = ok (b, r)

-- The same, where `transform` throws what it does not take.
unfoldable pub throwing_transform_serdeable :
    {W A B : Type 0} → Serdeable W A → (A → Throws B) → (B → A) → Serdeable W B
throwing_transform_serdeable {B = B} s transform transform_back = record {
  serializer = λ v. s.serializer (transform_back v);
  deserializer = λ r. and_then (s.deserializer r) (λ p. transformed (transform p.0) p.1);
}
  where
    transformed : {R : Type 0} → Throws B → R → DeserializeResult (B × R)
    transformed throw r = thrown
    transformed (returned b) r = ok (b, r)

module _ {W : Type 0} (w : Writer W) where
  unfoldable pub fixed_bytes_serializer : List ℕ → Serializer W
  fixed_bytes_serializer bytes = record {
    serialized_length = length bytes;
    serialize = w.write_bytes bytes;
  }

  -- `new FixedBytesDeserializer().deserialize` throws, so a length is given.
  unfoldable pub fixed_bytes_serdeable : ℕ → Serdeable W (List ℕ)
  unfolding fixed_bytes_serializer
  fixed_bytes_serdeable n = record {
    serializer = λ bytes. returned (fixed_bytes_serializer bytes);
    deserializer = read_bytes n;
  }

  unfoldable pub remaining_bytes_serdeable : Serdeable W (List ℕ)
  unfolding fixed_bytes_serializer
  remaining_bytes_serdeable = record {
    serializer = λ bytes. returned (fixed_bytes_serializer bytes);
    deserializer = read_remaining_bytes;
  }

  unfoldable pub variable_bytes_serdeable : Serdeable W ℕ → Serdeable W (List ℕ)
  unfolding fixed_bytes_serializer tuple_serializer
  variable_bytes_serdeable length_serdeable = record {
    serializer = λ bytes.
        bind (length_serdeable.serializer (length bytes))
          (λ s. returned (tuple_serializer (s ∷ fixed_bytes_serializer bytes ∷ [])));
    deserializer = λ r. and_then (length_serdeable.deserializer r) (λ p. read_bytes p.0 p.1);
  }

  unfoldable pub optional_serdeable : {A : Type 0} → Serdeable W A → Serdeable W (Option A)
  unfolding tuple_serializer
  optional_serdeable {A = A} s = record {
    serializer = serializer;
    deserializer = λ r. and_then (boolean_deserialize r) (λ p. rest p.0 p.1);
  }
    where
      serializer : Option A → Throws (Serializer W)
      serializer none = returned (boolean_serializer w false)
      serializer (some a) =
          bind (s.serializer a)
            (λ z. returned (tuple_serializer (boolean_serializer w true ∷ z ∷ [])))

      rest : Bool → Read (Option A)
      rest true r = and_then (s.deserializer r) (λ p. ok (some p.0, p.1))
      rest false r = ok (none, r)

  -- ManualVariantSerdeable and VariantSerdeable: the id of a value, and the serdeable of an id.
  unfoldable pub variant_serdeable :
      {A : Type 0} → (A → ℕ) → (ℕ → Option (Serdeable W A)) → Serdeable W A
  unfolding tuple_serializer
  variant_serdeable {A = A} value_to_id id_to_serdeable = record {
    serializer = λ v. serializer (id_to_serdeable (value_to_id v)) v;
    deserializer = λ r. and_then (uint_deserialize size8 r) (λ p. body (id_to_serdeable p.0) p.1);
  }
    where
      serializer : Option (Serdeable W A) → A → Throws (Serializer W)
      serializer none v = throw
      serializer (some s) v =
          bind (s.serializer v)
            (λ z. returned (tuple_serializer (uint_serializer w size8 (value_to_id v) ∷ z ∷ [])))

      body : Option (Serdeable W A) → Read A
      body none r = err invalid_value
      body (some s) r = s.deserializer r

  -- `serdeables[index - 1]`, where the index 0 asks for the element -1.
  unfoldable pub indexed : {A : Type 0} → List (Serdeable W A) → ℕ → Option (Serdeable W A)
  indexed serdeables zero = none
  indexed serdeables (suc index) = get_elem? serdeables index

module _ {W A : Type 0} (s : Serdeable W A) where
  -- The serializers of the elements; ArraySerializer makes each of them anew.
  unfoldable pub array_serializers : List A → Throws (List (Serializer W))
  array_serializers [] = returned []
  array_serializers (v ∷ vs) =
      bind (s.serializer v) (λ z. bind (array_serializers vs) (λ zs. returned (z ∷ zs)))

  -- The loop of `ArrayDeserializer.deserialize`.
  unfoldable pub array_deserialize : ℕ → Read (List A)
  array_deserialize zero r = ok ([], r)
  array_deserialize (suc n) r =
      and_then (s.deserializer r)
        (λ p. and_then (array_deserialize n p.1) (λ q. ok (p.0 ∷ q.0, q.1)))

  unfoldable pub vector_serdeable : Serdeable W ℕ → Serdeable W (List A)
  unfolding array_serializers array_deserialize tuple_serializer
  vector_serdeable length_serdeable = record {
    serializer = λ vs. bind (length_serdeable.serializer (length vs)) (λ x.
        bind (array_serializers vs)
          (λ zs. returned (tuple_serializer (x ∷ tuple_serializer zs ∷ []))));
    deserializer = λ r. and_then (length_serdeable.deserializer r) (λ p. array_deserialize p.0 p.1);
  }
