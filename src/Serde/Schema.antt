-- ===== src/Serde/Schema.antt =====
-- ts-core/src/serde/object.ts: ObjectSerdeable, for a schema of any number of keys. Its values are
-- the nested pairs of the values of the keys, which end with `tt`.
pub mod RoundTrip
use heterogeneous_network.Base.{List, [], ◌∷◌, Throws}
use heterogeneous_network.Base.{ok as returned, ◌>>=◌ as bind}
use heterogeneous_network.Serde.Traits.{Serializer, ok, and_then}
use heterogeneous_network.Serde.Buffer.{Read}
use heterogeneous_network.Serde.Serdeable.{Serdeable}
use heterogeneous_network.Serde.Combinators.{tuple_serializer}

pub record Schema (W A : Type 0) : Type 0 where
  -- The serializers of the keys, in their order.
  pub serializers : A → Throws (List (Serializer W))
  -- The loop of `ObjectDeserializer.deserialize`.
  pub deserialize : Read A

unfoldable pub no_keys : {W : Type 0} → Schema W Unit
no_keys = record { serializers = λ v. returned []; deserialize = λ r. ok (tt, r) }

unfoldable pub key : {W A B : Type 0} → Serdeable W A → Schema W B → Schema W (A × B)
key s rest = record {
  serializers =
      λ v. bind (s.serializer v.0) (λ z. bind (rest.serializers v.1) (λ zs. returned (z ∷ zs)));
  deserialize = λ r.
      and_then (s.deserializer r)
        (λ p. and_then (rest.deserialize p.1) (λ q. ok ((p.0, q.0), q.1)));
}

-- ObjectSerdeable and TupleSerdeable: ObjectSerializer does what TupleSerializer does. The object
-- is made of the values of the keys by `make`, and taken apart by `take`.
unfoldable pub object_serdeable : {W A B : Type 0} → Schema W A → (A → B) → (B → A) → Serdeable W B
unfolding tuple_serializer
object_serdeable schema make take = record {
  serializer = λ v. bind (schema.serializers (take v)) (λ zs. returned (tuple_serializer zs));
  deserializer = λ r. and_then (schema.deserialize r) (λ p. ok (make p.0, p.1));
}
