-- ===== src/Serde/Traits.antt =====
-- ts-core/src/serde/traits.ts: the interfaces of writers, serializers and deserializers. A writer
-- or a reader is passed along as a state; after an error no caller looks at it again.
use heterogeneous_network.Base.{ℕ, List}

-- `Result<void, SerializeError>`, with the writer after a success.
pub data SerializeResult (W : Type 0) : Type 0 where
  ok : W → SerializeResult W
  not_enough_space : SerializeResult W

infixl 5 ◌>>=◌
abbrev pub ◌>>=◌ : {W X : Type 0} → SerializeResult W → (W → SerializeResult X) → SerializeResult X
ok w >>= f = f w
not_enough_space >>= f = not_enough_space

pub data DeserializeError : Type 0 where
  not_enough_bytes invalid_value transform_failed : DeserializeError

pub data DeserializeResult (A : Type 0) : Type 0 where
  ok : A → DeserializeResult A
  err : DeserializeError → DeserializeResult A
  -- The exception that a constructor throws on what was read.
  thrown : DeserializeResult A

abbrev pub and_then :
    {A B : Type 0} → DeserializeResult A → (A → DeserializeResult B) → DeserializeResult B
and_then (ok a) f = f a
and_then (err e) f = err e
and_then thrown f = thrown

pub record Writer (W : Type 0) : Type 0 where
  pub write_byte : ℕ → W → SerializeResult W
  pub write_bytes : List ℕ → W → SerializeResult W

pub record Serializer (W : Type 0) : Type 0 where
  pub serialized_length : ℕ
  pub serialize : W → SerializeResult W
