-- ===== src/Trusted/Codec.antt =====
-- The serdeables of net/trusted/frame.ts, checksum.ts and sequenceNumber.ts (ts-core/src).
pub mod RoundTrip
use heterogeneous_network.Base.{ℕ, List, [], ◌∷◌, Option, none, some, Throws, throw}
use heterogeneous_network.Serde.Traits.{Writer, Serializer, and_then, ok}
use heterogeneous_network.Serde.Serdeable.{Serdeable}
use heterogeneous_network.Serde.Primitives.{size16, uint_serdeable}
use heterogeneous_network.Serde.Combinators.{
  constant_serdeable, remaining_bytes_serdeable, pair_serdeable, triple_serdeable,
  transform_serdeable, variant_serdeable, indexed,
}
use heterogeneous_network.Trusted.Frame.{
  Payload, DataFrameBody, TrustedFrameBody, control, control_ack, data_body, data_ack_body,
  syn_body, fin_body, syn_ack_body, fin_ack_body, frame_type,
}

pub record TrustedFrame : Type 0 where
  pub checksum : ℕ
  pub body : TrustedFrameBody

abbrev to_data_body : ℕ × ℕ × Payload → DataFrameBody
to_data_body p = record { sequence_number = p.0; acknowledgement_number = p.1; payload = p.2 }

abbrev to_frame : ℕ × TrustedFrameBody → TrustedFrame
to_frame p = record { checksum = p.0; body = p.1 }

abbrev as_data : TrustedFrameBody → Option DataFrameBody
as_data (data_body b) = some b
as_data _ = none

abbrev as_data_ack : TrustedFrameBody → Option ℕ
as_data_ack (data_ack_body a) = some a
as_data_ack _ = none

module _ {W : Type 0} (w : Writer W) where
  -- The serdeable of SequenceNumber, AcknowledgementNumber and Checksum: a wrapped number.
  unfoldable pub number_serdeable : Serdeable W ℕ
  number_serdeable = transform_serdeable (uint_serdeable w size16) (λ n. some n) (λ n. n)

  unfoldable pub data_frame_body_serdeable : Serdeable W DataFrameBody
  unfolding number_serdeable
  data_frame_body_serdeable =
      transform_serdeable
        (triple_serdeable number_serdeable number_serdeable (remaining_bytes_serdeable w))
        (λ p. some (to_data_body p)) (λ b. (b.sequence_number, b.acknowledgement_number, b.payload))

  -- The serdeable of one class among the bodies: it is asked for values of its class only.
  unfoldable pub body_as :
      {A : Type 0}
      → Serdeable W A
      → (A → TrustedFrameBody)
      → (TrustedFrameBody → Option A)
      → Serdeable W TrustedFrameBody
  body_as {A = A} s put get = record {
    serializer = λ b. serializer (get b);
    deserializer = λ r. and_then (s.deserializer r) (λ p. ok (put p.0, p.1));
  }
    where
      serializer : Option A → Throws (Serializer W)
      serializer none = throw
      serializer (some a) = s.serializer a

  -- The list that `TrustedFrame.serdeable` gives to its VariantSerdeable.
  unfoldable pub body_serdeables : List (Serdeable W TrustedFrameBody)
  unfolding data_frame_body_serdeable body_as
  body_serdeables =
      constant_serdeable (control syn_body)
      ∷ constant_serdeable (control_ack syn_ack_body)
      ∷ constant_serdeable (control fin_body)
      ∷ constant_serdeable (control_ack fin_ack_body)
      ∷ body_as data_frame_body_serdeable data_body as_data
      ∷ body_as number_serdeable data_ack_body as_data_ack
      ∷ []

  unfoldable pub trusted_frame_serdeable : Serdeable W TrustedFrame
  unfolding number_serdeable body_serdeables frame_type
  trusted_frame_serdeable =
      transform_serdeable
        (pair_serdeable number_serdeable
          (variant_serdeable w frame_type (indexed w body_serdeables)))
        (λ p. some (to_frame p)) (λ f. (f.checksum, f.body))
