-- ===== src/Trusted/Codec/RoundTrip.antt =====
-- Trusted frames and the bytes of their format.
use heterogeneous_network.Base.{
  ℕ, ◌<◌, ◌≡◌, refl, ap, ◌∙◌, List, [], ◌∷◌, ◌++◌, All, All-append, some, arith, length,
}
use heterogeneous_network.Base.{ok as returned}
use heterogeneous_network.Serde.Traits.{Writer, Serializer, ok}
use heterogeneous_network.Serde.Buffer.{BufferWriter, buffer_writer, serialize, bytes}
use heterogeneous_network.Serde.Buffer.Writing.{
  WriterLaws, buffer_laws, IsByte, serialize-bytes, put_all,
}
use heterogeneous_network.Serde.Serdeable.{Serdeable, RoundTrips, RoundTripsLast}
use heterogeneous_network.Serde.Combinators.{
  constant_serdeable, empty_serializer, remaining_bytes_serdeable, pair_serdeable, triple_serdeable,
  variant_serdeable, indexed,
}
use heterogeneous_network.Serde.Combinators.Sequence.{
  pair-RoundTripsLast, triple-RoundTripsLast, transform-RoundTripsLast, variant-RoundTripsLast,
  map-DecodesLast,
}
use heterogeneous_network.Serde.Combinators.Words.{
  word_bytes, wrapped_word-RoundTrips, last-RoundTripsLast, payload-RoundTripsLast, word-IsByte,
}
use heterogeneous_network.Trusted.Frame.{
  DataFrameBody, TrustedFrameBody, control, control_ack, data_body, data_ack_body, syn_body,
  fin_body, syn_ack_body, fin_ack_body, frame_type,
}
use heterogeneous_network.Trusted.Codec.{
  TrustedFrame, number_serdeable, data_frame_body_serdeable, body_as, body_serdeables,
  trusted_frame_serdeable,
}

-- The format of a body behind its type.
unfoldable pub content_bytes : TrustedFrameBody → List ℕ
content_bytes (control b) = []
content_bytes (control_ack b) = []
content_bytes (data_body b) =
    word_bytes b.sequence_number ++ (word_bytes b.acknowledgement_number ++ b.payload)
content_bytes (data_ack_body a) = word_bytes a

-- The checksum, the type of the body, and the body.
unfoldable pub frame_bytes : TrustedFrame → List ℕ
frame_bytes f = word_bytes f.checksum ++ (frame_type f.body ∷ content_bytes f.body)

-- The numbers of the body are 16-bit words, and its payload consists of bytes.
abbrev pub FitsBody : TrustedFrameBody → Type 0
FitsBody (control b) = Unit
FitsBody (control_ack b) = Unit
FitsBody (data_body b) =
    (b.sequence_number < 65536) × (b.acknowledgement_number < 65536) × All IsByte b.payload
FitsBody (data_ack_body a) = a < 65536

module _ {W : Type 0} {w : Writer W} (laws : WriterLaws w) where
  number-RoundTrips : (n : ℕ) → n < 65536 → RoundTrips laws (number_serdeable w) n (word_bytes n)
  unfolding number_serdeable
  number-RoundTrips n h = wrapped_word-RoundTrips laws n h

  constant-RoundTripsLast : {A : Type 0} (v : A) → RoundTripsLast laws (constant_serdeable v) v []
  unfolding constant_serdeable empty_serializer put_all
  constant-RoundTripsLast v = (
    (empty_serializer, refl, (refl, λ x s. refl)),
    λ r st. ap (λ n. ok (v, record r { offset = n })) (omega arith),
  )

  data-RoundTripsLast :
      (b : DataFrameBody) (fits : FitsBody (data_body b))
      → RoundTripsLast laws (data_frame_body_serdeable w) b (content_bytes (data_body b))
  unfolding data_frame_body_serdeable content_bytes
  data-RoundTripsLast b fits =
      let word = number_serdeable w in
      transform-RoundTripsLast laws (triple_serdeable word word (remaining_bytes_serdeable w)) _ _ b
        (content_bytes (data_body b)) refl
        (triple-RoundTripsLast laws word word (remaining_bytes_serdeable w) b.sequence_number
          b.acknowledgement_number b.payload (word_bytes b.sequence_number)
          (word_bytes b.acknowledgement_number) b.payload
          (number-RoundTrips b.sequence_number fits.0)
          (number-RoundTrips b.acknowledgement_number fits.1)
          (payload-RoundTripsLast laws b.payload))

  -- The serdeable that the type of a body selects takes it through its bytes.
  content-RoundTripsLast :
      (b : TrustedFrameBody) (fits : FitsBody b)
      → (s : Serdeable W TrustedFrameBody) × (indexed w (body_serdeables w) (frame_type b) ≡ some s)
        × RoundTripsLast laws s b (content_bytes b)
  unfolding indexed body_serdeables frame_type content_bytes body_as data_frame_body_serdeable
  content-RoundTripsLast (control syn_body) fits =
      (_, refl, constant-RoundTripsLast (control syn_body))
  content-RoundTripsLast (control_ack syn_ack_body) fits =
      (_, refl, constant-RoundTripsLast (control_ack syn_ack_body))
  content-RoundTripsLast (control fin_body) fits =
      (_, refl, constant-RoundTripsLast (control fin_body))
  content-RoundTripsLast (control_ack fin_ack_body) fits =
      (_, refl, constant-RoundTripsLast (control_ack fin_ack_body))
  content-RoundTripsLast (data_body b) fits =
      let h = data-RoundTripsLast b fits in
      (
        _,
        refl,
        (
          h.0,
          map-DecodesLast (data_frame_body_serdeable w).deserializer (λ x. data_body x)
              (content_bytes (data_body b)) b h.1,
        ),
      )
  content-RoundTripsLast (data_ack_body a) fits =
      let h =
        last-RoundTripsLast laws (number_serdeable w) a (word_bytes a) (number-RoundTrips a fits) in
      (
        _,
        refl,
        (
          h.0,
          map-DecodesLast (number_serdeable w).deserializer (λ x. data_ack_body x) (word_bytes a) a
              h.1,
        ),
      )

  frame_type-small : (b : TrustedFrameBody) → frame_type b < 256
  unfolding frame_type
  frame_type-small (control syn_body) = omega arith
  frame_type-small (control fin_body) = omega arith
  frame_type-small (control_ack syn_ack_body) = omega arith
  frame_type-small (control_ack fin_ack_body) = omega arith
  frame_type-small (data_body b) = omega arith
  frame_type-small (data_ack_body a) = omega arith

  pub frame-RoundTripsLast :
      (f : TrustedFrame)
      → f.checksum < 65536
      → FitsBody f.body
      → RoundTripsLast laws (trusted_frame_serdeable w) f (frame_bytes f)
  unfolding trusted_frame_serdeable frame_bytes
  frame-RoundTripsLast f h fits =
      let content = content-RoundTripsLast f.body fits in
      let body_serdeable = variant_serdeable w frame_type (indexed w (body_serdeables w)) in
      let tagged = frame_type f.body ∷ content_bytes f.body in
      transform-RoundTripsLast laws (pair_serdeable (number_serdeable w) body_serdeable) _ _ f
        (word_bytes f.checksum ++ tagged) refl
        (pair-RoundTripsLast laws (number_serdeable w) body_serdeable f.checksum f.body
          (word_bytes f.checksum) tagged (number-RoundTrips f.checksum h)
          (variant-RoundTripsLast laws frame_type (indexed w (body_serdeables w)) content.0 f.body
            (content_bytes f.body) content.1 (frame_type-small f.body) content.2))

content-IsByte : (b : TrustedFrameBody) → FitsBody b → All IsByte (content_bytes b)
unfolding content_bytes
content-IsByte (control b) fits = tt
content-IsByte (control_ack b) fits = tt
content-IsByte (data_body b) fits =
    All-append IsByte (word_bytes b.sequence_number)
      (word_bytes b.acknowledgement_number ++ b.payload) (word-IsByte b.sequence_number fits.0)
      (All-append IsByte (word_bytes b.acknowledgement_number) b.payload
        (word-IsByte b.acknowledgement_number fits.1) fits.2)
content-IsByte (data_ack_body a) fits = word-IsByte a fits

pub frame-IsByte :
    (f : TrustedFrame) → f.checksum < 65536 → FitsBody f.body → All IsByte (frame_bytes f)
unfolding frame_bytes
frame-IsByte f h fits =
    All-append IsByte (word_bytes f.checksum) (frame_type f.body ∷ content_bytes f.body)
      (word-IsByte f.checksum h) (frame_type-small buffer_laws f.body, content-IsByte f.body fits)

-- `BufferWriter.serialize` gives the bytes of the frame, and a reader of these bytes deserializes
-- them to the frame and is left at their end.
abbrev pub IsReadBack : TrustedFrame → Type 0
IsReadBack f =
    let bs = frame_bytes f in
    let serdeable = trusted_frame_serdeable buffer_writer in
    (z : Serializer BufferWriter) × (serdeable.serializer f ≡ returned z)
    × (serialize z ≡ bytes (returned bs))
    × (serdeable.deserializer (record { buffer = bs; offset = 0 })
        ≡ ok (f, record { buffer = bs; offset = length bs }))

-- A frame whose checksum and numbers are below 65536 and whose payload consists of bytes is
-- serialized by `BufferWriter.serialize` to exactly the bytes of the frame format, and a reader of
-- these bytes deserializes them to the same frame and is left at their end.
pub frame_roundtrip : (f : TrustedFrame) → f.checksum < 65536 → FitsBody f.body → IsReadBack f
frame_roundtrip f h fits =
    let t = frame-RoundTripsLast buffer_laws f h fits in
    (
      t.0.0,
      t.0.1,
      serialize-bytes t.0.0 (frame_bytes f) t.0.2 (frame-IsByte f h fits),
      t.1 (record { buffer = frame_bytes f; offset = 0 }) (refl, omega arith)
          ∙ ap (λ n. ok (f, record { buffer = frame_bytes f; offset = n })) (omega arith),
    )
