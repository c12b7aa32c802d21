-- ===== src/Stream/Frame.antt =====
-- ts-core/src/net/stream/frame.ts: StreamFrame. The data of a frame are its payload.
use heterogeneous_network.Base.{
  ℕ, ◌≡◌, refl, ap, Bool, false, List, [], ◌∷◌, ◌++◌, Throws, if◌then◌else◌,
}
use heterogeneous_network.Base.{ok as returned, ◌>>=◌ as bind}
use heterogeneous_network.Serde.Traits.{Writer}
use heterogeneous_network.Serde.Buffer.{buffer_writer}
use heterogeneous_network.Serde.Buffer.Writing.{WriterLaws, buffer_laws}
use heterogeneous_network.Serde.Serdeable.{Serdeable, RoundTripsLast}
use heterogeneous_network.Serde.Primitives.{boolean_serdeable}
use heterogeneous_network.Serde.Primitives.Uint.{boolean-RoundTrips}
use heterogeneous_network.Serde.Combinators.{remaining_bytes_serdeable}
use heterogeneous_network.Serde.Combinators.Words.{payload-RoundTripsLast}
use heterogeneous_network.Serde.Schema.{Schema, no_keys, key, object_serdeable}
use heterogeneous_network.Serde.Schema.RoundTrip.{
  key-KeysLast, last_key-KeysLast, object-RoundTripsLast,
}

pub record StreamFrame : Type 0 where
  pub fin : Bool
  pub payload : List ℕ

abbrev make : Bool × (List ℕ × Unit {0}) → StreamFrame
make p = record { fin = p.0; payload = p.1.0 }

abbrev parts : StreamFrame → Bool × (List ℕ × Unit {0})
parts f = (f.fin, (f.payload, tt))

module _ {W : Type 0} (w : Writer W) where
  abbrev stream_schema : Schema W (Bool × (List ℕ × Unit {0}))
  stream_schema = key (boolean_serdeable w) (key (remaining_bytes_serdeable w) no_keys)

  unfoldable pub stream_frame_serdeable : Serdeable W StreamFrame
  unfolding object_serdeable key no_keys
  stream_frame_serdeable = object_serdeable stream_schema make parts

-- `StreamFrame.headerLength`
unfoldable pub header_length : Throws ℕ
unfolding stream_frame_serdeable
header_length =
    bind ((stream_frame_serdeable buffer_writer).serializer (record { fin = false; payload = [] }))
      (λ z. returned z.serialized_length)

-- The flag, and the data, which take the rest.
abbrev pub stream_bytes : StreamFrame → List ℕ
stream_bytes f = ((if f.fin then 1 else 0) ∷ []) ++ (f.payload ++ [])

pub stream_frame-RoundTripsLast :
    {W : Type 0} {w : Writer W} (laws : WriterLaws w) (f : StreamFrame)
    → RoundTripsLast laws (stream_frame_serdeable w) f (stream_bytes f)
unfolding stream_frame_serdeable
stream_frame-RoundTripsLast {w = w} laws f =
    let rest = remaining_bytes_serdeable w in
    object-RoundTripsLast laws (stream_schema w) make parts f (stream_bytes f) refl (
      key-KeysLast laws (boolean_serdeable w) (key rest no_keys) f.fin _
        ((if f.fin then 1 else 0) ∷ []) _ (boolean-RoundTrips laws f.fin)
        (last_key-KeysLast laws rest f.payload f.payload (payload-RoundTripsLast laws f.payload)))

pub header_length_lem : header_length ≡ returned 1
unfolding header_length
header_length_lem =
    let print =
      (stream_frame-RoundTripsLast buffer_laws (record { fin = false; payload = [] })).0 in
    rw print.1 (ap (λ n. returned n) print.2.0)
