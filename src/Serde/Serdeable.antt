-- ===== src/Serde/Serdeable.antt =====
-- interface Serdeable (ts-core/src/serde/traits.ts): a serializer for each value, and a
-- deserializer. `serializer` is code that may throw.
use heterogeneous_network.Base.{ℕ, ◌≡◌, List, Throws, ok}
use heterogeneous_network.Serde.Traits.{Writer, Serializer}
use heterogeneous_network.Serde.Buffer.{Read}
use heterogeneous_network.Serde.Buffer.Writing.{WriterLaws, Encodes}
use heterogeneous_network.Serde.Buffer.Reading.{Decodes, DecodesLast}

pub record Serdeable (W A : Type 0) : Type 0 where
  pub serializer : A → Throws (Serializer W)
  pub deserializer : Read A

module _ {W A : Type 0} {w : Writer W} (laws : WriterLaws w) (s : Serdeable W A) where
  -- The value is serialized to the bytes.
  abbrev pub Prints : A → List ℕ → Type 0
  Prints v bs = (z : Serializer W) × (s.serializer v ≡ ok z) × Encodes laws z bs

  -- The value is serialized to the bytes, and read back from them whatever follows.
  abbrev pub RoundTrips : A → List ℕ → Type 0
  RoundTrips v bs = Prints v bs × Decodes s.deserializer bs v

  -- The same, for a value that takes all that is left of the buffer.
  abbrev pub RoundTripsLast : A → List ℕ → Type 0
  RoundTripsLast v bs = Prints v bs × DecodesLast s.deserializer bs v
