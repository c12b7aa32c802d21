-- ===== src/Serde/Primitives.antt =====
-- ts-core/src/serde/primitives.ts: booleans and unsigned integers. The bit operations of
-- JavaScript work on the low 32 bits of a number; such a pattern is a number below 2 ^ 32 here, and
-- `to_number` is the signed number that JavaScript takes it for.
pub mod Bits
pub mod Uint
use Prim.Native.Nat.{◌^◌, bit_and, bit_or}
use heterogeneous_network.Base.{
  ℕ, zero, suc, ◌+◌, ◌-◌, ◌*◌, ◌/◌, ◌%◌, Bool, true, false, List, [], ◌∷◌, Throws, ltb, ◌==◌,
  if◌then◌else◌,
}
use heterogeneous_network.Base.{ok as returned}
use heterogeneous_network.Base.Int.{ℤ, pos, negsuc}
use heterogeneous_network.Serde.Traits.{
  Writer, Serializer, SerializeResult, DeserializeResult, ok, err, invalid_value, and_then,
}
use heterogeneous_network.Serde.Buffer.{Read, BufferReader, read_byte, read_bytes}
use heterogeneous_network.Serde.Serdeable.{Serdeable}

unfoldable pub boolean_deserialize : Read Bool
boolean_deserialize r = and_then (read_byte r) (λ p.
    if p.0 == 0 then ok (false, p.1) else if p.0 == 1 then ok (true, p.1) else err invalid_value)

-- A pattern of 32 bits, shifted: the count is taken modulo 32, and `>>` repeats the sign bit.
abbrev pub to_int32 : ℕ → ℕ
to_int32 n = n % 2 ^ 32

abbrev pub shift_left : ℕ → ℕ → ℕ
shift_left x k = to_int32 (to_int32 x * 2 ^ (k % 32))

abbrev pub shift_right : ℕ → ℕ → ℕ
shift_right x k =
    let p = to_int32 x in
    if ltb p (2 ^ 31) then p / 2 ^ (k % 32) else 2 ^ 32 - 1 - (2 ^ 32 - 1 - p) / 2 ^ (k % 32)

abbrev pub to_number : ℕ → ℤ
to_number p = if ltb p (2 ^ 31) then pos p else negsuc (2 ^ 32 - 1 - p)

pub data Size : Type 0 where
  size8 size16 size32 size64 : Size

-- `size / 8`
abbrev pub byte_count : Size → ℕ
byte_count size8 = 1
byte_count size16 = 2
byte_count size32 = 4
byte_count size64 = 8

-- `bytes.reduce((acc, byte, index) => acc | (byte << (index * 8)), 0)`
unfoldable pub reduce_bytes : ℕ → ℕ → List ℕ → ℕ
reduce_bytes acc index [] = acc
reduce_bytes acc index (byte ∷ bytes) =
    reduce_bytes (bit_or acc (shift_left byte (index * 8))) (index + 1) bytes

unfoldable pub uint_deserialize : Size → Read ℕ
unfolding reduce_bytes
uint_deserialize size r =
    and_then (read_bytes (byte_count size) r) (λ p. ok (reduce_bytes 0 0 p.0, p.1))

-- `Uint8Array.from({ length }, (_, index) => (value >> (index * 8)) & 0xff)`, from `index` on.
unfoldable pub bytes_from : ℕ → ℕ → ℕ → List ℕ
bytes_from value index zero = []
bytes_from value index (suc count) =
    bit_and (shift_right value (index * 8)) 0xff ∷ bytes_from value (index + 1) count

module _ {W : Type 0} (w : Writer W) where
  unfoldable pub boolean_serializer : Bool → Serializer W
  boolean_serializer value = record {
    serialized_length = 1;
    serialize = w.write_byte (if value then 1 else 0);
  }

  unfoldable pub boolean_serdeable : Serdeable W Bool
  unfolding boolean_serializer boolean_deserialize
  boolean_serdeable = record {
    serializer = λ value. returned (boolean_serializer value);
    deserializer = boolean_deserialize;
  }

  unfoldable pub uint_serializer : Size → ℕ → Serializer W
  unfolding bytes_from
  uint_serializer size value = record {
    serialized_length = byte_count size;
    serialize = w.write_bytes (bytes_from value 0 (byte_count size));
  }

  unfoldable pub uint_serdeable : Size → Serdeable W ℕ
  unfolding uint_serializer uint_deserialize
  uint_serdeable size = record {
    serializer = λ value. returned (uint_serializer size value);
    deserializer = uint_deserialize size;
  }
