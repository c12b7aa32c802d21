-- ===== src/Serde/Buffer.antt =====
-- ts-core/src/net/buffer.ts: BufferWriter and BufferReader. A Uint8Array is the list of its bytes.
pub mod Writing
pub mod Reading
use heterogeneous_network.Base.{
  ℕ, ◌+◌, ◌-◌, ◌%◌, Bool, List, [], ◌∷◌, Throws, throw, leb, ◌==◌, if◌then◌else◌, length, set, take,
  drop, get_or, replicate,
}
use heterogeneous_network.Base.{ok as returned}
use heterogeneous_network.Serde.Traits.{
  SerializeResult, ok, not_enough_space, Writer, Serializer, DeserializeResult, err,
  not_enough_bytes,
}
use Prim.Native.Nat.{min}

pub record BufferWriter : Type 0 where
  pub buffer : List ℕ
  pub offset : ℕ

-- `buffer.set(bytes, offset)`: an element of a Uint8Array keeps the low 8 bits.
unfoldable pub set_bytes : List ℕ → ℕ → List ℕ → List ℕ
set_bytes buffer offset [] = buffer
set_bytes buffer offset (b ∷ bs) = set_bytes (set buffer offset (b % 256)) (offset + 1) bs

unfoldable pub write_byte : ℕ → BufferWriter → SerializeResult BufferWriter
write_byte byte w =
    if leb (w.offset + 1) (length w.buffer)
    then ok (record { buffer = set w.buffer w.offset (byte % 256); offset = w.offset + 1 })
    else not_enough_space

unfoldable pub write_bytes : List ℕ → BufferWriter → SerializeResult BufferWriter
unfolding set_bytes
write_bytes bytes w =
    if leb (w.offset + length bytes) (length w.buffer)
    then ok
        (record { buffer = set_bytes w.buffer w.offset bytes; offset = w.offset + length bytes })
    else not_enough_space

abbrev pub buffer_writer : Writer BufferWriter
buffer_writer = record { write_byte = write_byte; write_bytes = write_bytes }

unfoldable pub unwrap_buffer : BufferWriter → Throws (List ℕ)
unwrap_buffer w = if w.offset == length w.buffer then returned w.buffer else throw

-- The `Result` of `serialize`, whose success calls `unwrapBuffer`.
pub data Serialized : Type 0 where
  bytes : Throws (List ℕ) → Serialized
  error : Serialized

abbrev unwrap_result : SerializeResult BufferWriter → Serialized
unwrap_result (ok w) = bytes (unwrap_buffer w)
unwrap_result not_enough_space = error

-- `BufferWriter.serialize`
unfoldable pub serialize : Serializer BufferWriter → Serialized
unfolding unwrap_buffer
serialize s =
    unwrap_result (s.serialize (record { buffer = replicate s.serialized_length 0; offset = 0 }))

pub record BufferReader : Type 0 where
  pub buffer : List ℕ
  pub offset : ℕ

abbrev pub Read : Type 0 → Type 0
Read A = BufferReader → DeserializeResult (A × BufferReader)

unfoldable pub read_byte : Read ℕ
read_byte r =
    if leb (r.offset + 1) (length r.buffer)
    then ok (get_or r.buffer r.offset 0, record r { offset = r.offset + 1 })
    else err not_enough_bytes

-- `subarray(offset, offset + length)`
unfoldable pub read_bytes : ℕ → Read (List ℕ)
read_bytes n r =
    if leb (r.offset + n) (length r.buffer)
    then ok (take n (drop r.offset r.buffer), record r { offset = r.offset + n })
    else err not_enough_bytes

unfoldable pub read_remaining : BufferReader → List ℕ × BufferReader
read_remaining r = (drop r.offset r.buffer, record r { offset = length r.buffer })

unfoldable pub read_remaining_bytes : Read (List ℕ)
unfolding read_remaining
read_remaining_bytes r = ok (read_remaining r)

unfoldable pub remaining_length : BufferReader → ℕ
remaining_length r = length r.buffer - r.offset

-- `readBytesMax`, with the `unwrap` of its read.
unfoldable pub read_bytes_max : ℕ → Read (List ℕ)
unfolding remaining_length read_bytes
read_bytes_max max_length r = read_bytes (min max_length (remaining_length r)) r

unfoldable pub initialized : BufferReader → BufferReader
initialized r = record { buffer = r.buffer; offset = 0 }

unfoldable pub sub_reader : BufferReader → BufferReader
sub_reader r = record { buffer = drop r.offset r.buffer; offset = 0 }
