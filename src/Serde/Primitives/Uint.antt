-- ===== src/Serde/Primitives/Uint.antt =====
-- The unsigned integers of 8 and 16 bits and the boolean, as the bytes that stand for them.
use heterogeneous_network.Base.{
  ◌∙◌, sym, ℕ, ◌+◌, ◌*◌, ◌/◌, ◌%◌, ◌^◌, ◌<◌, ◌≡◌, refl, Bool, true, false, List, [], ◌∷◌, arith,
  lt→ltb, if◌then◌else◌,
}
use heterogeneous_network.Serde.Traits.{Writer, SerializeResult, ◌>>=◌}
use heterogeneous_network.Serde.Buffer.Writing.{WriterLaws, Encodes, put_all}
use heterogeneous_network.Serde.Buffer.Reading.{Decodes, read_bytes-Decodes, read_byte-Decodes}
use heterogeneous_network.Serde.Serdeable.{Prints, RoundTrips}
use heterogeneous_network.Serde.Primitives.{
  size8, size16, shift_left, shift_right, reduce_bytes, uint_deserialize, bytes_from,
  boolean_deserialize, boolean_serializer, boolean_serdeable, uint_serializer, uint_serdeable,
}
use heterogeneous_network.Serde.Primitives.Bits.{join_bytes, low_byte, zero-bit_or}

shift_right-small : (v k : ℕ) → v < 65536 → shift_right v k ≡ v / 2 ^ (k % 32)
shift_right-small v k h =
    let p : v % 2 ^ 32 ≡ v = omega (arith, h) in
    rw p (rw (lt→ltb v (2 ^ 31) (omega (arith, h))) refl)

-- A byte keeps the low 8 bits of a number.
bytes_from-low : (v : ℕ) → v < 65536 → bytes_from v 0 1 ≡ v % 256 ∷ []
unfolding bytes_from
bytes_from-low v h =
    let p : shift_right v (0 * 8) ≡ v = shift_right-small v 0 h ∙ omega arith in
    rw p (rw (low_byte v h) refl)

bytes_from-8 : (v : ℕ) → v < 256 → bytes_from v 0 1 ≡ v ∷ []
bytes_from-8 v h =
    let q : v % 256 ≡ v = omega (arith, h) in rw q at (bytes_from-low v (omega (arith, h)))

bytes_from-16 : (v : ℕ) → v < 65536 → bytes_from v 0 2 ≡ v % 256 ∷ v / 256 ∷ []
unfolding bytes_from
bytes_from-16 v h =
    let p : shift_right v (0 * 8) ≡ v = shift_right-small v 0 h ∙ omega arith in
    let q : shift_right v ((0 + 1) * 8) ≡ v / 256 = shift_right-small v 8 h in
    let m : v / 256 % 256 ≡ v / 256 = omega (arith, h) in
    rw p (rw q (rw (low_byte v h, low_byte (v / 256) (omega (arith, h))) (rw m refl)))

reduce_bytes-8 : (v : ℕ) → v < 256 → reduce_bytes 0 0 (v ∷ []) ≡ v
unfolding reduce_bytes
reduce_bytes-8 v h = let p : shift_left v (0 * 8) ≡ v = omega (arith, h) in rw p (zero-bit_or v h)

reduce_bytes-16 : (v : ℕ) → v < 65536 → reduce_bytes 0 0 (v % 256 ∷ v / 256 ∷ []) ≡ v
unfolding reduce_bytes
reduce_bytes-16 v h =
    let p : shift_left (v % 256) (0 * 8) ≡ v % 256 = omega (arith, h) in
    let q : shift_left (v / 256) ((0 + 1) * 8) ≡ v / 256 * 256 = omega (arith, h) in
    rw p (rw q (rw (zero-bit_or (v % 256) (omega arith)) (join_bytes v h)))

ok_right : {W : Type 0} (m : SerializeResult W) → (m >>= SerializeResult.ok) ≡ m
ok_right (SerializeResult.ok w) = refl
ok_right SerializeResult.not_enough_space = refl

pub uint8-Decodes : (v : ℕ) → v < 256 → Decodes (uint_deserialize size8) (v ∷ []) v
unfolding uint_deserialize
uint8-Decodes v h rest r k =
    rw (read_bytes-Decodes (v ∷ []) rest r k) (rw (reduce_bytes-8 v h) refl)

module _ {W : Type 0} {w : Writer W} (laws : WriterLaws w) where
  pub boolean-RoundTrips :
      (b : Bool) → RoundTrips laws (boolean_serdeable w) b ((if b then 1 else 0) ∷ [])
  unfolding boolean_serdeable boolean_serializer boolean_deserialize put_all
  boolean-RoundTrips true = (
    (boolean_serializer w true, refl, (refl, λ x s. sym (ok_right (w.write_byte 1 x)))),
    λ rest r k. rw (read_byte-Decodes 1 rest r k) refl,
  )
  boolean-RoundTrips false = (
    (boolean_serializer w false, refl, (refl, λ x s. sym (ok_right (w.write_byte 0 x)))),
    λ rest r k. rw (read_byte-Decodes 0 rest r k) refl,
  )

  pub uint8-Encodes : (v : ℕ) → v < 256 → Encodes laws (uint_serializer w size8 v) (v ∷ [])
  unfolding uint_serializer
  uint8-Encodes v h = (refl, λ x s. rw (bytes_from-8 v h) (laws.transparent (v ∷ []) x s))

  pub low_byte-Prints : (v : ℕ) → v < 65536 → Prints laws (uint_serdeable w size8) v (v % 256 ∷ [])
  unfolding uint_serdeable uint_serializer
  low_byte-Prints v h = (
    uint_serializer w size8 v,
    refl,
    (refl, λ x s. rw (bytes_from-low v h) (laws.transparent (v % 256 ∷ []) x s)),
  )

  pub uint8-RoundTrips : (v : ℕ) → v < 256 → RoundTrips laws (uint_serdeable w size8) v (v ∷ [])
  unfolding uint_serdeable uint_serializer uint_deserialize
  uint8-RoundTrips v h = ((uint_serializer w size8 v, refl, uint8-Encodes v h), uint8-Decodes v h)

  -- The bytes of a 16-bit word, the low one first.
  pub uint16-RoundTrips :
      (v : ℕ) → v < 65536 → RoundTrips laws (uint_serdeable w size16) v (v % 256 ∷ v / 256 ∷ [])
  unfolding uint_serdeable uint_serializer uint_deserialize
  uint16-RoundTrips v h =
      let bs : List ℕ = v % 256 ∷ v / 256 ∷ [] in
      (
        (
          uint_serializer w size16 v,
          refl,
          (refl, λ x s. rw (bytes_from-16 v h) (laws.transparent bs x s)),
        ),
        λ rest r k. rw (read_bytes-Decodes bs rest r k) (rw (reduce_bytes-16 v h) refl),
      )
