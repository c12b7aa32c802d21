-- ===== src/Trusted/Checksum.antt =====
-- ts-core/src/net/trusted/checksum.ts: WordAccumulator, ChecksumCalculator and ChecksumWriter. The
-- sum is a `bigint`, which has no bound.
pub mod Verify
use Prim.Native.Nat.{bit_or}
use heterogeneous_network.Base.{
  ℕ, zero, suc, ◌+◌, ◌-◌, ◌/◌, ◌%◌, Bool, List, [], ◌∷◌, Option, none, some, Throws, ok, throw, ltb,
  ◌==◌, ◌>>=◌, if◌then◌else◌,
}
use heterogeneous_network.Serde.Primitives.{shift_left}

pub record ChecksumWriter : Type 0 where
  -- `#prevByte` of the WordAccumulator and `#sum` of the ChecksumCalculator.
  pub prev_byte : Option ℕ
  pub sum : ℕ

abbrev pub new_writer : ChecksumWriter
new_writer = record { prev_byte = none; sum = 0 }

-- `word && this.#calculator.write(word)`: neither `undefined` nor 0 is added.
unfoldable pub add_word : Option ℕ → ChecksumWriter → Throws ChecksumWriter
add_word none w = ok w
add_word (some zero) w = ok w
add_word (some (suc n)) w =
    if ltb 0xffff (suc n) then throw else ok (record w { sum = w.sum + suc n })

-- `WordAccumulator.write`: the word that the byte completes, and the byte kept.
unfoldable pub accumulate : ℕ → Option ℕ → Throws (Option ℕ × Option ℕ)
accumulate byte none = if ltb 0xff byte then throw else ok (none, some byte)
accumulate byte (some prev) =
    if ltb 0xff byte then throw else ok (some (bit_or prev (shift_left byte 8)), none)

-- `ChecksumWriter.writeByte`, whose Result is always Ok.
unfoldable pub write_byte : ℕ → ChecksumWriter → Throws ChecksumWriter
unfolding accumulate add_word
write_byte byte w =
    accumulate byte w.prev_byte >>= (λ p. add_word p.0 (record w { prev_byte = p.1 }))

unfoldable pub write_bytes : List ℕ → ChecksumWriter → Throws ChecksumWriter
unfolding write_byte
write_bytes [] w = ok w
write_bytes (byte ∷ bytes) w = write_byte byte w >>= write_bytes bytes

-- `#writePadding`
unfoldable pub write_padding : ChecksumWriter → Throws ChecksumWriter
unfolding add_word
write_padding w = add_word w.prev_byte (record w { prev_byte = none })

-- `sumBits(sum) + overflowCount(sum)`
abbrev pub folded : ℕ → ℕ
folded sum = sum % 65536 + sum / 65536

-- `~folded & 0xffffn`
unfoldable pub calculator_checksum : ℕ → ℕ
calculator_checksum sum = 65535 - folded sum % 65536

unfoldable pub calculator_verify : ℕ → Bool
calculator_verify sum = (folded sum % 65536) == 65535

unfoldable pub checksum : ChecksumWriter → Throws ℕ
unfolding write_padding calculator_checksum
checksum w = write_padding w >>= (λ v. ok (calculator_checksum v.sum))

unfoldable pub verify : ChecksumWriter → Throws Bool
unfolding write_padding calculator_verify
verify w = write_padding w >>= (λ v. ok (calculator_verify v.sum))
