-- ===== src/Trusted/Checksum/Verify.antt =====
-- What the checksum of a frame says to the receiver that adds it up again.
use Prim.Native.Nat.{bit_or}
use heterogeneous_network.Base.{
  ℕ, zero, suc, ◌+◌, ◌*◌, ◌/◌, ◌%◌, ◌^◌, ◌<◌, ◌≡◌, ◌↔◌, refl, sym, ap, ◌∙◌, true, false, List, [],
  ◌∷◌, none, some, All, Throws, ok, throw, arith, ltb, ◌>>=◌,
}
use heterogeneous_network.Serde.Buffer.Writing.{IsByte}
use heterogeneous_network.Serde.Primitives.{shift_left}
use heterogeneous_network.Serde.Primitives.Bits.{join_bytes}
use heterogeneous_network.Trusted.Checksum.{
  ChecksumWriter, new_writer, add_word, accumulate, write_byte, write_bytes, write_padding, folded,
  calculator_checksum, calculator_verify, checksum, verify,
}

-- The sum of the little-endian words of the bytes, the last one padded with 0.
unfoldable pub word_sum : List ℕ → ℕ
word_sum [] = 0
word_sum (a ∷ []) = a
word_sum (a ∷ b ∷ bytes) = a + b * 256 + word_sum bytes

add_word-small :
    (n sum : ℕ)
    → n < 65536
    → add_word (some n) (record { prev_byte = none; sum = sum })
      ≡ ok (record { prev_byte = none; sum = sum + n })
unfolding add_word
add_word-small zero sum h = ap (λ n. ok (record { prev_byte = none; sum = n })) (omega arith)
add_word-small (suc n) sum h = ground arith

join : (a b : ℕ) → a < 256 → b < 256 → bit_or a (shift_left b 8) ≡ a + b * 256
join a b h k =
    let p : (a + b * 256) % 256 ≡ a = omega (arith, h) in
    let q : (a + b * 256) / 256 ≡ b = omega (arith, h) in
    let s : shift_left b 8 ≡ b * 256 = omega (arith, k) in
    rw s (rw (p, q) at (join_bytes (a + b * 256) (omega (arith, h, k))))

write_first :
    (a sum : ℕ)
    → a < 256
    → write_byte a (record { prev_byte = none; sum = sum })
      ≡ ok (record { prev_byte = some a; sum = sum })
unfolding write_byte accumulate add_word
write_first a sum h = ground arith

write_second :
    (a b sum : ℕ)
    → a < 256
    → b < 256
    → write_byte b (record { prev_byte = some a; sum = sum })
      ≡ ok (record { prev_byte = none; sum = sum + (a + b * 256) })
unfolding write_byte accumulate
write_second a b sum h k =
    let small : ltb 0xff b ≡ false = ground arith in
    rw small (rw (join a b h k) (add_word-small (a + b * 256) sum (omega (arith, h, k))))

-- After bytes and the padding, the words of the bytes are added to the sum.
pub written :
    (bytes : List ℕ) (sum : ℕ)
    → All IsByte bytes
    → (write_bytes bytes (record { prev_byte = none; sum = sum }) >>= write_padding)
      ≡ ok (record { prev_byte = none; sum = sum + word_sum bytes })
unfolding write_bytes write_padding add_word word_sum
written [] sum h = ap (λ n. ok (record { prev_byte = none; sum = n })) (omega arith)
written (a ∷ []) sum h = rw (write_first a sum h.0) (add_word-small a sum (omega (arith, h.0)))
written (a ∷ b ∷ bytes) sum h =
    rw (write_first a sum h.0, write_second a b sum h.0 h.1.0)
      (written bytes (sum + (a + b * 256)) h.1.1
        ∙ ap (λ n. ok (record { prev_byte = none; sum = n })) (omega arith))

written_new :
    (bytes : List ℕ)
    → All IsByte bytes
    → (write_bytes bytes new_writer >>= write_padding)
      ≡ ok (record { prev_byte = none; sum = word_sum bytes })
written_new bytes h =
    written bytes 0 h ∙ ap (λ n. ok (record { prev_byte = none; sum = n })) (omega arith)

through :
    {B : Type 0} (m : Throws ChecksumWriter) (v : ChecksumWriter) (f : ChecksumWriter → B)
    → (m >>= write_padding) ≡ ok v
    → (m >>= (λ w. write_padding w >>= (λ u. ok (f u)))) ≡ ok (f v)
through (ok w) v f e = rw e refl
through throw v f e = cc

-- The checksum is that of the sum of the words.
pub checksum-calculated :
    (bytes : List ℕ)
    → All IsByte bytes
    → (write_bytes bytes new_writer >>= checksum) ≡ ok (calculator_checksum (word_sum bytes))
unfolding checksum
checksum-calculated bytes h =
    through (write_bytes bytes new_writer) _ (λ v. calculator_checksum v.sum) (written_new bytes h)

pub verify-word_sum :
    (bytes : List ℕ)
    → All IsByte bytes
    → (write_bytes bytes new_writer >>= verify) ≡ ok (calculator_verify (word_sum bytes))
unfolding verify
verify-word_sum bytes h =
    through (write_bytes bytes new_writer) _ (λ v. calculator_verify v.sum) (written_new bytes h)

calculator_checksum-complement :
    (n : ℕ)
    → n < 2 ^ 32
    → (calculator_checksum n < 65536)
      × ((calculator_checksum n + (n % 65536 + n / 65536)) % 65536 ≡ 65535)
      × ((calculator_checksum n + n) % 65535 ≡ (n % 65536 + n / 65536) / 65536)
unfolding calculator_checksum
calculator_checksum-complement n h = (omega arith, omega arith, omega (arith, h))

-- Of bytes whose little-endian words, where an odd last byte counts as a word, have a sum below
-- 2 ^ 32, ChecksumWriter computes without an exception a 16-bit number. With the two halves of the
-- sum it adds up to 65535, modulo 65536; with the sum itself it adds up to 0 modulo 65535, or to 1
-- where the halves add up to 65536 or more.
pub checksum-word_sum :
    (bytes : List ℕ)
    → All IsByte bytes
    → word_sum bytes < 2 ^ 32
    → (c : ℕ) × ((write_bytes bytes new_writer >>= checksum) ≡ ok c)
      × (c < 65536)
      × ((c + (word_sum bytes % 65536 + word_sum bytes / 65536)) % 65536 ≡ 65535)
      × ((c + word_sum bytes) % 65535 ≡ (word_sum bytes % 65536 + word_sum bytes / 65536) / 65536)
checksum-word_sum bytes h small =
    let (bound, complement, sum) = calculator_checksum-complement (word_sum bytes) small in
    (calculator_checksum (word_sum bytes), checksum-calculated bytes h, bound, complement, sum)

calculator-agrees :
    (n : ℕ)
    → n < 2 ^ 32
    → (calculator_verify (calculator_checksum n + n) ≡ true) ↔ (folded n < 65536)
unfolding calculator_verify calculator_checksum
calculator-agrees n h = ground arith

pub checksum-bound : (n : ℕ) → calculator_checksum n < 65536
unfolding calculator_checksum
checksum-bound n = omega arith

ok_inj : {A : Type 0} {a b : A} → ok a ≡ ok b → a ≡ b
ok_inj e = cc

-- The frame's checksum, of two bytes at its head, is computed while these are 0. The receiver
-- accepts the frame with the checksum in their place exactly when the sum of the frame's words,
-- a number below 2 ^ 32, needs one fold only: the lower half and the upper half of the sum add up
-- to less than 65536.
pub verify_iff :
    (c : ℕ) (frame : List ℕ)
    → All IsByte frame
    → word_sum frame < 2 ^ 32
    → (write_bytes (0 ∷ 0 ∷ frame) new_writer >>= checksum) ≡ ok c
    → ((write_bytes (c % 256 ∷ c / 256 ∷ frame) new_writer >>= verify) ≡ ok true)
      ↔ (folded (word_sum frame) < 65536)
unfolding word_sum
verify_iff c frame h small e =
    let zeros : All IsByte (0 ∷ 0 ∷ frame) = (omega arith, (omega arith, h)) in
    let same : ok (calculator_checksum (0 + 0 * 256 + word_sum frame)) ≡ ok c =
      sym (checksum-calculated (0 ∷ 0 ∷ frame) zeros) ∙ e in
    let is_c : calculator_checksum (word_sum frame) ≡ c =
      ap calculator_checksum (omega arith) ∙ ok_inj same in
    let word : c < 65536 = rw (sym is_c) (checksum-bound (word_sum frame)) in
    let bytes_c : All IsByte (c % 256 ∷ c / 256 ∷ frame) =
      (omega arith, (omega (arith, word), h)) in
    let split : c % 256 + c / 256 * 256 ≡ c = omega arith in
    let run : (write_bytes (c % 256 ∷ c / 256 ∷ frame) new_writer >>= verify)
        ≡ ok (calculator_verify (calculator_checksum (word_sum frame) + word_sum frame)) =
      verify-word_sum (c % 256 ∷ c / 256 ∷ frame) bytes_c
      ∙ ap (λ n. ok (calculator_verify (n + word_sum frame))) (split ∙ sym is_c) in
    let agrees = calculator-agrees (word_sum frame) small in
    rw run (λ k. agrees.0 (ok_inj k), λ k. ap ok (agrees.1 k))
