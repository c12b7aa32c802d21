-- ===== src/Serde/Primitives/Bits.antt =====
-- Two bytes joined by `|` and taken apart by `>>` and `&`: the equations hold at each of the finitely
-- many words, which is a computation.
use Prim.Native.Nat.{bit_and, bit_or}
use heterogeneous_network.Base.{
  ℕ, zero, suc, ◌*◌, ◌/◌, ◌%◌, ◌<◌, ◌≡◌, refl, Bool, true, false, arith, ◌==◌, if◌then◌else◌,
}

-- The two functions agree at every number below the bound.
agree : (f g : ℕ → ℕ) → ℕ → Bool
agree f g zero = true
agree f g (suc bound) = if f bound == g bound then agree f g bound else false

equal_at : (f g : ℕ → ℕ) (word bound : ℕ) → word < bound → agree f g bound ≡ true → f word ≡ g word
unfolding agree
equal_at f g word zero below e = absurd (omega arith)
equal_at f g word (suc bound) below e = ground (arith, equal_at f g word bound)

module _ (word : ℕ) where
  pub join_bytes : word < 65536 → bit_or (word % 256) (word / 256 * 256) ≡ word
  unfolding agree
  join_bytes below = equal_at (λ n. bit_or (n % 256) (n / 256 * 256)) (λ n. n) word 65536 below refl

  pub low_byte : word < 65536 → bit_and word 0xff ≡ word % 256
  unfolding agree
  low_byte below = equal_at (λ n. bit_and n 0xff) (λ n. n % 256) word 65536 below refl

  pub zero-bit_or : word < 256 → bit_or 0 word ≡ word
  unfolding agree
  zero-bit_or below = equal_at (λ n. bit_or 0 n) (λ n. n) word 256 below refl
