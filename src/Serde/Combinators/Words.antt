-- ===== src/Serde/Combinators/Words.antt =====
-- Round trips of the classes that wrap a number of 16 bits, and of payloads.
use heterogeneous_network.Base.{
  ℕ, ◌/◌, ◌%◌, ◌<◌, refl, sym, ◌∙◌, List, [], ◌∷◌, All, some, arith, length,
}
use mathlib.Core.List.{append-nil}
use heterogeneous_network.Serde.Traits.{Writer}
use heterogeneous_network.Serde.Buffer.Writing.{WriterLaws, IsByte}
use heterogeneous_network.Serde.Buffer.Reading.{
  Decodes, DecodesLast, read_bytes-Decodes, read_remaining_bytes-DecodesLast,
}
use heterogeneous_network.Serde.Buffer.{Read}
use heterogeneous_network.Serde.Serdeable.{Serdeable, RoundTrips, RoundTripsLast}
use heterogeneous_network.Serde.Primitives.{size16, uint_serdeable}
use heterogeneous_network.Serde.Primitives.Uint.{uint16-RoundTrips}
use heterogeneous_network.Serde.Combinators.{
  fixed_bytes_serdeable, fixed_bytes_serializer, remaining_bytes_serdeable, transform_serdeable,
}
use heterogeneous_network.Serde.Combinators.Sequence.{transform-RoundTrips}

-- A 16-bit number, the low byte first.
abbrev pub word_bytes : ℕ → List ℕ
word_bytes n = n % 256 ∷ n / 256 ∷ []

pub word-IsByte : (n : ℕ) → n < 65536 → All IsByte (word_bytes n)
word-IsByte n h = (omega arith, (omega (arith, h), tt))

pub last-DecodesLast :
    {A : Type 0} (d : Read A) (v : A) (bs : List ℕ) → Decodes d bs v → DecodesLast d bs v
last-DecodesLast d v bs h r st = h [] r (st.0 ∙ sym (append-nil bs), st.1)

module _ {W : Type 0} {w : Writer W} (laws : WriterLaws w) where
  pub wrapped_word-RoundTrips :
      (n : ℕ)
      → n < 65536
      → RoundTrips laws
          (transform_serdeable (uint_serdeable w size16) (λ n. some n) (λ n. n))
          n
          (word_bytes n)
  wrapped_word-RoundTrips n h =
      transform-RoundTrips laws (uint_serdeable w size16) (λ n. some n) (λ n. n) n (word_bytes n)
        refl (uint16-RoundTrips laws n h)

  pub last-RoundTripsLast :
      {A : Type 0} (s : Serdeable W A) (v : A) (bs : List ℕ)
      → RoundTrips laws s v bs
      → RoundTripsLast laws s v bs
  last-RoundTripsLast s v bs h = (h.0, last-DecodesLast s.deserializer v bs h.1)

  pub payload-RoundTripsLast :
      (bs : List ℕ) → RoundTripsLast laws (remaining_bytes_serdeable w) bs bs
  unfolding remaining_bytes_serdeable fixed_bytes_serializer
  payload-RoundTripsLast bs = (
    (fixed_bytes_serializer w bs, refl, (refl, laws.transparent bs)),
    read_remaining_bytes-DecodesLast bs,
  )

  pub fixed_bytes-RoundTrips :
      (bs : List ℕ) → RoundTrips laws (fixed_bytes_serdeable w (length bs)) bs bs
  unfolding fixed_bytes_serdeable fixed_bytes_serializer
  fixed_bytes-RoundTrips bs =
      ((fixed_bytes_serializer w bs, refl, (refl, laws.transparent bs)), read_bytes-Decodes bs)
