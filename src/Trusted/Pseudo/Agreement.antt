-- ===== src/Trusted/Pseudo/Agreement.antt =====
-- What the receiver says of a frame that the sender created.
use heterogeneous_network.Base.{
  ℕ, ◌+◌, ◌*◌, ◌%◌, ◌/◌, ◌^◌, ◌<◌, ◌≤◌, ◌≡◌, ◌↔◌, refl, ap, ◌∙◌, true, List, [], ◌∷◌, ◌++◌, All,
  All-append, Throws, ok, ◌>>=◌, arith, length, length-append,
}
use heterogeneous_network.Serde.Traits.{Serializer, DeserializeResult}
use heterogeneous_network.Serde.Buffer.Writing.{IsByte}
use heterogeneous_network.Serde.Serdeable.{Prints}
use heterogeneous_network.Trusted.Frame.{TrustedFrameBody, frame_type}
use heterogeneous_network.Trusted.Codec.{TrustedFrame, trusted_frame_serdeable}
use heterogeneous_network.Trusted.Codec.RoundTrip.{
  FitsBody, content_bytes, frame_bytes, frame-RoundTripsLast, frame-IsByte,
}
use heterogeneous_network.Trusted.Checksum.{
  ChecksumWriter, new_writer, write_bytes, checksum, verify, folded, calculator_checksum,
}
use heterogeneous_network.Trusted.Checksum.Verify.{
  word_sum, checksum-calculated, verify_iff, checksum-bound,
}
use heterogeneous_network.Tunnel.Frame.{ReceivedTunnelFrame}
use heterogeneous_network.Trusted.Pseudo.{
  LengthOmittedPseudoHeader, PseudoHeader, ReceivedTrustedFrame, checksum_writer,
  pseudo_header_serdeable, fed, create, deserialize, verify_checksum,
}
use heterogeneous_network.Trusted.Pseudo.Header.{
  checksum_laws, fed-write_bytes, IsEnds, header_bytes, header-IsByte, header-Prints,
  header_bytes-length,
}

pub word_sum-bound : (bytes : List ℕ) → All IsByte bytes → word_sum bytes ≤ length bytes * 65280
unfolding word_sum
word_sum-bound [] h = omega arith
word_sum-bound (a ∷ []) h = omega (arith, h.0)
word_sum-bound (a ∷ b ∷ bytes) h = omega (arith, h.0, h.1.0, word_sum-bound bytes h.1.1)

-- The type of the body and the body: what follows the checksum.
abbrev pub tagged : TrustedFrameBody → List ℕ
tagged body = frame_type body ∷ content_bytes body

-- The bytes that the checksum covers, but for its own two.
abbrev pub covered : TrustedFrameBody → LengthOmittedPseudoHeader → List ℕ
covered body ends =
    tagged body ++ header_bytes (record { ends = ends; length = 2 + length (tagged body) })

-- The tunnel frame that brings the frame to the other end.
abbrev pub arrived : TrustedFrame → LengthOmittedPseudoHeader → ReceivedTunnelFrame
arrived f ends = record {
  source = ends.source;
  destination = ends.destination;
  frame = record {
    source_port_id = ends.source_port;
    destination_port_id = ends.destination_port_id;
    payload = frame_bytes f;
  };
}

-- The chains of `create` and of `verifyChecksum`, whose serializers are known.
module _ {m : Throws (Serializer (Throws ChecksumWriter))}
    {z h : Serializer (Throws ChecksumWriter)} (e : m ≡ ok z) where
  created :
      {F : Type 0} {n : ℕ} (k : ℕ → Throws (Serializer (Throws ChecksumWriter))) (make : ℕ → F)
      → k z.serialized_length ≡ ok h
      → (fed z h >>= checksum) ≡ ok n
      → (m >>= (λ z. k z.serialized_length >>= (λ h. fed z h >>= checksum >>= (λ n. ok (make n)))))
        ≡ ok (make n)
  created k make f run = rw (e, f, run) refl

  verified :
      {k : Throws (Serializer (Throws ChecksumWriter))} {w : Throws ChecksumWriter}
      → k ≡ ok h
      → fed z h ≡ w
      → (m >>= (λ z. k >>= (λ h. fed z h >>= verify))) ≡ (w >>= verify)
  verified f run = rw (e, f, run) refl

module _ (body : TrustedFrameBody) (ends : LengthOmittedPseudoHeader) (fits : FitsBody body)
    (sound : IsEnds ends) (small : 2 + length (tagged body) < 65536) where
  header : PseudoHeader
  header = record { ends = ends; length = 2 + length (tagged body) }

  abbrev framed : ℕ → TrustedFrame
  framed n = record { checksum = n; body = body }

  printed_frame :
      (n : ℕ)
      → n < 65536
      → Prints checksum_laws
          (trusted_frame_serdeable checksum_writer)
          (framed n)
          (frame_bytes (framed n))
  printed_frame n below = (frame-RoundTripsLast checksum_laws (framed n) below fits).0

  printed_header :
      Prints checksum_laws (pseudo_header_serdeable checksum_writer) header (header_bytes header)
  unfolding header
  printed_header = header-Prints header sound small

  total : ℕ → List ℕ
  total n = n % 256 ∷ n / 256 ∷ covered body ends

  whole : All IsByte (tagged body ++ header_bytes header)
  unfolding header frame_bytes
  whole =
      All-append IsByte (tagged body) (header_bytes header)
        (frame-IsByte (framed 0) (omega arith) fits).1.1 (header-IsByte header sound)

  -- The writer that is fed a frame with this checksum, and the header.
  writers :
      (n : ℕ) (below : n < 65536)
      → fed (printed_frame n below).0 printed_header.0 ≡ write_bytes (total n) new_writer
  unfolding total header frame_bytes
  writers n below =
      let f = printed_frame n below in
      fed-write_bytes f.0 printed_header.0 (frame_bytes (framed n)) (header_bytes header) f.2
        printed_header.2

  create-checksum : create body ends ≡ ok (framed (calculator_checksum (word_sum (total 0))))
  unfolding create header total frame_bytes
  create-checksum =
      let z = printed_frame 0 (omega arith) in
      let run = writers 0 (omega arith) in
      let of_length : ℕ → Throws (Serializer (Throws ChecksumWriter)) = λ n.
        (pseudo_header_serdeable checksum_writer).serializer (record { ends = ends; length = n }) in
      let size : z.0.serialized_length ≡ 2 + length (tagged body) = z.2.0 ∙ omega arith in
      created z.1 of_length framed (ap of_length size ∙ printed_header.1) (
        ap (λ m. m >>= checksum) run
        ∙ checksum-calculated (total 0) (omega arith, (omega arith, whole)))

  -- The receiver adds up the frame with its checksum, and the header.
  verify-run :
      (n : ℕ)
      → n < 65536
      → verify_checksum (record { frame = framed n; pseudo_header = header })
        ≡ (write_bytes (total n) new_writer >>= verify)
  unfolding verify_checksum
  verify-run n below = verified (printed_frame n below).1 printed_header.1 (writers n below)

  sum_small : word_sum (covered body ends) < 2 ^ 32
  unfolding header
  sum_small = omega (
    arith,
    small,
    header_bytes-length header sound,
    length-append (tagged body) (header_bytes header),
    word_sum-bound (covered body ends) whole,
  )

  check : ℕ
  check = calculator_checksum (word_sum (total 0))

  abbrev received : TrustedFrame → ReceivedTrustedFrame
  received f = record {
    frame = f;
    pseudo_header = record { ends = ends; length = length (frame_bytes f) };
  }

  deserialize-arrived :
      (n : ℕ)
      → n < 65536
      → deserialize (arrived (framed n) ends) ≡ DeserializeResult.ok (received (framed n))
  unfolding deserialize
  deserialize-arrived n below =
      let bs = frame_bytes (framed n) in
      rw
        ((frame-RoundTripsLast checksum_laws (framed n) below fits).1
          (record { buffer = bs; offset = 0 }) (refl, omega arith))
        refl

  verify_checksum-received :
      (verify_checksum (received (framed check)) ≡ ok true)
      ↔ (folded (word_sum (covered body ends)) < 65536)
  unfolding check total header frame_bytes
  verify_checksum-received =
      let below = checksum-bound (word_sum (total 0)) in
      let same : length (frame_bytes (framed check)) ≡ 2 + length (tagged body) = omega arith in
      let run : verify_checksum (received (framed check))
          ≡ (write_bytes (total check) new_writer >>= verify) =
        ap
          (λ n.
            verify_checksum
              (record { frame = framed check; pseudo_header = record { ends = ends; length = n } }))
          same
        ∙ verify-run check below in
      rw run (
        verify_iff check (covered body ends) whole sum_small
          (checksum-calculated (total 0) (omega arith, (omega arith, whole))))

-- What the other end makes of a frame that was created for these ends: it reads the same frame, and
-- takes its checksum for right exactly where the sum of the words of the frame and the header needs
-- one fold only.
abbrev pub IsJudged : TrustedFrameBody → LengthOmittedPseudoHeader → Type 0
IsJudged body ends =
    (f : TrustedFrame) × (create body ends ≡ ok f)
    × (f.body ≡ body)
    × (r : ReceivedTrustedFrame) × (deserialize (arrived f ends) ≡ DeserializeResult.ok r)
    × (r.frame ≡ f)
    × ((verify_checksum r ≡ ok true) ↔ (folded (word_sum (covered body ends)) < 65536))

pub create-verify_checksum :
    (body : TrustedFrameBody) (ends : LengthOmittedPseudoHeader)
    → FitsBody body
    → IsEnds ends
    → 2 + length (tagged body) < 65536
    → IsJudged body ends
unfolding check
create-verify_checksum body ends fits sound small =
    let n = check body ends fits sound small in
    let f : TrustedFrame = record { checksum = n; body = body } in
    (
      f,
      create-checksum body ends fits sound small,
      refl,
      received body ends fits sound small f,
      deserialize-arrived body ends fits sound small n (checksum-bound _),
      refl,
      verify_checksum-received body ends fits sound small,
    )
