-- ===== src/Examples/Frames.antt =====
-- The theorems on serialization, checksums and discovery at concrete values.
use heterogeneous_network.Base.{
  ◌+◌, ◌/◌, ◌%◌, ℕ, ◌<◌, ◌≡◌, ◌↔◌, refl, true, false, List, [], ◌∷◌, some, arith, ok, ◌>>=◌,
}
use heterogeneous_network.Serde.Buffer.{buffer_writer, bytes, serialize}
use heterogeneous_network.Serde.Buffer.Writing.{buffer_laws, serialize-bytes}
use heterogeneous_network.Serde.Primitives.{size8, size16, uint_serializer, uint_serdeable}
use heterogeneous_network.Serde.Primitives.Uint.{uint8-Encodes, uint8-RoundTrips, uint16-RoundTrips}
use heterogeneous_network.Serde.Serdeable.{RoundTrips}
use heterogeneous_network.Serde.Combinators.{vector_serdeable}
use heterogeneous_network.Serde.Combinators.Collections.{join_all, vector-RoundTrips}
use heterogeneous_network.Trusted.Frame.{data_body}
use heterogeneous_network.Trusted.Codec.{TrustedFrame}
use heterogeneous_network.Trusted.Codec.RoundTrip.{IsReadBack, frame_roundtrip}
use heterogeneous_network.Serde.Combinators.Words.{word_bytes}
use heterogeneous_network.Trusted.Checksum.{
  new_writer, write_bytes, write_byte, accumulate, add_word, write_padding, checksum,
  calculator_checksum, verify, folded,
}
use heterogeneous_network.Trusted.Checksum.Verify.{word_sum, verify_iff, checksum-word_sum}
use heterogeneous_network.Discovery.FrameId.{FrameIdCache, has, contains, insert, generate}
use heterogeneous_network.Discovery.Window.{insert_all, last_of, insert_all-last_of, generate-fresh}
use heterogeneous_network.Discovery.Request.{DiscoveryResponse, new_entry}
use heterogeneous_network.Discovery.Best.{
  handle_all, cheapest, entry_with, IsLeast, handle_all-cheapest,
}

abbrev data_frame : TrustedFrame
data_frame = record {
  checksum = 0x1234;
  body =
      data_body
        (record { sequence_number = 300; acknowledgement_number = 2; payload = 104 ∷ 105 ∷ [] });
}

frame_roundtrip_example : IsReadBack data_frame
frame_roundtrip_example =
    frame_roundtrip data_frame (omega arith)
      (omega arith, omega arith, (omega arith, (omega arith, tt)))

-- Two words 0xffff and a word 1: the sum is 0x1ffff, and the receiver refuses the frame.
abbrev carrying : List ℕ
carrying = 255 ∷ 255 ∷ 255 ∷ 255 ∷ 1 ∷ 0 ∷ []

verify_iff_example :
    ((write_bytes (255 ∷ 255 ∷ carrying) new_writer >>= verify) ≡ ok true)
    ↔ (folded (word_sum carrying) < 65536)
unfolding checksum write_bytes write_byte accumulate add_word write_padding calculator_checksum
    word_sum
verify_iff_example =
    verify_iff 65535 carrying
      (omega arith, (omega arith, (omega arith, (omega arith, (omega arith, (omega arith, tt))))))
      (omega arith) refl

-- The words 513 and 3.
checksum-word_sum_example :
    (c : ℕ) × ((write_bytes (1 ∷ 2 ∷ 3 ∷ []) new_writer >>= checksum) ≡ ok c)
    × (c < 65536)
    × ((c + (516 % 65536 + 516 / 65536)) % 65536 ≡ 65535)
    × ((c + 516) % 65535 ≡ (516 % 65536 + 516 / 65536) / 65536)
unfolding word_sum
checksum-word_sum_example =
    checksum-word_sum (1 ∷ 2 ∷ 3 ∷ []) (omega arith, (omega arith, (omega arith, tt))) (omega arith)

serialize-bytes_example :
    serialize (uint_serializer buffer_writer size8 200) ≡ bytes (ok (200 ∷ []))
serialize-bytes_example =
    serialize-bytes (uint_serializer buffer_writer size8 200) (200 ∷ [])
      (uint8-Encodes buffer_laws 200 (omega arith)) (omega arith, tt)

abbrev three : FrameIdCache
three = record { cache = 1 ∷ 2 ∷ 3 ∷ []; max_cache_size = 3 }

insert_all-last_of_example :
    (insert_all (4 ∷ 5 ∷ []) three).cache ≡ last_of 3 (1 ∷ 2 ∷ 3 ∷ 4 ∷ 5 ∷ [])
unfolding has
insert_all-last_of_example =
    insert_all-last_of (4 ∷ 5 ∷ []) three (refl, (refl, (refl, (refl, (refl, tt))))) (omega arith)

generate-fresh_example :
    (new : ℕ) × (generate (2 ∷ 3 ∷ 9 ∷ []) three ≡ some (new, insert new three))
    × (contains new three ≡ false)
unfolding contains has
generate-fresh_example = generate-fresh (2 ∷ 3 ∷ 9 ∷ []) three 2 9 refl refl

abbrev response : ℕ → ℕ → DiscoveryResponse
response gateway cost = record { gateway_id = gateway; cost = cost }

abbrev later_responses : List DiscoveryResponse
later_responses = response 2 4 ∷ response 3 6 ∷ []

handle_all-cheapest_example :
    (handle_all (response 1 8 ∷ later_responses) new_entry
      ≡ entry_with (response 1 8) (cheapest (response 1 8) later_responses))
    × IsLeast (cheapest (response 1 8) later_responses) (response 1 8 ∷ later_responses)
handle_all-cheapest_example = handle_all-cheapest (response 1 8) later_responses

-- A vector of 16-bit numbers behind a length of one byte.
vector-RoundTrips_example :
    RoundTrips buffer_laws
      (vector_serdeable (uint_serdeable buffer_writer size16) (uint_serdeable buffer_writer size8))
      (258 ∷ 7 ∷ [])
      (2 ∷ join_all word_bytes (258 ∷ 7 ∷ []))
vector-RoundTrips_example =
    vector-RoundTrips buffer_laws (uint_serdeable buffer_writer size16) word_bytes
      (uint_serdeable buffer_writer size8) (258 ∷ 7 ∷ []) (2 ∷ [])
      (uint8-RoundTrips buffer_laws 2 (omega arith))
      (
        uint16-RoundTrips buffer_laws 258 (omega arith),
        (uint16-RoundTrips buffer_laws 7 (omega arith), tt),
      )
