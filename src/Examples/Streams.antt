-- ===== src/Examples/Streams.antt =====
-- The theorem on streams at a trusted socket whose replies are given.
use heterogeneous_network.Base.{ℕ, ◌≡◌, refl, false, List, [], ◌∷◌, none, some, ok}
use heterogeneous_network.Serde.Buffer.{
  serialize, write_byte, write_bytes, read_byte, read_remaining_bytes,
}
use heterogeneous_network.Serde.Primitives.{boolean_serdeable}
use heterogeneous_network.Serde.Combinators.{remaining_bytes_serdeable}
use heterogeneous_network.Stream.Socket.{timeout, new_accumulator, send_entries, receive_all}
use heterogeneous_network.Stream.Carry.{Reply, succeeds, fails, Script, scripted}

-- Three payloads arrive; the fourth one is given up.
abbrev three_replies : Script
three_replies = record {
  replies = succeeds ∷ succeeds ∷ succeeds ∷ fails timeout false ∷ [];
  handed = [];
}

-- Two bytes beyond the header.
abbrev room_for_two : List Reply → ℕ
room_for_two rs = 3

abbrev three_texts : List (List ℕ)
three_texts = (1 ∷ 2 ∷ 3 ∷ []) ∷ [] ∷ (7 ∷ 8 ∷ 9 ∷ []) ∷ []

-- The first text goes in two frames, the empty one in none, and the last one fails at its second.
texts_sent : send_entries (scripted room_for_two) three_texts three_replies ≡ (
  some none ∷ some none ∷ some (some timeout) ∷ [],
  record { replies = []; handed = (0 ∷ 1 ∷ 2 ∷ []) ∷ (1 ∷ 3 ∷ []) ∷ (0 ∷ 7 ∷ 8 ∷ []) ∷ [] },
)
unfolding send_entries boolean_serdeable remaining_bytes_serdeable serialize write_byte write_bytes
texts_sent = refl

texts_received :
    receive_all ((0 ∷ 1 ∷ 2 ∷ []) ∷ (1 ∷ 3 ∷ []) ∷ (0 ∷ 7 ∷ 8 ∷ []) ∷ []) new_accumulator
    ≡ ok (record { payloads = (7 ∷ 8 ∷ []) ∷ [] }, (1 ∷ 2 ∷ 3 ∷ []) ∷ [])
unfolding receive_all boolean_serdeable read_byte remaining_bytes_serdeable read_remaining_bytes
texts_received = refl
