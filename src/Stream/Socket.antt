-- ===== src/Stream/Socket.antt =====
-- ts-core/src/net/stream/socket.ts: FrameAccumulator, InnerSocket and StreamSocket. The trusted socket
-- below is an interface: its state is passed along, and an `await` of its `send` is the result.
use heterogeneous_network.Base.{
  ℕ, zero, suc, ◌+◌, ◌-◌, List, [], ◌∷◌, ◌++◌, Option, none, some, Throws, throw, leb, ◌==◌,
  if◌then◌else◌, length, take, drop, replicate,
}
use heterogeneous_network.Base.{ok as returned, ◌>>=◌ as bind}
use heterogeneous_network.Base.Int.{ℤ, pos, negsuc}
use heterogeneous_network.Serde.Traits.{DeserializeResult, ok, err, thrown}
use heterogeneous_network.Serde.Buffer.{
  BufferReader, buffer_writer, Serialized, serialize, bytes, error, set_bytes,
}
use heterogeneous_network.Stream.Frame.{StreamFrame, stream_frame_serdeable, header_length}

pub record FrameAccumulator : Type 0 where
  pub payloads : List (List ℕ)

abbrev pub new_accumulator : FrameAccumulator
new_accumulator = record { payloads = [] }

abbrev pub add : List ℕ → FrameAccumulator → FrameAccumulator
add payload a = record { payloads = a.payloads ++ (payload ∷ []) }

-- `payloads.reduce((sum, payload) => sum + payload.length, 0)`, from `sum` on.
unfoldable pub total_length : ℕ → List (List ℕ) → ℕ
total_length sum [] = sum
total_length sum (payload ∷ payloads) = total_length (sum + length payload) payloads

-- The loop of `take`: `result.set(payload, offset)` throws where the payload does not fit.
unfoldable pub set_payloads : List ℕ → ℕ → List (List ℕ) → Throws (List ℕ)
unfolding set_bytes
set_payloads result offset [] = returned result
set_payloads result offset (payload ∷ payloads) =
    let rest = set_payloads (set_bytes result offset payload) (offset + length payload) payloads in
    if leb (offset + length payload) (length result) then rest else throw

-- `FrameAccumulator.take`
unfoldable pub take_all : FrameAccumulator → Throws (List ℕ × FrameAccumulator)
unfolding total_length set_payloads
take_all a =
    bind (set_payloads (replicate (total_length 0 a.payloads) 0) 0 a.payloads)
      (λ result. returned (result, new_accumulator))

pub data SendError : Type 0 where
  timeout invalid_operation : SendError

-- What the promise of a `send` is settled with: its `Result`, whose error is none for `Ok`; or it is
-- never settled.
pub data Answer : Type 0 where
  settles : Option SendError → Answer
  never : Answer

-- What a stream asks of the trusted socket: `maxPayloadLength`, and `send`.
pub record Transport (S : Type 0) : Type 0 where
  pub max_payload_length : S → ℕ
  pub send : List ℕ → S → Answer × S

abbrev pub minus : ℕ → ℕ → ℤ
minus a b = if leb b a then pos (a - b) else negsuc (b - a - 1)

-- `subarray(0, end)` and `subarray(begin)`: a negative index counts from the end.
unfoldable pub subarray_to : ℤ → List ℕ → List ℕ
subarray_to (pos n) buffer = take n buffer
subarray_to (negsuc n) buffer = take (length buffer - suc n) buffer

unfoldable pub subarray_from : ℤ → List ℕ → List ℕ
subarray_from (pos n) buffer = drop n buffer
subarray_from (negsuc n) buffer = drop (length buffer - suc n) buffer

-- `Result.unwrap`
abbrev unwrap : Serialized → Throws (List ℕ)
unwrap (bytes b) = b
unwrap error = throw

-- What became of an entry: its `onSend` was called with `Ok` or with an error, or the task waits for
-- ever for a `send`, or it ended by an exception, or the loop has more rounds to go than the fuel.
pub data Progress (S : Type 0) : Type 0 where
  sent : S → Progress S
  failed : SendError → S → Progress S
  waits : S → Progress S
  rejected : Progress S
  unfinished : Progress S

-- What follows the `await` of a frame: the next round, unless the result is an error.
abbrev pub after_send : {S : Type 0} → (S → Progress S) → Throws (Answer × S) → Progress S
after_send next (returned (settles none, s)) = next s
after_send next (returned (settles (some e), s)) = failed e s
after_send next (returned (never, s)) = waits s
after_send next throw = rejected

-- An entry whose `onSend` is never called.
abbrev pub unsettled : List (List ℕ) → List (Option (Option SendError))
unsettled [] = []
unsettled (d ∷ ds) = none ∷ unsettled ds

-- What follows an entry: the next one, or, after `break outer`, an `await` without end or an exception,
-- none.
abbrev pub after_entry :
    {S : Type 0}
    → List (List ℕ)
    → S
    → (S → List (Option (Option SendError)) × S)
    → Progress S
    → List (Option (Option SendError)) × S
after_entry ds s next (sent s') = let rest = next s' in (some none ∷ rest.0, rest.1)
after_entry ds s next (failed e s') = (some (some e) ∷ unsettled ds, s')
after_entry ds s next (waits s') = (none ∷ unsettled ds, s')
after_entry ds s next rejected = (none ∷ unsettled ds, s)
after_entry ds s next unfinished = (none ∷ unsettled ds, s)

module _ {S : Type 0} (t : Transport S) where
  -- `InnerSocket.maxPayloadLength`
  unfoldable pub max_payload_length : S → Throws ℤ
  unfolding header_length
  max_payload_length s = bind header_length (λ n. returned (minus (t.max_payload_length s) n))

  -- `InnerSocket.send`
  unfoldable pub inner_send : StreamFrame → S → Throws (Answer × S)
  unfolding stream_frame_serdeable
  inner_send frame s =
      bind ((stream_frame_serdeable buffer_writer).serializer frame)
        (λ z. bind (unwrap (serialize z)) (λ buffer. returned (t.send buffer s)))

  -- The inner loop of the task, `while (buffer.length > 0)`.
  unfoldable pub send_loop : ℕ → ℤ → List ℕ → S → Progress S
  unfolding inner_send subarray_to subarray_from
  send_loop zero max buffer s = unfinished
  send_loop (suc fuel) max [] s = sent s
  send_loop (suc fuel) max (b ∷ bs) s =
      let rest = subarray_from max (b ∷ bs) in
      after_send (λ s'. send_loop fuel max rest s')
        (inner_send (record { fin = length rest == 0; payload = subarray_to max (b ∷ bs) }) s)

  abbrev send_with : List ℕ → S → Throws ℤ → Progress S
  send_with data_of s (returned max) = send_loop (suc (length data_of)) max data_of s
  send_with data_of s throw = rejected

  -- One round of the outer loop.
  unfoldable pub send_entry : List ℕ → S → Progress S
  unfolding max_payload_length send_loop
  send_entry data_of s = send_with data_of s (max_payload_length s)

  -- The task, for the entries that `send` has queued: what `onSend` was called with for each.
  unfoldable pub send_entries : List (List ℕ) → S → List (Option (Option SendError)) × S
  unfolding send_entry
  send_entries [] s = ([], s)
  send_entries (d ∷ ds) s = after_entry ds s (λ s'. send_entries ds s') (send_entry d s)

-- `add`, and the `take` where the frame is the last one: the accumulator and the data that the
-- callback of `onReceive` is called with.
unfoldable pub accumulate :
    StreamFrame → FrameAccumulator → Throws (FrameAccumulator × List (List ℕ))
unfolding take_all
accumulate frame a =
    let added = add frame.payload a in
    if frame.fin
    then bind (take_all added) (λ p. returned (p.1, p.0 ∷ []))
    else returned (added, [])

abbrev received :
    FrameAccumulator
    → DeserializeResult (StreamFrame × BufferReader)
    → Throws (FrameAccumulator × List (List ℕ))
received a (ok p) = accumulate p.0 a
received a (err e) = returned (a, [])
received a thrown = throw

-- The listener of `StreamSocket.onReceive`, on the data of a trusted frame.
unfoldable pub receive : List ℕ → FrameAccumulator → Throws (FrameAccumulator × List (List ℕ))
unfolding stream_frame_serdeable accumulate
receive buffer a =
    received a
      ((stream_frame_serdeable buffer_writer).deserializer (record { buffer = buffer; offset = 0 }))

unfoldable pub receive_all :
    List (List ℕ) → FrameAccumulator → Throws (FrameAccumulator × List (List ℕ))
unfolding receive
receive_all [] a = returned (a, [])
receive_all (b ∷ bs) a =
    bind (receive b a) (λ p. bind (receive_all bs p.0) (λ q. returned (q.0, p.1 ++ q.1)))
