-- ===== src/Trusted/Data/Delivery.antt =====
-- A run of the receiving side: data frames in the order in which the tunnel hands them over, with
-- losses, repetitions and exchanges.
use heterogeneous_network.Base.{
  ℕ, zero, suc, ◌+◌, ◌≡◌, refl, inl, inr, true, List, [], ◌∷◌, ◌++◌, All, arith,
}
use heterogeneous_network.Trusted.Frame.{Payload, DataFrameBody}
use heterogeneous_network.Trusted.Action.{SocketAction}
use heterogeneous_network.Trusted.Data.{DataSocketState, on_data_received}
use heterogeneous_network.Trusted.Data.Receiver.{payloads, Receives, on_data_received-Receives}

-- The payloads that the user is handed, and the state at the end.
unfoldable pub receive_all : List DataFrameBody → DataSocketState → List Payload × DataSocketState
receive_all [] s = ([], s)
receive_all (b ∷ bs) s =
    let (t, actions) = on_data_received b s in
    let (rest, u) = receive_all bs t in (payloads actions ++ rest, u)

-- `stream first ∷ … ∷ stream (first + count - 1)`
abbrev pub segment : (ℕ → Payload) → ℕ → ℕ → List Payload
segment stream first zero = []
segment stream first (suc count) = stream first ∷ segment stream (first + 1) count

abbrev pub IsOf : (ℕ → Payload) → DataFrameBody → Type 0
IsOf stream b = b.payload ≡ stream b.sequence_number

-- What the user is handed from `s` on, and where the socket is then.
abbrev pub IsSegment : (ℕ → Payload) → DataSocketState → List Payload × DataSocketState → Type 0
IsSegment stream s r =
    (count : ℕ) × (r.0 ≡ segment stream s.next_receive count)
    × (r.1.next_receive ≡ s.next_receive + count)
    × (r.1.is_open ≡ true)

receive-IsSegment :
    (stream : ℕ → Payload) (b : DataFrameBody) (s t u : DataSocketState)
    (actions : List SocketAction) (rest : List Payload)
    → IsOf stream b
    → Receives b s (t, actions)
    → IsSegment stream t (rest, u)
    → IsSegment stream s (payloads actions ++ rest, u)
receive-IsSegment stream b s t u actions rest e (o, inl (due, moved, got)) (count, l, n, x) =
    (suc count, rw (got, e, due, l, moved) refl, omega arith, x)
receive-IsSegment stream b s t u actions rest e (o, inr (stays, got)) (count, l, n, x) =
    (count, rw (got, l, stays) refl, omega arith, x)

-- What an open socket hands to its user is the piece of the sender's stream that begins with the
-- number that was due, without a gap and without a repetition, whatever data frames of the stream
-- arrive in whatever order; the counter moves on by as many, and the socket stays open.
pub receive_all-IsSegment :
    (stream : ℕ → Payload) (frames : List DataFrameBody) (s : DataSocketState)
    → s.is_open ≡ true
    → All (IsOf stream) frames
    → IsSegment stream s (receive_all frames s)
unfolding receive_all
receive_all-IsSegment stream [] s o h = (0, refl, omega arith, o)
receive_all-IsSegment stream (b ∷ bs) s o h =
    let r = on_data_received b s in
    let got = on_data_received-Receives b s o in
    receive-IsSegment stream b s r.0 (receive_all bs r.0).1 r.1 (receive_all bs r.0).0 h.0 got
      (receive_all-IsSegment stream bs r.0 got.0 h.1)
