-- ===== src/Trusted/Protocol/Fifo.antt =====
-- Runs of the protocol from two freshly opened sockets.
use heterogeneous_network.Base.{
  ◌+◌, ◌≤◌, ◌≡◌, ap, List, [], ◌∷◌, ◌++◌, length, length-append, All-get, arith,
}
use heterogeneous_network.Trusted.Frame.{Payload}
use heterogeneous_network.Trusted.Data.{on_data_received, on_data_ack_received}
use heterogeneous_network.Trusted.Data.Receiver.{on_data_received-Receives}
use heterogeneous_network.Trusted.Data.Sender.{
  RepresentsSent-RepresentsOut, is_acked, on_data_ack_received-Represents,
}
use heterogeneous_network.Trusted.Protocol.{
  Network, Step, submit, times_out, fails, deliver, acknowledge, Reach, here, next, start, wire,
  wire_body,
}
use heterogeneous_network.Trusted.Protocol.Receiving.{on_data_received-Acknowledges}
use heterogeneous_network.Trusted.Protocol.Invariant.{Inv, start-Inv, flight-le-one}
use heterogeneous_network.Trusted.Protocol.Submit.{submit-Inv}
use heterogeneous_network.Trusted.Protocol.Deliver.{Fits, delivers, wire_small}
use heterogeneous_network.Trusted.Protocol.Retry.{times_out-Inv, fails-Inv}
use heterogeneous_network.Trusted.Protocol.Acknowledge.{acknowledge-Inv}

Step-Inv : (s t : Network) → Step s t → Fits s → Inv s → Inv t
Step-Inv s t (submit q create d out id c e eq) fits h = rw eq (submit-Inv s q create d out id c e h)
Step-Inv s t (times_out i a d out e run eq) fits h = rw eq (times_out-Inv s h i a (d, out) e run)
Step-Inv s t (fails i a d out e run eq) fits h = rw eq (fails-Inv s h i a (d, out) e run)
Step-Inv s t (deliver i b e eq) fits h = rw eq (
    delivers s h b (on_data_received (wire_body b) s.receiver) fits
      (All-get _ s.frames i b h.frames_sent e)
      (on_data_received-Receives (wire_body b) s.receiver h.receiver_open)
      (on_data_received-Acknowledges (wire_body b) s.receiver h.receiver_open h.idle))
Step-Inv s t (acknowledge i a e eq) fits h =
    let le : a ≤ length s.delivered = All-get _ s.acks i a h.acks_sent e in
    let small : wire a ≡ a = wire_small a (
      omega (
        arith,
        le,
        ap (λ (l : List Payload). length l) h.is_prefix,
        length-append s.delivered h.rest,
      )) in
    rw eq (
      acknowledge-Inv s a (on_data_ack_received (wire a) s.sender) h
        (rw small (
          RepresentsSent-RepresentsOut (is_acked a (length h.acked) h.unacked) _ _
            (on_data_ack_received a s.sender)
            (on_data_ack_received-Represents a (length h.acked) h.unacked s.sender h.queue)))
        le)

Step-grows : (s t : Network) → Step s t → length s.stream ≤ length t.stream
Step-grows s t (submit q create d out id c e eq) =
    rw eq (omega (arith, length-append s.stream (q ∷ [])))
Step-grows s t (times_out i a d out e run eq) = rw eq (omega arith)
Step-grows s t (fails i a d out e run eq) = rw eq (omega arith)
Step-grows s t (deliver i b e eq) = rw eq (omega arith)
Step-grows s t (acknowledge i a e eq) = rw eq (omega arith)

Reach-Inv : {s t : Network} → Inv s → Reach s t → Fits t → Inv t
Reach-Inv h here fits = h
Reach-Inv h (next {t = t} {u = u} r st) fits =
    let fits' : Fits t = omega (arith, fits, Step-grows t u st) in
    Step-Inv t u st fits' (Reach-Inv h r fits')

-- What is delivered is a beginning of the stream, at least what is acknowledged and at most one
-- payload more.
abbrev pub IsFifo : Network → Type 0
IsFifo t =
    (rest : List Payload) × (t.stream ≡ t.delivered ++ rest)
    × (t.sender.next_send ≤ length t.delivered)
    × (length t.delivered ≤ t.sender.next_send + 1)

-- Of two freshly opened sockets, while both stay open, only one of them sends data and the other one
-- only acknowledges, over a tunnel that loses, repeats and reorders frames. After any steps - the
-- sender's user sends, a data frame arrives, an acknowledgement arrives, a data frame could not be
-- sent, its acknowledgement is late - with at most 65535 payloads sent, the receiver's user has been
-- handed a beginning of the payloads that the sender's user sent, in order, without a gap and each
-- once; it has all whose acknowledgement has reached the sender, and at most one more.
pub protocol-IsFifo : (t : Network) → Reach start t → length t.stream ≤ 65535 → IsFifo t
protocol-IsFifo t r fits =
    let h = Reach-Inv start-Inv r fits in
    (
      h.rest,
      h.is_prefix,
      omega (arith, h.queue.1, h.behind),
      omega (arith, h.queue.1, h.ahead, flight-le-one h.unacked),
    )
