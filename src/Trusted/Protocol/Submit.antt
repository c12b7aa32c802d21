-- ===== src/Trusted/Protocol/Submit.antt =====
-- The sender's user sends: the step keeps the protocol's invariant.
use heterogeneous_network.Base.{
  ℕ, ◌+◌, ◌≤◌, ◌≡◌, ap, ◌∙◌, List, [], ◌∷◌, ◌++◌, All-append, length, All-map, arith,
}
use mathlib.Core.List.{append_assoc}
use heterogeneous_network.Trusted.Frame.{Payload}
use heterogeneous_network.Trusted.Action.{SocketAction}
use heterogeneous_network.Trusted.Data.{CreateFrame, DataSocketState, send_data_frame, accepted}
use heterogeneous_network.Trusted.Data.Sender.{
  Carries, sent_bodies, RepresentsSend, RepresentsOut, RepresentsSent-RepresentsOut, is_empty,
  send_data_frame-Represents,
}
use heterogeneous_network.Trusted.Protocol.{Network}
use heterogeneous_network.Trusted.Protocol.Invariant.{
  Inv, flight, IsSent, IsHead-IsSent, IsSent-mono,
}

flight-le-append : (qs : List Payload) (q : Payload) → flight qs ≤ flight (qs ++ q ∷ [])
flight-le-append [] q = omega arith
flight-le-append (r ∷ qs) q = omega arith

pub submit-Inv :
    (s : Network) (q : Payload) (create : CreateFrame) (d : DataSocketState)
    (out : List SocketAction) (id : ℕ)
    → Carries q create
    → send_data_frame create s.sender ≡ accepted d out id
    → Inv s
    → Inv
        (record s { sender = d; frames = s.frames ++ sent_bodies out; stream = s.stream ++ q ∷ [] })
submit-Inv s q create d out id c e h =
    let acked = h.acked in
    let unacked = h.unacked in
    let sent : RepresentsSend (is_empty unacked) (length acked) (unacked ++ q ∷ [])
        (accepted d out id) =
      rw e at (send_data_frame-Represents (length acked) unacked q create s.sender h.queue c) in
    let sending : RepresentsOut (length acked) (unacked ++ q ∷ []) (d, out) =
      RepresentsSent-RepresentsOut (is_empty unacked) _ _ (d, out) sent in
    let split' : s.stream ++ q ∷ [] ≡ acked ++ (unacked ++ q ∷ []) =
      ap (λ l. l ++ q ∷ []) h.split ∙ append_assoc acked unacked (q ∷ []) in
    record {
      acked = acked;
      unacked = unacked ++ q ∷ [];
      rest = h.rest ++ q ∷ [];
      split = split';
      queue = sending.0;
      is_prefix = ap (λ l. l ++ q ∷ []) h.is_prefix ∙ append_assoc s.delivered h.rest (q ∷ []);
      receiver_open = h.receiver_open;
      idle = h.idle;
      due = h.due;
      frames_sent =
          All-append (IsSent (s.stream ++ q ∷ []) (length acked + flight (unacked ++ q ∷ [])))
            s.frames (sent_bodies out)
            (IsSent-mono s.stream (q ∷ []) (length acked + flight unacked) _ s.frames
              (omega (arith, flight-le-append unacked q)) h.frames_sent)
            (All-map (sent_bodies out)
              (λ b k. rw split' (IsHead-IsSent acked (unacked ++ q ∷ []) b k)) sending.1);
      acks_sent = h.acks_sent;
      behind = h.behind;
      ahead = omega (arith, h.ahead, flight-le-append unacked q);
    }
