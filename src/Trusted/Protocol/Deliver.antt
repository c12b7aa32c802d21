-- ===== src/Trusted/Protocol/Deliver.antt =====
-- A data frame arrives: the step keeps the protocol's invariant.
use heterogeneous_network.Base.{
  ℕ, ◌+◌, ◌≤◌, ◌≡◌, sym, ap, ◌∙◌, inl, inr, List, [], ◌∷◌, ◌++◌, some, All-append, length,
  length-append, get_elem?, split_at, All-map, arith,
}
use mathlib.Core.List.{append_assoc, append-nil}
use heterogeneous_network.Trusted.Frame.{Payload, DataFrameBody}
use heterogeneous_network.Trusted.Data.{Out}
use heterogeneous_network.Trusted.Data.Receiver.{payloads, Receives}
use heterogeneous_network.Trusted.Protocol.{Network, wire, wire_body, sent_acks}
use heterogeneous_network.Trusted.Protocol.Receiving.{Acknowledges}
use heterogeneous_network.Trusted.Protocol.Invariant.{Inv, flight, IsSent}

-- The stream stays below the number of 16-bit words.
abbrev pub Fits : Network → Type 0
Fits s = length s.stream ≤ 65535

flight-le-length : (qs : List Payload) → flight qs ≤ length qs
flight-le-length [] = omega arith
flight-le-length (q ∷ qs) = omega arith

-- No more is on its way than the stream holds.
bound-le-length : (s : Network) (h : Inv s) → length h.acked + flight h.unacked ≤ length s.stream
bound-le-length s h = omega (
  arith,
  ap (λ (l : List Payload). length l) h.split,
  length-append h.acked h.unacked,
  flight-le-length h.unacked,
)

pub wire_small : (n : ℕ) → n ≤ 65535 → wire n ≡ n
wire_small n h = omega arith

wire_sent :
    (s : Network) (h : Inv s) (b : DataFrameBody)
    → Fits s
    → IsSent s.stream (length h.acked + flight h.unacked) b
    → wire b.sequence_number ≡ b.sequence_number
wire_sent s h b fits k = omega (arith, k.1, bound-le-length s h)

-- What the receiver's step does to the delivered payloads.
pub delivers :
    (s : Network) (h : Inv s) (b : DataFrameBody) (r : Out)
    → Fits s
    → IsSent s.stream (length h.acked + flight h.unacked) b
    → Receives (wire_body b) s.receiver r
    → Acknowledges r
    → Inv (record s {
      receiver = r.0;
      acks = s.acks ++ sent_acks r.1;
      delivered = s.delivered ++ payloads r.1;
    })
delivers s h b r fits k (o, inr (stays, got)) a =
    rw (got, append-nil)
      (record {
        acked = h.acked;
        unacked = h.unacked;
        rest = h.rest;
        split = h.split;
        queue = h.queue;
        is_prefix = h.is_prefix;
        receiver_open = o;
        idle = a.0;
        due = stays ∙ h.due;
        frames_sent = h.frames_sent;
        acks_sent =
            All-append (λ (a : ℕ). a ≤ length s.delivered) s.acks (sent_acks r.1) h.acks_sent
              (All-map (sent_acks r.1) (λ x e. omega (arith, e, stays, h.due)) a.1);
        behind = h.behind;
        ahead = h.ahead;
      })
delivers s h b r fits k (o, inl (due, moved, got)) a =
    let at_end : b.sequence_number ≡ length s.delivered =
      sym (wire_sent s h b fits k) ∙ due ∙ h.due in
    let here : get_elem? (s.delivered ++ h.rest) (length s.delivered) ≡ some b.payload =
      rw (← h.is_prefix, ← at_end) k.0 in
    let (zs, e) = split_at s.delivered h.rest b.payload here in
    let longer : length (s.delivered ++ payloads r.1) ≡ length s.delivered + 1 =
      rw got (length-append s.delivered (b.payload ∷ [])) in
    record {
      acked = h.acked;
      unacked = h.unacked;
      rest = zs;
      split = h.split;
      queue = h.queue;
      is_prefix = rw got (
          h.is_prefix
          ∙ ap (λ l. s.delivered ++ l) e
          ∙ sym (append_assoc s.delivered (b.payload ∷ []) zs));
      receiver_open = o;
      idle = a.0;
      due = omega (arith, moved, h.due, longer);
      frames_sent = h.frames_sent;
      acks_sent =
          All-append (λ (a : ℕ). a ≤ length (s.delivered ++ payloads r.1)) s.acks (sent_acks r.1)
            (All-map s.acks (λ x le. omega (arith, le, longer)) h.acks_sent)
            (All-map (sent_acks r.1) (λ x e. omega (arith, e, moved, h.due, longer)) a.1);
      behind = omega (arith, h.behind, longer);
      ahead = omega (arith, k.1, at_end, longer);
    }
