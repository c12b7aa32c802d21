-- ===== src/Trusted/Protocol/Acknowledge.antt =====
-- An acknowledgement arrives: the step keeps the protocol's invariant.
use heterogeneous_network.Base.{
  ℕ, ◌+◌, ◌≤◌, ◌≡◌, sym, ◌∙◌, ◌⊎◌, inl, inr, not-leb→lt, false, true, List, [], ◌∷◌, ◌++◌,
  All-append, length, length-append, All-map, arith, leb, Bool-cases,
}
use mathlib.Core.List.{append_assoc}
use heterogeneous_network.Trusted.Frame.{Payload}
use heterogeneous_network.Trusted.Data.{Out}
use heterogeneous_network.Trusted.Data.Sender.{sent_bodies, RepresentsOut, after_ack}
use heterogeneous_network.Trusted.Protocol.{Network}
use heterogeneous_network.Trusted.Protocol.Invariant.{Inv, flight, IsSent, IsHead-IsSent}

-- An acknowledgement moves the border between what is acknowledged and what is not.
moves_to :
    (s : Network) (r : Out) (a : ℕ) (acked unacked : List Payload)
    → s.stream ≡ acked ++ unacked
    → RepresentsOut (after_ack a (length acked) unacked).0 (after_ack a (length acked) unacked).1 r
    → length acked ≤ length s.delivered
    → length s.delivered ≤ length acked + flight unacked
    → a ≤ length s.delivered
    → (acked' : List Payload) × (unacked' : List Payload) × (s.stream ≡ acked' ++ unacked')
      × RepresentsOut (length acked') unacked' r
      × (length acked' ≤ length s.delivered)
      × (length acked + flight unacked ≤ length acked' + flight unacked')
unfolding after_ack
moves_to s r a acked [] e h b d le = (acked, [], e, h, b, omega arith)
moves_to s r a acked (q ∷ qs) e h b d le = go (Bool-cases (leb a (length acked)))
  where
    go :
        (leb a (length acked) ≡ true) ⊎ (leb a (length acked) ≡ false)
        → (acked' : List Payload) × (unacked' : List Payload) × (s.stream ≡ acked' ++ unacked')
          × RepresentsOut (length acked') unacked' r
          × (length acked' ≤ length s.delivered)
          × (length acked + 1 ≤ length acked' + flight unacked')
    go (inl old) = (acked, q ∷ qs, e, rw old at h, b, omega arith)
    go (inr new) =
        let n : a ≡ length (acked ++ q ∷ []) =
          omega (arith, length-append acked (q ∷ []), not-leb→lt a (length acked) new) in
        (
          acked ++ q ∷ [],
          qs,
          e ∙ sym (append_assoc acked (q ∷ []) qs),
          rw (← n) (rw new at h),
          omega arith,
          omega (arith, length-append acked (q ∷ [])),
        )

pub acknowledge-Inv :
    (s : Network) (a : ℕ) (r : Out)
    → (h : Inv s)
    → RepresentsOut
        (after_ack a (length h.acked) h.unacked).0
        (after_ack a (length h.acked) h.unacked).1
        r
    → a ≤ length s.delivered
    → Inv (record s { sender = r.0; frames = s.frames ++ sent_bodies r.1 })
acknowledge-Inv s a r h k le =
    let (acked, unacked, split, queue, behind, grows) =
      moves_to s r a h.acked h.unacked h.split k h.behind h.ahead le in
    record {
      acked = acked;
      unacked = unacked;
      rest = h.rest;
      split = split;
      queue = queue.0;
      is_prefix = h.is_prefix;
      receiver_open = h.receiver_open;
      idle = h.idle;
      due = h.due;
      frames_sent =
          All-append (IsSent s.stream (length acked + flight unacked)) s.frames (sent_bodies r.1)
            (All-map s.frames (λ b k. (k.0, omega (arith, k.1, grows))) h.frames_sent)
            (All-map (sent_bodies r.1) (λ b k. rw split (IsHead-IsSent acked unacked b k)) queue.1);
      acks_sent = h.acks_sent;
      behind = behind;
      ahead = omega (arith, h.ahead, grows);
    }
