-- ===== src/Trusted/Protocol/Wrap.antt =====
-- The end of the 16-bit numbers: `SequenceNumber` and `AcknowledgementNumber` count on without a
-- wrap, and their serializers keep 16 bits.
use heterogeneous_network.Base.{
  ℕ, ◌≤◌, ◌≡◌, refl, not, List, [], ◌∷◌, ◌++◌, Option, none, some, arith, le→leb, if_keeps,
}
use heterogeneous_network.Trusted.Action.{SocketAction}
use heterogeneous_network.Trusted.Data.{
  DataFrame, DataSocketState, acknowledge, handle_acknowledge_number_in_received_frame,
  on_data_ack_received,
}
use heterogeneous_network.Trusted.Protocol.{wire}

acknowledge_old :
    (o : Option DataFrame) (f : DataFrame) (ack : ℕ) (s : DataSocketState)
    → o ≡ some f
    → ack ≤ f.frame.body.sequence_number
    → acknowledge o ack s ≡ (s, [])
acknowledge_old none f ack s e h = cc
acknowledge_old (some g) f ack s e h =
    let same : g ≡ f = cc in rw (le→leb ack g.frame.body.sequence_number (rw same h)) refl

stall :
    (a : ℕ) (f : DataFrame) (s : DataSocketState)
    → s.sending_frame ≡ some f
    → f.frame.body.sequence_number ≡ 65535
    → on_data_ack_received (wire a) s ≡ (s, [])
unfolding on_data_ack_received handle_acknowledge_number_in_received_frame
stall a f s e n =
    if_keeps (λ r. r ≡ (s, [])) (not s.is_open) _ _ (λ _. refl)
      (λ _. acknowledge_old s.sending_frame f (wire a) s e (omega (arith, n)))

-- Acknowledgements that arrive one after the other, with what they make the socket send.
pub receive_acks : List ℕ → DataSocketState → DataSocketState × List SocketAction
receive_acks [] s = (s, [])
receive_acks (a ∷ acks) s =
    let (t, out) = on_data_ack_received (wire a) s in
    let (u, more) = receive_acks acks t in (u, out ++ more)

-- Once the frame in flight has the number 65535, no sequence of acknowledgements that comes
-- through the tunnel, whatever numbers the other side means by them, changes the socket or sends
-- anything: the frame is never acknowledged, and no frame behind it is ever sent.
pub last_number_stalls :
    (acks : List ℕ) (f : DataFrame) (s : DataSocketState)
    → s.sending_frame ≡ some f
    → f.frame.body.sequence_number ≡ 65535
    → receive_acks acks s ≡ (s, [])
unfolding receive_acks
last_number_stalls [] f s e n = refl
last_number_stalls (a ∷ acks) f s e n =
    rw (stall a f s e n) (rw (last_number_stalls acks f s e n) refl)
