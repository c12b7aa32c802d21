-- ===== src/Trusted/Protocol/Receiving.antt =====
-- The receiver of the protocol: a socket that sends no data of its own.
use heterogeneous_network.Base.{
  ℕ, ◌≡◌, refl, true, not, not-eq-true, [], Option, none, some, All, ltb, if_keeps,
}
use heterogeneous_network.Trusted.Frame.{DataFrameBody}
use heterogeneous_network.Trusted.Action.SendDataAck
use heterogeneous_network.Trusted.Data.{
  DataFrame, DataSocketState, Out, acknowledge, on_data_received, receive_if_due,
  handle_acknowledge_number_in_received_frame,
}
use heterogeneous_network.Trusted.Protocol.{sent_acks}

-- Nothing is in flight, and what is acknowledged is the number that is due.
abbrev pub Acknowledges : Out → Type 0
Acknowledges r = (r.0.sending_frame ≡ none) × All (λ (a : ℕ). a ≡ r.0.next_receive) (sent_acks r.1)

acknowledge_idle :
    (o : Option DataFrame) (ack : ℕ) (s : DataSocketState)
    → o ≡ none
    → acknowledge o ack s ≡ (s, [])
acknowledge_idle none ack s e = refl
acknowledge_idle (some f) ack s e = cc

receive_if_due-Acknowledges :
    (b : DataFrameBody) (s : DataSocketState)
    → s.sending_frame ≡ none
    → Acknowledges (receive_if_due b (s, []))
unfolding receive_if_due SendDataAck.create
receive_if_due-Acknowledges b s e =
    if_keeps Acknowledges (ltb b.sequence_number s.next_receive) _ _ (λ _. (e, (refl, tt)))
      (λ _.
        if_keeps Acknowledges (ltb s.next_receive b.sequence_number) _ _ (λ _. (e, tt))
          (λ _. (e, (refl, tt))))

pub on_data_received-Acknowledges :
    (b : DataFrameBody) (s : DataSocketState)
    → s.is_open ≡ true
    → s.sending_frame ≡ none
    → Acknowledges (on_data_received b s)
unfolding on_data_received handle_acknowledge_number_in_received_frame
on_data_received-Acknowledges b s o e =
    if_keeps Acknowledges (not s.is_open) _ _ (λ c. cc (o, not-eq-true _ c))
      (λ _.
        rw (acknowledge_idle s.sending_frame b.acknowledgement_number s e)
          (receive_if_due-Acknowledges b s e))
