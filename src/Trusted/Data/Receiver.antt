-- ===== src/Trusted/Data/Receiver.antt =====
-- The receiving side of DataSocketState: what one data frame does, whatever the sending side is at.
use heterogeneous_network.Base.{
  ℕ, ◌+◌, ◌≡◌, refl, sym, ◌∙◌, ap, ◌⊎◌, inl, inr, true, not, List, [], ◌∷◌, ◌++◌, Option, none,
  some, arith, ltb, leb, if_keeps, not-eq-true,
}
use heterogeneous_network.Trusted.Frame.{Payload, DataFrameBody}
use heterogeneous_network.Trusted.Action.{SocketAction, now, delay, receive}
use heterogeneous_network.Trusted.Data.{
  DataFrame, SendPendingFrame, DataSocketState, Out, send_first, send_unless,
  send_if_no_sending_frame, acknowledge, handle_acknowledge_number_in_received_frame,
  on_data_received, receive_if_due,
}
use mathlib.Core.List.{append-nil}

-- The payloads that a list of actions hands to the user.
abbrev pub payloads : List SocketAction → List Payload
payloads [] = []
payloads (now (receive p) ∷ actions) = p ∷ payloads actions
payloads (now _ ∷ actions) = payloads actions
payloads (delay d a ∷ actions) = payloads actions

-- Nothing is received, and the receiving side stays as it was in `s`.
abbrev pub IsSilent : DataSocketState → Out → Type 0
IsSilent s r =
    (r.0.next_receive ≡ s.next_receive)
    × (r.0.is_open ≡ s.is_open)
    × ((more : List SocketAction) → payloads (r.1 ++ more) ≡ payloads more)

send_first-IsSilent :
    (ps : List SendPendingFrame) (s : DataSocketState) → IsSilent s (send_first ps s)
send_first-IsSilent [] s = (refl, refl, λ _. refl)
send_first-IsSilent (p ∷ ps) s = (refl, refl, λ _. refl)

send_unless-IsSilent : (o : Option DataFrame) (s : DataSocketState) → IsSilent s (send_unless o s)
send_unless-IsSilent none s = send_first-IsSilent s.send_pending_frames s
send_unless-IsSilent (some f) s = (refl, refl, λ _. refl)

acknowledge-IsSilent :
    (o : Option DataFrame) (ack : ℕ) (s : DataSocketState) → IsSilent s (acknowledge o ack s)
unfolding send_if_no_sending_frame
acknowledge-IsSilent none ack s = (refl, refl, λ _. refl)
acknowledge-IsSilent (some f) ack s =
    if_keeps (IsSilent s) (leb ack f.frame.body.sequence_number) _ _ (λ _. (refl, refl, λ _. refl))
      (λ _.
        let s' = record s { sending_frame = none; next_send = ack } in send_unless-IsSilent none _)

pub handle-IsSilent :
    (ack : ℕ) (s : DataSocketState) → IsSilent s (handle_acknowledge_number_in_received_frame ack s)
unfolding handle_acknowledge_number_in_received_frame
handle-IsSilent ack s = acknowledge-IsSilent s.sending_frame ack s

-- A data frame with the next number hands its payload over, once; any other hands over nothing.
abbrev pub Receives : DataFrameBody → DataSocketState → Out → Type 0
Receives body s r =
    (r.0.is_open ≡ true)
    × (((body.sequence_number ≡ s.next_receive)
          × (r.0.next_receive ≡ s.next_receive + 1)
          × (payloads r.1 ≡ body.payload ∷ []))
        ⊎ ((r.0.next_receive ≡ s.next_receive) × (payloads r.1 ≡ [])))

receive_if_due-Receives :
    (body : DataFrameBody) (s t : DataSocketState) (actions : List SocketAction)
    → s.is_open ≡ true
    → IsSilent s (t, actions)
    → Receives body s (receive_if_due body (t, actions))
unfolding receive_if_due
receive_if_due-Receives body s t actions o h =
    if_keeps (Receives body s) (ltb body.sequence_number t.next_receive) _ _
      (λ _. (h.1 ∙ o, inr (h.0, h.2 _)))
      (λ not_below.
        if_keeps (Receives body s) (ltb t.next_receive body.sequence_number) _ _
          (λ _. (h.1 ∙ o, inr (h.0, ap payloads (sym (append-nil actions)) ∙ h.2 [])))
          (λ not_above.
            let e : body.sequence_number ≡ s.next_receive = ground (arith, h.0) in
            (h.1 ∙ o, inl (e, omega arith, h.2 _))))

pub on_data_received-Receives :
    (body : DataFrameBody) (s : DataSocketState)
    → s.is_open ≡ true
    → Receives body s (on_data_received body s)
unfolding on_data_received
on_data_received-Receives body s o =
    if_keeps (Receives body s) (not s.is_open) _ _ (λ e. cc (not-eq-true _ e))
      (λ _. receive_if_due-Receives body s _ _ o (handle-IsSilent body.acknowledgement_number s))
