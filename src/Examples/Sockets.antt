-- ===== src/Examples/Sockets.antt =====
-- The theorems on trusted sockets at concrete sockets.
use heterogeneous_network.Base.{
  ℕ, ◌≡◌, ◌↔◌, refl, true, false, List, [], ◌∷◌, none, some, All, arith, ok, throw,
}
use heterogeneous_network.Base.Int.{pos}
use heterogeneous_network.Deferred.{pending, fulfilled, resolve, deferred}
use heterogeneous_network.Deferred.Laws.{IsPending}
use heterogeneous_network.Trusted.Frame.{
  Payload, DataFrameBody, fin_ack_body, syn_ack_body, control_ack,
}
use heterogeneous_network.Trusted.Action.{
  now, send_data, close_socket, Handler, OperationResult, done, invalid_operation,
}
use heterogeneous_network.Trusted.Action.SendData
use heterogeneous_network.Trusted.Action.SendData.{SendDataAction}
use heterogeneous_network.Trusted.Action.SendDataAck
use heterogeneous_network.Trusted.Action.DataAckTimeout
use heterogeneous_network.Trusted.Action.DataAckTimeout.{ReceiveDataAckTimeoutAction}
use heterogeneous_network.Trusted.Action.SendControlAck.{SendControlAckAction}
use heterogeneous_network.Trusted.Action.SendControl
use heterogeneous_network.Trusted.Syn
use heterogeneous_network.Trusted.Fin
use heterogeneous_network.Trusted.Data
use heterogeneous_network.Trusted.Data.{
  CreateFrame, DataFrame, DataSocketState, on_data_received, on_data_ack_received, on_close,
  on_send_data_failure,
}
use heterogeneous_network.Trusted.Data.Delivery.{receive_all, IsSegment, receive_all-IsSegment}
use heterogeneous_network.Trusted.Data.Promises.{on_close_settles, send_failure_strands}
use heterogeneous_network.Trusted.Data.Sender.{
  RepresentsSent, RepresentsSend, after_ack, is_acked, on_data_ack_received-Represents,
  send_data_frame-Represents,
}
use heterogeneous_network.Trusted.State
use heterogeneous_network.Trusted.State.{
  SocketState, initial, connect, on_receive, control_ack_action,
}
use heterogeneous_network.Trusted.State.Preserve.{IsValid}
use heterogeneous_network.Trusted.State.Reach.{
  socket_invariant, connects, receives, Step as Call, here as begin, next as then,
}
use heterogeneous_network.Trusted.State.Throws.{call, failed, is_owed_fin_ack_failure, call_throws}
use heterogeneous_network.Trusted.Protocol.{
  Network, here, next, Step, submit, times_out, deliver, acknowledge, start, opened,
}
use heterogeneous_network.Trusted.Protocol.Fifo.{IsFifo, protocol-IsFifo}
use heterogeneous_network.Trusted.Protocol.Wrap.{receive_acks, last_number_stalls}

abbrev create_with : Payload → CreateFrame
create_with q n a = record {
  checksum = 0;
  body = record { sequence_number = n; acknowledgement_number = a; payload = q };
}

abbrev body_with : Payload → ℕ → DataFrameBody
body_with q n = record { sequence_number = n; acknowledgement_number = 0; payload = q }

abbrev hello : Payload
hello = 104 ∷ 105 ∷ []

-- A frame with `hello` is in flight under the number `n`; its promise is the first one.
abbrev in_flight : ℕ → DataFrame
in_flight n = record { frame = create_with hello n 0; result = 0 }

abbrev sending : ℕ → DataSocketState
sending n = record {
  is_open = true;
  next_receive = 0;
  next_send = n;
  sending_frame = some (in_flight n);
  send_pending_frames = [];
  promises = pending ∷ pending ∷ [];
}

abbrev first_action : SendDataAction
first_action = record {
  body = body_with hello 0;
  remaining_retry_count = 5;
  remaining_ack_timeout_retry_count = 5;
  result = 1;
}

abbrev submitted : Network
submitted = record start {
  sender = sending 0;
  frames = body_with hello 0 ∷ [];
  stream = hello ∷ [];
}

-- No acknowledgement has come in time, and the frame is sent again.
abbrev sent_again : Network
sent_again = record submitted { frames = body_with hello 0 ∷ body_with hello 0 ∷ [] }

abbrev delivered_once : Network
delivered_once = record sent_again {
  receiver = record opened { next_receive = 1 };
  acks = 1 ∷ [];
  delivered = hello ∷ [];
}

abbrev acknowledged : Network
acknowledged = record delivered_once {
  sender = record opened { next_send = 1; promises = fulfilled SendData.sent ∷ pending ∷ [] };
}

submits : Step start submitted
unfolding Data.send_data_frame Data.send_if_no_sending_frame SendData.create deferred
submits =
    submit hello (create_with hello) (sending 0) (now (send_data first_action) ∷ []) 0
      (λ n a. (refl, refl)) refl refl

abbrev late : ReceiveDataAckTimeoutAction
late = DataAckTimeout.from_send_data_action first_action

repeats : Step submitted sent_again
unfolding Data.on_receive_data_ack_timeout DataAckTimeout.retry DataAckTimeout.from_send_data_action
repeats = times_out 0 late (sending 0) _ refl refl refl

delivers : Step sent_again delivered_once
unfolding on_data_received Data.handle_acknowledge_number_in_received_frame Data.receive_if_due
    SendDataAck.create
delivers = deliver 1 (body_with hello 0) refl refl

acknowledges : Step delivered_once acknowledged
unfolding on_data_ack_received Data.handle_acknowledge_number_in_received_frame
    Data.send_if_no_sending_frame resolve SendData.create
acknowledges = acknowledge 0 1 refl refl

protocol-IsFifo_example : IsFifo acknowledged
protocol-IsFifo_example =
    protocol-IsFifo acknowledged
      (next (next (next (next here submits) repeats) delivers) acknowledges) (omega arith)

abbrev left_by_operation : OperationResult SocketState → SocketState → SocketState
left_by_operation (done t out) s = t
left_by_operation invalid_operation s = s

abbrev left_by : Handler SocketState → SocketState → SocketState
left_by (ok r) s = r.0
left_by throw s = s

abbrev connecting : SocketState
connecting = left_by_operation (connect initial) initial

abbrev answered : SocketState
answered = left_by (on_receive (control_ack syn_ack_body) connecting) connecting

connects_first : Call initial connecting
unfolding initial connect Syn.initial Fin.initial Data.initial Syn.connect SendControl.create
    State.socket_action_hook State.hook_actions State.hook_action State.settle_state Syn.is_opening
    Fin.is_closing
connects_first = connects _ refl

is_answered : Call connecting answered
unfolding initial connect Syn.initial Fin.initial Data.initial Syn.connect SendControl.create
    State.socket_action_hook State.hook_actions State.hook_action State.settle_state Syn.is_opening
    Fin.is_closing on_receive Syn.on_syn_ack_received
is_answered = receives (control_ack syn_ack_body) _ refl

socket_invariant_example : IsValid answered
socket_invariant_example = socket_invariant answered (then (then begin connects_first) is_answered)

abbrev two_waiting : DataSocketState
two_waiting = record (sending 0) {
  send_pending_frames = record { create_frame = create_with (7 ∷ []); result = 1 } ∷ [];
}

on_data_ack_received-Represents_example :
    RepresentsSent true 1 ((7 ∷ []) ∷ []) (on_data_ack_received 1 two_waiting)
unfolding after_ack is_acked
on_data_ack_received-Represents_example =
    on_data_ack_received-Represents 1 0 (hello ∷ (7 ∷ []) ∷ []) two_waiting
      (refl, refl, ((refl, refl), ((λ n a. (refl, refl)), tt)))

send_data_frame-Represents_example :
    RepresentsSend false 0
      (hello ∷ (7 ∷ []) ∷ [])
      (Data.send_data_frame (create_with (7 ∷ [])) (sending 0))
send_data_frame-Represents_example =
    send_data_frame-Represents 0 (hello ∷ []) (7 ∷ []) (create_with (7 ∷ [])) (sending 0)
      (refl, refl, ((refl, refl), tt)) (λ n a. (refl, refl))

abbrev counting : ℕ → Payload
counting n = n ∷ []

abbrev out_of_order : List DataFrameBody
out_of_order =
    body_with (1 ∷ []) 1 ∷ body_with (0 ∷ []) 0 ∷ body_with (0 ∷ []) 0 ∷ body_with (1 ∷ []) 1 ∷ []

receive_all-IsSegment_example : IsSegment counting opened (receive_all out_of_order opened)
receive_all-IsSegment_example =
    receive_all-IsSegment counting out_of_order opened refl (refl, (refl, (refl, (refl, tt))))

abbrev fin_ack_action : SendControlAckAction
fin_ack_action = record { body = fin_ack_body; remaining_retry_count = pos 5 }

abbrev closing_by_peer : SocketState
closing_by_peer = record initial {
  fin = record { incoming = Fin.fin_received; outgoing = Fin.FinOutgoingState.yet };
}

call_throws_example :
    (call (failed (control_ack_action fin_ack_action)) closing_by_peer ≡ throw)
    ↔ (is_owed_fin_ack_failure (failed (control_ack_action fin_ack_action)) closing_by_peer ≡ true)
call_throws_example = call_throws (failed (control_ack_action fin_ack_action)) closing_by_peer

abbrev last_action : SendDataAction
last_action = record first_action { remaining_retry_count = 0 }

send_failure_strands_example :
    (t : DataSocketState) × (on_send_data_failure last_action (sending 0)
      ≡ ok (t, now (close_socket true) ∷ []))
    × IsPending (on_close t).promises 0
    × ((on_close t).sending_frame ≡ none)
unfolding SendData.retryable
send_failure_strands_example =
    send_failure_strands last_action (sending 0) (in_flight 0) refl refl refl refl
      (λ e. omega (arith, e)) tt refl

last_number_stalls_example :
    receive_acks (0 ∷ 65536 ∷ 70000 ∷ []) (sending 65535) ≡ (sending 65535, [])
last_number_stalls_example =
    last_number_stalls (0 ∷ 65536 ∷ 70000 ∷ []) (in_flight 65535) (sending 65535) refl refl

on_close_settles_example :
    All (λ p. ¬ IsPending (on_close two_waiting).promises p.result) two_waiting.send_pending_frames
on_close_settles_example = on_close_settles two_waiting
