-- ===== src/Trusted/Fin.antt =====
-- class FinSocketState (trusted/socket/state.ts): the closing handshake.
use heterogeneous_network.Base.{Bool, true, false, not, ◌&&◌, [], ◌∷◌, ok, ◌>>=◌, if◌then◌else◌}
use heterogeneous_network.Base.Int.{is_zero}
use heterogeneous_network.Trusted.Frame.{fin_body, fin_ack_body, retry_interval, ack_timeout}
use heterogeneous_network.Trusted.Action.{
  now, delay, close_socket, send_control, send_control_ack, control_ack_timeout, Handler,
  OperationResult, done, invalid_operation,
}
use heterogeneous_network.Trusted.Action.SendControl
use heterogeneous_network.Trusted.Action.SendControl.{SendControlAction}
use heterogeneous_network.Trusted.Action.ControlAckTimeout
use heterogeneous_network.Trusted.Action.ControlAckTimeout.{ReceiveControlAckTimeoutAction}
use heterogeneous_network.Trusted.Action.SendControlAck
use heterogeneous_network.Trusted.Action.SendControlAck.{SendControlAckAction}

pub data FinIncomingState : Type 0 where
  yet fin_received fin_ack_sent : FinIncomingState

pub data FinOutgoingState : Type 0 where
  yet fin_sent fin_ack_received : FinOutgoingState

pub record FinSocketState : Type 0 where
  pub incoming : FinIncomingState
  pub outgoing : FinOutgoingState

unfoldable pub initial : FinSocketState
initial = record { incoming = FinIncomingState.yet; outgoing = FinOutgoingState.yet }

-- The comparisons of the two fields with the names of states.
abbrev pub incoming_is_yet : FinIncomingState → Bool
incoming_is_yet FinIncomingState.yet = true
incoming_is_yet fin_received = false
incoming_is_yet fin_ack_sent = false

abbrev pub is_fin_received : FinIncomingState → Bool
is_fin_received FinIncomingState.yet = false
is_fin_received fin_received = true
is_fin_received fin_ack_sent = false

abbrev pub is_fin_ack_sent : FinIncomingState → Bool
is_fin_ack_sent FinIncomingState.yet = false
is_fin_ack_sent fin_received = false
is_fin_ack_sent fin_ack_sent = true

abbrev pub outgoing_is_yet : FinOutgoingState → Bool
outgoing_is_yet FinOutgoingState.yet = true
outgoing_is_yet fin_sent = false
outgoing_is_yet fin_ack_received = false

abbrev pub is_fin_sent : FinOutgoingState → Bool
is_fin_sent FinOutgoingState.yet = false
is_fin_sent fin_sent = true
is_fin_sent fin_ack_received = false

abbrev pub is_fin_ack_received : FinOutgoingState → Bool
is_fin_ack_received FinOutgoingState.yet = false
is_fin_ack_received fin_sent = false
is_fin_ack_received fin_ack_received = true

unfoldable pub is_closed : FinSocketState → Bool
is_closed s = is_fin_ack_sent s.incoming && is_fin_ack_received s.outgoing

unfoldable pub is_closing : FinSocketState → Bool
is_closing s =
    not (is_fin_ack_sent s.incoming && is_fin_ack_received s.outgoing)
    && not (incoming_is_yet s.incoming && outgoing_is_yet s.outgoing)

unfoldable pub on_fin_send_success : SendControlAction → FinSocketState → Handler FinSocketState
unfolding ControlAckTimeout.from_send_control_action
on_fin_send_success a s = ok (
  record s { outgoing = fin_sent },
  delay ack_timeout (control_ack_timeout (ControlAckTimeout.from_send_control_action a) ∷ []) ∷ [],
)

unfoldable pub on_fin_send_failure : SendControlAction → FinSocketState → Handler FinSocketState
unfolding SendControl.retryable SendControl.retry
on_fin_send_failure a s =
    if not (outgoing_is_yet s.outgoing)
    then ok (s, [])
    else if not (SendControl.retryable a)
    then ok (s, now (close_socket true) ∷ [])
    else do a' ← SendControl.retry a; ok (s, delay retry_interval (send_control a' ∷ []) ∷ [])

unfoldable pub on_fin_ack_received : FinSocketState → Handler FinSocketState
unfolding is_closed
on_fin_ack_received s =
    if outgoing_is_yet s.outgoing
    then ok (s, [])
    else let s' = record s { outgoing = fin_ack_received } in
      ok (s', if is_closed s' then now (close_socket false) ∷ [] else [])

unfoldable pub on_fin_ack_receive_timeout :
    ReceiveControlAckTimeoutAction → FinSocketState → Handler FinSocketState
unfolding ControlAckTimeout.retryable ControlAckTimeout.retry
on_fin_ack_receive_timeout a s =
    if not (is_fin_sent s.outgoing)
    then ok (s, [])
    else if not (ControlAckTimeout.retryable a)
    then ok (s, now (close_socket true) ∷ [])
    else do a' ← ControlAckTimeout.retry a; ok (s, now (send_control a') ∷ [])

unfoldable pub on_fin_received : FinSocketState → Handler FinSocketState
unfolding SendControlAck.create SendControl.create
on_fin_received s =
    let s' = record s { incoming = fin_received } in
    let acknowledge = now (send_control_ack (SendControlAck.create fin_ack_body)) in
    if outgoing_is_yet s.outgoing
    then ok (s', acknowledge ∷ now (send_control (SendControl.create fin_body)) ∷ [])
    else ok (s', acknowledge ∷ [])

unfoldable pub on_fin_ack_send_success : FinSocketState → Handler FinSocketState
unfolding is_closed
on_fin_ack_send_success s =
    if not (is_fin_received s.incoming)
    then ok (s, [])
    else let s' = record s { incoming = fin_ack_sent } in
      ok (s', if is_closed s' then now (close_socket false) ∷ [] else [])

-- The test is on the counter itself, and not `retryable`.
unfoldable pub on_fin_ack_send_failure :
    SendControlAckAction → FinSocketState → Handler FinSocketState
unfolding SendControlAck.retry
on_fin_ack_send_failure a s =
    if not (is_fin_received s.incoming)
    then ok (s, [])
    else if is_zero a.remaining_retry_count
    then ok (s, now (close_socket true) ∷ [])
    else do
      a' ← SendControlAck.retry a
      ok (s, delay retry_interval (send_control_ack a' ∷ []) ∷ [])

unfoldable pub close : FinSocketState → OperationResult FinSocketState
unfolding SendControl.create
close s =
    if outgoing_is_yet s.outgoing && incoming_is_yet s.incoming
    then done s (now (send_control (SendControl.create fin_body)) ∷ [])
    else invalid_operation

unfoldable pub on_close : FinSocketState → FinSocketState
unfolding initial
on_close s = initial
