-- ===== src/Trusted/Syn.antt =====
-- class SynSocketState (trusted/socket/state.ts): the opening handshake.
use heterogeneous_network.Base.{
  Bool, true, false, not, ◌&&◌, ◌||◌, [], ◌∷◌, ok, ◌>>=◌, if◌then◌else◌,
}
use heterogeneous_network.Trusted.Frame.{syn_body, syn_ack_body, retry_interval, ack_timeout}
use heterogeneous_network.Trusted.Action.{
  now, delay, open_socket, close_socket, send_control, send_control_ack, control_ack_timeout,
  Handler, OperationResult, done, invalid_operation,
}
use heterogeneous_network.Trusted.Action.SendControl
use heterogeneous_network.Trusted.Action.SendControl.{SendControlAction}
use heterogeneous_network.Trusted.Action.ControlAckTimeout
use heterogeneous_network.Trusted.Action.ControlAckTimeout.{ReceiveControlAckTimeoutAction}
use heterogeneous_network.Trusted.Action.SendControlAck
use heterogeneous_network.Trusted.Action.SendControlAck.{SendControlAckAction}

pub data SynIncomingState : Type 0 where
  yet syn_received syn_ack_sent : SynIncomingState

pub data SynOutgoingState : Type 0 where
  yet syn_sent syn_ack_received : SynOutgoingState

pub record SynSocketState : Type 0 where
  pub incoming : SynIncomingState
  pub outgoing : SynOutgoingState

unfoldable pub initial : SynSocketState
initial = record { incoming = SynIncomingState.yet; outgoing = SynOutgoingState.yet }

-- The comparisons of the two fields with the names of states.
abbrev pub incoming_is_yet : SynIncomingState → Bool
incoming_is_yet SynIncomingState.yet = true
incoming_is_yet syn_received = false
incoming_is_yet syn_ack_sent = false

abbrev pub is_syn_received : SynIncomingState → Bool
is_syn_received SynIncomingState.yet = false
is_syn_received syn_received = true
is_syn_received syn_ack_sent = false

abbrev pub is_syn_ack_sent : SynIncomingState → Bool
is_syn_ack_sent SynIncomingState.yet = false
is_syn_ack_sent syn_received = false
is_syn_ack_sent syn_ack_sent = true

abbrev pub outgoing_is_yet : SynOutgoingState → Bool
outgoing_is_yet SynOutgoingState.yet = true
outgoing_is_yet syn_sent = false
outgoing_is_yet syn_ack_received = false

abbrev pub is_syn_sent : SynOutgoingState → Bool
is_syn_sent SynOutgoingState.yet = false
is_syn_sent syn_sent = true
is_syn_sent syn_ack_received = false

abbrev pub is_syn_ack_received : SynOutgoingState → Bool
is_syn_ack_received SynOutgoingState.yet = false
is_syn_ack_received syn_sent = false
is_syn_ack_received syn_ack_received = true

unfoldable pub is_open : SynSocketState → Bool
is_open s = is_syn_ack_sent s.incoming && is_syn_ack_received s.outgoing

unfoldable pub is_opening : SynSocketState → Bool
is_opening s =
    not (is_syn_ack_sent s.incoming && is_syn_ack_received s.outgoing)
    && not (incoming_is_yet s.incoming || outgoing_is_yet s.outgoing)

unfoldable pub connect : SynSocketState → OperationResult SynSocketState
unfolding SendControl.create
connect s =
    if incoming_is_yet s.incoming && outgoing_is_yet s.outgoing
    then done s (now (send_control (SendControl.create syn_body)) ∷ [])
    else invalid_operation

unfoldable pub on_syn_send_success : SendControlAction → SynSocketState → Handler SynSocketState
unfolding ControlAckTimeout.from_send_control_action
on_syn_send_success a s = ok (
  record s { outgoing = syn_sent },
  delay ack_timeout (control_ack_timeout (ControlAckTimeout.from_send_control_action a) ∷ []) ∷ [],
)

unfoldable pub on_syn_send_failure : SendControlAction → SynSocketState → Handler SynSocketState
unfolding SendControl.retryable SendControl.retry
on_syn_send_failure a s =
    if not (outgoing_is_yet s.outgoing)
    then ok (s, [])
    else if not (SendControl.retryable a)
    then ok (s, now (close_socket true) ∷ [])
    else do a' ← SendControl.retry a; ok (s, delay retry_interval (send_control a' ∷ []) ∷ [])

unfoldable pub on_syn_ack_received : SynSocketState → Handler SynSocketState
unfolding is_open
on_syn_ack_received s =
    if outgoing_is_yet s.outgoing
    then ok (s, [])
    else let s' = record s { outgoing = syn_ack_received } in
      ok (s', if is_open s' then now open_socket ∷ [] else [])

unfoldable pub on_syn_ack_receive_timeout :
    ReceiveControlAckTimeoutAction → SynSocketState → Handler SynSocketState
unfolding ControlAckTimeout.retryable ControlAckTimeout.retry
on_syn_ack_receive_timeout a s =
    if not (is_syn_sent s.outgoing)
    then ok (s, [])
    else if not (ControlAckTimeout.retryable a)
    then ok (s, now (close_socket true) ∷ [])
    else do a' ← ControlAckTimeout.retry a; ok (s, now (send_control a') ∷ [])

unfoldable pub on_syn_received : SynSocketState → Handler SynSocketState
unfolding SendControlAck.create SendControl.create
on_syn_received s =
    let s' = record s { incoming = syn_received } in
    let acknowledge = now (send_control_ack (SendControlAck.create syn_ack_body)) in
    if outgoing_is_yet s.outgoing
    then ok (s', acknowledge ∷ now (send_control (SendControl.create syn_body)) ∷ [])
    else ok (s', acknowledge ∷ [])

unfoldable pub on_syn_ack_send_success : SynSocketState → Handler SynSocketState
unfolding is_open
on_syn_ack_send_success s =
    if not (is_syn_received s.incoming)
    then ok (s, [])
    else let s' = record s { incoming = syn_ack_sent } in
      ok (s', if is_open s' then now open_socket ∷ [] else [])

unfoldable pub on_syn_ack_send_failure :
    SendControlAckAction → SynSocketState → Handler SynSocketState
unfolding SendControlAck.retryable SendControlAck.retry
on_syn_ack_send_failure a s =
    if not (is_syn_received s.incoming)
    then ok (s, [])
    else if not (SendControlAck.retryable a)
    then ok (s, now (close_socket true) ∷ [])
    else do
      a' ← SendControlAck.retry a
      ok (s, delay retry_interval (send_control_ack a' ∷ []) ∷ [])

unfoldable pub on_close : SynSocketState → SynSocketState
unfolding initial
on_close s = initial
