-- ===== src/Trusted/State/Throws.antt =====
-- Which calls of SocketState's methods throw: `retry` throws where the counter of its action is
-- used up, and each handler asks first.
use heterogeneous_network.Base.{
  ◌≡◌, ◌≢◌, refl, Bool, true, false, not, ◌&&◌, arith, ok, throw, ◌>>=◌, ◌↔◌,
}
use heterogeneous_network.Base.Int.{is_zero, is_negative}
use heterogeneous_network.Trusted.Frame.{
  TrustedFrameBody, ControlAckBody, syn_body, fin_body, syn_ack_body, fin_ack_body, control,
  control_ack, data_body, data_ack_body,
}
use heterogeneous_network.Trusted.Action.{Handler}
use heterogeneous_network.Trusted.Action.SendControl.{SendControlAction}
use heterogeneous_network.Trusted.Action.ControlAckTimeout.{ReceiveControlAckTimeoutAction}
use heterogeneous_network.Trusted.Action.SendData.{SendDataAction}
use heterogeneous_network.Trusted.Action.DataAckTimeout.{ReceiveDataAckTimeoutAction}
use heterogeneous_network.Trusted.Action.SendControlAck.{SendControlAckAction}
use heterogeneous_network.Trusted.Action.SendDataAck.{SendDataAckAction}
use heterogeneous_network.Trusted.Syn
use heterogeneous_network.Trusted.Syn.{SynSocketState}
use heterogeneous_network.Trusted.Fin
use heterogeneous_network.Trusted.Fin.{FinSocketState}
use heterogeneous_network.Trusted.Data
use heterogeneous_network.Trusted.Data.{DataSocketState}
use heterogeneous_network.Trusted.State.{
  SocketState, SendAction, control_action, control_ack_action, data_action, data_ack_action,
  TimeoutAction, control_timeout, data_timeout, on_receive, on_send_success, on_send_failure,
  on_receive_ack_timeout, socket_action_hook,
}

-- A call of one of the four handlers.
pub data Call : Type 0 where
  receive : TrustedFrameBody → Call
  sent : SendAction → Call
  failed : SendAction → Call
  timed_out : TimeoutAction → Call

pub call : Call → SocketState → Handler SocketState
call (receive b) s = on_receive b s
call (sent a) s = on_send_success a s
call (failed a) s = on_send_failure a s
call (timed_out a) s = on_receive_ack_timeout a s

abbrev is_fin_ack : ControlAckBody → Bool
is_fin_ack syn_ack_body = false
is_fin_ack fin_ack_body = true

-- The failure of a FIN-ACK that is still owed, with a counter above 0.
abbrev pub is_owed_fin_ack_failure : Call → SocketState → Bool
is_owed_fin_ack_failure (failed (control_ack_action a)) s =
    is_fin_ack a.body
    && Fin.is_fin_received s.fin.incoming
    && not (is_zero a.remaining_retry_count)
    && not (is_negative a.remaining_retry_count)
is_owed_fin_ack_failure _ s = false

-- A throw comes from the handler of the part.
hooked_throw :
    {S : Type 0} (r : Handler S) (put : S → SocketState)
    → (do (t, actions) ← r; ok (socket_action_hook actions (put t))) ≡ throw
    → r ≡ throw
hooked_throw (ok r) put e = cc
hooked_throw throw put e = refl

data_handlers_return :
    (s : DataSocketState) (a : SendDataAction) (b : SendDataAckAction)
    (c : ReceiveDataAckTimeoutAction)
    → (Data.on_send_data_success a s ≢ throw)
      × (Data.on_send_data_failure a s ≢ throw)
      × (Data.on_send_data_ack_failure b s ≢ throw)
      × (Data.on_receive_data_ack_timeout c s ≢ throw)
unfolding Data.on_send_data_success Data.on_send_data_failure Data.on_send_data_ack_failure
    Data.on_receive_data_ack_timeout
data_handlers_return s a b c = (ground arith, ground arith, ground arith, ground arith)

syn_handlers_return :
    (s : SynSocketState) (a : SendControlAction) (b : SendControlAckAction)
    (c : ReceiveControlAckTimeoutAction)
    → (Syn.on_syn_send_failure a s ≢ throw)
      × (Syn.on_syn_ack_send_failure b s ≢ throw)
      × (Syn.on_syn_ack_receive_timeout c s ≢ throw)
unfolding Syn.on_syn_send_failure Syn.on_syn_ack_send_failure Syn.on_syn_ack_receive_timeout
syn_handlers_return s a b c = (ground arith, ground arith, ground arith)

on_receive_returns : (b : TrustedFrameBody) (s : SocketState) → on_receive b s ≢ throw
unfolding on_receive Syn.on_syn_received Syn.on_syn_ack_received Fin.on_fin_received
    Fin.on_fin_ack_received
on_receive_returns (control syn_body) s = ground arith
on_receive_returns (control_ack syn_ack_body) s = ground arith
on_receive_returns (data_body b) s = ground arith
on_receive_returns (data_ack_body a) s = ground arith
on_receive_returns (control fin_body) s = ground arith
on_receive_returns (control_ack fin_ack_body) s = ground arith

on_send_success_returns : (a : SendAction) (s : SocketState) → on_send_success a s ≢ throw
unfolding on_send_success Syn.on_syn_send_success Syn.on_syn_ack_send_success
    Fin.on_fin_send_success Fin.on_fin_ack_send_success Data.on_send_data_success
on_send_success_returns (control_action a) s = ground arith
on_send_success_returns (control_ack_action a) s = ground arith
on_send_success_returns (data_action a) s = ground arith
on_send_success_returns (data_ack_action a) s = ground arith

on_receive_ack_timeout_returns :
    (a : TimeoutAction) (s : SocketState) → on_receive_ack_timeout a s ≢ throw
unfolding on_receive_ack_timeout Syn.on_syn_ack_receive_timeout Fin.on_fin_ack_receive_timeout
    Data.on_receive_data_ack_timeout
on_receive_ack_timeout_returns (control_timeout a) s = ground arith
on_receive_ack_timeout_returns (data_timeout a) s = ground arith

on_send_failure_throws :
    (a : SendAction) (s : SocketState)
    → (on_send_failure a s ≡ throw) ↔ (is_owed_fin_ack_failure (failed a) s ≡ true)
unfolding on_send_failure Syn.on_syn_send_failure Syn.on_syn_ack_send_failure
    Fin.on_fin_send_failure Fin.on_fin_ack_send_failure Data.on_send_data_failure
    Data.on_send_data_ack_failure
on_send_failure_throws (control_action a) s = ground arith
on_send_failure_throws (control_ack_action a) s = ground arith
on_send_failure_throws (data_action a) s = ground arith
on_send_failure_throws (data_ack_action a) s = ground arith

-- A handler throws exactly when the frame that could not be sent is a FIN-ACK which is still owed
-- and whose retry counter is above 0: the handler then calls `retry`, which refuses such a
-- counter. Every other call returns.
pub call_throws :
    (c : Call) (s : SocketState) → (call c s ≡ throw) ↔ (is_owed_fin_ack_failure c s ≡ true)
unfolding call
call_throws (receive b) s = (λ e. absurd (on_receive_returns b s e), λ e. cc)
call_throws (sent a) s = (λ e. absurd (on_send_success_returns a s e), λ e. cc)
call_throws (failed a) s = on_send_failure_throws a s
call_throws (timed_out a) s = (λ e. absurd (on_receive_ack_timeout_returns a s e), λ e. cc)
