-- ===== src/Trusted/Action/ControlAckTimeout.antt =====
-- class ReceiveControlAckTimeoutAction (trusted/socket/state.ts): no acknowledgement of a SYN or a
-- FIN has come in time.
use heterogeneous_network.Base.{ℕ, ◌-◌, Bool, Throws, ok, throw, ltb, if◌then◌else◌}
use heterogeneous_network.Trusted.Frame.{ControlBody, retry_count}
use heterogeneous_network.Trusted.Action.SendControl.{SendControlAction}

pub record ReceiveControlAckTimeoutAction : Type 0 where
  pub body : ControlBody
  pub remaining_ack_timeout_retry_count : ℕ

unfoldable pub from_send_control_action : SendControlAction → ReceiveControlAckTimeoutAction
from_send_control_action a = record {
  body = a.body;
  remaining_ack_timeout_retry_count = a.remaining_ack_timeout_retry_count;
}

unfoldable pub retryable : ReceiveControlAckTimeoutAction → Bool
retryable a = ltb 0 a.remaining_ack_timeout_retry_count

unfoldable pub retry : ReceiveControlAckTimeoutAction → Throws SendControlAction
unfolding retryable
retry a =
    if retryable a
    then ok (record {
      body = a.body;
      remaining_retry_count = retry_count;
      remaining_ack_timeout_retry_count = a.remaining_ack_timeout_retry_count - 1;
    })
    else throw
