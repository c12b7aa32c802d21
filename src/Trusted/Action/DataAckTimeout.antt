-- ===== src/Trusted/Action/DataAckTimeout.antt =====
-- class ReceiveDataAckTimeoutAction (trusted/socket/state.ts): no acknowledgement of a data frame
-- has come in time.
use heterogeneous_network.Base.{ℕ, ◌-◌, Bool, Throws, ok, throw, ltb, if◌then◌else◌}
use heterogeneous_network.Trusted.Frame.{DataFrameBody, retry_count}
use heterogeneous_network.Trusted.Action.SendData.{SendDataAction}

pub record ReceiveDataAckTimeoutAction : Type 0 where
  pub body : DataFrameBody
  pub remaining_ack_timeout_retry_count : ℕ
  pub result : ℕ

unfoldable pub from_send_data_action : SendDataAction → ReceiveDataAckTimeoutAction
from_send_data_action a = record {
  body = a.body;
  remaining_ack_timeout_retry_count = a.remaining_ack_timeout_retry_count;
  result = a.result;
}

unfoldable pub retryable : ReceiveDataAckTimeoutAction → Bool
retryable a = ltb 0 a.remaining_ack_timeout_retry_count

unfoldable pub retry : ReceiveDataAckTimeoutAction → Throws SendDataAction
unfolding retryable
retry a =
    if retryable a
    then ok (record {
      body = a.body;
      remaining_retry_count = retry_count;
      remaining_ack_timeout_retry_count = a.remaining_ack_timeout_retry_count - 1;
      result = a.result;
    })
    else throw
