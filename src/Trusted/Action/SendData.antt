-- ===== src/Trusted/Action/SendData.antt =====
-- class SendDataAction (trusted/socket/state.ts): send a data frame, and try again on failure.
-- `result` is the index of the promise that the action carries.
use heterogeneous_network.Base.{ℕ, ◌-◌, Bool, List, Throws, ok, throw, ltb, if◌then◌else◌}
use heterogeneous_network.Deferred.{Status, deferred}
use heterogeneous_network.Trusted.Frame.{DataFrameBody, retry_count}

-- `Result<void, "timeout">`
pub data SendResult : Type 0 where
  sent timeout : SendResult

pub record SendDataAction : Type 0 where
  pub body : DataFrameBody
  pub remaining_retry_count : ℕ
  pub remaining_ack_timeout_retry_count : ℕ
  pub result : ℕ

-- The action makes a promise of its own.
unfoldable pub create :
    DataFrameBody → List (Status SendResult) → List (Status SendResult) × SendDataAction
create b promises =
    let (promises', id) = deferred promises in
    (
      promises',
      record {
        body = b;
        remaining_retry_count = retry_count;
        remaining_ack_timeout_retry_count = retry_count;
        result = id;
      },
    )

unfoldable pub retryable : SendDataAction → Bool
retryable a = ltb 0 a.remaining_retry_count

unfoldable pub retry : SendDataAction → Throws SendDataAction
unfolding retryable
retry a =
    if retryable a
    then ok (record {
      body = a.body;
      remaining_retry_count = a.remaining_retry_count - 1;
      remaining_ack_timeout_retry_count = retry_count;
      result = a.result;
    })
    else throw
