-- ===== src/Trusted/Action/SendControl.antt =====
-- class SendControlAction (trusted/socket/state.ts): send a SYN or a FIN, and try again on failure.
use heterogeneous_network.Base.{ℕ, ◌-◌, Bool, Throws, ok, throw, ltb, if◌then◌else◌}
use heterogeneous_network.Trusted.Frame.{ControlBody, retry_count}

pub record SendControlAction : Type 0 where
  pub body : ControlBody
  pub remaining_retry_count : ℕ
  pub remaining_ack_timeout_retry_count : ℕ

unfoldable pub create : ControlBody → SendControlAction
create b = record {
  body = b;
  remaining_retry_count = retry_count;
  remaining_ack_timeout_retry_count = retry_count;
}

unfoldable pub retryable : SendControlAction → Bool
retryable a = ltb 0 a.remaining_retry_count

unfoldable pub retry : SendControlAction → Throws SendControlAction
unfolding retryable
retry a =
    if retryable a
    then ok (record {
      body = a.body;
      remaining_retry_count = a.remaining_retry_count - 1;
      remaining_ack_timeout_retry_count = retry_count;
    })
    else throw
