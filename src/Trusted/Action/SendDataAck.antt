-- ===== src/Trusted/Action/SendDataAck.antt =====
-- class SendDataAckAction (trusted/socket/state.ts): acknowledge data. The counter is compared by
-- `< 0`, so it is a signed number here. `body` is the acknowledgement number of the frame's body.
use heterogeneous_network.Base.{ℕ, Bool, Throws, ok, throw, if◌then◌else◌}
use heterogeneous_network.Base.Int.{ℤ, pos, is_negative, pred_ℤ}
use heterogeneous_network.Trusted.Frame.{retry_count}

pub record SendDataAckAction : Type 0 where
  pub body : ℕ
  pub remaining_retry_count : ℤ
  pub acknowledgement_number : ℕ

unfoldable pub create : ℕ → SendDataAckAction
create ack = record {
  body = ack;
  remaining_retry_count = pos retry_count;
  acknowledgement_number = ack;
}

unfoldable pub retryable : SendDataAckAction → Bool
retryable a = is_negative a.remaining_retry_count

unfoldable pub retry : SendDataAckAction → Throws SendDataAckAction
unfolding retryable
retry a =
    if retryable a
    then ok (record {
      body = a.body;
      remaining_retry_count = pred_ℤ a.remaining_retry_count;
      acknowledgement_number = a.acknowledgement_number;
    })
    else throw
