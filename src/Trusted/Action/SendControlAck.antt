-- ===== src/Trusted/Action/SendControlAck.antt =====
-- class SendControlAckAction (trusted/socket/state.ts): send a SYN-ACK or a FIN-ACK. The counter is
-- compared by `< 0`, so it is a signed number here.
use heterogeneous_network.Base.{Bool, Throws, ok, throw, if◌then◌else◌}
use heterogeneous_network.Base.Int.{ℤ, pos, is_negative, pred_ℤ}
use heterogeneous_network.Trusted.Frame.{ControlAckBody, retry_count}

pub record SendControlAckAction : Type 0 where
  pub body : ControlAckBody
  pub remaining_retry_count : ℤ

unfoldable pub create : ControlAckBody → SendControlAckAction
create b = record { body = b; remaining_retry_count = pos retry_count }

unfoldable pub retryable : SendControlAckAction → Bool
retryable a = is_negative a.remaining_retry_count

unfoldable pub retry : SendControlAckAction → Throws SendControlAckAction
unfolding retryable
retry a =
    if retryable a
    then ok (record { body = a.body; remaining_retry_count = pred_ℤ a.remaining_retry_count })
    else throw
