-- ===== src/Trusted/Protocol/Retry.antt =====
-- A frame is sent again, or given up: the step keeps the protocol's invariant.
use heterogeneous_network.Base.{
  ℕ, ◌≡◌, true, false, Bool, not, List, [], ◌∷◌, ◌++◌, Option, none, some, ok, throw, ◌>>=◌,
  Ensures, All, All-append, All-get, get_elem?, length, ◌+◌, if_keeps, if◌then◌else◌, ◌==◌,
}
use mathlib.Core.Path.{subst}
use heterogeneous_network.Trusted.Frame.{Payload, DataFrameBody, retry_interval}
use heterogeneous_network.Trusted.Action.{SocketAction, delay, send_data, Handler}
use heterogeneous_network.Trusted.Action.SendData
use heterogeneous_network.Trusted.Action.SendData.{SendDataAction}
use heterogeneous_network.Trusted.Action.DataAckTimeout
use heterogeneous_network.Trusted.Action.DataAckTimeout.{ReceiveDataAckTimeoutAction}
use heterogeneous_network.Trusted.Data.{
  DataFrame, DataSocketState, Out, sending_or_idle, on_receive_data_ack_timeout,
  on_send_data_failure,
}
use heterogeneous_network.Trusted.Data.Sender.{Represents}
use heterogeneous_network.Trusted.Protocol.{Network, delayed_bodies}
use heterogeneous_network.Trusted.Protocol.Invariant.{Inv, flight, IsSent}

module _ (P : DataFrameBody → Type 0) (n : ℕ) (qs : List Payload) where
  -- The queue stays, and what is sent again is as `P` says.
  abbrev Retries : Out → Type 0
  Retries r = Represents n qs r.0 × All P (delayed_bodies r.1)

  sending_or_idle-Retries :
      (o : Option DataFrame) (f : DataFrame → Handler DataSocketState) (s : DataSocketState)
      → Represents n qs s
      → ((d : DataFrame) → Ensures Retries (f d))
      → Ensures Retries (sending_or_idle o f s)
  sending_or_idle-Retries none f s h k = (h, tt)
  sending_or_idle-Retries (some d) f s h k =
      if_keeps (Ensures Retries) (not s.is_open) _ _ (λ e. (h, tt)) (λ e. k d)

  -- The three tails of a retry: another frame, given up, and once more.
  again-Retries :
      (other exhausted retryable : Bool) (a : SendDataAction) (s failed : DataSocketState)
      (last : List SocketAction)
      → Represents n qs s
      → Represents n qs failed
      → All P (delayed_bodies last)
      → P a.body
      → Ensures Retries (
          if other
          then ok (s, [])
          else if exhausted
          then ok (failed, last)
          else (if retryable then ok a else throw)
            >>= (λ a'. ok (s, delay retry_interval (send_data a' ∷ []) ∷ [])))
  again-Retries true exhausted retryable a s failed last h k l p = (h, tt)
  again-Retries false true retryable a s failed last h k l p = (k, l)
  again-Retries false false true a s failed last h k l p = (h, (p, tt))
  again-Retries false false false a s failed last h k l p = tt

  on_receive_data_ack_timeout-Retries :
      (a : ReceiveDataAckTimeoutAction) (s : DataSocketState)
      → Represents n qs s
      → P a.body
      → Ensures Retries (on_receive_data_ack_timeout a s)
  unfolding on_receive_data_ack_timeout DataAckTimeout.retry
  on_receive_data_ack_timeout-Retries a s h p = sending_or_idle-Retries s.sending_frame _ s h (λ d.
      again-Retries (not (a.body.sequence_number == d.frame.body.sequence_number))
        (not (DataAckTimeout.retryable a)) (DataAckTimeout.retryable a) _ s _ _ h h tt p)

  on_send_data_failure-Retries :
      (a : SendDataAction) (s : DataSocketState)
      → Represents n qs s
      → P a.body
      → Ensures Retries (on_send_data_failure a s)
  unfolding on_send_data_failure SendData.retry
  on_send_data_failure-Retries a s h p = sending_or_idle-Retries s.sending_frame _ s h (λ d.
      again-Retries (not (a.body.sequence_number == d.frame.body.sequence_number))
        (not (SendData.retryable a)) (SendData.retryable a) _ s _ _ h h tt p)

-- A step of the sender that keeps its queue and sends frames that were sent before.
retry-Inv :
    (s : Network) (h : Inv s) (r : Out)
    → Retries (IsSent s.stream (length h.acked + flight h.unacked)) (length h.acked) h.unacked r
    → Inv (record s { sender = r.0; frames = s.frames ++ delayed_bodies r.1 })
retry-Inv s h r k = record {
  acked = h.acked;
  unacked = h.unacked;
  rest = h.rest;
  split = h.split;
  queue = k.0;
  is_prefix = h.is_prefix;
  receiver_open = h.receiver_open;
  idle = h.idle;
  due = h.due;
  frames_sent =
      All-append (IsSent s.stream (length h.acked + flight h.unacked)) s.frames (delayed_bodies r.1)
        h.frames_sent k.1;
  acks_sent = h.acks_sent;
  behind = h.behind;
  ahead = h.ahead;
}

pub times_out-Inv :
    (s : Network) (h : Inv s) (i : ℕ) (a : ReceiveDataAckTimeoutAction) (r : Out)
    → get_elem? s.frames i ≡ some a.body
    → on_receive_data_ack_timeout a s.sender ≡ ok r
    → Inv (record s { sender = r.0; frames = s.frames ++ delayed_bodies r.1 })
times_out-Inv s h i a r e run =
    let P = IsSent s.stream (length h.acked + flight h.unacked) in
    retry-Inv s h r (
      subst (Ensures (Retries P (length h.acked) h.unacked)) run (
        on_receive_data_ack_timeout-Retries P (length h.acked) h.unacked a s.sender h.queue
          (All-get P s.frames i a.body h.frames_sent e)))

pub fails-Inv :
    (s : Network) (h : Inv s) (i : ℕ) (a : SendDataAction) (r : Out)
    → get_elem? s.frames i ≡ some a.body
    → on_send_data_failure a s.sender ≡ ok r
    → Inv (record s { sender = r.0; frames = s.frames ++ delayed_bodies r.1 })
fails-Inv s h i a r e run =
    let P = IsSent s.stream (length h.acked + flight h.unacked) in
    retry-Inv s h r (
      subst (Ensures (Retries P (length h.acked) h.unacked)) run (
        on_send_data_failure-Retries P (length h.acked) h.unacked a s.sender h.queue
          (All-get P s.frames i a.body h.frames_sent e)))
