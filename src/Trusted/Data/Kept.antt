-- ===== src/Trusted/Data/Kept.antt =====
-- Every handler of DataSocketState keeps the queue in order, and a closed socket untouched.
use heterogeneous_network.Base.{
  ℕ, ◌≡◌, refl, Bool, true, false, not, not-eq-false, not-eq-true, List, [], ◌++◌, Option, none,
  some, ok, Throws, throw, ◌>>=◌, Ensures, Ensures->>=, All, All-append, if_keeps, if◌then◌else◌,
  ◌==◌, ◌≢◌,
}
use heterogeneous_network.Trusted.Action.{Handler}
use heterogeneous_network.Trusted.Action.SendData.{SendResult, SendDataAction}
use heterogeneous_network.Trusted.Action.SendDataAck.{SendDataAckAction}
use heterogeneous_network.Trusted.Action.DataAckTimeout.{ReceiveDataAckTimeoutAction}
use heterogeneous_network.Trusted.Action.SendData
use heterogeneous_network.Trusted.Action.SendDataAck
use heterogeneous_network.Trusted.Action.DataAckTimeout
use heterogeneous_network.Trusted.Data.{
  CreateFrame, DataFrame, SendPendingFrame, DataSocketState, Out, sending_or_idle,
  on_receive_data_ack_timeout, on_send_data_success, on_send_data_failure, on_send_data_ack_failure,
  send_data_frame, SendDataResult, accepted, refused, on_close, on_open,
}
use heterogeneous_network.Trusted.Data.Queue.{
  IsNumbering, IsNumberingPending, IsQueue, IsQueued, IsSound, LeavesSound, KeptOut,
  send_if_no_sending_frame-IsSound, IsQueue-All,
}

abbrev SoundResult : Bool → Handler DataSocketState → Type 0
SoundResult b = Ensures (LeavesSound b)

abbrev pub KeptResult : DataSocketState → Handler DataSocketState → Type 0
KeptResult s = Ensures (KeptOut s)

sending_or_idle_keeps :
    (o : Option DataFrame) (f : DataFrame → Handler DataSocketState) (s : DataSocketState)
    → IsQueued s
    → ((d : DataFrame) → SoundResult s.is_open (f d))
    → KeptResult s (sending_or_idle o f s)
sending_or_idle_keeps none f s h k = ((h, refl), λ _. refl)
sending_or_idle_keeps (some d) f s h k =
    if_keeps (KeptResult s) (not s.is_open) _ _ (λ _. ((h, refl), λ _. refl))
      (λ e. when_open (f d) (k d) (not-eq-false _ e))
  where
    when_open :
        (r : Handler DataSocketState) → SoundResult s.is_open r → s.is_open ≡ true → KeptResult s r
    when_open (ok r) k e = (k, λ c. cc)
    when_open throw k e = tt

-- The three tails of a retry: not this frame, out of retries, once more.
retry_keeps {ℓ} :
    {A : Type ℓ} (b other exhausted : Bool) (idle failed : Out) (retry : Throws A) (again : A → Out)
    → LeavesSound b idle
    → LeavesSound b failed
    → ((a : A) → LeavesSound b (again a))
    → SoundResult b
        (if other then ok idle else if exhausted then ok failed else do a ← retry; ok (again a))
retry_keeps b other exhausted idle failed retry again h i k =
    if_keeps (SoundResult b) other _ _ (λ _. h)
      (λ _.
        if_keeps (SoundResult b) exhausted _ _ (λ _. i)
          (λ _. Ensures->>= (LeavesSound b) retry _ k))

pub on_receive_data_ack_timeout-Kept :
    (a : ReceiveDataAckTimeoutAction) (s : DataSocketState)
    → IsQueued s
    → KeptResult s (on_receive_data_ack_timeout a s)
unfolding on_receive_data_ack_timeout
on_receive_data_ack_timeout-Kept a s h = sending_or_idle_keeps s.sending_frame _ s h (λ d.
    retry_keeps s.is_open (not (a.body.sequence_number == d.frame.body.sequence_number))
      (not (DataAckTimeout.retryable a)) _ _ (DataAckTimeout.retry a) _ (h, refl) (h, refl)
      (λ _. (h, refl)))

pub on_send_data_success-Kept :
    (a : SendDataAction) (s : DataSocketState)
    → IsQueued s
    → KeptResult s (on_send_data_success a s)
unfolding on_send_data_success
on_send_data_success-Kept a s h = sending_or_idle_keeps s.sending_frame _ s h (λ d. (h, refl))

pub on_send_data_failure-Kept :
    (a : SendDataAction) (s : DataSocketState)
    → IsQueued s
    → KeptResult s (on_send_data_failure a s)
unfolding on_send_data_failure
on_send_data_failure-Kept a s h = sending_or_idle_keeps s.sending_frame _ s h (λ d.
    retry_keeps s.is_open (not (a.body.sequence_number == d.frame.body.sequence_number))
      (not (SendData.retryable a)) _ _ (SendData.retry a) _ (h, refl) (h, refl) (λ _. (h, refl)))

pub on_send_data_ack_failure-Kept :
    (a : SendDataAckAction) (s : DataSocketState)
    → IsQueued s
    → KeptResult s (on_send_data_ack_failure a s)
unfolding on_send_data_ack_failure
on_send_data_ack_failure-Kept a s h = sending_or_idle_keeps s.sending_frame _ s h (λ d.
    retry_keeps s.is_open (not (a.acknowledgement_number == s.next_receive))
      (not (SendDataAck.retryable a)) _ _ (SendDataAck.retry a) _ (h, refl) (h, refl)
      (λ _. (h, refl)))

-- What `sendData` leaves behind, if the socket takes the data.
abbrev pub KeptSend : DataSocketState → SendDataResult DataSocketState → Type 0
KeptSend s (accepted t actions id) = IsSound s.is_open t × (s.is_open ≡ true)
KeptSend s refused = s.is_open ≡ false

IsQueue-append :
    (o : Option DataFrame) (n : ℕ) (ps qs : List SendPendingFrame)
    → o ≢ none
    → IsQueue o n ps
    → All IsNumberingPending qs
    → IsQueue o n (ps ++ qs)
IsQueue-append none n ps qs e h k = absurd (e refl)
IsQueue-append (some f) n ps qs e h k = (h.0, All-append IsNumberingPending ps qs h.1 k)

-- `sendData` is taken exactly when the socket is open, and then keeps the queue in order.
pub send_data_frame-Kept :
    (create : CreateFrame) (s : DataSocketState)
    → IsNumbering create
    → IsQueued s
    → KeptSend s (send_data_frame create s)
unfolding send_data_frame
send_data_frame-Kept create s c h =
    if_keeps (KeptSend s) (not s.is_open) _ _ (λ e. not-eq-true _ e)
      (λ e. (
        send_if_no_sending_frame-IsSound s.is_open _
            (All-append IsNumberingPending s.send_pending_frames _
              (IsQueue-All s.sending_frame _ _ h) (c, tt))
            (λ busy. IsQueue-append s.sending_frame _ s.send_pending_frames _ busy h (c, tt)) refl,
        not-eq-false _ e,
      ))

pub on_open-IsQueued : (s : DataSocketState) → IsQueued s → IsQueued (on_open s)
unfolding on_open
on_open-IsQueued s h = h

-- All that is kept of a closed socket is its promises.
abbrev pub IsBlank : DataSocketState → Type 0
IsBlank s =
    (s.next_receive ≡ 0)
    × (s.next_send ≡ 0)
    × (s.sending_frame ≡ none)
    × (s.send_pending_frames ≡ [])

pub on_close-IsBlank : (s : DataSocketState) → IsSound false (on_close s) × IsBlank (on_close s)
unfolding on_close
on_close-IsBlank s = ((refl, refl), (refl, refl, refl, refl))
