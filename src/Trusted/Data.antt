-- ===== src/Trusted/Data.antt =====
-- class DataSocketState (trusted/socket/state.ts): data frames, one in flight at a time, and their
-- acknowledgements. `promises` is the store of the promises made so far; a promise is its index.
pub mod Queue
pub mod Kept
pub mod Receiver
pub mod Delivery
pub mod Promises
pub mod Sender
use heterogeneous_network.Base.{
  ℕ, ◌+◌, Bool, true, false, not, List, [], ◌∷◌, ◌++◌, Option, none, some, ok, ◌>>=◌, ltb, leb,
  ◌==◌, if◌then◌else◌,
}
use heterogeneous_network.Deferred.{Status, deferred, resolve}
use heterogeneous_network.Trusted.Frame.{
  DataFrameBody, TrustedDataFrame, retry_interval, ack_timeout,
}
use heterogeneous_network.Trusted.Action.{
  SocketAction, now, delay, close_socket, receive, send_data, send_data_ack, data_ack_timeout,
  Handler,
}
use heterogeneous_network.Trusted.Action.SendData
use heterogeneous_network.Trusted.Action.SendData.{SendResult, sent, timeout, SendDataAction}
use heterogeneous_network.Trusted.Action.DataAckTimeout
use heterogeneous_network.Trusted.Action.DataAckTimeout.{ReceiveDataAckTimeoutAction}
use heterogeneous_network.Trusted.Action.SendDataAck
use heterogeneous_network.Trusted.Action.SendDataAck.{SendDataAckAction}

-- `createFrame({ sequenceNumber, acknowledgementNumber })`
abbrev pub CreateFrame : Type 0
CreateFrame = ℕ → ℕ → TrustedDataFrame

pub record SendPendingFrame : Type 0 where
  pub create_frame : CreateFrame
  pub result : ℕ

pub record DataFrame : Type 0 where
  pub frame : TrustedDataFrame
  pub result : ℕ

pub record DataSocketState : Type 0 where
  pub is_open : Bool
  pub next_receive : ℕ
  pub next_send : ℕ
  pub sending_frame : Option DataFrame
  pub send_pending_frames : List SendPendingFrame
  pub promises : List (Status SendResult)

unfoldable pub initial : DataSocketState
initial = record {
  is_open = false;
  next_receive = 0;
  next_send = 0;
  sending_frame = none;
  send_pending_frames = [];
  promises = [];
}

abbrev pub Out : Type 0
Out = DataSocketState × List SocketAction

-- Take the first pending frame, number it and send it.
abbrev send_first : List SendPendingFrame → DataSocketState → Out
send_first [] s = (s, [])
send_first (p ∷ ps) s =
    let frame = p.create_frame s.next_send s.next_receive in
    let (promises', action) = SendData.create frame.body s.promises in
    (
      record s {
        send_pending_frames = ps;
        sending_frame = some (record { frame = frame; result = p.result });
        promises = promises';
      },
      now (send_data action) ∷ [],
    )

abbrev send_unless : Option DataFrame → DataSocketState → Out
send_unless (some f) s = (s, [])
send_unless none s = send_first s.send_pending_frames s

unfoldable pub send_if_no_sending_frame : DataSocketState → Out
unfolding SendData.create
send_if_no_sending_frame s = send_unless s.sending_frame s

abbrev pub acknowledge : Option DataFrame → ℕ → DataSocketState → Out
acknowledge none ack s = (s, [])
acknowledge (some f) ack s =
    if leb ack f.frame.body.sequence_number
    then (s, [])
    else send_if_no_sending_frame (record s {
      promises = resolve f.result sent s.promises;
      sending_frame = none;
      next_send = ack;
    })

unfoldable pub handle_acknowledge_number_in_received_frame : ℕ → DataSocketState → Out
handle_acknowledge_number_in_received_frame ack s = acknowledge s.sending_frame ack s

-- `onDataReceived` after the acknowledgement is handled: only the frame that is due is received.
unfoldable pub receive_if_due : DataFrameBody → Out → Out
unfolding SendDataAck.create
receive_if_due body (t, actions) =
    if ltb body.sequence_number t.next_receive
    then (t, actions ++ now (send_data_ack (SendDataAck.create t.next_receive)) ∷ [])
    else if ltb t.next_receive body.sequence_number
    then (t, actions)
    else let u = record t { next_receive = body.sequence_number + 1 } in
      (
        u,
        actions
            ++ now (receive body.payload)
              ∷ now (send_data_ack (SendDataAck.create u.next_receive))
              ∷ [],
      )

unfoldable pub on_data_received : DataFrameBody → DataSocketState → Out
unfolding receive_if_due
on_data_received body s =
    if not s.is_open
    then (s, [])
    else receive_if_due body
        (handle_acknowledge_number_in_received_frame body.acknowledgement_number s)

-- The body of a `DataAckFrameBody` is its acknowledgement number.
unfoldable pub on_data_ack_received : ℕ → DataSocketState → Out
on_data_ack_received ack s =
    if not s.is_open then (s, []) else handle_acknowledge_number_in_received_frame ack s

-- `f` runs when the socket is open and a frame is in flight; else the handler returns `[]`.
abbrev pub sending_or_idle :
    Option DataFrame
    → (DataFrame → Handler DataSocketState)
    → DataSocketState
    → Handler DataSocketState
sending_or_idle none f s = ok (s, [])
sending_or_idle (some sending) f s = if not s.is_open then ok (s, []) else f sending

abbrev pub while_sending :
    (DataFrame → Handler DataSocketState) → DataSocketState → Handler DataSocketState
while_sending f s = sending_or_idle s.sending_frame f s

unfoldable pub on_receive_data_ack_timeout :
    ReceiveDataAckTimeoutAction → DataSocketState → Handler DataSocketState
unfolding DataAckTimeout.retryable DataAckTimeout.retry
on_receive_data_ack_timeout a s =
    while_sending
      (λ sending.
        if not (a.body.sequence_number == sending.frame.body.sequence_number)
        then ok (s, [])
        else if not (DataAckTimeout.retryable a)
        then ok (
          record s { promises = resolve sending.result timeout s.promises },
          now (close_socket true) ∷ [],
        )
        else do a' ← DataAckTimeout.retry a; ok (s, delay retry_interval (send_data a' ∷ []) ∷ []))
      s

-- `Result<[SocketAction[], Deferred<SendResult>], "invalid operation">`
pub data SendDataResult (S : Type 0) : Type 0 where
  accepted : S → List SocketAction → ℕ → SendDataResult S
  refused : SendDataResult S

unfoldable pub send_data_frame : CreateFrame → DataSocketState → SendDataResult DataSocketState
send_data_frame create s =
    if not s.is_open
    then refused
    else let (promises', id) = deferred s.promises in
      let (t, actions) = send_if_no_sending_frame (record s {
        promises = promises';
        send_pending_frames =
            s.send_pending_frames ++ (record { create_frame = create; result = id } ∷ []);
      }) in
      accepted t actions id

unfoldable pub on_send_data_success : SendDataAction → DataSocketState → Handler DataSocketState
unfolding DataAckTimeout.from_send_data_action
on_send_data_success a s =
    while_sending
      (λ sending. ok (
        s,
        delay ack_timeout (data_ack_timeout (DataAckTimeout.from_send_data_action a) ∷ []) ∷ [],
      ))
      s

unfoldable pub on_send_data_failure : SendDataAction → DataSocketState → Handler DataSocketState
unfolding SendData.retryable SendData.retry
on_send_data_failure a s =
    while_sending
      (λ sending.
        if not (a.body.sequence_number == sending.frame.body.sequence_number)
        then ok (s, [])
        else if not (SendData.retryable a)
        then ok (
          record s { promises = resolve a.result timeout s.promises },
          now (close_socket true) ∷ [],
        )
        else do a' ← SendData.retry a; ok (s, delay retry_interval (send_data a' ∷ []) ∷ []))
      s

unfoldable pub on_send_data_ack_success : DataSocketState → Out
on_send_data_ack_success s = (s, [])

unfoldable pub on_send_data_ack_failure :
    SendDataAckAction → DataSocketState → Handler DataSocketState
unfolding SendDataAck.retryable SendDataAck.retry
on_send_data_ack_failure a s =
    while_sending
      (λ sending.
        if not (a.acknowledgement_number == s.next_receive)
        then ok (s, [])
        else if not (SendDataAck.retryable a)
        then ok (s, now (close_socket true) ∷ [])
        else do a' ← SendDataAck.retry a; ok (s, delay retry_interval (send_data_ack a' ∷ []) ∷ []))
      s

unfoldable pub on_open : DataSocketState → DataSocketState
on_open s = record s { is_open = true }

-- The loop of `onClose`.
unfoldable pub resolve_all_timeout :
    List SendPendingFrame → List (Status SendResult) → List (Status SendResult)
resolve_all_timeout [] promises = promises
resolve_all_timeout (p ∷ ps) promises = resolve_all_timeout ps (resolve p.result timeout promises)

unfoldable pub on_close : DataSocketState → DataSocketState
on_close s = record {
  is_open = false;
  next_receive = 0;
  next_send = 0;
  sending_frame = none;
  promises = resolve_all_timeout s.send_pending_frames s.promises;
  send_pending_frames = [];
}
