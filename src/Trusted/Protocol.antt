-- ===== src/Trusted/Protocol.antt =====
-- Two sockets (trusted/socket/state.ts) and the tunnel between them, while both are open: one side
-- sends data, the other only acknowledges. The tunnel may lose, repeat and reorder frames: every
-- frame that was ever sent stays in it, and a step hands over any of them. The sender's frames may
-- fail to be sent, and their acknowledgements may be late: the actions that the handlers return then
-- send a frame again. Numbers cross the tunnel as 16-bit words.
pub mod Receiving
pub mod Invariant
pub mod Submit
pub mod Deliver
pub mod Acknowledge
pub mod Retry
pub mod Fifo
pub mod Wrap
use heterogeneous_network.Base.{
  ℕ, ◌%◌, ◌≡◌, refl, true, false, List, [], ◌∷◌, ◌++◌, Option, none, some, ok, get_elem?,
}
use heterogeneous_network.Trusted.Frame.{Payload, DataFrameBody}
use heterogeneous_network.Trusted.Action.{
  ImmediateAction, SocketAction, now, delay, send_data, send_data_ack,
}
use heterogeneous_network.Trusted.Data.{
  CreateFrame, DataSocketState, on_data_received, on_data_ack_received, send_data_frame, accepted,
  on_receive_data_ack_timeout, on_send_data_failure,
}
use heterogeneous_network.Trusted.Action.SendData.{SendDataAction}
use heterogeneous_network.Trusted.Action.DataAckTimeout.{ReceiveDataAckTimeoutAction}
use heterogeneous_network.Trusted.Data.Receiver.{payloads}
use heterogeneous_network.Trusted.Data.Sender.{Carries, sent_bodies}

-- What the 16-bit serializers keep of a frame's numbers.
abbrev pub wire : ℕ → ℕ
wire n = n % 65536

abbrev pub wire_body : DataFrameBody → DataFrameBody
wire_body b = record {
  sequence_number = wire b.sequence_number;
  acknowledgement_number = wire b.acknowledgement_number;
  payload = b.payload;
}

-- The acknowledgement numbers that a list of actions sends.
abbrev pub sent_acks : List SocketAction → List ℕ
sent_acks [] = []
sent_acks (now (send_data_ack a) ∷ actions) = a.body ∷ sent_acks actions
sent_acks (now _ ∷ actions) = sent_acks actions
sent_acks (delay d a ∷ actions) = sent_acks actions

-- The data frames that a list of actions sends after a delay.
abbrev pub delayed_bodies : List SocketAction → List DataFrameBody
delayed_bodies [] = []
delayed_bodies (now a ∷ actions) = delayed_bodies actions
delayed_bodies (delay d (send_data a ∷ rest) ∷ actions) = a.body ∷ delayed_bodies actions
delayed_bodies (delay d rest ∷ actions) = delayed_bodies actions

pub record Network : Type 0 where
  pub sender : DataSocketState
  pub receiver : DataSocketState
  -- All data frames and acknowledgements that were ever sent.
  pub frames : List DataFrameBody
  pub acks : List ℕ
  -- The payloads given to `send`, and those handed to the receiver's user.
  pub stream : List Payload
  pub delivered : List Payload

pub data Step (s t : Network) : Type 0 where
  -- The sender's user sends `q`.
  submit :
      (q : Payload) (create : CreateFrame) (d : DataSocketState) (out : List SocketAction) (id : ℕ)
      → Carries q create
      → send_data_frame create s.sender ≡ accepted d out id
      → t
        ≡ record s { sender = d; frames = s.frames ++ sent_bodies out; stream = s.stream ++ q ∷ [] }
      → Step s t
  -- No acknowledgement of the `i`-th data frame has come in time.
  times_out :
      (i : ℕ) (a : ReceiveDataAckTimeoutAction) (d : DataSocketState) (out : List SocketAction)
      → get_elem? s.frames i ≡ some a.body
      → on_receive_data_ack_timeout a s.sender ≡ ok (d, out)
      → t ≡ record s { sender = d; frames = s.frames ++ delayed_bodies out }
      → Step s t
  -- The `i`-th data frame could not be sent.
  fails :
      (i : ℕ) (a : SendDataAction) (d : DataSocketState) (out : List SocketAction)
      → get_elem? s.frames i ≡ some a.body
      → on_send_data_failure a s.sender ≡ ok (d, out)
      → t ≡ record s { sender = d; frames = s.frames ++ delayed_bodies out }
      → Step s t
  -- The tunnel hands the `i`-th data frame to the receiver.
  deliver :
      (i : ℕ) (b : DataFrameBody)
      → get_elem? s.frames i ≡ some b
      → t ≡ (
          let r = on_data_received (wire_body b) s.receiver in
          record s {
            receiver = r.0;
            acks = s.acks ++ sent_acks r.1;
            delivered = s.delivered ++ payloads r.1;
          })
      → Step s t
  -- The tunnel hands the `i`-th acknowledgement to the sender.
  acknowledge :
      (i a : ℕ)
      → get_elem? s.acks i ≡ some a
      → t ≡ (
          let r = on_data_ack_received (wire a) s.sender in
          record s { sender = r.0; frames = s.frames ++ sent_bodies r.1 })
      → Step s t

pub data Reach (s : Network) : Network → Type 0 where
  here : Reach s s
  next : {t u : Network} → Reach s t → Step t u → Reach s u

-- Both sockets have just been opened.
abbrev pub opened : DataSocketState
opened = record {
  is_open = true;
  next_receive = 0;
  next_send = 0;
  sending_frame = none;
  send_pending_frames = [];
  promises = [];
}

abbrev pub start : Network
start = record {
  sender = opened;
  receiver = opened;
  frames = [];
  acks = [];
  stream = [];
  delivered = [];
}
