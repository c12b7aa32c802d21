-- ===== src/Trusted/Action.antt =====
-- type SocketAction (trusted/socket/state.ts): what a handler asks of its caller. The handlers
-- delay only actions that are not delays themselves, so an action is one to do now or a delayed
-- list of such.
pub mod SendControl
pub mod ControlAckTimeout
pub mod SendData
pub mod DataAckTimeout
pub mod SendControlAck
pub mod SendDataAck
use heterogeneous_network.Base.{ℕ, Bool, List, Throws, ok}
use heterogeneous_network.Trusted.Frame.{Payload}
use SendControl.{SendControlAction}
use ControlAckTimeout.{ReceiveControlAckTimeoutAction}
use SendData.{SendDataAction}
use DataAckTimeout.{ReceiveDataAckTimeoutAction}
use SendControlAck.{SendControlAckAction}
use SendDataAck.{SendDataAckAction}

pub data ImmediateAction : Type 0 where
  open_socket : ImmediateAction
  -- Whether the socket is closed by an error.
  close_socket : Bool → ImmediateAction
  receive : Payload → ImmediateAction
  send_control : SendControlAction → ImmediateAction
  send_control_ack : SendControlAckAction → ImmediateAction
  control_ack_timeout : ReceiveControlAckTimeoutAction → ImmediateAction
  send_data : SendDataAction → ImmediateAction
  send_data_ack : SendDataAckAction → ImmediateAction
  data_ack_timeout : ReceiveDataAckTimeoutAction → ImmediateAction

pub data SocketAction : Type 0 where
  now : ImmediateAction → SocketAction
  delay : ℕ → List ImmediateAction → SocketAction

-- The result of a handler over the state `S`, which may throw.
abbrev pub Handler : Type 0 → Type 0
Handler S = Throws (S × List SocketAction)

-- `Result<SocketAction[], "invalid operation">` of an operation over the state `S`.
pub data OperationResult (S : Type 0) : Type 0 where
  done : S → List SocketAction → OperationResult S
  invalid_operation : OperationResult S
