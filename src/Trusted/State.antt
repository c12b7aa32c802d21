-- ===== src/Trusted/State.antt =====
-- class SocketState (trusted/socket/state.ts): the three parts together. The handlers' actions pass
-- through `socket_action_hook`, which follows them in the state. What the two event brokers emit
-- is listed: the listeners only settle promises, so they do not call back into the state.
pub mod Hook
pub mod Opening
pub mod Closing
pub mod Preserve
pub mod Reach
pub mod Throws
use heterogeneous_network.Base.{ℕ, Bool, true, false, List, [], ◌∷◌, ◌++◌, ok, ◌>>=◌, if◌then◌else◌}
use heterogeneous_network.Trusted.Frame.{
  DataFrameBody, TrustedFrameBody, ControlBody, ControlAckBody, syn_body, fin_body, syn_ack_body,
  fin_ack_body, control, control_ack, data_body, data_ack_body,
}
use heterogeneous_network.Trusted.Action.{
  ImmediateAction, SocketAction, now, delay, open_socket, close_socket, Handler, OperationResult,
  done, invalid_operation,
}
use heterogeneous_network.Trusted.Action.SendControl.{SendControlAction}
use heterogeneous_network.Trusted.Action.ControlAckTimeout.{ReceiveControlAckTimeoutAction}
use heterogeneous_network.Trusted.Action.SendData.{SendDataAction}
use heterogeneous_network.Trusted.Action.DataAckTimeout.{ReceiveDataAckTimeoutAction}
use heterogeneous_network.Trusted.Action.SendControlAck.{SendControlAckAction}
use heterogeneous_network.Trusted.Action.SendDataAck.{SendDataAckAction}
use heterogeneous_network.Trusted.Syn
use heterogeneous_network.Trusted.Syn.{SynSocketState}
use heterogeneous_network.Trusted.Data
use heterogeneous_network.Trusted.Data.{
  DataSocketState, CreateFrame, SendDataResult, accepted, refused,
}
use heterogeneous_network.Trusted.Fin
use heterogeneous_network.Trusted.Fin.{FinSocketState}

pub data StateType : Type 0 where
  opening open_state closing closed : StateType

pub data Notification : Type 0 where
  state_changed : StateType → Notification
  error : Notification

pub record SocketState : Type 0 where
  pub state : StateType
  pub syn : SynSocketState
  pub data_state : DataSocketState
  pub fin : FinSocketState
  -- What the event brokers have emitted, the latest last.
  pub emitted : List Notification

unfoldable pub initial : SocketState
unfolding Syn.initial Data.initial Fin.initial
initial = record {
  state = closed;
  syn = Syn.initial;
  data_state = Data.initial;
  fin = Fin.initial;
  emitted = [];
}

-- One round of the hook's loop.
abbrev hook_immediate : ImmediateAction → SocketState → SocketState
hook_immediate open_socket s = record s {
  state = open_state;
  data_state = Data.on_open s.data_state;
}
hook_immediate (close_socket e) s = record s {
  state = closed;
  syn = Syn.on_close s.syn;
  data_state = Data.on_close s.data_state;
  fin = Fin.on_close s.fin;
  emitted = if e then s.emitted ++ (error ∷ []) else s.emitted;
}
hook_immediate _ s = s

unfoldable pub hook_action : SocketAction → SocketState → SocketState
unfolding Syn.on_close Fin.on_close Data.on_open Data.on_close
hook_action (now a) s = hook_immediate a s
hook_action (delay d actions) s = s

unfoldable pub hook_actions : List SocketAction → SocketState → SocketState
hook_actions [] s = s
hook_actions (a ∷ actions) s = hook_actions actions (hook_action a s)

abbrev pub state_eq : StateType → StateType → Bool
state_eq opening opening = true
state_eq open_state open_state = true
state_eq closing closing = true
state_eq closed closed = true
state_eq _ _ = false

-- What the hook does after its loop.
unfoldable pub settle_state : StateType → SocketState → SocketState
settle_state prev s =
    let state₁ = if Syn.is_opening s.syn then opening else s.state in
    let state₂ = if Fin.is_closing s.fin then closing else state₁ in
    record s {
      state = state₂;
      emitted =
          if state_eq prev state₂ then s.emitted else s.emitted ++ (state_changed state₂ ∷ []);
    }

-- `prev` is the state before the loop, which the handlers do not write.
unfoldable pub socket_action_hook :
    List SocketAction → SocketState → SocketState × List SocketAction
unfolding hook_actions hook_action settle_state
socket_action_hook actions s = (settle_state s.state (hook_actions actions s), actions)

-- Run a handler of a part, put the part back, and pass the actions through the hook.
abbrev pub run_syn : (SynSocketState → Handler SynSocketState) → SocketState → Handler SocketState
run_syn f s = do
  (syn', actions) ← f s.syn
  ok (socket_action_hook actions (record s { syn = syn' }))

abbrev pub run_fin : (FinSocketState → Handler FinSocketState) → SocketState → Handler SocketState
run_fin f s = do
  (fin', actions) ← f s.fin
  ok (socket_action_hook actions (record s { fin = fin' }))

abbrev pub run_data :
    (DataSocketState → Handler DataSocketState) → SocketState → Handler SocketState
run_data f s = do
  (data', actions) ← f s.data_state
  ok (socket_action_hook actions (record s { data_state = data' }))

unfoldable pub on_receive : TrustedFrameBody → SocketState → Handler SocketState
on_receive (control syn_body) s = run_syn Syn.on_syn_received s
on_receive (control_ack syn_ack_body) s = run_syn Syn.on_syn_ack_received s
on_receive (data_body b) s = run_data (λ d. ok (Data.on_data_received b d)) s
on_receive (data_ack_body a) s = run_data (λ d. ok (Data.on_data_ack_received a d)) s
on_receive (control fin_body) s = run_fin Fin.on_fin_received s
on_receive (control_ack fin_ack_body) s = run_fin Fin.on_fin_ack_received s

-- The actions that send a frame: the argument of `onSendSuccess` and `onSendFailure`.
pub data SendAction : Type 0 where
  control_action : SendControlAction → SendAction
  control_ack_action : SendControlAckAction → SendAction
  data_action : SendDataAction → SendAction
  data_ack_action : SendDataAckAction → SendAction

abbrev pub control_sent : ControlBody → SendControlAction → SocketState → Handler SocketState
control_sent syn_body a s = run_syn (Syn.on_syn_send_success a) s
control_sent fin_body a s = run_fin (Fin.on_fin_send_success a) s

abbrev pub control_ack_sent : ControlAckBody → SocketState → Handler SocketState
control_ack_sent syn_ack_body s = run_syn Syn.on_syn_ack_send_success s
control_ack_sent fin_ack_body s = run_fin Fin.on_fin_ack_send_success s

unfoldable pub on_send_success : SendAction → SocketState → Handler SocketState
on_send_success (control_action a) s = control_sent a.body a s
on_send_success (control_ack_action a) s = control_ack_sent a.body s
on_send_success (data_action a) s = run_data (Data.on_send_data_success a) s
on_send_success (data_ack_action a) s = run_data (λ d. ok (Data.on_send_data_ack_success d)) s

abbrev pub control_failed : ControlBody → SendControlAction → SocketState → Handler SocketState
control_failed syn_body a s = run_syn (Syn.on_syn_send_failure a) s
control_failed fin_body a s = run_fin (Fin.on_fin_send_failure a) s

abbrev pub control_ack_failed :
    ControlAckBody → SendControlAckAction → SocketState → Handler SocketState
control_ack_failed syn_ack_body a s = run_syn (Syn.on_syn_ack_send_failure a) s
control_ack_failed fin_ack_body a s = run_fin (Fin.on_fin_ack_send_failure a) s

unfoldable pub on_send_failure : SendAction → SocketState → Handler SocketState
on_send_failure (control_action a) s = control_failed a.body a s
on_send_failure (control_ack_action a) s = control_ack_failed a.body a s
on_send_failure (data_action a) s = run_data (Data.on_send_data_failure a) s
on_send_failure (data_ack_action a) s = run_data (Data.on_send_data_ack_failure a) s

pub data TimeoutAction : Type 0 where
  control_timeout : ReceiveControlAckTimeoutAction → TimeoutAction
  data_timeout : ReceiveDataAckTimeoutAction → TimeoutAction

abbrev pub control_timed_out :
    ControlBody → ReceiveControlAckTimeoutAction → SocketState → Handler SocketState
control_timed_out syn_body a s = run_syn (Syn.on_syn_ack_receive_timeout a) s
control_timed_out fin_body a s = run_fin (Fin.on_fin_ack_receive_timeout a) s

unfoldable pub on_receive_ack_timeout : TimeoutAction → SocketState → Handler SocketState
on_receive_ack_timeout (control_timeout a) s = control_timed_out a.body a s
on_receive_ack_timeout (data_timeout a) s = run_data (Data.on_receive_data_ack_timeout a) s

-- `.map((actions) => this.#socketActionHook(actions))` on the result of a part's operation.
abbrev pub hook_syn : SocketState → OperationResult SynSocketState → OperationResult SocketState
hook_syn s (done syn' actions) =
    let (s', actions') = socket_action_hook actions (record s { syn = syn' }) in done s' actions'
hook_syn s invalid_operation = invalid_operation

abbrev pub hook_fin : SocketState → OperationResult FinSocketState → OperationResult SocketState
hook_fin s (done fin' actions) =
    let (s', actions') = socket_action_hook actions (record s { fin = fin' }) in done s' actions'
hook_fin s invalid_operation = invalid_operation

abbrev pub hook_data : SocketState → SendDataResult DataSocketState → SendDataResult SocketState
hook_data s (accepted data' actions id) =
    let (s', actions') = socket_action_hook actions (record s { data_state = data' }) in
    accepted s' actions' id
hook_data s refused = refused

unfoldable pub connect : SocketState → OperationResult SocketState
connect s = hook_syn s (Syn.connect s.syn)

unfoldable pub send_data_frame : CreateFrame → SocketState → SendDataResult SocketState
send_data_frame create s = hook_data s (Data.send_data_frame create s.data_state)

unfoldable pub close : SocketState → OperationResult SocketState
close s = hook_fin s (Fin.close s.fin)
