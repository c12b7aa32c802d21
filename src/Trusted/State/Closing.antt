-- ===== src/Trusted/State/Closing.antt =====
-- The closing handshake inside SocketState: after a handler, the state is right but for what the
-- hook's last part writes.
use heterogeneous_network.Base.{arith, Ensures, List}
use heterogeneous_network.Trusted.Action.{SocketAction, Handler}
use heterogeneous_network.Trusted.Action.SendControl.{SendControlAction}
use heterogeneous_network.Trusted.Action.ControlAckTimeout.{ReceiveControlAckTimeoutAction}
use heterogeneous_network.Trusted.Action.SendControlAck.{SendControlAckAction}
use heterogeneous_network.Trusted.Fin
use heterogeneous_network.Trusted.Fin.{FinSocketState}
use heterogeneous_network.Trusted.State.{SocketState, hook_action, hook_actions}
use heterogeneous_network.Trusted.State.Hook.{IsCoherent}
use heterogeneous_network.Trusted.State.Opening.{IsExpected}

abbrev pub CoherentFin : SocketState → Handler FinSocketState → Type 0
CoherentFin s = Ensures (λ (r : FinSocketState × List SocketAction).
    IsCoherent (hook_actions r.1 (record s { fin = r.0 })))

module _ (s : SocketState) (h : IsExpected s) where
  pub on_fin_send_success-coherent :
      (a : SendControlAction) → CoherentFin s (Fin.on_fin_send_success a s.fin)
  unfolding Fin.on_fin_send_success hook_actions hook_action Fin.is_closing
  on_fin_send_success-coherent a = ground arith

  pub on_fin_ack_received-coherent : CoherentFin s (Fin.on_fin_ack_received s.fin)
  unfolding Fin.on_fin_ack_received hook_actions hook_action Fin.is_closing
  on_fin_ack_received-coherent = ground arith

  pub on_fin_send_failure-coherent :
      (a : SendControlAction) → CoherentFin s (Fin.on_fin_send_failure a s.fin)
  unfolding Fin.on_fin_send_failure hook_actions hook_action Fin.is_closing
  on_fin_send_failure-coherent a = ground arith

  pub on_fin_ack_receive_timeout-coherent :
      (a : ReceiveControlAckTimeoutAction) → CoherentFin s (Fin.on_fin_ack_receive_timeout a s.fin)
  unfolding Fin.on_fin_ack_receive_timeout hook_actions hook_action Fin.is_closing
  on_fin_ack_receive_timeout-coherent a = ground arith

  pub on_fin_received-coherent : CoherentFin s (Fin.on_fin_received s.fin)
  unfolding Fin.on_fin_received hook_actions hook_action Fin.is_closing
  on_fin_received-coherent = ground arith

  pub on_fin_ack_send_success-coherent : CoherentFin s (Fin.on_fin_ack_send_success s.fin)
  unfolding Fin.on_fin_ack_send_success hook_actions hook_action Fin.is_closing
  on_fin_ack_send_success-coherent = ground arith

  pub on_fin_ack_send_failure-coherent :
      (a : SendControlAckAction) → CoherentFin s (Fin.on_fin_ack_send_failure a s.fin)
  unfolding Fin.on_fin_ack_send_failure hook_actions hook_action Fin.is_closing
  on_fin_ack_send_failure-coherent a = ground arith
