-- ===== src/Trusted/State/Opening.antt =====
-- The opening handshake inside SocketState: after a handler, the state is right but for what the
-- hook's last part writes.
use heterogeneous_network.Base.{◌≡◌, arith, Ensures, List}
use heterogeneous_network.Trusted.Action.{SocketAction, Handler}
use heterogeneous_network.Trusted.Action.SendControl.{SendControlAction}
use heterogeneous_network.Trusted.Action.ControlAckTimeout.{ReceiveControlAckTimeoutAction}
use heterogeneous_network.Trusted.Action.SendControlAck.{SendControlAckAction}
use heterogeneous_network.Trusted.Syn
use heterogeneous_network.Trusted.Syn.{SynSocketState}
use heterogeneous_network.Trusted.State.{SocketState, hook_action, hook_actions}
use heterogeneous_network.Trusted.State.Hook.{expected_state, IsCoherent}

abbrev pub CoherentSyn : SocketState → Handler SynSocketState → Type 0
CoherentSyn s = Ensures (λ (r : SynSocketState × List SocketAction).
    IsCoherent (hook_actions r.1 (record s { syn = r.0 })))

abbrev pub IsExpected : SocketState → Type 0
IsExpected s = s.state ≡ expected_state s

module _ (s : SocketState) (h : IsExpected s) where
  pub on_syn_send_success-coherent :
      (a : SendControlAction) → CoherentSyn s (Syn.on_syn_send_success a s.syn)
  unfolding Syn.on_syn_send_success hook_actions hook_action Syn.is_opening
  on_syn_send_success-coherent a = ground arith

  pub on_syn_ack_received-coherent : CoherentSyn s (Syn.on_syn_ack_received s.syn)
  unfolding Syn.on_syn_ack_received hook_actions hook_action Syn.is_opening
  on_syn_ack_received-coherent = ground arith

  pub on_syn_send_failure-coherent :
      (a : SendControlAction) → CoherentSyn s (Syn.on_syn_send_failure a s.syn)
  unfolding Syn.on_syn_send_failure hook_actions hook_action Syn.is_opening
  on_syn_send_failure-coherent a = ground arith

  pub on_syn_ack_receive_timeout-coherent :
      (a : ReceiveControlAckTimeoutAction) → CoherentSyn s (Syn.on_syn_ack_receive_timeout a s.syn)
  unfolding Syn.on_syn_ack_receive_timeout hook_actions hook_action Syn.is_opening
  on_syn_ack_receive_timeout-coherent a = ground arith

  pub on_syn_received-coherent : CoherentSyn s (Syn.on_syn_received s.syn)
  unfolding Syn.on_syn_received hook_actions hook_action Syn.is_opening
  on_syn_received-coherent = ground arith

  pub on_syn_ack_send_success-coherent : CoherentSyn s (Syn.on_syn_ack_send_success s.syn)
  unfolding Syn.on_syn_ack_send_success hook_actions hook_action Syn.is_opening
  on_syn_ack_send_success-coherent = ground arith

  pub on_syn_ack_send_failure-coherent :
      (a : SendControlAckAction) → CoherentSyn s (Syn.on_syn_ack_send_failure a s.syn)
  unfolding Syn.on_syn_ack_send_failure hook_actions hook_action Syn.is_opening
  on_syn_ack_send_failure-coherent a = ground arith
