-- ===== src/Trusted/State/Preserve/Calls.antt =====
-- Calls of the methods of SocketState and the invariant of its states.
use heterogeneous_network.Base.{◌≡◌, refl, ◌&&◌, arith, ok, if_keeps}
use heterogeneous_network.Trusted.Frame.{
  TrustedFrameBody, syn_body, fin_body, syn_ack_body, fin_ack_body, control, control_ack, data_body,
  data_ack_body,
}
use heterogeneous_network.Trusted.Action.{OperationResult, done, invalid_operation}
use heterogeneous_network.Trusted.Syn
use heterogeneous_network.Trusted.Syn.{SynSocketState}
use heterogeneous_network.Trusted.Fin
use heterogeneous_network.Trusted.Fin.{FinSocketState}
use heterogeneous_network.Trusted.Data
use heterogeneous_network.Trusted.Data.{
  DataSocketState, CreateFrame, Out, SendDataResult, accepted, refused,
}
use heterogeneous_network.Trusted.Data.Queue.{
  IsNumbering, on_data_received-Kept, on_data_ack_received-Kept,
}
use heterogeneous_network.Trusted.Data.Kept.{
  KeptSend, on_receive_data_ack_timeout-Kept, on_send_data_success-Kept, on_send_data_failure-Kept,
  on_send_data_ack_failure-Kept, send_data_frame-Kept,
}
use heterogeneous_network.Trusted.State.{
  SocketState, SendAction, control_action, control_ack_action, data_action, data_ack_action,
  TimeoutAction, control_timeout, data_timeout, on_receive, on_send_success, on_send_failure,
  on_receive_ack_timeout, connect, send_data_frame, close, hook_syn, hook_fin, hook_data,
  control_sent, control_ack_sent, control_failed, control_ack_failed, control_timed_out,
}
use heterogeneous_network.Trusted.State.Hook.{IsCoherent, hook_actions-IsCoherent}
use heterogeneous_network.Trusted.State.Opening
use heterogeneous_network.Trusted.State.Opening.{CoherentSyn, IsExpected}
use heterogeneous_network.Trusted.State.Closing
use heterogeneous_network.Trusted.State.Closing.{CoherentFin}
use heterogeneous_network.Trusted.State.Preserve.{
  IsValid, LeavesValid, LeavesValidOperation, LeavesValidSend, hook-IsValid, run_syn-IsValid,
  run_fin-IsValid, run_data-IsValid, kept-IsCoherent,
}

-- `connect` and `close` of a handshake only ask for an action.
abbrev IsSame : {S : Type 0} → S → OperationResult S → Type 0
IsSame s (done t actions) = t ≡ s
IsSame s invalid_operation = Unit

connect-IsSame : (s : SynSocketState) → IsSame s (Syn.connect s)
unfolding Syn.connect
connect-IsSame s =
    if_keeps (IsSame s) (Syn.incoming_is_yet s.incoming && Syn.outgoing_is_yet s.outgoing) _ _
      (λ _. refl) (λ _. tt)

close-IsSame : (s : FinSocketState) → IsSame s (Fin.close s)
unfolding Fin.close
close-IsSame s =
    if_keeps (IsSame s) (Fin.outgoing_is_yet s.outgoing && Fin.incoming_is_yet s.incoming) _ _
      (λ _. refl) (λ _. tt)

module _ (s : SocketState) (h : IsValid s) where
  pub on_receive-IsValid : (body : TrustedFrameBody) → LeavesValid (on_receive body s)
  unfolding on_receive
  on_receive-IsValid (control syn_body) =
      run_syn-IsValid Syn.on_syn_received s (Opening.on_syn_received-coherent s h.0) h.1
  on_receive-IsValid (control_ack syn_ack_body) =
      run_syn-IsValid Syn.on_syn_ack_received s (Opening.on_syn_ack_received-coherent s h.0) h.1
  on_receive-IsValid (data_body b) =
      run_data-IsValid (λ d. ok (Data.on_data_received b d)) s h
        (on_data_received-Kept b s.data_state h.1.0)
  on_receive-IsValid (data_ack_body a) =
      run_data-IsValid (λ d. ok (Data.on_data_ack_received a d)) s h
        (on_data_ack_received-Kept a s.data_state h.1.0)
  on_receive-IsValid (control fin_body) =
      run_fin-IsValid Fin.on_fin_received s (Closing.on_fin_received-coherent s h.0) h.1
  on_receive-IsValid (control_ack fin_ack_body) =
      run_fin-IsValid Fin.on_fin_ack_received s (Closing.on_fin_ack_received-coherent s h.0) h.1

  pub on_send_success-IsValid : (a : SendAction) → LeavesValid (on_send_success a s)
  unfolding on_send_success Data.on_send_data_ack_success
  on_send_success-IsValid (control_action a) =
      elim a.body as (λ b. LeavesValid (control_sent b a s)) [
        | syn_body ↦
            run_syn-IsValid (Syn.on_syn_send_success a) s
              (Opening.on_syn_send_success-coherent s h.0 a) h.1
        | fin_body ↦
            run_fin-IsValid (Fin.on_fin_send_success a) s
              (Closing.on_fin_send_success-coherent s h.0 a) h.1
      ]
  on_send_success-IsValid (control_ack_action a) =
      elim a.body as (λ b. LeavesValid (control_ack_sent b s)) [
        | syn_ack_body ↦
            run_syn-IsValid Syn.on_syn_ack_send_success s
              (Opening.on_syn_ack_send_success-coherent s h.0) h.1
        | fin_ack_body ↦
            run_fin-IsValid Fin.on_fin_ack_send_success s
              (Closing.on_fin_ack_send_success-coherent s h.0) h.1
      ]
  on_send_success-IsValid (data_action a) =
      run_data-IsValid (Data.on_send_data_success a) s h
        (on_send_data_success-Kept a s.data_state h.1.0)
  on_send_success-IsValid (data_ack_action a) =
      run_data-IsValid (λ d. ok (Data.on_send_data_ack_success d)) s h ((h.1.0, refl), λ _. refl)

  pub on_send_failure-IsValid : (a : SendAction) → LeavesValid (on_send_failure a s)
  unfolding on_send_failure
  on_send_failure-IsValid (control_action a) =
      elim a.body as (λ b. LeavesValid (control_failed b a s)) [
        | syn_body ↦
            run_syn-IsValid (Syn.on_syn_send_failure a) s
              (Opening.on_syn_send_failure-coherent s h.0 a) h.1
        | fin_body ↦
            run_fin-IsValid (Fin.on_fin_send_failure a) s
              (Closing.on_fin_send_failure-coherent s h.0 a) h.1
      ]
  on_send_failure-IsValid (control_ack_action a) =
      elim a.body as (λ b. LeavesValid (control_ack_failed b a s)) [
        | syn_ack_body ↦
            run_syn-IsValid (Syn.on_syn_ack_send_failure a) s
              (Opening.on_syn_ack_send_failure-coherent s h.0 a) h.1
        | fin_ack_body ↦
            run_fin-IsValid (Fin.on_fin_ack_send_failure a) s
              (Closing.on_fin_ack_send_failure-coherent s h.0 a) h.1
      ]
  on_send_failure-IsValid (data_action a) =
      run_data-IsValid (Data.on_send_data_failure a) s h
        (on_send_data_failure-Kept a s.data_state h.1.0)
  on_send_failure-IsValid (data_ack_action a) =
      run_data-IsValid (Data.on_send_data_ack_failure a) s h
        (on_send_data_ack_failure-Kept a s.data_state h.1.0)

  pub on_receive_ack_timeout-IsValid :
      (a : TimeoutAction) → LeavesValid (on_receive_ack_timeout a s)
  unfolding on_receive_ack_timeout
  on_receive_ack_timeout-IsValid (control_timeout a) =
      elim a.body as (λ b. LeavesValid (control_timed_out b a s)) [
        | syn_body ↦
            run_syn-IsValid (Syn.on_syn_ack_receive_timeout a) s
              (Opening.on_syn_ack_receive_timeout-coherent s h.0 a) h.1
        | fin_body ↦
            run_fin-IsValid (Fin.on_fin_ack_receive_timeout a) s
              (Closing.on_fin_ack_receive_timeout-coherent s h.0 a) h.1
      ]
  on_receive_ack_timeout-IsValid (data_timeout a) =
      run_data-IsValid (Data.on_receive_data_ack_timeout a) s h
        (on_receive_data_ack_timeout-Kept a s.data_state h.1.0)

  expected-IsCoherent : IsCoherent s
  expected-IsCoherent = ground (arith, h.0)

  pub connect-IsValid : LeavesValidOperation (connect s)
  unfolding connect
  connect-IsValid = go (Syn.connect s.syn) (connect-IsSame s.syn)
    where
      go :
          (r : OperationResult SynSocketState)
          → IsSame s.syn r
          → LeavesValidOperation (hook_syn s r)
      go (done t actions) e =
          rw e (hook-IsValid actions s (hook_actions-IsCoherent actions s expected-IsCoherent) h.1)
      go invalid_operation e = tt

  pub close-IsValid : LeavesValidOperation (close s)
  unfolding close
  close-IsValid = go (Fin.close s.fin) (close-IsSame s.fin)
    where
      go :
          (r : OperationResult FinSocketState)
          → IsSame s.fin r
          → LeavesValidOperation (hook_fin s r)
      go (done t actions) e =
          rw e (hook-IsValid actions s (hook_actions-IsCoherent actions s expected-IsCoherent) h.1)
      go invalid_operation e = tt

  pub send_data_frame-IsValid :
      (create : CreateFrame) → IsNumbering create → LeavesValidSend (send_data_frame create s)
  unfolding send_data_frame
  send_data_frame-IsValid create n =
      go (Data.send_data_frame create s.data_state)
        (send_data_frame-Kept create s.data_state n h.1.0)
    where
      go :
          (r : SendDataResult DataSocketState)
          → KeptSend s.data_state r
          → LeavesValidSend (hook_data s r)
      go (accepted d actions id) k =
          hook-IsValid actions _ (hook_actions-IsCoherent actions _ (kept-IsCoherent s d h.0 k.0.1))
            (k.0.0, λ shut. cc (k.0.1, k.1, shut))
      go refused k = tt
