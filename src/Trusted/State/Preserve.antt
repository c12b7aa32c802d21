-- ===== src/Trusted/State/Preserve.antt =====
-- Each method of SocketState keeps the state valid.
pub mod Calls
use heterogeneous_network.Base.{
  ◌≡◌, refl, sym, ◌∙◌, ◌&&◌, arith, Ensures, List, ok, throw, ◌>>=◌, if_keeps,
}
use heterogeneous_network.Trusted.Frame.{
  TrustedFrameBody, syn_body, fin_body, syn_ack_body, fin_ack_body, control, control_ack, data_body,
  data_ack_body,
}
use heterogeneous_network.Trusted.Action.{
  SocketAction, Handler, OperationResult, done, invalid_operation,
}
use heterogeneous_network.Trusted.Syn
use heterogeneous_network.Trusted.Syn.{SynSocketState}
use heterogeneous_network.Trusted.Fin
use heterogeneous_network.Trusted.Fin.{FinSocketState}
use heterogeneous_network.Trusted.Data
use heterogeneous_network.Trusted.Data.{
  DataSocketState, CreateFrame, Out, SendDataResult, accepted, refused,
}
use heterogeneous_network.Trusted.Data.Queue.{
  IsNumbering, Kept, on_data_received-Kept, on_data_ack_received-Kept,
}
use heterogeneous_network.Trusted.Data.Kept.{
  KeptResult, KeptSend, on_receive_data_ack_timeout-Kept, on_send_data_success-Kept,
  on_send_data_failure-Kept, on_send_data_ack_failure-Kept, send_data_frame-Kept,
}
use heterogeneous_network.Trusted.State.{
  SocketState, SendAction, control_action, control_ack_action, data_action, data_ack_action,
  TimeoutAction, control_timeout, data_timeout, hook_actions, socket_action_hook, run_syn, run_fin,
  run_data, on_receive, on_send_success, on_send_failure, on_receive_ack_timeout, connect,
  send_data_frame, close, settle_state, hook_syn, hook_fin, hook_data, control_sent,
  control_ack_sent, control_failed, control_ack_failed, control_timed_out,
}
use heterogeneous_network.Trusted.State.Hook.{
  IsCoherent, IsTidy, settle_state-expected, hook_actions-IsCoherent, hook_actions-IsTidy,
}
use heterogeneous_network.Trusted.State.Opening
use heterogeneous_network.Trusted.State.Opening.{CoherentSyn, IsExpected}
use heterogeneous_network.Trusted.State.Closing
use heterogeneous_network.Trusted.State.Closing.{CoherentFin}

-- The published state is the one that the three parts stand for, and the data part is in order.
abbrev pub IsValid : SocketState → Type 0
IsValid s = IsExpected s × IsTidy s.data_state

abbrev pub LeavesValid : Handler SocketState → Type 0
LeavesValid = Ensures (λ (r : SocketState × List SocketAction). IsValid r.0)

-- The state after an operation that a caller may be refused.
abbrev pub LeavesValidOperation : OperationResult SocketState → Type 0
LeavesValidOperation (done s' actions) = IsValid s'
LeavesValidOperation invalid_operation = Unit

abbrev pub LeavesValidSend : SendDataResult SocketState → Type 0
LeavesValidSend (accepted s' actions id) = IsValid s'
LeavesValidSend refused = Unit

pub hook-IsValid :
    (actions : List SocketAction) (s : SocketState)
    → IsCoherent (hook_actions actions s)
    → IsTidy s.data_state
    → IsValid (socket_action_hook actions s).0
unfolding socket_action_hook
hook-IsValid actions s c t = (
  settle_state-expected s.state (hook_actions actions s) c,
  unfold settle_state in hook_actions-IsTidy actions s t,
)

pub run_syn-IsValid :
    (f : SynSocketState → Handler SynSocketState) (s : SocketState)
    → CoherentSyn s (f s.syn)
    → IsTidy s.data_state
    → LeavesValid (run_syn f s)
run_syn-IsValid f s c t = go (f s.syn) c
  where
    go :
        (r : Handler SynSocketState)
        → CoherentSyn s r
        → LeavesValid
            (do (syn', actions) ← r; ok (socket_action_hook actions (record s { syn = syn' })))
    go (ok r) c = hook-IsValid r.1 _ c t
    go throw c = tt

pub run_fin-IsValid :
    (f : FinSocketState → Handler FinSocketState) (s : SocketState)
    → CoherentFin s (f s.fin)
    → IsTidy s.data_state
    → LeavesValid (run_fin f s)
run_fin-IsValid f s c t = go (f s.fin) c
  where
    go :
        (r : Handler FinSocketState)
        → CoherentFin s r
        → LeavesValid
            (do (fin', actions) ← r; ok (socket_action_hook actions (record s { fin = fin' })))
    go (ok r) c = hook-IsValid r.1 _ c t
    go throw c = tt

pub kept-IsCoherent :
    (s : SocketState) (d : DataSocketState)
    → IsExpected s
    → d.is_open ≡ s.data_state.is_open
    → IsCoherent (record s { data_state = d })
kept-IsCoherent s d h e = ground arith

Kept-IsTidy : (s d : DataSocketState) → IsTidy s → Kept s d → IsTidy d
Kept-IsTidy s d h k = (k.0.0, λ shut. rw (k.1 (sym k.0.1 ∙ shut)) (h.1 (sym k.0.1 ∙ shut)))

pub run_data-IsValid :
    (f : DataSocketState → Handler DataSocketState) (s : SocketState)
    → IsValid s
    → KeptResult s.data_state (f s.data_state)
    → LeavesValid (run_data f s)
run_data-IsValid f s h k = go (f s.data_state) k
  where
    go :
        (r : Handler DataSocketState)
        → KeptResult s.data_state r
        → LeavesValid (do
          (data', actions) ← r
          ok (socket_action_hook actions (record s { data_state = data' })))
    go (ok r) k =
        hook-IsValid r.1 _ (hook_actions-IsCoherent r.1 _ (kept-IsCoherent s r.0 h.0 k.0.1))
          (Kept-IsTidy s.data_state r.0 h.1 k)
    go throw k = tt
