-- ===== src/Trusted/State/Hook.antt =====
-- What `#socketActionHook` makes of the state, for every list of actions.
use heterogeneous_network.Base.{◌≡◌, refl, false, List, [], ◌∷◌, arith, if◌then◌else◌}
use heterogeneous_network.Trusted.Action.{SocketAction, now, delay, open_socket, close_socket}
use heterogeneous_network.Trusted.Syn
use heterogeneous_network.Trusted.Data.{DataSocketState}
use heterogeneous_network.Trusted.Fin
use heterogeneous_network.Trusted.Data.Queue.{IsQueued}
use heterogeneous_network.Trusted.Data.Kept.{IsBlank}
use heterogeneous_network.Trusted.State.{
  StateType, opening, open_state, closing, closed, SocketState, hook_action, hook_actions,
  settle_state,
}

-- The state without the handshakes: whether data is exchanged.
abbrev pub base_state : SocketState → StateType
base_state s = if s.data_state.is_open then open_state else closed

-- The state that the three parts stand for.
abbrev pub expected_state : SocketState → StateType
expected_state s =
    if Fin.is_closing s.fin then closing else if Syn.is_opening s.syn then opening else base_state s

-- The state is right but for what `settle_state` will write.
abbrev pub IsCoherent : SocketState → Type 0
IsCoherent s = Fin.is_closing s.fin ≡ false → Syn.is_opening s.syn ≡ false → s.state ≡ base_state s

-- The data part: the queue is in order, and nothing is left of a closed connection.
abbrev pub IsTidy : DataSocketState → Type 0
IsTidy d = IsQueued d × (d.is_open ≡ false → IsBlank d)

pub settle_state-expected :
    (prev : StateType) (s : SocketState)
    → IsCoherent s
    → (settle_state prev s).state ≡ expected_state (settle_state prev s)
unfolding settle_state
settle_state-expected prev s h = ground arith

hook_action-IsCoherent :
    (a : SocketAction) (s : SocketState) → IsCoherent s → IsCoherent (hook_action a s)
unfolding hook_action Syn.initial Fin.initial
hook_action-IsCoherent (now open_socket) s h = λ _ _. refl
hook_action-IsCoherent (now (close_socket e)) s h = λ _ _. refl
hook_action-IsCoherent (now _) s h = h
hook_action-IsCoherent (delay d actions) s h = h

hook_action-IsTidy :
    (a : SocketAction) (s : SocketState) → IsTidy s.data_state → IsTidy (hook_action a s).data_state
unfolding hook_action
hook_action-IsTidy (now open_socket) s h = (h.0, λ e. cc)
hook_action-IsTidy (now (close_socket e)) s h = (refl, λ _. (refl, refl, refl, refl))
hook_action-IsTidy (now _) s h = h
hook_action-IsTidy (delay d actions) s h = h

pub hook_actions-IsCoherent :
    (actions : List SocketAction) (s : SocketState)
    → IsCoherent s
    → IsCoherent (hook_actions actions s)
unfolding hook_actions
hook_actions-IsCoherent [] s h = h
hook_actions-IsCoherent (a ∷ actions) s h =
    hook_actions-IsCoherent actions (hook_action a s) (hook_action-IsCoherent a s h)

pub hook_actions-IsTidy :
    (actions : List SocketAction) (s : SocketState)
    → IsTidy s.data_state
    → IsTidy (hook_actions actions s).data_state
unfolding hook_actions
hook_actions-IsTidy [] s h = h
hook_actions-IsTidy (a ∷ actions) s h =
    hook_actions-IsTidy actions (hook_action a s) (hook_action-IsTidy a s h)
