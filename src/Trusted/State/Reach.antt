-- ===== src/Trusted/State/Reach.antt =====
-- The states of a socket that calls of SocketState's methods can reach, in any order and with any
-- arguments.
use heterogeneous_network.Base.{ℕ, ◌≡◌, refl, List, ok}
use heterogeneous_network.Trusted.Frame.{TrustedFrameBody}
use heterogeneous_network.Trusted.Action.{SocketAction, done}
use heterogeneous_network.Trusted.Syn
use heterogeneous_network.Trusted.Fin
use heterogeneous_network.Trusted.Data.{CreateFrame, accepted}
use heterogeneous_network.Trusted.Data.Queue.{IsNumbering}
use heterogeneous_network.Trusted.State.{
  SocketState, SendAction, TimeoutAction, initial, on_receive, on_send_success, on_send_failure,
  on_receive_ack_timeout, connect, send_data_frame, close,
}
use heterogeneous_network.Trusted.State.Preserve.{IsValid}
use heterogeneous_network.Trusted.State.Preserve.Calls.{
  on_receive-IsValid, on_send_success-IsValid, on_send_failure-IsValid,
  on_receive_ack_timeout-IsValid, connect-IsValid, close-IsValid, send_data_frame-IsValid,
}

-- One call that returns, with the actions that it hands to the caller.
pub data Step (s t : SocketState) : Type 0 where
  receives :
      (body : TrustedFrameBody) (out : List SocketAction)
      → on_receive body s ≡ ok (t, out)
      → Step s t
  sends : (a : SendAction) (out : List SocketAction) → on_send_success a s ≡ ok (t, out) → Step s t
  fails : (a : SendAction) (out : List SocketAction) → on_send_failure a s ≡ ok (t, out) → Step s t
  times_out :
      (a : TimeoutAction) (out : List SocketAction)
      → on_receive_ack_timeout a s ≡ ok (t, out)
      → Step s t
  connects : (out : List SocketAction) → connect s ≡ done t out → Step s t
  -- The callback is the one of `TrustedSocket.send`, which numbers its frame.
  takes_data :
      (create : CreateFrame) (out : List SocketAction) (id : ℕ)
      → IsNumbering create
      → send_data_frame create s ≡ accepted t out id
      → Step s t
  closes : (out : List SocketAction) → close s ≡ done t out → Step s t

pub data Reach (s : SocketState) : SocketState → Type 0 where
  here : Reach s s
  next : {t u : SocketState} → Reach s t → Step t u → Reach s u

pub Step-IsValid : (s t : SocketState) → Step s t → IsValid s → IsValid t
Step-IsValid s t (receives body out e) h = rw e at (on_receive-IsValid s h body)
Step-IsValid s t (sends a out e) h = rw e at (on_send_success-IsValid s h a)
Step-IsValid s t (fails a out e) h = rw e at (on_send_failure-IsValid s h a)
Step-IsValid s t (times_out a out e) h = rw e at (on_receive_ack_timeout-IsValid s h a)
Step-IsValid s t (connects out e) h = rw e at (connect-IsValid s h)
Step-IsValid s t (takes_data create out id n e) h = rw e at (send_data_frame-IsValid s h create n)
Step-IsValid s t (closes out e) h = rw e at (close-IsValid s h)

Reach-IsValid : {s t : SocketState} → IsValid s → Reach s t → IsValid t
Reach-IsValid h here = h
Reach-IsValid h (next {t = t} {u = u} r st) = Step-IsValid t u st (Reach-IsValid h r)

-- In every state that a new socket can reach, the published state is `closing` while the closing
-- handshake is under way, else `opening` while the opening handshake is, else `open` or `closed` as
-- data is exchanged or not; a frame in flight has the number `next_send`, frames wait only behind
-- one in flight, and a socket that exchanges no data has no frame in flight or waiting and both
-- of its counters at 0.
pub socket_invariant : (t : SocketState) → Reach initial t → IsValid t
unfolding initial Syn.is_opening Fin.is_closing
socket_invariant t r = Reach-IsValid (refl, (refl, λ _. (refl, refl, refl, refl))) r
