-- ===== src/Trusted/Data/Promises.antt =====
-- The promises that `sendData` returns: when they are settled, and when not.
use heterogeneous_network.Base.{
  ℕ, ◌≡◌, ◌≢◌, refl, ◌∙◌, true, false, List, [], ◌∷◌, none, some, arith, ok, All, get_elem?,
}
use heterogeneous_network.Deferred.{Status, resolve}
use heterogeneous_network.Deferred.Laws.{
  IsPending, resolve-ne, resolve-settled, resolve-self-settled,
}
use heterogeneous_network.Trusted.Action.{close_socket, now}
use heterogeneous_network.Trusted.Action.SendData
use heterogeneous_network.Trusted.Action.SendData.{SendResult, sent, timeout, SendDataAction}
use heterogeneous_network.Trusted.Data.{
  DataFrame, SendPendingFrame, DataSocketState, resolve_all_timeout, on_close, on_send_data_failure,
}

resolve_all_timeout-settled :
    (ps : List SendPendingFrame) (promises : List (Status SendResult)) (j : ℕ)
    → ¬ IsPending promises j
    → ¬ IsPending (resolve_all_timeout ps promises) j
unfolding resolve_all_timeout
resolve_all_timeout-settled [] promises j h = h
resolve_all_timeout-settled (p ∷ ps) promises j h =
    resolve_all_timeout-settled ps _ j (resolve-settled timeout p.result j promises h)

resolve_all_timeout-All :
    (ps : List SendPendingFrame) (promises : List (Status SendResult))
    → All (λ p. ¬ IsPending (resolve_all_timeout ps promises) p.result) ps
unfolding resolve_all_timeout
resolve_all_timeout-All [] promises = tt
resolve_all_timeout-All (p ∷ ps) promises = (
  resolve_all_timeout-settled ps _ p.result (resolve-self-settled timeout p.result promises),
  resolve_all_timeout-All ps _,
)

resolve_all_timeout-ne :
    (ps : List SendPendingFrame) (promises : List (Status SendResult)) (j : ℕ)
    → All (λ p. p.result ≢ j) ps
    → get_elem? (resolve_all_timeout ps promises) j ≡ get_elem? promises j
unfolding resolve_all_timeout
resolve_all_timeout-ne [] promises j h = refl
resolve_all_timeout-ne (p ∷ ps) promises j h =
    resolve_all_timeout-ne ps _ j h.1 ∙ resolve-ne timeout p.result j promises h.0

-- When the socket closes, no promise of a frame that was still waiting is left pending.
pub on_close_settles :
    (s : DataSocketState)
    → All (λ p. ¬ IsPending (on_close s).promises p.result) s.send_pending_frames
unfolding on_close
on_close_settles s = resolve_all_timeout-All s.send_pending_frames s.promises

-- The last failure to send the frame in flight gives up: the socket is asked to close. It settles
-- the promise that the action carries, and the promises of the frames that wait are settled by
-- the closing; the promise of the frame in flight, which the caller of `sendData` holds and which
-- is not the action's, stays pending, and the closed socket has forgotten it.
pub send_failure_strands :
    (a : SendDataAction) (s : DataSocketState) (f : DataFrame)
    → s.is_open ≡ true
    → s.sending_frame ≡ some f
    → a.body.sequence_number ≡ f.frame.body.sequence_number
    → SendData.retryable a ≡ false
    → a.result ≢ f.result
    → All (λ p. p.result ≢ f.result) s.send_pending_frames
    → IsPending s.promises f.result
    → (t : DataSocketState) × (on_send_data_failure a s ≡ ok (t, now (close_socket true) ∷ []))
      × IsPending (on_close t).promises f.result
      × ((on_close t).sending_frame ≡ none)
unfolding on_send_data_failure on_close
send_failure_strands a s f o e n r ne ws p = (
  record s { promises = resolve a.result timeout s.promises },
  ground arith,
  resolve_all_timeout-ne s.send_pending_frames _ f.result ws
      ∙ resolve-ne timeout a.result f.result s.promises ne
      ∙ p,
  refl,
)
