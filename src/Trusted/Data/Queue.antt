-- ===== src/Trusted/Data/Queue.antt =====
-- The sending side of DataSocketState: the frame in flight and the queue behind it.
use heterogeneous_network.Base.{
  ℕ, ◌≡◌, refl, Bool, false, List, [], ◌∷◌, Option, none, some, All, leb, ltb, not, not-eq-false,
  ◌≢◌, if_keeps, if◌then◌else◌,
}
use heterogeneous_network.Trusted.Frame.{DataFrameBody}
use heterogeneous_network.Trusted.Data.{
  CreateFrame, DataFrame, SendPendingFrame, DataSocketState, Out, send_first, send_unless,
  send_if_no_sending_frame, acknowledge, handle_acknowledge_number_in_received_frame,
  on_data_received, on_data_ack_received,
}

-- A callback that puts the number it is given into the frame, as `TrustedSocket.send` does.
abbrev pub IsNumbering : CreateFrame → Type 0
IsNumbering create = (n a : ℕ) → (create n a).body.sequence_number ≡ n

abbrev pub IsNumberingPending : SendPendingFrame → Type 0
IsNumberingPending p = IsNumbering p.create_frame

-- Nothing in flight means nothing waits; a frame in flight has the number `next_send`.
abbrev pub IsQueue : Option DataFrame → ℕ → List SendPendingFrame → Type 0
IsQueue none n ps = ps ≡ []
IsQueue (some f) n ps = (f.frame.body.sequence_number ≡ n) × All IsNumberingPending ps

abbrev pub IsQueued : DataSocketState → Type 0
IsQueued s = IsQueue s.sending_frame s.next_send s.send_pending_frames

-- Queued, and open or not as `b` says.
abbrev pub IsSound : Bool → DataSocketState → Type 0
IsSound b s = IsQueued s × (s.is_open ≡ b)

abbrev pub LeavesSound : Bool → Out → Type 0
LeavesSound b r = IsSound b r.0

send_first-IsSound :
    (b : Bool) (ps : List SendPendingFrame) (s : DataSocketState)
    → All IsNumberingPending ps
    → s.send_pending_frames ≡ ps
    → s.sending_frame ≡ none
    → s.is_open ≡ b
    → LeavesSound b (send_first ps s)
send_first-IsSound b [] s h e n o = (rw n e, o)
send_first-IsSound b (p ∷ ps) s h e n o = ((h.0 s.next_send s.next_receive, h.1), o)

send_unless-IsSound :
    (b : Bool) (o : Option DataFrame) (s : DataSocketState)
    → s.sending_frame ≡ o
    → All IsNumberingPending s.send_pending_frames
    → (s.sending_frame ≢ none → IsQueued s)
    → s.is_open ≡ b
    → LeavesSound b (send_unless o s)
send_unless-IsSound b none s e h q o = send_first-IsSound b s.send_pending_frames s h refl e o
send_unless-IsSound b (some f) s e h q o = (q (λ n. cc), o)

-- The work is resumed as soon as nothing is in flight.
pub send_if_no_sending_frame-IsSound :
    (b : Bool) (s : DataSocketState)
    → All IsNumberingPending s.send_pending_frames
    → (s.sending_frame ≢ none → IsQueued s)
    → s.is_open ≡ b
    → LeavesSound b (send_if_no_sending_frame s)
unfolding send_if_no_sending_frame
send_if_no_sending_frame-IsSound b s h q o = send_unless-IsSound b s.sending_frame s refl h q o

pub IsQueue-All :
    (o : Option DataFrame) (n : ℕ) (ps : List SendPendingFrame)
    → IsQueue o n ps
    → All IsNumberingPending ps
IsQueue-All none n ps h = rw h tt
IsQueue-All (some f) n ps h = h.1

acknowledge-IsSound :
    (b : Bool) (o : Option DataFrame) (ack : ℕ) (s : DataSocketState)
    → IsSound b s
    → LeavesSound b (acknowledge o ack s)
acknowledge-IsSound b none ack s h = h
acknowledge-IsSound b (some f) ack s h =
    if_keeps (LeavesSound b) (leb ack f.frame.body.sequence_number) _ _ (λ _. h)
      (λ _.
        send_if_no_sending_frame-IsSound b _ (IsQueue-All s.sending_frame _ _ h.0)
          (λ n. absurd (n refl)) h.1)

-- What a handler leaves behind: a sound state, untouched if the socket is not open.
abbrev pub Kept : DataSocketState → DataSocketState → Type 0
Kept s t = IsSound s.is_open t × (s.is_open ≡ false → t ≡ s)

abbrev pub KeptOut : DataSocketState → Out → Type 0
KeptOut s r = Kept s r.0

if_open_keeps :
    (s : DataSocketState) (r : Out)
    → IsQueued s
    → LeavesSound s.is_open r
    → KeptOut s (if not s.is_open then (s, []) else r)
if_open_keeps s r h k =
    if_keeps (KeptOut s) (not s.is_open) _ _ (λ _. ((h, refl), λ _. refl))
      (λ e. (k, λ c. cc (not-eq-false _ e)))

pub on_data_ack_received-Kept :
    (ack : ℕ) (s : DataSocketState) → IsQueued s → KeptOut s (on_data_ack_received ack s)
unfolding on_data_ack_received handle_acknowledge_number_in_received_frame
on_data_ack_received-Kept ack s h =
    if_open_keeps s _ h (acknowledge-IsSound s.is_open s.sending_frame ack s (h, refl))

pub on_data_received-Kept :
    (body : DataFrameBody) (s : DataSocketState) → IsQueued s → KeptOut s (on_data_received body s)
unfolding on_data_received handle_acknowledge_number_in_received_frame
on_data_received-Kept body s h =
    let kept =
      acknowledge-IsSound s.is_open s.sending_frame body.acknowledgement_number s (h, refl) in
    if_open_keeps s _ h (
      if_keeps (LeavesSound s.is_open) (ltb body.sequence_number _) _ _ (λ _. kept)
        (λ _.
          if_keeps (LeavesSound s.is_open) (ltb _ body.sequence_number) _ _ (λ _. kept)
            (λ _. kept)))
