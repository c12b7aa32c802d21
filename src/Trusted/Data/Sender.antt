-- ===== src/Trusted/Data/Sender.antt =====
-- The sending side of DataSocketState refines a queue: the payloads that are not acknowledged yet,
-- the first of them in flight under the number `next_send`.
use heterogeneous_network.Base.{
  ℕ, ◌≡◌, refl, ◌∙◌, Bool, true, false, not, not-eq-true, List, [], ◌∷◌, ◌++◌, Option, none, some,
  All, leb, if_keeps, if◌then◌else◌,
}
use heterogeneous_network.Deferred.{resolve}
use heterogeneous_network.Trusted.Frame.{Payload, DataFrameBody}
use heterogeneous_network.Trusted.Action.{SocketAction, now, delay, send_data}
use heterogeneous_network.Trusted.Action.SendData
use heterogeneous_network.Trusted.Data.{
  CreateFrame, DataFrame, SendPendingFrame, DataSocketState, Out, send_first, send_unless,
  send_if_no_sending_frame, acknowledge, handle_acknowledge_number_in_received_frame,
  on_data_ack_received, send_data_frame, SendDataResult, accepted, refused,
}

-- The data frames that a list of actions sends.
abbrev pub sent_bodies : List SocketAction → List DataFrameBody
sent_bodies [] = []
sent_bodies (now (send_data a) ∷ actions) = a.body ∷ sent_bodies actions
sent_bodies (now _ ∷ actions) = sent_bodies actions
sent_bodies (delay d a ∷ actions) = sent_bodies actions

-- The callback of `TrustedSocket.send(data)` for the payload `q`.
abbrev pub Carries : Payload → CreateFrame → Type 0
Carries q create =
    (n a : ℕ) → ((create n a).body.sequence_number ≡ n) × ((create n a).body.payload ≡ q)

abbrev pub Queues : List SendPendingFrame → List Payload → Type 0
Queues [] [] = Unit
Queues [] (q ∷ qs) = ⊥
Queues (p ∷ ps) [] = ⊥
Queues (p ∷ ps) (q ∷ qs) = Carries q p.create_frame × Queues ps qs

abbrev pub IsHead : ℕ → List Payload → DataFrameBody → Type 0
IsHead n [] b = ⊥
IsHead n (q ∷ qs) b = (b.sequence_number ≡ n) × (b.payload ≡ q)

abbrev pub InFlight : Option DataFrame → ℕ → List SendPendingFrame → List Payload → Type 0
InFlight none n ps qs = (ps ≡ []) × (qs ≡ [])
InFlight (some f) n ps [] = ⊥
InFlight (some f) n ps (q ∷ qs) = IsHead n (q ∷ qs) f.frame.body × Queues ps qs

-- The socket is open and stands for the queue `qs` from the number `n` on.
abbrev pub Represents : ℕ → List Payload → DataSocketState → Type 0
Represents n qs s =
    (s.is_open ≡ true)
    × (s.next_send ≡ n)
    × InFlight s.sending_frame s.next_send s.send_pending_frames qs

-- The data frames that are sent: exactly one, the head of the queue, where a head is due and the
-- queue has one, and none otherwise.
abbrev pub Sends : Bool → ℕ → List Payload → List DataFrameBody → Type 0
Sends false n qs bs = bs ≡ []
Sends true n [] bs = bs ≡ []
Sends true n (q ∷ qs) bs = (b : DataFrameBody) × (bs ≡ b ∷ []) × IsHead n (q ∷ qs) b

-- What a step leaves: the queue, and its head sent exactly where it is due.
abbrev pub RepresentsSent : Bool → ℕ → List Payload → Out → Type 0
RepresentsSent is_due n qs r = Represents n qs r.0 × Sends is_due n qs (sent_bodies r.1)

-- The queue, and no frame sent but its head.
abbrev pub RepresentsOut : ℕ → List Payload → Out → Type 0
RepresentsOut n qs r = Represents n qs r.0 × All (IsHead n qs) (sent_bodies r.1)

Sends-IsHead :
    (is_due : Bool) (n : ℕ) (qs : List Payload) (bs : List DataFrameBody)
    → Sends is_due n qs bs
    → All (IsHead n qs) bs
Sends-IsHead false n qs bs e = rw e tt
Sends-IsHead true n [] bs e = rw e tt
Sends-IsHead true n (q ∷ qs) bs (b, e, h) = rw e (h, tt)

pub RepresentsSent-RepresentsOut :
    (is_due : Bool) (n : ℕ) (qs : List Payload) (r : Out)
    → RepresentsSent is_due n qs r
    → RepresentsOut n qs r
RepresentsSent-RepresentsOut is_due n qs r h = (h.0, Sends-IsHead is_due n qs (sent_bodies r.1) h.1)

send_first-Represents :
    (n : ℕ) (ps : List SendPendingFrame) (qs : List Payload) (s : DataSocketState)
    → s.is_open ≡ true
    → s.next_send ≡ n
    → s.sending_frame ≡ none
    → s.send_pending_frames ≡ ps
    → Queues ps qs
    → RepresentsSent true n qs (send_first ps s)
unfolding SendData.create
send_first-Represents n [] [] s o e f w h = ((o, e, rw f (w, refl)), refl)
send_first-Represents n [] (q ∷ qs) s o e f w h = absurd h
send_first-Represents n (p ∷ ps) [] s o e f w h = absurd h
send_first-Represents n (p ∷ ps) (q ∷ qs) s o e f w h =
    let made = h.0 s.next_send s.next_receive in
    ((o, e, ((made.0, made.1), h.1)), (_, refl, (made.0 ∙ e, made.1)))

-- The queue's side of an acknowledgement: the head leaves, and the next number is the one named.
unfoldable pub after_ack : ℕ → ℕ → List Payload → ℕ × List Payload
after_ack ack n [] = (n, [])
after_ack ack n (q ∷ qs) = if leb ack n then (n, q ∷ qs) else (ack, qs)

-- The acknowledgement is of the head, which is in flight.
unfoldable pub is_acked : ℕ → ℕ → List Payload → Bool
is_acked ack n [] = false
is_acked ack n (q ∷ qs) = not (leb ack n)

acknowledge-Represents :
    (ack n : ℕ) (qs : List Payload) (o : Option DataFrame) (s : DataSocketState)
    → s.sending_frame ≡ o
    → s.is_open ≡ true
    → s.next_send ≡ n
    → InFlight o n s.send_pending_frames qs
    → RepresentsSent
        (is_acked ack n qs)
        (after_ack ack n qs).0
        (after_ack ack n qs).1
        (acknowledge o ack s)
unfolding after_ack is_acked send_if_no_sending_frame
acknowledge-Represents ack n [] none s w o e h = ((o, e, rw w (h.0, refl)), refl)
acknowledge-Represents ack n (q ∷ qs) none s w o e h = cc (h.1)
acknowledge-Represents ack n [] (some f) s w o e h = absurd h
acknowledge-Represents ack n (q ∷ qs) (some f) s w o e h = rw h.0.0 (go (leb ack n))
  where
    go :
        (b : Bool)
        → let r : ℕ × List Payload = if b then (n, q ∷ qs) else (ack, qs) in
          RepresentsSent (not b) r.0 r.1 (
            if b
            then (s, [])
            else send_first s.send_pending_frames (record s {
              promises = resolve f.result SendData.sent s.promises;
              sending_frame = none;
              next_send = ack;
            }))
    go true = ((o, e, rw w (rw e h)), refl)
    go false = send_first-Represents ack s.send_pending_frames qs _ o refl refl refl h.1

-- On a socket that represents a queue from a number on: where the queue has a head,
-- `onDataAckReceived` of an acknowledgement above this number takes the head out, names the number
-- of the acknowledgement as the next one, and sends exactly one data frame, the new head under this
-- number, or none where the queue is empty now; otherwise it leaves the queue and the number, and
-- sends no data frame.
pub on_data_ack_received-Represents :
    (ack n : ℕ) (qs : List Payload) (s : DataSocketState)
    → Represents n qs s
    → RepresentsSent
        (is_acked ack n qs)
        (after_ack ack n qs).0
        (after_ack ack n qs).1
        (on_data_ack_received ack s)
unfolding on_data_ack_received handle_acknowledge_number_in_received_frame
on_data_ack_received-Represents ack n qs s h =
    let (n', qs') = after_ack ack n qs in
    if_keeps (RepresentsSent (is_acked ack n qs) n' qs') (not s.is_open) _ _
      (λ e. cc (h.0, not-eq-true _ e))
      (λ _. acknowledge-Represents ack n qs s.sending_frame s refl h.0 h.1 (rw h.1 at h.2))

Queues-append :
    (ps : List SendPendingFrame) (qs : List Payload) (p : SendPendingFrame) (q : Payload)
    → Queues ps qs
    → Carries q p.create_frame
    → Queues (ps ++ p ∷ []) (qs ++ q ∷ [])
Queues-append [] [] p q h c = (c, tt)
Queues-append [] (r ∷ qs) p q h c = absurd h
Queues-append (t ∷ ps) [] p q h c = absurd h
Queues-append (t ∷ ps) (r ∷ qs) p q h c = (h.0, Queues-append ps qs p q h.1 c)

-- The outcome of `sendData` for a queue, whose head is due or not.
abbrev pub RepresentsSend : Bool → ℕ → List Payload → SendDataResult DataSocketState → Type 0
RepresentsSend is_due n qs (accepted t actions id) = RepresentsSent is_due n qs (t, actions)
RepresentsSend is_due n qs refused = ⊥

abbrev pub is_empty : List Payload → Bool
is_empty [] = true
is_empty (q ∷ qs) = false

send_unless-Represents :
    (n : ℕ) (qs : List Payload) (q : Payload) (ps : List SendPendingFrame) (p : SendPendingFrame)
    (o : Option DataFrame) (s : DataSocketState)
    → s.sending_frame ≡ o
    → s.is_open ≡ true
    → s.next_send ≡ n
    → s.send_pending_frames ≡ ps ++ p ∷ []
    → InFlight o n ps qs
    → Carries q p.create_frame
    → RepresentsSent (is_empty qs) n (qs ++ q ∷ []) (send_unless o s)
send_unless-Represents n qs q ps p none s w o e l h c =
    rw (h.1)
      (send_first-Represents n s.send_pending_frames (q ∷ []) s o e w refl (rw (l, h.0) (c, tt)))
send_unless-Represents n [] q ps p (some f) s w o e l h c = absurd h
send_unless-Represents n (r ∷ qs) q ps p (some f) s w o e l h c =
    ((o, e, rw w (rw (e, l) (h.0, Queues-append ps qs p q h.1 c))), refl)

-- On a socket that represents a queue, `sendData` is not refused and puts its payload at the end of
-- the queue. Where the queue was empty it sends exactly one data frame, with this payload under the
-- next number; otherwise it sends none.
pub send_data_frame-Represents :
    (n : ℕ) (qs : List Payload) (q : Payload) (create : CreateFrame) (s : DataSocketState)
    → Represents n qs s
    → Carries q create
    → RepresentsSend (is_empty qs) n (qs ++ q ∷ []) (send_data_frame create s)
unfolding send_data_frame send_if_no_sending_frame
send_data_frame-Represents n qs q create s h c =
    if_keeps (RepresentsSend (is_empty qs) n (qs ++ q ∷ [])) (not s.is_open) _ _
      (λ e. cc (h.0, not-eq-true _ e))
      (λ _.
        send_unless-Represents n qs q s.send_pending_frames _ s.sending_frame _ refl h.0 h.1 refl
          (rw h.1 at h.2) c)
