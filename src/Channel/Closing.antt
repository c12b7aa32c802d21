-- ===== src/Channel/Closing.antt =====
-- Whether a channel is closed, by the calls that were made.
use heterogeneous_network.Base.{
  ◌≡◌, refl, sym, ◌∙◌, inl, inr, Bool, true, false, List, [], ◌∷◌, ◌||◌, Bool-cases, Option-cases,
  get_elem?, arith,
}
use heterogeneous_network.Channel.Session.{
  Session, Call, send_value, close_sender, make_receiver, close_by_receiver, read, perform,
  perform_all,
}
use heterogeneous_network.Channel.Preserve.{perform-IsValid}
use heterogeneous_network.Channel.Outcome.{
  IsValid, send-outcome, send-closed, close-outcome, close-again, receiver-outcome,
}

or_shift : (a b c x : Bool) → x ≡ (a || c) → (b || x) ≡ ((a || b) || c)
or_shift a b c x e = ground (arith, e)

pub or_false : (b : Bool) → (b || false) ≡ b
or_false b = ground arith

module _ {A : Type 0} where
  -- `close` of the sender.
  abbrev pub is_sender_close : Call A → Bool
  is_sender_close close_sender = true
  is_sender_close (send_value v) = false
  is_sender_close make_receiver = false
  is_sender_close close_by_receiver = false
  is_sender_close (read i) = false

  -- `close` of the sender or of a receiver.
  abbrev pub is_close : Call A → Bool
  is_close close_sender = true
  is_close close_by_receiver = true
  is_close (send_value v) = false
  is_close make_receiver = false
  is_close (read i) = false

  -- A call of a kind is among the calls.
  unfoldable pub is_among : (Call A → Bool) → List (Call A) → Bool
  is_among kind [] = false
  is_among kind (c ∷ cs) = kind c || is_among kind cs

  -- The flags of a session are those before the call, or set by it.
  IsFlagged : Call A → Session A → Session A → Type 0
  IsFlagged c s t =
      (t.channel.closed ≡ (is_close c || s.channel.closed))
      × (t.is_done ≡ (is_sender_close c || s.is_done))

  perform-IsFlagged : (c : Call A) (s : Session A) → IsValid s → IsFlagged c s (perform c s)
  unfolding perform IsFlagged
  perform-IsFlagged (send_value v) s h = elim (Bool-cases s.channel.closed) [
    | inl e ↦ rw (send-closed v s e) (refl, refl)
    | inr e ↦ rw (send-outcome v s h e) (sym e, refl)
  ]
  perform-IsFlagged close_sender s h = elim (Bool-cases s.is_done) [
    | inl e ↦ rw (close-again s h e) (h.ended e, e)
    | inr e ↦ rw (close-outcome s h e) (refl, refl)
  ]
  perform-IsFlagged make_receiver s h = rw (receiver-outcome s h) (refl, refl)
  perform-IsFlagged close_by_receiver s h = (refl, refl)
  perform-IsFlagged (read i) s h = elim (Option-cases (get_elem? s.receivers i)) [
    | inl e ↦ rw e (refl, refl)
    | inr p ↦ rw p.1 (refl, refl)
  ]

  pub perform_all-flags :
      (cs : List (Call A)) (s : Session A)
      → IsValid s
      → ((perform_all cs s).channel.closed ≡ (is_among is_close cs || s.channel.closed))
        × ((perform_all cs s).is_done ≡ (is_among is_sender_close cs || s.is_done))
  unfolding perform_all is_among IsFlagged
  perform_all-flags [] s h = (refl, refl)
  perform_all-flags (c ∷ cs) s h =
      let one = perform-IsFlagged c s h in
      let rest = perform_all-flags cs (perform c s) (perform-IsValid c s h) in
      (
        rest.0 ∙ or_shift (is_close c) (is_among is_close cs) s.channel.closed _ one.0,
        rest.1 ∙ or_shift (is_sender_close c) (is_among is_sender_close cs) s.is_done _ one.1,
      )
