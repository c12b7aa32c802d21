-- ===== src/Channel/Delivery.antt =====
-- What the receivers of a channel are given.
use heterogeneous_network.Base.{
  ℕ, ◌≡◌, ◌↔◌, sym, ◌∙◌, inl, inr, true, List, [], ◌∷◌, ◌++◌, some, ok, throw, length, get_elem?,
  drop, Bool-cases, All-get,
}
use heterogeneous_network.Channel.{receiver, send, close, next}
use heterogeneous_network.Channel.Session.{
  Receiver, Session, Call, new_session, perform, perform_all,
}
use heterogeneous_network.Channel.Closing.{
  is_among, is_close, is_sender_close, perform_all-flags, or_false,
}
use heterogeneous_network.Channel.Preserve.{next-due, new_session-IsValid, perform-IsValid}
use heterogeneous_network.Channel.Outcome.{
  Follows, IsValid, send-outcome, send-closed, close-outcome, close-again, receiver-outcome, due,
}

module _ {A : Type 0} where
  perform_all-IsValid :
      (cs : List (Call A)) (s : Session A) → IsValid s → IsValid (perform_all cs s)
  unfolding perform_all
  perform_all-IsValid [] s h = h
  perform_all-IsValid (c ∷ cs) s h = perform_all-IsValid cs (perform c s) (perform-IsValid c s h)

  send-throws :
      (v : A) (s : Session A)
      → IsValid s
      → send v s.channel s.head ≡ throw
      → s.channel.closed ≡ true
  send-throws v s h t = elim (Bool-cases s.channel.closed) [
    | inl e ↦ e
    | inr e ↦ absurd (cc (t, send-outcome v s h e))
  ]

  close-throws : (s : Session A) → IsValid s → close s.channel s.head ≡ throw → s.is_done ≡ true
  close-throws s h t = elim (Bool-cases s.is_done) [
    | inl e ↦ e
    | inr e ↦ absurd (cc (t, close-outcome s h e))
  ]

  -- The session after calls on a new channel.
  abbrev pub session_of : List (Call A) → Session A
  session_of cs = perform_all cs new_session

  pub session-IsValid : (cs : List (Call A)) → IsValid (session_of cs)
  session-IsValid cs = perform_all-IsValid cs new_session new_session-IsValid

  -- After any calls on a new channel, the values that the sender sent since a receiver was made are,
  -- in their order, the values that this receiver got and then the values before it: a receiver
  -- misses no value, gets none twice and gets them in the order they were sent in.
  pub channel-Follows :
      (cs : List (Call A)) (i : ℕ) (r : Receiver A)
      → get_elem? (session_of cs).receivers i ≡ some r
      → drop r.since (session_of cs).sent ≡ r.got ++ drop r.head (session_of cs).sent
  channel-Follows cs i r e =
      let s = session_of cs in
      (All-get (Follows s.sent) s.receivers i r (session-IsValid cs).follow e).split

  -- After any calls on a new channel, `next` of a receiver returns the first of the values that are
  -- still before it. Where there is none, it says that the channel is done if the sender closed it,
  -- and waits otherwise.
  pub next-outcome :
      (cs : List (Call A)) (i : ℕ) (r : Receiver A)
      → get_elem? (session_of cs).receivers i ≡ some r
      → next (session_of cs).channel r.head
        ≡ due (session_of cs).is_done r.head (drop r.head (session_of cs).sent)
  next-outcome cs i r e =
      let s = session_of cs in
      let h = session-IsValid cs in
      next-due s h r (All-get (Follows s.sent) s.receivers i r h.follow e)

  -- The flags of the session, by the calls.
  session-flags :
      (cs : List (Call A))
      → ((session_of cs).channel.closed ≡ is_among is_close cs)
        × ((session_of cs).is_done ≡ is_among is_sender_close cs)
  session-flags cs =
      let flags = perform_all-flags cs new_session new_session-IsValid in
      (flags.0 ∙ or_false (is_among is_close cs), flags.1 ∙ or_false (is_among is_sender_close cs))

  -- After any calls on a new channel: `send` throws exactly where a `close` of the sender or of a
  -- receiver is among the calls; `close` of the sender throws exactly where a `close` of the sender
  -- is among them; a receiver can always be made, and has all values so far behind it.
  pub throws_iff :
      (cs : List (Call A)) (v : A)
      → ((send v (session_of cs).channel (session_of cs).head ≡ throw)
          ↔ (is_among is_close cs ≡ true))
        × ((close (session_of cs).channel (session_of cs).head ≡ throw)
            ↔ (is_among is_sender_close cs ≡ true))
        × (receiver (session_of cs).channel (session_of cs).head ≡ ok (length (session_of cs).sent))
  throws_iff cs v =
      let s = session_of cs in
      let h = session-IsValid cs in
      let (closed, done) = session-flags cs in
      (
        (λ t. sym closed ∙ send-throws v s h t, λ e. send-closed v s (closed ∙ e)),
        (λ t. sym done ∙ close-throws s h t, λ e. close-again s h (done ∙ e)),
        receiver-outcome s h,
      )
