-- ===== src/Channel/Preserve.antt =====
-- Every call leaves a session in order.
use heterogeneous_network.Base.{
  ℕ, zero, suc, ◌≤◌, ◌≡◌, inl, inr, refl, sym, ap, ◌∙◌, Bool, true, false, List, [], ◌∷◌, ◌++◌, All,
  All-append, arith, length, get_elem?, set, drop, Bool-cases, Option-cases, length-append, All-get,
}
use mathlib.Core.List.{append_assoc}
use heterogeneous_network.Channel.{next}
use heterogeneous_network.Channel.Chain.{chain, chain-nil, drop-suc, drop_some}
use heterogeneous_network.Channel.Session.{
  Receiver, Session, Call, send_value, close_sender, make_receiver, close_by_receiver, read,
  new_session, after, perform,
}
use heterogeneous_network.Channel.Outcome.{
  Follows, IsValid, not_done, send-outcome, send-closed, close-outcome, close-again,
  receiver-outcome, due, next-chain,
}

drop-append :
    {A : Type 0} (n : ℕ) (xs ys : List A) → n ≤ length xs → drop n (xs ++ ys) ≡ drop n xs ++ ys
drop-append zero xs ys h = refl
drop-append (suc n) [] ys h = absurd (omega (arith, h))
drop-append (suc n) (x ∷ xs) ys h = drop-append n xs ys (omega (arith, h))

drop-length_self : {A : Type 0} (xs : List A) → drop (length xs) xs ≡ []
drop-length_self [] = refl
drop-length_self (x ∷ xs) = drop-length_self xs

module _ {A : Type 0} where
  Follows-append :
      (sent : List A) (v : A) (r : Receiver A) → Follows sent r → Follows (sent ++ (v ∷ [])) r
  Follows-append sent v r h = record {
    within = omega (arith, h.within, length-append sent (v ∷ []));
    started = omega (arith, h.started, length-append sent (v ∷ []));
    split =
        drop-append r.since sent (v ∷ []) h.started
        ∙ ap (λ xs. xs ++ (v ∷ [])) h.split
        ∙ append_assoc r.got (drop r.head sent) (v ∷ [])
        ∙ ap (λ xs. r.got ++ xs) (sym (drop-append r.head sent (v ∷ []) h.within));
  }

  follow_append :
      (sent : List A) (v : A) (rs : List (Receiver A))
      → All (Follows sent) rs
      → All (Follows (sent ++ (v ∷ []))) rs
  follow_append sent v [] h = tt
  follow_append sent v (r ∷ rs) h = (Follows-append sent v r h.0, follow_append sent v rs h.1)

  Follows-due :
      (sent rest : List A) (done : Bool) (r : Receiver A)
      → drop r.head sent ≡ rest
      → Follows sent r
      → Follows sent (after r (due done r.head rest))
  Follows-due sent [] true r e h = h
  Follows-due sent [] false r e h = h
  Follows-due sent (v ∷ rest) done r e h = record {
    within = drop_some r.head sent v rest e;
    started = h.started;
    split =
        h.split
        ∙ ap (λ xs. r.got ++ xs) (e ∙ ap (λ xs. v ∷ xs) (sym (drop-suc r.head sent v rest e)))
        ∙ sym (append_assoc r.got (v ∷ []) (drop (suc r.head) sent));
  }

  Follows-set :
      (sent : List A) (rs : List (Receiver A)) (i : ℕ) (r : Receiver A)
      → All (Follows sent) rs
      → Follows sent r
      → All (Follows sent) (set rs i r)
  Follows-set sent [] i r h k = tt
  Follows-set sent (x ∷ rs) zero r h k = (k, h.1)
  Follows-set sent (x ∷ rs) (suc i) r h k = (h.0, Follows-set sent rs i r h.1 k)

  started_now :
      (sent : List A) → Follows sent (record { head = length sent; since = length sent; got = [] })
  started_now sent = record { within = omega arith; started = omega arith; split = refl }

  pub next-due :
      (s : Session A) (h : IsValid s) (r : Receiver A)
      → Follows s.sent r
      → next s.channel r.head ≡ due s.is_done r.head (drop r.head s.sent)
  next-due s h r k =
      next-chain s.sent (drop r.head s.sent) s.is_done s.channel r.head h.linked k.within refl

  Follows-next :
      (s : Session A) (h : IsValid s) (r : Receiver A)
      → Follows s.sent r
      → Follows s.sent (after r (next s.channel r.head))
  Follows-next s h r k =
      rw (next-due s h r k) (Follows-due s.sent (drop r.head s.sent) s.is_done r refl k)

  pub new_session-IsValid : IsValid (new_session {A = A})
  new_session-IsValid = record {
    linked = sym chain-nil;
    head = omega arith;
    ended = λ e. cc;
    follow = tt;
  }

  send-IsValid : (v : A) (s : Session A) → IsValid s → IsValid (perform (send_value v) s)
  unfolding perform
  send-IsValid v s h = elim (Bool-cases s.channel.closed) [
    | inl e ↦ rw (send-closed v s e) h
    | inr e ↦ rw (send-outcome v s h e) (record {
      linked = ap (chain (s.sent ++ (v ∷ []))) (sym (not_done s h e));
      head = omega (arith, length-append s.sent (v ∷ []));
      ended = λ d. absurd (cc (d, not_done s h e));
      follow = follow_append s.sent v s.receivers h.follow;
    })
  ]

  close-IsValid : (s : Session A) → IsValid s → IsValid (perform close_sender s)
  unfolding perform
  close-IsValid s h = elim (Bool-cases s.is_done) [
    | inl e ↦ rw (close-again s h e) h
    | inr e ↦
        rw (close-outcome s h e)
          (record { linked = refl; head = omega arith; ended = λ d. refl; follow = h.follow })
  ]

  receiver-IsValid : (s : Session A) → IsValid s → IsValid (perform make_receiver s)
  unfolding perform
  receiver-IsValid s h = rw (receiver-outcome s h) (record {
    linked = h.linked;
    head = omega arith;
    ended = h.ended;
    follow = All-append (Follows s.sent) s.receivers _ h.follow (started_now s.sent, tt);
  })

  read-IsValid : (i : ℕ) (s : Session A) → IsValid s → IsValid (perform (read i) s)
  unfolding perform
  read-IsValid i s h = elim (Option-cases (get_elem? s.receivers i)) [
    | inl e ↦ rw e h
    | inr p ↦ rw p.1 (record {
      linked = h.linked;
      head = h.head;
      ended = h.ended;
      follow =
          Follows-set s.sent s.receivers i _ h.follow
            (Follows-next s h p.0 (All-get (Follows s.sent) s.receivers i p.0 h.follow p.1));
    })
  ]

  pub perform-IsValid : (c : Call A) (s : Session A) → IsValid s → IsValid (perform c s)
  unfolding perform
  perform-IsValid (send_value v) s h = send-IsValid v s h
  perform-IsValid close_sender s h = close-IsValid s h
  perform-IsValid make_receiver s h = receiver-IsValid s h
  perform-IsValid close_by_receiver s h = record {
    linked = h.linked;
    head = h.head;
    ended = λ d. refl;
    follow = h.follow;
  }
  perform-IsValid (read i) s h = read-IsValid i s h
