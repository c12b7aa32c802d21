-- ===== src/Channel/Outcome.antt =====
-- What each call on a channel returns, in a session that is in order.
use heterogeneous_network.Base.{
  ℕ, suc, ◌≤◌, ◌≡◌, refl, Bool, true, false, List, [], ◌∷◌, ◌++◌, All, some, ok, throw, arith,
  length, drop, Bool-cases, length-drop, inl, inr,
}
use heterogeneous_network.Channel.{
  Channel, Next, received, ended, waiting, receiver, send, close, next, update_head, resolve,
  resolve_done,
}
use heterogeneous_network.Channel.Chain.{
  chain, chain-length, chain-last, chain-value, chain-append, chain-finish, update_head-chain,
  drop_all,
}
use heterogeneous_network.Channel.Session.{Receiver, Session}

module _ {A : Type 0} where
  -- The values sent since the receiver was made are those that it got, in their order, and those
  -- that are still before it.
  pub record Follows (sent : List A) (r : Receiver A) : Type 0 where
    pub within : r.head ≤ length sent
    pub started : r.since ≤ length sent
    pub split : drop r.since sent ≡ r.got ++ drop r.head sent

  pub record IsValid (s : Session A) : Type 0 where
    pub linked : s.channel.entries ≡ chain s.sent s.is_done
    pub head : s.head ≤ length s.sent
    pub ended : s.is_done ≡ true → s.channel.closed ≡ true
    pub follow : All (Follows s.sent) s.receivers

  -- The loop of `#updateHead` reaches the last entry.
  reached :
      (s : Session A)
      → IsValid s
      → update_head (length s.channel.entries) s.channel.entries s.head ≡ some (length s.sent)
  reached s v = rw v.linked (
      update_head-chain s.sent s.is_done (drop s.head s.sent) _ s.head refl v.head
        (omega (arith, chain-length s.sent s.is_done, length-drop s.head s.sent)))

  pub not_done : (s : Session A) → IsValid s → s.channel.closed ≡ false → s.is_done ≡ false
  not_done s h e = elim (Bool-cases s.is_done) [ inl d ↦ absurd (cc (h.ended d)) | inr d ↦ d ]

  resolve-chain :
      (sent : List A) (v : A)
      → resolve (length sent) v (chain sent false)
        ≡ ok (chain (sent ++ (v ∷ [])) false, suc (length sent))
  unfolding resolve
  resolve-chain sent v =
      rw (chain-length sent false, chain-last sent false, chain-append sent v) refl

  resolve_done-chain :
      (sent : List A) → resolve_done (length sent) (chain sent false) ≡ ok (chain sent true)
  unfolding resolve_done
  resolve_done-chain sent = rw (chain-last sent false, chain-finish sent) refl

  resolve_done-finished : (sent : List A) → resolve_done (length sent) (chain sent true) ≡ throw
  unfolding resolve_done
  resolve_done-finished sent = rw (chain-last sent true) refl

  -- What each call returns.
  pub send-outcome :
      (v : A) (s : Session A)
      → IsValid s
      → s.channel.closed ≡ false
      → send v s.channel s.head
        ≡ ok (
          record { entries = chain (s.sent ++ (v ∷ [])) false; closed = false },
          suc (length s.sent),
        )
  unfolding send
  send-outcome v s h e =
      let d = not_done s h e in
      rw e (rw (reached s h) (rw h.linked (rw d (rw (resolve-chain s.sent v) refl))))

  pub send-closed :
      (v : A) (s : Session A) → s.channel.closed ≡ true → send v s.channel s.head ≡ throw
  unfolding send
  send-closed v s e = rw e refl

  pub close-outcome :
      (s : Session A)
      → IsValid s
      → s.is_done ≡ false
      → close s.channel s.head
        ≡ ok (record { entries = chain s.sent true; closed = true }, length s.sent)
  unfolding close
  close-outcome s h d = rw (reached s h) (rw h.linked (rw d (rw (resolve_done-chain s.sent) refl)))

  pub close-again : (s : Session A) → IsValid s → s.is_done ≡ true → close s.channel s.head ≡ throw
  unfolding close
  close-again s h d = rw (reached s h) (rw h.linked (rw d (rw (resolve_done-finished s.sent) refl)))

  pub receiver-outcome :
      (s : Session A) → IsValid s → receiver s.channel s.head ≡ ok (length s.sent)
  unfolding receiver
  receiver-outcome s h = rw (reached s h) refl

  -- What a receiver is given next.
  abbrev pub due : Bool → ℕ → List A → Next A × ℕ
  due done head (v ∷ rest) = (received v, suc head)
  due true head [] = (ended, head)
  due false head [] = (waiting, head)

  pub next-chain :
      (sent rest : List A) (done : Bool) (c : Channel A) (head : ℕ)
      → c.entries ≡ chain sent done
      → head ≤ length sent
      → drop head sent ≡ rest
      → next c head ≡ due done head rest
  unfolding next
  next-chain sent (v ∷ rest) done c head l h e =
      rw l (rw (chain-value sent done head v rest e) refl)
  next-chain sent [] true c head l h e =
      rw l (rw (drop_all head sent h e) (rw (chain-last sent true) refl))
  next-chain sent [] false c head l h e =
      rw l (rw (drop_all head sent h e) (rw (chain-last sent false) refl))
