-- ===== src/Channel/Receivers/Drain.antt =====
-- What `forEach` takes out of a channel.
use heterogeneous_network.Base.{
  ℕ, zero, suc, ◌<◌, ◌≤◌, ◌≡◌, refl, sym, ap, ◌∙◌, Bool, true, false, List, [], ◌∷◌, Option, none,
  some, arith, length, length-drop, drop, get_elem?, Option-cases, inl, inr, All-get,
}
use heterogeneous_network.Channel.{Channel, Next, received, ended, waiting}
use heterogeneous_network.Channel.Chain.{chain, drop-suc, drop_some, drop_all}
use heterogeneous_network.Channel.Outcome.{Follows, due, next-chain}
use heterogeneous_network.Channel.Session.{Receiver, Call}
use heterogeneous_network.Channel.Delivery.{session_of, session-IsValid}
use heterogeneous_network.Channel.Receivers.{
  IReceiver, receiver_of, filter_mapped, filter_map_next, filter_map_receiver, looped, for_each,
}

-- The results of the callback that are there.
pub kept : {A B : Type 0} → (A → Option B) → List A → List B
kept f [] = []
kept f (v ∷ vs) = elim (f v) [ none ↦ kept f vs | some b ↦ b ∷ kept f vs ]

-- The `next` at the end of a channel.
abbrev pub at_end : {B : Type 0} → Bool → Next B
at_end true = ended
at_end false = waiting

module _ {A B : Type 0} (f : A → Option B) (sent : List A) (done : Bool) (c : Channel A)
    (linked : c.entries ≡ chain sent done) where
  -- The first result that is there, and the head behind its value.
  first : ℕ → List A → Next B × ℕ
  first head [] = (at_end done, head)
  first head (v ∷ rest) = elim (f v) [
    | none ↦ first (suc head) rest
    | some b ↦ (received b, suc head)
  ]

  first-none :
      (head : ℕ) (v : A) (rest : List A)
      → f v ≡ none
      → first head (v ∷ rest) ≡ first (suc head) rest
  unfolding first
  first-none head v rest n = rw (first, n) refl

  first-some :
      (head : ℕ) (v : A) (rest : List A) (b : B)
      → f v ≡ some b
      → first head (v ∷ rest) ≡ (received b, suc head)
  unfolding first
  first-some head v rest b n = rw (first, n) refl

  -- The `next` of the channel's receiver.
  next-rest :
      (head : ℕ) (rest : List A)
      → head ≤ length sent
      → drop head sent ≡ rest
      → (receiver_of c).next head ≡ some (due done head rest)
  unfolding receiver_of
  next-rest head rest h e = ap some (next-chain sent rest done c head linked h e)

  filter_mapped-end :
      (d : Bool) (again : ℕ → Option (Next B × ℕ)) (head : ℕ)
      → filter_mapped (receiver_of c) f again (some (due d head [])) ≡ some (at_end d, head)
  filter_mapped-end true again head = refl
  filter_mapped-end false again head = refl

  filter_map_next-first :
      (rest : List A) (fuel head : ℕ)
      → head ≤ length sent
      → drop head sent ≡ rest
      → length rest < fuel
      → filter_map_next (receiver_of c) f fuel head ≡ some (first head rest)
  unfolding filter_map_next first
  filter_map_next-first rest zero head h e l = absurd (omega (arith, l))
  filter_map_next-first [] (suc fuel) head h e l =
      ap (filter_mapped (receiver_of c) f (filter_map_next (receiver_of c) f fuel))
        (next-rest head [] h e)
      ∙ filter_mapped-end done (filter_map_next (receiver_of c) f fuel) head
  filter_map_next-first (v ∷ rest) (suc fuel) head h e l =
      ap (filter_mapped (receiver_of c) f (filter_map_next (receiver_of c) f fuel))
        (next-rest head (v ∷ rest) h e)
      ∙ elim (Option-cases (f v)) [
        | inl n ↦
            rw (n, first-none head v rest n)
              (filter_map_next-first rest fuel (suc head) (drop_some head sent v rest e)
                (drop-suc head sent v rest e) (omega (arith, l)))
        | inr p ↦ rw (p.1, first-some head v rest p.0 p.1) refl
      ]

  kept-none : (v : A) (rest : List A) → f v ≡ none → kept f (v ∷ rest) ≡ kept f rest
  unfolding kept
  kept-none v rest n = rw (kept, n) refl

  kept-some : (v : A) (rest : List A) (b : B) → f v ≡ some b → kept f (v ∷ rest) ≡ b ∷ kept f rest
  unfolding kept
  kept-some v rest b n = rw (kept, n) refl

  looped-end :
      {S : Type 0} (r : IReceiver S B) (d : Bool) (s : S) (again : S → Option (List B × Next B × S))
      → looped r again (some (at_end d, s)) ≡ some ([], at_end d, s)
  looped-end r true s again = refl
  looped-end r false s again = refl

  -- The receiver that keeps the results of the callback.
  abbrev keeping : ℕ → IReceiver ℕ B
  keeping fuel = filter_map_receiver (receiver_of c) f fuel

  keeping-first :
      (rest : List A) (fuel head : ℕ)
      → length sent < fuel
      → head ≤ length sent
      → drop head sent ≡ rest
      → (keeping fuel).next head ≡ some (first head rest)
  unfolding filter_map_receiver
  keeping-first rest fuel head m h e =
      filter_map_next-first rest fuel head h e
        (omega (arith, m, length-drop head sent, ap (λ (l : List A). length l) e))

  for_each-kept :
      (fuel : ℕ)
      → length sent < fuel
      → (rest : List A) (rounds head : ℕ) → head ≤ length sent
      → drop head sent ≡ rest
      → length rest < rounds
      → for_each (keeping fuel) rounds head ≡ some (kept f rest, at_end done, length sent)
  unfolding for_each kept first
  for_each-kept fuel m rest zero head h e l = absurd (omega (arith, l))
  for_each-kept fuel m [] (suc rounds) head h e l =
      ap (looped (keeping fuel) (for_each (keeping fuel) rounds)) (keeping-first [] fuel head m h e)
      ∙ looped-end (keeping fuel) done head (for_each (keeping fuel) rounds)
      ∙ ap (λ n. some ([], at_end done, n)) (drop_all head sent h e)
  for_each-kept fuel m (v ∷ rest) (suc rounds) head h e l =
      let r = keeping fuel in
      let start = keeping-first (v ∷ rest) fuel head m h e in
      let h' = drop_some head sent v rest e in
      let e' = drop-suc head sent v rest e in
      elim (Option-cases (f v)) [
        | inl n ↦
            let skipped =
              for_each-kept fuel m rest (suc rounds) (suc head) h' e' (omega (arith, l)) in
            ap (looped r (for_each r rounds)) (
              start
              ∙ ap some (first-none head v rest n)
              ∙ sym (keeping-first rest fuel (suc head) m h' e'))
            ∙ skipped
            ∙ ap (λ bs. some (bs, at_end done, length sent)) (sym (kept-none v rest n))
        | inr p ↦
            let tail = for_each-kept fuel m rest rounds (suc head) h' e' (omega (arith, l)) in
            ap (looped r (for_each r rounds)) (start ∙ ap some (first-some head v rest p.0 p.1))
            ∙ rw tail
                (ap (λ bs. some (bs, at_end done, length sent)) (sym (kept-some v rest p.0 p.1)))
      ]

-- After any calls on a new channel, `forEach` on a receiver that keeps the results of a callback, with
-- more fuel than there were values, calls its own callback with the results for the values that are
-- still before the receiver, in their order; then the channel is done if the sender closed it, and the
-- loop waits otherwise.
pub for_each-outcome :
    {A B : Type 0} (f : A → Option B) (cs : List (Call A)) (i : ℕ) (r : Receiver A) (fuel : ℕ)
    → get_elem? (session_of cs).receivers i ≡ some r
    → length (session_of cs).sent < fuel
    → for_each (filter_map_receiver (receiver_of (session_of cs).channel) f fuel) fuel r.head
      ≡ some (
        kept f (drop r.head (session_of cs).sent),
        at_end (session_of cs).is_done,
        length (session_of cs).sent,
      )
for_each-outcome f cs i r fuel e m =
    let s = session_of cs in
    let h = session-IsValid cs in
    let k = All-get (Follows s.sent) s.receivers i r h.follow e in
    for_each-kept f s.sent s.is_done s.channel h.linked fuel m (drop r.head s.sent) fuel r.head
      k.within refl (omega (arith, m, length-drop r.head s.sent))
