-- ===== src/Tunnel/Closing.antt =====
-- The end of a socket, which takes its sender out of its port.
use heterogeneous_network.Base.{
  ℕ, ◌<◌, ◌≡◌, refl, sym, ap, ◌∙◌, true, false, List, ◌∷◌, Option, none, some, ◌==◌, ==_iff,
  ==_refl, ◌&&◌, Bool-cases, Option-cases, inl, inr, All, if_keeps,
}
use heterogeneous_network.Base.Dict.{lookup, mem, entries-insert, entries-delete}
use heterogeneous_network.Objects.{get, set, delete_key, size}
use heterogeneous_network.Objects.Paired.{delete_key-IsPaired}
use heterogeneous_network.Tunnel.Service.{
  PortIdentifier, Port, TunnelService, is_listener, is_none, kept_port, after_close, on_close_at,
  close,
}
use heterogeneous_network.Tunnel.Ports.{IsOwn, IsPort, IsValid}

module _ (key : PortIdentifier → ℕ) where
  -- A port whose senders are others than the one that is closed.
  others-IsPort :
      (id s : ℕ) (p : Port) (sockets : List (ℕ × (ℕ × PortIdentifier))) (closed : List ℕ)
      → IsPort key id p sockets closed
      → ((k : ℕ) → lookup k p.frame_sender.value_map ≡ some s → ⊥)
      → IsPort key id p sockets (s ∷ closed)
  unfolding mem
  others-IsPort id s p sockets closed h never = (
    h.0,
    λ k r e. elim (Bool-cases (r == s)) [
      | inl b ↦ let same = (==_iff r s).0 b in absurd (never k (e ∙ ap some same))
      | inr b ↦ let (i, l, c, d) = h.1 k r e in (i, l, c, rw b d)
    ],
  )

  -- The port of the sender, once it is taken out.
  kept-IsPort :
      (id s : ℕ) (i : PortIdentifier) (p : Port) (t : TunnelService)
      → lookup s t.sockets ≡ some (id, i)
      → IsPort key id p t.sockets t.closed
      → IsPort key id (kept_port key i s p) t.sockets (s ∷ t.closed)
  unfolding get delete_key
  kept-IsPort id s i p t e h =
      if_keeps (λ q. IsPort key id q t.sockets (s ∷ t.closed))
        (is_listener s (get key i p.frame_sender)) _ _
        (λ b.
          others-IsPort id s (record p { frame_sender = (delete_key key i p.frame_sender).0 })
            t.sockets t.closed
            (
              delete_key-IsPaired key i p.frame_sender h.0,
              λ k r q. h.1 k r (entries-delete (key i) k r p.frame_sender.value_map q).1,
            )
            (λ k q.
              let found = entries-delete (key i) k s p.frame_sender.value_map q in
              let same : key i ≡ k = own k found.1 in
              let clash : true ≡ false = sym (==_refl k) ∙ ap (λ n. n == k) (sym same) ∙ found.0 in
              absurd (cc clash)))
        (λ b. others-IsPort id s p t.sockets t.closed h (λ k q.
          let here : lookup (key i) p.frame_sender.value_map ≡ some s =
            ap (λ n. lookup n p.frame_sender.value_map) (own k q) ∙ q in
          let clash : true ≡ false = sym (==_refl s) ∙ ap (is_listener s) (sym here) ∙ b in
          absurd (cc clash)))
    where
      own : (k : ℕ) → lookup k p.frame_sender.value_map ≡ some s → key i ≡ k
      own k q = let (j, l, c, d) = h.1 k s q in let same : i ≡ j = cc (e, l) in ap key same ∙ c

  after_close-IsValid :
      (id : ℕ) (p : Port) (t : TunnelService)
      → ((j : ℕ) (q : Port)
          → (id == j) ≡ false
          → lookup j t.ports.value_map ≡ some q
          → IsPort key j q t.sockets t.closed)
      → IsPort key id p t.sockets t.closed
      → ((s : ℕ) (x : ℕ × PortIdentifier) → lookup s t.sockets ≡ some x → s < t.next)
      → ((s : ℕ) → mem s t.closed ≡ true → s < t.next)
      → All (IsOwn key t.sockets) t.delivered
      → IsValid key (after_close id p t)
  unfolding set delete_key
  after_close-IsValid id p t others h made shut delivered =
      if_keeps (IsValid key) ((size p.frame_sender == 0) && is_none p.listener) _ _
        (λ b. record {
          ports = λ j q e.
              let found = entries-delete id j q t.ports.value_map e in others j q found.0 found.1;
          made = made;
          shut = shut;
          delivered = delivered;
        })
        (λ b. record {
          ports =
              entries-insert (λ j q. IsPort key j q t.sockets t.closed) id p t.ports.value_map h
                others;
          made = made;
          shut = shut;
          delivered = delivered;
        })

  -- The ports other than that of the sender do not have it.
  elsewhere-IsPort :
      (id s : ℕ) (i : PortIdentifier) (t : TunnelService)
      → IsValid key t
      → lookup s t.sockets ≡ some (id, i)
      → (j : ℕ) (q : Port) → (id == j) ≡ false
      → lookup j t.ports.value_map ≡ some q
      → IsPort key j q t.sockets (s ∷ t.closed)
  elsewhere-IsPort id s i t h e j q b l =
      others-IsPort j s q t.sockets t.closed (h.ports j q l) (λ k r.
        let (i', m, c, d) = (h.ports j q l).1 k s r in
        let same : id ≡ j = cc (e, m) in
        let clash : true ≡ false = sym (==_refl id) ∙ ap (λ n. id == n) same ∙ b in
        absurd (cc clash))

  close_one-IsValid :
      (id s : ℕ) (i : PortIdentifier) (t : TunnelService) (o : Option Port)
      → lookup s t.sockets ≡ some (id, i)
      → lookup id t.ports.value_map ≡ o
      → IsValid key t
      → IsValid key (on_close_at key id i s o (record t { closed = s ∷ t.closed }))
  unfolding mem
  close_one-IsValid id s i t none e l h = record {
    ports = λ j q m. elsewhere-IsPort id s i t h e j q (other j q m) m;
    made = h.made;
    shut = λ r m. elim (Bool-cases (r == s)) [
      | inl b ↦ rw ((==_iff r s).0 b) (h.made s _ e)
      | inr b ↦ h.shut r (sym (rw b refl) ∙ m)
    ];
    delivered = h.delivered;
  }
    where
      other : (j : ℕ) (q : Port) → lookup j t.ports.value_map ≡ some q → (id == j) ≡ false
      other j q m = elim (Bool-cases (id == j)) [
        | inl b ↦
            let same = (==_iff id j).0 b in
            let gone : none ≡ some q = sym l ∙ ap (λ n. lookup n t.ports.value_map) same ∙ m in
            absurd (cc gone)
        | inr b ↦ b
      ]
  close_one-IsValid id s i t (some p) e l h =
      after_close-IsValid id (kept_port key i s p) (record t { closed = s ∷ t.closed })
        (elsewhere-IsPort id s i t h e) (kept-IsPort id s i p t e (h.ports id p l)) h.made
        (λ r m. elim (Bool-cases (r == s)) [
          | inl b ↦ rw ((==_iff r s).0 b) (h.made s _ e)
          | inr b ↦ h.shut r (sym (rw b refl) ∙ m)
        ])
        h.delivered

  pub close-IsValid : (s : ℕ) (t : TunnelService) → IsValid key t → IsValid key (close key s t)
  unfolding close get mem
  close-IsValid s t h = elim (Option-cases (lookup s t.sockets)) [
    | inl e ↦ rw e h
    | inr ((id, i), e) ↦ rw e (
        if_keeps (IsValid key) (mem s t.closed) t _ (λ b. h)
          (λ b. close_one-IsValid id s i t (lookup id t.ports.value_map) e refl h))
  ]
