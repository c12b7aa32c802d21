-- ===== src/Tunnel/Removal.antt =====
-- A socket that is closed leaves the others in their ports.
use heterogeneous_network.Base.{
  ℕ, ◌≡◌, refl, sym, ap, ◌∙◌, true, false, List, [], ◌∷◌, Option, none, some, arith, ◌==◌, ==_iff,
  ◌||◌, ◌&&◌, Bool-cases, Option-cases, inl, inr, if_keeps, length,
}
use heterogeneous_network.Base.Dict.{lookup, mem, is_some, lookup-insert, lookup-delete}
use heterogeneous_network.Objects.{get, set, delete_key, size}
use heterogeneous_network.Objects.Paired.{IsPaired, set-IsPaired, delete_key-IsPaired}
use heterogeneous_network.Tunnel.Service.{
  PortIdentifier, Port, TunnelService, port_key, is_listener, is_none, close, kept_port,
  after_close, on_close_at,
}
use heterogeneous_network.Tunnel.Ports.{IsValid}
use heterogeneous_network.Tunnel.Served.{Serves, IsServed}

module _ (key : PortIdentifier → ℕ) where
  -- The other senders stay in the port that one is taken out of.
  kept-lookup :
      (i a : PortIdentifier) (s r : ℕ) (p : Port)
      → (r == s) ≡ false
      → lookup (key a) p.frame_sender.value_map ≡ some r
      → lookup (key a) (kept_port key i s p).frame_sender.value_map ≡ some r
  unfolding get delete_key
  kept-lookup i a s r p d e =
      let m = p.frame_sender.value_map in
      if_keeps (λ (q : Port). lookup (key a) q.frame_sender.value_map ≡ some r)
        (is_listener s (lookup (key i) m)) _ _
        (λ b. elim (Bool-cases (key i == key a)) [
          | inl k ↦
              let here : lookup (key i) m ≡ some r =
                ap (λ n. lookup n m) ((==_iff (key i) (key a)).0 k) ∙ e in
              let clash : false ≡ true = sym d ∙ ap (is_listener s) (sym here) ∙ b in
              absurd (cc clash)
          | inr k ↦ lookup-delete (key a) (key i) m ∙ rw k e
        ])
        (λ b. e)

  kept-IsPaired :
      (i : PortIdentifier) (s : ℕ) (p : Port)
      → IsPaired key p.frame_sender
      → IsPaired key (kept_port key i s p).frame_sender
  unfolding get
  kept-IsPaired i s p h =
      if_keeps (λ (q : Port). IsPaired key q.frame_sender)
        (is_listener s (lookup (key i) p.frame_sender.value_map)) _ _
        (λ b. delete_key-IsPaired key i p.frame_sender h) (λ b. h)

  not_empty :
      (k : ℕ) (m : List (ℕ × PortIdentifier))
      → is_some (lookup k m) ≡ true
      → (length m == 0) ≡ false
  unfolding lookup
  not_empty k [] e = cc
  not_empty k (x ∷ m) e = ground arith

  -- A port with a sender is not empty.
  sender-size :
      (k r : ℕ) (p : Port)
      → IsPaired key p.frame_sender
      → lookup k p.frame_sender.value_map ≡ some r
      → (size p.frame_sender == 0) ≡ false
  unfolding size
  sender-size k r p h e = not_empty k p.frame_sender.key_map (h.same k ∙ ap is_some e)

  after_close-IsServed :
      (id : ℕ) (p : Port) (t : TunnelService)
      → IsPaired port_key t.ports
      → IsPaired key p.frame_sender
      → ((r j : ℕ) (a : PortIdentifier)
          → lookup r t.sockets ≡ some (j, a)
          → mem r t.closed ≡ false
          → Serves key j a r t.ports.value_map)
      → ((r : ℕ) (a : PortIdentifier)
          → lookup r t.sockets ≡ some (id, a)
          → mem r t.closed ≡ false
          → lookup (key a) p.frame_sender.value_map ≡ some r)
      → IsServed key (after_close id p t)
  unfolding set delete_key
  after_close-IsServed id p t h k serves own =
      if_keeps (IsServed key) ((size p.frame_sender == 0) && is_none p.listener) _ _
        (λ b. record {
          paired = delete_key-IsPaired port_key id t.ports h;
          serves = λ r j a e c.
              let (q, l, m) = serves r j a e c in
              elim (Bool-cases (id == j)) [
                | inl d ↦
                    let same = (==_iff id j).0 d in
                    let here = own r a (rw same e) c in
                    let full = sender-size (key a) r p k here in
                    let clash : false ≡ true = sym (rw full refl) ∙ b in absurd (cc clash)
                | inr d ↦ (q, lookup-delete j id t.ports.value_map ∙ rw d l, m)
              ];
        })
        (λ b. record {
          paired = set-IsPaired port_key id p t.ports h;
          serves = λ r j a e c.
              let (q, l, m) = serves r j a e c in
              elim (Bool-cases (id == j)) [
                | inl d ↦ (
                  p,
                  lookup-insert j id p t.ports.value_map ∙ rw d refl,
                  own r a (rw ((==_iff id j).0 d) e) c,
                )
                | inr d ↦ (q, lookup-insert j id p t.ports.value_map ∙ rw d l, m)
              ];
        })

  close_one-IsServed :
      (id s : ℕ) (i : PortIdentifier) (t : TunnelService) (o : Option Port)
      → lookup s t.sockets ≡ some (id, i)
      → lookup id t.ports.value_map ≡ o
      → IsValid key t
      → IsServed key t
      → IsServed key (on_close_at key id i s o (record t { closed = s ∷ t.closed }))
  unfolding mem
  close_one-IsServed id s i t none e l v h = record {
    paired = h.paired;
    serves = λ r j a m c. h.serves r j a m (others r c).1;
  }
    where
      others :
          (r : ℕ)
          → ((r == s) || mem r t.closed) ≡ false
          → ((r == s) ≡ false) × (mem r t.closed ≡ false)
      others r c = ground arith
  close_one-IsServed id s i t (some p) e l v h =
      after_close-IsServed id (kept_port key i s p) (record t { closed = s ∷ t.closed }) h.paired
        (kept-IsPaired i s p (v.ports id p l).0) (λ r j a m c. h.serves r j a m (others r c).1)
        (λ r a m c.
          let (q, l', n) = h.serves r id a m (others r c).1 in
          let one : q ≡ p = cc (l, l') in
          kept-lookup i a s r p (others r c).0
            (ap (λ (x : Port). lookup (key a) x.frame_sender.value_map) (sym one) ∙ n))
    where
      others :
          (r : ℕ)
          → ((r == s) || mem r t.closed) ≡ false
          → ((r == s) ≡ false) × (mem r t.closed ≡ false)
      others r c = ground arith

  pub close-IsServed :
      (s : ℕ) (t : TunnelService) → IsValid key t → IsServed key t → IsServed key (close key s t)
  unfolding close get
  close-IsServed s t v h = elim (Option-cases (lookup s t.sockets)) [
    | inl e ↦ rw e h
    | inr ((id, i), e) ↦ rw e (
        if_keeps (IsServed key) (mem s t.closed) t _ (λ b. h)
          (λ b. close_one-IsServed id s i t (lookup id t.ports.value_map) e refl v h))
  ]
