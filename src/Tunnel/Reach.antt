-- ===== src/Tunnel/Reach.antt =====
-- Every state of a tunnel service that calls, frames that arrive and closed sockets can make.
use heterogeneous_network.Base.{
  ℕ, suc, ◌≡◌, refl, sym, ap, ◌∙◌, Bool, false, List, [], ◌∷◌, ◌++◌, Option, none, some, Throws, ok,
  arith, ==_refl, Bool-cases, Option-cases, inl, inr, All-append, if_keeps,
}
use mathlib.Core.Path.{subst}
use heterogeneous_network.Base.Dict.{lookup, insert, mem, is_some, lookup-insert, entries-insert}
use heterogeneous_network.Objects.{get, has, set}
use heterogeneous_network.Objects.Paired.{IsPaired, set-IsPaired}
use heterogeneous_network.Tunnel.Frame.{ReceivedTunnelFrame}
use heterogeneous_network.Tunnel.Service.{
  PortIdentifier, Port, TunnelService, identifier_of, new_port, new_sender, put, port_key, send_to,
  open_sender, opened, open_port, listen, listen_at, listen_port, cancel, to_listener, to_sender,
  to_port, handle_received_frame, is_listener,
}
use heterogeneous_network.Tunnel.Ports.{
  IsOpen, IsOwn, IsPort, IsValid, new_port-IsPort, put-IsValid, grown, new_sender-IsValid,
}

-- The port with one more sender.
abbrev pub with_sender : (PortIdentifier → ℕ) → PortIdentifier → ℕ → Port → Port
with_sender key i s p = record p { frame_sender = set key i s p.frame_sender }

module _ (key : PortIdentifier → ℕ) where
  pub open_sender_lem :
      (i : PortIdentifier) (s : ℕ) (p : Port)
      → IsPaired key p.frame_sender
      → lookup (key i) p.frame_sender.value_map ≡ none
      → open_sender key i s p ≡ some (with_sender key i s p)
  unfolding open_sender has
  open_sender_lem i s p h e =
      let away : is_some (lookup (key i) p.frame_sender.key_map) ≡ false =
        h.same (key i) ∙ ap is_some e in
      rw away refl

  with_sender-IsPort :
      (id s : ℕ) (i : PortIdentifier) (p : Port) (sockets : List (ℕ × (ℕ × PortIdentifier)))
      (closed : List ℕ)
      → IsPort key id p sockets closed
      → IsOpen key id (key i) s sockets closed
      → IsPort key id (with_sender key i s p) sockets closed
  unfolding set
  with_sender-IsPort id s i p sockets closed h o = (
    set-IsPaired key i s p.frame_sender h.0,
    entries-insert (λ k r. IsOpen key id k r sockets closed) (key i) s p.frame_sender.value_map o
        (λ k r b e. h.1 k r e),
  )

  pub not_shut : (t : TunnelService) → IsValid key t → mem t.next t.closed ≡ false
  not_shut t h = elim (Bool-cases (mem t.next t.closed)) [
    | inl b ↦ absurd (omega (arith, h.shut t.next b))
    | inr b ↦ b
  ]

  new_sender-IsOpen :
      (id : ℕ) (i : PortIdentifier) (t : TunnelService)
      → IsValid key t
      → IsOpen key id (key i) t.next (insert t.next (id, i) t.sockets) t.closed
  new_sender-IsOpen id i t h = (
    i,
    lookup-insert t.next t.next (id, i) t.sockets ∙ rw (==_refl t.next) refl,
    refl,
    not_shut t h,
  )

  -- A new sender in a port of a valid service.
  pub put_sender-IsValid :
      (id : ℕ) (i : PortIdentifier) (p : Port) (t : TunnelService)
      → IsValid key t
      → IsPort key id p t.sockets t.closed
      → IsValid key (new_sender id i (put id (with_sender key i t.next p) t))
  unfolding set
  put_sender-IsValid id i p t h k =
      let made = new_sender-IsValid key id i t h in
      let port : IsPort key id p (insert t.next (id, i) t.sockets) t.closed =
        (k.0, λ n s e. let (a, l, c, d) = k.1 n s e in (a, grown key id i t s _ h l, c, d)) in
      put-IsValid key id (with_sender key i t.next p) (new_sender id i t) made
        (with_sender-IsPort id t.next i p _ t.closed port (new_sender-IsOpen id i t h))

  pub no_sender : (i : PortIdentifier) → lookup (key i) new_port.frame_sender.value_map ≡ none
  unfolding lookup
  no_sender i = refl

  pub open_port-IsValid :
      (id : ℕ) (i : PortIdentifier) (t : TunnelService)
      → IsValid key t
      → IsValid key (open_port key id i t).1
  unfolding open_port
  open_port-IsValid id i t h =
      let fresh = new_port-IsPort key id t.sockets t.closed in
      if_keeps (λ (r : Bool × TunnelService). IsValid key r.1) (has port_key id t.ports) _ _
        (λ b. h)
        (λ b.
          subst (λ o. IsValid key (opened key id o (new_sender id i (put id new_port t))).1)
            (sym (open_sender_lem i t.next new_port fresh.0 (no_sender i)))
            (put_sender-IsValid id i new_port (put id new_port t)
              (put-IsValid key id new_port t h fresh) fresh))

  bump-IsValid : (t : TunnelService) → IsValid key t → IsValid key (record t { next = suc t.next })
  bump-IsValid t h = record {
    ports = h.ports;
    made = λ s x e. omega (arith, h.made s x e);
    shut = λ s e. omega (arith, h.shut s e);
    delivered = h.delivered;
  }

  -- A port with another listener.
  listener-IsValid :
      (id : ℕ) (p : Port) (l : Option ℕ) (t : TunnelService)
      → IsValid key t
      → IsPort key id p t.sockets t.closed
      → IsValid key (put id (record p { listener = l }) t)
  listener-IsValid id p l t h k = put-IsValid key id (record p { listener = l }) t h (k.0, k.1)

  pub listen-IsValid : (id : ℕ) (t : TunnelService) → IsValid key t → IsValid key (listen id t).1
  unfolding listen get set
  listen-IsValid id t h = go (lookup id t.ports.value_map) (λ p e. h.ports id p e)
    where
      at :
          (p : Port) (o : Option ℕ)
          → IsPort key id p t.sockets t.closed
          → IsValid key (listen_port id p o t).1
      at p (some l) k = h
      at p none k = bump-IsValid _ (listener-IsValid id p (some t.next) t h k)

      go :
          (o : Option Port)
          → ((p : Port) → o ≡ some p → IsPort key id p t.sockets t.closed)
          → IsValid key (listen_at id o t).1
      go none k = bump-IsValid _ (
          listener-IsValid id new_port (some t.next) t h
            (new_port-IsPort key id t.sockets t.closed))
      go (some p) k = at p p.listener (k p refl)

  pub cancel-IsValid : (id l : ℕ) (t : TunnelService) → IsValid key t → IsValid key (cancel id l t)
  unfolding cancel get set
  cancel-IsValid id l t h = elim (Option-cases (lookup id t.ports.value_map)) [
    | inl e ↦ rw e h
    | inr (p, e) ↦ rw e (
        if_keeps (IsValid key) (is_listener l p.listener) _ _
          (λ b. listener-IsValid id p none t h (h.ports id p e)) (λ b. h))
  ]

  -- The service returns, and is valid then.
  abbrev pub Succeeds : Throws TunnelService → Type 0
  Succeeds r = (u : TunnelService) × (r ≡ ok u) × IsValid key u

  send_to-Succeeds :
      (s : ℕ) (f : ReceivedTunnelFrame) (t : TunnelService)
      → IsValid key t
      → IsOpen key f.frame.destination_port_id (key (identifier_of f)) s t.sockets t.closed
      → Succeeds (send_to s f t)
  unfolding send_to
  send_to-Succeeds s f t h (i, l, c, d) = (
    record t { delivered = t.delivered ++ ((s, f) ∷ []) },
    rw d refl,
    record {
      ports = h.ports;
      made = h.made;
      shut = h.shut;
      delivered =
          All-append (IsOwn key t.sockets) t.delivered ((s, f) ∷ []) h.delivered ((i, l, c), tt);
    },
  )

  to_listener-Succeeds :
      (f : ReceivedTunnelFrame) (p : Port) (o : Option ℕ) (t : TunnelService)
      → IsValid key t
      → IsPort key f.frame.destination_port_id p t.sockets t.closed
      → lookup (key (identifier_of f)) p.frame_sender.value_map ≡ none
      → Succeeds (to_listener key f.frame.destination_port_id f p o t)
  to_listener-Succeeds f p none t h k e = (t, refl, h)
  to_listener-Succeeds f p (some l) t h k e =
      let id = f.frame.destination_port_id in
      let i = identifier_of f in
      let t' = new_sender id i (put id (with_sender key i t.next p) t) in
      let (u, r, v) =
        send_to-Succeeds t.next f t' (put_sender-IsValid id i p t h k)
          (new_sender-IsOpen id i t h) in
      rw (open_sender_lem i t.next p k.0 e) (
        rw r (
          record u { accepted = u.accepted ++ ((l, t.next) ∷ []) },
          refl,
          record { ports = v.ports; made = v.made; shut = v.shut; delivered = v.delivered },
        ))

  pub handle_received_frame-Succeeds :
      (f : ReceivedTunnelFrame) (t : TunnelService)
      → IsValid key t
      → Succeeds (handle_received_frame key f t)
  unfolding handle_received_frame get
  handle_received_frame-Succeeds f t h =
      let id = f.frame.destination_port_id in
      go (lookup id t.ports.value_map) (λ p e. h.ports id p e)
    where
      at :
          (p : Port) (o : Option ℕ)
          → lookup (key (identifier_of f)) p.frame_sender.value_map ≡ o
          → IsPort key f.frame.destination_port_id p t.sockets t.closed
          → Succeeds (to_sender key f.frame.destination_port_id f p o t)
      at p (some s) e k = send_to-Succeeds s f t h (k.1 (key (identifier_of f)) s e)
      at p none e k = to_listener-Succeeds f p p.listener t h k e

      go :
          (o : Option Port)
          → ((p : Port) → o ≡ some p → IsPort key f.frame.destination_port_id p t.sockets t.closed)
          → Succeeds (to_port key f.frame.destination_port_id f o t)
      go none k = (t, refl, h)
      go (some p) k = at p (lookup (key (identifier_of f)) p.frame_sender.value_map) refl (k p refl)
