-- ===== src/Tunnel/Arrival.antt =====
-- Frames that arrive at a tunnel service: a new socket for a listener, or a frame for an open one.
use heterogeneous_network.Base.{
  ℕ, ◌≡◌, refl, sym, ap, ◌∙◌, false, [], ◌∷◌, ◌++◌, Option, none, some, Throws, ok, throw, ◌>>=◌,
  Ensures, if_keeps,
}
use mathlib.Core.Path.{subst}
use heterogeneous_network.Base.Dict.{lookup, mem}
use heterogeneous_network.Objects.{get}
use heterogeneous_network.Tunnel.Frame.{ReceivedTunnelFrame}
use heterogeneous_network.Tunnel.Service.{
  PortIdentifier, Port, TunnelService, identifier_of, new_sender, put, send_to, accept, to_listener,
  to_sender, to_port, handle_received_frame,
}
use heterogeneous_network.Tunnel.Ports.{IsValid}
use heterogeneous_network.Tunnel.Reach.{with_sender, open_sender_lem}
use heterogeneous_network.Tunnel.Served.{IsServed, more-IsServed}

module _ (key : PortIdentifier → ℕ) where
  send_to-IsServed :
      (s : ℕ) (f : ReceivedTunnelFrame) (t : TunnelService)
      → IsServed key t
      → Ensures (IsServed key) (send_to s f t)
  unfolding send_to
  send_to-IsServed s f t h =
      if_keeps (Ensures (IsServed key)) (mem s t.closed) throw _ (λ b. tt)
        (λ b. record { paired = h.paired; serves = h.serves })

  to_listener-IsServed :
      (f : ReceivedTunnelFrame) (p : Port) (o : Option ℕ) (t : TunnelService)
      → IsValid key t
      → IsServed key t
      → lookup f.frame.destination_port_id t.ports.value_map ≡ some p
      → lookup (key (identifier_of f)) p.frame_sender.value_map ≡ none
      → Ensures (IsServed key) (to_listener key f.frame.destination_port_id f p o t)
  to_listener-IsServed f p none t v h e n = h
  to_listener-IsServed f p (some l) t v h e n =
      let id = f.frame.destination_port_id in
      let i = identifier_of f in
      let t' = new_sender id i (put id (with_sender key i t.next p) t) in
      subst (λ o. Ensures (IsServed key) (accept key id f o l t))
        (sym (open_sender_lem key i t.next p (v.ports id p e).0 n))
        (go (send_to t.next f t') (send_to-IsServed t.next f t' (more-IsServed key id i p t h e n)))
    where
      go :
          (r : Throws TunnelService)
          → Ensures (IsServed key) r
          → Ensures
              (IsServed key)
              (r >>= (λ u. ok (record u { accepted = u.accepted ++ ((l, t.next) ∷ []) })))
      go (ok u) k = record { paired = k.paired; serves = k.serves }
      go throw k = tt

  pub handle_received_frame-IsServed :
      (f : ReceivedTunnelFrame) (t : TunnelService)
      → IsValid key t
      → IsServed key t
      → Ensures (IsServed key) (handle_received_frame key f t)
  unfolding handle_received_frame get
  handle_received_frame-IsServed f t v h =
      go (lookup f.frame.destination_port_id t.ports.value_map) refl
    where
      at :
          (p : Port) (o : Option ℕ)
          → lookup f.frame.destination_port_id t.ports.value_map ≡ some p
          → lookup (key (identifier_of f)) p.frame_sender.value_map ≡ o
          → Ensures (IsServed key) (to_sender key f.frame.destination_port_id f p o t)
      at p (some s) e n = send_to-IsServed s f t h
      at p none e n = to_listener-IsServed f p p.listener t v h e n

      go :
          (o : Option Port)
          → lookup f.frame.destination_port_id t.ports.value_map ≡ o
          → Ensures (IsServed key) (to_port key f.frame.destination_port_id f o t)
      go none e = h
      go (some p) e = at p (lookup (key (identifier_of f)) p.frame_sender.value_map) e refl

  -- A frame for an open socket is given to its sender, and nothing else changes.
  pub handle_received_frame-open :
      (s : ℕ) (i : PortIdentifier) (f : ReceivedTunnelFrame) (t : TunnelService)
      → IsServed key t
      → lookup s t.sockets ≡ some (f.frame.destination_port_id, i)
      → mem s t.closed ≡ false
      → key i ≡ key (identifier_of f)
      → handle_received_frame key f t ≡ ok (record t { delivered = t.delivered ++ ((s, f) ∷ []) })
  unfolding handle_received_frame get send_to
  handle_received_frame-open s i f t h e c k =
      let (p, l, m) = h.serves s f.frame.destination_port_id i e c in
      let here : lookup (key (identifier_of f)) p.frame_sender.value_map ≡ some s =
        ap (λ n. lookup n p.frame_sender.value_map) (sym k) ∙ m in
      rw l (rw here (rw c refl))
