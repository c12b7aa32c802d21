-- ===== src/Tunnel/History.antt =====
-- What happens to a tunnel service, from its construction on.
use heterogeneous_network.Base.{
  ℕ, ◌≡◌, refl, Bool, false, List, [], ◌∷◌, Option, none, some, Throws, ok, ◌>>=◌, if_keeps,
  Ensures, ◌++◌,
}
use mathlib.Core.Path.{subst}
use heterogeneous_network.Base.Dict.{lookup, mem}
use heterogeneous_network.Objects.{has}
use heterogeneous_network.Objects.Paired.{new_map-IsPaired}
use heterogeneous_network.Tunnel.Frame.{ReceivedTunnelFrame}
use heterogeneous_network.Tunnel.Service.{
  PortIdentifier, TunnelService, new_service, port_key, open_port, open_dynamic_port, listen,
  cancel, close, handle_received_frame, identifier_of,
}
use heterogeneous_network.Tunnel.Ports.{IsValid}
use heterogeneous_network.Tunnel.Closing.{close-IsValid}
use heterogeneous_network.Tunnel.Served.{IsServed}
use heterogeneous_network.Tunnel.Hands.{open_port-IsServed, listen-IsServed, cancel-IsServed}
use heterogeneous_network.Tunnel.Removal.{close-IsServed}
use heterogeneous_network.Tunnel.Arrival.{
  handle_received_frame-IsServed, handle_received_frame-open,
}
use heterogeneous_network.Tunnel.Reach.{
  Succeeds, open_port-IsValid, listen-IsValid, cancel-IsValid, handle_received_frame-Succeeds,
}

-- A call, the end of a socket, or a frame that arrives.
pub data Event : Type 0 where
  opens : ℕ → PortIdentifier → Event
  opens_dynamic : List ℕ → PortIdentifier → Event
  listens : ℕ → Event
  cancels : ℕ → ℕ → Event
  closes : ℕ → Event
  arrives : ReceivedTunnelFrame → Event

-- The service after `openDynamicPort`; it still draws where the draws run out.
abbrev after_draws : TunnelService → Option (Bool × TunnelService) → TunnelService
after_draws t none = t
after_draws t (some r) = r.1

module _ (key : PortIdentifier → ℕ) where
  unfoldable pub happen : Event → TunnelService → Throws TunnelService
  unfolding open_port open_dynamic_port listen cancel close handle_received_frame
  happen (opens id i) t = ok (open_port key id i t).1
  happen (opens_dynamic draws i) t = ok (after_draws t (open_dynamic_port key draws i t))
  happen (listens id) t = ok (listen id t).1
  happen (cancels id l) t = ok (cancel id l t)
  happen (closes s) t = ok (close key s t)
  happen (arrives f) t = handle_received_frame key f t

  unfoldable pub happen_all : List Event → TunnelService → Throws TunnelService
  unfolding happen
  happen_all [] t = ok t
  happen_all (e ∷ es) t = happen e t >>= happen_all es

  -- What holds of every service: it is valid, and its open sockets stand in their ports.
  abbrev IsReached : TunnelService → Type 0
  IsReached t = IsValid key t × IsServed key t

  new_service-IsReached : IsReached new_service
  unfolding lookup mem
  new_service-IsReached = (
    record { ports = λ id p e. cc; made = λ s x e. cc; shut = λ s e. cc; delivered = tt },
    record { paired = new_map-IsPaired port_key; serves = λ s id i e c. cc },
  )

  open_dynamic_port-IsReached :
      (draws : List ℕ) (i : PortIdentifier) (t : TunnelService)
      → IsReached t
      → IsReached (after_draws t (open_dynamic_port key draws i t))
  unfolding open_dynamic_port
  open_dynamic_port-IsReached [] i t h = h
  open_dynamic_port-IsReached (id ∷ draws) i t h =
      if_keeps (λ r. IsReached (after_draws t r)) (has port_key id t.ports) _ _
        (λ b. open_dynamic_port-IsReached draws i t h)
        (λ b. (open_port-IsValid key id i t h.0, open_port-IsServed key id i t h.0 h.1))

  abbrev Reaches : Throws TunnelService → Type 0
  Reaches r = (u : TunnelService) × (r ≡ ok u) × IsReached u

  arrival-Reaches :
      (r : Throws TunnelService) → Succeeds key r → Ensures (IsServed key) r → Reaches r
  arrival-Reaches r (u, e, v) h = (u, e, (v, subst (Ensures (IsServed key)) e h))

  happen-Reaches : (e : Event) (t : TunnelService) → IsReached t → Reaches (happen e t)
  unfolding happen
  happen-Reaches (opens id i) t h =
      (_, refl, (open_port-IsValid key id i t h.0, open_port-IsServed key id i t h.0 h.1))
  happen-Reaches (opens_dynamic draws i) t h = (_, refl, open_dynamic_port-IsReached draws i t h)
  happen-Reaches (listens id) t h =
      (_, refl, (listen-IsValid key id t h.0, listen-IsServed key id t h.1))
  happen-Reaches (cancels id l) t h =
      (_, refl, (cancel-IsValid key id l t h.0, cancel-IsServed key id l t h.1))
  happen-Reaches (closes s) t h =
      (_, refl, (close-IsValid key s t h.0, close-IsServed key s t h.0 h.1))
  happen-Reaches (arrives f) t h =
      arrival-Reaches (handle_received_frame key f t) (handle_received_frame-Succeeds key f t h.0)
        (handle_received_frame-IsServed key f t h.0 h.1)

  run-Reaches : (es : List Event) (t : TunnelService) → IsReached t → Reaches (happen_all es t)
  unfolding happen_all
  run-Reaches [] t h = (t, refl, h)
  run-Reaches (e ∷ es) t h = let (u, r, v) = happen-Reaches e t h in rw r (run-Reaches es u v)

  -- A tunnel service never throws, whatever is opened, listened for, cancelled and closed and whatever
  -- arrives, in any order: not when a frame opens a socket for a listener, and not when it is given
  -- to a sender. Then each port has the same keys in its two maps, and senders that are not closed
  -- and were made for this port and for an identifier of their key; and every frame that a sender
  -- was given came to the port and from the source that the sender was made for.
  pub tunnel_service-Succeeds : (es : List Event) → Succeeds key (happen_all es new_service)
  tunnel_service-Succeeds es =
      let (u, r, h) = run-Reaches es new_service new_service-IsReached in (u, r, h.0)

  -- After any events, a frame that comes to the port and from the source of a socket that is not
  -- closed is given to the sender of this socket, and changes nothing else.
  pub open_socket-receives :
      (es : List Event) (t : TunnelService) (s : ℕ) (i : PortIdentifier) (f : ReceivedTunnelFrame)
      → happen_all es new_service ≡ ok t
      → lookup s t.sockets ≡ some (f.frame.destination_port_id, i)
      → mem s t.closed ≡ false
      → key i ≡ key (identifier_of f)
      → handle_received_frame key f t ≡ ok (record t { delivered = t.delivered ++ ((s, f) ∷ []) })
  open_socket-receives es t s i f r e c k =
      let (u, q, h) = run-Reaches es new_service new_service-IsReached in
      let same : u ≡ t = cc (q, r) in
      handle_received_frame-open key s i f t (subst (IsServed key) same h.1) e c k
