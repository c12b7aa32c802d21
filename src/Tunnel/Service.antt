-- ===== src/Tunnel/Service.antt =====
-- ts-core/src/net/tunnel/service.ts: PortIdentifier, Port and TunnelService. The senders of the sockets
-- and the callbacks of listeners are numbers in the order they are made in; what a sender was given
-- is a list. A port that is not in the map any more has no sender and no listener.
use heterogeneous_network.Base.{
  ℕ, suc, Bool, true, false, List, [], ◌∷◌, ◌++◌, Option, none, some, Throws, throw, ok, ◌==◌, ◌&&◌,
  ◌>>=◌, if◌then◌else◌,
}
use heterogeneous_network.Base.Dict.{lookup, insert, mem}
use heterogeneous_network.Objects.{ObjectMap, new_map, get, has, set, delete_key, size}
use heterogeneous_network.Node.Endpoint.{Destination, into_destination}
use heterogeneous_network.Tunnel.Frame.{ReceivedTunnelFrame}

pub record PortIdentifier : Type 0 where
  pub destination : Destination
  pub destination_port_id : ℕ

-- The identifier that `handleReceivedFrame` makes of a frame.
abbrev pub identifier_of : ReceivedTunnelFrame → PortIdentifier
identifier_of f = record {
  destination = into_destination f.source;
  destination_port_id = f.frame.source_port_id;
}

pub record Port : Type 0 where
  pub frame_sender : ObjectMap PortIdentifier ℕ
  pub listener : Option ℕ

abbrev pub new_port : Port
new_port = record { frame_sender = new_map; listener = none }

pub record TunnelService : Type 0 where
  pub ports : ObjectMap ℕ Port
  -- The next number of a sender or of a callback.
  pub next : ℕ
  -- The local port and the identifier that each sender was made for.
  pub sockets : List (ℕ × (ℕ × PortIdentifier))
  pub closed : List ℕ
  pub delivered : List (ℕ × ReceivedTunnelFrame)
  -- The callbacks of listeners that were called, with the sender of the socket.
  pub accepted : List (ℕ × ℕ)

abbrev pub new_service : TunnelService
new_service = record {
  ports = new_map;
  next = 0;
  sockets = [];
  closed = [];
  delivered = [];
  accepted = [];
}

-- The unique key of a port id.
abbrev pub port_key : ℕ → ℕ
port_key id = id

abbrev pub put : ℕ → Port → TunnelService → TunnelService
put id p t = record t { ports = set port_key id p t.ports }

-- `sender.send(frame)`, which throws where the channel is closed.
unfoldable pub send_to : ℕ → ReceivedTunnelFrame → TunnelService → Throws TunnelService
send_to s f t =
    if mem s t.closed then throw else ok (record t { delivered = t.delivered ++ ((s, f) ∷ []) })

-- `new Sender()`, for a socket between the local port and the identifier.
abbrev pub new_sender : ℕ → PortIdentifier → TunnelService → TunnelService
new_sender id i t = record t { next = suc t.next; sockets = insert t.next (id, i) t.sockets }

-- `Port.listen`
abbrev pub listen_port : ℕ → Port → Option ℕ → TunnelService → Bool × TunnelService
listen_port id p (some l) t = (false, t)
listen_port id p none t =
    (true, record (put id (record p { listener = some t.next }) t) { next = suc t.next })

abbrev pub listen_at : ℕ → Option Port → TunnelService → Bool × TunnelService
listen_at id none t =
    (true, record (put id (record new_port { listener = some t.next }) t) { next = suc t.next })
listen_at id (some p) t = listen_port id p p.listener t

-- `listen`: whether it returned `Ok`; the callback is the next number.
unfoldable pub listen : ℕ → TunnelService → Bool × TunnelService
unfolding get set
listen id t = listen_at id (get port_key id t.ports) t

abbrev pub is_listener : ℕ → Option ℕ → Bool
is_listener l none = false
is_listener l (some k) = k == l

abbrev pub cancel_at : ℕ → ℕ → Option Port → TunnelService → TunnelService
cancel_at id l none t = t
cancel_at id l (some p) t =
    if is_listener l p.listener then put id (record p { listener = none }) t else t

-- The function that `listen` returned for the callback.
unfoldable pub cancel : ℕ → ℕ → TunnelService → TunnelService
unfolding get set
cancel id l t = cancel_at id l (get port_key id t.ports) t

abbrev pub is_none : Option ℕ → Bool
is_none none = true
is_none (some l) = false

abbrev pub after_close : ℕ → Port → TunnelService → TunnelService
after_close id p t =
    if (size p.frame_sender == 0) && is_none p.listener
    then record t { ports = (delete_key port_key id t.ports).0 }
    else put id p t

module _ (key : PortIdentifier → ℕ) where
  -- `Port.#open`, with the sender: none where it is opened already.
  unfoldable pub open_sender : PortIdentifier → ℕ → Port → Option Port
  unfolding has set
  open_sender i s p =
      if has key i p.frame_sender
      then none
      else some (record p { frame_sender = set key i s p.frame_sender })

  abbrev pub opened : ℕ → Option Port → TunnelService → Bool × TunnelService
  opened id none t = (false, t)
  opened id (some p) t = (true, put id p t)

  -- `open`: whether it returned `Ok`, and the service.
  unfoldable pub open_port : ℕ → PortIdentifier → TunnelService → Bool × TunnelService
  unfolding has set open_sender
  open_port id i t =
      if has port_key id t.ports
      then (false, t)
      else opened id (open_sender i t.next new_port) (new_sender id i (put id new_port t))

  -- `openDynamicPort`, for the random ports that are drawn; none where they run out.
  unfoldable pub open_dynamic_port :
      List ℕ → PortIdentifier → TunnelService → Option (Bool × TunnelService)
  unfolding has open_port
  open_dynamic_port [] i t = none
  open_dynamic_port (id ∷ draws) i t =
      let rest = open_dynamic_port draws i t in
      if has port_key id t.ports then rest else some (open_port id i t)

  -- What is left of a port whose sender was closed: none where it is empty.
  abbrev pub kept_port : PortIdentifier → ℕ → Port → Port
  kept_port i s p =
      if is_listener s (get key i p.frame_sender)
      then record p { frame_sender = (delete_key key i p.frame_sender).0 }
      else p

  abbrev pub on_close_at : ℕ → PortIdentifier → ℕ → Option Port → TunnelService → TunnelService
  on_close_at id i s none t = t
  on_close_at id i s (some p) t = after_close id (kept_port i s p) t

  abbrev pub close_of : ℕ → Option (ℕ × PortIdentifier) → TunnelService → TunnelService
  close_of s none t = t
  close_of s (some (id, i)) t =
      if mem s t.closed
      then t
      else let t' = record t { closed = s ∷ t.closed } in
        on_close_at id i s (get port_key id t'.ports) t'

  -- The socket of the sender is closed, and `Port.#onClose` called, the first time.
  unfoldable pub close : ℕ → TunnelService → TunnelService
  unfolding get delete_key set size
  close s t = close_of s (lookup s t.sockets) t

  -- `unwrap` of the result of `#open`, then the frame and the call of the listener.
  abbrev pub accept :
      ℕ → ReceivedTunnelFrame → Option Port → ℕ → TunnelService → Throws TunnelService
  accept id f none l t = throw
  accept id f (some p) l t =
      send_to t.next f (new_sender id (identifier_of f) (put id p t))
      >>= (λ u. ok (record u { accepted = u.accepted ++ ((l, t.next) ∷ []) }))

  abbrev pub to_listener :
      ℕ → ReceivedTunnelFrame → Port → Option ℕ → TunnelService → Throws TunnelService
  to_listener id f p none t = ok t
  to_listener id f p (some l) t = accept id f (open_sender (identifier_of f) t.next p) l t

  abbrev pub to_sender :
      ℕ → ReceivedTunnelFrame → Port → Option ℕ → TunnelService → Throws TunnelService
  to_sender id f p (some s) t = send_to s f t
  to_sender id f p none t = to_listener id f p p.listener t

  abbrev pub to_port : ℕ → ReceivedTunnelFrame → Option Port → TunnelService → Throws TunnelService
  to_port id f none t = ok t
  to_port id f (some p) t = to_sender id f p (get key (identifier_of f) p.frame_sender) t

  -- What the constructor listens for: a routing frame whose payload was read as a tunnel frame, and
  -- `Port.handleReceivedFrame`.
  unfoldable pub handle_received_frame : ReceivedTunnelFrame → TunnelService → Throws TunnelService
  unfolding get send_to open_sender
  handle_received_frame f t =
      to_port f.frame.destination_port_id f (get port_key f.frame.destination_port_id t.ports) t
