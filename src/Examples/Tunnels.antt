-- ===== src/Examples/Tunnels.antt =====
-- The theorems on tunnel services at concrete events.
use heterogeneous_network.Base.{ℕ, ◌≡◌, refl, false, some, none, List, [], ◌∷◌, ok, ◌+◌, ◌*◌}
use heterogeneous_network.Base.Dict.{lookup, insert, mem}
use heterogeneous_network.Node.Endpoint.{into_destination}
use heterogeneous_network.Tunnel.Frame.{ReceivedTunnelFrame}
use heterogeneous_network.Tunnel.Service.{
  PortIdentifier, TunnelService, new_service, new_port, put, new_sender, handle_received_frame,
}
use heterogeneous_network.Objects.{set, new_map}
use heterogeneous_network.Tunnel.Reach.{Succeeds}
use heterogeneous_network.Tunnel.History.{
  Event, opens, listens, cancels, closes, arrives, happen_all, tunnel_service-Succeeds,
  open_socket-receives,
}
use heterogeneous_network.Examples.Ends.{serial_source, ip_destination}

-- A key: the type of the node id, and the port.
abbrev port_identifier_key : PortIdentifier → ℕ
port_identifier_key i = 65536 * i.destination.node_id.type + i.destination_port_id

abbrev from_port_1 : PortIdentifier
from_port_1 = record { destination = into_destination serial_source; destination_port_id = 1 }

abbrev greeting : ReceivedTunnelFrame
greeting = record {
  source = serial_source;
  destination = ip_destination;
  frame = record { source_port_id = 1; destination_port_id = 80; payload = 104 ∷ 105 ∷ [] };
}

-- Port 80 is listened on, two frames arrive, the listener is cancelled, and the socket that the first
-- frame made is closed; then the port is opened.
abbrev visits : List Event
visits =
    listens 80
    ∷ arrives greeting
    ∷ arrives greeting
    ∷ cancels 80 0
    ∷ closes 1
    ∷ opens 80 from_port_1
    ∷ []

tunnel_service-Succeeds_example :
    Succeeds port_identifier_key (happen_all port_identifier_key visits new_service)
tunnel_service-Succeeds_example = tunnel_service-Succeeds port_identifier_key visits

-- The service whose port 80 was opened towards port 1 of the source.
abbrev with_port_80 : TunnelService
with_port_80 =
    put 80
      (record { frame_sender = set port_identifier_key from_port_1 0 new_map; listener = none })
      (new_sender 80 from_port_1 (put 80 new_port new_service))

with_port_80-made :
    happen_all port_identifier_key (opens 80 from_port_1 ∷ []) new_service ≡ ok with_port_80
unfolding happen_all
with_port_80-made = refl

socket_0-of_port_80 : lookup 0 with_port_80.sockets ≡ some (80, from_port_1)
unfolding lookup insert
socket_0-of_port_80 = refl

socket_0-open : mem 0 with_port_80.closed ≡ false
unfolding mem
socket_0-open = refl

open_socket-receives_example :
    handle_received_frame port_identifier_key greeting with_port_80
    ≡ ok (record with_port_80 { delivered = (0, greeting) ∷ [] })
open_socket-receives_example =
    open_socket-receives port_identifier_key (opens 80 from_port_1 ∷ []) with_port_80 0 from_port_1
      greeting with_port_80-made socket_0-of_port_80 socket_0-open refl
