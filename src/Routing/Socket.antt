-- ===== src/Routing/Socket.antt =====
-- ts-core/src/net/routing/socket.ts: RoutingSocket. The discovery service and the neighbor socket
-- below are an interface; the source of the local node is what the local node service gives.
use heterogeneous_network.Base.{
  ℕ, ◌+◌, Bool, true, false, List, [], ◌||◌, Option, none, some, Throws, throw, ltb, if◌then◌else◌,
  length,
}
use heterogeneous_network.Base.{ok as returned, ◌>>=◌ as bind}
use heterogeneous_network.Serde.Traits.{DeserializeResult, ok, err, thrown}
use heterogeneous_network.Serde.Buffer.{buffer_writer, Serialized, serialize, bytes, error}
use heterogeneous_network.Node.Id.{NodeId}
use heterogeneous_network.Node.Id as Ids
use heterogeneous_network.Node.Endpoint.{Source, Destination, matches, is_unicast, is_broadcast}
use heterogeneous_network.Routing.Frame.{
  RoutingFrame, ReceivedRoutingFrame, routing_frame_serdeable, deserialize_from_neighbor_frame,
}
use heterogeneous_network.Routing.FrameIdCache.{
  AsymmetricalFrameIdCache, generate, insert_and_check_contains_as_received, contains_as_sent,
}

-- What the routing socket calls: `resolveGatewayNode` of the discovery service, and `send`,
-- `sendBroadcast` and `maxPayloadLength` of the neighbor socket. An error of `send` is a number.
pub record Below (S : Type 0) : Type 0 where
  pub resolve_gateway_node : Destination → S → Option NodeId × S
  pub send : NodeId → List ℕ → S → Option ℕ × S
  -- The data, the node to leave out, and whether the loopback node is included.
  pub send_broadcast : List ℕ → Option NodeId → Bool → S → S
  pub max_payload_length : S → ℕ

-- `Result<void, RoutingSendError | undefined>`
pub data RoutingResult : Type 0 where
  sent unreachable : RoutingResult
  neighbor_error : ℕ → RoutingResult

abbrev result_of : Option ℕ → RoutingResult
result_of none = sent
result_of (some e) = neighbor_error e

-- `LocalNodeService.isLocalNodeLikeId`
unfoldable pub is_local_node_like_id : Source → NodeId → Bool
unfolding Ids.is_loopback Ids.equals
is_local_node_like_id local id = Ids.is_loopback id || Ids.equals local.node_id id

module _ {S : Type 0} (b : Below S) (include_loopback : Bool) where
  abbrev to_gateway : List ℕ → Option NodeId × S → RoutingResult × S
  to_gateway payload (none, s) = (unreachable, s)
  to_gateway payload (some gateway, s) = let r = b.send gateway payload s in (result_of r.0, r.1)

  abbrev unicast : Destination → List ℕ → S → RoutingResult × S
  unicast destination payload s = to_gateway payload (b.resolve_gateway_node destination s)

  abbrev broadcast : List ℕ → Option NodeId → S → RoutingResult × S
  broadcast payload previous_hop s =
      (sent, b.send_broadcast payload previous_hop include_loopback s)

  -- `#sendFrame`
  unfoldable pub send_frame : Source → Destination → List ℕ → Option NodeId → S → RoutingResult × S
  unfolding is_unicast is_broadcast matches is_local_node_like_id
  send_frame local destination payload previous_hop s =
      if is_unicast destination
      then unicast destination payload s
      else if is_broadcast destination
      then broadcast payload previous_hop s
      else if matches local destination || is_local_node_like_id local destination.node_id
      then broadcast payload previous_hop s
      else unicast destination payload s

  -- What a frame does: whether `onFrameComming` is emitted, the frame that `onReceive` is called
  -- with, and the caches and the services below after it.
  pub record Handled : Type 0 where
    pub coming : Bool
    pub delivered : Option RoutingFrame
    pub cache : AsymmetricalFrameIdCache
    pub below : S

  abbrev relay : Source → ReceivedRoutingFrame → List ℕ → AsymmetricalFrameIdCache → S → S
  relay local f payload cache s =
      if contains_as_sent f.frame.frame_id cache
      then s
      else (send_frame local f.frame.destination payload (some f.previous_hop) s).1

  abbrev pub first_time :
      Source → ReceivedRoutingFrame → List ℕ → Bool × AsymmetricalFrameIdCache → S → Handled
  first_time local f payload (true, cache) s = record {
    coming = false;
    delivered = none;
    cache = cache;
    below = s;
  }
  first_time local f payload (false, cache) s = record {
    coming = true;
    delivered =
        if matches local f.frame.destination || Ids.is_loopback f.frame.destination.node_id
        then some f.frame
        else none;
    cache = cache;
    below = relay local f payload cache s;
  }

  abbrev pub handle_frame :
      Source
      → List ℕ
      → DeserializeResult ReceivedRoutingFrame
      → AsymmetricalFrameIdCache
      → S
      → Throws Handled
  handle_frame local payload (ok f) cache s =
      returned (
        first_time local f payload (insert_and_check_contains_as_received f.frame.frame_id cache) s)
  handle_frame local payload (err e) cache s =
      returned (record { coming = false; delivered = none; cache = cache; below = s })
  handle_frame local payload thrown cache s = throw

  -- `#handleReceivedFrame`, for a neighbor frame with this sender and this payload.
  unfoldable pub handle_received_frame :
      Source → NodeId → List ℕ → AsymmetricalFrameIdCache → S → Throws Handled
  unfolding deserialize_from_neighbor_frame insert_and_check_contains_as_received contains_as_sent
      send_frame matches Ids.is_loopback
  handle_received_frame local sender payload cache s =
      handle_frame local payload (deserialize_from_neighbor_frame buffer_writer sender payload)
        cache s

-- `Result.expect`
abbrev expect : Serialized → Throws (List ℕ)
expect (bytes b) = b
expect error = throw

abbrev pub frame_of : Source → Destination → ℕ → List ℕ → RoutingFrame
frame_of local destination id payload = record {
  source = local;
  destination = destination;
  frame_id = id;
  payload = payload;
}

-- The bytes of a frame.
unfoldable pub serialize_frame : RoutingFrame → Throws (List ℕ)
unfolding routing_frame_serdeable
serialize_frame f =
    bind ((routing_frame_serdeable buffer_writer).serializer f) (λ z. expect (serialize z))

-- `RoutingFrame.headerLength`
unfoldable pub header_length : Source → Destination → Throws ℕ
unfolding routing_frame_serdeable
header_length local destination =
    bind ((routing_frame_serdeable buffer_writer).serializer (frame_of local destination 0 []))
      (λ z. returned z.serialized_length)

-- What `send` leaves: the result, which is an exception where it throws, and the caches and the
-- services below.
pub record Sent (S : Type 0) : Type 0 where
  pub result : Throws RoutingResult
  pub cache : AsymmetricalFrameIdCache
  pub below : S

module _ {S : Type 0} (b : Below S) (include_loopback : Bool) where
  abbrev pub send_serialized :
      Source → Destination → Option NodeId → Throws (List ℕ) → AsymmetricalFrameIdCache → S → Sent S
  send_serialized local destination ignore throw cache s = record {
    result = throw;
    cache = cache;
    below = s;
  }
  send_serialized local destination ignore (returned data_of) cache s =
      let r = send_frame b include_loopback local destination data_of ignore s in
      record { result = returned r.0; cache = cache; below = r.1 }

  abbrev pub send_generated :
      Source
      → Destination
      → List ℕ
      → Option NodeId
      → Option (ℕ × AsymmetricalFrameIdCache)
      → S
      → Option (Sent S)
  send_generated local destination payload ignore none s = none
  send_generated local destination payload ignore (some (id, cache)) s = some (
      send_serialized local destination ignore
        (serialize_frame (frame_of local destination id payload)) cache s)

  abbrev pub send_checked :
      Throws ℕ
      → Source
      → Destination
      → List ℕ
      → Option NodeId
      → List ℕ
      → AsymmetricalFrameIdCache
      → S
      → Option (Sent S)
  send_checked throw local destination payload ignore draws cache s =
      some (record { result = throw; cache = cache; below = s })
  send_checked (returned header) local destination payload ignore draws cache s =
      if ltb (b.max_payload_length s) (length payload + header)
      then some (record { result = throw; cache = cache; below = s })
      else send_generated local destination payload ignore (generate include_loopback draws cache) s

  -- `send`, which throws where the payload is too large; none where the draws run out, and the loop
  -- that draws ids has not ended.
  unfoldable pub send :
      Source
      → Destination
      → List ℕ
      → Option NodeId
      → List ℕ
      → AsymmetricalFrameIdCache
      → S
      → Option (Sent S)
  unfolding header_length generate serialize_frame send_frame
  send local destination payload ignore draws cache s =
      send_checked (header_length local destination) local destination payload ignore draws cache s
