-- ===== src/Lib.antt =====
-- Verification of the TypeScript implementation (ts-core/src) of a network of heterogeneous links.
--
-- The program. Nodes exchange frames over serial lines, radio, WiFi and UDP. Above the links stand
-- neighbors, discovery and routing, then the tunnel (net/tunnel) between two ports, then trusted
-- sockets (net/trusted), which open and close a connection by handshakes and send data with
-- acknowledgements and retries, then streams and procedure calls. All frames are serialized by
-- serdeables (serde).
--
-- The files.
-- Base: Boolean tests, lists over native numbers, code that may throw (Throws), signed counters.
-- Deferred: deferred.ts. The promises are a store; a Deferred object is its index in the store.
-- Serde: serde/traits.ts (Traits, Serdeable), net/buffer.ts (Buffer), serde/primitives.ts
--   (Primitives) and the serdeables built from others (Combinators: tuple, object, bytes, array,
--   vector, optional, variant, transform, constant, empty). A reader or a writer is a state that is
--   passed along. Buffer/Writing and Buffer/Reading say what it means
--   to write and to read given bytes.
-- Trusted: net/trusted. Frame and Codec are frame.ts and sequenceNumber.ts, Checksum is
--   checksum.ts. Action, Syn, Data, Fin and State are the classes of socket/state.ts, one function
--   for each method: it takes the state and returns the next state with the actions that the method
--   returns, or throws. State is SocketState, whose methods call those of the parts and pass the
--   actions through `socket_action_hook`. Below Data and State stand the proofs on one socket.
--   Protocol puts two sockets at the ends of a tunnel, as a step relation: one of them sends, both
--   stay open, and frames in flight may be sent again.
--   Pseudo is the pseudo header, TrustedFrame.create and ReceivedTrustedFrame.
-- Node: net/node/nodeId.ts, clusterId.ts, cost.ts (Id, Cluster, Cost), source.ts and destination.ts
--   (Endpoint). Matching compares them, RoundTrip has their bytes.
-- Link: net/link/address, the addresses of links, and the node ids that are made from them.
-- Neighbor: net/neighbor. Table is NeighborTable of service/list.ts, Steps is what happens to it.
-- Tunnel: net/tunnel/frame.ts and port.ts (Frame), and service.ts (Service): its ports, listeners and
--   sockets. Below it stand the proofs on what a service holds (Ports, Closing, Reach), which sockets
--   its ports serve (Served, Hands, Removal, Arrival), and what happens to it (History).
-- Routing: net/routing. Frame and FrameIdCache are its files of these names; Socket is RoutingSocket,
--   over an interface of the discovery service and the neighbor socket. Delivery puts a tunnel frame
--   inside a routing frame, Events and Once go through frames that arrive and are sent.
-- Stream: net/stream/frame.ts and socket.ts (Frame, Socket), over an interface of the trusted socket.
--   Carry has a trusted socket whose replies are any list of replies; Accumulate, Carry, Delivery and
--   Entries are the proofs on the two ends of a stream over it.
-- Network: net/node/networkState.ts, what an observer knows of nodes and links. Node and State are
--   its classes, Search is `getUnreachableNodes`; a node object is what stands at its id in `nodes`.
-- Channel: channel.ts. The entries are a store, as the promises are. Session puts a sender and its
--   receivers together, with the values sent and received; Receivers has Map, Filter, FilterMap and
--   `forEach`.
-- Objects: object.ts, maps and sets of objects by their unique keys.
-- Discovery: net/discovery. Cache is CacheList of cache.ts, FrameId the cache of frameId.ts, Request
--   the entry of request.ts.
-- Examples: the theorems at concrete values.
--
-- Numbers. A counter, a number of a frame and a byte are natural numbers; what the 16-bit
-- serializers keep is written out (`wire`, `word_bytes`). The bit operations of JavaScript work on
-- 32 bits, which `shift_left`, `shift_right` and `to_number` write out. A counter that is compared
-- with `< 0` is a signed number. Node ids in Network and keys in Objects are numbers too: the maps of
-- the source look at the unique key of an object only. Some loops run on fuel: the search of Network,
-- for which two more rounds than there are links are enough, and `#updateHead` of Channel, for which
-- the number of the entries is; `FilterMap.next` and `forEach`, for which more than the number of the
-- values sent is; the loop of a stream that splits its data, for which more than the number of the
-- bytes is. The other loops of the source go through a list, and the one that draws random
-- ids goes through a list of draws. A deserializer whose constructor throws is the result `thrown`.
--
-- Not modelled: timers and the event loop, which are the order of the steps here, a protocol run in
-- which both sockets send data, or in which one is closed and opened again, two calls of `next`
-- on one receiver at the same time, that updates share objects with a network state, the services
-- that run trusted sockets, the neighbor service and its socket, the discovery service,
-- observers, the applications, the emulator, the virtual router, the servers, the firmware (arduino)
-- and py-core.
pub mod Base
pub mod Deferred
pub mod Channel
pub mod Objects
pub mod Serde
pub mod Node
pub mod Link
pub mod Tunnel
pub mod Neighbor
pub mod Stream
pub mod Routing
pub mod Trusted
pub mod Discovery
pub mod Network
pub mod Examples
