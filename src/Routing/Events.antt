-- ===== src/Routing/Events.antt =====
-- What arrives at a routing socket and is sent by it, and the ids of frames that it keeps meanwhile.
use heterogeneous_network.Base.{
  ℕ, suc, ◌+◌, ◌≡◌, refl, sym, Bool, true, false, List, [], ◌∷◌, Option, none, some, Throws, throw,
  arith, length, if_keeps, ltb,
}
use heterogeneous_network.Base.{ok as returned}
use mathlib.Core.Path.{subst}
use heterogeneous_network.Serde.Traits.{DeserializeResult, ok, err, thrown}
use heterogeneous_network.Serde.Buffer.{buffer_writer}
use heterogeneous_network.Node.Id.{NodeId}
use heterogeneous_network.Node.Endpoint.{Source, Destination}
use heterogeneous_network.Routing.Frame.{ReceivedRoutingFrame, deserialize_from_neighbor_frame}
use heterogeneous_network.Routing.FrameIdCache.{
  AsymmetricalFrameIdCache, draw, generate, generated, insert_and_check_contains_as_received,
}
use heterogeneous_network.Routing.Socket.{
  Below, Handled, Sent, first_time, handle_frame, handle_received_frame, send, send_checked,
  send_generated, send_serialized, header_length, serialize_frame, frame_of,
}
use heterogeneous_network.Discovery.FrameId.{
  FrameIdCache, contains, insert, insert_and_check_contains,
}
use heterogeneous_network.Discovery.Stays.{Stays, Stays-fewer, insert-Stays}

-- A neighbor frame that arrives, and a call of `send`.
pub data Event : Type 0 where
  arrives : Source → NodeId → List ℕ → Event
  sends : Source → Destination → List ℕ → Option NodeId → List ℕ → Event

module _ {S : Type 0} (b : Below S) (include_loopback : Bool) where
  -- The caches and the services after a frame; where its handler throws, they are what they were.
  abbrev pub after_arrival :
      AsymmetricalFrameIdCache × S
      → Throws (Handled b include_loopback)
      → AsymmetricalFrameIdCache × S
  after_arrival x (returned h) = (h.cache, h.below)
  after_arrival x throw = x

  abbrev pub after_call : Option (Sent S) → Option (AsymmetricalFrameIdCache × S)
  after_call none = none
  after_call (some r) = some (r.cache, r.below)

  -- An event, none where the loop of a `send` has not ended with its draws. An exception ends the
  -- event, and the next one finds what it left.
  unfoldable pub happen :
      Event → AsymmetricalFrameIdCache × S → Option (AsymmetricalFrameIdCache × S)
  unfolding handle_received_frame send
  happen (arrives local sender payload) (cache, s) = some (
      after_arrival (cache, s)
        (handle_received_frame b include_loopback local sender payload cache s))
  happen (sends local destination payload ignore draws) (cache, s) =
      after_call (send b include_loopback local destination payload ignore draws cache s)

  abbrev and_then :
      Option (AsymmetricalFrameIdCache × S)
      → (AsymmetricalFrameIdCache × S → Option (AsymmetricalFrameIdCache × S))
      → Option (AsymmetricalFrameIdCache × S)
  and_then none f = none
  and_then (some x) f = f x

  unfoldable pub happen_all :
      List Event → AsymmetricalFrameIdCache × S → Option (AsymmetricalFrameIdCache × S)
  unfolding happen
  happen_all [] x = some x
  happen_all (e ∷ es) x = and_then (happen e x) (happen_all es)

  -- What holds of the cache of received ids after the event.
  abbrev Leaves : (FrameIdCache → Type 0) → Option (AsymmetricalFrameIdCache × S) → Type 0
  Leaves P (some (c, s)) = P c.receive
  Leaves P none = Unit {0}

  checked-Leaves :
      (P : FrameIdCache → Type 0) (local : Source) (f : ReceivedRoutingFrame) (payload : List ℕ)
      (c : AsymmetricalFrameIdCache) (s : S)
      → P (insert f.frame.frame_id c.receive)
      → Leaves P
          (some (after_arrival (c, s) (handle_frame b include_loopback local payload (ok f) c s)))
  unfolding insert_and_check_contains_as_received insert_and_check_contains
  checked-Leaves P local f payload c s h = go (contains f.frame.frame_id c.receive)
    where
      go :
          (q : Bool)
          → Leaves P (
              some (
                after_arrival
                  (c, s)
                  (returned (
                    first_time b include_loopback local f payload
                      (q, record c { receive = insert f.frame.frame_id c.receive })
                      s))))
      go true = h
      go false = h

  arrival-Leaves :
      (P : FrameIdCache → Type 0) (local : Source) (payload : List ℕ)
      (r : DeserializeResult ReceivedRoutingFrame) (c : AsymmetricalFrameIdCache) (s : S)
      → P c.receive
      → ((id : ℕ) → P (insert id c.receive))
      → Leaves P (some (after_arrival (c, s) (handle_frame b include_loopback local payload r c s)))
  arrival-Leaves P local payload (ok f) c s h k = checked-Leaves P local f payload c s (k _)
  arrival-Leaves P local payload (err e) c s h k = h
  arrival-Leaves P local payload thrown c s h k = h

  -- What holds of the cache of received ids, if there is an id left to draw.
  abbrev Drawn : (FrameIdCache → Type 0) → Option (ℕ × AsymmetricalFrameIdCache) → Type 0
  Drawn P none = Unit {0}
  Drawn P (some (id, c)) = P c.receive

  draw-Drawn :
      (P : FrameIdCache → Type 0) (draws : List ℕ) (c : AsymmetricalFrameIdCache)
      → P c.receive
      → Drawn P (draw draws c)
  unfolding draw
  draw-Drawn P [] c h = tt
  draw-Drawn P (id ∷ draws) c h =
      if_keeps (Drawn P) (contains id c.send) _ _ (λ q. draw-Drawn P draws c h)
        (λ q.
          if_keeps (Drawn P) (contains id c.receive) _ _
            (λ q. draw-Drawn P draws (record c { send = insert id c.send }) h) (λ q. h))

  generated-Drawn :
      (P : FrameIdCache → Type 0) (loopbackable : Bool) (o : Option (ℕ × AsymmetricalFrameIdCache))
      (r : FrameIdCache)
      → Drawn (λ c. c ≡ r) o
      → P r
      → ((id : ℕ) → P (insert id r))
      → Drawn P (generated loopbackable o)
  generated-Drawn P loopbackable none r e h k = tt
  generated-Drawn P true (some (id, c)) r e h k = subst P (sym e) h
  generated-Drawn P false (some (id, c)) r e h k = subst (λ x. P (insert id x)) (sym e) (k id)

  generate-Drawn :
      (P : FrameIdCache → Type 0) (draws : List ℕ) (c : AsymmetricalFrameIdCache)
      → P c.receive
      → ((id : ℕ) → P (insert id c.receive))
      → Drawn P (generate include_loopback draws c)
  unfolding generate
  generate-Drawn P draws c h k =
      generated-Drawn P include_loopback (draw draws c) c.receive
        (draw-Drawn (λ x. x ≡ c.receive) draws c refl) h k

  call-Leaves :
      (P : FrameIdCache → Type 0) (local : Source) (destination : Destination) (payload : List ℕ)
      (ignore : Option NodeId) (g : Option (ℕ × AsymmetricalFrameIdCache)) (s : S)
      → Drawn P g
      → Leaves P
          (after_call (send_generated b include_loopback local destination payload ignore g s))
  call-Leaves P local destination payload ignore none s h = tt
  call-Leaves P local destination payload ignore (some (id, c)) s h =
      go (serialize_frame (frame_of local destination id payload))
    where
      go :
          (r : Throws (List ℕ))
          → Leaves P (
              after_call (some (send_serialized b include_loopback local destination ignore r c s)))
      go (returned data_of) = h
      go throw = h

  send-Leaves :
      (P : FrameIdCache → Type 0) (local : Source) (destination : Destination) (payload : List ℕ)
      (ignore : Option NodeId) (draws : List ℕ) (header : Throws ℕ) (c : AsymmetricalFrameIdCache)
      (s : S)
      → P c.receive
      → ((id : ℕ) → P (insert id c.receive))
      → Leaves P (
          after_call
            (send_checked b include_loopback header local destination payload ignore draws c s))
  send-Leaves P local destination payload ignore draws throw c s h k = h
  send-Leaves P local destination payload ignore draws (returned header) c s h k =
      if_keeps (λ r. Leaves P (after_call r))
        (ltb (b.max_payload_length s) (length payload + header)) _ _ (λ q. h)
        (λ q.
          call-Leaves P local destination payload ignore (generate include_loopback draws c) s
            (generate-Drawn P draws c h k))

  happen-Leaves :
      (P : FrameIdCache → Type 0) (e : Event) (c : AsymmetricalFrameIdCache) (s : S)
      → P c.receive
      → ((id : ℕ) → P (insert id c.receive))
      → Leaves P (happen e (c, s))
  unfolding happen handle_received_frame send
  happen-Leaves P (arrives local sender payload) c s h k =
      arrival-Leaves P local payload (deserialize_from_neighbor_frame buffer_writer sender payload)
        c s h k
  happen-Leaves P (sends local destination payload ignore draws) c s h k =
      send-Leaves P local destination payload ignore draws (header_length local destination) c s h k

  pub happen_all-Stays :
      (es : List Event) (id : ℕ) (c c' : AsymmetricalFrameIdCache) (s s' : S)
      → Stays (length es) id c.receive
      → happen_all es (c, s) ≡ some (c', s')
      → Stays 0 id c'.receive
  unfolding happen_all
  happen_all-Stays [] id c c' s s' h e = let same : c ≡ c' = cc e in rw (sym same) h
  happen_all-Stays (ev ∷ es) id c c' s s' h e =
      go (happen ev (c, s))
        (happen-Leaves (Stays (length es) id) ev c s
          (Stays-fewer (length es) (suc (length es)) id c.receive (omega arith) h)
          (λ x. insert-Stays (length es) id x c.receive h))
        e (λ d t k q. happen_all-Stays es id d c' t s' k q)
    where
      go :
          (r : Option (AsymmetricalFrameIdCache × S))
          → Leaves (Stays (length es) id) r
          → and_then r (happen_all es) ≡ some (c', s')
          → ((d : AsymmetricalFrameIdCache) (t : S)
              → Stays (length es) id d.receive
              → happen_all es (d, t) ≡ some (c', s')
              → Stays 0 id c'.receive)
          → Stays 0 id c'.receive
      go (some (d, t)) k e ih = ih d t k e
      go none k e ih = cc e
