-- ===== src/Routing/Once.antt =====
-- A frame that a routing socket has seen does nothing when it comes again.
use heterogeneous_network.Base.{
  ℕ, ◌<◌, ◌≡◌, refl, sym, ap, Bool, true, false, List, none, some, length, Bool-cases, inl, inr,
}
use heterogeneous_network.Base.{ok as returned}
use heterogeneous_network.Serde.Traits.{ok}
use heterogeneous_network.Serde.Buffer.{buffer_writer}
use heterogeneous_network.Node.Id.{NodeId}
use heterogeneous_network.Node.Endpoint.{Source}
use heterogeneous_network.Routing.Frame.{ReceivedRoutingFrame, deserialize_from_neighbor_frame}
use heterogeneous_network.Routing.FrameIdCache.{
  AsymmetricalFrameIdCache, insert_and_check_contains_as_received,
}
use heterogeneous_network.Routing.Socket.{Below, Handled, first_time, handle_received_frame}
use heterogeneous_network.Routing.Events.{Event, happen_all, happen_all-Stays}
use heterogeneous_network.Discovery.FrameId.{contains, insert, insert_and_check_contains}
use heterogeneous_network.Discovery.Stays.{Stays, Stays-contains, insert_new-Stays}

module _ {S : Type 0} (b : Below S) (include_loopback : Bool) where
  -- The neighbor frame holds a routing frame.
  abbrev pub Holds : NodeId → List ℕ → ReceivedRoutingFrame → Type 0
  Holds sender payload f = deserialize_from_neighbor_frame buffer_writer sender payload ≡ ok f

  handled_known :
      (local : Source) (sender : NodeId) (payload : List ℕ) (f : ReceivedRoutingFrame)
      (c : AsymmetricalFrameIdCache) (s : S)
      → Holds sender payload f
      → contains f.frame.frame_id c.receive ≡ true
      → handle_received_frame b include_loopback local sender payload c s
        ≡ returned (record {
          coming = false;
          delivered = none;
          cache = record c { receive = insert f.frame.frame_id c.receive };
          below = s;
        })
  unfolding handle_received_frame insert_and_check_contains_as_received insert_and_check_contains
  handled_known local sender payload f c s d k = rw (d, k) refl

  -- A frame that is announced was not known, and is known then.
  handled_new :
      (local : Source) (sender : NodeId) (payload : List ℕ) (f : ReceivedRoutingFrame)
      (c : AsymmetricalFrameIdCache) (s : S) (h : Handled b include_loopback)
      → Holds sender payload f
      → handle_received_frame b include_loopback local sender payload c s ≡ returned h
      → h.coming ≡ true
      → (contains f.frame.frame_id c.receive ≡ false)
        × (h.cache.receive ≡ insert f.frame.frame_id c.receive)
  unfolding handle_received_frame insert_and_check_contains_as_received insert_and_check_contains
  handled_new local sender payload f c s h d e k =
      elim (Bool-cases (contains f.frame.frame_id c.receive)) [
        | inl q ↦
            let known = handled_known local sender payload f c s d q in
            let silent : h.coming ≡ false = cc (known, e) in absurd (cc (silent, k))
        | inr q ↦
            let next = record c { receive = insert f.frame.frame_id c.receive } in
            let run : handle_received_frame b include_loopback local sender payload c s
                ≡ returned (first_time b include_loopback local f payload (false, next) s) =
              rw (d, q) refl in
            let same : first_time b include_loopback local f payload (false, next) s ≡ h =
              cc (run, e) in
            (q, sym (ap (λ x. x.cache.receive) same))
      ]

  -- A routing socket that has announced the frame of a neighbor frame, as it does for a frame that it
  -- delivers or relays. Then come fewer events than the cache of received ids has room for, in any
  -- order: neighbor frames, of which some may be malformed or make the handler throw, and calls of
  -- `send`, of which some may throw, and each of which ends drawing ids. After them a neighbor frame
  -- with a frame of the same id is dropped: nothing is announced, delivered or sent on.
  pub seen_frame-dropped :
      (local : Source) (sender : NodeId) (payload : List ℕ) (f : ReceivedRoutingFrame)
      (c : AsymmetricalFrameIdCache) (s : S) (h : Handled b include_loopback) (es : List Event)
      (later : AsymmetricalFrameIdCache) (t : S) (local_then : Source) (other : NodeId)
      (again : List ℕ) (g : ReceivedRoutingFrame)
      → Holds sender payload f
      → handle_received_frame b include_loopback local sender payload c s ≡ returned h
      → h.coming ≡ true
      → length es < c.receive.max_cache_size
      → happen_all b include_loopback es (h.cache, h.below) ≡ some (later, t)
      → Holds other again g
      → g.frame.frame_id ≡ f.frame.frame_id
      → (end : AsymmetricalFrameIdCache) × (handle_received_frame b include_loopback local_then
            other again later t
          ≡ returned (record { coming = false; delivered = none; cache = end; below = t }))
  seen_frame-dropped local sender payload f c s h es later t local_then other again g d e k few run
        d' same =
      let new = handled_new local sender payload f c s h d e k in
      let kept : Stays (length es) f.frame.frame_id h.cache.receive =
        rw new.1 (insert_new-Stays (length es) f.frame.frame_id c.receive new.0 few) in
      let known : contains g.frame.frame_id later.receive ≡ true = rw same (
        Stays-contains 0 f.frame.frame_id later.receive (
          happen_all-Stays b include_loopback es f.frame.frame_id h.cache later h.below t kept
            run)) in
      (_, handled_known local_then other again g later t d' known)
