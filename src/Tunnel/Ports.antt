-- ===== src/Tunnel/Ports.antt =====
-- Which sockets the ports of a tunnel service hand frames to.
use heterogeneous_network.Base.{
  ℕ, suc, ◌<◌, ◌≡◌, ◌∙◌, true, false, List, some, arith, ◌==◌, All, All-map,
}
use heterogeneous_network.Base.Dict.{lookup, insert, mem, lookup-insert, entries-insert}
use heterogeneous_network.Objects.{set}
use heterogeneous_network.Objects.Paired.{IsPaired, new_map-IsPaired}
use heterogeneous_network.Tunnel.Frame.{ReceivedTunnelFrame}
use heterogeneous_network.Tunnel.Service.{
  PortIdentifier, Port, TunnelService, identifier_of, new_port, new_sender, put,
}

module _ (key : PortIdentifier → ℕ) where
  -- The sender was made for the local port and an identifier of the key, and is not closed.
  abbrev pub IsOpen : ℕ → ℕ → ℕ → List (ℕ × (ℕ × PortIdentifier)) → List ℕ → Type 0
  IsOpen id k s sockets closed =
      (i : PortIdentifier) × (lookup s sockets ≡ some (id, i))
      × (key i ≡ k)
      × (mem s closed ≡ false)

  -- The port at `id`: its two maps have the same keys, and its senders are open.
  abbrev pub IsPort : ℕ → Port → List (ℕ × (ℕ × PortIdentifier)) → List ℕ → Type 0
  IsPort id p sockets closed =
      IsPaired key p.frame_sender
      × ((k s : ℕ) → lookup k p.frame_sender.value_map ≡ some s → IsOpen id k s sockets closed)

  -- A frame that was handed to a sender of its destination port and its source.
  abbrev pub IsOwn : List (ℕ × (ℕ × PortIdentifier)) → ℕ × ReceivedTunnelFrame → Type 0
  IsOwn sockets d =
      (i : PortIdentifier) × (lookup d.0 sockets ≡ some (d.1.frame.destination_port_id, i))
      × (key i ≡ key (identifier_of d.1))

  pub record IsValid (t : TunnelService) : Type 0 where
    pub ports :
        (id : ℕ) (p : Port) → lookup id t.ports.value_map ≡ some p → IsPort id p t.sockets t.closed
    pub made : (s : ℕ) (x : ℕ × PortIdentifier) → lookup s t.sockets ≡ some x → s < t.next
    pub shut : (s : ℕ) → mem s t.closed ≡ true → s < t.next
    pub delivered : All (IsOwn t.sockets) t.delivered

  pub new_port-IsPort :
      (id : ℕ) (sockets : List (ℕ × (ℕ × PortIdentifier))) (closed : List ℕ)
      → IsPort id new_port sockets closed
  unfolding lookup
  new_port-IsPort id sockets closed = (new_map-IsPaired key, λ k s e. cc)

  pub put-IsValid :
      (id : ℕ) (p : Port) (t : TunnelService)
      → IsValid t
      → IsPort id p t.sockets t.closed
      → IsValid (put id p t)
  unfolding set
  put-IsValid id p t h k = record {
    ports =
        entries-insert (λ j q. IsPort j q t.sockets t.closed) id p t.ports.value_map k
          (λ j q b e. h.ports j q e);
    made = h.made;
    shut = h.shut;
    delivered = h.delivered;
  }

  -- What was made stays as it was.
  pub grown :
      (id : ℕ) (i : PortIdentifier) (t : TunnelService) (s : ℕ) (x : ℕ × PortIdentifier)
      → IsValid t
      → lookup s t.sockets ≡ some x
      → lookup s (insert t.next (id, i) t.sockets) ≡ some x
  grown id i t s x h e =
      let other : (t.next == s) ≡ false = ground (arith, h.made s x e) in
      lookup-insert s t.next (id, i) t.sockets ∙ rw other e

  pub new_sender-IsValid :
      (id : ℕ) (i : PortIdentifier) (t : TunnelService) → IsValid t → IsValid (new_sender id i t)
  new_sender-IsValid id i t h = record {
    ports = λ j p e. (
      (h.ports j p e).0,
      λ k s q. let (a, l, c, d) = (h.ports j p e).1 k s q in (a, grown id i t s _ h l, c, d),
    );
    made =
        entries-insert (λ s x. s < suc t.next) t.next (id, i) t.sockets (omega arith)
          (λ s x b e. omega (arith, h.made s x e));
    shut = λ s e. omega (arith, h.shut s e);
    delivered =
        All-map t.delivered (λ d own. (own.0, grown id i t d.0 _ h own.1, own.2)) h.delivered;
  }
