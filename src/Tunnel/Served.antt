-- ===== src/Tunnel/Served.antt =====
-- An open socket stands in its port, which hands it the frames from its source.
use heterogeneous_network.Base.{
  ℕ, ◌≡◌, refl, sym, ap, ◌∙◌, false, List, Option, none, some, ◌==◌, ==_iff, ==_refl, Bool-cases,
  inl, inr,
}
use heterogeneous_network.Base.Dict.{lookup, mem, lookup-insert, entries-insert}
use heterogeneous_network.Objects.{set}
use heterogeneous_network.Objects.Paired.{IsPaired, set-IsPaired}
use heterogeneous_network.Tunnel.Service.{
  PortIdentifier, Port, TunnelService, new_sender, put, port_key,
}
use heterogeneous_network.Tunnel.Reach.{with_sender}

module _ (key : PortIdentifier → ℕ) where
  -- The sender stands in the port at `id`, at the key of the identifier.
  abbrev pub Serves : ℕ → PortIdentifier → ℕ → List (ℕ × Port) → Type 0
  Serves id i s ports =
      (p : Port) × (lookup id ports ≡ some p) × (lookup (key i) p.frame_sender.value_map ≡ some s)

  -- Every sender that is not closed stands in its port.
  pub record IsServed (t : TunnelService) : Type 0 where
    pub paired : IsPaired port_key t.ports
    pub serves :
        (s id : ℕ) (i : PortIdentifier)
        → lookup s t.sockets ≡ some (id, i)
        → mem s t.closed ≡ false
        → Serves id i s t.ports.value_map

  pub put-IsServed :
      (id : ℕ) (p : Port) (t : TunnelService)
      → IsServed t
      → ((i : PortIdentifier) (s : ℕ)
          → Serves id i s t.ports.value_map
          → lookup (key i) p.frame_sender.value_map ≡ some s)
      → IsServed (put id p t)
  unfolding set
  put-IsServed id p t h k = record {
    paired = set-IsPaired port_key id p t.ports h.paired;
    serves = λ s j i e c.
        let (q, l, m) = h.serves s j i e c in
        elim (Bool-cases (id == j)) [
          | inl b ↦
              let same = (==_iff id j).0 b in
              (
                p,
                lookup-insert j id p t.ports.value_map ∙ rw b refl,
                k i s (q, ap (λ n. lookup n t.ports.value_map) same ∙ l, m),
              )
          | inr b ↦ (q, lookup-insert j id p t.ports.value_map ∙ rw b l, m)
        ];
  }

  new_sender-IsServed :
      (id : ℕ) (i : PortIdentifier) (t : TunnelService)
      → IsServed t
      → Serves id i t.next t.ports.value_map
      → IsServed (new_sender id i t)
  new_sender-IsServed id i t h k = record {
    paired = h.paired;
    serves = λ s j a e c.
        entries-insert (λ r x. mem r t.closed ≡ false → Serves x.0 x.1 r t.ports.value_map) t.next
          (id, i) t.sockets (λ d. k) (λ r x b q d. h.serves r x.0 x.1 q d) s (j, a) e c;
  }

  -- A port that is put where there was none has nothing to keep.
  pub nothing :
      (id : ℕ) (t : TunnelService) (A : Type 0) (i : PortIdentifier) (s : ℕ)
      → lookup id t.ports.value_map ≡ none
      → Serves id i s t.ports.value_map
      → A
  nothing id t A i s e (p, l, m) = let clash : none ≡ some p = sym e ∙ l in absurd (cc clash)

  -- A port with the same senders.
  pub same-IsServed :
      (id : ℕ) (p : Port) (l : Option ℕ) (t : TunnelService)
      → IsServed t
      → lookup id t.ports.value_map ≡ some p
      → IsServed (put id (record p { listener = l }) t)
  same-IsServed id p l t h e =
      put-IsServed id (record p { listener = l }) t h
        (λ i s (q, m, n).
          let one : q ≡ p = cc (e, m) in
          ap (λ (x : Port). lookup (key i) x.frame_sender.value_map) (sym one) ∙ n)

  -- A port with one more sender, at a key where there was none.
  pub more-IsServed :
      (id : ℕ) (i : PortIdentifier) (p : Port) (t : TunnelService)
      → IsServed t
      → lookup id t.ports.value_map ≡ some p
      → lookup (key i) p.frame_sender.value_map ≡ none
      → IsServed (new_sender id i (put id (with_sender key i t.next p) t))
  unfolding set
  more-IsServed id i p t h e f =
      let m = p.frame_sender.value_map in
      new_sender-IsServed id i (put id (with_sender key i t.next p) t)
        (put-IsServed id (with_sender key i t.next p) t h (λ j s (q, l, n).
          let one : q ≡ p = cc (e, l) in
          let at : lookup (key j) m ≡ some s =
            ap (λ (x : Port). lookup (key j) x.frame_sender.value_map) (sym one) ∙ n in
          elim (Bool-cases (key i == key j)) [
            | inl b ↦
                let clash : none ≡ some s =
                  sym f ∙ ap (λ n. lookup n m) ((==_iff (key i) (key j)).0 b) ∙ at in
                absurd (cc clash)
            | inr b ↦ lookup-insert (key j) (key i) t.next m ∙ rw b at
          ]))
        (
          with_sender key i t.next p,
          lookup-insert id id (with_sender key i t.next p) t.ports.value_map ∙ rw (==_refl id) refl,
          lookup-insert (key i) (key i) t.next m ∙ rw (==_refl (key i)) refl,
        )
