-- ===== src/Tunnel/Hands.antt =====
-- The steps of a tunnel service keep every open socket in its port.
use heterogeneous_network.Base.{
  ℕ, suc, ◌≡◌, refl, sym, ap, ◌∙◌, Bool, true, false, Option, none, some, ==_refl, Option-cases,
  inl, inr, if_keeps,
}
use mathlib.Core.Path.{subst}
use heterogeneous_network.Base.Dict.{lookup, is_some, lookup-insert}
use heterogeneous_network.Objects.{get, has, set}
use heterogeneous_network.Objects.Paired.{new_map-IsPaired}
use heterogeneous_network.Tunnel.Service.{
  PortIdentifier, Port, TunnelService, new_port, new_sender, put, opened, open_port, listen,
  listen_at, listen_port, cancel, is_listener,
}
use heterogeneous_network.Tunnel.Ports.{IsValid}
use heterogeneous_network.Tunnel.Reach.{open_sender_lem, no_sender}
use heterogeneous_network.Tunnel.Served.{
  IsServed, put-IsServed, nothing, same-IsServed, more-IsServed,
}

module _ (key : PortIdentifier → ℕ) where
  no_value :
      (id : ℕ) (t : TunnelService)
      → IsServed key t
      → is_some (lookup id t.ports.key_map) ≡ false
      → lookup id t.ports.value_map ≡ none
  no_value id t h e = elim (Option-cases (lookup id t.ports.value_map)) [
    | inl n ↦ n
    | inr (p, l) ↦
        let clash : true ≡ false = sym (ap is_some l) ∙ sym (h.paired.same id) ∙ e in
        absurd (cc clash)
  ]

  put-there :
      (id : ℕ) (p : Port) (t : TunnelService) → lookup id (put id p t).ports.value_map ≡ some p
  unfolding set
  put-there id p t = lookup-insert id id p t.ports.value_map ∙ rw (==_refl id) refl

  pub open_port-IsServed :
      (id : ℕ) (i : PortIdentifier) (t : TunnelService)
      → IsValid key t
      → IsServed key t
      → IsServed key (open_port key id i t).1
  unfolding open_port has
  open_port-IsServed id i t v h =
      if_keeps (λ (r : Bool × TunnelService). IsServed key r.1)
        (is_some (lookup id t.ports.key_map)) _ _ (λ b. h)
        (λ b.
          subst (λ o. IsServed key (opened key id o (new_sender id i (put id new_port t))).1)
            (sym (open_sender_lem key i t.next new_port (new_map-IsPaired key) (no_sender key i)))
            (more-IsServed key id i new_port (put id new_port t)
              (put-IsServed key id new_port t h (λ j s. nothing key id t _ j s (no_value id t h b)))
              (put-there id new_port t) (no_sender key i)))

  bump-IsServed :
      (t : TunnelService) → IsServed key t → IsServed key (record t { next = suc t.next })
  bump-IsServed t h = record { paired = h.paired; serves = h.serves }

  pub listen-IsServed : (id : ℕ) (t : TunnelService) → IsServed key t → IsServed key (listen id t).1
  unfolding listen get set
  listen-IsServed id t h = go (lookup id t.ports.value_map) refl
    where
      at :
          (p : Port) (o : Option ℕ)
          → lookup id t.ports.value_map ≡ some p
          → IsServed key (listen_port id p o t).1
      at p (some l) e = h
      at p none e = bump-IsServed _ (same-IsServed key id p (some t.next) t h e)

      go : (o : Option Port) → lookup id t.ports.value_map ≡ o → IsServed key (listen_at id o t).1
      go none e = bump-IsServed _ (
          put-IsServed key id (record new_port { listener = some t.next }) t h
            (λ j s. nothing key id t _ j s e))
      go (some p) e = at p p.listener e

  pub cancel-IsServed :
      (id l : ℕ) (t : TunnelService) → IsServed key t → IsServed key (cancel id l t)
  unfolding cancel get set
  cancel-IsServed id l t h = elim (Option-cases (lookup id t.ports.value_map)) [
    | inl e ↦ rw e h
    | inr (p, e) ↦ rw e (
        if_keeps (IsServed key) (is_listener l p.listener) _ _
          (λ b. same-IsServed key id p none t h e) (λ b. h))
  ]
