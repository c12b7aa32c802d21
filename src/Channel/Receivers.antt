-- ===== src/Channel/Receivers.antt =====
-- ts-core/src/channel.ts: the receivers that are made of another receiver, and `forEach`. A `next`
-- that asks for one value after the other runs on fuel; it is none where the fuel runs out.
pub mod Drain
use heterogeneous_network.Base.{
  ℕ, zero, suc, Bool, true, false, List, [], ◌∷◌, Option, none, some, if◌then◌else◌,
}
use heterogeneous_network.Channel.{Channel, Next, received, ended, waiting}
use heterogeneous_network.Channel as Channels

-- IReceiver: its state is what `next` changes.
pub record IReceiver (S A : Type 0) : Type 0 where
  pub next : S → Option (Next A × S)
  pub is_closed : S → Bool

-- The Receiver of a channel; its state is its `#head`.
unfoldable pub receiver_of : {A : Type 0} → Channel A → IReceiver ℕ A
unfolding Channels.next Channels.is_closed
receiver_of c = record {
  next = λ head. some (Channels.next c head);
  is_closed = Channels.is_closed c;
}

module _ {S A B : Type 0} (r : IReceiver S A) where
  abbrev mapped : (A → B) → Option (Next A × S) → Option (Next B × S)
  mapped f none = none
  mapped f (some (received v, s)) = some (received (f v), s)
  mapped f (some (ended, s)) = some (ended, s)
  mapped f (some (waiting, s)) = some (waiting, s)

  -- Map
  unfoldable pub map_receiver : (A → B) → IReceiver S B
  map_receiver f = record { next = λ s. mapped f (r.next s); is_closed = r.is_closed }

  -- `FilterMap.next`: `rest` is what the recursive call gives at a state.
  abbrev pub filter_mapped :
      (A → Option B) → (S → Option (Next B × S)) → Option (Next A × S) → Option (Next B × S)
  filter_mapped f rest none = none
  filter_mapped f rest (some (received v, s)) = elim (f v) [
    | none ↦ rest s
    | some b ↦ some (received b, s)
  ]
  filter_mapped f rest (some (ended, s)) = some (ended, s)
  filter_mapped f rest (some (waiting, s)) = some (waiting, s)

  unfoldable pub filter_map_next : (A → Option B) → ℕ → S → Option (Next B × S)
  filter_map_next f zero s = none
  filter_map_next f (suc fuel) s = filter_mapped f (filter_map_next f fuel) (r.next s)

  -- FilterMap
  unfoldable pub filter_map_receiver : (A → Option B) → ℕ → IReceiver S B
  unfolding filter_map_next
  filter_map_receiver f fuel = record { next = filter_map_next f fuel; is_closed = r.is_closed }

module _ {S A : Type 0} (r : IReceiver S A) where
  abbrev passing : (A → Bool) → A → Option A
  passing p v = if p v then some v else none

  -- Filter: what passes is returned as it is.
  unfoldable pub filter_receiver : (A → Bool) → ℕ → IReceiver S A
  unfolding filter_map_receiver
  filter_receiver p fuel = filter_map_receiver r (passing p) fuel

  -- The values that a callback is called with, before the values of the calls after it.
  abbrev called : A → Option (List A × Next A × S) → Option (List A × Next A × S)
  called v none = none
  called v (some (vs, last, s)) = some (v ∷ vs, last, s)

  abbrev pub looped :
      (S → Option (List A × Next A × S)) → Option (Next A × S) → Option (List A × Next A × S)
  looped rest none = none
  looped rest (some (received v, s)) = called v (rest s)
  looped rest (some (ended, s)) = some ([], ended, s)
  looped rest (some (waiting, s)) = some ([], waiting, s)

  -- `forEach`: the values that the callback is called with, and the `next` that ends the loop or
  -- that the loop waits on.
  unfoldable pub for_each : ℕ → S → Option (List A × Next A × S)
  for_each zero s = none
  for_each (suc fuel) s = looped (for_each fuel) (r.next s)
