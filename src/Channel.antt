-- ===== src/Channel.antt =====
-- ts-core/src/channel.ts: Sender and Receiver. The entries created so far are a store, and an Entry
-- object is its index in the store; what its promise `#next` was resolved to is the cell there.
pub mod Chain
pub mod Session
pub mod Outcome
pub mod Preserve
pub mod Closing
pub mod Delivery
pub mod Receivers
use heterogeneous_network.Base.{
  ℕ, zero, suc, Bool, true, false, List, [], ◌∷◌, ◌++◌, Option, none, some, Throws, ok, throw,
  length, get_elem?, set, ◌>>=◌, if◌then◌else◌,
}

pub data Cell (A : Type 0) : Type 0 where
  pending : Cell A
  -- `{ done: false, value: [value, next] }`
  value : A → ℕ → Cell A
  -- `{ done: true }`, by `resolveDone`.
  finished : Cell A

-- The entries, and the flag of the shared Close.
pub record Channel (A : Type 0) : Type 0 where
  pub entries : List (Cell A)
  pub closed : Bool

-- The result of a `next`: `waiting` where its promise is not settled.
pub data Next (A : Type 0) : Type 0 where
  received : A → Next A
  ended waiting : Next A

-- What follows `#updateHead`; none where its loop was out of fuel.
abbrev pub with_head : {B : Type 0} → Option ℕ → (ℕ → Throws B) → Throws B
with_head none f = throw
with_head (some head) f = f head

module _ {A : Type 0} where
  -- `new Sender()`: the channel, and the sender's `#head`.
  abbrev pub new_sender : Channel A × ℕ
  new_sender = (record { entries = pending ∷ []; closed = false }, 0)

  abbrev next_of : Option (Cell A) → Option ℕ
  next_of (some (value v next)) = some next
  next_of (some pending) = none
  next_of (some finished) = none
  next_of none = none

  -- `Entry.tryNextEntry`
  unfoldable pub try_next_entry : List (Cell A) → ℕ → Option ℕ
  try_next_entry entries entry = next_of (get_elem? entries entry)

  -- `Sender.#updateHead`, with fuel for its loop.
  unfoldable pub update_head : ℕ → List (Cell A) → ℕ → Option ℕ
  unfolding try_next_entry
  update_head zero entries head = none
  update_head (suc fuel) entries head = elim (try_next_entry entries head) [
    | none ↦ some head
    | some next ↦ update_head fuel entries next
  ]

  abbrev resolved : List (Cell A) → ℕ → Cell A → Option (Cell A) → Throws (List (Cell A))
  resolved entries entry new (some pending) = ok (set entries entry new)
  resolved entries entry new (some (value v next)) = throw
  resolved entries entry new (some finished) = throw
  resolved entries entry new none = throw

  -- `Entry.resolve`: the entries with a new one at their end, and the new one.
  unfoldable pub resolve : ℕ → A → List (Cell A) → Throws (List (Cell A) × ℕ)
  resolve entry v entries =
      let next = length entries in
      resolved entries entry (value v next) (get_elem? entries entry)
      >>= (λ es. ok (es ++ (pending ∷ []), next))

  -- `Entry.resolveDone`
  unfoldable pub resolve_done : ℕ → List (Cell A) → Throws (List (Cell A))
  resolve_done entry entries = resolved entries entry finished (get_elem? entries entry)

  -- `Sender.receiver`: the sender's head, which is the receiver's too.
  unfoldable pub receiver : Channel A → ℕ → Throws ℕ
  unfolding update_head
  receiver c head = with_head (update_head (length c.entries) c.entries head) (λ h. ok h)

  -- `Sender.send`
  unfoldable pub send : A → Channel A → ℕ → Throws (Channel A × ℕ)
  unfolding update_head resolve
  send v c head =
      if c.closed
      then throw
      else with_head (update_head (length c.entries) c.entries head)
          (λ h. resolve h v c.entries >>= (λ p. ok (record c { entries = p.0 }, p.1)))

  -- `Sender.close`
  unfoldable pub close : Channel A → ℕ → Throws (Channel A × ℕ)
  unfolding update_head resolve_done
  close c head =
      with_head (update_head (length c.entries) c.entries head)
        (λ h. resolve_done h c.entries >>= (λ es. ok (record { entries = es; closed = true }, h)))

  -- `Receiver.close`
  abbrev pub close_receiver : Channel A → Channel A
  close_receiver c = record c { closed = true }

  abbrev next_result : ℕ → Option (Cell A) → Next A × ℕ
  next_result head (some pending) = (waiting, head)
  next_result head (some (value v next)) = (received v, next)
  next_result head (some finished) = (ended, head)
  next_result head none = (waiting, head)

  -- `Receiver.next` without an abort signal, and the receiver's head after it.
  unfoldable pub next : Channel A → ℕ → Next A × ℕ
  next c head = next_result head (get_elem? c.entries head)

  abbrev is_finished : Option (Cell A) → Bool
  is_finished (some finished) = true
  is_finished (some pending) = false
  is_finished (some (value v next)) = false
  is_finished none = false

  -- `Receiver.isClosed`
  unfoldable pub is_closed : Channel A → ℕ → Bool
  is_closed c head = is_finished (get_elem? c.entries head)
