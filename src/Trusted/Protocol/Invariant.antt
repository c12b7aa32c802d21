-- ===== src/Trusted/Protocol/Invariant.antt =====
-- What holds between the two sockets and the tunnel at all times.
use heterogeneous_network.Base.{
  ℕ, ◌+◌, ◌≤◌, ◌<◌, ◌≡◌, refl, true, List, [], ◌∷◌, ◌++◌, none, some, All, length, get_elem?,
  get_elem?-append, get_elem?-middle, All-map, arith,
}
use heterogeneous_network.Trusted.Frame.{Payload, DataFrameBody}
use heterogeneous_network.Trusted.Data.Sender.{IsHead, Represents}
use heterogeneous_network.Trusted.Protocol.{Network, start}

-- One payload may be on its way beyond those that are acknowledged.
abbrev pub flight : List Payload → ℕ
flight [] = 0
flight (q ∷ qs) = 1

pub flight-le-one : (qs : List Payload) → flight qs ≤ 1
flight-le-one [] = omega arith
flight-le-one (q ∷ qs) = omega arith

-- The frame carries the payload that stands under its number, and the number is below `bound`.
abbrev pub IsSent : List Payload → ℕ → DataFrameBody → Type 0
IsSent stream bound b =
    (get_elem? stream b.sequence_number ≡ some b.payload) × (b.sequence_number < bound)

pub record Inv (s : Network) : Type 0 where
  pub acked : List Payload
  pub unacked : List Payload
  pub rest : List Payload
  pub split : s.stream ≡ acked ++ unacked
  pub queue : Represents (length acked) unacked s.sender
  pub is_prefix : s.stream ≡ s.delivered ++ rest
  pub receiver_open : s.receiver.is_open ≡ true
  pub idle : s.receiver.sending_frame ≡ none
  pub due : s.receiver.next_receive ≡ length s.delivered
  pub frames_sent : All (IsSent s.stream (length acked + flight unacked)) s.frames
  pub acks_sent : All (λ (a : ℕ). a ≤ length s.delivered) s.acks
  pub behind : length acked ≤ length s.delivered
  pub ahead : length s.delivered ≤ length acked + flight unacked

pub start-Inv : Inv start
start-Inv = record {
  acked = [];
  unacked = [];
  rest = [];
  split = refl;
  queue = (refl, refl, (refl, refl));
  is_prefix = refl;
  receiver_open = refl;
  idle = refl;
  due = refl;
  frames_sent = tt;
  acks_sent = tt;
  behind = omega arith;
  ahead = omega arith;
}

-- The head of the queue carries its payload of the stream.
pub IsHead-IsSent :
    (acked unacked : List Payload) (b : DataFrameBody)
    → IsHead (length acked) unacked b
    → IsSent (acked ++ unacked) (length acked + flight unacked) b
IsHead-IsSent acked [] b h = absurd h
IsHead-IsSent acked (q ∷ qs) b h =
    (rw (h.0, h.1) (get_elem?-middle acked qs q), rw h.0 (omega arith))

-- Frames keep what is said of them while the stream and the bound grow.
pub IsSent-mono :
    (stream more : List Payload) (m n : ℕ) (frames : List DataFrameBody)
    → m ≤ n
    → All (IsSent stream m) frames
    → All (IsSent (stream ++ more) n) frames
IsSent-mono stream more m n frames le h =
    All-map frames
      (λ b k. (get_elem?-append stream more b.sequence_number b.payload k.0, omega (arith, k.1))) h
