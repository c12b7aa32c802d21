-- ===== src/Channel/Session.antt =====
-- A sender, its receivers, and the calls that are made on them in any order.
use heterogeneous_network.Base.{
  ℕ, Bool, true, false, List, [], ◌∷◌, ◌++◌, Option, none, some, Throws, ok, throw, length,
  get_elem?, set,
}
use heterogeneous_network.Channel.{
  Channel, Next, received, ended, waiting, new_sender, receiver, send, close, close_receiver, next,
}

-- A receiver: its `#head`, the number of the values that had been sent when it was made, and the
-- values that its `next` has returned.
pub record Receiver (A : Type 0) : Type 0 where
  pub head : ℕ
  pub since : ℕ
  pub got : List A

-- The channel, the sender's `#head`, and what the sender has done without an exception: the values
-- that it sent, and whether it closed the channel.
pub record Session (A : Type 0) : Type 0 where
  pub channel : Channel A
  pub head : ℕ
  pub sent : List A
  pub is_done : Bool
  pub receivers : List (Receiver A)

pub data Call (A : Type 0) : Type 0 where
  send_value : A → Call A
  close_sender make_receiver close_by_receiver : Call A
  -- `next` on the receiver of the index.
  read : ℕ → Call A

module _ {A : Type 0} where
  abbrev pub new_session : Session A
  new_session = record {
    channel = (new_sender {A = A}).0;
    head = (new_sender {A = A}).1;
    sent = [];
    is_done = false;
    receivers = [];
  }

  abbrev on_sent : A → Session A → Throws (Channel A × ℕ) → Session A
  on_sent v s (ok p) = record s { channel = p.0; head = p.1; sent = s.sent ++ (v ∷ []) }
  on_sent v s throw = s

  abbrev on_closed : Session A → Throws (Channel A × ℕ) → Session A
  on_closed s (ok p) = record s { channel = p.0; head = p.1; is_done = true }
  on_closed s throw = s

  abbrev on_receiver : Session A → Throws ℕ → Session A
  on_receiver s (ok h) =
      let r : Receiver A = record { head = h; since = length s.sent; got = [] } in
      record s { head = h; receivers = s.receivers ++ (r ∷ []) }
  on_receiver s throw = s

  abbrev pub after : Receiver A → Next A × ℕ → Receiver A
  after r (received v, head) = record r { head = head; got = r.got ++ (v ∷ []) }
  after r (ended, head) = record r { head = head }
  after r (waiting, head) = record r { head = head }

  abbrev pub on_read : ℕ → Session A → Option (Receiver A) → Session A
  on_read i s (some r) = record s {
    receivers = set s.receivers i (after r (next s.channel r.head));
  }
  on_read i s none = s

  -- A call; where it throws, nothing is sent. A `next` that does not settle is made again later.
  unfoldable pub perform : Call A → Session A → Session A
  unfolding send close receiver next
  perform (send_value v) s = on_sent v s (send v s.channel s.head)
  perform close_sender s = on_closed s (close s.channel s.head)
  perform make_receiver s = on_receiver s (receiver s.channel s.head)
  perform close_by_receiver s = record s { channel = close_receiver s.channel }
  perform (read i) s = on_read i s (get_elem? s.receivers i)

  unfoldable pub perform_all : List (Call A) → Session A → Session A
  unfolding perform
  perform_all [] s = s
  perform_all (c ∷ cs) s = perform_all cs (perform c s)
