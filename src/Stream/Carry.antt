-- ===== src/Stream/Carry.antt =====
-- The frames that a stream hands to its socket, and what the listener at the other end makes of them.
use heterogeneous_network.Base.{
  ℕ, ◌≡◌, refl, sym, ap, ◌∙◌, ◌⊎◌, inl, inr, Bool, true, false, List, [], ◌∷◌, ◌++◌, none, some,
  Throws, ok, throw, arith, All, All-append, if◌then◌else◌,
}
use heterogeneous_network.Base.{◌>>=◌ as bind}
use mathlib.Core.List.{append_assoc, append-nil}
use heterogeneous_network.Serde.Buffer.Writing.{IsByte, buffer_laws, serialize-bytes}
use heterogeneous_network.Stream.Frame.{StreamFrame, stream_bytes, stream_frame-RoundTripsLast}
use heterogeneous_network.Stream.Socket.{
  FrameAccumulator, new_accumulator, SendError, Answer, settles, never, Transport, inner_send,
  accumulate, receive, receive_all,
}
use heterogeneous_network.Stream.Accumulate.{concat, concat-snoc, take_all-concat}

-- What a trusted socket does with a payload: its `send` is settled with `Ok`, and the payload is
-- handed to the user at the other end; or it is settled with an error or never, and the payload is
-- handed over (true) or is not.
pub data Reply : Type 0 where
  succeeds : Reply
  fails : SendError → Bool → Reply
  hangs : Bool → Reply

-- The replies that are left, and what the user at the other end was handed.
pub record Script : Type 0 where
  pub replies : List Reply
  pub handed : List (List ℕ)

-- The payload goes to the other end or not.
abbrev pub hand : Bool → List ℕ → List (List ℕ) → List (List ℕ)
hand true b handed = handed ++ (b ∷ [])
hand false b handed = handed

abbrev pub reply : List Reply → List ℕ → List (List ℕ) → Answer × Script
reply [] b handed = (never, record { replies = []; handed = handed })
reply (succeeds ∷ rs) b handed =
    (settles none, record { replies = rs; handed = handed ++ (b ∷ []) })
reply (fails e over ∷ rs) b handed =
    (settles (some e), record { replies = rs; handed = hand over b handed })
reply (hangs over ∷ rs) b handed = (never, record { replies = rs; handed = hand over b handed })

-- A trusted socket that replies as it is told, and hangs where it is told no more; `room` is its
-- maximal payload length while some replies are left.
abbrev pub scripted : (List Reply → ℕ) → Transport Script
scripted room = record {
  max_payload_length = λ s. room s.replies;
  send = λ b s. reply s.replies b s.handed;
}

-- What the user at the other end is handed after a `send`: the payload where it is settled with `Ok`,
-- and the payload or nothing otherwise.
abbrev pub Hands : List ℕ → List (List ℕ) → Answer × Script → Type 0
Hands b handed (settles none, s) = s.handed ≡ handed ++ (b ∷ [])
Hands b handed (settles (some e), s) = (s.handed ≡ handed) ⊎ (s.handed ≡ handed ++ (b ∷ []))
Hands b handed (never, s) = (s.handed ≡ handed) ⊎ (s.handed ≡ handed ++ (b ∷ []))

hand-cases :
    (over : Bool) (b : List ℕ) (handed : List (List ℕ))
    → (hand over b handed ≡ handed) ⊎ (hand over b handed ≡ handed ++ (b ∷ []))
hand-cases true b handed = inr refl
hand-cases false b handed = inl refl

pub reply-Hands :
    (rs : List Reply) (b : List ℕ) (handed : List (List ℕ)) → Hands b handed (reply rs b handed)
reply-Hands [] b handed = inl refl
reply-Hands (succeeds ∷ rs) b handed = refl
reply-Hands (fails e over ∷ rs) b handed = hand-cases over b handed
reply-Hands (hangs over ∷ rs) b handed = hand-cases over b handed

pub stream-IsByte : (f : StreamFrame) → All IsByte f.payload → All IsByte (stream_bytes f)
stream-IsByte f h =
    All-append IsByte ((if f.fin then 1 else 0) ∷ []) (f.payload ++ []) (flag f.fin, tt)
      (All-append IsByte f.payload [] h tt)
  where
    flag : (b : Bool) → IsByte (if b then 1 else 0)
    flag true = omega arith
    flag false = omega arith

-- A frame of bytes is serialized, and the socket is given its bytes.
pub inner_send-bytes :
    {S : Type 0} (t : Transport S) (f : StreamFrame) (s : S)
    → All IsByte f.payload
    → inner_send t f s ≡ ok (t.send (stream_bytes f) s)
unfolding inner_send
inner_send-bytes t f s h =
    let print = (stream_frame-RoundTripsLast buffer_laws f).0 in
    rw (print.1, serialize-bytes print.0 (stream_bytes f) print.2 (stream-IsByte f h)) refl

-- The listener reads the frame that was sent.
pub receive-bytes :
    (f : StreamFrame) (a : FrameAccumulator) → receive (stream_bytes f) a ≡ accumulate f a
unfolding receive
receive-bytes f a =
    rw
      ((stream_frame-RoundTripsLast buffer_laws f).1
        (record { buffer = stream_bytes f; offset = 0 }) (refl, omega arith))
      refl

-- The calls of two runs of frames.
abbrev Calls : Type 0
Calls = FrameAccumulator × List (List ℕ)

abbrev after : List (List ℕ) → Throws Calls → Throws Calls
after us r = bind r (λ q. ok (q.0, us ++ q.1))

after-after :
    (us vs : List (List ℕ)) (r : Throws Calls) → after us (after vs r) ≡ after (us ++ vs) r
after-after us vs (ok q) = rw (append_assoc us vs q.1) refl
after-after us vs throw = refl

receive_all-append :
    (xs ys : List (List ℕ)) (a : FrameAccumulator)
    → receive_all (xs ++ ys) a ≡ bind (receive_all xs a) (λ p. after p.1 (receive_all ys p.0))
unfolding receive_all
receive_all-append [] ys a = eta (receive_all ys a)
  where
    eta : (r : Throws Calls) → r ≡ after [] r
    eta (ok q) = refl
    eta throw = refl
receive_all-append (x ∷ xs) ys a = go (receive x a) (λ b. receive_all-append xs ys b)
  where
    second :
        (us : List (List ℕ)) (r : Throws Calls)
        → after us (bind r (λ p. after p.1 (receive_all ys p.0)))
          ≡ bind (after us r) (λ p. after p.1 (receive_all ys p.0))
    second us (ok q) = after-after us q.1 (receive_all ys q.0)
    second us throw = refl

    go :
        (r : Throws Calls)
        → ((b : FrameAccumulator)
            → receive_all (xs ++ ys) b
              ≡ bind (receive_all xs b) (λ p. after p.1 (receive_all ys p.0)))
        → bind r (λ p. after p.1 (receive_all (xs ++ ys) p.0))
          ≡ bind
              (bind r (λ p. after p.1 (receive_all xs p.0)))
              (λ p. after p.1 (receive_all ys p.0))
    go (ok p) ih = ap (after p.1) (ih p.0) ∙ second p.1 (receive_all xs p.0)
    go throw ih = refl

pub accumulate-last :
    (c : List ℕ) (ps : List (List ℕ))
    → All (All IsByte) ps
    → All IsByte c
    → accumulate (record { fin = true; payload = c }) (record { payloads = ps })
      ≡ ok (new_accumulator, (concat ps ++ c) ∷ [])
unfolding accumulate
accumulate-last c ps h k =
    rw (take_all-concat (ps ++ (c ∷ [])) (All-append (All IsByte) ps (c ∷ []) h (k, tt)))
      (rw (concat-snoc ps c) refl)

-- From the one state to the other, the receiver is handed payloads that make these calls.
abbrev pub Carries : Script → Script → FrameAccumulator → FrameAccumulator → List (List ℕ) → Type 0
Carries s s' a a' calls =
    (bs : List (List ℕ)) × (s'.handed ≡ s.handed ++ bs) × (receive_all bs a ≡ ok (a', calls))

pub Carries-same :
    (s s' : Script) (a : FrameAccumulator) → s'.handed ≡ s.handed → Carries s s' a a []
unfolding receive_all
Carries-same s s' a e = ([], e ∙ sym (append-nil s.handed), refl)

pub Carries-append :
    (s s' s'' : Script) (a a' a'' : FrameAccumulator) (us vs : List (List ℕ))
    → Carries s s' a a' us
    → Carries s' s'' a' a'' vs
    → Carries s s'' a a'' (us ++ vs)
Carries-append s s' s'' a a' a'' us vs h k = (
  h.0 ++ k.0,
  k.1 ∙ ap (λ l. l ++ k.0) h.1 ∙ append_assoc s.handed h.0 k.0,
  receive_all-append h.0 k.0 a ∙ rw h.2 (rw k.2 refl),
)

pub Carries-one :
    (f : StreamFrame) (s s' : Script) (a a' : FrameAccumulator) (us : List (List ℕ))
    → s'.handed ≡ s.handed ++ (stream_bytes f ∷ [])
    → accumulate f a ≡ ok (a', us)
    → Carries s s' a a' us
unfolding receive_all
Carries-one f s s' a a' us e k =
    (stream_bytes f ∷ [], e, rw (receive-bytes f a, k, append-nil us) refl)
